-- ===== src/Callback/Drain.antt =====
-- What a job's draining of its callbacks runs.
use yt_scheduler.Base.{ℕ, zero, suc, ◌≤◌, ◌≡◌, refl, List, [], ◌∷◌, length, arith}
use yt_scheduler.Base.Action.{Action}
use yt_scheduler.Callback.{Inbox, drain_callbacks}

-- The first callbacks of a queue, and the others.
abbrev pub front {ℓ} : {A : Type ℓ} → ℕ → List A → List A
front zero xs = []
front (suc n) [] = []
front (suc n) (x ∷ xs) = x ∷ front n xs

abbrev pub back {ℓ} : {A : Type ℓ} → ℕ → List A → List A
back zero xs = xs
back (suc n) [] = []
back (suc n) (x ∷ xs) = back n xs

module _ {C S : Type 0} (call : C → Action (Inbox C S) (Unit {0})) where
  abbrev drained : ℕ → List C → S → ℕ × Inbox C S
  drained max_count pending state =
      drain_callbacks call max_count (record { pending = pending; state = state })

  drained-le :
      (max_count : ℕ) (pending : List C) (s : S) → (drained max_count pending s).0 ≤ max_count
  unfolding drain_callbacks
  drained-le zero pending s = omega arith
  drained-le (suc n) [] s = omega arith
  drained-le (suc n) (cb ∷ rest) s =
      let box = (call cb (record { pending = rest; state = s })).1 in
      omega (arith, drained-le n box.pending box.state)

  -- No more callbacks are processed than allowed, whatever they do and add to the queue.
  pub drain_callbacks-le :
      (max_count : ℕ) (box : Inbox C S) → (drain_callbacks call max_count box).0 ≤ max_count
  drain_callbacks-le max_count box = drained-le max_count box.pending box.state

  module _ (effect : C → S → S)
      (quiet : (cb : C) (pending : List C) (s : S)
        → (call cb (record { pending = pending; state = s })).1
          ≡ record { pending = pending; state = effect cb s }) where
    abbrev pub effects : List C → S → S
    effects [] s = s
    effects (cb ∷ cbs) s = effects cbs (effect cb s)

    drained-front :
        (max_count : ℕ) (pending : List C) (s : S)
        → drained max_count pending s ≡ (
          length (front max_count pending),
          record { pending = back max_count pending; state = effects (front max_count pending) s },
        )
    unfolding drain_callbacks
    drained-front zero pending s = refl
    drained-front (suc n) [] s = refl
    drained-front (suc n) (cb ∷ rest) s =
        rw (quiet cb rest s, drained-front n rest (effect cb s)) refl

    -- Callbacks that add none run in the order of the queue, as many as allowed; those that raise
    -- do not keep the others from running, and the rest of the queue stays.
    pub drain_callbacks-front :
        (max_count : ℕ) (box : Inbox C S)
        → drain_callbacks call max_count box ≡ (
          length (front max_count box.pending),
          record {
            pending = back max_count box.pending;
            state = effects (front max_count box.pending) box.state;
          },
        )
    drain_callbacks-front max_count box = drained-front max_count box.pending box.state
