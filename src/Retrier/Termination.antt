-- ===== src/Retrier/Termination.antt =====
-- How often the retrier calls its function.
use yt_scheduler.Base.{ℕ, zero, suc, ◌+◌, ◌≤◌, ◌<◌, ◌≡◌, some, arith, ap, sym, ◌∙◌, Option}
use yt_scheduler.Base.Action.{Error, Result, Action}
use yt_scheduler.Retrier.{Retrier, again, after, loop, run, next_backoff}
use yt_scheduler.Retrier.Rounds.{loop_at, returned, raised, gave_up, repeated, round}

module _ {S A : Type 0} (now : S → ℕ) (sleep : ℕ → S → S) (python_none : A) (r : Retrier A)
    (fn : Action S A) where
  -- Only below the number of attempts does the loop go on.
  attempts_left :
      (start attempt : ℕ) (e : Error) (s : S)
      → after now sleep python_none r start attempt e s ≡ again
      → attempt ≡ r.attempts
      → ⊥
  unfolding after
  attempts_left start attempt e s h p = ground arith

  loop-halts :
      (fuel start attempt backoff : ℕ) (s : S)
      → attempt ≤ r.attempts
      → r.attempts < attempt + fuel
      → (x : Result A × S) × (loop_at now sleep python_none r fn fuel start attempt backoff s
          ≡ some x)
  loop-halts zero start attempt backoff s h lt = absurd (omega arith)
  loop-halts (suc fuel) start attempt backoff s h lt =
      elim (round now sleep python_none r fn fuel start attempt backoff s) [
        | returned a _ p ↦ (_, p)
        | raised e _ _ p ↦ (_, p)
        | gave_up e _ p ↦ (_, p)
        | repeated e _ more p ↦
            let left = attempts_left start attempt e (fn s).1 more in
            let (x, q) =
              loop-halts fuel start (attempt + 1) (next_backoff r.max_backoff backoff)
                (sleep backoff (fn s).1) (omega (arith, left)) (omega arith) in
            (x, p ∙ q)
      ]

  -- With at least one attempt the loop ends, whatever its function does: as many rounds as
  -- there are attempts are enough fuel.
  pub run-halts :
      (fuel : ℕ) (s : S)
      → 1 ≤ r.attempts
      → r.attempts ≤ fuel
      → (x : Result A × S) × (run now sleep python_none r fuel fn s ≡ some x)
  unfolding run
  run-halts fuel s h lt = loop-halts fuel (now s) 1 r.initial_backoff s h (omega arith)

  module _ (count : S → ℕ) (counts : (s : S) → count (fn s).1 ≡ count s + 1)
      (quiet : (b : ℕ) (s : S) → count (sleep b s) ≡ count s) where
    loop-calls :
        (fuel start attempt backoff : ℕ) (s s' : S) (x : Result A)
        → attempt ≤ r.attempts
        → loop_at now sleep python_none r fn fuel start attempt backoff s ≡ some (x, s')
        → count s' + attempt ≤ count s + r.attempts + 1
    unfolding loop
    loop-calls zero start attempt backoff s s' x h e = cc
    loop-calls (suc fuel) start attempt backoff s s' x h e =
        elim (round now sleep python_none r fn fuel start attempt backoff s) [
          | returned a _ p ↦ ended (sym p ∙ e)
          | raised y _ _ p ↦ ended (sym p ∙ e)
          | gave_up y _ p ↦ ended (sym p ∙ e)
          | repeated y _ more p ↦
              let left = attempts_left start attempt y (fn s).1 more in
              omega (
                arith,
                left,
                counts s,
                quiet backoff (fn s).1,
                loop-calls fuel start (attempt + 1) (next_backoff r.max_backoff backoff)
                    (sleep backoff (fn s).1) s' x (omega (arith, left)) (sym p ∙ e),
              )
        ]
      where
        ended :
            {y : Result A}
            → ◌≡◌ {A = Option (Result A × S)} (some (y, (fn s).1)) (some (x, s'))
            → count s' + attempt ≤ count s + r.attempts + 1
        ended q = let same : (fn s).1 ≡ s' = cc in omega (arith, counts s, ap count same)

    -- The function is called at most as often as there are attempts.
    pub run-calls :
        (fuel : ℕ) (s s' : S) (x : Result A)
        → 1 ≤ r.attempts
        → run now sleep python_none r fuel fn s ≡ some (x, s')
        → count s' ≤ count s + r.attempts
    unfolding run
    run-calls fuel s s' x h e =
        omega (arith, loop-calls fuel (now s) 1 r.initial_backoff s s' x h e)
