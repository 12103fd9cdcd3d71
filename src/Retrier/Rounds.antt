-- ===== src/Retrier/Rounds.antt =====
-- One round of the loop of the retrier.
use yt_scheduler.Base.{ℕ, suc, ◌+◌, ◌≡◌, refl, Option, some, inl, inr, ◌⊎◌}
use yt_scheduler.Base.Action.{Error, Result, ok, err, Action, Result-cases}
use yt_scheduler.Retrier.{
  Retrier, Next, reraise, exhausted, again, after, exhaust, loop, next_backoff,
}

Next-cases : (n : Next) → (n ≡ reraise) ⊎ (n ≡ exhausted) ⊎ (n ≡ again)
Next-cases reraise = inl refl
Next-cases exhausted = inr (inl refl)
Next-cases again = inr (inr refl)

module _ {S A : Type 0} (now : S → ℕ) (sleep : ℕ → S → S) (python_none : A) (r : Retrier A)
    (fn : Action S A) where
  abbrev pub loop_at : ℕ → ℕ → ℕ → ℕ → S → Option (Result A × S)
  loop_at = loop now sleep python_none r fn

  -- How a round with fuel left goes.
  pub data Round (fuel start attempt backoff : ℕ) (s : S) : Type 0 where
    returned :
        (a : A)
        → (fn s).0 ≡ ok a
        → loop_at (suc fuel) start attempt backoff s ≡ some (ok a, (fn s).1)
        → Round fuel start attempt backoff s
    raised :
        (e : Error)
        → (fn s).0 ≡ err e
        → after now sleep python_none r start attempt e (fn s).1 ≡ reraise
        → loop_at (suc fuel) start attempt backoff s ≡ some (err e, (fn s).1)
        → Round fuel start attempt backoff s
    gave_up :
        (e : Error)
        → (fn s).0 ≡ err e
        → loop_at (suc fuel) start attempt backoff s
          ≡ some (exhaust now sleep python_none r e, (fn s).1)
        → Round fuel start attempt backoff s
    repeated :
        (e : Error)
        → (fn s).0 ≡ err e
        → after now sleep python_none r start attempt e (fn s).1 ≡ again
        → loop_at (suc fuel) start attempt backoff s
          ≡ loop_at fuel start
              (attempt + 1)
              (next_backoff r.max_backoff backoff)
              (sleep backoff (fn s).1)
        → Round fuel start attempt backoff s

  pub round : (fuel start attempt backoff : ℕ) (s : S) → Round fuel start attempt backoff s
  unfolding loop
  round fuel start attempt backoff s = elim (Result-cases (fn s).0) [
    | inl (a, h) ↦ returned a h (rw (h, loop))
    | inr (e, h) ↦ elim (Next-cases (after now sleep python_none r start attempt e (fn s).1)) [
      | inl p ↦ raised e h p (rw (h, loop, p))
      | inr (inl p) ↦ gave_up e h (rw (h, loop, p))
      | inr (inr p) ↦ repeated e h p (rw (h, loop, p))
    ]
  ]
