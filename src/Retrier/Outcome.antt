-- ===== src/Retrier/Outcome.antt =====
-- What a run of the retrier returns or raises.
use yt_scheduler.Base.{ℕ, zero, suc, ◌+◌, ◌≡◌, ◌≢◌, true, none, some, sym, ◌∙◌, Option, arith}
use yt_scheduler.Base.Action.{Error, Result, ok, err, Action}
use yt_scheduler.Retrier.{Retrier, reraise, after, exhaust, loop, run, next_backoff}
use yt_scheduler.Retrier.Rounds.{loop_at, returned, raised, gave_up, repeated, round}

module _ {S A : Type 0} (now : S → ℕ) (sleep : ℕ → S → S) (python_none : A) (r : Retrier A)
    (fn : Action S A) (strict : r.on_exhaust ≡ none) (loud : r.raise_on_exhaust ≡ true) where
  exhaust-err : (e : Error) → exhaust now sleep python_none r e ≡ err e
  unfolding exhaust
  exhaust-err e = rw (strict, loud)

  loop-last :
      (fuel start attempt backoff : ℕ) (s s' : S) (x : Result A)
      → loop_at now sleep python_none r fn fuel start attempt backoff s ≡ some (x, s')
      → (before : S) × (fn before ≡ (x, s'))
  unfolding loop
  loop-last zero start attempt backoff s s' x e = cc
  loop-last (suc fuel) start attempt backoff s s' x e =
      elim (round now sleep python_none r fn fuel start attempt backoff s) [
        | returned a h p ↦ (s, last h (sym p ∙ e))
        | raised y h _ p ↦ (s, last h (sym p ∙ e))
        | gave_up y h p ↦ (s, last (h ∙ sym (exhaust-err y)) (sym p ∙ e))
        | repeated y _ more p ↦
            loop-last fuel start (attempt + 1) (next_backoff r.max_backoff backoff)
              (sleep backoff (fn s).1) s' x (sym p ∙ e)
      ]
    where
      last :
          {y : Result A}
          → (fn s).0 ≡ y
          → ◌≡◌ {A = Option (Result A × S)} (some (y, (fn s).1)) (some (x, s'))
          → fn s ≡ (x, s')
      last h q = ground arith

  -- A retrier that raises when it is exhausted, and has no `on_exhaust`, ends as its last call
  -- ended: it returns what that call returned, or raises what it raised, in the state that it left.
  pub run-last :
      (fuel : ℕ) (s s' : S) (x : Result A)
      → run now sleep python_none r fuel fn s ≡ some (x, s')
      → (before : S) × (fn before ≡ (x, s'))
  unfolding run
  run-last fuel s s' x e = loop-last fuel (now s) 1 r.initial_backoff s s' x e

module _ {S A : Type 0} (now : S → ℕ) (sleep : ℕ → S → S) (python_none : A) (r : Retrier A)
    (fn : Action S A) (fallback : Error → A)
    (soft : (e : Error) → exhaust now sleep python_none r e ≡ ok (fallback e))
    (mild : (s : S) (e : Error) (start attempt : ℕ)
      → (fn s).0 ≡ err e
      → after now sleep python_none r start attempt e (fn s).1 ≢ reraise) where
  loop-absorbs :
      (fuel start attempt backoff : ℕ) (s s' : S) (x : Result A)
      → loop_at now sleep python_none r fn fuel start attempt backoff s ≡ some (x, s')
      → (a : A) × (x ≡ ok a)
  unfolding loop
  loop-absorbs zero start attempt backoff s s' x e = cc
  loop-absorbs (suc fuel) start attempt backoff s s' x e =
      elim (round now sleep python_none r fn fuel start attempt backoff s) [
        | returned a h p ↦ (a, result (sym p ∙ e))
        | raised y h again p ↦ absurd (mild s y start attempt h again)
        | gave_up y h p ↦ (fallback y, result (sym p ∙ e) ∙ soft y)
        | repeated y _ more p ↦
            loop-absorbs fuel start (attempt + 1) (next_backoff r.max_backoff backoff)
              (sleep backoff (fn s).1) s' x (sym p ∙ e)
      ]
    where
      result :
          {y : Result A}
          → ◌≡◌ {A = Option (Result A × S)} (some (y, (fn s).1)) (some (x, s'))
          → x ≡ y
      result q = cc

  -- A retrier that returns when it is exhausted does not raise, whatever the number of failures, if
  -- its function raises only what the retrier repeats.
  pub run-absorbs :
      (fuel : ℕ) (s s' : S) (x : Result A)
      → run now sleep python_none r fuel fn s ≡ some (x, s')
      → (a : A) × (x ≡ ok a)
  unfolding run
  run-absorbs fuel s s' x e = loop-absorbs fuel (now s) 1 r.initial_backoff s s' x e
