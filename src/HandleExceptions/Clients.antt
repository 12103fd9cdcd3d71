-- ===== src/HandleExceptions/Clients.antt =====
-- The methods that rows_clients.py wraps: how often they are called, and how a call ends.
use yt_scheduler.Base.{
  ℕ, ◌+◌, ◌≤◌, ◌≡◌, ◌≢◌, refl, sym, ap, ◌∙◌, Bool, true, false, Option, none, some, [], ◌∷◌, arith,
  Bool-cases, inl, inr,
}
use yt_scheduler.Base.Action.{Error, Result, ok, err, Action, lock_conflict, Result-cases}
use yt_scheduler.Retrier.{RetryOptions, Retrier, init, catches, after, exhaust, reraise}
use yt_scheduler.Retrier.Termination.{run-halts, run-calls}
use yt_scheduler.Retrier.Outcome.{run-last, run-absorbs}
use yt_scheduler.HandleExceptions.{
  Owner, wrapper, run_with_retries, write_atomic_options, read_options,
}
use yt_scheduler.HandleExceptions.Wrapped.{wrapper-ok, wrapper-retry, wrapper-rethrow}

abbrev retrier : {A : Type 0} → Bool → Option (Error → A) → Retrier A
retrier raise_on_exhaust on_exhaust = record {
  exceptions = some (lock_conflict ∷ []);
  ignore_exceptions = [];
  attempts = 3;
  initial_backoff = 500;
  max_backoff = none;
  retry_on = none;
  total_timeout = none;
  raise_on_exhaust = raise_on_exhaust;
  on_exhaust = on_exhaust;
}

module _ {S A : Type 0} (now : S → ℕ) (sleep : ℕ → S → S) (python_none : A) (fuel : ℕ) (obj : Owner)
    (fn : Action S A) where
  caught :
      (fallback : A) (e : Error)
      → e ≡ lock_conflict
      → catches (read_options fallback).exceptions e ≡ true
  caught fallback e h = rw (h)

  repeats :
      (fallback : A)
      → ((s : S) (e : Error) → (fn s).0 ≡ err e → e ≡ lock_conflict)
      → (s : S) (e : Error) (start attempt : ℕ) → (fn s).0 ≡ err e
      → after now sleep python_none (retrier false (some (λ e. fallback))) start attempt e (fn s).1
        ≢ reraise
  unfolding after
  repeats fallback mild s e start attempt h p = let same = mild s e h in ground arith

  absorbed :
      (fallback : A)
      → 3 ≤ fuel
      → ((s : S) (e : Error) → (fn s).0 ≡ err e → e ≡ lock_conflict)
      → (s : S)
      → (a : A) × (s' : S) × (run_with_retries now sleep python_none fuel fn
            (read_options fallback)
            s
          ≡ some (ok a, s'))
  unfolding run_with_retries init exhaust
  absorbed fallback enough mild s =
      let soft = retrier false (some (λ e. fallback)) in
      let (x, p) = run-halts now sleep python_none soft fn fuel s (omega arith) enough in
      let (a, q) =
        run-absorbs now sleep python_none soft fn (λ e. fallback) (λ e. refl)
          (repeats fallback mild) fuel s x.1 x.0 p in
      (a, x.1, p ∙ ap (λ y. some (y, x.1)) q)

module _ {S A : Type 0} (now : S → ℕ) (sleep : ℕ → S → S) (python_none : A) (fuel : ℕ) (obj : Owner)
    (fn : Action S A) (enough : 3 ≤ fuel) (logs : obj.has_log ≡ true) where
  abbrev write : S → Option (Result A × S) × Option (RetryOptions A)
  write = wrapper now sleep python_none fuel [] (some write_atomic_options) obj fn

  retried :
      (s : S)
      → (x : Result A × S) × (run_with_retries now sleep python_none fuel fn write_atomic_options s
          ≡ some x)
        × (before : S) × (fn before ≡ x)
  unfolding run_with_retries init
  retried s =
      let (x, p) =
        run-halts now sleep python_none (retrier true none) fn fuel s (omega arith) enough in
      let q = run-last now sleep python_none (retrier true none) fn refl refl fuel s x.1 x.0 p in
      (x, p, q.0, q.1)

  -- A wrapped method that writes, called with an owner that has a log, ends, and as its last call
  -- ended: it returns only what that call returned, and raises only what that call raised.
  pub write-last :
      (s : S)
      → (x : Result A × S) × (write s ≡ (some x, some write_atomic_options))
        × (before : S) × (fn before ≡ x)
  write-last s = elim (Result-cases (fn s).0) [
    | inl (a, h) ↦ (
      (ok a, (fn s).1),
      wrapper-ok now sleep python_none fuel obj fn write_atomic_options a s h,
      s,
      ground arith,
    )
    | inr (e, h) ↦ elim (Bool-cases (catches (write_atomic_options {A = A}).exceptions e)) [
      | inl c ↦
          let (x, p, before, q) = retried (fn s).1 in
          (
            x,
            wrapper-retry now sleep python_none fuel obj fn write_atomic_options e s logs h c
                ∙ ap (λ o. (o, some write_atomic_options)) p,
            before,
            q,
          )
      | inr c ↦ (
        (err e, (fn s).1),
        wrapper-rethrow now sleep python_none fuel obj fn write_atomic_options e s h c,
        s,
        ground arith,
      )
    ]
  ]

  module _ (count : S → ℕ) (counts : (s : S) → count (fn s).1 ≡ count s + 1)
      (quiet : (b : ℕ) (s : S) → count (sleep b s) ≡ count s) where
    retried_calls :
        (s s' : S) (x : Result A)
        → run_with_retries now sleep python_none fuel fn write_atomic_options s ≡ some (x, s')
        → count s' ≤ count s + 3
    unfolding run_with_retries init
    retried_calls s s' x e =
        run-calls now sleep python_none (retrier true none) fn count counts quiet fuel s s' x
          (omega arith) e

    -- A wrapped method that writes calls its function at most four times: once, and then as often
    -- as the retrier has attempts.
    pub write-calls :
        (s s' : S) (x : Result A) → (write s).0 ≡ some (x, s') → count s' ≤ count s + 4
    write-calls s s' x e = elim (Result-cases (fn s).0) [
      | inl (a, h) ↦ once (
          sym (
            ap (λ p. p.0) (wrapper-ok now sleep python_none fuel obj fn write_atomic_options a s h))
          ∙ e)
      | inr (y, h) ↦ elim (Bool-cases (catches (write_atomic_options {A = A}).exceptions y)) [
        | inl c ↦ omega (
          arith,
          counts s,
          retried_calls (fn s).1 s' x (
              sym (
                ap (λ p. p.0)
                  (wrapper-retry now sleep python_none fuel obj fn write_atomic_options y s logs h
                    c))
              ∙ e),
        )
        | inr c ↦ once (
            sym (
              ap (λ p. p.0)
                (wrapper-rethrow now sleep python_none fuel obj fn write_atomic_options y s h c))
            ∙ e)
      ]
    ]
      where
        once :
            {y : Result A}
            → ◌≡◌ {A = Option (Result A × S)} (some (y, (fn s).1)) (some (x, s'))
            → count s' ≤ count s + 4
        once q = let same : (fn s).1 ≡ s' = cc in omega (arith, counts s, ap count same)

  -- A wrapped method that reads, called with an owner that has a log, ends and does not raise, if
  -- its function raises nothing but lock conflicts.
  pub read-absorbs :
      (fallback : A) (s : S)
      → ((s : S) (e : Error) → (fn s).0 ≡ err e → e ≡ lock_conflict)
      → (a : A) × (s' : S) × (wrapper now sleep python_none fuel []
            (some (read_options fallback))
            obj
            fn
            s
          ≡ (some (ok a, s'), some (read_options fallback)))
  read-absorbs fallback s mild = elim (Result-cases (fn s).0) [
    | inl (a, h) ↦
        (a, (fn s).1, wrapper-ok now sleep python_none fuel obj fn (read_options fallback) a s h)
    | inr (e, h) ↦
        let (a, s', p) = absorbed now sleep python_none fuel obj fn fallback enough mild (fn s).1 in
        (
          a,
          s',
          wrapper-retry now sleep python_none fuel obj fn (read_options fallback) e s logs h
                (caught now sleep python_none fuel obj fn fallback e (mild s e h))
              ∙ ap (λ o. (o, some (read_options fallback))) p,
        )
  ]
