-- ===== src/HandleExceptions/Wrapped.antt =====
-- handle_exceptions.py: how a call of the wrapper goes when no handler is set.
use yt_scheduler.Base.{ℕ, ◌≡◌, true, false, some, [], arith}
use yt_scheduler.Base.Action.{Error, ok, err, Action, attribute_error}
use yt_scheduler.Retrier.{RetryOptions, catches}
use yt_scheduler.HandleExceptions.{
  Owner, retry, rethrow, choose, default_action, act, wrapper, run_with_retries,
}

module _ {S A : Type 0} (now : S → ℕ) (sleep : ℕ → S → S) (python_none : A) (fuel : ℕ) (obj : Owner)
    (fn : Action S A) where
  default_action-retry :
      (o : RetryOptions A) (e : Error)
      → catches o.exceptions e ≡ true
      → default_action e (some o) ≡ retry
  default_action-retry o e h = ground arith

  -- Where the first positional argument has no attribute `log`, an exception that the options
  -- name is not retried: after one call, the wrapper raises an `AttributeError`.
  pub wrapper-ownerless :
      (o : RetryOptions A) (e : Error) (s : S)
      → obj.has_log ≡ false
      → (fn s).0 ≡ err e
      → catches o.exceptions e ≡ true
      → wrapper now sleep python_none fuel [] (some o) obj fn s
        ≡ (some (err attribute_error, (fn s).1), some o)
  unfolding wrapper choose act
  wrapper-ownerless o e s bare h p = rw (h, wrapper, default_action-retry o e p, bare)

  -- A wrapped function that returns is called once, and so is one that raises what the options
  -- do not name.
  pub wrapper-ok :
      (o : RetryOptions A) (a : A) (s : S)
      → (fn s).0 ≡ ok a
      → wrapper now sleep python_none fuel [] (some o) obj fn s ≡ (some (ok a, (fn s).1), some o)
  unfolding wrapper choose act
  wrapper-ok o a s h = rw (h, wrapper)

  pub wrapper-retry :
      (o : RetryOptions A) (e : Error) (s : S)
      → obj.has_log ≡ true
      → (fn s).0 ≡ err e
      → catches o.exceptions e ≡ true
      → wrapper now sleep python_none fuel [] (some o) obj fn s
        ≡ (run_with_retries now sleep python_none fuel fn o (fn s).1, some o)
  unfolding wrapper choose act
  wrapper-retry o e s logs h p = rw (h, wrapper, default_action-retry o e p, logs)

  default_action-rethrow :
      (o : RetryOptions A) (e : Error)
      → catches o.exceptions e ≡ false
      → default_action e (some o) ≡ rethrow
  default_action-rethrow o e h = ground arith

  pub wrapper-rethrow :
      (o : RetryOptions A) (e : Error) (s : S)
      → (fn s).0 ≡ err e
      → catches o.exceptions e ≡ false
      → wrapper now sleep python_none fuel [] (some o) obj fn s ≡ (some (err e, (fn s).1), some o)
  unfolding wrapper choose act
  wrapper-rethrow o e s h p = rw (h, wrapper, default_action-rethrow o e p)
