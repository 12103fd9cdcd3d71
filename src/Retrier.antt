-- ===== src/Retrier.antt =====
-- retrier.py: a call that is repeated after certain exceptions, with growing pauses.
-- Times are in milliseconds where the source has seconds as floats.
pub mod Rounds
pub mod Termination
pub mod Outcome
use yt_scheduler.Base.{
  ℕ, zero, suc, ◌+◌, ◌-◌, ◌*◌, Bool, true, false, not, Option, none, some, List, [], any, ltb,
  nat_eq, if◌then◌else◌,
}
use Prim.Native.Nat.{min}
use yt_scheduler.Base.Action.{Error, Result, ok, err, Action, assertion_error, same_error}

-- `RetryOptions`: a dictionary, `none` where a key is missing or, if that is its default, the value
-- is `None`. Exceptions stand for their classes.
pub record RetryOptions (A : Type 0) : Type 0 where
  pub retries : Option ℕ
  pub attempts : Option ℕ
  pub initial_backoff : Option ℕ
  pub max_backoff : Option ℕ
  pub total_timeout : Option ℕ
  pub exceptions : Option (List Error)
  pub ignore_exceptions : Option (List Error)
  pub retry_on : Option (Error → Bool)
  pub raise_on_exhaust : Option Bool
  pub on_exhaust : Option (Error → A)

-- The fields of a `Retrier`; `exceptions` is `none` for `(Exception,)`, which catches all.
pub record Retrier (A : Type 0) : Type 0 where
  pub exceptions : Option (List Error)
  pub ignore_exceptions : List Error
  pub attempts : ℕ
  pub initial_backoff : ℕ
  pub max_backoff : Option ℕ
  pub retry_on : Option (Error → Bool)
  pub total_timeout : Option ℕ
  pub raise_on_exhaust : Bool
  pub on_exhaust : Option (Error → A)

abbrev pub is_instance : Error → List Error → Bool
is_instance e classes = any (same_error e) classes

abbrev pub get {ℓ} : {A : Type ℓ} → Option A → A → A
get none default = default
get (some v) default = v

-- An option that counts only if it is truthy.
abbrev nonzero : Option ℕ → Option ℕ
nonzero none = none
nonzero (some zero) = none
nonzero (some (suc n)) = some (suc n)

abbrev consistent : Option ℕ → ℕ → Bool
consistent none attempts = true
consistent (some zero) attempts = true
consistent (some (suc n)) attempts = nat_eq attempts (suc n + 1)

-- `Retrier.__init__`, with its assertion.
unfoldable pub init : {A : Type 0} → RetryOptions A → Result (Retrier A)
init o =
    let attempts = get o.attempts (get o.retries 1 + 1) in
    if consistent o.retries attempts
    then ok (record {
      exceptions = o.exceptions;
      ignore_exceptions = get o.ignore_exceptions [];
      attempts = attempts;
      initial_backoff = get o.initial_backoff 500;
      max_backoff = nonzero o.max_backoff;
      retry_on = o.retry_on;
      total_timeout = o.total_timeout;
      raise_on_exhaust = get o.raise_on_exhaust true;
      on_exhaust = o.on_exhaust;
    })
    else err assertion_error

-- except self.exceptions
abbrev pub catches : Option (List Error) → Error → Bool
catches none e = true
catches (some classes) e = is_instance e classes

-- not (self.retry_on and not self.retry_on(e))
abbrev pub accepts : Option (Error → Bool) → Error → Bool
accepts none e = true
accepts (some test) e = test e

-- self.total_timeout is not None and datetime.now() - start_date > self.total_timeout
abbrev timed_out : Option ℕ → ℕ → ℕ → Bool
timed_out none now start = false
timed_out (some t) now start = ltb t (now - start)

abbrev next_backoff : Option ℕ → ℕ → ℕ
next_backoff none backoff = backoff * 2
next_backoff (some most) backoff = min (backoff * 2) most

-- What the loop does after an exception: leave by raising it again, leave the loop as exhausted,
-- or go round once more.
pub data Next : Type 0 where
  reraise exhausted again : Next

module _ {S A : Type 0} (now : S → ℕ) (sleep : ℕ → S → S) (python_none : A) (r : Retrier A) where
  unfoldable pub after : ℕ → ℕ → Error → S → Next
  after start attempt e s =
      if not (catches r.exceptions e)
      then reraise
      else if is_instance e r.ignore_exceptions
      then reraise
      else if not (accepts r.retry_on e)
      then reraise
      else if nat_eq attempt r.attempts
      then exhausted
      else if timed_out r.total_timeout (now s) start
      then exhausted
      else again

  -- The lines behind the loop.
  unfoldable pub exhaust : Error → Result A
  exhaust e = elim r.on_exhaust [
    | some f ↦ ok (f e)
    | none ↦ if r.raise_on_exhaust then err e else ok python_none
  ]

  -- The loop; `none` means that the fuel ran out, which the source has no counterpart for.
  unfoldable pub loop : Action S A → ℕ → ℕ → ℕ → ℕ → S → Option (Result A × S)
  unfolding after exhaust
  loop fn zero start attempt backoff s = none
  loop fn (suc fuel) start attempt backoff s =
      let (result, s') = fn s in
      elim result [
        | ok a ↦ some (ok a, s')
        | err e ↦ elim (after start attempt e s') [
          | reraise ↦ some (err e, s')
          | exhausted ↦ some (exhaust e, s')
          | again ↦
              loop fn fuel start (attempt + 1) (next_backoff r.max_backoff backoff)
                (sleep backoff s')
        ]
      ]

  -- `Retrier.run`
  unfoldable pub run : ℕ → Action S A → S → Option (Result A × S)
  unfolding loop
  run fuel fn s = loop fn fuel (now s) 1 r.initial_backoff s
