-- ===== src/HandleExceptions.antt =====
-- handle_exceptions.py: the wrapper that retries, re-raises or ignores what a function raises; and
-- rows_clients.py: the retry options that the clients of the row classes wrap their methods with.
pub mod Wrapped
pub mod Clients
use yt_scheduler.Base.{ℕ, Bool, true, false, Option, none, some, List, [], ◌∷◌, ◌||◌, if◌then◌else◌}
use yt_scheduler.Base.Action.{
  Error, Result, ok, err, Action, lock_conflict, attribute_error, assertion_error,
}
use yt_scheduler.Retrier.{RetryOptions, Retrier, init, run, is_instance, get}

-- `_ExceptionAction`
pub data ExceptionAction : Type 0 where
  retry rethrow ignore : ExceptionAction

-- What is given to `set_handler`; `some none` is a string that names no action.
-- Its options have no key with the value `None`.
pub record Handler (A : Type 0) : Type 0 where
  pub exception_types : List Error
  pub retry_options : Option (RetryOptions A)
  pub exception_action : Option (Option ExceptionAction)

-- The first positional argument of a call, if there is one: which of the attributes `log` and
-- `logger` it has. Without positional arguments it is `None`, which has neither.
pub record Owner : Type 0 where
  pub has_log : Bool
  pub has_logger : Bool

abbrev later {ℓ} : {A : Type ℓ} → Option A → Option A → Option A
later old none = old
later old (some v) = some v

-- Dictionaries: `none` is one without keys, or `None`.
-- params["retry_options"].update(retry_options)
abbrev merge :
    {A : Type 0} → Option (RetryOptions A) → Option (RetryOptions A) → Option (RetryOptions A)
merge old none = old
merge none (some new) = some new
merge (some old) (some new) = some (record {
  retries = later old.retries new.retries;
  attempts = later old.attempts new.attempts;
  initial_backoff = later old.initial_backoff new.initial_backoff;
  max_backoff = later old.max_backoff new.max_backoff;
  total_timeout = later old.total_timeout new.total_timeout;
  exceptions = later old.exceptions new.exceptions;
  ignore_exceptions = later old.ignore_exceptions new.ignore_exceptions;
  retry_on = later old.retry_on new.retry_on;
  raise_on_exhaust = later old.raise_on_exhaust new.raise_on_exhaust;
  on_exhaust = later old.on_exhaust new.on_exhaust;
})

-- The loop over `custom_handlers`: the action it ends with, and the options as they were updated.
unfoldable pub choose :
    {A : Type 0}
    → List (Handler A)
    → Error
    → Option ExceptionAction
    → Option (RetryOptions A)
    → Result (Option ExceptionAction) × Option (RetryOptions A)
choose [] e action options = (ok action, options)
choose (h ∷ handlers) e action options =
    if is_instance e h.exception_types
    then elim h.exception_action [
      | none ↦ choose handlers e action (merge options h.retry_options)
      | some none ↦ (err assertion_error, options)
      | some (some a) ↦ choose handlers e (some a) (merge options h.retry_options)
    ]
    else choose handlers e action options

-- The action when no handler has named one.
abbrev pub default_action : {A : Type 0} → Error → Option (RetryOptions A) → ExceptionAction
default_action e none = rethrow
default_action e (some o) = elim o.exceptions [
  | none ↦ retry
  | some exceptions ↦ if is_instance e exceptions then retry else rethrow
]

-- `default_retry_options or {}`: a dictionary without keys is not the shared one, and what is
-- written to it is lost.
abbrev shared :
    {A : Type 0} → Option (RetryOptions A) → Option (RetryOptions A) → Option (RetryOptions A)
shared none updated = none
shared (some default) updated = updated

abbrev pub no_options : {A : Type 0} → RetryOptions A
no_options = record {
  retries = none;
  attempts = none;
  initial_backoff = none;
  max_backoff = none;
  total_timeout = none;
  exceptions = none;
  ignore_exceptions = none;
  retry_on = none;
  raise_on_exhaust = none;
  on_exhaust = none;
}

module _ {S A : Type 0} (now : S → ℕ) (sleep : ℕ → S → S) (python_none : A) (fuel : ℕ) where
  -- `run_with_retries`
  unfoldable pub run_with_retries : Action S A → RetryOptions A → S → Option (Result A × S)
  unfolding run
  run_with_retries fn options s = elim (init options) [
    | ok r ↦ run now sleep python_none r fuel fn s
    | err e ↦ some (err e, s)
  ]

  -- `_action_retry`, `_action_rethrow` and `_action_ignore`
  unfoldable pub act :
      Owner
      → Action S A
      → Error
      → Option (RetryOptions A)
      → ExceptionAction
      → S
      → Option (Result A × S)
  unfolding run_with_retries
  act obj fn e options retry s =
      if obj.has_log
      then run_with_retries fn (get options no_options) s
      else some (err attribute_error, s)
  act obj fn e options rethrow s = some (err e, s)
  act obj fn e options ignore s =
      if obj.has_log || obj.has_logger
      then some (ok python_none, s)
      else some (err attribute_error, s)

  -- `_wrapper`: the outcome of the call, and the shared options behind it. The outcome is `none`
  -- where the fuel of the retrier runs out.
  unfoldable pub wrapper :
      List (Handler A)
      → Option (RetryOptions A)
      → Owner
      → Action S A
      → S
      → Option (Result A × S) × Option (RetryOptions A)
  unfolding choose act
  wrapper handlers default obj fn s =
      let (result, s') = fn s in
      elim result [
        | ok a ↦ (some (ok a, s'), default)
        | err e ↦
            let (chosen, options) = choose handlers e none default in
            elim chosen [
              | err wrong ↦ (some (err wrong, s'), shared default options)
              | ok action ↦ (
                act obj fn e options (get action (default_action e options)) s',
                shared default options,
              )
            ]
      ]

-- `make_transient_lock_errors_retry_options`; its keyword arguments stand in a record, `none`
-- where the default is taken.
abbrev pub make_transient_lock_errors_retry_options : {A : Type 0} → RetryOptions A → RetryOptions A
make_transient_lock_errors_retry_options o = record {
  retries = o.retries;
  attempts = o.attempts;
  initial_backoff = o.initial_backoff;
  max_backoff = o.max_backoff;
  total_timeout = o.total_timeout;
  exceptions = some (lock_conflict ∷ get o.exceptions []);
  ignore_exceptions = o.ignore_exceptions;
  retry_on = o.retry_on;
  raise_on_exhaust = some (get o.raise_on_exhaust false);
  on_exhaust = o.on_exhaust;
}

abbrev pub read_options : {A : Type 0} → A → RetryOptions A
read_options fallback = make_transient_lock_errors_retry_options (record {
  retries = some 2;
  attempts = none;
  initial_backoff = none;
  max_backoff = none;
  total_timeout = none;
  exceptions = none;
  ignore_exceptions = none;
  retry_on = none;
  raise_on_exhaust = some false;
  on_exhaust = some (λ e. fallback);
})

abbrev pub read_collection_options : {A : Type 0} → RetryOptions (List A)
read_collection_options = read_options []

abbrev pub read_optional_options : {A : Type 0} → RetryOptions (Option A)
read_optional_options = read_options none

abbrev pub read_counter_options : RetryOptions ℕ
read_counter_options = read_options 0

abbrev pub write_atomic_options : {A : Type 0} → RetryOptions A
write_atomic_options = make_transient_lock_errors_retry_options (record {
  retries = some 2;
  attempts = none;
  initial_backoff = none;
  max_backoff = none;
  total_timeout = none;
  exceptions = none;
  ignore_exceptions = none;
  retry_on = none;
  raise_on_exhaust = some true;
  on_exhaust = none;
})
