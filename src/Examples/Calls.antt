-- ===== src/Examples/Calls.antt =====
-- Calls that are repeated: the state counts the calls.
use yt_scheduler.Base.{ℕ, zero, suc, ◌+◌, ◌≤◌, ◌≡◌, refl, true, false, none, some, [], ◌∷◌, arith}
use yt_scheduler.Base.Action.{Error, Result, ok, err, Action, lock_conflict}
use yt_scheduler.Retrier.{Retrier, init, run, loop, after}
use yt_scheduler.Retrier.Termination.{run-halts, run-calls}
use yt_scheduler.HandleExceptions.{
  Owner, wrapper, choose, act, run_with_retries, write_atomic_options,
}
use yt_scheduler.HandleExceptions.Clients.{write-last}

-- The time is a constant, and a pause changes nothing that is counted.
abbrev now : ℕ → ℕ
now s = 0

abbrev sleep : ℕ → ℕ → ℕ
sleep b s = s

-- A function that meets a lock conflict in its first two calls.
abbrev third_time : Action ℕ ℕ
third_time zero = (err lock_conflict, 1)
third_time (suc zero) = (err lock_conflict, 2)
third_time (suc (suc n)) = (ok 7, suc (suc (suc n)))

abbrev strict : Retrier ℕ
strict = record {
  exceptions = some (lock_conflict ∷ []);
  ignore_exceptions = [];
  attempts = 3;
  initial_backoff = 500;
  max_backoff = none;
  retry_on = none;
  total_timeout = none;
  raise_on_exhaust = true;
  on_exhaust = none;
}

run-halts_example : (x : Result ℕ × ℕ) × (run now sleep 0 strict 3 third_time 0 ≡ some x)
run-halts_example = run-halts now sleep 0 strict third_time 3 0 (omega arith) (omega arith)

ran : run now sleep 0 strict 3 third_time 0 ≡ some (ok 7, 3)
unfolding run loop after
ran = refl

counted : (s : ℕ) → (third_time s).1 ≡ s + 1
counted zero = refl
counted (suc zero) = refl
counted (suc (suc n)) = omega arith

run-calls_example : 3 ≤ 0 + 3
run-calls_example =
    run-calls now sleep 0 strict third_time (λ s. s) counted (λ b s. refl) 3 0 3 (ok 7)
      (omega arith) ran

abbrev object : Owner
object = record { has_log = true; has_logger = true }

-- A call with keyword arguments only.
abbrev nobody : Owner
nobody = record { has_log = false; has_logger = false }

write-last_example :
    (x : Result ℕ × ℕ) × (wrapper now sleep 0 3 [] (some write_atomic_options) object third_time 0
      ≡ (some x, some write_atomic_options))
    × (before : ℕ) × (third_time before ≡ x)
write-last_example = write-last now sleep 0 3 object third_time (omega arith) refl 0

wrapped :
    (wrapper now sleep 0 3 [] (some write_atomic_options) object third_time 0).0 ≡ some (ok 7, 3)
unfolding wrapper choose act run_with_retries init run loop after
wrapped = refl

only_conflicts : (s : ℕ) (e : Error) → (third_time s).0 ≡ err e → e ≡ lock_conflict
only_conflicts zero e h = cc
only_conflicts (suc zero) e h = cc
only_conflicts (suc (suc n)) e h = cc
