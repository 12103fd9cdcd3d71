-- ===== src/Examples/Cleanup.antt =====
-- Orphans of which two run an operation, and an attempt to abort one that fails.
use yt_scheduler.Base.{
  refl, ℕ, ◌+◌, String, ◌≡◌, Option, some, List, [], ◌∷◌, map, keep, arith, is_empty, if◌then◌else◌,
}
use yt_scheduler.Base.Action.{Action, ok, err, runtime_error}
use yt_scheduler.State.{TaskRunState}
use yt_scheduler.Rows.{TaskRunRow}
use yt_scheduler.TaskRun.SetState.{Update}
use yt_scheduler.Executor.Orphans.{skip_update, orphan_cleanup, abort_update, try_abort_run}
use yt_scheduler.Executor.Orphans.Treated.{
  is_skippable, is_abortable, orphan_cleanup-last, try_abort_run-fails,
}
use yt_scheduler.Examples.Data.{task_run}

abbrev first_orphan : TaskRunRow
first_orphan = record (task_run "r1" "a" TaskRunState.running) { operation_id = some "op1" }

abbrev other_orphan : TaskRunRow
other_orphan = record (task_run "r2" "b" TaskRunState.running) { operation_id = some "op2" }

abbrev last_orphan : TaskRunRow
last_orphan = task_run "r3" "c" TaskRunState.queued

-- The world counts the calls.
abbrev refuse : Option String → Action ℕ (Unit {0})
refuse op w = (err runtime_error, w + 1)

abbrev write : List Update → Action ℕ (Unit {0})
write updates w = (ok tt, w + 1)

abbrev clock : ℕ → ℕ
clock w = w

abbrev wait : ℕ → ℕ → ℕ
wait b w = w

orphan_cleanup-last_example :
    let trs = first_orphan ∷ other_orphan ∷ last_orphan ∷ [] in
    let (jobs, frame, w') = orphan_cleanup clock wait refuse write trs 0 in
    (w' ≡ (
      if is_empty (keep is_skippable trs)
      then 0
      else (write (map skip_update (keep is_skippable trs)) 0).1))
    × (map (λ job. job frame) jobs
        ≡ map
            (λ _ fuel s. try_abort_run clock wait refuse write fuel last_orphan s)
            (keep is_abortable trs))
orphan_cleanup-last_example =
    orphan_cleanup-last clock wait refuse write (first_orphan ∷ other_orphan ∷ []) last_orphan 0

two_jobs :
    keep is_abortable (first_orphan ∷ other_orphan ∷ last_orphan ∷ [])
    ≡ first_orphan ∷ other_orphan ∷ []
two_jobs = refl

try_abort_run-fails_example :
    (w' : ℕ) × (try_abort_run clock wait refuse write 3 first_orphan 0
      ≡ some (write (abort_update first_orphan ∷ []) w'))
try_abort_run-fails_example =
    try_abort_run-fails clock wait refuse write 3 first_orphan 0 (omega arith)
