-- ===== src/Examples/TaskRuns.antt =====
-- Task runs that change their state.
use yt_scheduler.Base.{◌≡◌, refl, none, some, [], ◌∷◌}
use yt_scheduler.Base.Action.{ok, err, lock_conflict}
use yt_scheduler.State.{TaskRunState}
use yt_scheduler.Rows.{TaskRunRow, equals}
use yt_scheduler.Yt.{Session}
use yt_scheduler.TaskRun.{build_row}
use yt_scheduler.TaskRun.Lifecycle.{IsDated, build_row-IsDated}
use yt_scheduler.TaskRun.SetState.{
  Update, by_id, no_requires, set_state, rows_batch, fetchable_ids, new_row, is_matched,
}
use yt_scheduler.TaskRun.SetState.Guarded.{set_state-IsGuarded, IsGuarded}
use yt_scheduler.TaskRun.SetState.Applied.{set_state-applied, written_by, updated}
use yt_scheduler.Rows.{matches_task_run, in_shard, DagRunRow}
use yt_scheduler.Yt.Model.{Tables}
use yt_scheduler.Examples.Data.{clock, locked, farm, farm-YtLaws, waiting, broken, running, session}

waiting-IsDated : IsDated waiting
waiting-IsDated = record {
  open_ended = λ h. refl;
  ended = λ h. cc;
  started = λ h. cc;
  waiting = λ h. refl;
}

build_row-IsDated_example :
    IsDated (build_row "now" waiting (some TaskRunState.running) (some "op"))
build_row-IsDated_example =
    build_row-IsDated "now" waiting (some TaskRunState.running) (some "op") waiting-IsDated

-- To QUEUED, but only from SCHEDULED.
abbrev queue_b : Update
queue_b = record {
  row = by_id "b";
  state = some TaskRunState.queued;
  operation_id = none;
  requires = record no_requires { state = equals TaskRunState.scheduled };
}

abbrev start : Session Tables DagRunRow
start = session running (broken ∷ waiting ∷ [])

set_state-IsGuarded_example :
    IsGuarded farm start.db (set_state farm clock (queue_b ∷ []) start).1.db (queue_b ∷ []) "b"
set_state-IsGuarded_example = set_state-IsGuarded farm farm-YtLaws clock (queue_b ∷ []) start "b"

abbrev queued_b : TaskRunRow
queued_b = build_row "now" waiting (some TaskRunState.queued) none

queued_once : (set_state farm clock (queue_b ∷ []) start).0 ≡ ok (queued_b ∷ [])
unfolding set_state rows_batch fetchable_ids new_row is_matched matches_task_run in_shard
queued_once = refl

set_state-applied_example :
    (queued_b ∷ [] ≡ written_by "now" queue_b (farm.task_run_at start.db "b"))
    × (farm.task_run_at (set_state farm clock (queue_b ∷ []) start).1.db "b"
        ≡ updated "now" queue_b (farm.task_run_at start.db "b"))
set_state-applied_example =
    set_state-applied farm farm-YtLaws clock queue_b "b" start (queued_b ∷ []) refl queued_once

held : (set_state locked clock (queue_b ∷ []) start).0 ≡ err lock_conflict
unfolding set_state rows_batch fetchable_ids new_row is_matched matches_task_run in_shard
held = refl
