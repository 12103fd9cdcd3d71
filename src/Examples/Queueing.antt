-- ===== src/Examples/Queueing.antt =====
-- Task runs and runs that are queued.
use yt_scheduler.Base.{eq_iff, String, ◌≡◌, refl, inl, inr, ◌⊎◌, none, some, [], ◌∷◌}
use yt_scheduler.Base.Action.{ok, lock_conflict}
use yt_scheduler.State.{TaskRunState, DagRunState}
use yt_scheduler.Rows.{TaskRunRow, DagRunRow, matches_task_run, matches_dag_run, in_shard}
use yt_scheduler.Yt.{Session}
use yt_scheduler.Yt.Model.{Tables}
use yt_scheduler.TaskRun.{build_row}
use yt_scheduler.TaskRun.SetState.{rows_batch, fetchable_ids, new_row}
use yt_scheduler.TaskRun.SetState
use yt_scheduler.Dag.{IsKeyed, roots, in_roots}
use yt_scheduler.DagRun.{build_row_by_state}
use yt_scheduler.DagRun.Methods.{
  new_task_run, task_runs_to_create, set_state, schedule_trs, existing_query, queue_run_atomic,
}
use yt_scheduler.DagRun.Schedule.{IsAsked, schedule_trs-guarded, schedule_trs-queues}
use yt_scheduler.DagRun.Create.{start_state}
use yt_scheduler.DagRun.Queue.{queue_run-creates}
use yt_scheduler.DagRun.Recreate.{queue_run-recreates}
use yt_scheduler.DagRun.Atomic.{queueing, call, call_atomic}
use yt_scheduler.Examples.Data.{
  clock, uuid, uuid_injective, pair-IsKeyed, first, farm, farm-YtLaws, locked, locked-YtLaws,
  second, two_tasks, waiting, done, run, running, session,
}

abbrev start : Session Tables DagRunRow
start = session running (done ∷ waiting ∷ [])

waiting-IsAsked : IsAsked "r" ("b" ∷ []) waiting
waiting-IsAsked = record { listed = inl refl; of_run = refl; waits = refl }

schedule_trs-guarded_example :
    let db' = (schedule_trs farm clock "r" ("b" ∷ []) start).1.db in
    (farm.task_run_at db' "b" ≡ farm.task_run_at start.db "b")
    ⊎ ((r : TaskRunRow) × (time : String) × (farm.task_run_at start.db "b" ≡ some r)
        × IsAsked "r" ("b" ∷ []) r
        × (farm.task_run_at db' "b" ≡ some (build_row time r (some TaskRunState.queued) none)))
schedule_trs-guarded_example = schedule_trs-guarded farm farm-YtLaws clock "r" ("b" ∷ []) start "b"

scheduled_one : (schedule_trs farm clock "r" ("b" ∷ []) start).0 ≡ ok 1
unfolding schedule_trs SetState.set_state rows_batch fetchable_ids new_row matches_task_run in_shard
scheduled_one = refl

schedule_trs-queues_example :
    (w : TaskRunRow) × (farm.task_run_at (schedule_trs farm clock "r" ("b" ∷ []) start).1.db "b"
      ≡ some w)
    × (w.state ≡ TaskRunState.queued)
schedule_trs-queues_example =
    schedule_trs-queues farm farm-YtLaws clock "r" ("b" ∷ []) start 1 waiting scheduled_one refl
      waiting-IsAsked

-- A run that was created and not yet queued, without task runs.
abbrev new : Session Tables DagRunRow
new = session (run DagRunState.scheduled) []

queued : (queue_run_atomic farm uuid "now" two_tasks new).0 ≡ ok tt
unfolding queue_run_atomic set_state task_runs_to_create in_roots roots build_row_by_state
    matches_task_run matches_dag_run in_shard
queued = refl

two_tasks-IsKeyed : IsKeyed two_tasks
two_tasks-IsKeyed = pair-IsKeyed "d" first second (λ e. cc ((eq_iff "first" "second").1 e))

nothing_stored : farm.select_task_runs (existing_query farm new.self two_tasks) new.db ≡ ok []
nothing_stored = refl

queue_run-creates_example :
    let db' = (queue_run_atomic farm uuid "now" two_tasks new).1.db in
    (farm.dag_run_at db' "r"
      ≡ some (build_row_by_state "now" DagRunState.queued (run DagRunState.scheduled)))
    × ((u : String) × (farm.task_run_at db' u
          ≡ some (new_task_run u "r" (start_state second) second)))
queue_run-creates_example =
    queue_run-creates farm farm-YtLaws uuid "now" two_tasks new (run DagRunState.scheduled) []
      second refl refl queued nothing_stored uuid_injective two_tasks-IsKeyed (inr (inl refl))
      (λ m. m)

-- A run that was created, with the task runs of both of its tasks.
abbrev prepared : Session Tables DagRunRow
prepared = session (run DagRunState.scheduled) (done ∷ waiting ∷ [])

queued_again : (queue_run_atomic farm uuid "now" two_tasks prepared).0 ≡ ok tt
unfolding queue_run_atomic set_state task_runs_to_create in_roots roots build_row_by_state
    matches_task_run matches_dag_run in_shard
queued_again = refl

queue_run-recreates_example :
    (u : String) × (farm.task_run_at (queue_run_atomic farm uuid "now" two_tasks prepared).1.db u
      ≡ some (new_task_run u "r" (start_state second) second))
queue_run-recreates_example =
    queue_run-recreates farm farm-YtLaws uuid "now" two_tasks prepared (run DagRunState.scheduled)
      second refl refl queued_again refl uuid_injective two_tasks-IsKeyed (inr (inl refl))

refused : (call locked (queueing uuid "now" two_tasks) new).0 ≡ some lock_conflict
unfolding call queue_run_atomic set_state task_runs_to_create in_roots roots build_row_by_state
    matches_task_run matches_dag_run in_shard
refused = refl

call_atomic_example : (call locked (queueing uuid "now" two_tasks) new).1 ≡ new.db
call_atomic_example =
    call_atomic locked locked-YtLaws (queueing uuid "now" two_tasks) new lock_conflict refused
