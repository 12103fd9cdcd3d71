-- ===== src/Examples/DagRuns.antt =====
-- A run of the DAG of two tasks: after a failure, after a success of its first task, and queued.
use yt_scheduler.Base.{
  eq_iff, ap, sym, ◌∙◌, String, ◌≡◌, ◌↔◌, refl, inl, inr, some, List, [], ◌∷◌, In, arith,
  if◌then◌else◌, ◌==◌,
}
use yt_scheduler.Base.Action.{ok}
use yt_scheduler.State.{TaskRunState, DagRunState}
use yt_scheduler.Rows.{TaskRunRow, DagRunRow, matches_task_run, in_shard}
use yt_scheduler.Yt.{Session}
use yt_scheduler.Yt.Model.{Tables}
use yt_scheduler.TaskRun.SetState.{rows_batch, fetchable_ids, new_row}
use yt_scheduler.TaskRun.SetState
use yt_scheduler.Dag.{upstream_of}
use yt_scheduler.DagRun.{
  build_row_by_state, run_verdict, trs_scheduling_decisions, skippable, get_ready_trs,
}
use yt_scheduler.DagRun.Lifecycle.{IsStamped, build_row_by_state-IsStamped}
use yt_scheduler.DagRun.Verdict.{HasFailed, AllSucceeded, run_verdict_lem}
use yt_scheduler.DagRun.Ready.{IsUnblocked, schedulable_iff}
use yt_scheduler.DagRun.Methods.{set_state, run_query, apply_verdict, update_state}
use yt_scheduler.DagRun.Update.{
  IsWaiting, ready_ids, update_state-verdict, update_state-skips, update_state-keeps,
}
use yt_scheduler.Examples.Data.{
  clock, farm, farm-YtLaws, two_tasks, waiting, broken, done, running, session,
}

running-IsStamped : IsStamped running
running-IsStamped = record {
  scheduled = λ h. cc;
  unqueued = λ h. cc;
  queued = λ h e. cc;
  unstarted = λ h. cc;
  started = λ h h' e. cc;
  open_ended = λ h. refl;
  ended = λ h. cc;
}

build_row_by_state-IsStamped_example :
    IsStamped (build_row_by_state "now" DagRunState.success running)
build_row_by_state-IsStamped_example =
    build_row_by_state-IsStamped "now" DagRunState.success running running-IsStamped

abbrev failing : List TaskRunRow
failing = broken ∷ waiting ∷ []

abbrev succeeding : List TaskRunRow
succeeding = done ∷ waiting ∷ []

run_verdict_lem_example :
    ((run_verdict failing ≡ DagRunState.failed) ↔ HasFailed failing)
    × ((run_verdict failing ≡ DagRunState.success) ↔ AllSucceeded failing)
    × ((run_verdict failing ≡ DagRunState.running)
        ↔ ((¬ HasFailed failing) × (¬ AllSucceeded failing)))
run_verdict_lem_example = run_verdict_lem failing

schedulable_iff_example :
    In waiting (trs_scheduling_decisions two_tasks succeeding).schedulable_trs ↔ (
      In waiting succeeding
      × (waiting.state ≡ TaskRunState.scheduled)
      × IsUnblocked two_tasks succeeding waiting)
schedulable_iff_example = schedulable_iff two_tasks succeeding waiting

-- The update of a run whose first task has failed, and of one whose first task has succeeded.
abbrev failed_start : Session Tables DagRunRow
failed_start = session running failing

abbrev start : Session Tables DagRunRow
start = session running succeeding

failed_update : (update_state farm clock "now" two_tasks failed_start).0 ≡ ok []
unfolding update_state apply_verdict set_state SetState.set_state rows_batch fetchable_ids new_row
    run_verdict build_row_by_state trs_scheduling_decisions skippable get_ready_trs matches_task_run
    in_shard
failed_update = refl

update : (update_state farm clock "now" two_tasks start).0 ≡ ok ("b" ∷ [])
unfolding update_state apply_verdict set_state SetState.set_state rows_batch fetchable_ids new_row
    run_verdict build_row_by_state trs_scheduling_decisions skippable get_ready_trs matches_task_run
    in_shard upstream_of
update = refl

selected : farm.select_task_runs (run_query farm running two_tasks) failed_start.db ≡ ok failing
unfolding matches_task_run in_shard
selected = refl

update_state-verdict_example :
    (trs : List TaskRunRow) × (farm.select_task_runs (run_query farm running two_tasks) start.db
      ≡ ok trs)
    × ("b" ∷ [] ≡ ready_ids farm farm-YtLaws clock "now" two_tasks start trs)
    × ((update_state farm clock "now" two_tasks start).1.self
        ≡ build_row_by_state "now" (run_verdict trs) running)
    × ((k : String)
        → farm.dag_run_at (update_state farm clock "now" two_tasks start).1.db k ≡ (
            if "r" == k
            then some (build_row_by_state "now" (run_verdict trs) running)
            else farm.dag_run_at start.db k))
update_state-verdict_example =
    update_state-verdict farm farm-YtLaws clock "now" two_tasks start ("b" ∷ []) update

update_state-skips_example :
    (w : TaskRunRow) × (farm.task_run_at
        (update_state farm clock "now" two_tasks failed_start).1.db
        "b"
      ≡ some w)
    × (w.state ≡ TaskRunState.skipped)
update_state-skips_example =
    update_state-skips farm farm-YtLaws clock "now" two_tasks failed_start [] failing waiting
      failed_update selected (broken, inl refl, refl) (inr (inl refl)) (inl refl)

update_state-keeps_example :
    farm.task_run_at (update_state farm clock "now" two_tasks failed_start).1.db "a"
    ≡ farm.task_run_at failed_start.db "a"
update_state-keeps_example =
    update_state-keeps farm farm-YtLaws clock "now" two_tasks failed_start [] failing "a"
      failed_update selected only_a
  where
    different : ◌≡◌ {A = String} "b" "a" → ⊥
    different e = cc ((eq_iff "b" "a").1 e)

    only_a : HasFailed failing → (x : TaskRunRow) → In x failing → x.run_id ≡ "a" → ¬ IsWaiting x
    only_a f x (inl e) key w = ground (arith, e)
    only_a f x (inr (inl e)) key w = different (ap (λ (y : TaskRunRow). y.run_id) (sym e) ∙ key)
    only_a f x (inr (inr m)) key w = m
