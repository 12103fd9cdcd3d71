-- ===== src/DagRun.antt =====
-- dagrun.py: the decisions about a DAG run, and what a change of state writes into its row.
pub mod Verdict
pub mod Ready
pub mod Lifecycle
pub mod Methods
pub mod Steps
pub mod Update
pub mod Schedule
pub mod Create
pub mod ToCreate
pub mod Queue
pub mod Recreate
pub mod Atomic
use yt_scheduler.Base.{
  String, Bool, true, false, ◌&&◌, ◌||◌, not, Option, none, some, List, [], ◌∷◌, keep, any, all,
  is_empty, contains, map, ◌==◌, if◌then◌else◌,
}
use yt_scheduler.State.{
  TaskRunState, DagRunState, same_task_run, same_dag_run, is_unfinished, is_finished,
}
use yt_scheduler.Rows.{TaskRunRow, DagRunRow}
use yt_scheduler.TaskRun.{or_else}
use yt_scheduler.Dag.{Dag, upstream_of}

-- state in [SCHEDULED, QUEUED, RUNNING]
abbrev pub is_open : DagRunState → Bool
is_open state =
    any (same_dag_run state) (DagRunState.scheduled ∷ DagRunState.queued ∷ DagRunState.running ∷ [])

abbrev default_to : Option String → Option String → Option String
default_to none default = default
default_to (some v) default = some v

-- The branch of `_build_row_by_state` for SCHEDULED, QUEUED and RUNNING.
unfoldable pub reopen : String → DagRunState → DagRunRow → DagRunRow
reopen now DagRunState.scheduled base = record base {
  scheduled_at = some (or_else base.scheduled_at now);
  queued_at = none;
  start_date = none;
  end_date = none;
}
reopen now DagRunState.queued base = record base {
  scheduled_at = some (or_else base.scheduled_at now);
  queued_at = some (or_else base.queued_at now);
  start_date = none;
  end_date = none;
}
reopen now state base = record base {
  scheduled_at = some (or_else base.scheduled_at now);
  queued_at = some (or_else base.queued_at now);
  start_date = some now;
  end_date = none;
}

-- The branch for the other states.
unfoldable pub close : String → DagRunRow → DagRunRow
close now base =
    if is_open base.state
    then (let queued_at = default_to base.queued_at base.scheduled_at in
        record base {
          end_date = some now;
          queued_at = queued_at;
          start_date = default_to base.start_date queued_at;
        })
    else base

-- `_build_row_by_state` of `DagRun.set_state`.
unfoldable pub build_row_by_state : String → DagRunState → DagRunRow → DagRunRow
unfolding reopen close
build_row_by_state now state base =
    if same_dag_run base.state state
    then base
    else record (if is_open state then reopen now state base else close now base) { state = state }

-- `update_state`: the state that the states of its task runs give to a run.
unfoldable pub run_verdict : List TaskRunRow → DagRunState
run_verdict trs =
    if any (λ tr. same_task_run tr.state TaskRunState.failed) trs
    then DagRunState.failed
    else if is_empty (keep (λ tr. is_unfinished tr.state) trs)
        && all (λ tr. same_task_run tr.state TaskRunState.success) trs
    then DagRunState.success
    else DagRunState.running

-- The task runs that a failed run skips, among the unfinished ones.
unfoldable pub skippable : List TaskRunRow → List TaskRunRow
skippable unfinished_trs =
    keep (λ tr. any (same_task_run tr.state) (TaskRunState.scheduled ∷ TaskRunState.queued ∷ []))
      unfinished_trs

-- `_get_ready_trs`: a task run is ready when all upstream tasks have finished task runs. A task
-- that the DAG does not hold has no upstream.
unfoldable pub get_ready_trs : Dag → List TaskRunRow → List TaskRunRow → List TaskRunRow
get_ready_trs dag schedulable_trs finished_trs =
    keep
      (λ ti.
        all (λ up. contains up (map (λ f. f.task_id) finished_trs)) (upstream_of dag ti.task_id))
      schedulable_trs

pub record Decisions : Type 0 where
  pub trs : List TaskRunRow
  pub schedulable_trs : List TaskRunRow
  pub unfinished_trs : List TaskRunRow
  pub finished_trs : List TaskRunRow

-- `trs_scheduling_decisions`, after its query.
unfoldable pub trs_scheduling_decisions : Dag → List TaskRunRow → Decisions
unfolding get_ready_trs
trs_scheduling_decisions dag trs =
    let finished_trs = keep (λ tr. is_finished tr.state) trs in
    let schedulable_trs = keep (λ tr. same_task_run tr.state TaskRunState.scheduled) trs in
    record {
      trs = trs;
      schedulable_trs =
          if is_empty schedulable_trs then [] else get_ready_trs dag schedulable_trs finished_trs;
      unfinished_trs = keep (λ tr. is_unfinished tr.state) trs;
      finished_trs = finished_trs;
    }
