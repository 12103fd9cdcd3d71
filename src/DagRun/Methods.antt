-- ===== src/DagRun/Methods.antt =====
-- dagrun.py: the methods of `DagRun` that read and write the tables. `self` of the session is the
-- object whose method runs. `clock i` and `now` are what the clock shows, `uuid i` is the `i`-th
-- generated id.
use yt_scheduler.Base.{
  ℕ, suc, ◌+◌, String, Bool, false, not, Option, none, some, List, [], ◌∷◌, ◌++◌, keep, contains,
  length, map, if◌then◌else◌,
}
use yt_scheduler.Base.Action.{ok, Action, pure, gets, ◌>>=◌, ◌>>◌}
use yt_scheduler.State.{TaskRunState, DagRunState, same_dag_run}
use yt_scheduler.Rows.{
  TaskRunRow, DagRunRow, equals, among, TaskRunQuery, any_task_run, any_dag_run,
}
use yt_scheduler.Yt.{
  YtClient, Session, transaction, select_task_runs, select_dag_runs, upsert_task_runs,
  upsert_dag_runs,
}
use yt_scheduler.TaskRun.SetState
use yt_scheduler.TaskRun.SetState.{update_to}
use yt_scheduler.Dag.{Task, Dag, task_ids, in_roots}
use yt_scheduler.DagRun.{build_row_by_state, run_verdict, skippable, trs_scheduling_decisions}

-- TaskRun(dagrun_id=dagrun_id, task=task, state=state)
abbrev pub new_task_run : String → String → TaskRunState → Task → TaskRunRow
new_task_run uuid dagrun_id state task = record {
  run_id = uuid;
  task_id = task.task_id;
  dag_id = task.dag_id;
  dagrun_id = dagrun_id;
  state = state;
  operation_id = none;
  scheduled_at = none;
  queued_at = none;
  start_date = none;
  end_date = none;
}

abbrev pub new_task_runs : (ℕ → String) → String → TaskRunState → List Task → List TaskRunRow
new_task_runs uuid dagrun_id state [] = []
new_task_runs uuid dagrun_id state (t ∷ ts) =
    new_task_run (uuid 0) dagrun_id state t ∷ new_task_runs (λ i. uuid (suc i)) dagrun_id state ts

-- `_init_task_runs_for_run`, after its query: roots are queued at once.
unfoldable pub task_runs_to_create : (ℕ → String) → String → Dag → List TaskRunRow → List TaskRunRow
task_runs_to_create uuid dagrun_id dag existing_trs =
    let existing_task_ids = map (λ t. t.task_id) existing_trs in
    let tasks_to_create = keep (λ task. not (contains task.task_id existing_task_ids)) dag.tasks in
    let roots = keep (in_roots dag) tasks_to_create in
    let others = keep (λ task. not (in_roots dag task)) tasks_to_create in
    new_task_runs uuid dagrun_id TaskRunState.queued roots
    ++ new_task_runs (λ i. uuid (length roots + i)) dagrun_id TaskRunState.scheduled others

-- What `YtRow.get` makes of the rows that it fetched with `limit=1`.
abbrev pub single : {A : Type 0} → List A → Option A
single [] = none
single (r ∷ []) = some r
single (r ∷ r' ∷ rs) = none

abbrev pub is_scheduled : Option DagRunRow → Bool
is_scheduled none = false
is_scheduled (some run) = same_dag_run run.state DagRunState.scheduled

module _ {Db : Type 0} (yt : YtClient Db) where
  -- `copy_fields(self, row_obj)`
  abbrev pub put_self : DagRunRow → Action (Session Db DagRunRow) (Unit {0})
  put_self row s = (ok tt, record s { self = row })

  unfoldable pub set_state : String → DagRunState → Action (Session Db DagRunRow) (Unit {0})
  set_state now state = do
    self ← gets (λ s. s.self)
    upsert_dag_runs yt (build_row_by_state now state self ∷ [])
    put_self (build_row_by_state now state self)

  -- DagRun.get(run_id=run_id)
  abbrev pub get : {O : Type 0} → String → Action (Session Db O) (Option DagRunRow)
  get run_id = do
    rows ← select_dag_runs yt (record any_dag_run { run_id = equals run_id; limit = some 1 })
    pure (single rows)

  abbrev pub run_query : DagRunRow → Dag → TaskRunQuery
  run_query self dag = record any_task_run {
    dagrun_id = equals self.run_id;
    dag_id = equals self.dag_id;
    task_id = among (task_ids dag);
  }

  abbrev pub skip_all : (ℕ → String) → List TaskRunRow → Action (Session Db DagRunRow) (Unit {0})
  skip_all clock [] = pure tt
  skip_all clock (tr ∷ trs) =
      SetState.set_state yt clock (map (update_to TaskRunState.skipped) (tr ∷ trs)) >> pure tt

  -- The part of `update_state` behind its query: the schedulable ids of the run.
  unfoldable pub apply_verdict :
      (ℕ → String) → String → Dag → List TaskRunRow → Action (Session Db DagRunRow) (List String)
  unfolding set_state
  apply_verdict clock now dag trs =
      let decisions = trs_scheduling_decisions dag trs in
      let failed = same_dag_run (run_verdict trs) DagRunState.failed in
      do
        skip_all clock (if failed then skippable decisions.unfinished_trs else [])
        set_state now (run_verdict trs)
        pure (map (λ tr. tr.run_id) (if failed then [] else decisions.schedulable_trs))

  abbrev pub update_state_body :
      (ℕ → String) → String → Dag → Action (Session Db DagRunRow) (List String)
  update_state_body clock now dag = do
    self ← gets (λ s. s.self)
    trs ← select_task_runs yt (run_query self dag)
    apply_verdict clock now dag trs

  unfoldable pub update_state :
      (ℕ → String) → String → Dag → Action (Session Db DagRunRow) (List String)
  update_state clock now dag = transaction yt (update_state_body clock now dag)

  abbrev pub queue_rows :
      {O : Type 0} → (ℕ → String) → List TaskRunRow → Action (Session Db O) (List TaskRunRow)
  queue_rows clock [] = pure []
  queue_rows clock (tr ∷ trs) =
      SetState.set_state yt clock (map (update_to TaskRunState.queued) (tr ∷ trs))

  abbrev pub schedule_trs_body :
      {O : Type 0} → (ℕ → String) → String → List String → Action (Session Db O) ℕ
  schedule_trs_body clock run_id tids = do
    rows ← select_task_runs yt (record any_task_run {
      run_id = among tids;
      dagrun_id = equals run_id;
      state = equals TaskRunState.scheduled;
    })
    trs ← queue_rows clock rows
    pure (length trs)

  unfoldable pub schedule_trs :
      {O : Type 0} → (ℕ → String) → String → List String → Action (Session Db O) ℕ
  schedule_trs clock run_id [] = pure 0
  schedule_trs clock run_id (tid ∷ tids) =
      transaction yt (schedule_trs_body clock run_id (tid ∷ tids))

  abbrev pub upsert_new : List TaskRunRow → Action (Session Db DagRunRow) (Unit {0})
  upsert_new [] = pure tt
  upsert_new (tr ∷ trs) = upsert_task_runs yt (tr ∷ trs)

  -- The query compares the task runs' own ids with the id of the run, as the source does.
  abbrev pub existing_query : DagRunRow → Dag → TaskRunQuery
  existing_query self dag = record any_task_run {
    run_id = equals self.run_id;
    dag_id = equals self.dag_id;
    task_id = among (task_ids dag);
  }

  abbrev pub create_and_queue :
      (ℕ → String) → String → Dag → Action (Session Db DagRunRow) (Unit {0})
  create_and_queue uuid now dag = do
    self ← gets (λ s. s.self)
    existing ← select_task_runs yt (existing_query self dag)
    upsert_new (task_runs_to_create uuid self.run_id dag existing)
    set_state now DagRunState.queued

  abbrev pub queue_run_body : (ℕ → String) → String → Dag → Action (Session Db DagRunRow) (Unit {0})
  queue_run_body uuid now dag = do
    self ← gets (λ s. s.self)
    run ← get self.run_id
    if is_scheduled run then create_and_queue uuid now dag else pure tt

  unfoldable pub queue_run_atomic :
      (ℕ → String) → String → Dag → Action (Session Db DagRunRow) (Unit {0})
  queue_run_atomic uuid now dag = transaction yt (queue_run_body uuid now dag)
