-- ===== src/Executor.antt =====
-- executor.py: the job that starts queued task runs as operations and polls the operations.
-- Times are in milliseconds.
pub mod Start
pub mod Spacing
pub mod Poll
pub mod Orphans
pub mod Rounds
use yt_scheduler.Base.{
  lookup, assign, pop, ℕ, ◌+◌, String, Bool, true, false, Option, none, some, List, [], ◌∷◌, ◌++◌,
  ltb, ◌==◌, not, keep, if◌then◌else◌,
}
use yt_scheduler.Base.Action.{
  Error, Result, ok, err, Action, pure, raise, try_except, same_error, dag_initialization, ◌>>=◌,
  ◌>>◌,
}
use yt_scheduler.State.{TaskRunState, DagRunState, same_dag_run}
use yt_scheduler.Rows.{TaskRunRow, DagRunRow, equals}
use yt_scheduler.TaskRun.SetState.{Update, RowRef, by_id, by_row, no_requires, update_to}

-- `_pending_task_runs` and `_pending_operations`
pub record Pending : Type 0 where
  pub task_runs : List (String × TaskRunRow)
  pub operations : List (String × Option String)

abbrev pub add_pending : TaskRunRow → Option String → Pending → Pending
add_pending tr operation p = record {
  task_runs = assign tr.run_id tr p.task_runs;
  operations = assign tr.run_id operation p.operations;
}

-- `_update_pending_tasks`, after its query
abbrev pub update_pending_tasks : List TaskRunRow → Pending → Pending
update_pending_tasks [] p = p
update_pending_tasks (tr ∷ trs) p = update_pending_tasks trs (add_pending tr tr.operation_id p)

abbrev pub last_attempt : Option ℕ → ℕ
last_attempt none = 0
last_attempt (some t) = t

-- `_on_complete` of `_start_taskruns`: the task runs that are handed to the pool, and the times of
-- the attempts. `interval` is `_task_start_interval`, `now i` and `later i` are what the clock shows
-- for the `i`-th of the given task runs.
unfoldable pub start_taskruns :
    ℕ
    → (ℕ → ℕ)
    → (ℕ → ℕ)
    → ℕ
    → List TaskRunRow
    → List (String × ℕ)
    → List TaskRunRow × List (String × ℕ)
start_taskruns interval now later i [] attempts = ([], attempts)
start_taskruns interval now later i (tr ∷ trs) attempts =
    if ltb (now i) (last_attempt (lookup tr.run_id attempts) + interval)
    then start_taskruns interval now later (i + 1) trs attempts
    else (let (started, after) =
          start_taskruns interval now later (i + 1) trs (assign tr.run_id (later i) attempts) in
        (tr ∷ started, after))

-- What the client says of an operation.
pub record OperationState : Type 0 where
  pub is_finished : Bool
  pub is_unsuccessfully_finished : Bool

-- The variable `run_id` of `_poll_pending_operations`: there is one for all rounds of its loop, and
-- the functions that the rounds define read it when they are called. It is unbound before the first
-- round.
pub record Frame : Type 0 where
  pub run_id : Option String

-- A job that `_poll_pending_operations` hands to the pool: a call of `TaskRunClient.set_state`, and
-- the callback, if it has one, by the variables that it closes over.
pub record Submission : Type 0 where
  pub update : Update
  pub callback : Option (Frame → Pending → Pending)

abbrev final_state : OperationState → TaskRunState
final_state status =
    if status.is_unsuccessfully_finished then TaskRunState.failed else TaskRunState.success

abbrev row_or_id : String → Option TaskRunRow → RowRef
row_or_id run_id none = by_id run_id
row_or_id run_id (some tr) = by_row tr

abbrev finalize : Option String → Pending → Pending
finalize none p = p
finalize (some run_id) p = record {
  task_runs = pop run_id p.task_runs;
  operations = pop run_id p.operations;
}

-- `_on_complete` of `_poll_pending_operations`
abbrev pub on_complete : Frame → Pending → Pending
on_complete frame p = finalize frame.run_id p

module _ (get_operation_state : Option String → Result OperationState) where
  -- One round of the loop of `_poll_pending_operations`.
  abbrev pub poll_one : Pending → String → Option String → List Submission
  poll_one p run_id operation = elim (get_operation_state operation) [
    | err e ↦ []
    | ok status ↦
        if status.is_finished
        then record {
          update = record {
            row = row_or_id run_id (lookup run_id p.task_runs);
            state = some (final_state status);
            operation_id = none;
            requires = no_requires;
          };
          callback = some on_complete;
        }
          ∷ []
        else record {
          update = record {
            row = by_id run_id;
            state = some TaskRunState.running;
            operation_id = operation;
            requires = record no_requires { state = equals TaskRunState.queued };
          };
          callback = none;
        }
          ∷ []
  ]

  -- The loop, on the variable: each round assigns it.
  abbrev pub poll_items : Pending → List (String × Option String) → Frame → List Submission × Frame
  poll_items p [] frame = ([], frame)
  poll_items p ((run_id, operation) ∷ items) frame =
      let (jobs, frame') = poll_items p items (record frame { run_id = some run_id }) in
      (poll_one p run_id operation ++ jobs, frame')

  -- `_poll_pending_operations`: the jobs that it hands to the pool, and its variable when it returns.
  unfoldable pub poll_pending_operations : Pending → List Submission × Frame
  poll_pending_operations p = poll_items p p.operations (record { run_id = none })

abbrev pub call_back : Option (Frame → Pending → Pending) → Frame → Pending → Pending
call_back none frame p = p
call_back (some callback) frame p = callback frame p

-- The callbacks of jobs, in their order, called while the variable has that value: callbacks are
-- drained after the method has returned.
unfoldable pub call_all : List Submission → Frame → Pending → Pending
call_all [] frame p = p
call_all (job ∷ jobs) frame p = call_all jobs frame (call_back job.callback frame p)

-- The clients and methods that `_start_taskrun` calls, on a world that they change. `T` is a task
-- that is ready to run, `R` the row of its reference.
pub record Services (W T R : Type 0) : Type 0 where
  pub get_dag_run : String → Action W (Option DagRunRow)
  pub get_task_ref : String → String → Action W (Option R)
  pub from_serialized_repr : R → Result T
  pub set_dag_run_state : DagRunState → DagRunRow → Action W (Unit {0})
  pub set_task_run_state : List Update → Action W (Unit {0})
  pub run_operation : T → String → Action W String

abbrev is_failed : DagRunRow → Bool
is_failed dagrun = same_dag_run dagrun.state DagRunState.failed

module _ {W T R : Type 0} (services : Services W T R) where
  -- `try: body` / `except Exception: pass`
  abbrev ignoring : Action W (Unit {0}) → Action W (Unit {0})
  ignoring body = try_except body (λ e. pure tt)

  -- The handler of `_get_task_run_manifest`.
  abbrev mark_failed : Option DagRunRow → Action W (Unit {0})
  mark_failed none = pure tt
  mark_failed (some dagrun) = ignoring (services.set_dag_run_state DagRunState.failed dagrun)

  abbrev manifest_of : Option DagRunRow → Option R → Action W (Option T × Option DagRunRow)
  manifest_of dagrun none = pure (none, dagrun)
  manifest_of dagrun (some ref) = elim (services.from_serialized_repr ref) [
    | ok task ↦ pure (some task, dagrun)
    | err e ↦ raise e
  ]

  -- `_get_task_run_manifest`
  unfoldable pub get_task_run_manifest : TaskRunRow → Action W (Option T × Option DagRunRow)
  get_task_run_manifest tr = do
    dagrun ← services.get_dag_run tr.dagrun_id
    try_except (do ref ← services.get_task_ref tr.dag_id tr.task_id; manifest_of dagrun ref)
        (λ e.
          if same_error e dag_initialization
          then mark_failed dagrun >> pure (none, dagrun)
          else raise e)

-- What `_start_taskrun` works on.
pub record Running (W : Type 0) : Type 0 where
  pub world : W
  pub pending : Pending

-- A statement that leaves the pending operations alone.
abbrev pub outside {ℓ} :
    {W : Type 0} {A : Type ℓ} → (W → Result A × W) → Running W → Result A × Running W
outside m s = let (r, w) = m s.world in (r, record s { world = w })

-- TaskRun.update_row(row=tr, state=state, operation_id=operation, required_state=QUEUED)
abbrev pub from_queued : TaskRunState → Option String → TaskRunRow → Update
from_queued state operation tr = record (update_to state tr) {
  operation_id = operation;
  requires = record no_requires { state = equals TaskRunState.queued };
}

module _ {W T R : Type 0} (services : Services W T R) where
  -- The operation is started and the run of the DAG set to RUNNING; if one of these fails, the
  -- task run is set to FAILED.
  abbrev pub launch : TaskRunRow → T → DagRunRow → Action W (Option String)
  launch tr task dagrun =
      try_except
        (do
          operation ← services.run_operation task tr.run_id
          services.set_dag_run_state DagRunState.running dagrun
          pure (some operation))
        (λ e.
          ignoring services (services.set_task_run_state (update_to TaskRunState.failed tr ∷ []))
          >> pure none)

  abbrev pub register : TaskRunRow → Option String → Action (Running W) (Unit {0})
  register tr none s = (ok tt, s)
  register tr (some operation) s =
      outside
        (ignoring services
          (services.set_task_run_state (from_queued TaskRunState.running (some operation) tr ∷ [])))
        (record s { pending = add_pending tr (some operation) s.pending })

  abbrev skip : TaskRunRow → Action W (Unit {0})
  skip tr =
      ignoring services
        (services.set_task_run_state (from_queued TaskRunState.skipped none tr ∷ []))

  -- `_start_taskrun`, after the manifest was read
  abbrev pub start_with : TaskRunRow → Option T × Option DagRunRow → Action (Running W) (Unit {0})
  start_with tr (task, none) s = (ok tt, s)
  start_with tr (none, some dagrun) s = if is_failed dagrun then outside (skip tr) s else (ok tt, s)
  start_with tr (some task, some dagrun) s =
      if is_failed dagrun
      then outside (skip tr) s
      else (outside (launch tr task dagrun) >>= register tr) s

  -- `_start_taskrun`
  unfoldable pub start_taskrun : TaskRunRow → Action (Running W) (Unit {0})
  unfolding get_task_run_manifest
  start_taskrun tr s = (outside (get_task_run_manifest services tr) >>= start_with tr) s
