-- ===== src/Serialized/Spec.antt =====
-- task.py and dag.py: `from_spec_conf`, which makes the tasks of a DAG from its spec, and
-- `from_serialized_repr`, which makes them from its reference; both up to the dependencies between the
-- tasks, which Dag/Relations has. `to_dict` is Python's `dict` of a value, `prepare` what
-- `prepare_user_spec` makes of a user spec with the client, by the operation type: it may raise, and
-- may end in another way when it is called again.
pub mod Stored
use yt_scheduler.Base.{String, Option, none, some, if◌then◌else◌}
use yt_scheduler.Base.Action.{
  Result, ok, err, type_error, attribute_error, dag_initialization, and_then, Action, pure, raise,
  lift, try_except, ◌>>=◌,
}
use yt_scheduler.Serialized.{
  Library, Runtime, Value, nil, Entries, end, entry, unset, builder, Operator, operator, DagObject,
  dag_object, TaskDict, no_dict, no_tasks, task_entry, null, text, enum, dict, set, find, without,
}
use yt_scheduler.Serialized.Decode.{is_hashable}
use yt_scheduler.Serialized.Objects.{default_to, as_dict, put_task, dag_of_repr}

module _ {l : Library} where
  abbrev pub as_text : Value l → Option String
  as_text (text s) = some s
  as_text (enum s) = some s
  as_text _ = none

module _ {W : Type 0} {l : Library} (python : Runtime l) (to_dict : Value l → Result (Entries l))
    (prepare : String → Value l → Action W (Value l)) where
  abbrev pub known : String → Option String
  known op = if python.knows op then some op else none

  -- The subclass of `SpecBuilder` with the operation type, which need not be a text.
  abbrev pub find_type : Value l → Result (Option String)
  find_type v = elim (as_text v) [
    | some op ↦ ok (known op)
    | none ↦ if is_hashable v then ok none else err type_error
  ]

  abbrev pub new_task : Value l → Entries l → Option String → Option (Operator l)
  new_task task_id spec none = none
  new_task task_id spec (some op) =
      let user_spec = python.with_spec op (dict (without "operation_type" spec)) in
      some (operator task_id null (builder op user_spec) (set nil) (set nil))

  -- `Task.from_spec_conf`
  unfoldable pub task_from_spec_conf : Entries l → Value l → Result (Option (Operator l))
  task_from_spec_conf spec task_id =
      and_then (find_type (default_to null (find "operation_type" spec)))
        (λ found. ok (new_task task_id spec found))

  -- task.prepare_user_spec()
  abbrev pub prepare_user_spec : Operator l → Action W (Operator l)
  prepare_user_spec (operator task_id dag_id unset p s) = raise attribute_error
  prepare_user_spec (operator task_id dag_id (builder op user_spec) p s) =
      prepare op user_spec
      >>= (λ user_spec'. pure (operator task_id dag_id (builder op user_spec') p s))

  abbrev pub add_task : Value l → TaskDict l → Option (Operator l) → Action W (TaskDict l)
  add_task task_id tasks none = raise dag_initialization
  add_task task_id tasks (some task) =
      prepare_user_spec task >>= (λ task'. pure (put_task python task_id task' tasks))

  -- A round of the loop over the steps.
  abbrev pub read_step : Value l → Value l → TaskDict l → Action W (TaskDict l)
  read_step task_id params tasks =
      lift (and_then (to_dict params) (λ cfg. task_from_spec_conf cfg task_id))
      >>= add_task task_id tasks

  unfoldable pub read_steps : Entries l → TaskDict l → Action W (TaskDict l)
  unfolding task_from_spec_conf
  read_steps end tasks = pure tasks
  read_steps (entry task_id params steps) tasks =
      read_step task_id params tasks >>= read_steps steps

  -- `DAG.from_spec_conf`
  unfoldable pub dag_from_spec_conf : Entries l → String → Action W (DagObject l)
  unfolding read_steps
  dag_from_spec_conf spec work_dir =
      lift (as_dict (default_to (dict end) (find "steps" spec))) >>= (λ steps.
        read_steps steps no_tasks >>= (λ tasks. pure (dag_object null (text work_dir) tasks)))

  -- The loop of `DAG.from_serialized_repr` over its tasks.
  abbrev pub prepare_tasks : TaskDict l → Action W (TaskDict l)
  prepare_tasks no_dict = raise attribute_error
  prepare_tasks no_tasks = pure no_tasks
  prepare_tasks (task_entry k task tasks) =
      prepare_user_spec task
      >>= (λ task'. prepare_tasks tasks >>= (λ tasks'. pure (task_entry k task' tasks')))

  abbrev pub initialize : DagObject l → Action W (DagObject l)
  initialize (dag_object id work_dir tasks) =
      prepare_tasks tasks >>= (λ tasks'. pure (dag_object id work_dir tasks'))

  -- except Exception as e: raise DagInitializationError(…) from e
  abbrev pub or_initialization_error : Action W (DagObject l) → Action W (DagObject l)
  or_initialization_error body = try_except body (λ e. raise dag_initialization)

  -- `DAG.from_serialized_repr`, of what `json.loads` gives to `from_json`
  unfoldable pub dag_from_serialized_repr : String → Value l → Action W (DagObject l)
  unfolding dag_of_repr
  dag_from_serialized_repr dag_id v =
      or_initialization_error (lift (dag_of_repr python dag_id v))
      >>= (λ dag. or_initialization_error (initialize dag))
