-- ===== src/Serialized/Spec/Stored.antt =====
-- A DAG that is made from a spec can be stored and read again.
use yt_scheduler.Base.{String, ◌≡◌}
use yt_scheduler.Base.Action.{Result, Action}
use yt_scheduler.Serialized.{
  Library, Runtime, Value, Entries, end, entry, unset, builder, Operator, operator, DagObject,
  dag_object, TaskDict, no_dict, no_tasks, task_entry, null, text, dict,
}
use yt_scheduler.Serialized.Objects.{put_task}
use yt_scheduler.Serialized.Plain.{ArePlainEntries}
use yt_scheduler.Serialized.Restored.{StorableTask}
use yt_scheduler.Serialized.Dags.{NotAmong}

module _ {W : Type 0} {l : Library} (python : Runtime l) (to_dict : Value l → Result (Entries l))
    (prepare : String → Value l → Action W (Value l)) where
  -- A step for each key, whatever its task.
  abbrev steps_of : Entries l → TaskDict l
  steps_of end = no_tasks
  steps_of (entry k v es) = task_entry k (operator null null unset null null) (steps_of es)

  -- The keys of the steps are texts, no two of them the same.
  pub data IsKeyed : Entries l → Type 0 where
    no_steps : IsKeyed end
    step :
        (task_id : String) (params : Value l) (steps : Entries l)
        → NotAmong python (text task_id) (steps_of steps)
        → IsKeyed steps
        → IsKeyed (entry (text task_id) params steps)

  -- The user spec is a dictionary of values that JSON has.
  abbrev PlainSpec : Operator l → Type 0
  PlainSpec (operator task_id dag_id unset p s) = ⊥
  PlainSpec (operator task_id dag_id (builder op v) p s) =
      (es : Entries l) × (v ≡ dict es) × ArePlainEntries es

  abbrev PlainTasks : TaskDict l → Type 0
  PlainTasks no_dict = Unit
  PlainTasks no_tasks = Unit
  PlainTasks (task_entry k o tasks) = PlainSpec o × PlainTasks tasks

  -- So are the user specs of the tasks.
  abbrev pub HasPlainSpecs : DagObject l → Type 0
  HasPlainSpecs (dag_object id work_dir tasks) = PlainTasks tasks

  abbrev Adds : String → TaskDict l → TaskDict l → Type 0
  Adds task_id acc acc' =
      (o : Operator l) × (PlainSpec o → StorableTask python task_id o)
      × (put_task python (text task_id) o acc ≡ acc')
