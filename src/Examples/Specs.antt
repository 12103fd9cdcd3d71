-- ===== src/Examples/Specs.antt =====
-- A DAG that is made from a spec with one step.
use yt_scheduler.Base.{ℕ, ◌+◌, String, nat_eq, if◌then◌else◌}
use yt_scheduler.Base.Action.{Result, ok, err, type_error, runtime_error, Action}
use yt_scheduler.Serialized.{
  Value, Entries, end, entry, builder, operator, DagObject, dag_object, no_tasks, task_entry, null,
  nil, text, dict, set,
}
use yt_scheduler.Examples.Encoding.{whole, command}

abbrev to_dict : Value whole → Result (Entries whole)
to_dict (dict es) = ok es
to_dict _ = err type_error

-- Preparing a spec leaves it as it is; the world counts how often it is done, and the fourth time is
-- refused.
abbrev prepare : String → Value whole → Action ℕ (Value whole)
prepare op v w = (if nat_eq w 3 then err runtime_error else ok v, w + 1)

abbrev steps : Entries whole
steps = entry (text "a") (dict (entry (text "operation_type") (text "map") command)) end

abbrev spec : Entries whole
spec = entry (text "steps") (dict steps) end

abbrev made : DagObject whole
made = dag_object null (text "//home") (
    task_entry (text "a")
      (operator (text "a") null (builder "map" (dict command)) (set nil) (set nil)) no_tasks)
