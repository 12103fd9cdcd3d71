-- ===== src/Examples/Encoding.antt =====
-- Values, tasks and DAGs that are encoded and read again.
use yt_scheduler.Base.{ℕ, String, Bool, true, false, ◌≡◌, refl, ◌==◌}
use yt_scheduler.Base.Action.{Error, Result, ok, err, type_error, and_then}
use yt_scheduler.Serialized.{
  ℤ, Library, Runtime, Value, nil, cons, Entries, end, entry, builder, Operator, operator,
  dag_object, TaskDict, no_tasks, task_entry, null, int, pos, negsuc, text, datetime, timedelta,
  dict, list, set, tuple, is_text, encode,
}
use yt_scheduler.Serialized.Encode.{serialize}
use yt_scheduler.Serialized.Decode.{deserialize, is_hashable}
use yt_scheduler.Serialized.Objects.{task_repr, dag_repr, task_of_repr, dag_of_repr}
use yt_scheduler.Serialized.RoundTrip.{deserialize-serialize}
use yt_scheduler.Serialized.Plain.{IsPlain, ArePlainEntries}
use yt_scheduler.Serialized.Restored.{StorableTask, storable, task_of_repr-task_repr_datetime}
use yt_scheduler.Serialized.Dags.{no_storable, one_more, restore_all, dag_of_repr-dag_repr}

-- Floats, datetimes and timedeltas that are whole numbers; no float is infinite.
abbrev pub whole : Library
whole = record {
  Float = ℕ;
  Datetime = ℕ;
  Timedelta = ℕ;
  Other = ⊥;
  is_finite = λ x. true;
  float_text = λ x. "nan";
  timestamp = λ d. d;
  fromisoformat = λ s. err Error.value_error;
  total_seconds = λ d. d;
  seconds = λ x. ok x;
  int_seconds = elim_seconds;
  other_text = λ o. absurd o;
}
  where
    elim_seconds : ℤ → Result ℕ
    elim_seconds (pos n) = ok n
    elim_seconds (negsuc n) = err Error.other

abbrev same_text : Value whole → Value whole → Bool
same_text (text a) v = is_text a v
same_text _ v = false

abbrev pub python : Runtime whole
python = record {
  str_of = λ v. "";
  same = same_text;
  sorted = λ xs. ok xs;
  knows = λ op. op == "map";
  with_spec = λ op spec. spec;
}

abbrev pub command : Entries whole
command = entry (text "command") (text "cat") (
    entry (text "limits") (dict (entry (text "time") (timedelta 60) end))
      (entry (text "tables") (list (cons (text "//a") (cons (int (negsuc 0)) nil))) end))

abbrev mapper : String → Operator whole
mapper id =
    operator (text id) (text "old") (builder "map" (dict command)) (set nil)
      (set (cons (text "b") nil))

pub command_plain : ArePlainEntries command
unfolding IsPlain
command_plain = (
  ("command", refl, refl),
  tt,
  (
    ("limits", refl, refl),
    (("time", refl, refl), (refl, refl), tt),
    (("tables", refl, refl), (tt, (tt, tt)), tt),
  ),
)

mapper-StorableTask : (id : String) → StorableTask python id (mapper id)
mapper-StorableTask id = storable "map" _ _ _ command refl command_plain

abbrev mappers : TaskDict whole
mappers = task_entry (text "a") (mapper "a") (task_entry (text "b") (mapper "b") no_tasks)

encoded_set :
    serialize python (set (cons (text "x") nil)) ≡ ok (encode (list (cons (text "x") nil)) "set")
unfolding serialize
encoded_set = refl

read_set :
    deserialize python (encode (list (cons (text "x") (cons (text "x") nil))) "set")
    ≡ ok (set (cons (text "x") nil))
unfolding deserialize is_hashable
read_set = refl

deserialize-serialize_example :
    and_then
      (serialize python (tuple (cons (dict command) (cons null nil))))
      (λ v. deserialize python v)
    ≡ ok (tuple (cons (dict command) (cons null nil)))
unfolding IsPlain
deserialize-serialize_example =
    deserialize-serialize python (tuple (cons (dict command) (cons null nil)))
      (command_plain, (tt, tt))

dag_of_repr-dag_repr_example :
    and_then
      (dag_repr python (dag_object null (text "//home") mappers))
      (λ v. dag_of_repr python "d" v)
    ≡ ok (dag_object (text "d") (text "//home") (restore_all python (text "d") mappers))
dag_of_repr-dag_repr_example =
    dag_of_repr-dag_repr python "d" "//home" null mappers (λ op spec. refl)
      (one_more (mapper-StorableTask "a") (refl, tt)
        (one_more (mapper-StorableTask "b") tt no_storable))

task_of_repr-task_repr_datetime_example :
    let o =
      operator
        (text "a")
        null
        (builder "map" (dict (entry (text "at") (datetime 5) command)))
        null
        null in
    ((v : Value whole) × (task_repr python o ≡ ok v))
    × (and_then (task_repr python o) (λ v. task_of_repr python v) ≡ err type_error)
task_of_repr-task_repr_datetime_example =
    task_of_repr-task_repr_datetime python "a" "map" "at" null null null 5 command command_plain
      refl refl
