-- ===== src/Serialized/Encode.antt =====
-- serialized.py: `serialize`, with `serialize_operator` and `serialize_dag`.
use yt_scheduler.Base.{
  String, Bool, true, false, none, some, List, [], ◌∷◌, contains, if◌then◌else◌,
}
use yt_scheduler.Base.Action.{Result, ok, err, Error, type_error, and_then, same_error}
use yt_scheduler.Serialized.{
  Library, Runtime, Value, Items, nil, cons, Entries, end, entry, Builder, unset, builder, Operator,
  operator, DagObject, dag_object, TaskDict, no_dict, no_tasks, task_entry, null, boolean, int,
  float, text, enum, datetime, timedelta, dict, list, set, tuple, task, dag, find, put_first,
  encode,
}

-- An attribute that `deep_getattr` reads: its path, its value, and what `serialize` makes of it.
pub record Attribute (l : Library) : Type 0 where
  pub key : String
  pub value : Value l
  pub serialized : Result (Value l)

module _ {l : Library} where
  -- `_is_excluded`; loggers, types and properties are attributes of no path that is read.
  abbrev pub is_excluded : Value l → Bool
  is_excluded null = true
  is_excluded (boolean b) = false
  is_excluded (int n) = false
  is_excluded (float x) = false
  is_excluded (text s) = false
  is_excluded (enum s) = false
  is_excluded (datetime d) = false
  is_excluded (timedelta d) = false
  is_excluded (dict es) = false
  is_excluded (list xs) = false
  is_excluded (set xs) = false
  is_excluded (tuple xs) = false
  is_excluded (task o) = false
  is_excluded (dag d) = false
  is_excluded (Value.other o) = false

  -- value[VAR], for a dictionary that has a key TYPE
  abbrev unwrap_entries : Entries l → Result (Value l)
  unwrap_entries es = elim (find "__type" es) [
    | none ↦ ok (dict es)
    | some kind ↦ elim (find "__var" es) [ none ↦ err Error.key_error | some var ↦ ok var ]
  ]

  abbrev pub unwrap : Value l → Result (Value l)
  unwrap (dict es) = unwrap_entries es
  unwrap null = ok null
  unwrap (boolean b) = ok (boolean b)
  unwrap (int n) = ok (int n)
  unwrap (float x) = ok (float x)
  unwrap (text s) = ok (text s)
  unwrap (enum s) = ok (enum s)
  unwrap (datetime d) = ok (datetime d)
  unwrap (timedelta d) = ok (timedelta d)
  unwrap (list xs) = ok (list xs)
  unwrap (set xs) = ok (set xs)
  unwrap (tuple xs) = ok (tuple xs)
  unwrap (task o) = ok (task o)
  unwrap (dag d) = ok (dag d)
  unwrap (Value.other o) = ok (Value.other o)

  -- `serialize_to_json`; the keys are those of the attributes.
  unfoldable pub serialize_to_json : List String → List (Attribute l) → Result (Entries l)
  serialize_to_json decorated [] = ok end
  serialize_to_json decorated (a ∷ attributes) =
      let rest = serialize_to_json decorated attributes in
      if is_excluded a.value
      then rest
      else and_then a.serialized (λ v.
        and_then (if contains a.key decorated then ok v else unwrap v)
          (λ v'. and_then rest (λ es. ok (entry (text a.key) v' es))))

  -- `operation_type` of a task, which asks its spec builder
  abbrev pub operation_type : Builder l → Value l
  operation_type unset = null
  operation_type (builder op spec) = text op

  abbrev pub user_spec : Builder l → Value l
  user_spec unset = null
  user_spec (builder op spec) = spec

  -- serialized_dag["tasks"] = tasks
  abbrev pub put_tasks : Items l → Entries l → Entries l
  put_tasks tasks end = entry (text "tasks") (list tasks) end
  put_tasks tasks (entry k v es) = entry k v (put_tasks tasks es)

  -- except TypeError: fallback
  abbrev pub except_type_error : Result (Value l) → Result (Value l) → Result (Value l)
  except_type_error (ok v) fallback = ok v
  except_type_error (err e) fallback = if same_error e type_error then fallback else err e

  -- raise Exception(…) from the handler of `serialize_dag`
  abbrev pub except_failed : Result (Entries l) → Result (Entries l)
  except_failed (ok es) = ok es
  except_failed (err e) = err Error.other

module _ {l : Library} (python : Runtime l) where
  -- str(k)
  abbrev pub str_of_key : Value l → String
  str_of_key (text s) = s
  str_of_key (enum s) = python.str_of (enum s)
  str_of_key null = python.str_of null
  str_of_key (boolean b) = python.str_of (boolean b)
  str_of_key (int n) = python.str_of (int n)
  str_of_key (float x) = python.str_of (float x)
  str_of_key (datetime d) = python.str_of (datetime d)
  str_of_key (timedelta d) = python.str_of (timedelta d)
  str_of_key (dict es) = python.str_of (dict es)
  str_of_key (list xs) = python.str_of (list xs)
  str_of_key (set xs) = python.str_of (set xs)
  str_of_key (tuple xs) = python.str_of (tuple xs)
  str_of_key (task o) = python.str_of (task o)
  str_of_key (dag d) = python.str_of (dag d)
  str_of_key (Value.other o) = python.str_of (Value.other o)

  unfoldable mutual
    -- `serialize`
    pub serialize : Value l → Result (Value l)
    serialize null = ok null
    serialize (boolean b) = ok (boolean b)
    serialize (int n) = ok (int n)
    serialize (float x) = if l.is_finite x then ok (float x) else ok (text (l.float_text x))
    serialize (text s) = ok (text s)
    serialize (enum s) = ok (text s)
    serialize (datetime d) = ok (encode (float (l.timestamp d)) "datetime")
    serialize (timedelta d) = ok (encode (float (l.total_seconds d)) "timedelta")
    serialize (dict es) = and_then (serialize_entries es) (λ es'. ok (encode (dict es') "dict"))
    serialize (list xs) = and_then (serialize_items xs) (λ xs'. ok (list xs'))
    serialize (set xs) =
        let items = serialize_items xs in
        except_type_error
          (and_then items (λ xs'. and_then (python.sorted xs') (λ s. ok (encode (list s) "set"))))
          (and_then items (λ xs'. ok (encode (list xs') "set")))
    serialize (tuple xs) = and_then (serialize_items xs) (λ xs'. ok (encode (list xs') "tuple"))
    serialize (dag d) = and_then (serialize_dag d) (λ es. ok (encode (dict es) "dag"))
    serialize (task o) = and_then (serialize_operator o) (λ es. ok (encode (dict es) "operator"))
    serialize (Value.other o) = ok (text (l.other_text o))

    -- [cls.serialize(v) for v in var]
    pub serialize_items : Items l → Result (Items l)
    serialize_items nil = ok nil
    serialize_items (cons v xs) =
        and_then (serialize v) (λ v'. and_then (serialize_items xs) (λ xs'. ok (cons v' xs')))

    -- {str(k): cls.serialize(v) for k, v in var.items()}
    pub serialize_entries : Entries l → Result (Entries l)
    serialize_entries end = ok end
    serialize_entries (entry k v es) =
        and_then (serialize v)
          (λ v'. and_then (serialize_entries es) (λ es'. ok (put_first (str_of_key k) v' es')))

    serialize_spec : Builder l → Result (Value l)
    serialize_spec unset = ok null
    serialize_spec (builder op spec) = serialize spec

    -- `serialize_operator`
    pub serialize_operator : Operator l → Result (Entries l)
    serialize_operator (operator task_id dag_id b preceding succeeding) = serialize_to_json [] (
        record { key = "task_id"; value = task_id; serialized = serialize task_id }
        ∷ record {
          key = "operation_type";
          value = operation_type b;
          serialized = ok (operation_type b);
        }
        ∷ record {
          key = "spec_builder._user_spec";
          value = user_spec b;
          serialized = serialize_spec b;
        }
        ∷ [])

    -- [cls.serialize(task) for _, task in dag.task_dict.items()]
    pub serialize_tasks : TaskDict l → Result (Items l)
    serialize_tasks no_dict = err Error.attribute_error
    serialize_tasks no_tasks = ok nil
    serialize_tasks (task_entry k o tasks) =
        and_then (serialize_operator o) (λ es.
          and_then (serialize_tasks tasks) (λ xs. ok (cons (encode (dict es) "operator") xs)))

    -- `serialize_dag`
    pub serialize_dag : DagObject l → Result (Entries l)
    serialize_dag (dag_object dag_id work_dir tasks) = except_failed (
        and_then
          (serialize_to_json ("defaults_args" ∷ [])
            (record { key = "work_dir"; value = work_dir; serialized = serialize work_dir } ∷ []))
          (λ es. and_then (serialize_tasks tasks) (λ xs. ok (put_tasks xs es))))
