-- ===== src/Serialized/Objects.antt =====
-- serialized.py: `deserialize_operator` and `deserialize_dag`, and the values that
-- `to_serialized_repr` of task.py and dag.py writes as JSON and reads back. The keys that are read
-- are those of the attributes in `Operator` and `DagObject`: any other sets an attribute that is
-- not asked for here.
use yt_scheduler.Base.{String, false, Option, none, some, if◌then◌else◌}
use yt_scheduler.Base.Action.{
  Result, ok, err, type_error, key_error, attribute_error, runtime_error, and_then,
}
use yt_scheduler.Serialized.{
  Library, Runtime, Value, Items, nil, cons, Entries, end, entry, Builder, unset, builder, Operator,
  operator, DagObject, dag_object, TaskDict, no_dict, no_tasks, task_entry, null, text, enum, dict,
  list, set, tuple, find, is_text, without,
}
use yt_scheduler.Serialized.Encode.{serialize, serialize_operator, serialize_dag}
use yt_scheduler.Serialized.Decode.{deserialize, deserialize_dict, is_hashable}

module _ {l : Library} where
  abbrev pub default_to : Value l → Option (Value l) → Value l
  default_to d none = d
  default_to d (some v) = v

  -- object.__setattr__ on an attribute of the task's own
  abbrev set_plain : Value l → Value l → Operator l → Result (Operator l)
  set_plain k v (operator task_id dag_id b preceding succeeding) =
      if is_text "task_id" k
      then ok (operator v dag_id b preceding succeeding)
      else if is_text "dag_id" k
      then ok (operator task_id v b preceding succeeding)
      else if is_text "preceding_task_ids" k
      then ok (operator task_id dag_id b v succeeding)
      else if is_text "succeeding_task_ids" k
      then ok (operator task_id dag_id b preceding v)
      else ok (operator task_id dag_id b preceding succeeding)

  abbrev set_builder : Builder l → Operator l → Operator l
  set_builder b (operator task_id dag_id old preceding succeeding) =
      operator task_id dag_id b preceding succeeding

  -- `_constructor_initialize_fields`
  abbrev init_relatives : Entries l → Operator l → Operator l
  init_relatives es (operator task_id dag_id b preceding succeeding) =
      operator task_id dag_id b
        (elim (find "preceding_task_ids" es) [ none ↦ set nil | some v ↦ preceding ])
        (elim (find "succeeding_task_ids" es) [ none ↦ set nil | some v ↦ succeeding ])

  abbrev pub task_id_of : Operator l → Value l
  task_id_of (operator task_id dag_id b preceding succeeding) = task_id

  -- deser_operator.dag_id = dag_id
  abbrev pub set_dag_id : Value l → Operator l → Operator l
  set_dag_id v (operator task_id dag_id b preceding succeeding) =
      operator task_id v b preceding succeeding

  -- for obj in v
  abbrev characters : String → Items l
  characters String.[] = nil
  characters (String.◌∷◌ c s) = cons (text (String.◌∷◌ c String.[])) (characters s)

  abbrev keys : Entries l → Items l
  keys end = nil
  keys (entry k v es) = cons k (keys es)

  abbrev iterate : Value l → Result (Items l)
  iterate (list xs) = ok xs
  iterate (set xs) = ok xs
  iterate (tuple xs) = ok xs
  iterate (dict es) = ok (keys es)
  iterate (text s) = ok (characters s)
  iterate (enum s) = ok (characters s)
  iterate _ = err type_error

  -- The methods `get` and `items` are a dictionary's.
  abbrev pub as_dict : Value l → Result (Entries l)
  as_dict (dict es) = ok es
  as_dict _ = err attribute_error

  -- `pop` of two arguments is a dictionary's; a list and a set have another.
  abbrev as_encoded : Value l → Result (Entries l)
  as_encoded (dict es) = ok es
  as_encoded (list xs) = err type_error
  as_encoded (set xs) = err type_error
  as_encoded _ = err attribute_error

module _ {l : Library} (python : Runtime l) where
  -- The subclass of `SpecBuilder` whose operation type it is.
  abbrev find_builder : Value l → Result String
  find_builder (text s) = if python.knows s then ok s else err runtime_error
  find_builder (enum s) = if python.knows s then ok s else err runtime_error
  find_builder op = if is_hashable op then err runtime_error else err type_error

  -- The branch of the loop for the spec.
  abbrev read_builder : Value l → Value l → Result (Builder l)
  read_builder operation_type v = and_then (deserialize_dict python v) (λ spec.
      and_then (find_builder operation_type)
        (λ op. ok (builder op (python.with_spec op (dict spec)))))

  -- A round of the loop: object.__setattr__(operator, k, v)
  abbrev set_attribute : Value l → Value l → Value l → Operator l → Result (Operator l)
  set_attribute operation_type k v o =
      if is_text "spec_builder._user_spec" k
      then and_then (read_builder operation_type v) (λ b. ok (set_builder b o))
      else set_plain k v o

  abbrev set_attributes : Value l → Entries l → Operator l → Result (Operator l)
  set_attributes operation_type end o = ok o
  set_attributes operation_type (entry k v es) o =
      and_then (set_attribute operation_type k v o) (λ o'. set_attributes operation_type es o')

  -- `deserialize_operator`
  unfoldable pub deserialize_operator : Entries l → Result (Operator l)
  deserialize_operator encoded =
      let operation_type = default_to null (find "operation_type" encoded) in
      let es = without "operation_type" encoded in
      and_then (set_attributes operation_type es (operator null null unset null null))
        (λ o. ok (init_relatives es o))

  -- tasks[k] = o
  abbrev pub put_task : Value l → Operator l → TaskDict l → TaskDict l
  put_task k o no_dict = task_entry k o no_tasks
  put_task k o no_tasks = task_entry k o no_tasks
  put_task k o (task_entry j old tasks) =
      let rest = put_task k o tasks in
      if python.same j k then task_entry j o tasks else task_entry j old rest

  -- A round of the loop over the tasks.
  abbrev read_task : Value l → Value l → TaskDict l → Result (TaskDict l)
  read_task dag_id obj tasks = and_then (as_dict obj) (λ es.
      if elim (find "__type" es) [ none ↦ false | some kind ↦ is_text "operator" kind ]
      then elim (find "__var" es) [
        | none ↦ err key_error
        | some var ↦ and_then (as_encoded var) (λ encoded.
            and_then (deserialize_operator encoded) (λ o.
              let o' = set_dag_id dag_id o in
              if is_hashable (task_id_of o')
              then ok (put_task (task_id_of o') o' tasks)
              else err type_error))
      ]
      else ok tasks)

  unfoldable pub read_tasks : Value l → Items l → TaskDict l → Result (TaskDict l)
  read_tasks dag_id nil tasks = ok tasks
  read_tasks dag_id (cons obj objs) tasks =
      and_then (read_task dag_id obj tasks) (λ tasks'. read_tasks dag_id objs tasks')

  -- A round of the loop of `deserialize_dag`.
  abbrev set_dag_attribute : Value l → Value l → Value l → DagObject l → Result (DagObject l)
  set_dag_attribute dag_id k v (dag_object id work_dir tasks) =
      if is_text "tasks" k
      then and_then (iterate v) (λ objs.
        and_then (read_tasks dag_id objs no_tasks) (λ tasks'. ok (dag_object id work_dir tasks')))
      else if is_text "defaults_args" k
      then and_then (deserialize python v) (λ v'. ok (dag_object id work_dir tasks))
      else if is_text "work_dir" k
      then ok (dag_object id v tasks)
      else if is_text "dag_id" k
      then ok (dag_object v work_dir tasks)
      else ok (dag_object id work_dir tasks)

  abbrev set_dag_attributes : Value l → Entries l → DagObject l → Result (DagObject l)
  set_dag_attributes dag_id end d = ok d
  set_dag_attributes dag_id (entry k v es) d =
      and_then (set_dag_attribute dag_id k v d) (λ d'. set_dag_attributes dag_id es d')

  -- `deserialize_dag`
  unfoldable pub deserialize_dag : String → Entries l → Result (DagObject l)
  deserialize_dag dag_id encoded =
      set_dag_attributes (text dag_id) encoded (dag_object (text dag_id) null no_dict)

  -- `to_serialized_repr` of a task and of a DAG: what `to_json` hands to `json.dumps`
  unfoldable pub task_repr : Operator l → Result (Value l)
  task_repr o = and_then (serialize_operator python o) (λ es. serialize python (dict es))

  unfoldable pub dag_repr : DagObject l → Result (Value l)
  dag_repr d = and_then (serialize_dag python d) (λ es. serialize python (dict es))

  -- What `from_serialized_repr` does in its (first) `try`, on what `json.loads` gives to `from_json`;
  -- what `DAG.from_serialized_repr` does with its tasks then is in Serialized/Spec.
  unfoldable pub task_of_repr : Value l → Result (Operator l)
  task_of_repr v =
      and_then (deserialize python v) (λ u. and_then (as_encoded u) (λ es. deserialize_operator es))

  unfoldable pub dag_of_repr : String → Value l → Result (DagObject l)
  dag_of_repr dag_id v =
      and_then (deserialize python v) (λ u. and_then (as_dict u) (λ es. deserialize_dag dag_id es))
