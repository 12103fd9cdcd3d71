-- ===== src/Serialized/Restored.antt =====
-- Tasks and DAGs as `to_serialized_repr` writes them and `from_serialized_repr` reads them.
use yt_scheduler.Base.{String, true, ◌≡◌, refl, ap, ◌∙◌, none}
use yt_scheduler.Base.Action.{Result, ok, err, type_error, and_then}
use yt_scheduler.Serialized.{
  Library, Runtime, Value, nil, Entries, end, entry, builder, Operator, operator, find, null, float,
  text, datetime, dict, set, encode,
}
use yt_scheduler.Serialized.Encode.{
  serialize, serialize_entries, serialize_operator, serialize_to_json,
}
use yt_scheduler.Serialized.Decode.{deserialize, deserialize_entries}
use yt_scheduler.Serialized.Objects.{deserialize_operator, task_repr, task_of_repr}
use yt_scheduler.Serialized.Plain.{IsPlain, ArePlainEntries}
use yt_scheduler.Serialized.RoundTrip.{encoded, encoded_entries, put_first_new}

module _ {l : Library} (python : Runtime l) where
  -- What `serialize_operator` makes of a task with the id, the operation type and the encoded spec.
  abbrev operator_entries : String → String → Entries l → Entries l
  operator_entries task_id op spec = entry (text "task_id") (text task_id) (
      entry (text "operation_type") (text op)
        (entry (text "spec_builder._user_spec") (dict spec) end))

  operator_entries_plain :
      (task_id op : String) (spec : Entries l)
      → ArePlainEntries spec
      → ArePlainEntries (operator_entries task_id op spec)
  unfolding IsPlain
  operator_entries_plain task_id op spec h = (
    ("task_id", refl, refl),
    tt,
    (("operation_type", refl, refl), tt, (("spec_builder._user_spec", refl, refl), h, tt)),
  )

  serialized_operator :
      (task_id op : String) (dag_id p s : Value l) (spec spec' : Entries l)
      → serialize_entries python spec ≡ ok spec'
      → serialize_operator python (operator (text task_id) dag_id (builder op (dict spec)) p s)
        ≡ ok (operator_entries task_id op spec')
  unfolding serialize serialize_to_json
  serialized_operator task_id op dag_id p s spec spec' e = rw e refl

  restored_operator :
      (task_id op : String) (spec spec' : Entries l)
      → deserialize_entries python spec' ≡ ok spec
      → python.knows op ≡ true
      → deserialize_operator python (operator_entries task_id op spec')
        ≡ ok (
            operator
              (text task_id)
              null
              (builder op (python.with_spec op (dict spec)))
              (set nil)
              (set nil))
  unfolding deserialize_operator deserialize
  restored_operator task_id op spec spec' d k = rw (d, k) refl

  -- What a task becomes: it belongs to the DAG of the given id, and knows no other task.
  abbrev pub restore : Value l → Operator l → Operator l
  restore dag_id (operator task_id old b p s) = operator task_id dag_id b (set nil) (set nil)

  -- A task with the id that consists of a known operation with a plain spec.
  pub data StorableTask (task_id : String) : Operator l → Type 0 where
    storable :
        (op : String) (dag_id p s : Value l) (spec : Entries l)
        → python.knows op ≡ true
        → ArePlainEntries spec
        → StorableTask task_id (operator (text task_id) dag_id (builder op (dict spec)) p s)

  -- The object of a spec builder holds the spec that it was given.
  abbrev pub KeepsSpec : Type 0
  KeepsSpec = (op : String) (spec : Value l) → python.with_spec op spec ≡ spec

  -- A task that is encoded, and what its encoding is read as.
  pub coded_task :
      (task_id : String) (o : Operator l)
      → KeepsSpec
      → StorableTask task_id o
      → (es : Entries l) × (serialize_operator python o ≡ ok es)
        × (deserialize_operator python es ≡ ok (restore null o))
        × ArePlainEntries es
  coded_task task_id o keeps (storable op dag_id p s spec known plain) =
      let (spec', e, d, _, plain') = encoded_entries python spec plain in
      (
        operator_entries task_id op spec',
        serialized_operator task_id op dag_id p s spec spec' e,
        restored_operator task_id op spec spec' d known
            ∙ ap (λ b. ok (operator (text task_id) null (builder op b) (set nil) (set nil)))
                (keeps op (dict spec)),
        operator_entries_plain task_id op spec' plain',
      )

  -- Writing a dictionary as JSON and reading it goes on with that dictionary.
  pub reread :
      {A : Type 0} (es : Entries l) (next : Value l → Result A)
      → ArePlainEntries es
      → and_then (serialize python (dict es)) (λ v. and_then (deserialize python v) next)
        ≡ next (dict es)
  unfolding IsPlain
  reread es next plain = let (v, e, d, _) = encoded python (dict es) plain in rw (e, d) refl

  -- A task that is written and read is the task, without its DAG and the tasks next to it.
  pub task_of_repr-task_repr :
      (task_id : String) (o : Operator l)
      → KeepsSpec
      → StorableTask task_id o
      → and_then (task_repr python o) (λ v. task_of_repr python v) ≡ ok (restore null o)
  unfolding task_repr task_of_repr
  task_of_repr-task_repr task_id o keeps h =
      let (es, e, d, plain) = coded_task task_id o keeps h in rw e (reread es _ plain ∙ d)

  coded_datetime :
      (key : String) (d : l.Datetime) (spec spec' : Entries l)
      → serialize_entries python spec ≡ ok spec'
      → find key spec' ≡ none
      → serialize_entries python (entry (text key) (datetime d) spec)
        ≡ ok (entry (text key) (encode (float (l.timestamp d)) "datetime") spec')
  unfolding serialize
  coded_datetime key d spec spec' e fresh =
      rw (e, put_first_new python key (encode (float (l.timestamp d)) "datetime") spec' fresh) refl

  unreadable :
      (task_id op key : String) (d : l.Datetime) (spec : Entries l)
      → deserialize_operator python (
          operator_entries task_id op
            (entry (text key) (encode (float (l.timestamp d)) "datetime") spec))
        ≡ err type_error
  unfolding deserialize_operator deserialize
  unreadable task_id op key d spec = refl

  -- A task whose spec has a datetime as its first value can be written, but not read: the encoding of
  -- the datetime is a number of seconds, and `fromisoformat` wants a text.
  pub task_of_repr-task_repr_datetime :
      (task_id op key : String) (dag_id p s : Value l) (d : l.Datetime) (spec : Entries l)
      → ArePlainEntries spec
      → find key spec ≡ none
      → l.is_finite (l.timestamp d) ≡ true
      → let o =
          operator
            (text task_id)
            dag_id
            (builder op (dict (entry (text key) (datetime d) spec)))
            p
            s in
        ((v : Value l) × (task_repr python o ≡ ok v))
        × (and_then (task_repr python o) (λ v. task_of_repr python v) ≡ err type_error)
  unfolding task_repr task_of_repr IsPlain
  task_of_repr-task_repr_datetime task_id op key dag_id p s d spec plain fresh finite =
      let (spec', e, _, keeps, plain') = encoded_entries python spec plain in
      let coded = encode (float (l.timestamp d)) "datetime" in
      let written =
        serialized_operator task_id op dag_id p s _ (entry (text key) coded spec')
          (coded_datetime key d spec spec' e (keeps key fresh)) in
      let es = operator_entries task_id op (entry (text key) coded spec') in
      let fine = operator_entries_plain task_id op (entry (text key) coded spec') (
        (key, refl, keeps key fresh),
        (("__var", refl, refl), finite, (("__type", refl, refl), tt, tt)),
        plain',
      ) in
      let (v, kept, _, _) = encoded python (dict es) fine in
      ((v, rw written kept), rw written (reread es _ fine ∙ unreadable task_id op key d spec'))
