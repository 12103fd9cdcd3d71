-- ===== src/Serialized/Dags.antt =====
-- DAGs as `to_serialized_repr` writes them and as the first part of `from_serialized_repr` reads them,
-- before the specs of the tasks are prepared and their dependencies resolved again.
use yt_scheduler.Base.{String, false, ◌≡◌, refl, sym, ap, ◌∙◌}
use yt_scheduler.Base.Action.{ok, and_then}
use yt_scheduler.Serialized.{
  Library, Runtime, Value, Items, nil, cons, Entries, end, entry, Operator, dag_object, TaskDict,
  no_dict, no_tasks, task_entry, null, text, dict, list, encode,
}
use yt_scheduler.Serialized.Encode.{serialize, serialize_tasks, serialize_to_json}
use yt_scheduler.Serialized.Decode.{is_hashable}
use yt_scheduler.Serialized.Objects.{
  deserialize_operator, deserialize_dag, dag_repr, dag_of_repr, read_tasks, put_task,
}
use yt_scheduler.Serialized.Plain.{IsPlain, ArePlain}
use yt_scheduler.Serialized.Restored.{
  restore, KeepsSpec, StorableTask, storable, coded_task, reread,
}

module _ {l : Library} (python : Runtime l) where
  -- None of the keys is the same as the first one.
  abbrev pub NotAmong : Value l → TaskDict l → Type 0
  NotAmong k no_dict = Unit
  NotAmong k no_tasks = Unit
  NotAmong k (task_entry j o tasks) = (python.same k j ≡ false) × NotAmong k tasks

  -- A dictionary of storable tasks, each under its id.
  pub data Storable : TaskDict l → Type 0 where
    no_storable : Storable no_tasks
    one_more :
        {task_id : String} {o : Operator l} {tasks : TaskDict l}
        → StorableTask python task_id o
        → NotAmong (text task_id) tasks
        → Storable tasks
        → Storable (task_entry (text task_id) o tasks)

  abbrev pub restore_all : Value l → TaskDict l → TaskDict l
  restore_all dag_id no_dict = no_dict
  restore_all dag_id no_tasks = no_tasks
  restore_all dag_id (task_entry k o tasks) =
      task_entry k (restore python dag_id o) (restore_all dag_id tasks)

  abbrev pub join : TaskDict l → TaskDict l → TaskDict l
  join no_dict more = more
  join no_tasks more = more
  join (task_entry k o tasks) more = task_entry k o (join tasks more)

  pub join_assoc :
      (k : Value l) (o : Operator l) (xs ys : TaskDict l)
      → join (join xs (task_entry k o no_tasks)) ys ≡ join xs (task_entry k o ys)
  join_assoc k o no_dict ys = refl
  join_assoc k o no_tasks ys = refl
  join_assoc k o (task_entry j p xs) ys = ap (λ r. task_entry j p r) (join_assoc k o xs ys)

  -- No key of the first dictionary is the same as one of the second.
  abbrev pub Apart : TaskDict l → TaskDict l → Type 0
  Apart no_dict tasks = ⊥
  Apart no_tasks tasks = Unit
  Apart (task_entry k o xs) tasks = NotAmong k tasks × Apart xs tasks

  pub put_new :
      (k : Value l) (o p : Operator l) (xs tasks : TaskDict l)
      → Apart xs (task_entry k p tasks)
      → put_task python k o xs ≡ join xs (task_entry k o no_tasks)
  put_new k o p no_dict tasks h = absurd h
  put_new k o p no_tasks tasks h = refl
  put_new k o p (task_entry j q xs) tasks h =
      rw (h.0.0) (ap (λ r. task_entry j q r) (put_new k o p xs tasks h.1))

  pub Apart-join :
      (k : Value l) (o p : Operator l) (xs tasks : TaskDict l)
      → NotAmong k tasks
      → Apart xs (task_entry k p tasks)
      → Apart (join xs (task_entry k o no_tasks)) tasks
  Apart-join k o p no_dict tasks n h = absurd h
  Apart-join k o p no_tasks tasks n h = (n, tt)
  Apart-join k o p (task_entry j q xs) tasks n h = (h.0.1, Apart-join k o p xs tasks n h.1)

  pub join_none : (xs : TaskDict l) (tasks : TaskDict l) → Apart xs tasks → join xs no_tasks ≡ xs
  join_none no_dict tasks h = absurd h
  join_none no_tasks tasks h = refl
  join_none (task_entry k o xs) tasks h = ap (λ r. task_entry k o r) (join_none xs tasks h.1)

  -- A round of the loop over the tasks, on the encoding of a task.
  read_task_lem :
      (task_id dag_id : String) (o : Operator l) (es : Entries l) (objs : Items l)
      (tasks : TaskDict l)
      → StorableTask python task_id o
      → deserialize_operator python es ≡ ok (restore python null o)
      → read_tasks python (text dag_id) (cons (encode (dict es) "operator") objs) tasks
        ≡ read_tasks python
            (text dag_id)
            objs
            (put_task python (text task_id) (restore python (text dag_id) o) tasks)
  unfolding read_tasks is_hashable
  read_task_lem task_id dag_id _ es objs tasks (storable op old p s spec known plain) d = rw d refl

  coded_tasks :
      (dag_id : String) (tasks : TaskDict l)
      → KeepsSpec python
      → Storable tasks
      → (objs : Items l) × (serialize_tasks python tasks ≡ ok objs)
        × ArePlain objs
        × ((read : TaskDict l)
            → Apart read tasks
            → read_tasks python (text dag_id) objs read
              ≡ ok (join read (restore_all (text dag_id) tasks)))
  unfolding serialize read_tasks IsPlain
  coded_tasks dag_id _ keeps no_storable =
      (nil, refl, tt, λ read apart. ap (λ r. ok r) (sym (join_none read no_tasks apart)))
  coded_tasks dag_id _ keeps (one_more {task_id} {o} {tasks} h fresh rest) =
      let (es, e, d, plain) = coded_task python task_id o keeps h in
      let (objs, e', plain', reads) = coded_tasks dag_id tasks keeps rest in
      (
        cons (encode (dict es) "operator") objs,
        rw (e, e') refl,
        ((("__var", refl, refl), plain, (("__type", refl, refl), tt, tt)), plain'),
        λ read apart.
            read_task_lem task_id dag_id o es objs read h d
            ∙ ap (read_tasks python (text dag_id) objs)
                (put_new (text task_id) _ o read tasks apart)
            ∙ reads _ (Apart-join (text task_id) _ o read tasks fresh apart)
            ∙ ap (λ r. ok r) (join_assoc (text task_id) _ read _),
      )

  -- A DAG of storable tasks that is written and read under an id is that DAG: the id is its own and
  -- that of its tasks, its working directory is the same, and each task is the same, without the
  -- tasks next to it.
  pub dag_of_repr-dag_repr :
      (dag_id work_dir : String) (id : Value l) (tasks : TaskDict l)
      → KeepsSpec python
      → Storable tasks
      → and_then
          (dag_repr python (dag_object id (text work_dir) tasks))
          (λ v. dag_of_repr python dag_id v)
        ≡ ok (dag_object (text dag_id) (text work_dir) (restore_all (text dag_id) tasks))
  unfolding dag_repr dag_of_repr serialize serialize_to_json deserialize_dag IsPlain
  dag_of_repr-dag_repr dag_id work_dir id tasks keeps h =
      let (objs, e, plain, reads) = coded_tasks dag_id tasks keeps h in
      rw e (
        reread python
          (entry (text "work_dir") (text work_dir) (entry (text "tasks") (list objs) end)) _
          (("work_dir", refl, refl), tt, (("tasks", refl, refl), plain, tt))
        ∙ rw (reads no_tasks tt) refl)
