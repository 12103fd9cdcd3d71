-- ===== src/DagRef/Tasks.antt =====
-- The rows that `try_add_dag` writes for a new DAG.
use yt_scheduler.Base.{
  String, Bool, true, ◌&&◌, ◌≡◌, refl, sym, ap, ◌∙◌, subst, inl, inr, some, List, [], ◌∷◌, In,
  eq_iff, Option-cases, &&-eq-true, ◌==◌,
}
use yt_scheduler.Base.Action.{Result, ok, err, Result-cases}
use yt_scheduler.Yt.{YtClient, YtLaws, Session}
use yt_scheduler.DagRef.{DagRefRow, TaskRefRow, RefClient, RefLaws, find_task_ref}
use yt_scheduler.DagRef.Claimed.{last_where-eq-some, last_where-ne-none}
use yt_scheduler.DagRef.Add.{
  Submission, task_ref_of, task_refs_of, dag_ref_of, new_meta, try_add_dag,
}
use yt_scheduler.DagRef.Added.{
  create_refs_meta-ok, add_new-ok, add_old-ok, try_add_dag-ok, found_cases,
}

-- The ids of the tasks are the keys of a dictionary.
abbrev pub AreKeyed : List (String × Result (String × String)) → Type 0
AreKeyed tasks =
    (id : String) (a b : Result (String × String)) → In (id, a) tasks → In (id, b) tasks → a ≡ b

ok_injective : {A : Type 0} (a b : A) → ok a ≡ ok b → a ≡ b
ok_injective a b e = cc

tail_rows :
    (now dag_id id : String) (r : Result (String × String))
    (tasks : List (String × Result (String × String))) (rows : List TaskRefRow)
    → task_refs_of now dag_id ((id, r) ∷ tasks) ≡ ok rows
    → (payload : String × String) × (r ≡ ok payload)
      × (rest : List TaskRefRow) × (task_refs_of now dag_id tasks ≡ ok rest)
      × (rows ≡ task_ref_of now dag_id id payload ∷ rest)
tail_rows now dag_id id (err e) tasks rows h = cc
tail_rows now dag_id id (ok payload) tasks rows h =
    elim (Result-cases (task_refs_of now dag_id tasks)) [
      | inr (e, wrong) ↦ cc (rw wrong at h)
      | inl (rest, e) ↦ (payload, refl, rest, e, sym (ok_injective _ rows (rw e at h)))
    ]

-- A row for each task, and a task for each row.
In-task_refs_of :
    (now dag_id : String) (tasks : List (String × Result (String × String)))
    (rows : List TaskRefRow) (id : String) (payload : String × String)
    → task_refs_of now dag_id tasks ≡ ok rows
    → In (id, ok payload) tasks
    → In (task_ref_of now dag_id id payload) rows
In-task_refs_of now dag_id [] rows id payload h m = elim m [ ]
In-task_refs_of now dag_id ((j, r) ∷ tasks) rows id payload h m =
    let (p, known, rest, e, q) = tail_rows now dag_id j r tasks rows h in
    subst (λ (l : List TaskRefRow). In (task_ref_of now dag_id id payload) l) (sym q)
      (elim m [
        | inr later ↦ inr (In-task_refs_of now dag_id tasks rest id payload e later)
        | inl first ↦ inl (same first known)
      ])
  where
    same :
        {p : String × String}
        → ◌≡◌ {A = String × Result (String × String)} (id, ok payload) (j, r)
        → r ≡ ok p
        → task_ref_of now dag_id id payload ≡ task_ref_of now dag_id j p
    same first known =
        let key = ap (λ (x : String × Result (String × String)). x.0) first in
        let value =
          ok_injective _ _ (ap (λ (x : String × Result (String × String)). x.1) first ∙ known) in
        ap (λ k. task_ref_of now dag_id k payload) key ∙ ap (task_ref_of now dag_id j) value

task_of_row :
    (now dag_id : String) (tasks : List (String × Result (String × String)))
    (rows : List TaskRefRow) (row : TaskRefRow)
    → task_refs_of now dag_id tasks ≡ ok rows
    → In row rows
    → (payload : String × String) × In (row.task_id, ok payload) tasks
      × (row ≡ task_ref_of now dag_id row.task_id payload)
task_of_row now dag_id [] rows row h m =
    absurd (subst (λ (l : List TaskRefRow). In row l) (sym (ok_injective [] rows h)) m)
task_of_row now dag_id ((j, r) ∷ tasks) rows row h m =
    let (p, known, rest, e, q) = tail_rows now dag_id j r tasks rows h in
    elim (subst (λ (l : List TaskRefRow). In row l) q m) [
      | inr later ↦
          let (payload, l, w) = task_of_row now dag_id tasks rest row e later in (payload, inr l, w)
      | inl first ↦
          let key : row.task_id ≡ j = ap (λ (x : TaskRefRow). x.task_id) first in
          (
            p,
            inl (λ i. (key i, sym known i)),
            first ∙ ap (λ k. task_ref_of now dag_id k p) (sym key),
          )
    ]

-- The row that is found for a task is its own.
found_task :
    (now dag_id : String) (tasks : List (String × Result (String × String)))
    (rows : List TaskRefRow) (id : String) (payload : String × String)
    → AreKeyed tasks
    → task_refs_of now dag_id tasks ≡ ok rows
    → In (id, ok payload) tasks
    → find_task_ref dag_id id rows ≡ some (task_ref_of now dag_id id payload)
found_task now dag_id tasks rows id payload keyed h m =
    let test = λ (r : TaskRefRow). r.dag_id == dag_id && r.task_id == id in
    elim (Option-cases (find_task_ref dag_id id rows)) [
      | inl missing ↦ absurd (
          last_where-ne-none test rows _ (In-task_refs_of now dag_id tasks rows id payload h m)
            (rw ((eq_iff dag_id dag_id).1 refl, (eq_iff id id).1 refl) refl) missing)
      | inr (row, found) ↦
          let (inr', t) = last_where-eq-some test rows row found in
          let key : row.task_id ≡ id =
            (eq_iff row.task_id id).0 (&&-eq-true (row.dag_id == dag_id) (row.task_id == id) t).1 in
          let (p, l, e) = task_of_row now dag_id tasks rows row h inr' in
          let same =
            ok_injective _ _
              (keyed id (ok p) (ok payload) (subst (λ k. In (k, ok p) tasks) key l) m) in
          found
          ∙ ap (λ (r : TaskRefRow). some r)
              (e ∙ ap (λ k. task_ref_of now dag_id k p) key ∙ ap (task_ref_of now dag_id id) same)
    ]

module _ {Db : Type 0} (yt : YtClient Db) (refs : RefClient Db) where
  -- A submission that ends well and tells that the DAG is new has stored under the id that it returns
  -- the text and the hash of the DAG, with those of each of its tasks, and under the other id a meta
  -- of the DAG without a run. No stored DAG had the hash.
  pub try_add_dag-adds :
      {O : Type 0} (now dag_id id repr hash : String) (submission : Submission) (s : Session Db O)
      (d i : String)
      → YtLaws yt
      → RefLaws refs yt
      → submission.serialized ≡ ok (repr, hash)
      → AreKeyed submission.tasks
      → (try_add_dag yt refs now dag_id id submission s).0 ≡ ok (true, d, i)
      → let db = (try_add_dag yt refs now dag_id id submission s).1.db in
        (refs.ref_at db d ≡ some (dag_ref_of now d (repr, hash)))
        × (refs.meta_at db i ≡ some (new_meta now i d))
        × ((task_id : String) (payload : String × String)
            → In (task_id, ok payload) submission.tasks
            → refs.task_ref_at db d task_id ≡ some (task_ref_of now d task_id payload))
        × ((k : String) (r : DagRefRow) → refs.ref_at s.db k ≡ some r → r.payload_hash ≡ hash → ⊥)
  try_add_dag-adds now dag_id id repr hash submission s d i laws ref_laws known keyed h =
      let payload : String × String = (repr, hash) in
      let (found, e, q) = try_add_dag-ok yt refs now dag_id id submission payload s _ known h in
      elim (found_cases yt refs laws ref_laws hash s.db found e) [
        | inr (r, old, _, _) ↦
            let (o, _) =
              add_old-ok yt refs now dag_id id submission payload r s _ (rw (q, old) at h) in
            absurd (cc (ap (λ (x : Bool × String × String). x.0) o))
        | inl (missing, fresh) ↦
            let (rows, tasks, o, done, w) =
              add_new-ok yt refs now dag_id id submission payload s _ (rw (q, missing) at h) in
            let ref = dag_ref_of now dag_id payload in
            let meta = new_meta now id dag_id in
            let (db, db', e1, e2, e3) = create_refs_meta-ok yt refs ref rows meta s tt laws done in
            let (at1, _, _, _) = ref_laws.refs_written (ref ∷ []) s.db db e1 in
            let (at2, _, refs2, _) = ref_laws.task_refs_written rows db db' e2 in
            let (at3, refs3, tasks3, _) = ref_laws.metas_written (meta ∷ []) db' _ e3 in
            rw
              (
                q,
                missing,
                w,
                ap (λ (x : Bool × String × String). x.1) o,
                ap (λ (x : Bool × String × String). x.2) o,
              )
              (
                refs3 dag_id ∙ refs2 dag_id ∙ at1 dag_id ∙ rw ((eq_iff dag_id dag_id).1 refl) refl,
                at3 id ∙ rw ((eq_iff id id).1 refl) refl,
                (λ task_id p m.
                    tasks3 dag_id task_id
                    ∙ at2 dag_id task_id
                    ∙ rw (found_task now dag_id submission.tasks rows task_id p keyed tasks m)
                        refl),
                fresh,
              )
      ]
