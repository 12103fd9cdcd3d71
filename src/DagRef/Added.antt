-- ===== src/DagRef/Added.antt =====
-- What `try_add_dag` leaves in the tables.
use yt_scheduler.Base.{
  ℕ, String, Bool, true, false, ◌≡◌, ◌⊎◌, ◌≤◌, refl, sym, ap, ◌∙◌, subst, inl, inr, none, some,
  List, [], ◌∷◌, In, length, arith, eq_iff, Bool-cases, ◌==◌,
}
use yt_scheduler.Base.Action.{Result, ok, err, Action, Result-cases, lock_conflict}
use yt_scheduler.HandleExceptions.{Owner, wrapper, choose, act}
use yt_scheduler.Retrier.{RetryOptions}
use yt_scheduler.Yt.{YtClient, YtLaws, Session}
use yt_scheduler.Yt.Transaction.{transaction_cases}
use yt_scheduler.DagRun.Methods.{single}
use yt_scheduler.DagRef.{DagMetaRow, DagRefRow, TaskRefRow, RefClient, RefLaws, SameRefs}
use yt_scheduler.DagRef.Add.{
  Submission, unowned, through_client, create_refs_body, task_refs_of, dag_ref_of, new_meta,
  get_ref, create_refs_meta, add_found, try_add_dag,
}

module _ {S A : Type 0} (fn : Action S A) (s : S) where
  -- The wrapper, with the retry options for lock conflicts and nothing to log on.
  through_client-wrapper :
      (now : S → ℕ) (sleep : ℕ → S → S) (python_none : A) (fuel : ℕ) (obj : Owner)
      (o : RetryOptions A)
      → obj.has_log ≡ false
      → o.exceptions ≡ some (lock_conflict ∷ [])
      → wrapper now sleep python_none fuel [] (some o) obj fn s
        ≡ (some (through_client fn s), some o)
  unfolding wrapper choose act
  through_client-wrapper now sleep python_none fuel obj o bare named = ground arith

ok_injective : {A : Type 0} (a b : A) → ok a ≡ ok b → a ≡ b
ok_injective a b e = cc

module _ {S A : Type 0} where
  unowned-ok :
      (r : Result A) (s : S) (a : A)
      → (unowned r s).0 ≡ ok a
      → (r ≡ ok a) × (unowned r s ≡ (ok a, s))
  unowned-ok (ok b) s a h = (h, ap (λ r. (r, s)) h)
  unowned-ok (err e) s a h = cc

  -- A call through a client that ends well is the call itself.
  through_client-ok :
      (fn : Action S A) (s : S) (a : A)
      → (through_client fn s).0 ≡ ok a
      → ((fn s).0 ≡ ok a) × (through_client fn s ≡ (ok a, (fn s).1))
  through_client-ok fn s a h = unowned-ok (fn s).0 (fn s).1 a h

module _ {Db : Type 0} (yt : YtClient Db) (refs : RefClient Db) where
  -- The three tables after a new DAG is written.
  pub create_refs_meta-ok :
      {O : Type 0} (r : DagRefRow) (ts : List TaskRefRow) (m : DagMetaRow) (s : Session Db O)
      (a : Unit {0})
      → YtLaws yt
      → (create_refs_meta yt refs r ts m s).0 ≡ ok a
      → (db db' : Db) × (refs.insert_refs (r ∷ []) s.db ≡ ok db)
        × (refs.insert_task_refs ts db ≡ ok db')
        × (refs.insert_metas (m ∷ []) db' ≡ ok (create_refs_meta yt refs r ts m s).1.db)
  unfolding create_refs_meta
  create_refs_meta-ok r ts m s a laws h =
      elim (transaction_cases yt laws (create_refs_body yt refs r ts m) s) [
        | inr (e, raised) ↦ cc (rw raised at h)
        | inl (b, done, p) ↦ elim (Result-cases (refs.insert_refs (r ∷ []) s.db)) [
          | inr (e, wrong) ↦ cc (rw wrong at done)
          | inl (db, e) ↦ elim (Result-cases (refs.insert_task_refs ts db)) [
            | inr (x, wrong) ↦ cc (rw (e, wrong) at done)
            | inl (db', e') ↦ elim (Result-cases (refs.insert_metas (m ∷ []) db')) [
              | inr (x, wrong) ↦ cc (rw (e, e', wrong) at done)
              | inl (db'', e'') ↦ (db, db', e, e', rw p (rw (e, e', e'') refl))
            ]
          ]
        ]
      ]

  -- How a call ends that ends well: a DAG that is not stored is written with its tasks and a meta, for
  -- one that is stored only a meta.
  pub add_new-ok :
      {O : Type 0} (now dag_id id : String) (submission : Submission) (payload : String × String)
      (s : Session Db O) (out : Bool × String × String)
      → (add_found yt refs now dag_id id submission payload none s).0 ≡ ok out
      → let written = λ (rows : List TaskRefRow).
        create_refs_meta yt refs (dag_ref_of now dag_id payload) rows (new_meta now id dag_id) s in
        (rows : List TaskRefRow) × (task_refs_of now dag_id submission.tasks ≡ ok rows)
        × (out ≡ (true, dag_id, id))
        × ((written rows).0 ≡ ok tt)
        × ((add_found yt refs now dag_id id submission payload none s).1 ≡ (written rows).1)
  unfolding add_found
  add_new-ok now dag_id id submission payload s out h =
      elim (Result-cases (task_refs_of now dag_id submission.tasks)) [
        | inr (e, wrong) ↦ cc (rw wrong at h)
        | inl (rows, e) ↦
            let fn =
              create_refs_meta yt refs (dag_ref_of now dag_id payload) rows
                (new_meta now id dag_id) in
            elim (Result-cases (through_client fn s).0) [
              | inr (x, wrong) ↦ cc (rw (e, wrong) at h)
              | inl (u, done) ↦
                  let (p, q) = through_client-ok fn s u done in
                  (rows, e, sym (ok_injective _ _ (rw (e, q) at h)), p, rw (e, q) refl)
            ]
      ]

  pub add_old-ok :
      {O : Type 0} (now dag_id id : String) (submission : Submission) (payload : String × String)
      (found : DagRefRow) (s : Session Db O) (out : Bool × String × String)
      → (add_found yt refs now dag_id id submission payload (some found) s).0 ≡ ok out
      → (out ≡ (false, found.dag_id, id))
        × (refs.insert_metas (new_meta now id found.dag_id ∷ []) s.db
            ≡ ok (add_found yt refs now dag_id id submission payload (some found) s).1.db)
  unfolding add_found
  add_old-ok now dag_id id submission payload found s out h =
      let rows = new_meta now id found.dag_id ∷ [] in
      elim (Result-cases (refs.insert_metas rows s.db)) [
        | inr (x, wrong) ↦ cc (rw wrong at h)
        | inl (db, e) ↦ (sym (ok_injective _ _ (rw e at h)), rw e refl)
      ]

  pub try_add_dag-ok :
      {O : Type 0} (now dag_id id : String) (submission : Submission) (payload : String × String)
      (s : Session Db O) (out : Bool × String × String)
      → submission.serialized ≡ ok payload
      → (try_add_dag yt refs now dag_id id submission s).0 ≡ ok out
      → (rows : List DagRefRow) × (refs.select_refs payload.1 1 s.db ≡ ok rows)
        × (try_add_dag yt refs now dag_id id submission s
            ≡ add_found yt refs now dag_id id submission payload (single rows) s)
  unfolding try_add_dag get_ref
  try_add_dag-ok now dag_id id submission payload s out known h =
      elim (Result-cases (refs.select_refs payload.1 1 s.db)) [
        | inr (x, wrong) ↦ cc (rw (known, wrong) at h)
        | inl (rows, e) ↦ (rows, e, rw (known, e) refl)
      ]

  -- One stored DAG has the payload hash, and it has the id.
  abbrev pub StoredOnce : Db → String → String → Type 0
  StoredOnce db hash dag_id =
      ((r : DagRefRow) × (refs.ref_at db dag_id ≡ some r) × (r.payload_hash ≡ hash))
      × ((k : String) (r : DagRefRow)
          → refs.ref_at db k ≡ some r
          → r.payload_hash ≡ hash
          → k ≡ dag_id)

  -- No two stored DAGs have the payload hash.
  abbrev pub AtMostOne : Db → String → Type 0
  AtMostOne db hash =
      (k k' : String) (r r' : DagRefRow)
      → refs.ref_at db k ≡ some r
      → refs.ref_at db k' ≡ some r'
      → r.payload_hash ≡ hash
      → r'.payload_hash ≡ hash
      → k ≡ k'

  single_cases :
      {R : Type 0} (rows : List R) → length rows ≤ 1 → (rows ≡ []) ⊎ ((r : R) × (rows ≡ r ∷ []))
  single_cases [] h = inl refl
  single_cases (r ∷ []) h = inr (r, refl)
  single_cases (r ∷ r' ∷ rows) h = absurd (omega arith)

  module _ (laws : YtLaws yt) (ref_laws : RefLaws refs yt) where
    -- What `DagRefClient.get` finds: no DAG has the hash, or it is one that has.
    pub found_cases :
        (hash : String) (db : Db) (rows : List DagRefRow)
        → refs.select_refs hash 1 db ≡ ok rows
        → ((single rows ≡ none)
            × ((k : String) (r : DagRefRow)
                → refs.ref_at db k ≡ some r
                → r.payload_hash ≡ hash
                → ⊥))
          ⊎ ((r : DagRefRow) × (single rows ≡ some r)
              × (refs.ref_at db r.dag_id ≡ some r)
              × (r.payload_hash ≡ hash))
    found_cases hash db rows e =
        elim (single_cases rows (ref_laws.refs_at_most hash 1 db rows e (omega arith))) [
          | inl q ↦ inl (
            rw q refl,
            λ k r.
                ref_laws.refs_limited hash 1 db k r
                  (subst (λ l. refs.select_refs hash 1 db ≡ ok l) q e),
          )
          | inr (r, q) ↦
              let (at, same) =
                ref_laws.refs_sound hash 1 db rows r e
                  (subst (λ (l : List DagRefRow). In r l) (sym q) (inl refl)) in
              inr (r, rw q refl, at, same)
        ]

    pub stored_same :
        (db db' : Db) (hash d : String)
        → SameRefs refs db db'
        → StoredOnce db hash d
        → StoredOnce db' hash d
    stored_same db db' hash d same once =
        ((once.0.0, same d ∙ once.0.1, once.0.2), λ k r at. once.1 k r (sym (same k) ∙ at))

    pub stored_new :
        (db db' : Db) (r : DagRefRow)
        → refs.insert_refs (r ∷ []) db ≡ ok db'
        → ((k : String) (x : DagRefRow)
            → refs.ref_at db k ≡ some x
            → x.payload_hash ≡ r.payload_hash
            → ⊥)
        → StoredOnce db' r.payload_hash r.dag_id
    stored_new db db' r e fresh =
        let (at, _, _, _) = ref_laws.refs_written (r ∷ []) db db' e in
        (
          (r, at r.dag_id ∙ rw ((eq_iff r.dag_id r.dag_id).1 refl) refl, refl),
          λ k x stored same. elim (Bool-cases (r.dag_id == k)) [
            | inl q ↦ sym ((eq_iff r.dag_id k).0 q)
            | inr other ↦ absurd (fresh k x (sym (rw other at (at k)) ∙ stored) same)
          ],
        )

    -- A submission that ends well leaves one DAG with its hash, under the id that it returns.
    try_add_dag-stores :
        {O : Type 0} (now dag_id id repr hash : String) (submission : Submission) (s : Session Db O)
        (new : Bool) (d i : String)
        → submission.serialized ≡ ok (repr, hash)
        → AtMostOne s.db hash
        → (try_add_dag yt refs now dag_id id submission s).0 ≡ ok (new, d, i)
        → StoredOnce (try_add_dag yt refs now dag_id id submission s).1.db hash d
    try_add_dag-stores now dag_id id repr hash submission s new d i known unique h =
        let (rows, e, q) = try_add_dag-ok now dag_id id submission (repr, hash) s _ known h in
        elim (found_cases hash s.db rows e) [
          | inr (r, found, at, same) ↦
              let (o, w) =
                add_old-ok now dag_id id submission (repr, hash) r s (new, d, i)
                  (rw (q, found) at h) in
              let (_, keeps, _, _) = ref_laws.metas_written _ s.db _ w in
              rw (q, found, ap (λ (x : Bool × String × String). x.1) o)
                (stored_same s.db _ hash r.dag_id keeps
                  ((r, at, same), λ k x stored eq. unique k r.dag_id x r stored at eq same))
          | inl (missing, fresh) ↦
              let (rows', _, o, done, w) =
                add_new-ok now dag_id id submission (repr, hash) s (new, d, i)
                  (rw (q, missing) at h) in
              let ref = dag_ref_of now dag_id (repr, hash) in
              let meta = new_meta now id dag_id in
              let (db, db', e1, e2, e3) = create_refs_meta-ok ref rows' meta s tt laws done in
              let (_, _, keeps, _) = ref_laws.task_refs_written rows' db db' e2 in
              let (_, keeps', _, _) = ref_laws.metas_written (meta ∷ []) db' _ e3 in
              rw (q, missing, ap (λ (x : Bool × String × String). x.1) o, w)
                (stored_same db' _ hash dag_id keeps'
                  (stored_same db db' hash dag_id keeps (stored_new s.db db ref e1 fresh)))
        ]

    -- A submission of a DAG whose hash is stored returns the stored id.
    pub try_add_dag-finds :
        {O : Type 0} (now dag_id id repr hash : String) (submission : Submission) (s : Session Db O)
        (d : String) (out : Bool × String × String)
        → submission.serialized ≡ ok (repr, hash)
        → StoredOnce s.db hash d
        → (try_add_dag yt refs now dag_id id submission s).0 ≡ ok out
        → (out ≡ (false, d, id))
          × SameRefs refs s.db (try_add_dag yt refs now dag_id id submission s).1.db
    try_add_dag-finds now dag_id id repr hash submission s d out known once h =
        let (rows, e, q) = try_add_dag-ok now dag_id id submission (repr, hash) s _ known h in
        elim (found_cases hash s.db rows e) [
          | inl (missing, fresh) ↦ absurd (fresh d once.0.0 once.0.1 once.0.2)
          | inr (r, found, at, same) ↦
              let (o, w) =
                add_old-ok now dag_id id submission (repr, hash) r s out (rw (q, found) at h) in
              let (_, keeps, _, _) = ref_laws.metas_written _ s.db _ w in
              (
                o ∙ ap (λ (x : String). (false, x, id)) (once.1 r.dag_id r at same),
                rw (q, found) keeps,
              )
        ]

    -- Of two submissions of DAGs with the same hash that end well, the second returns the id that the
    -- first one returned, and writes no DAG: provided that before them no two DAGs had the hash.
    pub try_add_dag_twice :
        {O : Type 0} (now dag_id id repr hash now' dag_id' id' repr' : String)
        (first second : Submission) (s : Session Db O) (new : Bool) (d i : String)
        (out : Bool × String × String)
        → let s' = (try_add_dag yt refs now dag_id id first s).1 in
          let s'' = (try_add_dag yt refs now' dag_id' id' second s').1 in
          first.serialized ≡ ok (repr, hash)
          → second.serialized ≡ ok (repr', hash)
          → AtMostOne s.db hash
          → (try_add_dag yt refs now dag_id id first s).0 ≡ ok (new, d, i)
          → (try_add_dag yt refs now' dag_id' id' second s').0 ≡ ok out
          → (out ≡ (false, d, id')) × SameRefs refs s'.db s''.db
    try_add_dag_twice now dag_id id repr hash now' dag_id' id' repr' first second s new d i out
          known known' unique h h' =
        let s' = (try_add_dag yt refs now dag_id id first s).1 in
        let once = try_add_dag-stores now dag_id id repr hash first s new d i known unique h in
        try_add_dag-finds now' dag_id' id' repr' hash second s' d out known' once h'
