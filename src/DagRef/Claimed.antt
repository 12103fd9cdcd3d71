-- ===== src/DagRef/Claimed.antt =====
-- What the claims of metas leave in the tables.
use yt_scheduler.Base.{
  ℕ, suc, String, Bool, true, ◌≡◌, ◌≢◌, refl, sym, ap, ◌∙◌, subst, inl, inr, Option, none, some,
  List, [], ◌∷◌, In, contains, arith, eq_iff, Option-cases,
}
use yt_scheduler.Base.Action.{ok, Result-cases}
use yt_scheduler.Rows.{DagRunRow}
use yt_scheduler.Yt.{YtClient, YtLaws, Session, find_dag_run}
use yt_scheduler.Yt.Lookup.{find_row-eq-some}
use yt_scheduler.Yt.Transaction.{transaction_cases}
use yt_scheduler.DagRef.{
  DagMetaRow, DagRefRow, Joined, RefClient, RefLaws, of_metas, matches, last_where, find_meta,
  is_id, dags_needing_dagruns_of_metas,
}
use yt_scheduler.DagRef.Claim.{
  new_dag_run, meta_of, batched_metas, batched_runs, write_runs, create_body,
  create_dag_runs_atomic,
}

module _ {R : Type 0} (p : R → Bool) where
  pub last_where-eq-some :
      (rows : List R) (r : R) → last_where p rows ≡ some r → In r rows × (p r ≡ true)
  last_where-eq-some [] r h = cc
  last_where-eq-some (x ∷ xs) r h = elim (Option-cases (last_where p xs)) [
    | inl e ↦ ground arith
    | inr (y, e) ↦ let (m, t) = last_where-eq-some xs r (ground arith) in (inr m, t)
  ]

  pub last_where-ne-none :
      (rows : List R) (r : R) → In r rows → p r ≡ true → last_where p rows ≢ none
  last_where-ne-none [] r m t h = elim m [ ]
  last_where-ne-none (x ∷ xs) r (inl e) t h = ground arith
  last_where-ne-none (x ∷ xs) r (inr m) t h = ground (arith, last_where-ne-none xs r m t)

-- A meta that is written comes from a joined row, with the run that is made for it.
pub In-batched_metas :
    (clock uuid : ℕ → String) (js : List Joined) (m : DagMetaRow)
    → In m (batched_metas uuid js)
    → (j : Joined) × In j js
      × (i : ℕ) × (m ≡ meta_of (uuid i) j)
      × In (new_dag_run (clock i) (uuid i) j.ref.dag_id) (batched_runs clock uuid js)
In-batched_metas clock uuid [] m h = elim h [ ]
In-batched_metas clock uuid (j ∷ js) m (inl e) = (j, inl refl, 0, e, inl refl)
In-batched_metas clock uuid (j ∷ js) m (inr h) =
    let (j', l, i, e, r) = In-batched_metas (λ i. clock (suc i)) (λ i. uuid (suc i)) js m h in
    (j', inr l, suc i, e, inr r)

batched_member :
    (uuid : ℕ → String) (js : List Joined) (j : Joined)
    → In j js
    → (m : DagMetaRow) × In m (batched_metas uuid js) × (m.id ≡ j.id)
batched_member uuid [] j h = elim h [ ]
batched_member uuid (x ∷ js) j (inl e) =
    (meta_of (uuid 0) x, inl refl, ap (λ (y : Joined). y.id) (sym e))
batched_member uuid (x ∷ js) j (inr h) =
    let (m, l, e) = batched_member (λ i. uuid (suc i)) js j h in (m, inr l, e)

batched_id :
    (clock uuid : ℕ → String) (js : List Joined) (r : DagRunRow)
    → In r (batched_runs clock uuid js)
    → (i : ℕ) × (r.run_id ≡ uuid i)
batched_id clock uuid [] r h = elim h [ ]
batched_id clock uuid (j ∷ js) r (inl e) = (0, ap (λ (x : DagRunRow). x.run_id) e)
batched_id clock uuid (j ∷ js) r (inr h) =
    let (i, e) = batched_id (λ i. clock (suc i)) (λ i. uuid (suc i)) js r h in (suc i, e)

pub some_injective : {A : Type 0} {a b : A} → some a ≡ some b → a ≡ b
some_injective e = cc

pub listed_id : (k : String) (o : Option String) → is_id k o ≡ true → o ≡ some k
listed_id k none h = cc
listed_id k (some j) h = ap (λ (x : String). some x) ((eq_iff j k).0 h)

-- With ids that never come twice, each of the new runs is found by its own.
found_run :
    (clock uuid : ℕ → String) (js : List Joined) (r : DagRunRow)
    → ((i j : ℕ) → uuid i ≡ uuid j → i ≡ j)
    → In r (batched_runs clock uuid js)
    → find_dag_run r.run_id (batched_runs clock uuid js) ≡ some r
found_run clock uuid [] r fresh m = elim m [ ]
found_run clock uuid (j ∷ js) r fresh (inr m) = rw (
    found_run (λ i. clock (suc i)) (λ i. uuid (suc i)) js r
      (λ a b e. let q = fresh (suc a) (suc b) e in omega arith) m)
found_run clock uuid (j ∷ js) r fresh (inl e) =
    let rest = batched_runs (λ i. clock (suc i)) (λ i. uuid (suc i)) js in
    elim (Option-cases (find_dag_run r.run_id rest)) [
      | inl none_there ↦
          rw (none_there, (eq_iff (uuid 0) r.run_id).1 (ap (λ (y : DagRunRow). y.run_id) (sym e)))
            (ap (λ (y : DagRunRow). some y) (sym e))
      | inr (x, there) ↦
          let (m, at) = find_row-eq-some (λ y. y.run_id) r.run_id rest x there in
          let (i, later) = batched_id (λ i. clock (suc i)) (λ i. uuid (suc i)) js x m in
          let first = ap (λ (y : DagRunRow). y.run_id) e in
          let same = fresh 0 (suc i) (sym first ∙ sym at ∙ later) in absurd (omega arith)
    ]

module _ {Db : Type 0} (yt : YtClient Db) (refs : RefClient Db) where
  -- Writing that ends well has written the runs and then the metas.
  write_runs-ok :
      {O : Type 0} (clock uuid : ℕ → String) (js : List Joined) (j : Joined) (s : Session Db O)
      (n : ℕ)
      → In j js
      → (write_runs yt refs clock uuid js s).0 ≡ ok n
      → (db : Db) × (yt.insert_dag_runs (batched_runs clock uuid js) s.db ≡ ok db)
        × (refs.insert_metas (batched_metas uuid js) db
            ≡ ok (write_runs yt refs clock uuid js s).1.db)
  unfolding write_runs
  write_runs-ok clock uuid [] j s n m h = elim m [ ]
  write_runs-ok clock uuid (x ∷ js) j s n m h =
      elim (Result-cases (yt.insert_dag_runs (batched_runs clock uuid (x ∷ js)) s.db)) [
        | inr (e, wrong) ↦ cc (rw wrong at h)
        | inl (db, e) ↦ elim (Result-cases (refs.insert_metas (batched_metas uuid (x ∷ js)) db)) [
          | inr (e', wrong) ↦ cc (rw (e, wrong) at h)
          | inl (db', e') ↦ (db, e, rw (e, e') refl)
        ]
      ]

  abbrev ForMeta : Db → String → String → String → Type 0
  ForMeta db k dag_id created_at =
      (run_id now : String) × (refs.meta_at db k
        ≡ some (record {
          id = some k;
          dag_id = dag_id;
          created_at = created_at;
          run_id = some run_id;
        }))
      × (yt.dag_run_at db run_id ≡ some (new_dag_run now run_id dag_id))

  -- The tables after the writes for joined rows, all of which with the key `k` are of one DAG.
  written_claim :
      RefLaws refs yt
      → YtLaws yt
      → (clock uuid : ℕ → String) (js : List Joined) (j : Joined) (db db' db'' : Db) (k : String)
        (r : DagRefRow)
      → ((a b : ℕ) → uuid a ≡ uuid b → a ≡ b)
      → In j js
      → j.id ≡ some k
      → ((i : Joined) → In i js → i.id ≡ some k → i.ref ≡ r)
      → yt.insert_dag_runs (batched_runs clock uuid js) db ≡ ok db'
      → refs.insert_metas (batched_metas uuid js) db' ≡ ok db''
      → ForMeta db'' k r.dag_id r.created_at
  written_claim ref_laws laws clock uuid js j db db' db'' k r fresh m key one e e' =
      let metas = batched_metas uuid js in
      let (at, _, _, same_runs) = ref_laws.metas_written metas db' db'' e' in
      let (m0, in0, id0) = batched_member uuid js j m in
      elim (Option-cases (find_meta k metas)) [
        | inl missing ↦ absurd (
            last_where-ne-none (λ x. is_id k x.id) metas m0 in0
              (rw (id0 ∙ key) ((eq_iff k k).1 refl)) missing)
        | inr (x, found) ↦
            let (inx, idx) = last_where-eq-some (λ y. is_id k y.id) metas x found in
            let (j', inj, i, q, run) = In-batched_metas clock uuid js x inx in
            let key' = listed_id k j'.id (subst (λ (y : DagMetaRow). is_id k y.id ≡ true) q idx) in
            let ref = one j' inj key' in
            (
              uuid i,
              clock i,
              at k ∙ rw (found, q, key', ref) refl,
              same_runs (uuid i)
                  ∙ laws.insert_dag_runs_at (batched_runs clock uuid js) db db' (uuid i) e
                  ∙ rw (found_run clock uuid js _ fresh run, ref) refl,
            )
      ]

  -- All selected rows of one meta are of the DAG that is stored for it.
  one_dag :
      RefLaws refs yt
      → (ids : List String) (db : Db) (js : List Joined) (k : String) (m : DagMetaRow)
        (r : DagRefRow)
      → refs.select_unclaimed (of_metas ids) db ≡ ok js
      → refs.meta_at db k ≡ some m
      → refs.ref_at db m.dag_id ≡ some r
      → (j : Joined) → In j js
      → j.id ≡ some k
      → j.ref ≡ r
  one_dag ref_laws ids db js k m r e at stored j inj key =
      let (ref, joined, _) = ref_laws.unclaimed_sound (of_metas ids) db js j e inj in
      let (m', at', dag, _) = joined k key in
      let same : m' ≡ m = some_injective (sym at' ∙ at) in
      some_injective
        (sym ref ∙ ap (refs.ref_at db) (sym dag ∙ ap (λ (x : DagMetaRow). x.dag_id) same) ∙ stored)

  claimed_body :
      {O : Type 0}
      → YtLaws yt
      → RefLaws refs yt
      → (clock uuid : ℕ → String) (metas : List String) (s : Session Db O) (n : ℕ) (k : String)
        (m : DagMetaRow) (r : DagRefRow)
      → ((i j : ℕ) → uuid i ≡ uuid j → i ≡ j)
      → (create_body yt refs clock uuid metas s).0 ≡ ok n
      → contains k metas ≡ true
      → refs.meta_at s.db k ≡ some m
      → m.run_id ≡ none
      → refs.ref_at s.db m.dag_id ≡ some r
      → ForMeta (create_body yt refs clock uuid metas s).1.db k r.dag_id r.created_at
  unfolding dags_needing_dagruns_of_metas matches
  claimed_body laws ref_laws clock uuid [] s n k m r fresh h listed at free stored = cc
  claimed_body laws ref_laws clock uuid (a ∷ ids) s n k m r fresh h listed at free stored =
      elim (Result-cases (refs.select_unclaimed (of_metas (a ∷ ids)) s.db)) [
        | inr (e, wrong) ↦ cc (rw wrong at h)
        | inl (js, e) ↦
            let j : Joined = record { ref = r; id = some k; run_id = m.run_id } in
            let inj : In j js =
              ref_laws.unclaimed_complete (of_metas (a ∷ ids)) s.db js r k m e stored at
                (rw (listed, free) refl) in
            let (db', runs, metas) = write_runs-ok clock uuid js j s n inj (rw e at h) in
            rw e (
              written_claim ref_laws laws clock uuid js j s.db db' _ k r fresh inj refl
                (one_dag ref_laws (a ∷ ids) s.db js k m r e at stored) runs metas)
      ]

  -- A claim that ends well, of a meta that no run has been made for, of a DAG that is stored, makes a
  -- scheduled run of that DAG for it: the meta has the id of the run, and the run is stored under
  -- it. The meta takes the creation date of the DAG.
  pub create_dag_runs-claims :
      {O : Type 0}
      → YtLaws yt
      → RefLaws refs yt
      → (clock uuid : ℕ → String) (metas : List String) (s : Session Db O) (n : ℕ) (k : String)
        (m : DagMetaRow) (r : DagRefRow)
      → ((i j : ℕ) → uuid i ≡ uuid j → i ≡ j)
      → (create_dag_runs_atomic yt refs clock uuid metas s).0 ≡ ok n
      → contains k metas ≡ true
      → refs.meta_at s.db k ≡ some m
      → m.run_id ≡ none
      → refs.ref_at s.db m.dag_id ≡ some r
      → let db' = (create_dag_runs_atomic yt refs clock uuid metas s).1.db in
        (run_id now : String) × (refs.meta_at db' k
          ≡ some (record {
            id = some k;
            dag_id = m.dag_id;
            created_at = r.created_at;
            run_id = some run_id;
          }))
        × (yt.dag_run_at db' run_id ≡ some (new_dag_run now run_id m.dag_id))
  unfolding create_dag_runs_atomic
  create_dag_runs-claims laws ref_laws clock uuid metas s n k m r fresh h listed at free stored =
      let body = create_body yt refs clock uuid metas in
      elim (transaction_cases yt laws body s) [
        | inr (e, raised) ↦ cc (rw raised at h)
        | inl (a, done, p) ↦ rw p (
            subst (λ dag_id. ForMeta (body s).1.db k dag_id r.created_at)
              (ref_laws.ref_key s.db m.dag_id r stored)
              (claimed_body laws ref_laws clock uuid metas s a k m r fresh done listed at free
                stored))
      ]
