-- ===== src/DagRef/Once.antt =====
-- Claims and invalid marks by several schedulers, one transaction after another: a meta gets a run
-- id once.
use yt_scheduler.Base.{
  ℕ, String, true, ◌≡◌, refl, sym, ap, ◌∙◌, subst, inl, inr, none, some, List, [], ◌∷◌,
  Option-cases, &&-eq-true,
}
use Prim.Native.String.{◌++◌ as append}
use yt_scheduler.Base.Action.{ok, Action, Result-cases, ◌>>=◌}
use yt_scheduler.Yt.{YtClient, YtLaws, Session}
use yt_scheduler.Yt.Transaction.{transaction-inv}
use yt_scheduler.DagRef.{
  DagMetaRow, Joined, RefClient, RefLaws, of_metas, matches, find_meta, is_id, is_null, is_listed,
  dags_needing_dagruns_of_metas, upsert_metas,
}
use yt_scheduler.DagRef.Claim.{
  batched_metas, batched_runs, write_runs, create_body, create_dag_runs_atomic, write_invalid,
  set_invalid_meta,
}
use yt_scheduler.DagRef.Claimed.{last_where-eq-some, In-batched_metas, listed_id, some_injective}

-- A transaction of a scheduler on metas.
pub data Claim : Type 0 where
  creating : (clock uuid : ℕ → String) (metas : List String) → Claim
  invalidating : (clock : ℕ → String) (metas : List String) → Claim

module _ {Db : Type 0} (yt : YtClient Db) (refs : RefClient Db) where
  -- The tables after the transaction, however it ends.
  unfoldable pub claim : Claim → Db → Db
  unfolding create_dag_runs_atomic set_invalid_meta
  claim (creating clock uuid metas) db =
      (create_dag_runs_atomic yt refs clock uuid metas (record { db = db; self = tt })).1.db
  claim (invalidating clock metas) db =
      (set_invalid_meta yt refs clock metas (record { db = db; self = tt })).1.db

  unfoldable pub claim_all : List Claim → Db → Db
  unfolding claim
  claim_all [] db = db
  claim_all (c ∷ cs) db = claim_all cs (claim c db)

  module _ (laws : YtLaws yt) (ref_laws : RefLaws refs yt) where
    -- None of the selected rows is of a meta that has a run.
    unselected :
        (ids : List String) (db : Db) (js : List Joined) (k run_id : String) (m : DagMetaRow)
        → refs.select_unclaimed (of_metas ids) db ≡ ok js
        → refs.meta_at db k ≡ some m
        → m.run_id ≡ some run_id
        → (uuid : ℕ → String) → find_meta k (batched_metas uuid js) ≡ none
    unfolding matches
    unselected ids db js k run_id m e at has uuid =
        elim (Option-cases (find_meta k (batched_metas uuid js))) [
          | inl missing ↦ missing
          | inr (x, found) ↦
              let (inx, idx) = last_where-eq-some (λ y. is_id k y.id) _ x found in
              let (j, inj, i, q, _) = In-batched_metas uuid uuid js x inx in
              let key = listed_id k j.id (subst (λ (y : DagMetaRow). is_id k y.id ≡ true) q idx) in
              let (_, joined, test) = ref_laws.unclaimed_sound (of_metas ids) db js j e inj in
              let (m', at', _, run) = joined k key in
              let same : m' ≡ m = some_injective (sym at' ∙ at) in
              let free = (&&-eq-true (is_listed ids j.id) (is_null j.run_id) test).1 in
              let taken : j.run_id ≡ some run_id =
                sym run ∙ ap (λ (y : DagMetaRow). y.run_id) same ∙ has in
              absurd (cc (rw taken at free))
        ]

    module _ (k run_id : String) (m : DagMetaRow) (has : m.run_id ≡ some run_id) where
      abbrev Stays : Db → Type 0
      Stays db = refs.meta_at db k ≡ some m

      metas_stay :
          (rows : List DagMetaRow) (s : Session Db (Unit {0}))
          → find_meta k rows ≡ none
          → Stays s.db
          → Stays (upsert_metas yt refs rows s).1.db
      metas_stay rows s missing at = elim (Result-cases (refs.insert_metas rows s.db)) [
        | inr (e, wrong) ↦ rw wrong at
        | inl (db, e) ↦ rw e ((ref_laws.metas_written rows s.db db e).0 k ∙ rw missing at)
      ]

      write_runs_stay :
          (clock uuid : ℕ → String) (js : List Joined) (s : Session Db (Unit {0}))
          → find_meta k (batched_metas uuid js) ≡ none
          → Stays s.db
          → Stays (write_runs yt refs clock uuid js s).1.db
      unfolding write_runs
      write_runs_stay clock uuid [] s missing at = at
      write_runs_stay clock uuid (j ∷ js) s missing at =
          elim (Result-cases (yt.insert_dag_runs (batched_runs clock uuid (j ∷ js)) s.db)) [
            | inr (e, wrong) ↦ rw wrong at
            | inl (db, e) ↦
                let rows = batched_metas uuid (j ∷ js) in
                let there : Stays db =
                  (ref_laws.runs_written (batched_runs clock uuid (j ∷ js)) s.db db e).0 k ∙ at in
                elim (Result-cases (refs.insert_metas rows db)) [
                  | inr (e', wrong) ↦ rw (e, wrong) there
                  | inl (db', e') ↦
                      rw (e, e') ((ref_laws.metas_written rows db db' e').0 k ∙ rw missing there)
                ]
          ]

      write_invalid_stay :
          (mark : ℕ → String) (js : List Joined) (s : Session Db (Unit {0}))
          → find_meta k (batched_metas mark js) ≡ none
          → Stays s.db
          → Stays (write_invalid yt refs mark js s).1.db
      unfolding write_invalid
      write_invalid_stay mark [] s missing at = at
      write_invalid_stay mark (j ∷ js) s missing at =
          metas_stay (batched_metas mark (j ∷ js)) s missing at

      -- The selection for metas, and any writing that spares the metas that it leaves out.
      selecting-Stays :
          {A : Type 0} (ids : List String) (write : List Joined → Action (Session Db (Unit {0})) A)
          (s : Session Db (Unit {0})) (uuid : ℕ → String)
          → ((js : List Joined)
              → find_meta k (batched_metas uuid js) ≡ none
              → Stays (write js s).1.db)
          → Stays s.db
          → Stays ((dags_needing_dagruns_of_metas refs ids >>= write) s).1.db
      unfolding dags_needing_dagruns_of_metas
      selecting-Stays [] write s uuid h at = h [] refl
      selecting-Stays (i ∷ ids) write s uuid h at =
          elim (Result-cases (refs.select_unclaimed (of_metas (i ∷ ids)) s.db)) [
            | inr (e, wrong) ↦ rw wrong at
            | inl (js, e) ↦ rw e (h js (unselected (i ∷ ids) s.db js k run_id m e at has uuid))
          ]

      claim-Stays : (c : Claim) (db : Db) → Stays db → Stays (claim c db)
      unfolding claim create_dag_runs_atomic set_invalid_meta
      claim-Stays (creating clock uuid metas) db at =
          let s : Session Db (Unit {0}) = record { db = db; self = tt } in
          transaction-inv yt laws Stays (create_body yt refs clock uuid metas) s at (
            selecting-Stays metas (write_runs yt refs clock uuid) s uuid
              (λ js missing. write_runs_stay clock uuid js s missing at) at)
      claim-Stays (invalidating clock metas) db at =
          let s : Session Db (Unit {0}) = record { db = db; self = tt } in
          let mark = λ (i : ℕ). append "ERR:PARSING_FAILED:" (clock i) in
          transaction-inv yt laws Stays
            (dags_needing_dagruns_of_metas refs metas >>= write_invalid yt refs mark) s at
            (selecting-Stays metas (write_invalid yt refs mark) s mark
              (λ js missing. write_invalid_stay mark js s missing at) at)

    -- A meta that has a run, or the mark of a DAG that cannot be read, keeps it: no sequence of claims
    -- and marks, each of which may succeed or fail, changes its row.
    pub claim_all-keeps :
        (cs : List Claim) (db : Db) (k run_id : String) (m : DagMetaRow)
        → refs.meta_at db k ≡ some m
        → m.run_id ≡ some run_id
        → refs.meta_at (claim_all cs db) k ≡ some m
    unfolding claim_all
    claim_all-keeps [] db k run_id m at has = at
    claim_all-keeps (c ∷ cs) db k run_id m at has =
        claim_all-keeps cs (claim c db) k run_id m (claim-Stays k run_id m has c db at) has
