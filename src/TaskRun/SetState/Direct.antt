-- ===== src/TaskRun/SetState/Direct.antt =====
-- `set_state` on objects, with no requirements: it reads nothing and writes a row for each.
use yt_scheduler.Base.{
  ℕ, suc, String, ◌≡◌, refl, ap, ◌⊎◌, inl, inr, none, some, List, [], ◌∷◌, map, length, arith,
  Bool-cases, ◌==◌,
}
use yt_scheduler.Base.Action.{ok, Result-cases}
use yt_scheduler.State.{TaskRunState}
use yt_scheduler.Rows.{TaskRunRow}
use yt_scheduler.Yt.{YtClient, YtLaws, Session, find_row, or_stored}
use yt_scheduler.TaskRun.{build_row}
use yt_scheduler.TaskRun.Lifecycle.{build_row-run_id}
use yt_scheduler.TaskRun.SetState.{
  update_to, new_row, rows_batch, fetchable_ids, set_state, write_batch,
}

-- The rows with a new state; `now i` is the time of the `i`-th.
abbrev pub restated : (ℕ → String) → TaskRunState → List TaskRunRow → List TaskRunRow
restated now state [] = []
restated now state (tr ∷ trs) =
    build_row (now 0) tr (some state) none ∷ restated (λ i. now (suc i)) state trs

fetchable-update_to :
    (state : TaskRunState) (trs : List TaskRunRow) → fetchable_ids (map (update_to state) trs) ≡ []
unfolding fetchable_ids
fetchable-update_to state [] = refl
fetchable-update_to state (tr ∷ trs) = fetchable-update_to state trs

batch-update_to :
    (now : ℕ → String) (state : TaskRunState) (trs : List TaskRunRow)
    → rows_batch now [] (map (update_to state) trs) ≡ restated now state trs
unfolding rows_batch new_row
batch-update_to now state [] = refl
batch-update_to now state (tr ∷ trs) =
    ap (◌∷◌ (build_row (now 0) tr (some state) none)) (batch-update_to (λ i. now (suc i)) state trs)

pub set_state-update_to :
    {Db O : Type 0} (yt : YtClient Db) (now : ℕ → String) (state : TaskRunState)
    (trs : List TaskRunRow) (s : Session Db O)
    → set_state yt now (map (update_to state) trs) s ≡ write_batch yt (restated now state trs) s
unfolding set_state
set_state-update_to yt now state trs s =
    rw (fetchable-update_to state trs, batch-update_to now state trs)

pub length-restated :
    (now : ℕ → String) (state : TaskRunState) (trs : List TaskRunRow)
    → length (restated now state trs) ≡ length trs
length-restated now state [] = refl
length-restated now state (tr ∷ trs) = ap suc (length-restated (λ i. now (suc i)) state trs)

-- The row written under a key is the restated one of the object with that key.
pub find-restated :
    (now : ℕ → String) (state : TaskRunState) (k : String) (trs : List TaskRunRow)
    → ((find_row (λ t. t.run_id) k trs ≡ none)
        × (find_row (λ t. t.run_id) k (restated now state trs) ≡ none))
      ⊎ ((tr : TaskRunRow) × (time : String) × (find_row (λ t. t.run_id) k trs ≡ some tr)
          × (find_row (λ t. t.run_id) k (restated now state trs)
              ≡ some (build_row time tr (some state) none)))
find-restated now state k [] = inl (refl, refl)
find-restated now state k (tr ∷ trs) = elim (find-restated (λ i. now (suc i)) state k trs) [
  | inr (x, time, e, e') ↦ inr (x, time, rw e, rw e')
  | inl (e, e') ↦
      let key = build_row-run_id (now 0) tr (some state) none in
      elim (Bool-cases (tr.run_id == k)) [
        | inl t ↦ inr (tr, now 0, rw (e, t), ground (arith, e', key))
        | inr f ↦ inl (rw (e, f), ground (arith, e', key))
      ]
]

-- What a successful batch leaves.
pub record IsWritten {Db O : Type 0} (yt : YtClient Db) (rows : List TaskRunRow)
    (before after : Session Db O) : Type 0 where
  pub task_runs :
      (k : String)
      → yt.task_run_at after.db k
        ≡ or_stored (find_row (λ t. t.run_id) k rows) (yt.task_run_at before.db k)
  pub dag_runs : (k : String) → yt.dag_run_at after.db k ≡ yt.dag_run_at before.db k
  pub self : after.self ≡ before.self

module _ {Db O : Type 0} (yt : YtClient Db) (laws : YtLaws yt) where
  pub write_batch-ok :
      (rows xs : List TaskRunRow) (s : Session Db O)
      → (write_batch yt rows s).0 ≡ ok xs
      → (xs ≡ rows) × IsWritten yt rows s (write_batch yt rows s).1
  write_batch-ok [] xs s h =
      (cc, record { task_runs = λ k. refl; dag_runs = λ k. refl; self = refl })
  write_batch-ok (r ∷ rs) xs s h = elim (Result-cases (yt.insert_task_runs (r ∷ rs) s.db)) [
    | inl (db', e) ↦ (
      cc (rw e at h),
      rw e (record {
        task_runs = λ k. laws.insert_task_runs_at (r ∷ rs) s.db db' k e;
        dag_runs = λ k. laws.insert_task_runs_frame (r ∷ rs) s.db db' k e;
        self = refl;
      }),
    )
    | inr (x, e) ↦ absurd (cc (rw e at h))
  ]
