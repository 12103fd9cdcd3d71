-- ===== src/TaskRun/SetState/Applied.antt =====
-- What a successful `set_state` returns and has written; what a failed one leaves.
use yt_scheduler.Base.{
  ℕ, String, ◌≡◌, refl, inl, inr, true, Option, none, some, List, [], ◌∷◌, arith, Option-cases,
  Bool-cases, eq_iff, if◌then◌else◌, is_empty, contains,
}
use yt_scheduler.Base.Action.{ok, err, Error, Result-cases}
use yt_scheduler.Rows.{TaskRunRow, TaskRunQuery, any_task_run, among}
use yt_scheduler.Yt.{YtClient, YtLaws, Session, find_task_run, transaction}
use yt_scheduler.Yt.Lookup.{find-select}
use yt_scheduler.Yt.Transaction.{transaction-err, transaction_cases}
use yt_scheduler.TaskRun.{build_row}
use yt_scheduler.TaskRun.Lifecycle.{build_row-run_id}
use yt_scheduler.TaskRun.SetState.Guarded.{given_or_matched}
use yt_scheduler.TaskRun.SetState.{
  Update, RowRef, by_id, by_row, Requires, is_matched, fetched_id, resolve, new_row, rows_batch,
  set_state, write_batch, fetch_and_write, fetchable_ids,
}

module _ {Db : Type 0} (yt : YtClient Db) (laws : YtLaws yt) {O : Type 0} where
  write_batch-err-db :
      (rows : List TaskRunRow) (s : Session Db O) (e : Error)
      → (write_batch yt rows s).0 ≡ err e
      → (write_batch yt rows s).1.db ≡ s.db
  write_batch-err-db [] s e h = cc
  write_batch-err-db (r ∷ rs) s e h = ground arith

  -- A `set_state` that raises has changed nothing.
  pub set_state-err :
      (now : ℕ → String) (updates : List Update) (s : Session Db O) (e : Error)
      → (set_state yt now updates s).0 ≡ err e
      → (set_state yt now updates s).1.db ≡ s.db
  unfolding set_state
  set_state-err now updates s e h = elim (Bool-cases (is_empty (fetchable_ids updates))) [
    | inl t ↦ rw t (write_batch-err-db (rows_batch now [] updates) s e (rw t at h))
    | inr f ↦ rw f (transaction-err yt laws (fetch_and_write yt now updates) s e (rw f at h))
  ]

-- The rows that one update may write, by the row stored under its key.
abbrev pub written_by : String → Update → Option TaskRunRow → List TaskRunRow
written_by now u none = []
written_by now u (some r) =
    if is_matched r u.requires then build_row now r u.state u.operation_id ∷ [] else []

fetched_one :
    (ref : RowRef) (q : Requires) (k : String) (fetched : List TaskRunRow)
    → fetched_id ref q ≡ some k
    → resolve fetched ref q ≡ find_task_run k fetched
fetched_one (by_id j) q k fetched h = ground arith
fetched_one (by_row r) q k fetched h = ground arith

batch_one :
    (now : ℕ → String) (u : Update) (k : String) (fetched : List TaskRunRow)
    → fetched_id u.row u.requires ≡ some k
    → rows_batch now fetched (u ∷ []) ≡ written_by (now 0) u (find_task_run k fetched)
unfolding rows_batch new_row
batch_one now u k fetched h = elim (Option-cases (find_task_run k fetched)) [
  | inl e ↦ ground (arith, fetched_one u.row u.requires k fetched)
  | inr (r, e) ↦
      ground (arith, fetched_one u.row u.requires k fetched, given_or_matched u.requires r)
]

-- What one update leaves under its key.
abbrev pub updated : String → Update → Option TaskRunRow → Option TaskRunRow
updated now u none = none
updated now u (some r) =
    some (if is_matched r u.requires then build_row now r u.state u.operation_id else r)

contains_self : (k : String) → contains k (k ∷ []) ≡ true
contains_self k = ground (arith, eq_iff k k)

module _ {Db : Type 0} (yt : YtClient Db) (laws : YtLaws yt) (now : ℕ → String) (u : Update)
    (k : String) where
  written_one :
      {O : Type 0} (s : Session Db O) (r : TaskRunRow) (rows : List TaskRunRow)
      → yt.task_run_at s.db k ≡ some r
      → let w = build_row (now 0) r u.state u.operation_id in
        (write_batch yt (w ∷ []) s).0 ≡ ok rows
        → ((write_batch yt (w ∷ []) s).0 ≡ ok (w ∷ []))
          × (yt.task_run_at (write_batch yt (w ∷ []) s).1.db k ≡ some w)
  written_one s r rows h e =
      let w = build_row (now 0) r u.state u.operation_id in
      let key = build_row-run_id (now 0) r u.state u.operation_id in
      elim (Result-cases (yt.insert_task_runs (w ∷ []) s.db)) [
        | inl (db', p) ↦ rw p (
          refl,
          ground (
            arith,
            laws.insert_task_runs_at (w ∷ []) s.db db' k p,
            laws.task_run_key s.db k r h,
            eq_iff w.run_id k,
            key,
          ),
        )
        | inr (x, p) ↦ ground arith
      ]

  write_batch-one :
      {O : Type 0} (s : Session Db O) (o : Option TaskRunRow) (rows : List TaskRunRow)
      → yt.task_run_at s.db k ≡ o
      → (write_batch yt (written_by (now 0) u o) s).0 ≡ ok rows
      → ((write_batch yt (written_by (now 0) u o) s).0 ≡ ok (written_by (now 0) u o))
        × (yt.task_run_at (write_batch yt (written_by (now 0) u o) s).1.db k ≡ updated (now 0) u o)
  write_batch-one s none rows h e = (refl, h)
  write_batch-one s (some r) rows h e = elim (Bool-cases (is_matched r u.requires)) [
    | inr f ↦ rw f (refl, h)
    | inl t ↦ rw t (written_one s r rows h (rw t at e))
  ]

  fetched_then_written :
      {O : Type 0} (s : Session Db O) (fetched : List TaskRunRow)
      → fetched_id u.row u.requires ≡ some k
      → yt.select_task_runs (record any_task_run { run_id = among (k ∷ []) }) s.db ≡ ok fetched
      → fetch_and_write yt now (u ∷ []) s
        ≡ write_batch yt (written_by (now 0) u (yt.task_run_at s.db k)) s
  unfolding fetchable_ids
  fetched_then_written s fetched h p =
      rw (h, p, batch_one now u k fetched h)
        (rw (find-select yt laws (k ∷ []) s.db fetched k p (contains_self k)))

  failed :
      {O : Type 0} (s : Session Db O) (x : Error) {rows : List TaskRunRow}
      → fetched_id u.row u.requires ≡ some k
      → yt.select_task_runs (record any_task_run { run_id = among (k ∷ []) }) s.db ≡ err x
      → (fetch_and_write yt now (u ∷ []) s).0 ≡ ok rows
      → ⊥
  unfolding fetchable_ids
  failed s x h p e = cc (rw (h, p) at e)

  fetch_and_write-one :
      {O : Type 0} (s : Session Db O) (rows : List TaskRunRow)
      → fetched_id u.row u.requires ≡ some k
      → (fetch_and_write yt now (u ∷ []) s).0 ≡ ok rows
      → (rows ≡ written_by (now 0) u (yt.task_run_at s.db k))
        × (yt.task_run_at (fetch_and_write yt now (u ∷ []) s).1.db k
            ≡ updated (now 0) u (yt.task_run_at s.db k))
  unfolding fetchable_ids
  fetch_and_write-one s rows h e =
      let q : TaskRunQuery = record any_task_run { run_id = among (k ∷ []) } in
      elim (Result-cases (yt.select_task_runs q s.db)) [
        | inl (fetched, p) ↦
            let steps = fetched_then_written s fetched h p in
            let r = write_batch-one s _ rows refl (rw steps at e) in rw steps (cc r.0, r.1)
        | inr (x, p) ↦ absurd (failed s x h p e)
      ]

  set_state_one :
      {O : Type 0} (s : Session Db O)
      → fetched_id u.row u.requires ≡ some k
      → set_state yt now (u ∷ []) s ≡ transaction yt (fetch_and_write yt now (u ∷ [])) s
  unfolding set_state fetchable_ids
  set_state_one s h = rw h

  -- A successful `set_state` of one update that reads its row by key compares and sets: it writes
  -- the new row, and returns it, if the stored row meets the requirements. Otherwise, and where
  -- no row is stored, it returns nothing and leaves what is stored under the key.
  pub set_state-applied :
      {O : Type 0} (s : Session Db O) (rows : List TaskRunRow)
      → fetched_id u.row u.requires ≡ some k
      → (set_state yt now (u ∷ []) s).0 ≡ ok rows
      → (rows ≡ written_by (now 0) u (yt.task_run_at s.db k))
        × (yt.task_run_at (set_state yt now (u ∷ []) s).1.db k
            ≡ updated (now 0) u (yt.task_run_at s.db k))
  set_state-applied s rows h e =
      elim (transaction_cases yt laws (fetch_and_write yt now (u ∷ [])) s) [
        | inl (a, p, t) ↦
            let r = fetch_and_write-one s a h p in
            rw (set_state_one s h, t) (cc (r.0, rw (set_state_one s h, t) at e), r.1)
        | inr (x, t) ↦ absurd (cc (rw (set_state_one s h, t) at e))
      ]
