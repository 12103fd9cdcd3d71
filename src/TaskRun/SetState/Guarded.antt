-- ===== src/TaskRun/SetState/Guarded.antt =====
-- What `set_state` may change in the tables.
use yt_scheduler.Base.{
  ℕ, suc, String, ◌≡◌, refl, sym, ap, ◌⊎◌, inl, inr, true, false, Option, none, some, List, [], ◌∷◌,
  In, arith, Option-cases, is_empty, Bool-cases,
}
use yt_scheduler.Base.Action.{ok, Result-cases}
use yt_scheduler.Rows.{TaskRunRow, TaskRunQuery, any_task_run, among}
use yt_scheduler.Yt.{YtClient, YtLaws, Session, find_task_run}
use yt_scheduler.Yt.Lookup.{find_row-eq-some}
use yt_scheduler.Yt.Transaction.{transaction-inv}
use yt_scheduler.TaskRun.{build_row}
use yt_scheduler.TaskRun.SetState.{
  Update, by_id, by_row, has_requires, is_matched, fetched_id, resolve, new_row, rows_batch,
  set_state, write_batch, push, fetch_and_write, fetchable_ids, Requires, RowRef,
}

pub given_or_matched :
    (q : Requires) (r : TaskRunRow) → has_requires q ≡ false → is_matched r q ≡ true
unfolding is_matched
given_or_matched q r h = ground arith

-- `source` is the row that an update refers to: one with the given key, or the object itself.
abbrev pub Names : RowRef → Requires → TaskRunRow → Type 0
Names (by_id k) q source = source.run_id ≡ k
Names (by_row r) q source =
    ((has_requires q ≡ true) × (source.run_id ≡ r.run_id))
    ⊎ ((has_requires q ≡ false) × (source ≡ r))

resolve-Names :
    (fetched : List TaskRunRow) (ref : RowRef) (q : Requires) (tr : TaskRunRow)
    → resolve fetched ref q ≡ some tr
    → Names ref q tr
resolve-Names fetched (by_id k) q tr h = (find_row-eq-some (λ t. t.run_id) k fetched tr h).1
resolve-Names fetched (by_row r) q tr h = elim (Bool-cases (has_requires q)) [
  | inl t ↦ inl (t, (find_row-eq-some (λ t. t.run_id) r.run_id fetched tr (rw t at h)).1)
  | inr f ↦ inr (f, some_same (rw f at h))
]
  where
    some_same : some r ≡ some tr → tr ≡ r
    some_same e = cc

In-push :
    (w : TaskRunRow) (o : Option TaskRunRow) (rows : List TaskRunRow)
    → In w (push o rows)
    → (o ≡ some w) ⊎ In w rows
In-push w none rows m = inr m
In-push w (some r) rows (inl e) = inl (ap some (sym e))
In-push w (some r) rows (inr m) = inr m

module _ {Db : Type 0} (yt : YtClient Db) (db : Db) where
  -- `w` is what one of the updates makes of a row that meets its requirements; where the update
  -- has requirements or names its row by id, that row is the stored one.
  pub record IsJustified (updates : List Update) (w : TaskRunRow) : Type 0 where
    pub update : Update
    pub listed : In update updates
    pub source : TaskRunRow
    pub named : Names update.row update.requires source
    pub time : String
    pub read :
        (fetched_id update.row update.requires ≡ none)
        ⊎ (yt.task_run_at db source.run_id ≡ some source)
    pub met : is_matched source update.requires ≡ true
    pub made : w ≡ build_row time source update.state update.operation_id

  -- What was fetched is stored.
  abbrev IsStored : List TaskRunRow → Type 0
  IsStored fetched =
      (k : String) (r : TaskRunRow)
      → find_task_run k fetched ≡ some r
      → yt.task_run_at db r.run_id ≡ some r

  IsJustified-cons :
      (u : Update) (us : List Update) (w : TaskRunRow) → IsJustified us w → IsJustified (u ∷ us) w
  IsJustified-cons u us w j = record {
    update = j.update;
    listed = inr j.listed;
    source = j.source;
    named = j.named;
    time = j.time;
    read = j.read;
    met = j.met;
    made = j.made;
  }

  resolve-read :
      (fetched : List TaskRunRow)
      → IsStored fetched
      → (ref : RowRef) (q : Requires) (tr : TaskRunRow) → resolve fetched ref q ≡ some tr
      → (fetched_id ref q ≡ none) ⊎ (yt.task_run_at db tr.run_id ≡ some tr)
  resolve-read fetched stored (by_id k) q tr h = inr (stored k tr h)
  resolve-read fetched stored (by_row r) q tr h = elim (Bool-cases (has_requires q)) [
    | inl t ↦ inr (stored r.run_id tr (rw t at h))
    | inr f ↦ inl (rw f)
  ]

  new_row-IsJustified :
      (fetched : List TaskRunRow)
      → IsStored fetched
      → (now : String) (u : Update) (us : List Update) (w : TaskRunRow)
      → new_row now fetched u ≡ some w
      → IsJustified (u ∷ us) w
  unfolding new_row
  new_row-IsJustified fetched stored now u us w h =
      elim (Option-cases (resolve fetched u.row u.requires)) [
        | inl e ↦ ground arith
        | inr (tr, e) ↦ record {
          update = u;
          listed = inl refl;
          source = tr;
          named = resolve-Names fetched u.row u.requires tr e;
          time = now;
          read = resolve-read fetched stored u.row u.requires tr e;
          met = ground (arith, given_or_matched u.requires tr);
          made = ground arith;
        }
      ]

  rows_batch-IsJustified :
      (fetched : List TaskRunRow)
      → IsStored fetched
      → (now : ℕ → String) (us : List Update) (w : TaskRunRow) → In w (rows_batch now fetched us)
      → IsJustified us w
  unfolding rows_batch
  rows_batch-IsJustified fetched stored now [] w m = elim m [ ]
  rows_batch-IsJustified fetched stored now (u ∷ us) w m =
      elim (In-push w (new_row (now 0) fetched u) _ m) [
        | inl e ↦ new_row-IsJustified fetched stored (now 0) u us w e
        | inr later ↦
            IsJustified-cons u us w
              (rows_batch-IsJustified fetched stored (λ i. now (suc i)) us w later)
      ]

  -- What `set_state` does to the stored row of one key.
  abbrev pub IsGuarded : Db → List Update → String → Type 0
  IsGuarded db' updates k =
      (yt.task_run_at db' k ≡ yt.task_run_at db k)
      ⊎ ((w : TaskRunRow) × (yt.task_run_at db' k ≡ some w)
          × (w.run_id ≡ k)
          × IsJustified updates w)

module _ {Db : Type 0} (yt : YtClient Db) (laws : YtLaws yt) where
  inserted :
      (db db' : Db) (updates : List Update) (k : String) (rows : List TaskRunRow)
      → ((w : TaskRunRow) → In w rows → IsJustified yt db updates w)
      → yt.insert_task_runs rows db ≡ ok db'
      → IsGuarded yt db db' updates k
  inserted db db' updates k rows just h = elim (Option-cases (find_task_run k rows)) [
    | inl e ↦ inl (ground (arith, laws.insert_task_runs_at rows db db' k h))
    | inr (w, e) ↦
        let (m, key) = find_row-eq-some (λ t. t.run_id) k rows w e in
        inr (w, ground (arith, laws.insert_task_runs_at rows db db' k h), key, just w m)
  ]

  write_batch-IsGuarded :
      {O : Type 0} (s : Session Db O) (updates : List Update) (k : String) (rows : List TaskRunRow)
      → ((w : TaskRunRow) → In w rows → IsJustified yt s.db updates w)
      → IsGuarded yt s.db (write_batch yt rows s).1.db updates k
  write_batch-IsGuarded s updates k [] just = inl refl
  write_batch-IsGuarded s updates k (r ∷ rs) just =
      elim (Result-cases (yt.insert_task_runs (r ∷ rs) s.db)) [
        | inl (db', e) ↦ rw e (inserted s.db db' updates k (r ∷ rs) just e)
        | inr (x, e) ↦ rw e (inl refl)
      ]

  fetched-IsStored :
      (q : TaskRunQuery) (db : Db) (rows : List TaskRunRow)
      → yt.select_task_runs q db ≡ ok rows
      → IsStored yt db rows
  fetched-IsStored q db rows h k r e =
      (laws.task_runs_sound q db rows r h (find_row-eq-some (λ t. t.run_id) k rows r e).0).0

  fetch_and_write-IsGuarded :
      {O : Type 0} (now : ℕ → String) (updates : List Update) (s : Session Db O) (k : String)
      → IsGuarded yt s.db (fetch_and_write yt now updates s).1.db updates k
  fetch_and_write-IsGuarded now updates s k =
      let q : TaskRunQuery = record any_task_run { run_id = among (fetchable_ids updates) } in
      elim (Result-cases (yt.select_task_runs q s.db)) [
        | inl (rows, e) ↦ rw e (
            write_batch-IsGuarded s updates k _
              (rows_batch-IsJustified yt s.db rows (fetched-IsStored q s.db rows e) now updates))
        | inr (x, e) ↦ rw e (inl refl)
      ]

  -- Whatever `set_state` returns or raises, each stored row is afterwards as before, or it is
  -- what an update makes of a row that meets the requirements of the update.
  pub set_state-IsGuarded :
      {O : Type 0} (now : ℕ → String) (updates : List Update) (s : Session Db O) (k : String)
      → IsGuarded yt s.db (set_state yt now updates s).1.db updates k
  unfolding set_state
  set_state-IsGuarded now updates s k = elim (Bool-cases (is_empty (fetchable_ids updates))) [
    | inl none_read ↦ rw none_read (
        write_batch-IsGuarded s updates k _
          (rows_batch-IsJustified yt s.db [] (λ j r e. cc) now updates))
    | inr some_read ↦ rw some_read (
        transaction-inv yt laws (λ db'. IsGuarded yt s.db db' updates k)
          (fetch_and_write yt now updates) s (inl refl) (fetch_and_write-IsGuarded now updates s k))
  ]
