-- ===== src/Yt.antt =====
-- The YT client that the program is given (the package `yt`, not part of this repository): tables
-- that are selected from, written by key, and written in transactions. Its operations are a
-- parameter of everything that uses them; `YtLaws` is what the program relies on. base_row.py and
-- yt_wrapper.py hand it to the callers.
pub mod Model
pub mod Lookup
pub mod Transaction
use yt_scheduler.Base.{
  ℕ, String, Bool, true, ◌≡◌, ◌≤◌, Option, none, some, List, [], length, ◌<◌, In, ◌==◌,
  if◌then◌else◌,
}
use yt_scheduler.Base.{◌∷◌}
use yt_scheduler.Base.Action.{Result, ok, err, Error, Action}
use yt_scheduler.Rows.{
  TaskRunRow, DagRunRow, TaskRunQuery, DagRunQuery, matches_task_run, matches_dag_run,
}

-- `{key(row): row for row in rows}.get(k)`
abbrev pub find_row : {R : Type 0} → (R → String) → String → List R → Option R
find_row key k [] = none
find_row key k (r ∷ rs) = elim (find_row key k rs) [
  | some later ↦ some later
  | none ↦ if key r == k then some r else none
]

abbrev pub find_task_run : String → List TaskRunRow → Option TaskRunRow
find_task_run = find_row (λ r. r.run_id)

abbrev pub find_dag_run : String → List DagRunRow → Option DagRunRow
find_dag_run = find_row (λ r. r.run_id)

abbrev pub or_stored {ℓ} : {A : Type ℓ} → Option A → Option A → Option A
or_stored (some written) stored = some written
or_stored none stored = stored

-- `Db` is all that the tables hold; the last two functions read a row by its key.
pub record YtClient (Db : Type 0) : Type 0 where
  pub farm_hash : String → ℕ
  pub select_task_runs : TaskRunQuery → Db → Result (List TaskRunRow)
  pub select_dag_runs : DagRunQuery → Db → Result (List DagRunRow)
  pub insert_task_runs : List TaskRunRow → Db → Result Db
  pub insert_dag_runs : List DagRunRow → Db → Result Db
  pub commit : Db → Db → Result (Unit {0}) × Db
  pub abort : Db → Db → Db
  pub task_run_at : Db → String → Option TaskRunRow
  pub dag_run_at : Db → String → Option DagRunRow

pub record YtLaws {Db : Type 0} (yt : YtClient Db) : Type 0 where
  -- A selected row is stored under its key and meets the where clause.
  pub task_runs_sound :
      (q : TaskRunQuery) (db : Db) (rows : List TaskRunRow) (r : TaskRunRow)
      → yt.select_task_runs q db ≡ ok rows
      → In r rows
      → (yt.task_run_at db r.run_id ≡ some r) × (matches_task_run yt.farm_hash q r ≡ true)
  -- Without a limit, every stored row that meets the where clause is selected.
  pub task_runs_complete :
      (q : TaskRunQuery) (db : Db) (rows : List TaskRunRow) (r : TaskRunRow)
      → yt.select_task_runs q db ≡ ok rows
      → q.limit ≡ none
      → yt.task_run_at db r.run_id ≡ some r
      → matches_task_run yt.farm_hash q r ≡ true
      → In r rows
  pub dag_runs_sound :
      (q : DagRunQuery) (db : Db) (rows : List DagRunRow) (r : DagRunRow)
      → yt.select_dag_runs q db ≡ ok rows
      → In r rows
      → (yt.dag_run_at db r.run_id ≡ some r) × (matches_dag_run yt.farm_hash q r ≡ true)
  pub dag_runs_complete :
      (q : DagRunQuery) (db : Db) (rows : List DagRunRow) (r : DagRunRow)
      → yt.select_dag_runs q db ≡ ok rows
      → q.limit ≡ none
      → yt.dag_run_at db r.run_id ≡ some r
      → matches_dag_run yt.farm_hash q r ≡ true
      → In r rows
  -- A limit leaves at least one row, if there is one, and no more than it says.
  pub dag_runs_limited :
      (q : DagRunQuery) (db : Db) (r : DagRunRow)
      → yt.select_dag_runs q db ≡ ok []
      → yt.dag_run_at db r.run_id ≡ some r
      → matches_dag_run yt.farm_hash q r ≡ true
      → ⊥
  pub dag_runs_at_most :
      (q : DagRunQuery) (db : Db) (rows : List DagRunRow) (n : ℕ)
      → yt.select_dag_runs q db ≡ ok rows
      → q.limit ≡ some n
      → 0 < n
      → length rows ≤ n
  -- A row is stored under its own key.
  pub task_run_key :
      (db : Db) (k : String) (r : TaskRunRow) → yt.task_run_at db k ≡ some r → r.run_id ≡ k
  pub dag_run_key :
      (db : Db) (k : String) (r : DagRunRow) → yt.dag_run_at db k ≡ some r → r.run_id ≡ k
  -- `insert_rows(…, update=True)` writes the given rows over those with the same keys, and
  -- changes nothing else.
  pub insert_task_runs_at :
      (rows : List TaskRunRow) (db db' : Db) (k : String)
      → yt.insert_task_runs rows db ≡ ok db'
      → yt.task_run_at db' k ≡ or_stored (find_task_run k rows) (yt.task_run_at db k)
  pub insert_task_runs_frame :
      (rows : List TaskRunRow) (db db' : Db) (k : String)
      → yt.insert_task_runs rows db ≡ ok db'
      → yt.dag_run_at db' k ≡ yt.dag_run_at db k
  pub insert_dag_runs_at :
      (rows : List DagRunRow) (db db' : Db) (k : String)
      → yt.insert_dag_runs rows db ≡ ok db'
      → yt.dag_run_at db' k ≡ or_stored (find_dag_run k rows) (yt.dag_run_at db k)
  pub insert_dag_runs_frame :
      (rows : List DagRunRow) (db db' : Db) (k : String)
      → yt.insert_dag_runs rows db ≡ ok db'
      → yt.task_run_at db' k ≡ yt.task_run_at db k
  -- A transaction is applied whole when its commit succeeds, and not at all otherwise.
  pub commit_ok :
      (before written : Db)
      → (yt.commit before written).0 ≡ ok tt
      → (yt.commit before written).1 ≡ written
  pub commit_err :
      (before written : Db) (e : Error)
      → (yt.commit before written).0 ≡ err e
      → (yt.commit before written).1 ≡ before
  pub abort_restores : (before written : Db) → yt.abort before written ≡ before

-- A program state that holds the tables and an object of the caller, which no abort restores.
pub record Session (Db O : Type 0) : Type 0 where
  pub db : Db
  pub self : O

module _ {Db : Type 0} (yt : YtClient Db) where
  abbrev pub finish : {O A : Type 0} → Db → Result A → Session Db O → Result A × Session Db O
  finish before (err e) s = (err e, record s { db = yt.abort before s.db })
  finish before (ok a) s =
      let (c, db') = yt.commit before s.db in
      elim c [ ok _ ↦ (ok a, record s { db = db' }) | err e ↦ (err e, record s { db = db' }) ]

  -- `with yt_client.Transaction(type="tablet"): body`
  abbrev pub transaction : {O A : Type 0} → Action (Session Db O) A → Action (Session Db O) A
  transaction body s = let (r, s') = body s in finish s.db r s'

  abbrev pub written : {O : Type 0} → Result Db → Session Db O → Result (Unit {0}) × Session Db O
  written (ok db') s = (ok tt, record s { db = db' })
  written (err e) s = (err e, s)

  abbrev pub select_task_runs :
      {O : Type 0} → TaskRunQuery → Action (Session Db O) (List TaskRunRow)
  select_task_runs q s = (yt.select_task_runs q s.db, s)

  abbrev pub select_dag_runs : {O : Type 0} → DagRunQuery → Action (Session Db O) (List DagRunRow)
  select_dag_runs q s = (yt.select_dag_runs q s.db, s)

  -- `upsert_rows` of `TaskRun`: it logs an exception and raises it again.
  abbrev pub upsert_task_runs : {O : Type 0} → List TaskRunRow → Action (Session Db O) (Unit {0})
  upsert_task_runs rows s = written (yt.insert_task_runs rows s.db) s

  abbrev pub upsert_dag_runs : {O : Type 0} → List DagRunRow → Action (Session Db O) (Unit {0})
  upsert_dag_runs rows s = written (yt.insert_dag_runs rows s.db) s
