-- ===== src/DagRef.antt =====
-- dagref.py: the tables of DAGs, of their tasks and of the submissions of DAGs ("metas"), with the
-- queries for the metas that no run has been made for. What the program uses of the YT client on
-- these tables is a second record beside `YtClient`.
pub mod Claim
pub mod Claimed
pub mod Once
pub mod Model
pub mod Add
pub mod Added
pub mod Tasks
pub mod Content
use yt_scheduler.Base.{
  String, Bool, false, ◌&&◌, Option, none, some, List, [], ◌∷◌, In, contains, ◌≡◌, ◌==◌, ℕ, ◌<◌,
  ◌≤◌, length, true, if◌then◌else◌,
}
use yt_scheduler.Base.Action.{Result, ok, err, Action, pure}
use yt_scheduler.Rows.{TaskRunRow, DagRunRow, ShardingOptions, in_shard}
use yt_scheduler.Yt.{YtClient, Session, or_stored, written}

pub record DagMetaRow : Type 0 where
  pub id : Option String
  pub dag_id : String
  pub created_at : String
  pub run_id : Option String

pub record TaskRefRow : Type 0 where
  pub dag_id : String
  pub task_id : String
  pub serialized_repr : String
  pub payload_hash : String
  pub created_at : String

pub record DagRefRow : Type 0 where
  pub dag_id : String
  pub serialized_repr : String
  pub payload_hash : String
  pub created_at : String

-- A row of the left join of DAGs and metas: the columns of the DAG, and those of the meta that the
-- DAG has not. They are NULL for a DAG without metas.
pub record Joined : Type 0 where
  pub ref : DagRefRow
  pub id : Option String
  pub run_id : Option String

-- What `dags_needing_dagruns` and `dags_needing_dagruns_of_metas` ask for.
pub data Unclaimed : Type 0 where
  of_shard : ShardingOptions → Unclaimed
  of_metas : List String → Unclaimed

abbrev pub is_null : Option String → Bool
is_null none = true
is_null (some a) = false

-- col = k, col in (ks)
abbrev pub is_id : String → Option String → Bool
is_id k none = false
is_id k (some j) = j == k

abbrev pub is_listed : List String → Option String → Bool
is_listed ks none = false
is_listed ks (some j) = contains j ks

-- The where clauses of the two queries.
unfoldable pub matches : (String → ℕ) → Unclaimed → Joined → Bool
unfolding in_shard
matches farm_hash (of_shard shard) j =
    is_null j.run_id && in_shard farm_hash (some shard) j.ref.dag_id
matches farm_hash (of_metas ids) j = is_listed ids j.id && is_null j.run_id

-- The last of the rows that pass the test.
abbrev pub last_where : {R : Type 0} → (R → Bool) → List R → Option R
last_where p [] = none
last_where p (r ∷ rs) = elim (last_where p rs) [
  | some later ↦ some later
  | none ↦ if p r then some r else none
]

abbrev pub find_meta : String → List DagMetaRow → Option DagMetaRow
find_meta k = last_where (λ m. is_id k m.id)

abbrev pub find_ref : String → List DagRefRow → Option DagRefRow
find_ref k = last_where (λ r. r.dag_id == k)

abbrev pub find_task_ref : String → String → List TaskRefRow → Option TaskRefRow
find_task_ref k t = last_where (λ r. r.dag_id == k && r.task_id == t)

-- `select_refs` gives the DAGs with the payload hash, at most so many; the last three functions read
-- a row by its key.
pub record RefClient (Db : Type 0) : Type 0 where
  pub select_unclaimed : Unclaimed → Db → Result (List Joined)
  pub select_refs : String → ℕ → Db → Result (List DagRefRow)
  pub insert_metas : List DagMetaRow → Db → Result Db
  pub insert_refs : List DagRefRow → Db → Result Db
  pub insert_task_refs : List TaskRefRow → Db → Result Db
  pub meta_at : Db → String → Option DagMetaRow
  pub ref_at : Db → String → Option DagRefRow
  pub task_ref_at : Db → String → String → Option TaskRefRow

module _ {Db : Type 0} (refs : RefClient Db) where
  -- The meta of a joined row, if it has one, is stored.
  abbrev pub IsJoined : Db → Joined → Type 0
  IsJoined db j =
      (k : String)
      → j.id ≡ some k
      → (m : DagMetaRow) × (refs.meta_at db k ≡ some m)
        × (m.dag_id ≡ j.ref.dag_id)
        × (m.run_id ≡ j.run_id)

  -- Tables that hold the same DAGs, tasks, metas and runs but for what is named.
  abbrev pub SameMetas : Db → Db → Type 0
  SameMetas db db' = (k : String) → refs.meta_at db' k ≡ refs.meta_at db k

  abbrev pub SameRefs : Db → Db → Type 0
  SameRefs db db' = (k : String) → refs.ref_at db' k ≡ refs.ref_at db k

  abbrev pub SameTaskRefs : Db → Db → Type 0
  SameTaskRefs db db' = (k t : String) → refs.task_ref_at db' k t ≡ refs.task_ref_at db k t

  module _ (yt : YtClient Db) where
    abbrev pub SameRuns : Db → Db → Type 0
    SameRuns db db' = (k : String) → yt.dag_run_at db' k ≡ yt.dag_run_at db k

    pub record RefLaws : Type 0 where
      -- A selected row joins stored rows and meets the where clause.
      pub unclaimed_sound :
          (q : Unclaimed) (db : Db) (rows : List Joined) (j : Joined)
          → refs.select_unclaimed q db ≡ ok rows
          → In j rows
          → (refs.ref_at db j.ref.dag_id ≡ some j.ref)
            × IsJoined db j
            × (matches yt.farm_hash q j ≡ true)
      -- Every meta of a stored DAG that meets the where clause is selected with it.
      pub unclaimed_complete :
          (q : Unclaimed) (db : Db) (rows : List Joined) (r : DagRefRow) (k : String)
          (m : DagMetaRow)
          → let j : Joined = record { ref = r; id = some k; run_id = m.run_id } in
            refs.select_unclaimed q db ≡ ok rows
            → refs.ref_at db m.dag_id ≡ some r
            → refs.meta_at db k ≡ some m
            → matches yt.farm_hash q j ≡ true
            → In j rows
      pub refs_sound :
          (h : String) (n : ℕ) (db : Db) (rows : List DagRefRow) (r : DagRefRow)
          → refs.select_refs h n db ≡ ok rows
          → In r rows
          → (refs.ref_at db r.dag_id ≡ some r) × (r.payload_hash ≡ h)
      -- A limit of at least 1 leaves a row, if there is one, and no more than it says.
      pub refs_limited :
          (h : String) (n : ℕ) (db : Db) (k : String) (r : DagRefRow)
          → refs.select_refs h n db ≡ ok []
          → refs.ref_at db k ≡ some r
          → r.payload_hash ≡ h
          → ⊥
      pub refs_at_most :
          (h : String) (n : ℕ) (db : Db) (rows : List DagRefRow)
          → refs.select_refs h n db ≡ ok rows
          → 0 < n
          → length rows ≤ n
      -- A row is stored under its own key.
      pub ref_key :
          (db : Db) (k : String) (r : DagRefRow) → refs.ref_at db k ≡ some r → r.dag_id ≡ k
      pub meta_key :
          (db : Db) (k : String) (m : DagMetaRow) → refs.meta_at db k ≡ some m → m.id ≡ some k
      -- `insert_rows(…, update=True)` writes the given rows over those with the same keys, and
      -- changes nothing else.
      pub metas_written :
          (rows : List DagMetaRow) (db db' : Db)
          → refs.insert_metas rows db ≡ ok db'
          → ((k : String) → refs.meta_at db' k ≡ or_stored (find_meta k rows) (refs.meta_at db k))
            × SameRefs db db'
            × SameTaskRefs db db'
            × SameRuns db db'
      pub refs_written :
          (rows : List DagRefRow) (db db' : Db)
          → refs.insert_refs rows db ≡ ok db'
          → ((k : String) → refs.ref_at db' k ≡ or_stored (find_ref k rows) (refs.ref_at db k))
            × SameMetas db db'
            × SameTaskRefs db db'
            × SameRuns db db'
      pub task_refs_written :
          (rows : List TaskRefRow) (db db' : Db)
          → refs.insert_task_refs rows db ≡ ok db'
          → ((k t : String)
              → refs.task_ref_at db' k t
                ≡ or_stored (find_task_ref k t rows) (refs.task_ref_at db k t))
            × SameMetas db db'
            × SameRefs db db'
            × SameRuns db db'
      pub runs_written :
          (rows : List DagRunRow) (db db' : Db)
          → yt.insert_dag_runs rows db ≡ ok db'
          → SameMetas db db' × SameRefs db db' × SameTaskRefs db db'

  -- `dags_needing_dagruns`
  unfoldable pub dags_needing_dagruns :
      {O : Type 0} → ShardingOptions → Action (Session Db O) (List Joined)
  dags_needing_dagruns shard s = (refs.select_unclaimed (of_shard shard) s.db, s)

  -- `dags_needing_dagruns_of_metas`
  unfoldable pub dags_needing_dagruns_of_metas :
      {O : Type 0} → List String → Action (Session Db O) (List Joined)
  dags_needing_dagruns_of_metas [] = pure []
  dags_needing_dagruns_of_metas (k ∷ ks) = λ s. (refs.select_unclaimed (of_metas (k ∷ ks)) s.db, s)

module _ {Db : Type 0} (yt : YtClient Db) (refs : RefClient Db) where
  -- `upsert_rows` of `DagMeta`, `DagRef` and `TaskRef`
  abbrev pub upsert_metas : {O : Type 0} → List DagMetaRow → Action (Session Db O) (Unit {0})
  upsert_metas rows s = written yt (refs.insert_metas rows s.db) s

  abbrev pub upsert_refs : {O : Type 0} → List DagRefRow → Action (Session Db O) (Unit {0})
  upsert_refs rows s = written yt (refs.insert_refs rows s.db) s

  abbrev pub upsert_task_refs : {O : Type 0} → List TaskRefRow → Action (Session Db O) (Unit {0})
  upsert_task_refs rows s = written yt (refs.insert_task_refs rows s.db) s
