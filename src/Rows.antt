-- ===== src/Rows.antt =====
-- The rows of the tables of task runs and DAG runs, and the conditions on columns with which the
-- program selects and checks rows (taskrun.py, dagrun.py, rows_helpers.py, scheduler.py).
use yt_scheduler.Base.{
  ℕ, ◌%◌, String, Bool, true, false, ◌&&◌, Option, none, some, List, any, ◌==◌, nat_eq,
}
use yt_scheduler.State.{TaskRunState, DagRunState, same_task_run, same_dag_run}

pub record TaskRunRow : Type 0 where
  pub run_id : String
  pub task_id : String
  pub dag_id : String
  pub dagrun_id : String
  pub state : TaskRunState
  pub operation_id : Option String
  pub scheduled_at : Option String
  pub queued_at : Option String
  pub start_date : Option String
  pub end_date : Option String

pub record DagRunRow : Type 0 where
  pub run_id : String
  pub dag_id : String
  pub state : DagRunState
  pub scheduled_at : Option String
  pub queued_at : Option String
  pub start_date : Option String
  pub end_date : Option String

pub record ShardingOptions : Type 0 where
  pub shard_index : ℕ
  pub num_shards : ℕ
  pub num_virtual_shards : ℕ

-- The value that a caller gives for a column: `None`, one value, or a list or tuple.
pub data Condition (A : Type 0) : Type 0 where
  anything : Condition A
  equals : A → Condition A
  among : List A → Condition A

-- `col = value` and `col in (values)` of a where clause; a column given as `None` has no clause.
abbrev pub holds : {A : Type 0} → (A → A → Bool) → Condition A → A → Bool
holds same anything a = true
holds same (equals v) a = same a v
holds same (among vs) a = any (λ v. same v a) vs

-- The same on a column that may be NULL, which equals no value.
abbrev pub holds_optional : Condition String → Option String → Bool
holds_optional anything o = true
holds_optional c none = false
holds_optional c (some a) = holds (λ a b. a == b) c a

-- What `fetch_rows` of `TaskRun` hands to `make_formatted_select`.
pub record TaskRunQuery : Type 0 where
  pub run_id : Condition String
  pub task_id : Condition String
  pub dag_id : Condition String
  pub dagrun_id : Condition String
  pub state : Condition TaskRunState
  pub operation_id : Condition String
  pub limit : Option ℕ
  pub shard : Option ShardingOptions

pub record DagRunQuery : Type 0 where
  pub run_id : Condition String
  pub dag_id : Condition String
  pub state : Condition DagRunState
  pub limit : Option ℕ
  pub shard : Option ShardingOptions

abbrev pub any_task_run : TaskRunQuery
any_task_run = record {
  run_id = anything;
  task_id = anything;
  dag_id = anything;
  dagrun_id = anything;
  state = anything;
  operation_id = anything;
  limit = none;
  shard = none;
}

abbrev pub any_dag_run : DagRunQuery
any_dag_run = record {
  run_id = anything;
  dag_id = anything;
  state = anything;
  limit = none;
  shard = none;
}

-- `farm_hash` is the query language's hash function.
module _ (farm_hash : String → ℕ) where
  -- (farm_hash(key) % num_virtual_shards) % num_shards = shard_index
  unfoldable pub in_shard : Option ShardingOptions → String → Bool
  in_shard none key = true
  in_shard (some s) key = nat_eq (farm_hash key % s.num_virtual_shards % s.num_shards) s.shard_index

  -- The where clause of the query: its conditions joined by `and`.
  unfoldable pub matches_task_run : TaskRunQuery → TaskRunRow → Bool
  matches_task_run q r =
      holds (λ a b. a == b) q.run_id r.run_id
      && holds (λ a b. a == b) q.task_id r.task_id
      && holds (λ a b. a == b) q.dag_id r.dag_id
      && holds (λ a b. a == b) q.dagrun_id r.dagrun_id
      && holds same_task_run q.state r.state
      && holds_optional q.operation_id r.operation_id
      && in_shard q.shard r.run_id

  unfoldable pub matches_dag_run : DagRunQuery → DagRunRow → Bool
  matches_dag_run q r =
      holds (λ a b. a == b) q.run_id r.run_id
      && holds (λ a b. a == b) q.dag_id r.dag_id
      && holds same_dag_run q.state r.state
      && in_shard q.shard r.run_id
