-- ===== src/Queries/Shards.antt =====
-- The shards divide the rows among the jobs.
use yt_scheduler.Base.{ℕ, ◌<◌, ◌%◌, ◌≡◌, refl, some, List, In, arith}
use yt_scheduler.Base.Action.{ok}
use yt_scheduler.State.{TaskRunState, DagRunState}
use yt_scheduler.Rows.{
  TaskRunRow, DagRunRow, ShardingOptions, matches_task_run, matches_dag_run, in_shard,
}
use yt_scheduler.Yt.{YtClient, YtLaws, Session}
use yt_scheduler.Queries.{get_executable_task_runs_to_queue, get_scheduled_dag_runs_to_queue}

abbrev pub shard : ℕ → ℕ → ℕ → ShardingOptions
shard num_shards num_virtual_shards index = record {
  shard_index = index;
  num_shards = num_shards;
  num_virtual_shards = num_virtual_shards;
}

module _ {Db O : Type 0} (yt : YtClient Db) (laws : YtLaws yt) (n v : ℕ) (positive : 0 < n)
    (s : Session Db O) where
  -- A stored QUEUED task run is selected for exactly one of the `n` shards.
  pub get_executable-one_shard :
      (rows : ℕ → List TaskRunRow)
      → ((i : ℕ)
          → i < n
          → (get_executable_task_runs_to_queue yt (some (shard n v i)) s).0 ≡ ok (rows i))
      → (tr : TaskRunRow) → yt.task_run_at s.db tr.run_id ≡ some tr
      → tr.state ≡ TaskRunState.queued
      → (i : ℕ) × (i < n) × In tr (rows i) × ((j : ℕ) → j < n → In tr (rows j) → j ≡ i)
  unfolding matches_task_run in_shard
  get_executable-one_shard rows selected tr stored queued =
      let i = yt.farm_hash tr.run_id % v % n in
      let lt : i < n = omega arith in
      (
        i,
        lt,
        laws.task_runs_complete _ s.db (rows i) tr (selected i lt) refl stored
            (ground (arith, queued)),
        λ j lt' m.
            let (_, test) = laws.task_runs_sound _ s.db (rows j) tr (selected j lt') m in
            ground arith,
      )

  -- The same for SCHEDULED runs of DAGs.
  pub get_scheduled-one_shard :
      (rows : ℕ → List DagRunRow)
      → ((i : ℕ)
          → i < n
          → (get_scheduled_dag_runs_to_queue yt (some (shard n v i)) s).0 ≡ ok (rows i))
      → (run : DagRunRow) → yt.dag_run_at s.db run.run_id ≡ some run
      → run.state ≡ DagRunState.scheduled
      → (i : ℕ) × (i < n) × In run (rows i) × ((j : ℕ) → j < n → In run (rows j) → j ≡ i)
  unfolding matches_dag_run in_shard
  get_scheduled-one_shard rows selected run stored waits =
      let i = yt.farm_hash run.run_id % v % n in
      let lt : i < n = omega arith in
      (
        i,
        lt,
        laws.dag_runs_complete _ s.db (rows i) run (selected i lt) refl stored
            (ground (arith, waits)),
        λ j lt' m.
            let (_, test) = laws.dag_runs_sound _ s.db (rows j) run (selected j lt') m in
            ground arith,
      )
