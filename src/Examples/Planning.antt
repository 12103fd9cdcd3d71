-- ===== src/Examples/Planning.antt =====
-- A round of the scheduler over two metas, of which the DAG of one cannot be read.
use yt_scheduler.Base.{ℕ, ◌+◌, String, some, [], ◌∷◌, ◌==◌, if◌then◌else◌}
use yt_scheduler.Base.Action.{ok, err, dag_initialization}
use yt_scheduler.Rows.{ShardingOptions}
use yt_scheduler.Scheduler.{Services, Scheduling}
use yt_scheduler.Scheduler.Claiming.{Claims}

abbrev services : Services ℕ String String
services = record {
  get_dag_ref = λ k w. (ok (some k), w);
  dag_id = λ ref. ref;
  from_serialized_repr = λ ref w. (if ref == "broken" then err dag_initialization else ok ref, w);
  update_state = λ dag r w. (ok [], w);
  schedule_trs = λ k ids w. (ok 1, w);
}

-- The world counts what is written or handed to the pool.
abbrev claims : Claims ℕ String String
claims = record {
  dags_needing_dagruns = λ shard w. (ok (("d", some "m1") ∷ ("broken", some "m2") ∷ []), w);
  create_dag_runs_atomic = λ ids w. (ok 1, w + 1);
  set_invalid_meta = λ ids w. (ok tt, w + 1);
  submit_invalid = λ rows w. (ok tt, w + 1);
  submit_queue = λ r dag w. (ok tt, w + 1);
}

abbrev shard : ShardingOptions
shard = record { shard_index = 0; num_shards = 1; num_virtual_shards = 500 }

abbrev empty : Scheduling ℕ String
empty = record { world = 0; dag_cache = [] }

abbrev clock : Scheduling ℕ String → ℕ
clock s = s.world

abbrev wait : ℕ → Scheduling ℕ String → Scheduling ℕ String
wait b s = s
