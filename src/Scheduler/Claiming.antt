-- ===== src/Scheduler/Claiming.antt =====
-- scheduler.py: the round that makes runs for new DAGs, from `_create_dagruns_for_dags` to
-- `_loop_iter`, and the callback of `_queue_scheduled_dagruns`.
pub mod Split
pub mod Reread
pub mod Marked
pub mod Counted
use yt_scheduler.Base.{ℕ, ◌+◌, String, true, false, Bool, Option, none, some, List, [], ◌∷◌, assign}
use yt_scheduler.Base.Action.{
  Result, ok, err, Action, pure, raise, dag_initialization, attribute_error, ◌>>=◌, ◌>>◌,
}
use yt_scheduler.Rows.{DagRunRow, ShardingOptions}
use yt_scheduler.HandleExceptions.{no_options}
use yt_scheduler.Retrier.{RetryOptions, init, run}
use yt_scheduler.Scheduler.{Services, Scheduling, outside, cached, get_dag, find_dag}

-- A row of `dags_needing_dagruns`: the reference, and the id of the meta, which a DAG that was never
-- submitted has not.
abbrev pub Needing : Type 0 → Type 0
Needing R = R × Option String

-- What the round calls besides. `submit_invalid` hands `_try_set_metas_invalid` to the pool with its
-- callback, `submit_queue` a run that is to be queued.
pub record Claims (W R D : Type 0) : Type 0 where
  pub dags_needing_dagruns : ShardingOptions → Action W (List (Needing R))
  pub create_dag_runs_atomic : List (Option String) → Action W ℕ
  pub set_invalid_meta : List (Option String) → Action W (Unit {0})
  pub submit_invalid : List (Needing R) → Action W (Unit {0})
  pub submit_queue : DagRunRow → D → Action W (Unit {0})

-- `determine_shard_options`, by what `compute_shard_index` gives
abbrev pub determine_shard_options : ℕ → Result (ℕ × ℕ) → ShardingOptions
determine_shard_options num_virtual_shards (ok (index, num_shards)) = record {
  shard_index = index;
  num_shards = num_shards;
  num_virtual_shards = num_virtual_shards;
}
determine_shard_options num_virtual_shards (err e) = record {
  shard_index = 0;
  num_shards = 1;
  num_virtual_shards = num_virtual_shards;
}

module _ {W R D : Type 0} (services : Services W R D) (claims : Claims W R D) where
  -- `target_metas` and `invalid_rows`
  abbrev pub Targets : Type 0
  Targets = List (Option String) × List (Needing R)

  abbrev pub place : Needing R → Option D → Targets → Targets
  place row (some dag) rest = (row.1 ∷ rest.0, rest.1)
  place row none rest = (rest.0, row ∷ rest.1)

  unfoldable pub split_rows : List (Needing R) → Action (Scheduling W D) Targets
  unfolding get_dag
  split_rows [] = pure ([], [])
  split_rows (row ∷ rows) =
      get_dag services (some row.0)
      >>= (λ dag. split_rows rows >>= (λ rest. pure (place row dag rest)))

  abbrev pub create : List (Option String) → Action (Scheduling W D) ℕ
  create [] = pure 0
  create (id ∷ ids) = outside services (claims.create_dag_runs_atomic (id ∷ ids))

  -- `_try_claim_dagruns`
  unfoldable pub try_claim_dagruns : ShardingOptions → Action (Scheduling W D) ℕ
  unfolding split_rows
  try_claim_dagruns shard =
      outside services (claims.dags_needing_dagruns shard)
      >>= split_rows
      >>= (λ targets. outside services (claims.submit_invalid targets.1) >> create targets.0)

  -- `_try_get_dag`
  abbrev pub try_get_dag : R → Action (Scheduling W D) Bool
  try_get_dag ref s =
      let (read, w) = services.from_serialized_repr ref s.world in
      elim read [
        | ok dag ↦ (ok true, cached services ref dag w s)
        | err e ↦ (err e, record s { world = w })
      ]

  abbrev pub add_invalid : Bool → Option String → List (Option String) → List (Option String)
  add_invalid true id ids = ids
  add_invalid false id ids = id ∷ ids

  abbrev pub get_dag_options : RetryOptions Bool
  get_dag_options = record no_options {
    exceptions = some (dag_initialization ∷ []);
    retries = some 1;
    raise_on_exhaust = some false;
    on_exhaust = some (λ e. false);
  }

  module _ (now : Scheduling W D → ℕ) (sleep : ℕ → Scheduling W D → Scheduling W D) where
    -- get_dag_retrier.run(lambda: _try_get_dag(try_ref=try_ref))
    unfoldable pub load_dag : ℕ → R → Scheduling W D → Option (Result Bool × Scheduling W D)
    unfolding init run
    load_dag fuel ref s = elim (init get_dag_options) [
      | err e ↦ some (err e, s)
      | ok r ↦ run now sleep false r fuel (try_get_dag ref) s
    ]

    -- `_try_set_metas_invalid`, with the retrier's fuel
    unfoldable pub try_set_metas_invalid :
        ℕ
        → List (Needing R)
        → Scheduling W D
        → Option (Result (List (Option String)) × Scheduling W D)
    unfolding load_dag
    try_set_metas_invalid fuel [] s = some (ok [], s)
    try_set_metas_invalid fuel (row ∷ rows) s = elim (load_dag fuel row.0 s) [
      | none ↦ none
      | some (loaded, s') ↦ elim loaded [
        | err e ↦ some (err e, s')
        | ok dag_loaded ↦ elim (try_set_metas_invalid fuel rows s') [
          | none ↦ none
          | some (rest, s'') ↦ elim rest [
            | err e ↦ some (err e, s'')
            | ok ids ↦ some (ok (add_invalid dag_loaded row.1 ids), s'')
          ]
        ]
      ]
    ]

  -- `_on_complete_set_invalid`, by the outcome of the promise
  abbrev pub complete_set_invalid :
      Result (List (Option String)) → Action (Scheduling W D) (Unit {0})
  complete_set_invalid (ok invalid_metas) = outside services (claims.set_invalid_meta invalid_metas)
  complete_set_invalid (err e) = raise e

  abbrev pub submit_found : DagRunRow → Option D → Action (Scheduling W D) (Unit {0})
  submit_found dag_run none = raise attribute_error
  submit_found dag_run (some dag) = outside services (claims.submit_queue dag_run dag)

  -- The callback of `_queue_scheduled_dagruns`, with the same warning as `examine`.
  unfoldable pub queue_dag_runs : List DagRunRow → Action (Scheduling W D) (Unit {0})
  queue_dag_runs [] = pure tt
  queue_dag_runs (dag_run ∷ dag_runs) =
      find_dag services dag_run >>= submit_found dag_run >> queue_dag_runs dag_runs

-- `_created_dagruns_since_last_tick` after `_on_complete_inc`, by the outcome of the promise
abbrev pub on_complete_inc : Result ℕ → ℕ → ℕ
on_complete_inc (ok res) created = created + res
on_complete_inc (err e) created = created

-- The end of `_loop_iter`: what it returns, and the counter behind it.
abbrev pub take_created : ℕ → ℕ × ℕ
take_created created = (created, 0)
