-- ===== src/Scheduler.antt =====
-- scheduler.py: the loop over the runs of DAGs that are to be started or examined, with the cache
-- of DAGs.
pub mod Runs
pub mod Claiming
pub mod Rounds
use yt_scheduler.Base.{String, Option, none, some, List, [], ◌∷◌, lookup, assign, if◌then◌else◌}
use yt_scheduler.Base.{ℕ}
use yt_scheduler.Base.Action.{
  Result, ok, err, Action, pure, raise, same_error, dag_initialization, attribute_error, ◌>>=◌,
  ◌>>◌,
}
use yt_scheduler.Rows.{DagRunRow}

-- What the loop calls, on a world that it changes: the clients of references and runs, and
-- `DAG.from_serialized_repr`, which goes through the YT client and so may end in another way when it is
-- called again. `R` is the row of a reference, `D` a DAG.
pub record Services (W R D : Type 0) : Type 0 where
  pub get_dag_ref : String → Action W (Option R)
  pub dag_id : R → String
  pub from_serialized_repr : R → Action W D
  pub update_state : D → DagRunRow → Action W (List String)
  pub schedule_trs : String → List String → Action W ℕ

-- The world, and `_dag_cache`.
pub record Scheduling (W D : Type 0) : Type 0 where
  pub world : W
  pub dag_cache : List (String × D)

module _ {W R D : Type 0} (services : Services W R D) where
  -- A statement that leaves the cache alone.
  abbrev pub outside : {A : Type 0} → Action W A → Action (Scheduling W D) A
  outside m s = let (r, w) = m s.world in (r, record s { world = w })

  -- self._dag_cache[ref.dag_id] = dag, when the world has become `w`
  abbrev pub cached : R → D → W → Scheduling W D → Scheduling W D
  cached ref dag w s = record {
    world = w;
    dag_cache = assign (services.dag_id ref) dag s.dag_cache;
  }

  -- `_get_dag`
  unfoldable pub get_dag : Option R → Action (Scheduling W D) (Option D)
  get_dag none s = (ok none, s)
  get_dag (some ref) s = elim (lookup (services.dag_id ref) s.dag_cache) [
    | some dag ↦ (ok (some dag), s)
    | none ↦
        let (read, w) = services.from_serialized_repr ref s.world in
        elim read [
          | ok dag ↦ (ok (some dag), cached ref dag w s)
          | err e ↦
              let s' = record s { world = w } in
              if same_error e dag_initialization then (ok none, s') else (err e, s')
        ]
  ]

  -- self._get_dag(ref=DagRefClient.get(run.dag_id))
  abbrev pub find_dag : DagRunRow → Action (Scheduling W D) (Option D)
  find_dag run = outside (services.get_dag_ref run.dag_id) >>= get_dag

  abbrev pub schedule_ready : DagRunRow → List String → Action (Scheduling W D) (Unit {0})
  schedule_ready run [] = pure tt
  schedule_ready run (tid ∷ tids) =
      outside (services.schedule_trs run.run_id (tid ∷ tids)) >> pure tt

  -- Without a DAG, the message of the warning reads `dag.dag_id` of `None`.
  abbrev pub examine : DagRunRow → Option D → Action (Scheduling W D) (Unit {0})
  examine run none = raise attribute_error
  examine run (some dag) = outside (services.update_state dag run) >>= schedule_ready run

  -- A round of the loop of `_schedule_dag_runs`
  abbrev pub schedule_run : DagRunRow → Action (Scheduling W D) (Unit {0})
  schedule_run run = find_dag run >>= examine run

  -- `_schedule_dag_runs`
  unfoldable pub schedule_dag_runs : List DagRunRow → Action (Scheduling W D) (Unit {0})
  unfolding get_dag
  schedule_dag_runs [] = pure tt
  schedule_dag_runs (run ∷ runs) = schedule_run run >> schedule_dag_runs runs
