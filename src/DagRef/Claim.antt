-- ===== src/DagRef/Claim.antt =====
-- scheduler.py: `_create_dag_runs_atomic`, which makes a run for each meta that has none, and
-- `_set_invalid_meta`, which marks metas of DAGs that cannot be read. `clock i` is what the clock
-- shows and `uuid i` what is generated in the `i`-th round.
use Prim.Native.String.{◌++◌ as append}
use yt_scheduler.Base.{ℕ, suc, String, none, some, List, [], ◌∷◌, length}
use yt_scheduler.Base.Action.{Action, pure, ◌>>=◌, ◌>>◌}
use yt_scheduler.State.{DagRunState}
use yt_scheduler.Rows.{DagRunRow}
use yt_scheduler.Yt.{YtClient, Session, transaction, upsert_dag_runs}
use yt_scheduler.DagRef.{DagMetaRow, Joined, RefClient, dags_needing_dagruns_of_metas, upsert_metas}

-- DagRun(run_id=run_id, dag_id=dag_id, state=DagRunState.SCHEDULED)
abbrev pub new_dag_run : String → String → String → DagRunRow
new_dag_run now run_id dag_id = record {
  run_id = run_id;
  dag_id = dag_id;
  state = DagRunState.scheduled;
  scheduled_at = some now;
  queued_at = none;
  start_date = none;
  end_date = none;
}

-- `from_dict` of a joined row and `meta.run_id = run_id`; the joined row has the creation date of
-- the DAG, for that of the meta is left out as a duplicate.
abbrev pub meta_of : String → Joined → DagMetaRow
meta_of run_id j = record {
  id = j.id;
  dag_id = j.ref.dag_id;
  created_at = j.ref.created_at;
  run_id = some run_id;
}

-- `batched_metas` and `batched_runs`
abbrev pub batched_metas : (ℕ → String) → List Joined → List DagMetaRow
batched_metas uuid [] = []
batched_metas uuid (j ∷ js) = meta_of (uuid 0) j ∷ batched_metas (λ i. uuid (suc i)) js

abbrev pub batched_runs : (ℕ → String) → (ℕ → String) → List Joined → List DagRunRow
batched_runs clock uuid [] = []
batched_runs clock uuid (j ∷ js) =
    new_dag_run (clock 0) (uuid 0) j.ref.dag_id
    ∷ batched_runs (λ i. clock (suc i)) (λ i. uuid (suc i)) js

module _ {Db : Type 0} (yt : YtClient Db) (refs : RefClient Db) {O : Type 0} where
  unfoldable pub write_runs : (ℕ → String) → (ℕ → String) → List Joined → Action (Session Db O) ℕ
  write_runs clock uuid [] = pure 0
  write_runs clock uuid (j ∷ js) = do
    upsert_dag_runs yt (batched_runs clock uuid (j ∷ js))
    upsert_metas yt refs (batched_metas uuid (j ∷ js))
    pure (length (j ∷ js))

  abbrev pub create_body : (ℕ → String) → (ℕ → String) → List String → Action (Session Db O) ℕ
  create_body clock uuid metas = dags_needing_dagruns_of_metas refs metas >>= write_runs clock uuid

  -- `_create_dag_runs_atomic`
  unfoldable pub create_dag_runs_atomic :
      (ℕ → String) → (ℕ → String) → List String → Action (Session Db O) ℕ
  unfolding write_runs dags_needing_dagruns_of_metas
  create_dag_runs_atomic clock uuid metas = transaction yt (create_body clock uuid metas)

  unfoldable pub write_invalid : (ℕ → String) → List Joined → Action (Session Db O) (Unit {0})
  write_invalid mark [] = pure tt
  write_invalid mark (j ∷ js) = upsert_metas yt refs (batched_metas mark (j ∷ js))

  -- `_set_invalid_meta`
  unfoldable pub set_invalid_meta : (ℕ → String) → List String → Action (Session Db O) (Unit {0})
  unfolding write_invalid dags_needing_dagruns_of_metas
  set_invalid_meta clock invalid_metas = transaction yt (
      dags_needing_dagruns_of_metas refs invalid_metas
      >>= write_invalid (λ i. append "ERR:PARSING_FAILED:" (clock i)))
