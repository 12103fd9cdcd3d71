-- ===== src/Examples/Scheduling.antt =====
-- The loop over the runs of DAGs: the DAG of the first run is there, that of the second is not.
use yt_scheduler.Base.{◌+◌, ℕ, String, ◌≡◌, refl, none, some, [], ◌∷◌, ◌==◌, if◌then◌else◌}
use yt_scheduler.Base.Action.{ok, err, attribute_error}
use yt_scheduler.Rows.{DagRunRow}
use yt_scheduler.Scheduler.{Services, Scheduling, get_dag, find_dag, schedule_dag_runs}
use yt_scheduler.Scheduler.Runs.{schedule_dag_runs-stops}
use yt_scheduler.Examples.Data.{running}

-- References and DAGs are texts; the world counts the updates.
abbrev services : Services ℕ String String
services = record {
  get_dag_ref = λ k w. (ok (if k == "d" then some k else none), w);
  dag_id = λ ref. ref;
  from_serialized_repr = λ ref w. (ok ref, w);
  update_state = λ dag r w. (ok ("b" ∷ []), w + 1);
  schedule_trs = λ k ids w. (ok 1, w);
}

abbrev lost : DagRunRow
lost = record running { run_id = "r2"; dag_id = "e" }

abbrev start : Scheduling ℕ String
start = record { world = 0; dag_cache = [] }

abbrev loaded : Scheduling ℕ String
loaded = record { world = 1; dag_cache = ("d", "d") ∷ [] }

handled : schedule_dag_runs services (running ∷ []) start ≡ (ok tt, loaded)
unfolding schedule_dag_runs get_dag
handled = refl

not_found : find_dag services lost loaded ≡ (ok none, loaded)
unfolding get_dag
not_found = refl

schedule_dag_runs-stops_example :
    schedule_dag_runs services (running ∷ lost ∷ running ∷ []) start ≡ (err attribute_error, loaded)
schedule_dag_runs-stops_example =
    schedule_dag_runs-stops services (running ∷ []) (running ∷ []) lost start loaded loaded handled
      not_found
