-- ===== src/Examples/Data.antt =====
-- A DAG of two tasks, one run of it with the task runs `a`, `b` and `c`, and a clock.
use yt_scheduler.Base.{
  ◌≢◌, sym, ◌∙◌, inl, inr, ℕ, zero, suc, String, ◌≡◌, refl, ap, none, some, List, [], ◌∷◌,
}
use text.Mathlib.TextLemmas.{nil≢cons, cons≢nil, tail-eq_of_cons-eq}
use yt_scheduler.Base.Action.{err, lock_conflict}
use yt_scheduler.State.{TaskRunState, DagRunState}
use yt_scheduler.Rows.{TaskRunRow, DagRunRow}
use yt_scheduler.Yt.{YtClient, YtLaws, Session}
use yt_scheduler.Yt.Model.{Tables, client, client-YtLaws}
use yt_scheduler.Dag.{Task, Dag, IsKeyed}

abbrev pub clock : ℕ → String
clock i = "now"

-- Generated ids: texts of growing length.
abbrev pub uuid : ℕ → String
uuid zero = String.[]
uuid (suc i) = String.◌∷◌ "x" (uuid i)

abbrev pub farm : YtClient Tables
farm = client (λ k. 0)

pub farm-YtLaws : YtLaws farm
farm-YtLaws = client-YtLaws (λ k. 0)

abbrev pub first : Task
first = record {
  task_id = "first";
  dag_id = "d";
  preceding_task_ids = [];
  succeeding_task_ids = "second" ∷ [];
  input_table_paths = "//in" ∷ [];
  output_table_paths = "//mid" ∷ [];
}

abbrev pub second : Task
second = record {
  task_id = "second";
  dag_id = "d";
  preceding_task_ids = "first" ∷ [];
  succeeding_task_ids = [];
  input_table_paths = "//mid" ∷ [];
  output_table_paths = "//out" ∷ [];
}

abbrev pub two_tasks : Dag
two_tasks = record { dag_id = "d"; tasks = first ∷ second ∷ [] }

abbrev pub task_run : String → String → TaskRunState → TaskRunRow
task_run run_id task_id state = record {
  run_id = run_id;
  task_id = task_id;
  dag_id = "d";
  dagrun_id = "r";
  state = state;
  operation_id = none;
  scheduled_at = some "then";
  queued_at = some "then";
  start_date = none;
  end_date = none;
}

abbrev pub waiting : TaskRunRow
waiting = task_run "b" "second" TaskRunState.scheduled

abbrev pub broken : TaskRunRow
broken = record (task_run "a" "first" TaskRunState.failed) {
  start_date = some "then";
  end_date = some "then";
}

abbrev pub done : TaskRunRow
done = record (task_run "a" "first" TaskRunState.success) {
  start_date = some "then";
  end_date = some "then";
}

abbrev pub run : DagRunState → DagRunRow
run state = record {
  run_id = "r";
  dag_id = "d";
  state = state;
  scheduled_at = some "then";
  queued_at = none;
  start_date = none;
  end_date = none;
}

abbrev pub running : DagRunRow
running = record (run DagRunState.running) { queued_at = some "then"; start_date = some "then" }

-- The session of a run's object over tables with the given task runs.
abbrev pub session : DagRunRow → List TaskRunRow → Session Tables DagRunRow
session r rows = record {
  db = record { task_runs = rows; dag_runs = r ∷ []; metas = []; dag_refs = []; task_refs = [] };
  self = r;
}

pub uuid_injective : (i j : ℕ) → uuid i ≡ uuid j → i ≡ j
uuid_injective zero zero h = refl
uuid_injective zero (suc j) h = absurd (nil≢cons h)
uuid_injective (suc i) zero h = absurd (cons≢nil h)
uuid_injective (suc i) (suc j) h = ap suc (uuid_injective i j (tail-eq_of_cons-eq h))

-- The same tables, with rows that another transaction holds.
abbrev pub locked : YtClient Tables
locked = record farm {
  insert_task_runs = λ rows db. err lock_conflict;
  insert_dag_runs = λ rows db. err lock_conflict;
}

pub locked-YtLaws : YtLaws locked
locked-YtLaws = record {
  task_runs_sound = farm-YtLaws.task_runs_sound;
  task_runs_complete = farm-YtLaws.task_runs_complete;
  dag_runs_sound = farm-YtLaws.dag_runs_sound;
  dag_runs_complete = farm-YtLaws.dag_runs_complete;
  dag_runs_limited = farm-YtLaws.dag_runs_limited;
  dag_runs_at_most = farm-YtLaws.dag_runs_at_most;
  task_run_key = farm-YtLaws.task_run_key;
  dag_run_key = farm-YtLaws.dag_run_key;
  insert_task_runs_at = λ rows db db' k e. cc;
  insert_task_runs_frame = λ rows db db' k e. cc;
  insert_dag_runs_at = λ rows db db' k e. cc;
  insert_dag_runs_frame = λ rows db db' k e. cc;
  commit_ok = farm-YtLaws.commit_ok;
  commit_err = farm-YtLaws.commit_err;
  abort_restores = farm-YtLaws.abort_restores;
}

pub pair-IsKeyed :
    (dag_id : String) (a b : Task)
    → a.task_id ≢ b.task_id
    → IsKeyed (record { dag_id = dag_id; tasks = a ∷ b ∷ [] })
pair-IsKeyed dag_id a b apart x y (inl e) (inl e') h = e ∙ sym e'
pair-IsKeyed dag_id a b apart x y (inr (inl e)) (inr (inl e')) h = e ∙ sym e'
pair-IsKeyed dag_id a b apart x y (inl e) (inr (inl e')) h =
    absurd (apart (ap (λ (t : Task). t.task_id) (sym e) ∙ h ∙ ap (λ (t : Task). t.task_id) e'))
pair-IsKeyed dag_id a b apart x y (inr (inl e)) (inl e') h =
    absurd (apart (ap (λ (t : Task). t.task_id) (sym e') ∙ sym h ∙ ap (λ (t : Task). t.task_id) e))
pair-IsKeyed dag_id a b apart x y (inr (inr m)) _ h = absurd m
pair-IsKeyed dag_id a b apart x y (inl e) (inr (inr m)) h = absurd m
pair-IsKeyed dag_id a b apart x y (inr (inl e)) (inr (inr m)) h = absurd m
