-- ===== src/DagRun/Recreate.antt =====
-- `queue_run_atomic` on a run that has task runs already.
use yt_scheduler.Base.{
  ℕ, String, ◌≡◌, refl, sym, subst, inl, true, none, some, List, [], ◌∷◌, In, arith, map, eq_iff,
}
use yt_scheduler.Base.Action.{ok}
use yt_scheduler.State.{DagRunState}
use yt_scheduler.Rows.{TaskRunRow, DagRunRow, matches_task_run, in_shard}
use yt_scheduler.Yt.{YtClient, YtLaws, Session}
use yt_scheduler.Dag.{IsKeyed, Task, Dag}
use yt_scheduler.DagRun.Create.{start_state}
use yt_scheduler.DagRun.Methods.{new_task_run, existing_query, queue_run_atomic}
use yt_scheduler.DagRun.Queue.{queue_run-creates, created}

module _ {Db : Type 0} (yt : YtClient Db) (laws : YtLaws yt) (uuid : ℕ → String) (now : String)
    (dag : Dag) (s : Session Db DagRunRow) where
  keyed_by_run :
      (x : TaskRunRow)
      → matches_task_run yt.farm_hash (existing_query yt s.self dag) x ≡ true
      → x.run_id ≡ s.self.run_id
  unfolding matches_task_run in_shard
  keyed_by_run x test = (eq_iff x.run_id s.self.run_id).0 (ground arith)

  -- The query for existing task runs asks for the id of the run as the key of a task run: where no
  -- task run has that key it finds nothing, whatever task runs the run already has.
  existing_query-finds_none :
      (existing : List TaskRunRow)
      → yt.task_run_at s.db s.self.run_id ≡ none
      → yt.select_task_runs (existing_query yt s.self dag) s.db ≡ ok existing
      → existing ≡ []
  existing_query-finds_none existing absent read = nothing existing read
    where
      nothing :
          (rows : List TaskRunRow)
          → yt.select_task_runs (existing_query yt s.self dag) s.db ≡ ok rows
          → rows ≡ []
      nothing [] read = refl
      nothing (x ∷ rows) read =
          let (stored, test) = laws.task_runs_sound _ s.db (x ∷ rows) x read (inl refl) in
          let key = keyed_by_run x test in
          absurd (cc (absent, subst (λ j. yt.task_run_at s.db j ≡ some x) key stored))

  -- When the stored run is SCHEDULED, a successful `queue_run_atomic` stores a new task run of
  -- this run for every task of the DAG, also for a task that has one already, unless a task run's
  -- own id is the id of the run. The generated ids are distinct, and no two tasks share an id.
  pub queue_run-recreates :
      (r : DagRunRow) (t : Task)
      → yt.dag_run_at s.db s.self.run_id ≡ some r
      → r.state ≡ DagRunState.scheduled
      → (queue_run_atomic yt uuid now dag s).0 ≡ ok tt
      → yt.task_run_at s.db s.self.run_id ≡ none
      → ((i j : ℕ) → uuid i ≡ uuid j → i ≡ j)
      → IsKeyed dag
      → In t dag.tasks
      → (u : String) × (yt.task_run_at (queue_run_atomic yt uuid now dag s).1.db u
          ≡ some (new_task_run u s.self.run_id (start_state t) t))
  queue_run-recreates r t stored waits h free inj keyed m =
      let (existing, read, tasks, runs) = created yt laws uuid now dag s r stored waits h in
      let empty = existing_query-finds_none existing free read in
      (queue_run-creates yt laws uuid now dag s r existing t stored waits h read inj keyed m (
        subst (λ (l : List TaskRunRow). ¬ In t.task_id (map (λ e. e.task_id) l)) (sym empty)
          (λ x. x))).1
