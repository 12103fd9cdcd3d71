-- ===== src/DagRun/Queue.antt =====
-- `queue_run_atomic`: what queueing a run creates, and when it does nothing.
use yt_scheduler.Base.{
  ℕ, String, ◌≡◌, ◌≢◌, refl, sym, ◌∙◌, subst, inl, inr, true, Option, none, some, List, [], ◌∷◌, In,
  arith, map, ◌==◌, eq_iff, Bool-cases, if◌then◌else◌,
}
use yt_scheduler.Base.Action.{ok, ◌>>◌, Result-cases, >>=-eq-ok}
use yt_scheduler.State.{DagRunState, same_dag_run_iff}
use yt_scheduler.Rows.{
  TaskRunRow, DagRunRow, DagRunQuery, any_dag_run, equals, matches_dag_run, in_shard,
}
use yt_scheduler.Yt.{YtClient, YtLaws, Session, find_row, or_stored, select_task_runs}
use yt_scheduler.Yt.Transaction.{transaction_cases, transaction-inv}
use yt_scheduler.TaskRun.SetState.Direct.{IsWritten}
use yt_scheduler.Dag.{IsKeyed, Task, Dag}
use yt_scheduler.DagRun.{build_row_by_state}
use yt_scheduler.DagRun.Steps.{set_state-ok}
use yt_scheduler.DagRun.Create.{start_state}
use yt_scheduler.DagRun.Methods.{
  new_task_run, task_runs_to_create, single, is_scheduled, set_state, existing_query,
  create_and_queue, queue_run_body, queue_run_atomic, upsert_new,
}
use yt_scheduler.DagRun.ToCreate.{find-to_create, to_create_member}

single_member : {A : Type 0} (rows : List A) (r : A) → single rows ≡ some r → In r rows
single_member [] r h = cc
single_member (x ∷ []) r h = inl (cc)
single_member (x ∷ y ∷ rows) r h = cc

abbrev by_run_id : String → DagRunQuery
by_run_id k = record any_dag_run { run_id = equals k; limit = some 1 }

is_scheduled-some :
    (o : Option DagRunRow)
    → is_scheduled o ≡ true
    → (r : DagRunRow) × (o ≡ some r) × (r.state ≡ DagRunState.scheduled)
is_scheduled-some none h = cc
is_scheduled-some (some r) h = (r, refl, (same_dag_run_iff r.state DagRunState.scheduled).0 h)

module _ {Db : Type 0} (yt : YtClient Db) (laws : YtLaws yt) where
  -- What `DagRun.get` finds is stored under the id.
  get-stored :
      (k : String) (db : Db) (rows : List DagRunRow) (r : DagRunRow)
      → yt.select_dag_runs (by_run_id k) db ≡ ok rows
      → single rows ≡ some r
      → yt.dag_run_at db k ≡ some r
  unfolding matches_dag_run in_shard
  get-stored k db rows r read one =
      let (stored, test) =
        laws.dag_runs_sound (by_run_id k) db rows r read (single_member rows r one) in
      subst (λ j. yt.dag_run_at db j ≡ some r) ((eq_iff r.run_id k).0 (ground arith)) stored

  -- A stored run is what `DagRun.get` finds.
  single-stored :
      (k : String) (db : Db) (rows : List DagRunRow) (r : DagRunRow)
      → yt.select_dag_runs (by_run_id k) db ≡ ok rows
      → yt.dag_run_at db k ≡ some r
      → single rows ≡ some r
  unfolding matches_dag_run in_shard
  single-stored k db [] r read stored =
      let key = laws.dag_run_key db k r stored in
      absurd (
        laws.dag_runs_limited (by_run_id k) db r read
          (subst (λ j. yt.dag_run_at db j ≡ some r) (sym key) stored)
          (rw ((eq_iff r.run_id k).1 key)))
  single-stored k db (x ∷ []) r read stored = sym (get-stored k db (x ∷ []) x read refl) ∙ stored
  single-stored k db (x ∷ y ∷ rows) r read stored = absurd (
      omega
        (arith, laws.dag_runs_at_most (by_run_id k) db (x ∷ y ∷ rows) 1 read refl (omega arith)))

  body-skips :
      (uuid : ℕ → String) (now : String) (dag : Dag) (s : Session Db DagRunRow)
      → ((r : DagRunRow)
          → yt.dag_run_at s.db s.self.run_id ≡ some r
          → r.state ≢ DagRunState.scheduled)
      → (queue_run_body yt uuid now dag s).1.db ≡ s.db
  body-skips uuid now dag s other =
      elim (Result-cases (yt.select_dag_runs (by_run_id s.self.run_id) s.db)) [
        | inr (x, e) ↦ rw e
        | inl (rows, e) ↦ elim (Bool-cases (is_scheduled (single rows))) [
          | inr f ↦ rw (e, f)
          | inl t ↦
              let (r, one, state) = is_scheduled-some (single rows) t in
              absurd (other r (get-stored s.self.run_id s.db rows r e one) state)
        ]
      ]

  -- A run that is not stored as SCHEDULED is left alone: nothing is written.
  pub queue_run-skips :
      (uuid : ℕ → String) (now : String) (dag : Dag) (s : Session Db DagRunRow)
      → ((r : DagRunRow)
          → yt.dag_run_at s.db s.self.run_id ≡ some r
          → r.state ≢ DagRunState.scheduled)
      → (queue_run_atomic yt uuid now dag s).1.db ≡ s.db
  unfolding queue_run_atomic
  queue_run-skips uuid now dag s other =
      transaction-inv yt laws (λ db. db ≡ s.db) (queue_run_body yt uuid now dag) s refl
        (body-skips uuid now dag s other)

  upsert_new-IsWritten :
      (rows : List TaskRunRow) (s : Session Db DagRunRow) (t : Unit)
      → (upsert_new yt rows s).0 ≡ ok t
      → IsWritten yt rows s (upsert_new yt rows s).1
  upsert_new-IsWritten [] s t h = record {
    task_runs = λ k. refl;
    dag_runs = λ k. refl;
    self = refl;
  }
  upsert_new-IsWritten (r ∷ rs) s t h = elim (Result-cases (yt.insert_task_runs (r ∷ rs) s.db)) [
    | inl (db', e) ↦ rw e (record {
      task_runs = λ k. laws.insert_task_runs_at (r ∷ rs) s.db db' k e;
      dag_runs = λ k. laws.insert_task_runs_frame (r ∷ rs) s.db db' k e;
      self = refl;
    })
    | inr (x, e) ↦ absurd (cc (rw e at h))
  ]

module _ {Db : Type 0} (yt : YtClient Db) (laws : YtLaws yt) (uuid : ℕ → String) (now : String)
    (dag : Dag) (s : Session Db DagRunRow) (r : DagRunRow)
    (stored : yt.dag_run_at s.db s.self.run_id ≡ some r)
    (waits : r.state ≡ DagRunState.scheduled) where
  -- When the stored run is SCHEDULED, a successful call took the branch that creates task runs.
  create_taken :
      (queue_run_atomic yt uuid now dag s).0 ≡ ok tt
      → ((create_and_queue yt uuid now dag s).0 ≡ ok tt)
        × (queue_run_atomic yt uuid now dag s ≡ create_and_queue yt uuid now dag s)
  unfolding queue_run_atomic
  create_taken h = elim (transaction_cases yt laws (queue_run_body yt uuid now dag) s) [
    | inr (x, t) ↦ absurd (cc (rw t at h))
    | inl (a, done, t) ↦ elim (Result-cases (yt.select_dag_runs (by_run_id s.self.run_id) s.db)) [
      | inr (x, e) ↦ absurd (cc (rw e at done))
      | inl (rows, e) ↦
          let one = single-stored yt laws s.self.run_id s.db rows r e stored in
          let yes_scheduled : is_scheduled (some r) ≡ true =
            (same_dag_run_iff r.state DagRunState.scheduled).1 waits in
          let taken : queue_run_body yt uuid now dag s ≡ create_and_queue yt uuid now dag s =
            rw (e, one, yes_scheduled) in
          ((rw taken at done) ∙ (rw t at h), rw (t, ← done) taken)
    ]
  ]

  -- What it creates, and the row of the run.
  pub created :
      (queue_run_atomic yt uuid now dag s).0 ≡ ok tt
      → let s' = (queue_run_atomic yt uuid now dag s).1 in
        (existing : List TaskRunRow) × (yt.select_task_runs (existing_query yt s.self dag) s.db
          ≡ ok existing)
        × ((k : String)
            → yt.task_run_at s'.db k
              ≡ or_stored
                  (find_row (λ t. t.run_id) k (task_runs_to_create uuid s.self.run_id dag existing))
                  (yt.task_run_at s.db k))
        × ((k : String)
            → yt.dag_run_at s'.db k ≡ (
                if s.self.run_id == k
                then some (build_row_by_state now DagRunState.queued s.self)
                else yt.dag_run_at s.db k))
  created h =
      let (done, p) = create_taken h in
      let n = set_state yt now DagRunState.queued in
      let (existing, read, q) =
        >>=-eq-ok (select_task_runs yt (existing_query yt s.self dag))
          (λ x. upsert_new yt (task_runs_to_create uuid s.self.run_id dag x) >> n) s done in
      let m = upsert_new yt (task_runs_to_create uuid s.self.run_id dag existing) in
      let (t, put, q') = >>=-eq-ok m (λ _. n) s (rw q at done) in
      let w = upsert_new-IsWritten yt laws _ s t put in
      let (self, tasks, runs) =
        set_state-ok yt laws now DagRunState.queued (m s).1 tt (rw (q, q') at done) in
      (
        existing,
        read,
        λ k. rw (p, q, q') (tasks k ∙ w.task_runs k),
        λ k. rw (p, q, q') (runs k ∙ rw (w.self, w.dag_runs k)),
      )

module _ {Db : Type 0} (yt : YtClient Db) (laws : YtLaws yt) (uuid : ℕ → String) (now : String)
    (dag : Dag) (s : Session Db DagRunRow) (r : DagRunRow) (existing : List TaskRunRow) where
  -- When the stored run is SCHEDULED, a successful `queue_run_atomic` stores the run as QUEUED, and
  -- for every task of the DAG that has no task run among those that its query selects it stores a
  -- new task run of this run: QUEUED for a task with no upstream, SCHEDULED for the others. The
  -- generated ids are distinct, and no two tasks share an id.
  pub queue_run-creates :
      (t : Task)
      → yt.dag_run_at s.db s.self.run_id ≡ some r
      → r.state ≡ DagRunState.scheduled
      → (queue_run_atomic yt uuid now dag s).0 ≡ ok tt
      → yt.select_task_runs (existing_query yt s.self dag) s.db ≡ ok existing
      → ((i j : ℕ) → uuid i ≡ uuid j → i ≡ j)
      → IsKeyed dag
      → In t dag.tasks
      → ¬ In t.task_id (map (λ e. e.task_id) existing)
      → let db' = (queue_run_atomic yt uuid now dag s).1.db in
        (yt.dag_run_at db' s.self.run_id ≡ some (build_row_by_state now DagRunState.queued s.self))
        × ((u : String) × (yt.task_run_at db' u
              ≡ some (new_task_run u s.self.run_id (start_state t) t)))
  queue_run-creates t stored waits h read inj keyed m absent =
      let (existing', read', tasks, runs) = created yt laws uuid now dag s r stored waits h in
      let same : existing' ≡ existing = cc (read, read') in
      let (u, made) = to_create_member uuid inj s.self.run_id dag existing t keyed m absent in
      let w = new_task_run u s.self.run_id (start_state t) t in
      let found = find-to_create uuid inj s.self.run_id dag existing w made in
      (
        runs s.self.run_id ∙ rw ((eq_iff s.self.run_id s.self.run_id).1 refl),
        (u, tasks u ∙ rw (same, found)),
      )
