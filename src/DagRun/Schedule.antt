-- ===== src/DagRun/Schedule.antt =====
-- `schedule_trs`: which task runs it queues.
use yt_scheduler.Base.{
  ℕ, String, ◌≡◌, refl, ap, ◌∙◌, subst, ◌⊎◌, inl, inr, true, none, some, List, [], ◌∷◌, length, In,
  arith, contains_iff, eq_iff,
}
use yt_scheduler.Base.Action.{ok, pure, ◌>>=◌, >>=-eq-ok}
use yt_scheduler.State.{TaskRunState, same_task_run_iff}
use yt_scheduler.Rows.{
  TaskRunRow, TaskRunQuery, any_task_run, among, equals, matches_task_run, in_shard,
}
use yt_scheduler.Yt.{YtClient, YtLaws, Session, select_task_runs}
use yt_scheduler.Yt.Lookup.{find_row-eq-some, find_row-ne-none}
use yt_scheduler.Yt.Transaction.{transaction_cases}
use yt_scheduler.TaskRun.{build_row}
use yt_scheduler.TaskRun.Lifecycle.{build_row-state}
use yt_scheduler.TaskRun.SetState.{write_batch}
use yt_scheduler.TaskRun.SetState.Direct.{
  restated, length-restated, IsWritten, find-restated, write_batch-ok, set_state-update_to,
}
use yt_scheduler.DagRun.Methods.{schedule_trs, schedule_trs_body, queue_rows}

abbrev pub scheduled_query : String → List String → TaskRunQuery
scheduled_query run_id tids = record any_task_run {
  run_id = among tids;
  dagrun_id = equals run_id;
  state = equals TaskRunState.scheduled;
}

-- A task run that `schedule_trs` is asked for: one of the given ids, of the run, SCHEDULED.
pub record IsAsked (run_id : String) (tids : List String) (r : TaskRunRow) : Type 0 where
  pub listed : In r.run_id tids
  pub of_run : r.dagrun_id ≡ run_id
  pub waits : r.state ≡ TaskRunState.scheduled

module _ (farm_hash : String → ℕ) (run_id : String) (tids : List String) (r : TaskRunRow) where
  matches-IsAsked :
      matches_task_run farm_hash (scheduled_query run_id tids) r ≡ true → IsAsked run_id tids r
  unfolding matches_task_run in_shard
  matches-IsAsked h = record {
    listed = (contains_iff r.run_id tids).0 (ground arith);
    of_run = (eq_iff r.dagrun_id run_id).0 (ground arith);
    waits = (same_task_run_iff r.state TaskRunState.scheduled).0 (ground arith);
  }

  IsAsked-matches :
      IsAsked run_id tids r → matches_task_run farm_hash (scheduled_query run_id tids) r ≡ true
  unfolding matches_task_run in_shard
  IsAsked-matches a =
      rw ((contains_iff r.run_id tids).1 a.listed, (eq_iff r.dagrun_id run_id).1 a.of_run)
        (ground (arith, a.waits))

module _ {Db O : Type 0} (yt : YtClient Db) (laws : YtLaws yt) (clock : ℕ → String)
    (run_id : String) where
  queue_rows-write :
      (rows : List TaskRunRow) (s : Session Db O)
      → queue_rows yt clock rows s ≡ write_batch yt (restated clock TaskRunState.queued rows) s
  queue_rows-write [] s = refl
  queue_rows-write (r ∷ rs) s = set_state-update_to yt clock TaskRunState.queued (r ∷ rs) s

  body-ok :
      (tids : List String) (s : Session Db O) (n : ℕ)
      → (schedule_trs_body yt clock run_id tids s).0 ≡ ok n
      → (rows : List TaskRunRow) × (yt.select_task_runs (scheduled_query run_id tids) s.db
          ≡ ok rows)
        × (n ≡ length rows)
        × IsWritten yt
            (restated clock TaskRunState.queued rows)
            s
            (schedule_trs_body yt clock run_id tids s).1
  body-ok tids s n h =
      let q = scheduled_query run_id tids in
      let (rows, read, p) =
        >>=-eq-ok (select_task_runs yt q)
          (λ rows. queue_rows yt clock rows >>= λ trs. pure (length trs)) s h in
      let (trs, done, p') =
        >>=-eq-ok (queue_rows yt clock rows) (λ trs. pure (length trs)) s (rw p at h) in
      let direct = queue_rows-write rows s in
      let (same, w) =
        write_batch-ok yt laws (restated clock TaskRunState.queued rows) trs s
          (rw direct at done) in
      (rows, read, counted rows trs same (rw (p, p') at h), rw (p, p') (rw direct w))
    where
      counted :
          (rows trs : List TaskRunRow)
          → trs ≡ restated clock TaskRunState.queued rows
          → ok (length trs) ≡ ok n
          → n ≡ length rows
      counted rows trs e h =
          let l : length trs ≡ length rows =
            ap length e ∙ length-restated clock TaskRunState.queued rows in
          cc

  -- Whether it returns or raises, `schedule_trs` changes no row of a task run but those that it
  -- is asked for, and makes these QUEUED.
  pub schedule_trs-guarded :
      (tids : List String) (s : Session Db O) (k : String)
      → let db' = (schedule_trs yt clock run_id tids s).1.db in
        (yt.task_run_at db' k ≡ yt.task_run_at s.db k)
        ⊎ ((r : TaskRunRow) × (time : String) × (yt.task_run_at s.db k ≡ some r)
            × IsAsked run_id tids r
            × (yt.task_run_at db' k ≡ some (build_row time r (some TaskRunState.queued) none)))
  unfolding schedule_trs
  schedule_trs-guarded [] s k = inl refl
  schedule_trs-guarded (tid ∷ tids) s k =
      elim (transaction_cases yt laws (schedule_trs_body yt clock run_id (tid ∷ tids)) s) [
        | inr (x, t) ↦ rw t (inl refl)
        | inl (n, done, t) ↦
            let (rows, read, _, w) = body-ok (tid ∷ tids) s n done in
            rw t (elim (find-restated clock TaskRunState.queued k rows) [
              | inl (_, e) ↦ inl (w.task_runs k ∙ rw e)
              | inr (r, time, e, e') ↦
                  let (m, key) = find_row-eq-some (λ t. t.run_id) k rows r e in
                  let (stored, test) = laws.task_runs_sound _ s.db rows r read m in
                  inr (
                    r,
                    time,
                    subst (λ j. yt.task_run_at s.db j ≡ some r) key stored,
                    matches-IsAsked yt.farm_hash run_id (tid ∷ tids) r test,
                    w.task_runs k ∙ rw e',
                  )
            ])
      ]

  -- When it returns, every task run that it is asked for is stored as QUEUED.
  pub schedule_trs-queues :
      (tids : List String) (s : Session Db O) (n : ℕ) (r : TaskRunRow)
      → (schedule_trs yt clock run_id tids s).0 ≡ ok n
      → yt.task_run_at s.db r.run_id ≡ some r
      → IsAsked run_id tids r
      → (w : TaskRunRow) × (yt.task_run_at (schedule_trs yt clock run_id tids s).1.db r.run_id
          ≡ some w)
        × (w.state ≡ TaskRunState.queued)
  unfolding schedule_trs
  schedule_trs-queues [] s n r h stored a = absurd a.listed
  schedule_trs-queues (tid ∷ tids) s n r h stored a =
      elim (transaction_cases yt laws (schedule_trs_body yt clock run_id (tid ∷ tids)) s) [
        | inr (x, t) ↦ absurd (cc (rw t at h))
        | inl (n', done, t) ↦
            let (rows, read, _, w) = body-ok (tid ∷ tids) s n' done in
            let m =
              laws.task_runs_complete _ s.db rows r read refl stored
                (IsAsked-matches yt.farm_hash run_id (tid ∷ tids) r a) in
            rw t (elim (find-restated clock TaskRunState.queued r.run_id rows) [
              | inl (e, _) ↦ absurd (find_row-ne-none (λ t. t.run_id) r.run_id rows r m refl e)
              | inr (x, time, _, e) ↦ (
                build_row time x (some TaskRunState.queued) none,
                w.task_runs r.run_id ∙ rw e,
                build_row-state time x TaskRunState.queued none,
              )
            ])
      ]
