-- ===== src/DagRun/Steps.antt =====
-- What single writes of the methods of `DagRun` leave, when they succeed.
use yt_scheduler.Base.{
  ℕ, String, ◌≡◌, refl, inl, inr, some, List, [], ◌∷◌, map, arith, ◌==◌, if◌then◌else◌,
}
use yt_scheduler.Base.Action.{ok, Result-cases, pure, >>=-eq-ok}
use yt_scheduler.State.{TaskRunState, DagRunState}
use yt_scheduler.Rows.{TaskRunRow, DagRunRow}
use yt_scheduler.Yt.{YtClient, YtLaws, Session}
use yt_scheduler.TaskRun.SetState
use yt_scheduler.TaskRun.SetState.{update_to}
use yt_scheduler.TaskRun.SetState.Direct.{restated, IsWritten, write_batch-ok, set_state-update_to}
use yt_scheduler.DagRun.{build_row_by_state}
use yt_scheduler.DagRun.Lifecycle.{build_row_by_state-run_id}
use yt_scheduler.DagRun.Methods.{set_state, skip_all}

module _ {Db : Type 0} (yt : YtClient Db) (laws : YtLaws yt) where
  pub skip_all-ok :
      (clock : ℕ → String) (trs : List TaskRunRow) (s : Session Db DagRunRow) (t : Unit)
      → (skip_all yt clock trs s).0 ≡ ok t
      → IsWritten yt (restated clock TaskRunState.skipped trs) s (skip_all yt clock trs s).1
  skip_all-ok clock [] s t h = record { task_runs = λ k. refl; dag_runs = λ k. refl; self = refl }
  skip_all-ok clock (tr ∷ trs) s t h =
      let m = SetState.set_state yt clock (map (update_to TaskRunState.skipped) (tr ∷ trs)) in
      let (rows, done, p) = >>=-eq-ok m (λ _. pure tt) s h in
      let direct = set_state-update_to yt clock TaskRunState.skipped (tr ∷ trs) s in
      let w =
        write_batch-ok yt laws (restated clock TaskRunState.skipped (tr ∷ trs)) rows s
          (rw direct at done) in
      rw (p, direct) (w.1)

  pub set_state-ok :
      (now : String) (state : DagRunState) (s : Session Db DagRunRow) (t : Unit)
      → (set_state yt now state s).0 ≡ ok t
      → let row = build_row_by_state now state s.self in
        let s' = (set_state yt now state s).1 in
        (s'.self ≡ row)
        × ((k : String) → yt.task_run_at s'.db k ≡ yt.task_run_at s.db k)
        × ((k : String)
            → yt.dag_run_at s'.db k
              ≡ (if s.self.run_id == k then some row else yt.dag_run_at s.db k))
  unfolding set_state
  set_state-ok now state s t h =
      let row = build_row_by_state now state s.self in
      elim (Result-cases (yt.insert_dag_runs (row ∷ []) s.db)) [
        | inl (db', e) ↦ rw e (
          refl,
          λ k. laws.insert_dag_runs_frame (row ∷ []) s.db db' k e,
          λ k. ground (
            arith,
            laws.insert_dag_runs_at (row ∷ []) s.db db' k e,
            build_row_by_state-run_id now state s.self,
          ),
        )
        | inr (x, e) ↦ absurd (cc (rw e at h))
      ]
