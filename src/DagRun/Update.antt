-- ===== src/DagRun/Update.antt =====
-- What `update_state` does to the tables when it succeeds.
use yt_scheduler.Base.{
  ℕ, String, ◌≡◌, refl, ap, ◌∙◌, subst, ◌⊎◌, inl, inr, true, none, some, List, [], ◌∷◌, map, In,
  In-keep, any, arith, Bool-cases, ◌==◌, if◌then◌else◌,
}
use yt_scheduler.Base.Action.{Result, ok, pure, ◌>>◌, >>=-eq-ok}
use yt_scheduler.State.{
  TaskRunState, DagRunState, same_dag_run, same_task_run, is_unfinished, same_dag_run_iff,
}
use yt_scheduler.Rows.{TaskRunRow, DagRunRow}
use yt_scheduler.Yt.{YtClient, YtLaws, Session, find_row, or_stored, select_task_runs}
use yt_scheduler.Yt.Lookup.{find_row-eq-some, find_row-ne-none}
use yt_scheduler.Yt.Transaction.{transaction_cases}
use yt_scheduler.TaskRun.{build_row}
use yt_scheduler.TaskRun.SetState.Direct.{restated, find-restated}
use yt_scheduler.Dag.{Dag}
use yt_scheduler.DagRun.{run_verdict, build_row_by_state, skippable, trs_scheduling_decisions}
use yt_scheduler.DagRun.Verdict.{HasFailed, run_verdict_lem}
use yt_scheduler.TaskRun.Lifecycle.{build_row-state}
use yt_scheduler.DagRun.Steps.{skip_all-ok, set_state-ok}
use yt_scheduler.DagRun.Methods.{
  set_state, apply_verdict, update_state, update_state_body, skip_all, run_query,
}

-- The task runs that `update_state` skips.
abbrev pub skipped_trs : Dag → List TaskRunRow → List TaskRunRow
skipped_trs dag trs =
    if same_dag_run (run_verdict trs) DagRunState.failed
    then skippable (trs_scheduling_decisions dag trs).unfinished_trs
    else []

abbrev pub IsWaiting : TaskRunRow → Type 0
IsWaiting tr = (tr.state ≡ TaskRunState.scheduled) ⊎ (tr.state ≡ TaskRunState.queued)

skipped_member :
    (dag : Dag) (trs : List TaskRunRow) (tr : TaskRunRow)
    → In tr trs
    → run_verdict trs ≡ DagRunState.failed
    → IsWaiting tr
    → In tr (skipped_trs dag trs)
unfolding skippable trs_scheduling_decisions
skipped_member dag trs tr m f w = rw f (
    (In-keep (λ t. any (same_task_run t.state) (TaskRunState.scheduled ∷ TaskRunState.queued ∷ []))
        tr _).1
      ((In-keep (λ t. is_unfinished t.state) tr trs).1 (m, unfinished w), waits w))
  where
    unfinished : IsWaiting tr → is_unfinished tr.state ≡ true
    unfinished w = ground arith

    waits :
        IsWaiting tr
        → any (same_task_run tr.state) (TaskRunState.scheduled ∷ TaskRunState.queued ∷ []) ≡ true
    waits w = ground arith

skipped_reason :
    (dag : Dag) (trs : List TaskRunRow) (tr : TaskRunRow)
    → In tr (skipped_trs dag trs)
    → In tr trs × (run_verdict trs ≡ DagRunState.failed) × IsWaiting tr
unfolding skippable trs_scheduling_decisions
skipped_reason dag trs tr m =
    elim (Bool-cases (same_dag_run (run_verdict trs) DagRunState.failed)) [
      | inr f ↦ absurd (nothing (rw f at m))
      | inl t ↦
          let (m', w) =
            (In-keep
                (λ t.
                  any (same_task_run t.state) (TaskRunState.scheduled ∷ TaskRunState.queued ∷ []))
                tr _).0
              (rw t at m) in
          (
            ((In-keep (λ t. is_unfinished t.state) tr trs).0 m').0,
            (same_dag_run_iff (run_verdict trs) DagRunState.failed).0 t,
            waits w,
          )
    ]
  where
    nothing : In tr [] → ⊥
    nothing x = x

    waits :
        any (same_task_run tr.state) (TaskRunState.scheduled ∷ TaskRunState.queued ∷ []) ≡ true
        → IsWaiting tr
    waits w = ground arith

module _ {Db : Type 0} (yt : YtClient Db) (laws : YtLaws yt) (clock : ℕ → String) (now : String)
    (dag : Dag) (s : Session Db DagRunRow) where
  abbrev pub ready_ids : List TaskRunRow → List String
  ready_ids trs =
      map (λ tr. tr.run_id)
        (if same_dag_run (run_verdict trs) DagRunState.failed
          then []
          else (trs_scheduling_decisions dag trs).schedulable_trs)

  apply_verdict-ok :
      (trs : List TaskRunRow) (ids : List String)
      → (apply_verdict yt clock now dag trs s).0 ≡ ok ids
      → let s' = (apply_verdict yt clock now dag trs s).1 in
        let row = build_row_by_state now (run_verdict trs) s.self in
        (ids ≡ ready_ids trs)
        × (s'.self ≡ row)
        × ((k : String)
            → yt.task_run_at s'.db k
              ≡ or_stored
                  (find_row
                    (λ t. t.run_id)
                    k
                    (restated clock TaskRunState.skipped (skipped_trs dag trs)))
                  (yt.task_run_at s.db k))
        × ((k : String)
            → yt.dag_run_at s'.db k
              ≡ (if s.self.run_id == k then some row else yt.dag_run_at s.db k))
  unfolding apply_verdict
  apply_verdict-ok trs ids h =
      let m = skip_all yt clock (skipped_trs dag trs) in
      let n = set_state yt now (run_verdict trs) in
      let (t, done, p) = >>=-eq-ok m (λ _. n >> pure (ready_ids trs)) s h in
      let w = skip_all-ok yt laws clock (skipped_trs dag trs) s t done in
      let (t', done', p') = >>=-eq-ok n (λ _. pure (ready_ids trs)) (m s).1 (rw p at h) in
      let (self, tasks, runs) = set_state-ok yt laws now (run_verdict trs) (m s).1 t' done' in
      (
        cc (ap (λ (x : Result (List String) × Session Db DagRunRow). x.0) (p ∙ p'), h),
        rw (p, p') (self ∙ ap (build_row_by_state now (run_verdict trs)) w.self),
        λ k. rw (p, p') (tasks k ∙ w.task_runs k),
        λ k. rw (p, p') (runs k ∙ rw (w.self, w.dag_runs k)),
      )

  -- A successful `update_state` selected some task runs, and ended as their verdict says.
  update_state-ok :
      (ids : List String)
      → (update_state yt clock now dag s).0 ≡ ok ids
      → (trs : List TaskRunRow) × (yt.select_task_runs (run_query yt s.self dag) s.db ≡ ok trs)
        × ((apply_verdict yt clock now dag trs s).0 ≡ ok ids)
        × (update_state yt clock now dag s ≡ apply_verdict yt clock now dag trs s)
  unfolding update_state
  update_state-ok ids h = elim (transaction_cases yt laws (update_state_body yt clock now dag) s) [
    | inr (x, t) ↦ absurd (cc (rw t at h))
    | inl (a, done, t) ↦
        let (trs, read, p) =
          >>=-eq-ok (select_task_runs yt (run_query yt s.self dag)) (apply_verdict yt clock now dag)
            s done in
        (trs, read, (rw p at done) ∙ (rw t at h), rw (t, ← done) p)
  ]

  -- A successful `update_state` writes the verdict on the selected task runs into the row of the
  -- run and into the object, leaves the rows of the other runs, and returns the ids of the ready
  -- task runs, or none when the run failed.
  pub update_state-verdict :
      (ids : List String)
      → (update_state yt clock now dag s).0 ≡ ok ids
      → (trs : List TaskRunRow) × (yt.select_task_runs (run_query yt s.self dag) s.db ≡ ok trs)
        × (ids ≡ ready_ids trs)
        × ((update_state yt clock now dag s).1.self
            ≡ build_row_by_state now (run_verdict trs) s.self)
        × ((k : String)
            → yt.dag_run_at (update_state yt clock now dag s).1.db k ≡ (
                if s.self.run_id == k
                then some (build_row_by_state now (run_verdict trs) s.self)
                else yt.dag_run_at s.db k))
  update_state-verdict ids h =
      let (trs, read, done, p) = update_state-ok ids h in
      let (result, self, tasks, runs) = apply_verdict-ok trs ids done in
      (trs, read, result, rw p self, λ k. rw p (runs k))

  task_runs_after :
      (ids : List String) (trs : List TaskRunRow)
      → (update_state yt clock now dag s).0 ≡ ok ids
      → yt.select_task_runs (run_query yt s.self dag) s.db ≡ ok trs
      → (k : String)
      → yt.task_run_at (update_state yt clock now dag s).1.db k
        ≡ or_stored
            (find_row (λ t. t.run_id) k (restated clock TaskRunState.skipped (skipped_trs dag trs)))
            (yt.task_run_at s.db k)
  task_runs_after ids trs h read k =
      let (trs', read', done, p) = update_state-ok ids h in
      let same : trs' ≡ trs = cc (read, read') in
      let (result, self, tasks, runs) = apply_verdict-ok trs' ids done in
      subst
        (λ (x : List TaskRunRow).
          yt.task_run_at (update_state yt clock now dag s).1.db k
          ≡ or_stored
              (find_row (λ t. t.run_id) k (restated clock TaskRunState.skipped (skipped_trs dag x)))
              (yt.task_run_at s.db k))
        same (rw p (tasks k))

  -- Once a selected task run has failed, every selected task run that was SCHEDULED or QUEUED is
  -- stored as SKIPPED.
  pub update_state-skips :
      (ids : List String) (trs : List TaskRunRow) (tr : TaskRunRow)
      → (update_state yt clock now dag s).0 ≡ ok ids
      → yt.select_task_runs (run_query yt s.self dag) s.db ≡ ok trs
      → HasFailed trs
      → In tr trs
      → IsWaiting tr
      → (w : TaskRunRow) × (yt.task_run_at (update_state yt clock now dag s).1.db tr.run_id
          ≡ some w)
        × (w.state ≡ TaskRunState.skipped)
  update_state-skips ids trs tr h read f m w =
      let skipped = skipped_member dag trs tr m ((run_verdict_lem trs).0.1 f) w in
      elim (find-restated clock TaskRunState.skipped tr.run_id (skipped_trs dag trs)) [
        | inl (e, _) ↦ absurd (find_row-ne-none (λ t. t.run_id) tr.run_id _ tr skipped refl e)
        | inr (x, time, _, e) ↦ (
          build_row time x (some TaskRunState.skipped) none,
          task_runs_after ids trs h read tr.run_id ∙ rw e,
          build_row-state time x TaskRunState.skipped none,
        )
      ]

  -- Every other task run is left as it is: those of a run without a failure, and those that no
  -- selected SCHEDULED or QUEUED row names.
  pub update_state-keeps :
      (ids : List String) (trs : List TaskRunRow) (k : String)
      → (update_state yt clock now dag s).0 ≡ ok ids
      → yt.select_task_runs (run_query yt s.self dag) s.db ≡ ok trs
      → (HasFailed trs → (tr : TaskRunRow) → In tr trs → tr.run_id ≡ k → ¬ IsWaiting tr)
      → yt.task_run_at (update_state yt clock now dag s).1.db k ≡ yt.task_run_at s.db k
  update_state-keeps ids trs k h read other =
      elim (find-restated clock TaskRunState.skipped k (skipped_trs dag trs)) [
        | inl (_, e) ↦ task_runs_after ids trs h read k ∙ rw e
        | inr (x, time, e, _) ↦
            let (m, key) = find_row-eq-some (λ t. t.run_id) k _ x e in
            let (listed, failed, w) = skipped_reason dag trs x m in
            absurd (other ((run_verdict_lem trs).0.0 failed) x listed key w)
      ]
