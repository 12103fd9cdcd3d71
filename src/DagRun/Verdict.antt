-- ===== src/DagRun/Verdict.antt =====
-- The state that `update_state` gives a run.
use yt_scheduler.Base.{
  ◌≡◌, ◌↔◌, inl, inr, true, false, List, In, All, All-of_each, In-All, any, all, keep, is_empty,
  any-eq-true, any_of_member, all-eq-true, all_of_members, arith, Bool-cases, [], ◌∷◌,
}
use yt_scheduler.State.{TaskRunState, DagRunState, same_task_run, same_task_run_iff, is_unfinished}
use yt_scheduler.Rows.{TaskRunRow}
use yt_scheduler.DagRun.{run_verdict}

abbrev pub HasFailed : List TaskRunRow → Type 0
HasFailed trs = (tr : TaskRunRow) × In tr trs × (tr.state ≡ TaskRunState.failed)

abbrev pub AllSucceeded : List TaskRunRow → Type 0
AllSucceeded trs = All (λ tr. tr.state ≡ TaskRunState.success) trs

failed_iff :
    (trs : List TaskRunRow)
    → (any (λ tr. same_task_run tr.state TaskRunState.failed) trs ≡ true) ↔ HasFailed trs
failed_iff trs = (there, back)
  where
    there : any (λ tr. same_task_run tr.state TaskRunState.failed) trs ≡ true → HasFailed trs
    there h =
        let (tr, m, e) = any-eq-true (λ tr. same_task_run tr.state TaskRunState.failed) trs h in
        (tr, m, (same_task_run_iff tr.state TaskRunState.failed).0 e)

    back : HasFailed trs → any (λ tr. same_task_run tr.state TaskRunState.failed) trs ≡ true
    back (tr, m, e) =
        any_of_member (λ tr. same_task_run tr.state TaskRunState.failed) tr trs m
          ((same_task_run_iff tr.state TaskRunState.failed).1 e)

succeeded_iff :
    (trs : List TaskRunRow)
    → (all (λ tr. same_task_run tr.state TaskRunState.success) trs ≡ true) ↔ AllSucceeded trs
succeeded_iff trs = (there, back)
  where
    there : all (λ tr. same_task_run tr.state TaskRunState.success) trs ≡ true → AllSucceeded trs
    there h =
        All-of_each (λ tr. tr.state ≡ TaskRunState.success) trs
          λ tr m.
            (same_task_run_iff tr.state TaskRunState.success).0
              (all-eq-true (λ tr. same_task_run tr.state TaskRunState.success) tr trs h m)

    back : AllSucceeded trs → all (λ tr. same_task_run tr.state TaskRunState.success) trs ≡ true
    back h =
        all_of_members (λ tr. same_task_run tr.state TaskRunState.success) trs
          λ tr m.
            (same_task_run_iff tr.state TaskRunState.success).1
              (In-All (λ tr. tr.state ≡ TaskRunState.success) tr trs h m)

-- Where all succeeded, none failed and none is unfinished.
none_unfinished :
    (trs : List TaskRunRow)
    → all (λ tr. same_task_run tr.state TaskRunState.success) trs ≡ true
    → (any (λ tr. same_task_run tr.state TaskRunState.failed) trs ≡ false)
      × (is_empty (keep (λ tr. is_unfinished tr.state) trs) ≡ true)
none_unfinished [] h = ground arith
none_unfinished (tr ∷ trs) h = ground (arith, none_unfinished trs)

-- A run fails exactly when one of its task runs has failed, succeeds exactly when all of them
-- succeeded, and is running otherwise.
pub run_verdict_lem :
    (trs : List TaskRunRow)
    → ((run_verdict trs ≡ DagRunState.failed) ↔ HasFailed trs)
      × ((run_verdict trs ≡ DagRunState.success) ↔ AllSucceeded trs)
      × ((run_verdict trs ≡ DagRunState.running) ↔ ((¬ HasFailed trs) × (¬ AllSucceeded trs)))
unfolding run_verdict
run_verdict_lem trs = (
  (λ h. (failed_iff trs).0 (ground arith), λ f. rw ((failed_iff trs).1 f)),
  (
    λ h. (succeeded_iff trs).0 (ground arith),
    λ s. ground (arith, (succeeded_iff trs).1 s, none_unfinished trs),
  ),
  (
    λ h. (
      λ f. ground (arith, (failed_iff trs).1 f),
      λ s. ground (arith, (succeeded_iff trs).1 s, none_unfinished trs),
    ),
    λ (f, s). elim (Bool-cases (any (λ tr. same_task_run tr.state TaskRunState.failed) trs)) [
      | inl t ↦ absurd (f ((failed_iff trs).0 t))
      | inr nf ↦ elim (Bool-cases (all (λ tr. same_task_run tr.state TaskRunState.success) trs)) [
        | inl t ↦ absurd (s ((succeeded_iff trs).0 t))
        | inr ns ↦ ground arith
      ]
    ],
  ),
)
