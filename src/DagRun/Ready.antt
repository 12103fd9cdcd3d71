-- ===== src/DagRun/Ready.antt =====
-- Which task runs the scheduler may start.
use yt_scheduler.Base.{
  String, ◌≡◌, ◌↔◌, refl, true, List, [], ◌∷◌, In, In-keep, map_member, In-map, all, all-eq-true,
  all_of_members, contains, contains_iff, map, subst, sym, is_empty, keep, Bool, if◌then◌else◌,
}
use yt_scheduler.State.{TaskRunState, same_task_run, same_task_run_iff, is_finished}
use yt_scheduler.Rows.{TaskRunRow}
use yt_scheduler.Dag.{Dag, upstream_of}
use yt_scheduler.DagRun.{get_ready_trs, trs_scheduling_decisions}

-- Every task upstream of `tr` has a finished task run among `trs`.
abbrev pub IsUnblocked : Dag → List TaskRunRow → TaskRunRow → Type 0
IsUnblocked dag trs tr =
    (up : String)
    → In up (upstream_of dag tr.task_id)
    → (f : TaskRunRow) × In f trs × (f.task_id ≡ up) × (is_finished f.state ≡ true)

no_guard :
    (dag : Dag) (l finished : List TaskRunRow)
    → (if is_empty l then [] else get_ready_trs dag l finished) ≡ get_ready_trs dag l finished
unfolding get_ready_trs
no_guard dag [] finished = refl
no_guard dag (tr ∷ l) finished = refl

abbrev has_finished : List TaskRunRow → String → Bool
has_finished finished up = contains up (map (λ f. f.task_id) finished)

-- Whether a task id is among those of the finished task runs.
has_finished_iff :
    (trs : List TaskRunRow) (up : String)
    → (has_finished (keep (λ tr. is_finished tr.state) trs) up ≡ true)
      ↔ ((f : TaskRunRow) × In f trs × (f.task_id ≡ up) × (is_finished f.state ≡ true))
has_finished_iff trs up = (there, back)
  where
    there :
        has_finished (keep (λ tr. is_finished tr.state) trs) up ≡ true
        → (f : TaskRunRow) × In f trs × (f.task_id ≡ up) × (is_finished f.state ≡ true)
    there h =
        let (f, m, e) = In-map (λ f. f.task_id) up _ ((contains_iff up _).0 h) in
        let (listed, test) = (In-keep (λ tr. is_finished tr.state) f trs).0 m in
        (f, listed, sym e, test)

    back :
        (f : TaskRunRow) × In f trs × (f.task_id ≡ up) × (is_finished f.state ≡ true)
        → has_finished (keep (λ tr. is_finished tr.state) trs) up ≡ true
    back (f, m, e, test) = (contains_iff up _).1 (
        subst (λ k. In k (map (λ f. f.task_id) (keep (λ tr. is_finished tr.state) trs))) e
          (map_member (λ f. f.task_id) f _
            ((In-keep (λ tr. is_finished tr.state) f trs).1 (m, test))))

-- The task runs that the decisions call schedulable are exactly those in state SCHEDULED all of
-- whose upstream tasks have a finished task run.
pub schedulable_iff :
    (dag : Dag) (trs : List TaskRunRow) (tr : TaskRunRow)
    → In tr (trs_scheduling_decisions dag trs).schedulable_trs
      ↔ (In tr trs × (tr.state ≡ TaskRunState.scheduled) × IsUnblocked dag trs tr)
unfolding trs_scheduling_decisions
schedulable_iff dag trs tr = rw no_guard (there, back)
  where
    finished : List TaskRunRow
    finished = keep (λ tr. is_finished tr.state) trs

    waits : TaskRunRow → Bool
    waits tr = same_task_run tr.state TaskRunState.scheduled

    ready : TaskRunRow → Bool
    ready tr = all (has_finished finished) (upstream_of dag tr.task_id)

    there :
        In tr (keep ready (keep waits trs))
        → In tr trs × (tr.state ≡ TaskRunState.scheduled) × IsUnblocked dag trs tr
    there m =
        let (m', r) = (In-keep ready tr (keep waits trs)).0 m in
        let (listed, w) = (In-keep waits tr trs).0 m' in
        (
          listed,
          (same_task_run_iff tr.state TaskRunState.scheduled).0 w,
          λ up u. (has_finished_iff trs up).0 (all-eq-true (has_finished finished) up _ r u),
        )

    back :
        In tr trs × (tr.state ≡ TaskRunState.scheduled) × IsUnblocked dag trs tr
        → In tr (keep ready (keep waits trs))
    back (m, w, u) = (In-keep ready tr (keep waits trs)).1 (
      (In-keep waits tr trs).1 (m, (same_task_run_iff tr.state TaskRunState.scheduled).1 w),
      all_of_members (has_finished finished) _ (λ up i. (has_finished_iff trs up).1 (u up i)),
    )
