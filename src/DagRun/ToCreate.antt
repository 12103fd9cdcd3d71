-- ===== src/DagRun/ToCreate.antt =====
-- The task runs that `queue_run_atomic` creates: they are found under their ids, and no task is
-- left out.
use yt_scheduler.Base.{
  ℕ, ◌+◌, String, ◌≡◌, sym, ap, ◌∙◌, inl, inr, true, Bool, not, none, some, List, length, In,
  In-keep, In-append, In-append_left, In-append_right, arith, keep, map, contains, contains_iff,
  Bool-cases, Option-cases,
}
use yt_scheduler.State.{TaskRunState}
use yt_scheduler.Rows.{TaskRunRow}
use yt_scheduler.Yt.{find_row}
use yt_scheduler.Yt.Lookup.{find_row-eq-some, find_row-append}
use yt_scheduler.Dag.{IsKeyed, Task, Dag, in_roots}
use yt_scheduler.DagRun.Create.{
  rootless, start_state, in_roots-start, created_member, created-id, find-created,
}
use yt_scheduler.DagRun.Methods.{new_task_run, new_task_runs, task_runs_to_create}

module _ (uuid : ℕ → String) (inj : (i j : ℕ) → uuid i ≡ uuid j → i ≡ j) (run_id : String)
    (dag : Dag) (existing : List TaskRunRow) where
  abbrev missing : Task → Bool
  missing t = not (contains t.task_id (map (λ e. e.task_id) existing))

  abbrev root_rows : List TaskRunRow
  root_rows =
      new_task_runs uuid run_id TaskRunState.queued (keep (in_roots dag) (keep missing dag.tasks))

  abbrev later_uuid : ℕ → String
  later_uuid i = uuid (length (keep (in_roots dag) (keep missing dag.tasks)) + i)

  abbrev other_rows : List TaskRunRow
  other_rows =
      new_task_runs later_uuid run_id TaskRunState.scheduled
        (keep (λ t. not (in_roots dag t)) (keep missing dag.tasks))

  -- Each created row is the one that is found under its id.
  pub find-to_create :
      (w : TaskRunRow)
      → In w (task_runs_to_create uuid run_id dag existing)
      → find_row (λ r. r.run_id) w.run_id (task_runs_to_create uuid run_id dag existing) ≡ some w
  unfolding task_runs_to_create
  find-to_create w m =
      rw (find_row-append (λ r. r.run_id) w.run_id root_rows other_rows)
        (elim (In-append w root_rows other_rows m) [
          | inr later ↦ rw (find-created run_id TaskRunState.scheduled _ _ w shifted later)
          | inl first ↦ rw (apart first, find-created run_id TaskRunState.queued uuid _ w inj first)
        ])
    where
      offset : ℕ
      offset = length (keep (in_roots dag) (keep missing dag.tasks))

      shifted : (i j : ℕ) → uuid (offset + i) ≡ uuid (offset + j) → i ≡ j
      shifted i j e = omega (arith, inj (offset + i) (offset + j) e)

      apart : In w root_rows → find_row (λ r. r.run_id) w.run_id other_rows ≡ none
      apart first = elim (Option-cases (find_row (λ r. r.run_id) w.run_id other_rows)) [
        | inl e ↦ e
        | inr (y, e) ↦
            let (m', key) = find_row-eq-some (λ r. r.run_id) w.run_id other_rows y e in
            let (i, lt, at) = created-id run_id TaskRunState.queued uuid _ w first in
            let (j, lt', at') = created-id run_id TaskRunState.scheduled _ _ y m' in
            absurd (omega (arith, inj i (offset + j) (sym at ∙ sym key ∙ at')))
      ]

  -- Every task without a task run gets one.
  pub to_create_member :
      (t : Task)
      → IsKeyed dag
      → In t dag.tasks
      → ¬ In t.task_id (map (λ e. e.task_id) existing)
      → (u : String) × In
          (new_task_run u run_id (start_state t) t)
          (task_runs_to_create uuid run_id dag existing)
  unfolding task_runs_to_create
  to_create_member t keyed m absent =
      let lacks : missing t ≡ true =
        ground (arith, (contains_iff t.task_id (map (λ e. e.task_id) existing)).0) in
      let todo = (In-keep missing t dag.tasks).1 (m, lacks) in
      elim (Bool-cases (rootless t)) [
        | inl e ↦
            let root = (In-keep (in_roots dag) t _).1 (todo, in_roots-start dag t keyed m ∙ e) in
            let (u, made) = created_member run_id TaskRunState.queued uuid t _ root in
            (u, rw e (In-append_left _ root_rows other_rows made))
        | inr e ↦
            let other =
              (In-keep (λ t. not (in_roots dag t)) t _).1
                (todo, ap not (in_roots-start dag t keyed m ∙ e)) in
            let (u, made) = created_member run_id TaskRunState.scheduled later_uuid t _ other in
            (u, rw e (In-append_right _ root_rows other_rows made))
      ]
