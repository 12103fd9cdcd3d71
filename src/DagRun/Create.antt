-- ===== src/DagRun/Create.antt =====
-- The task runs that queueing a run creates.
use yt_scheduler.Base.{
  ℕ, suc, ◌<◌, String, ◌≡◌, sym, ap, ◌∙◌, subst, inl, inr, true, Bool, some, List, [], ◌∷◌, length,
  is_empty, In, In-keep, In-map, map_member, arith, any_of_member, any-eq-true, ◌==◌, eq_iff,
  Bool-cases, Option-cases, if◌then◌else◌,
}
use yt_scheduler.State.{TaskRunState}
use yt_scheduler.Rows.{TaskRunRow}
use yt_scheduler.Yt.{find_row}
use yt_scheduler.Yt.Lookup.{find_row-eq-some}
use yt_scheduler.Dag.{IsKeyed, Task, Dag, find_task, roots, in_roots, same_task}
use yt_scheduler.DagRun.Methods.{new_task_run, new_task_runs}

suc-injective : {i j : ℕ} → suc i ≡ suc j → i ≡ j
suc-injective h = omega arith

-- Tasks with no upstream start QUEUED, the others SCHEDULED.
abbrev pub start_state : Task → TaskRunState
start_state t =
    if is_empty t.preceding_task_ids then TaskRunState.queued else TaskRunState.scheduled

find_task_member :
    (t : Task) (ts : List Task)
    → In t ts
    → (f : Task) × (find_task t.task_id ts ≡ some f) × (f.task_id ≡ t.task_id)
find_task_member t [] m = elim m [ ]
find_task_member t (x ∷ ts) (inl p) =
    let same : x.task_id ≡ t.task_id = ap (λ (y : Task). y.task_id) (sym p) in
    (x, rw ((eq_iff x.task_id t.task_id).1 same), same)
find_task_member t (x ∷ ts) (inr m) = elim (Bool-cases (x.task_id == t.task_id)) [
  | inl e ↦ (x, rw e, (eq_iff x.task_id t.task_id).0 e)
  | inr e ↦ let (f, found, key) = find_task_member t ts m in (f, rw e found, key)
]

abbrev pub rootless : Task → Bool
rootless t = is_empty t.preceding_task_ids

start_in_roots : (dag : Dag) (t : Task) → In t dag.tasks → rootless t ≡ true → in_roots dag t ≡ true
unfolding in_roots
start_in_roots dag t m e =
    let (f, found, key) = find_task_member t dag.tasks m in
    any_of_member (same_task t) (find_task t.task_id dag.tasks) _
      (map_member (λ u. find_task u.task_id dag.tasks) t _
        ((In-keep rootless t dag.tasks).1 (m, e)))
      (rw found ((eq_iff f.task_id t.task_id).1 key))

roots_start :
    (dag : Dag) (t : Task)
    → IsKeyed dag
    → In t dag.tasks
    → in_roots dag t ≡ true
    → rootless t ≡ true
unfolding in_roots
roots_start dag t keyed m h =
    let (o, listed, same) = any-eq-true (same_task t) (roots dag) h in
    let (u, kept, e) = In-map (λ u. find_task u.task_id dag.tasks) o _ listed in
    let (there, start) = (In-keep rootless u dag.tasks).0 kept in
    let (f, found, key) = find_task_member u dag.tasks there in
    let named : f.task_id ≡ t.task_id = (eq_iff f.task_id t.task_id).0 (rw (e, found) at same) in
    subst (λ x. rootless x ≡ true) (keyed u t there m (sym key ∙ named)) start

-- A task is among the roots exactly when it has no upstream.
pub in_roots-start :
    (dag : Dag) (t : Task) → IsKeyed dag → In t dag.tasks → in_roots dag t ≡ rootless t
in_roots-start dag t keyed m = elim (Bool-cases (rootless t)) [
  | inl e ↦ rw e (start_in_roots dag t m e)
  | inr e ↦ ground (arith, roots_start dag t keyed m)
]

module _ (dagrun_id : String) (state : TaskRunState) where
  pub created_member :
      (uuid : ℕ → String) (t : Task) (ts : List Task)
      → In t ts
      → (u : String) × In (new_task_run u dagrun_id state t) (new_task_runs uuid dagrun_id state ts)
  created_member uuid t [] m = elim m [ ]
  created_member uuid t (x ∷ ts) (inl e) =
      (uuid 0, inl (ap (new_task_run (uuid 0) dagrun_id state) e))
  created_member uuid t (x ∷ ts) (inr m) =
      let (u, m') = created_member (λ i. uuid (suc i)) t ts m in (u, inr m')

  pub created-id :
      (uuid : ℕ → String) (ts : List Task) (w : TaskRunRow)
      → In w (new_task_runs uuid dagrun_id state ts)
      → (i : ℕ) × (i < length ts) × (w.run_id ≡ uuid i)
  created-id uuid [] w m = elim m [ ]
  created-id uuid (t ∷ ts) w (inl e) = (0, omega arith, ap (λ (r : TaskRunRow). r.run_id) e)
  created-id uuid (t ∷ ts) w (inr m) =
      let (i, lt, e) = created-id (λ i. uuid (suc i)) ts w m in (suc i, omega arith, e)

  pub find-created :
      (uuid : ℕ → String) (ts : List Task) (w : TaskRunRow)
      → ((i j : ℕ) → uuid i ≡ uuid j → i ≡ j)
      → In w (new_task_runs uuid dagrun_id state ts)
      → find_row (λ r. r.run_id) w.run_id (new_task_runs uuid dagrun_id state ts) ≡ some w
  find-created uuid [] w inj m = elim m [ ]
  find-created uuid (t ∷ ts) w inj (inr m) =
      rw (find-created (λ i. uuid (suc i)) ts w (λ i j e. suc-injective (inj (suc i) (suc j) e)) m)
  find-created uuid (t ∷ ts) w inj (inl e) =
      let head = new_task_run (uuid 0) dagrun_id state t in
      let rest = new_task_runs (λ i. uuid (suc i)) dagrun_id state ts in
      let key : uuid 0 ≡ w.run_id = ap (λ (r : TaskRunRow). r.run_id) (sym e) in
      elim (Option-cases (find_row (λ r. r.run_id) w.run_id rest)) [
        | inl none_later ↦ rw (none_later, (eq_iff (uuid 0) w.run_id).1 key) (ap some (sym e))
        | inr (y, later) ↦
            let (m, key') = find_row-eq-some (λ r. r.run_id) w.run_id rest y later in
            let (i, _, at) = created-id (λ i. uuid (suc i)) ts y m in
            absurd (apart (inj 0 (suc i) (key ∙ sym key' ∙ at)))
      ]
    where
      apart : {i : ℕ} → 0 ≡ suc i → ⊥
      apart h = omega arith
