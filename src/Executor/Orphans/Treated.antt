-- ===== src/Executor/Orphans/Treated.antt =====
-- What the cleanup of orphans does with a task run, and how a job that aborts one ends.
use yt_scheduler.Base.{
  ℕ, ◌≤◌, String, Bool, true, false, not, ◌||◌, ◌&&◌, ◌≡◌, ◌≢◌, refl, ap, ◌∙◌, Option, none, some,
  List, [], ◌∷◌, ◌++◌, map, is_empty, arith, Bool-cases, inl, inr, keep, if◌then◌else◌,
}
use yt_scheduler.Base.Action.{Error, Action}
use yt_scheduler.State.{TaskRunState, same_task_run}
use yt_scheduler.Rows.{TaskRunRow}
use yt_scheduler.TaskRun.SetState.{Update}
use yt_scheduler.Retrier.{Retrier, init, after, exhaust, reraise}
use yt_scheduler.Retrier.Termination.{run-halts}
use yt_scheduler.Retrier.Outcome.{run-absorbs}
use yt_scheduler.Executor.Orphans.{
  has_operation, treatment, treatment_in, abort_update, skip_update, try_abort_run, Frame, Job,
  abort_job, sort_in, sort_rows, skip_rows, orphan_cleanup, Sorted,
}

abbrev abortable_in : TaskRunState → Bool → Bool
abortable_in state operation = same_task_run state TaskRunState.running && operation

abbrev skippable_in : TaskRunState → Bool → Bool
skippable_in state operation =
    same_task_run state TaskRunState.queued
    || same_task_run state TaskRunState.running && not operation

-- Running, with an operation to abort.
abbrev pub is_abortable : TaskRunRow → Bool
is_abortable tr = abortable_in tr.state (has_operation tr.operation_id)

-- Queued, or running without an operation.
abbrev pub is_skippable : TaskRunRow → Bool
is_skippable tr = skippable_in tr.state (has_operation tr.operation_id)

-- The retrier of a job that aborts.
abbrev abort_retrier : Retrier (Unit {0})
abort_retrier = record {
  exceptions = none;
  ignore_exceptions = [];
  attempts = 3;
  initial_backoff = 500;
  max_backoff = none;
  retry_on = none;
  total_timeout = none;
  raise_on_exhaust = false;
  on_exhaust = none;
}

module _ {W : Type 0} (now : W → ℕ) (sleep : ℕ → W → W)
    (abort_operation : Option String → Action W (Unit {0}))
    (set_state : List Update → Action W (Unit {0})) where
  never_raised :
      (s : W) (e : Error) (start attempt : ℕ)
      → after now sleep tt abort_retrier start attempt e s ≢ reraise
  unfolding after
  never_raised s e start attempt p = ground arith

  -- However the attempts to abort the operation of a task run end, the job then asks for the task run
  -- to be set to failed, and ends as that does: fuel for three attempts is enough.
  pub try_abort_run-fails :
      (fuel : ℕ) (tr : TaskRunRow) (w : W)
      → 3 ≤ fuel
      → (w' : W) × (try_abort_run now sleep abort_operation set_state fuel tr w
          ≡ some (set_state (abort_update tr ∷ []) w'))
  unfolding try_abort_run init exhaust
  try_abort_run-fails fuel tr w enough =
      let fn = abort_operation tr.operation_id in
      let (x, p) = run-halts now sleep tt abort_retrier fn fuel w (omega arith) enough in
      let (a, q) =
        run-absorbs now sleep tt abort_retrier fn (λ e. tt) (λ e. refl)
          (λ s e start attempt _. never_raised (fn s).1 e start attempt) fuel w x.1 x.0 p in
      (x.1, rw (try_abort_run, p, q) refl)

  -- The lists that a round leaves, by the tests.
  sorted :
      (state : TaskRunState) (op : Option String) (tr : TaskRunRow) (rows : List TaskRunRow)
      (jobs : List (Job now sleep abort_operation set_state))
      → sort_in now sleep abort_operation set_state (treatment_in state op) tr (rows, jobs) ≡ (
        if skippable_in state (has_operation op) then tr ∷ rows else rows,
        if abortable_in state (has_operation op)
            then abort_job now sleep abort_operation set_state ∷ jobs
            else jobs,
      )
  sorted TaskRunState.scheduled op tr rows jobs = refl
  sorted TaskRunState.queued op tr rows jobs = refl
  sorted TaskRunState.running op tr rows jobs = elim (Bool-cases (has_operation op)) [
    | inl e ↦ rw (e) refl
    | inr e ↦ rw (e) refl
  ]
  sorted TaskRunState.success op tr rows jobs = refl
  sorted TaskRunState.failed op tr rows jobs = refl
  sorted TaskRunState.skipped op tr rows jobs = refl

  if-map :
      {A B : Type 0} (b : Bool) (f : A → B) (x : A) (xs : List A)
      → (if b then f x ∷ map f xs else map f xs) ≡ map f (if b then x ∷ xs else xs)
  if-map true f x xs = refl
  if-map false f x xs = refl

  sort_rows-keep :
      (trs : List TaskRunRow) (frame : Frame)
      → (sort_rows now sleep abort_operation set_state trs frame).0 ≡ (
        keep is_skippable trs,
        map (λ _. abort_job now sleep abort_operation set_state) (keep is_abortable trs),
      )
  sort_rows-keep [] frame = refl
  sort_rows-keep (tr ∷ trs) frame =
      ap (sort_in now sleep abort_operation set_state (treatment tr) tr)
        (sort_rows-keep trs (record frame { tr = some tr }))
      ∙ sorted tr.state tr.operation_id tr (keep is_skippable trs) _
      ∙ (λ i. (
        keep is_skippable (tr ∷ trs),
        if-map (is_abortable tr) (λ _. abort_job now sleep abort_operation set_state) tr
            (keep is_abortable trs) i,
      ))

  -- The variable after the loop.
  sort_rows-frame :
      (before : List TaskRunRow) (last : TaskRunRow) (frame : Frame)
      → (sort_rows now sleep abort_operation set_state (before ++ last ∷ []) frame).1
        ≡ record { tr = some last }
  sort_rows-frame [] last frame = refl
  sort_rows-frame (x ∷ before) last frame =
      sort_rows-frame before last (record frame { tr = some x })

  skip_rows_lem :
      (rows : List TaskRunRow) (w : W)
      → skip_rows now sleep abort_operation set_state rows w
        ≡ (if is_empty rows then w else (set_state (map skip_update rows) w).1)
  skip_rows_lem [] w = refl
  skip_rows_lem (tr ∷ rows) w = refl

  map-const :
      {A B C : Type 0} (f : B → C) (b : B) (xs : List A)
      → map f (map (λ _. b) xs) ≡ map (λ _. f b) xs
  map-const f b [] = refl
  map-const f b (x ∷ xs) = ap (λ r. f b ∷ r) (map-const f b xs)

  -- Of the orphans, those that are queued, or running without an operation, are set to skipped in one
  -- call, if there are any. For each one that is running with an operation a job is handed to the
  -- pool; but each of these jobs, executed after the loop, tries to abort the operation of the last
  -- orphan, and then asks for that one to be set to failed, whatever its state.
  pub orphan_cleanup-last :
      (before : List TaskRunRow) (last : TaskRunRow) (w : W)
      → let trs = before ++ last ∷ [] in
        let (jobs, frame, w') = orphan_cleanup now sleep abort_operation set_state trs w in
        (w' ≡ (
          if is_empty (keep is_skippable trs)
          then w
          else (set_state (map skip_update (keep is_skippable trs)) w).1))
        × (map (λ job. job frame) jobs
            ≡ map
                (λ _ fuel s. try_abort_run now sleep abort_operation set_state fuel last s)
                (keep is_abortable trs))
  unfolding orphan_cleanup
  orphan_cleanup-last before last w =
      let trs = before ++ last ∷ [] in
      let unbound : Frame = record { tr = none } in
      let kept = sort_rows-keep trs unbound in
      let job = abort_job now sleep abort_operation set_state in
      let frame = (sort_rows now sleep abort_operation set_state trs unbound).1 in
      (
        ap
              (λ (x : Sorted now sleep abort_operation set_state).
                skip_rows now sleep abort_operation set_state x.0 w)
              kept
            ∙ skip_rows_lem (keep is_skippable trs) w,
        ap (λ (x : Sorted now sleep abort_operation set_state). map (λ j. j frame) x.1) kept
            ∙ map-const (λ j. j frame) job (keep is_abortable trs)
            ∙ ap (λ f. map (λ _. job f) (keep is_abortable trs))
                (sort_rows-frame before last unbound),
      )
