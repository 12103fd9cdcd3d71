-- ===== src/Executor/Poll.antt =====
-- What the callbacks of a poll remove.
use yt_scheduler.Base.{
  pop, String, ◌≡◌, refl, ◌∙◌, inl, inr, true, false, Option, none, some, List, [], ◌∷◌, ◌++◌, ◌||◌,
  Bool, ap, if◌then◌else◌, any, Bool-cases, ◌==◌,
}
use yt_scheduler.Base.Action.{Result, ok, err, Result-cases}
use yt_scheduler.Executor.{
  Pending, OperationState, Submission, Frame, finalize, call_back, call_all, poll_one, poll_items,
  poll_pending_operations,
}

module _ (get_operation_state : Option String → Result OperationState) where
  -- The client says that the operation has finished.
  abbrev pub has_finished : String × Option String → Bool
  has_finished (run_id, operation) = elim (get_operation_state operation) [
    | err e ↦ false
    | ok status ↦ status.is_finished
  ]

  -- The variable after the loop.
  poll_items-frame :
      (p : Pending) (before : List (String × Option String)) (last : String)
      (operation : Option String) (frame : Frame)
      → (poll_items get_operation_state p (before ++ (last, operation) ∷ []) frame).1
        ≡ record { run_id = some last }
  poll_items-frame p [] last operation frame = refl
  poll_items-frame p ((k, o) ∷ before) last operation frame =
      poll_items-frame p before last operation (record frame { run_id = some k })

  -- One removal is the same as several of one key.
  abbrev finalized : Bool → String → Pending → Pending
  finalized b run_id p = if b then finalize (some run_id) p else p

  call_all-append :
      (jobs more : List Submission) (frame : Frame) (p : Pending)
      → call_all (jobs ++ more) frame p ≡ call_all more frame (call_all jobs frame p)
  unfolding call_all
  call_all-append [] more frame p = refl
  call_all-append (job ∷ jobs) more frame p =
      call_all-append jobs more frame (call_back job.callback frame p)

  call_all-one :
      (p : Pending) (run_id : String) (operation : Option String) (k : String) (q : Pending)
      → call_all (poll_one get_operation_state p run_id operation) (record { run_id = some k }) q
        ≡ finalized (has_finished (run_id, operation)) k q
  unfolding call_all
  call_all-one p run_id operation k q = elim (Result-cases (get_operation_state operation)) [
    | inr (e, h) ↦ rw (call_all, poll_one, has_finished, h) refl
    | inl (status, h) ↦ elim (Bool-cases status.is_finished) [
      | inl b ↦ rw (call_all, poll_one, has_finished, h, b) refl
      | inr b ↦ rw (call_all, poll_one, has_finished, h, b) refl
    ]
  ]

  pop_twice {ℓ} : {A : Type ℓ} (k : String) (d : List (String × A)) → pop k (pop k d) ≡ pop k d
  pop_twice k [] = refl
  pop_twice k ((i, a) ∷ d) = elim (Bool-cases (i == k)) [
    | inl e ↦ rw (e) (pop_twice k d)
    | inr e ↦ rw (e, e) (ap (λ r. (i, a) ∷ r) (pop_twice k d))
  ]

  finalized_twice :
      (a b : Bool) (k : String) (p : Pending)
      → finalized b k (finalized a k p) ≡ finalized (a || b) k p
  finalized_twice false b k p = refl
  finalized_twice true false k p = refl
  finalized_twice true true k p =
      λ i. record { task_runs = pop_twice k p.task_runs i; operations = pop_twice k p.operations i }

  call_all-poll :
      (p : Pending) (items : List (String × Option String)) (frame : Frame) (k : String)
      (q : Pending)
      → call_all (poll_items get_operation_state p items frame).0 (record { run_id = some k }) q
        ≡ finalized (any has_finished items) k q
  unfolding call_all
  call_all-poll p [] frame k q = refl
  call_all-poll p ((run_id, operation) ∷ items) frame k q =
      call_all-append (poll_one get_operation_state p run_id operation) _
        (record { run_id = some k }) q
      ∙ call_all-poll p items (record frame { run_id = some run_id }) k _
      ∙ ap (finalized (any has_finished items) k) (call_all-one p run_id operation k q)
      ∙ finalized_twice (has_finished (run_id, operation)) (any has_finished items) k q

  -- After a poll whose last operation is that of `last`, its callbacks leave everything pending as it
  -- was if the client says of no operation that it has finished; if it says so of any, they remove the
  -- operation and the task run of `last`, whether that one has finished or not, and no others.
  pub poll_pending_operations-last :
      (p : Pending) (before : List (String × Option String)) (last : String)
      (operation : Option String)
      → p.operations ≡ before ++ (last, operation) ∷ []
      → let (jobs, frame) = poll_pending_operations get_operation_state p in
        call_all jobs frame p ≡ (
          if any has_finished p.operations
          then record { task_runs = pop last p.task_runs; operations = pop last p.operations }
          else p)
  unfolding poll_pending_operations
  poll_pending_operations-last p before last operation e =
      let unbound : Frame = record { run_id = none } in
      let bound : (poll_items get_operation_state p p.operations unbound).1
          ≡ record { run_id = some last } =
        ap (λ items. (poll_items get_operation_state p items unbound).1) e
        ∙ poll_items-frame p before last operation unbound in
      ap (λ frame. call_all (poll_items get_operation_state p p.operations unbound).0 frame p) bound
      ∙ call_all-poll p p.operations unbound last p
