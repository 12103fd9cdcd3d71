-- ===== src/Pool/Queue.antt =====
-- The queue of the pool: its bound, the fallback of `submit_or_execute`, and `shutdown`.
use yt_scheduler.Base.{
  ℕ, suc, ◌+◌, ◌≤◌, ◌<◌, ◌≡◌, ◌≢◌, refl, ◌⊎◌, inl, inr, true, false, Option, none, some, List, [],
  ◌∷◌, ◌++◌, length, In, In-append_right, arith, Bool-cases, Option-cases,
}
use yt_scheduler.Base.Action.{err, Action, runtime_error}
use yt_scheduler.Pool.{
  Pool, ExecutionOptions, new_job, queued, full, blocked, resolve, has_room, submit,
  submit_or_execute, fail_all, shutdown,
}

length-snoc : (k : ℕ) (ks : List ℕ) → length (ks ++ k ∷ []) ≡ length ks + 1
length-snoc k [] = refl
length-snoc k (j ∷ ks) = omega (arith, length-snoc k ks)

module _ {S A : Type 0} where
  -- A pool with a bound keeps to it.
  abbrev pub IsBounded : Pool S A → Type 0
  IsBounded p = 0 < p.max_queue_size → length p.queue ≤ p.max_queue_size

  appended :
      (p : Pool S A) (k : ℕ)
      → has_room p ≡ true
      → IsBounded (record p { queue = p.queue ++ k ∷ [] })
  appended p k room positive = ground (arith, length-snoc k p.queue)

  module _ (wait : Option ℕ → Pool S A → Option (Pool S A))
      (roomy : (t : Option ℕ) (p p' : Pool S A) → wait t p ≡ some p' → has_room p' ≡ true) where
    -- How a submission goes.
    data Goes (fn : Action S A) (o : ExecutionOptions) (p : Pool S A) : Type 0 where
      placed :
          (p' : Pool S A)
          → has_room p' ≡ true
          → submit wait fn o p ≡ (queued p.next, record p' { queue = p'.queue ++ p.next ∷ [] })
          → Goes fn o p
      refused :
          (o.block ≡ true → o.timeout ≢ none)
          → submit wait fn o p ≡ (full, new_job fn p)
          → Goes fn o p
      stuck : submit wait fn o p ≡ (blocked, new_job fn p) → Goes fn o p

    goes : (fn : Action S A) (o : ExecutionOptions) (p : Pool S A) → Goes fn o p
    unfolding submit
    goes fn o p = elim (Bool-cases (has_room (new_job fn p))) [
      | inl room ↦ placed (new_job fn p) room (rw (submit, room) refl)
      | inr crowded ↦ elim (Bool-cases o.block) [
        | inr polite ↦ refused (λ b. cc) (rw (submit, crowded, polite) refl)
        | inl patient ↦ elim (Option-cases (wait o.timeout (new_job fn p))) [
          | inr (p', e) ↦
              placed p' (roomy o.timeout (new_job fn p) p' e)
                (rw (submit, crowded, patient, e) refl)
          | inl e ↦ elim (Option-cases o.timeout) [
            | inl forever ↦ stuck (rw (submit, crowded, patient, e, forever) refl)
            | inr (t, some_time) ↦
                refused (λ b none_given. cc) (rw (submit, crowded, patient, e, some_time) refl)
          ]
        ]
      ]
    ]

    submit-IsBounded :
        (fn : Action S A) (o : ExecutionOptions) (p : Pool S A)
        → IsBounded p
        → IsBounded (submit wait fn o p).1
    submit-IsBounded fn o p h = elim (goes fn o p) [
      | placed p' room e ↦ rw e (appended p' p.next room)
      | refused _ e ↦ rw e h
      | stuck e ↦ rw e h
    ]

    -- The queue never outgrows its bound.
    pub submit_or_execute-IsBounded :
        (fn : Action S A) (o : ExecutionOptions) (p : Pool S A)
        → IsBounded p
        → IsBounded (submit_or_execute wait fn o p).1
    unfolding submit_or_execute
    submit_or_execute-IsBounded fn o p h = elim (Bool-cases o.force_sync) [
      | inl forced ↦ rw (forced) h
      | inr free ↦ elim (goes fn o p) [
        | placed p' room e ↦ rw (free, e) (appended p' p.next room)
        | stuck e ↦ rw (free, e) h
        | refused _ e ↦ elim (goes fn (record o { block = true }) (new_job fn p)) [
          | placed p' room e' ↦ rw (free, e, e') (appended p' (suc p.next) room)
          | stuck e' ↦ rw (free, e, e') h
          | refused _ e' ↦ rw (free, e, e') h
        ]
      ]
    ]

    -- Without a timeout, and not forced to, `submit_or_execute` never executes a job itself: it
    -- leaves it in the queue, or waits without end.
    pub submit_or_execute-default :
        (fn : Action S A) (o : ExecutionOptions) (p : Pool S A)
        → o.force_sync ≡ false
        → o.timeout ≡ none
        → (submit_or_execute wait fn o p).0 ≡ blocked
          ⊎ ((k : ℕ) × ((submit_or_execute wait fn o p).0 ≡ queued k)
              × In k (submit_or_execute wait fn o p).1.queue)
    unfolding submit_or_execute
    submit_or_execute-default fn o p s t = elim (goes fn o p) [
      | placed p' room e ↦
          rw (s, e) (inr (p.next, refl, In-append_right p.next p'.queue _ (inl refl)))
      | stuck e ↦ rw (s, e) (inl refl)
      | refused _ e ↦ elim (goes fn (record o { block = true }) (new_job fn p)) [
        | placed p' room e' ↦
            rw (s, e, e')
              (inr (suc p.next, refl, In-append_right (suc p.next) p'.queue _ (inl refl)))
        | stuck e' ↦ rw (s, e, e') (inl refl)
        | refused timed e' ↦ absurd (timed refl t)
      ]
    ]

  fail_all-fails :
      (ks : List ℕ) (p : Pool S A) (k : ℕ)
      → (In k ks ⊎ (p.promise k ≡ some (err runtime_error)))
      → (fail_all ks p).promise k ≡ some (err runtime_error)
  fail_all-fails [] p k (inl m) = elim m [ ]
  fail_all-fails [] p k (inr e) = e
  fail_all-fails (j ∷ ks) p k h =
      fail_all-fails ks (resolve j (err runtime_error) (record p { queue = ks })) k (later h)
    where
      later :
          In k (j ∷ ks) ⊎ (p.promise k ≡ some (err runtime_error))
          → In k ks
            ⊎ ((resolve j (err runtime_error) (record p { queue = ks })).promise k
                ≡ some (err runtime_error))
      later (inl (inl e)) = inr (ground (arith, e))
      later (inl (inr m)) = inl m
      later (inr e) = inr (ground (arith, e))

  fail_all-queue : (ks : List ℕ) (p : Pool S A) → (fail_all ks p).queue ≡ []
  fail_all-queue [] p = refl
  fail_all-queue (j ∷ ks) p =
      fail_all-queue ks (resolve j (err runtime_error) (record p { queue = ks }))

  -- A shutdown empties the queue, and the promise of each job that waited ends with an exception,
  -- so that nobody waits for it.
  pub shutdown-fails :
      (p : Pool S A) (k : ℕ)
      → In k p.queue
      → ((shutdown p).queue ≡ []) × ((shutdown p).promise k ≡ some (err runtime_error))
  unfolding shutdown
  shutdown-fails p k m = (
    fail_all-queue p.queue (record p { stopped = true }),
    fail_all-fails p.queue (record p { stopped = true }) k (inl m),
  )
