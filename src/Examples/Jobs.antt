-- ===== src/Examples/Jobs.antt =====
-- A pool with room for two jobs, its queue, and callbacks.
use yt_scheduler.Base.{
  subst, nat_eq, ltb, ◌||◌, ℕ, ◌+◌, ◌≤◌, ◌≡◌, ◌⊎◌, refl, true, false, Option, none, some, List, [],
  ◌∷◌, In, arith,
}
use yt_scheduler.Base.Action.{ok, Action}
use yt_scheduler.Callback.{Inbox}
use yt_scheduler.Pool.{
  Pool, default_execution_options, queued, blocked, has_room, submit_or_execute,
}
use yt_scheduler.Pool.Queue.{IsBounded, submit_or_execute-default}
use yt_scheduler.Pool.Exchange.{
  Turn, WorkerAt, CallerAt, submitted, interleave, worker_step, caller_step, interleave-delivered,
}

abbrev count_up : Action ℕ ℕ
count_up s = (ok s, s + 1)

-- A full pool.
abbrev crowded : Pool ℕ ℕ
crowded = record {
  queue = 0 ∷ 1 ∷ [];
  max_queue_size = 2;
  next = 2;
  job = λ k. count_up;
  promise = λ k. none;
  stopped = false;
  state = 0;
}

-- The workers take all jobs in time.
abbrev wait : Option ℕ → Pool ℕ ℕ → Option (Pool ℕ ℕ)
wait t p = some (record p { queue = [] })

wait-roomy : (t : Option ℕ) (p p' : Pool ℕ ℕ) → wait t p ≡ some p' → has_room p' ≡ true
wait-roomy t p p' e =
    subst (λ (q : Pool ℕ ℕ). has_room q ≡ true) (taken e) (emptied p.max_queue_size)
  where
    taken : wait t p ≡ some p' → record p { queue = [] } ≡ p'
    taken e = cc

    emptied : (m : ℕ) → (nat_eq m 0 || ltb 0 m) ≡ true
    emptied m = ground arith

crowded-IsBounded : IsBounded crowded
crowded-IsBounded h = omega arith

submit_or_execute-default_example :
    ((submit_or_execute wait count_up default_execution_options crowded).0 ≡ blocked)
    ⊎ ((k : ℕ) × ((submit_or_execute wait count_up default_execution_options crowded).0 ≡ queued k)
        × In k (submit_or_execute wait count_up default_execution_options crowded).1.queue)
submit_or_execute-default_example =
    submit_or_execute-default wait wait-roomy count_up default_execution_options crowded refl refl

-- The callback is set and the owner referred to before the worker looks, and the caller asks for
-- the result after it is there: both forward the callback.
abbrev both : List Turn
both =
    Turn.caller ∷ Turn.caller ∷ Turn.worker ∷ Turn.worker ∷ Turn.worker ∷ Turn.caller ∷ Turn.caller
    ∷ []

delivered_twice : (interleave both submitted).delivered ≡ 2
unfolding worker_step caller_step
delivered_twice = refl

worker_done : (interleave both submitted).worker ≡ WorkerAt.told
unfolding worker_step caller_step
worker_done = refl

caller_done : (interleave both submitted).caller ≡ CallerAt.checked
unfolding worker_step caller_step
caller_done = refl

interleave-delivered_example :
    (1 ≤ (interleave both submitted).delivered) × ((interleave both submitted).delivered ≤ 2)
interleave-delivered_example = interleave-delivered both worker_done caller_done

-- A callback that adds its number to the state.
abbrev add : ℕ → Action (Inbox ℕ ℕ) (Unit {0})
add n box = (ok tt, record box { state = box.state + n })

abbrev box : Inbox ℕ ℕ
box = record { pending = 1 ∷ 2 ∷ 3 ∷ []; state = 0 }
