-- ===== src/Pool/Exchange.antt =====
-- A worker that executes a job (`_PoolQueueable.execute`) and a caller that sets its callback
-- (`set_callback`), statement by statement, in any order.
use yt_scheduler.Base.{
  ℕ, suc, ◌+◌, ◌≤◌, ◌≡◌, refl, Bool, true, false, List, [], ◌∷◌, arith, if◌then◌else◌,
}

-- Where the worker is: before the result of the promise is set, before it looks at the callback,
-- in `_forward_callback`, and done.
pub data WorkerAt : Type 0 where
  running resulted forwarding told : WorkerAt

-- Where the caller is: before the callback is set, before the reference to the owner is set, before
-- it asks whether the promise is done, in `_forward_callback`, and done.
pub data CallerAt : Type 0 where
  outside callback_set ref_set forwarding checked : CallerAt

-- The fields that both use, and how often the callback was put into the queue of its owner.
pub record Exchange : Type 0 where
  pub worker : WorkerAt
  pub caller : CallerAt
  pub done : Bool
  pub callback : Bool
  pub owner : Bool
  pub delivered : ℕ

abbrev pub submitted : Exchange
submitted = record {
  worker = WorkerAt.running;
  caller = CallerAt.outside;
  done = false;
  callback = false;
  owner = false;
  delivered = 0;
}

-- `_forward_callback`, for an owner that is there: nothing, while there is no reference to it.
abbrev pub forward : Exchange → Exchange
forward e = if e.owner then record e { delivered = suc e.delivered } else e

-- The next statement of `execute`.
unfoldable pub worker_step : Exchange → Exchange
worker_step e = elim e.worker [
  | WorkerAt.running ↦ record e { worker = WorkerAt.resulted; done = true }
  | WorkerAt.resulted ↦
      if e.callback
      then record e { worker = WorkerAt.forwarding }
      else record e { worker = WorkerAt.told }
  | WorkerAt.forwarding ↦ record (forward e) { worker = WorkerAt.told }
  | WorkerAt.told ↦ e
]

-- The next statement of `set_callback`.
unfoldable pub caller_step : Exchange → Exchange
caller_step e = elim e.caller [
  | CallerAt.outside ↦ record e { caller = CallerAt.callback_set; callback = true }
  | CallerAt.callback_set ↦ record e { caller = CallerAt.ref_set; owner = true }
  | CallerAt.ref_set ↦
      if e.done
      then record e { caller = CallerAt.forwarding }
      else record e { caller = CallerAt.checked }
  | CallerAt.forwarding ↦ record (forward e) { caller = CallerAt.checked }
  | CallerAt.checked ↦ e
]

-- Whose statement comes next.
pub data Turn : Type 0 where
  worker caller : Turn

abbrev pub step : Turn → Exchange → Exchange
step Turn.worker e = worker_step e
step Turn.caller e = caller_step e

abbrev pub interleave : List Turn → Exchange → Exchange
interleave [] e = e
interleave (t ∷ ts) e = interleave ts (step t e)

abbrev is_done : WorkerAt → Bool
is_done WorkerAt.running = false
is_done _ = true

abbrev has_callback : CallerAt → Bool
has_callback CallerAt.outside = false
has_callback _ = true

abbrev has_owner : CallerAt → Bool
has_owner CallerAt.outside = false
has_owner CallerAt.callback_set = false
has_owner _ = true

abbrev worker_share : WorkerAt → ℕ
worker_share WorkerAt.told = 1
worker_share _ = 0

abbrev caller_share : CallerAt → ℕ
caller_share CallerAt.checked = 1
caller_share _ = 0

-- The fields follow the positions; each side has delivered at most once, and one of them has when
-- both are done.
pub record IsSound (e : Exchange) : Type 0 where
  pub done : e.done ≡ is_done e.worker
  pub callback : e.callback ≡ has_callback e.caller
  pub owner : e.owner ≡ has_owner e.caller
  pub at_most : e.delivered ≤ worker_share e.worker + caller_share e.caller
  pub at_least : e.worker ≡ WorkerAt.told → e.caller ≡ CallerAt.checked → 1 ≤ e.delivered

step-IsSound : (t : Turn) (e : Exchange) → IsSound e → IsSound (step t e)
unfolding worker_step caller_step
step-IsSound Turn.worker e h = ground (arith, h.done, h.callback, h.owner, h.at_most, h.at_least)
step-IsSound Turn.caller e h = ground (arith, h.done, h.callback, h.owner, h.at_most, h.at_least)

interleave-IsSound : (ts : List Turn) (e : Exchange) → IsSound e → IsSound (interleave ts e)
interleave-IsSound [] e h = h
interleave-IsSound (t ∷ ts) e h = interleave-IsSound ts (step t e) (step-IsSound t e h)

submitted-IsSound : IsSound submitted
submitted-IsSound = record {
  done = refl;
  callback = refl;
  owner = refl;
  at_most = omega arith;
  at_least = λ h. cc;
}

-- In whatever order the statements of the worker and of the caller run, once both are done the
-- callback has been put into the queue of its owner: once or twice.
pub interleave-delivered :
    (ts : List Turn)
    → (interleave ts submitted).worker ≡ WorkerAt.told
    → (interleave ts submitted).caller ≡ CallerAt.checked
    → (1 ≤ (interleave ts submitted).delivered) × ((interleave ts submitted).delivered ≤ 2)
interleave-delivered ts w c =
    let h = interleave-IsSound ts submitted submitted-IsSound in
    (h.at_least w c, ground (arith, h.at_most, w, c))
