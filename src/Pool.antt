-- ===== src/Pool.antt =====
-- pool.py: jobs, their promises and the bounded queue. Pool/Exchange is about what a worker and the
-- caller of `on_complete` do at the same time.
pub mod Queue
pub mod Exchange
pub mod Progress
use yt_scheduler.Base.{
  ℕ, suc, ◌+◌, Bool, true, false, ◌||◌, Option, none, some, List, [], ◌∷◌, ◌++◌, length, ltb,
  nat_eq, if◌then◌else◌,
}
use yt_scheduler.Base.Action.{Error, Result, ok, err, Action, runtime_error}

-- `ExecutionOptions`
pub record ExecutionOptions : Type 0 where
  pub force_sync : Bool
  pub block : Bool
  pub timeout : Option ℕ

-- `_default_execution_options`
abbrev pub default_execution_options : ExecutionOptions
default_execution_options = record { force_sync = false; block = false; timeout = none }

-- A pool with the state that its jobs work on. A job and its promise have a number, `next` is the
-- first that is free; a promise without a result is `none`. A size of 0 is no bound.
pub record Pool (S A : Type 0) : Type 0 where
  pub queue : List ℕ
  pub max_queue_size : ℕ
  pub next : ℕ
  pub job : ℕ → Action S A
  pub promise : ℕ → Option (Result A)
  pub stopped : Bool
  pub state : S

-- How a submission ends: the number of the job that waits in the queue or was executed at once, or
-- the exception `queue.Full`, or never, while no worker takes a job.
pub data Submitted : Type 0 where
  queued : ℕ → Submitted
  executed : ℕ → Submitted
  full : Submitted
  blocked : Submitted

module _ {S A : Type 0} where
  -- promise.set_result, promise.set_exception
  abbrev pub resolve : ℕ → Result A → Pool S A → Pool S A
  resolve k r p = record p { promise = λ j. if nat_eq j k then some r else p.promise j }

  -- `_PoolQueueable.__init__`
  abbrev pub new_job : Action S A → Pool S A → Pool S A
  new_job fn p = record p {
    next = suc p.next;
    job = λ j. if nat_eq j p.next then fn else p.job j;
    promise = λ j. if nat_eq j p.next then none else p.promise j;
  }

  -- `_PoolQueueable.execute`, up to its callback
  abbrev pub execute : ℕ → Pool S A → Pool S A
  execute k p = let (r, s) = p.job k p.state in resolve k r (record p { state = s })

  abbrev pub has_room : Pool S A → Bool
  has_room p = nat_eq p.max_queue_size 0 || ltb (length p.queue) p.max_queue_size

  abbrev put : ℕ → Pool S A → Submitted × Pool S A
  put k p = (queued k, record p { queue = p.queue ++ k ∷ [] })

  -- `try: return …` / `except queue.Full: handler`
  abbrev except_full :
      (Pool S A → Submitted × Pool S A) → Submitted × Pool S A → Submitted × Pool S A
  except_full handler (full, p) = handler p
  except_full handler (queued k, p) = (queued k, p)
  except_full handler (executed k, p) = (executed k, p)
  except_full handler (blocked, p) = (blocked, p)

  -- What other threads make of a full pool until it has room, if that comes to pass in time; without
  -- a timeout, at all.
  module _ (wait : Option ℕ → Pool S A → Option (Pool S A)) where
    -- self._q.put(q, block=…, timeout=…)
    abbrev put_waiting : ExecutionOptions → ℕ → Pool S A → Submitted × Pool S A
    put_waiting o k p =
        if has_room p
        then put k p
        else if o.block
        then elim (wait o.timeout p) [
          | some p' ↦ put k p'
          | none ↦ elim o.timeout [ none ↦ (blocked, p) | some t ↦ (full, p) ]
        ]
        else (full, p)

    -- `submit`
    unfoldable pub submit : Action S A → ExecutionOptions → Pool S A → Submitted × Pool S A
    submit fn o p = put_waiting o p.next (new_job fn p)

    -- `_sync_fallback`
    abbrev pub sync_fallback : Action S A → Pool S A → Submitted × Pool S A
    sync_fallback fn p = (executed p.next, execute p.next (new_job fn p))

    -- `submit_or_execute`
    unfoldable pub submit_or_execute :
        Action S A → ExecutionOptions → Pool S A → Submitted × Pool S A
    unfolding submit
    submit_or_execute fn o p =
        if o.force_sync
        then sync_fallback fn p
        else except_full
            (λ p'. except_full (sync_fallback fn) (submit fn (record o { block = true }) p'))
            (submit fn o p)

  -- A round of `_worker_loop`: a job is taken and executed, if there is one.
  unfoldable pub worker_round : Pool S A → Pool S A
  worker_round p =
      if p.stopped
      then p
      else elim p.queue [ [] ↦ p | k ∷ rest ↦ execute k (record p { queue = rest }) ]

  -- The loop of `shutdown`.
  abbrev pub fail_all : List ℕ → Pool S A → Pool S A
  fail_all [] p = record p { queue = [] }
  fail_all (k ∷ rest) p = fail_all rest (resolve k (err runtime_error) (record p { queue = rest }))

  -- `shutdown`, without joining the threads
  unfoldable pub shutdown : Pool S A → Pool S A
  shutdown p = fail_all p.queue (record p { stopped = true })
