-- ===== src/Jobs/Runner.antt =====
-- job.py: `JobRunner`, which runs the entry of a job in a thread, or at once for a lightweight job,
-- and reports its start and its end by heartbeats; and the entries of the scheduler and the
-- executor, `_execute` of scheduler.py and executor.py.
use yt_scheduler.Base.{ℕ, String, Bool, true, false, Option, none, some, if◌then◌else◌}
use yt_scheduler.Base.Action.{Error, Result, ok, err, assertion_error, runtime_error}
use yt_scheduler.State.{JobState}
use yt_scheduler.Jobs.{Jobs, Heartbeat, touch_job}

-- How a call ends: it returns a value or `None`, raises `SystemExit`, an `Exception`, or another
-- exception that is none of these.
pub data Outcome (A : Type 0) : Type 0 where
  returned : Option A → Outcome A
  system_exit : Outcome A
  raised : Error → Outcome A
  interrupted : Outcome A

-- A runner and the job's options in its heartbeats; `alive` tells whether it has a thread that runs.
pub record JobRunner (A : Type 0) : Type 0 where
  pub job_type : String
  pub job_id : String
  pub thread_id : ℕ
  pub hostname : String
  pub state : Option JobState
  pub result : Option A
  pub exception : Option Error
  pub started : Bool
  pub finished : Bool
  pub stop : Bool
  pub alive : Bool

-- A heartbeat with the time at which it comes, as a number and as a text.
pub record Beat : Type 0 where
  pub now : ℕ
  pub iso : String
  pub heartbeat : Heartbeat

abbrev pub beat : Beat → Jobs → Jobs
beat b jobs = touch_job b.now b.iso b.heartbeat jobs

module _ {A : Type 0} where
  -- `_heartbeat_tick` of the job; `start_date` and `end_date` are the options, if they have the key.
  abbrev pub heartbeat : JobRunner A → Option (Option String) → Option (Option String) → Heartbeat
  heartbeat r start_date end_date = record {
    job_type = r.job_type;
    job_id = r.job_id;
    thread_id = r.thread_id;
    hostname = r.hostname;
    start_date = start_date;
    end_date = end_date;
  }

  -- The statements around the call of `execute_callable`: what they make of its end.
  abbrev pub settle : Outcome A → JobRunner A → Outcome A × JobRunner A
  settle (returned ret) r = (returned ret, record r { state = some JobState.success; result = ret })
  settle system_exit r = (returned none, record r { state = some JobState.success; result = none })
  settle (raised e) r = (raised e, record r { state = some JobState.failed; exception = some e })
  settle interrupted r = (interrupted, r)

  -- `_target`, with `_prepare_for_execution` and `_complete_execution`. The clock shows `time i` and
  -- `iso i` at the two heartbeats, and `date i` before them. The entry works on the registry of
  -- jobs, in which other threads report meanwhile.
  unfoldable pub target :
      (ℕ → ℕ)
      → (ℕ → String)
      → (ℕ → String)
      → (Jobs → Outcome A × Jobs)
      → JobRunner A
      → Jobs
      → Outcome A × JobRunner A × Jobs
  target time iso date execute r jobs =
      let running = record r { state = some JobState.running; started = true } in
      let begun =
        touch_job (time 0) (iso 0) (heartbeat r (some (some (date 0))) (some none)) jobs in
      let (o, jobs') = execute begun in
      let (o', r') = settle o running in
      (
        o',
        record r' { finished = true },
        touch_job (time 1) (iso 1) (heartbeat r none (some (some (date 1)))) jobs',
      )

  -- `_run_async`, up to the start of the thread
  unfoldable pub run_async : JobRunner A → Result (JobRunner A)
  run_async r = if r.alive then err runtime_error else ok (record r { stop = false; alive = true })

  -- `stop`: the loops of the jobs ask for the event; the join is left.
  abbrev pub stop_runner : JobRunner A → JobRunner A
  stop_runner r = record r { stop = true }

  -- `assert self.pool is not None` and the loop, in the `try` of `_execute`
  abbrev pub try_loop : Bool → (Jobs → Outcome A × Jobs) → Jobs → Outcome A × Jobs
  try_loop has_pool loop jobs = if has_pool then loop jobs else (raised assertion_error, jobs)

  -- `_execute` of the scheduler and of the executor: `return None` in `finally` takes the place of
  -- whatever the body ends with.
  unfoldable pub execute : Bool → (Jobs → Outcome A × Jobs) → Jobs → Outcome A × Jobs
  execute has_pool loop jobs =
      let (o, jobs') = try_loop has_pool loop jobs in (returned none, jobs')
