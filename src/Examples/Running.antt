-- ===== src/Examples/Running.antt =====
-- A job that runs and reports, the batches in which the rows of jobs are written, and a worker.
use yt_scheduler.Base.{
  ℕ, zero, suc, ◌+◌, String, false, ◌≡◌, refl, ◌∙◌, ◌*◌, inl, inr, none, some, List, [], ◌∷◌, All,
  eq_iff,
}
use yt_scheduler.Base.Action.{ok, runtime_error}
use yt_scheduler.Jobs.{touch_job}
use yt_scheduler.Jobs.Runner.{raised, JobRunner, Beat, heartbeat, target}
use yt_scheduler.Jobs.Reported.{row, beats, Dated, IsForeign, target-Dated}
use yt_scheduler.Jobs.Flush.{chunked}
use yt_scheduler.Pool.{Pool, worker_round}
use yt_scheduler.Pool.Progress.{rounds}

abbrev scheduler : JobRunner ℕ
scheduler = record {
  job_type = "scheduler";
  job_id = "a";
  thread_id = 7;
  hostname = "host";
  state = none;
  result = none;
  exception = none;
  started = false;
  finished = false;
  stop = false;
  alive = false;
}

abbrev time : ℕ → ℕ
time i = i * 1000

abbrev date : ℕ → String
date zero = "start"
date (suc i) = "end"

abbrev iso : ℕ → String
iso i = "iso"

-- A heartbeat of the job itself, and one of another job that starts.
abbrev meanwhile : List Beat
meanwhile =
    record { now = 500; iso = "iso"; heartbeat = heartbeat scheduler none none }
    ∷ record {
      now = 600;
      iso = "iso";
      heartbeat = heartbeat (record scheduler { job_id = "b" }) (some (some "other")) none;
    }
    ∷ []

a-ne-b : {x : String} → "b" ≡ x → x ≡ "a" → ⊥
a-ne-b e e' = cc ((eq_iff "b" "a").1 (e ∙ e'))

meanwhile-IsForeign : All (IsForeign "scheduler" "a") meanwhile
meanwhile-IsForeign = (inr (inr refl), (inr (inl (a-ne-b refl)), tt))

-- A scheduler that crashes leaves a row with its dates.
crashed :
    row "scheduler" "a"
      (target time iso date
        (λ registry. (raised runtime_error, beats meanwhile registry))
        scheduler
        []).2
    ≡ some (record {
      job_id = "a";
      thread_id = some 7;
      hostname = "host";
      last_seen = 1000;
      last_seen_iso = "iso";
      start_date = some "start";
      end_date = some "end";
    })
unfolding target touch_job
crashed = refl

target-Dated_example : Dated "start" "end" (
    row "scheduler" "a"
      (target time iso date
        (λ registry. (raised runtime_error, beats meanwhile registry))
        scheduler
        []).2)
target-Dated_example =
    target-Dated time iso date (raised runtime_error) meanwhile scheduler []
      (λ e. cc ((eq_iff "a" "").1 e)) meanwhile-IsForeign

abbrev numbers : List ℕ
numbers = 1 ∷ 2 ∷ 3 ∷ []

two_chunks : chunked numbers 2 ≡ (1 ∷ 2 ∷ []) ∷ (3 ∷ []) ∷ []
unfolding chunked
two_chunks = refl

-- Two jobs that wait.
abbrev busy : Pool ℕ ℕ
busy = record {
  queue = 0 ∷ 1 ∷ [];
  max_queue_size = 2;
  next = 2;
  job = λ k s. (ok (s + k), s + 1);
  promise = λ k. none;
  stopped = false;
  state = 0;
}

second_result : (rounds 2 busy).promise 1 ≡ some (ok 2)
unfolding rounds worker_round
second_result = refl
