-- ===== src/Examples/Registry.antt =====
-- Two schedulers that have reported, at 1000 and at 2000.
use yt_scheduler.Base.{ℕ, String, ◌≡◌, ◌≢◌, refl, inl, inr, none, some, [], ◌∷◌, In, eq_iff}
use yt_scheduler.Jobs.{Jobs, JobRun, Heartbeat, touch_job, get_active_jobs, compute_shard_index}
use yt_scheduler.Jobs.Index.{compute_shard_index-apart}

abbrev heartbeat : String → Heartbeat
heartbeat job_id = record {
  job_type = "scheduler";
  job_id = job_id;
  thread_id = 7;
  hostname = "host";
  start_date = none;
  end_date = none;
}

abbrev seen : String → ℕ → JobRun
seen job_id now = record {
  job_id = job_id;
  thread_id = some 7;
  hostname = "host";
  last_seen = now;
  last_seen_iso = "iso";
  start_date = none;
  end_date = none;
}

abbrev two_jobs : Jobs
two_jobs = ("scheduler", ("b", seen "b" 1000) ∷ ("a", seen "a" 2000) ∷ []) ∷ []

touched_twice :
    touch_job 2000 "iso" (heartbeat "a") (touch_job 1000 "iso" (heartbeat "b") []) ≡ two_jobs
unfolding touch_job
touched_twice = refl

both_active : get_active_jobs 30000 5000 "scheduler" two_jobs ≡ "b" ∷ "a" ∷ []
unfolding get_active_jobs
both_active = refl

b_active : In "b" (get_active_jobs 30000 5000 "scheduler" two_jobs)
b_active = rw both_active (inl refl)

a_active : In "a" (get_active_jobs 30000 5000 "scheduler" two_jobs)
a_active = rw both_active (inr (inl refl))

compute_shard_index-apart_example :
    let x = (compute_shard_index 30000 5000 5001 "iso" (heartbeat "a") two_jobs).0 in
    let y = (compute_shard_index 30000 5000 5001 "iso" (heartbeat "b") two_jobs).0 in
    (x.1 ≡ y.1) × (x.0 ≢ y.0)
compute_shard_index-apart_example =
    compute_shard_index-apart 30000 5000 5001 "iso" (heartbeat "a") (heartbeat "b") two_jobs refl
      (λ e. cc ((eq_iff "a" "b").1 e)) a_active b_active
