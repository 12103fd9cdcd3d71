-- ===== src/Jobs/Seen.antt =====
-- How long a heartbeat keeps a job among the active ones.
use yt_scheduler.Base.{
  ℕ, ◌-◌, ◌+◌, ◌≤◌, String, ◌≡◌, ◌≢◌, refl, subst, inl, inr, true, Option, none, some, List, [],
  ◌∷◌, In, keep_intro, map_member, arith, Bool-cases, ◌==◌, differs, lookup, lookup-assign, assign,
  leb, map, keep,
}
use yt_scheduler.Jobs.{
  Jobs, JobRun, Heartbeat, seen_run, of_type, touch_job, get_active_jobs, values,
}

seen_id :
    (now : ℕ) (iso : String) (o : Heartbeat) (old : Option JobRun)
    → (seen_run now iso o old).job_id ≡ o.job_id
seen_id now iso o none = refl
seen_id now iso o (some row) = refl

seen_at :
    (now : ℕ) (iso : String) (o : Heartbeat) (old : Option JobRun)
    → (seen_run now iso o old).last_seen ≡ now
seen_at now iso o none = refl
seen_at now iso o (some row) = refl

young_enough :
    (seen now ttl last : ℕ) → last ≡ seen → now ≤ seen + ttl → leb (now - last) ttl ≡ true
young_enough seen now ttl last same h = ground arith

assigned_value :
    (k : String) (run : JobRun) (runs : List (String × JobRun))
    → In run (values (assign k run runs))
assigned_value k run [] = inl refl
assigned_value k run ((j, old) ∷ runs) = elim (Bool-cases (j == k)) [
  | inl e ↦ rw (e, In) (inl refl)
  | inr e ↦ rw (e, In) (inr (assigned_value k run runs))
]

-- A job that has sent a heartbeat is active, as long as the time to live has not passed since then.
pub touch_job-active :
    (ttl seen now : ℕ) (iso : String) (o : Heartbeat) (jobs : Jobs)
    → o.job_id ≢ ""
    → now ≤ seen + ttl
    → In o.job_id (get_active_jobs ttl now o.job_type (touch_job seen iso o jobs))
unfolding touch_job get_active_jobs
touch_job-active ttl seen now iso o jobs named young =
    let runs = of_type o.job_type jobs in
    let run = seen_run seen iso o (lookup o.job_id runs) in
    rw (differs named, lookup-assign o.job_type (assign o.job_id run runs) jobs)
      (subst
        (λ (k : String). In k (
          map (λ r. r.job_id)
            (keep (λ r. leb (now - r.last_seen) ttl) (values (assign o.job_id run runs)))))
        (seen_id seen iso o (lookup o.job_id runs))
        (map_member (λ r. r.job_id) run _
          (keep_intro (λ r. leb (now - r.last_seen) ttl) run _ (assigned_value o.job_id run runs)
            (young_enough seen now ttl run.last_seen (seen_at seen iso o (lookup o.job_id runs))
              young))))
