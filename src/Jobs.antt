-- ===== src/Jobs.antt =====
-- job.py: the jobs that have reported, and the shard that a job takes. Times are in milliseconds.
pub mod Index
pub mod Seen
pub mod Runner
pub mod Reported
pub mod Flush
pub mod Loop
use yt_scheduler.Base.{
  ℕ, suc, ◌-◌, String, Bool, true, Option, none, some, List, [], ◌∷◌, ◌++◌, map, keep, length,
  contains, is_empty, leb, ◌==◌, lookup, assign, if◌then◌else◌,
}
use Prim.Native.Nat.{Ordering}
use Prim.Native.String.{compare}

-- `_JobRun`
pub record JobRun : Type 0 where
  pub job_id : String
  pub thread_id : Option ℕ
  pub hostname : String
  pub last_seen : ℕ
  pub last_seen_iso : String
  pub start_date : Option String
  pub end_date : Option String

-- The options of a heartbeat; `none` is a date that they have no key for.
pub record Heartbeat : Type 0 where
  pub job_type : String
  pub job_id : String
  pub thread_id : ℕ
  pub hostname : String
  pub start_date : Option (Option String)
  pub end_date : Option (Option String)

-- `_active_jobs`: by type, and in a type by id.
abbrev pub Jobs : Type 0
Jobs = List (String × List (String × JobRun))

abbrev pub given {ℓ} : {A : Type ℓ} → Option A → A → A
given none old = old
given (some v) old = v

-- The row that a heartbeat leaves for a job, by the row it had.
abbrev pub seen_run : ℕ → String → Heartbeat → Option JobRun → JobRun
seen_run now iso o none = record {
  job_id = o.job_id;
  thread_id = some o.thread_id;
  hostname = o.hostname;
  last_seen = now;
  last_seen_iso = iso;
  start_date = given o.start_date none;
  end_date = given o.end_date none;
}
seen_run now iso o (some row) = record {
  job_id = o.job_id;
  thread_id = some o.thread_id;
  hostname = o.hostname;
  last_seen = now;
  last_seen_iso = iso;
  start_date = given o.start_date row.start_date;
  end_date = given o.end_date row.end_date;
}

abbrev pub of_type : String → Jobs → List (String × JobRun)
of_type job_type jobs = given (lookup job_type jobs) []

-- `touch_job`; `now` and `iso` are what the clock shows.
unfoldable pub touch_job : ℕ → String → Heartbeat → Jobs → Jobs
touch_job now iso o jobs =
    let runs = of_type o.job_type jobs in
    if o.job_id == ""
    then assign o.job_type runs jobs
    else assign o.job_type (assign o.job_id (seen_run now iso o (lookup o.job_id runs)) runs) jobs

abbrev pub values : List (String × JobRun) → List JobRun
values runs = map (λ (k, run). run) runs

-- `get_all_jobs`, for a type
abbrev pub get_all_jobs : String → Jobs → List JobRun
get_all_jobs job_type jobs = values (of_type job_type jobs)

-- `get_active_jobs`; `ttl` is `_heartbeat_ttl`.
unfoldable pub get_active_jobs : ℕ → ℕ → String → Jobs → List String
get_active_jobs ttl now job_type jobs =
    map (λ run. run.job_id)
      (keep (λ run. leb (now - run.last_seen) ttl) (get_all_jobs job_type jobs))

-- list.sort, on texts
abbrev pub insert : String → List String → List String
insert k [] = k ∷ []
insert k (x ∷ xs) = elim (compare k x) [ Ordering.gt ↦ x ∷ insert k xs | _ ↦ k ∷ x ∷ xs ]

abbrev pub sort : List String → List String
sort [] = []
sort (x ∷ xs) = insert x (sort xs)

-- list.index, for a text that the list holds
abbrev pub index : String → List String → ℕ
index k [] = 0
index k (x ∷ xs) = let rest = index k xs in if x == k then 0 else suc rest

-- `compute_shard_index` of the job that sends the heartbeat `self`: its shard and the number of
-- shards. `now` is the time of the count, `later` that of the heartbeat.
unfoldable pub compute_shard_index : ℕ → ℕ → ℕ → String → Heartbeat → Jobs → (ℕ × ℕ) × Jobs
unfolding touch_job get_active_jobs
compute_shard_index ttl now later iso self jobs =
    let active = get_active_jobs ttl now self.job_type jobs in
    if is_empty active
    then ((0, 0), jobs)
    else if contains self.job_id active
    then ((index self.job_id active, length active), jobs)
    else (let all = sort (active ++ self.job_id ∷ []) in
        ((index self.job_id all, length all), touch_job later iso self jobs))
