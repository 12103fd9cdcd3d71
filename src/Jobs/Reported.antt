-- ===== src/Jobs/Reported.antt =====
-- What a runner leaves in its state and in the registry of jobs.
use yt_scheduler.Base.{
  ℕ, String, Bool, true, ◌≡◌, ◌≢◌, ◌⊎◌, refl, sym, ap, ◌∙◌, subst, inl, inr, Option, none, some,
  List, [], ◌∷◌, lookup, assign, lookup-assign, lookup-assign_ne, Bool-cases, eq_iff, differs, ◌==◌,
  All, if◌then◌else◌,
}
use yt_scheduler.State.{JobState}
use yt_scheduler.Jobs.{Jobs, JobRun, Heartbeat, touch_job, of_type, seen_run, given}
use yt_scheduler.Jobs.Runner.{
  Outcome, returned, system_exit, raised, interrupted, JobRunner, Beat, beat, heartbeat, settle,
  target, execute,
}

-- The row of a job.
abbrev pub row : String → String → Jobs → Option JobRun
row job_type job_id jobs = lookup job_id (of_type job_type jobs)

-- A heartbeat writes the row of its job, and of no other.
row-touch_job :
    (now : ℕ) (iso : String) (o : Heartbeat) (jobs : Jobs)
    → o.job_id ≢ ""
    → row o.job_type o.job_id (touch_job now iso o jobs)
      ≡ some (seen_run now iso o (row o.job_type o.job_id jobs))
unfolding touch_job
row-touch_job now iso o jobs named =
    let runs = of_type o.job_type jobs in
    let run = seen_run now iso o (lookup o.job_id runs) in
    rw (differs named, lookup-assign o.job_type (assign o.job_id run runs) jobs)
      (lookup-assign o.job_id run runs)

row-assign :
    (t job_type k : String) (runs : List (String × JobRun)) (jobs : Jobs)
    → row job_type k (assign t runs jobs)
      ≡ (if t == job_type then lookup k runs else row job_type k jobs)
row-assign t job_type k runs jobs = elim (Bool-cases (t == job_type)) [
  | inl e ↦ rw e (
      subst (λ j. row j k (assign t runs jobs) ≡ lookup k runs) ((eq_iff t job_type).0 e)
        (rw (lookup-assign t runs jobs) refl))
  | inr e ↦ rw e (
      ap (λ o. lookup k (given o []))
        (lookup-assign_ne t job_type runs jobs (λ q. absurd (cc ((eq_iff t job_type).1 q, e)))))
]

row-touch_job_ne :
    (now : ℕ) (iso : String) (o : Heartbeat) (jobs : Jobs) (job_type job_id : String)
    → (o.job_type ≢ job_type) ⊎ (o.job_id ≢ job_id)
    → row job_type job_id (touch_job now iso o jobs) ≡ row job_type job_id jobs
unfolding touch_job
row-touch_job_ne now iso o jobs job_type job_id apart =
    let runs = of_type o.job_type jobs in
    let run = seen_run now iso o (lookup o.job_id runs) in
    let mine = λ (q : o.job_type ≡ job_type). ap (λ t. lookup job_id (of_type t jobs)) q in
    elim (Bool-cases (o.job_type == job_type)) [
      | inr e ↦ elim (Bool-cases (o.job_id == "")) [
        | inl e' ↦ rw e' (row-assign o.job_type job_type job_id runs jobs ∙ rw e refl)
        | inr e' ↦
            rw e'
              (row-assign o.job_type job_type job_id (assign o.job_id run runs) jobs ∙ rw e refl)
      ]
      | inl e ↦
          let same = (eq_iff o.job_type job_type).0 e in
          elim (Bool-cases (o.job_id == "")) [
            | inl e' ↦ rw e' (row-assign o.job_type job_type job_id runs jobs ∙ rw e (mine same))
            | inr e' ↦ rw e' (
                row-assign o.job_type job_type job_id (assign o.job_id run runs) jobs
                ∙ rw e (lookup-assign_ne o.job_id job_id run runs (other same apart) ∙ mine same))
          ]
    ]
  where
    other :
        o.job_type ≡ job_type → (o.job_type ≢ job_type) ⊎ (o.job_id ≢ job_id) → o.job_id ≢ job_id
    other same (inl q) = absurd (q same)
    other same (inr q) = q

-- The dates of a row are those at the start, if a row has them.
abbrev HasStart : String → Option JobRun → Type 0
HasStart date none = ⊥
HasStart date (some run) = run.start_date ≡ some date

-- A heartbeat that another thread sends: of another job, or without a start date.
abbrev pub IsForeign : String → String → Beat → Type 0
IsForeign job_type job_id b =
    (b.heartbeat.job_type ≢ job_type)
    ⊎ (b.heartbeat.job_id ≢ job_id)
    ⊎ (b.heartbeat.start_date ≡ none)

abbrev pub beats : List Beat → Jobs → Jobs
beats [] jobs = jobs
beats (b ∷ bs) jobs = beats bs (beat b jobs)

HasStart-seen :
    (now : ℕ) (iso date : String) (o : Heartbeat) (old : Option JobRun)
    → o.start_date ≡ none
    → HasStart date old
    → HasStart date (some (seen_run now iso o old))
HasStart-seen now iso date o none h s = absurd s
HasStart-seen now iso date o (some run) h s = rw h s

module _ (job_type job_id date : String) (named : job_id ≢ "") where
  HasStart-beat :
      (b : Beat) (jobs : Jobs)
      → IsForeign job_type job_id b
      → HasStart date (row job_type job_id jobs)
      → HasStart date (row job_type job_id (beat b jobs))
  HasStart-beat b jobs (inl q) s =
      subst (HasStart date)
        (sym (row-touch_job_ne b.now b.iso b.heartbeat jobs job_type job_id (inl q))) s
  HasStart-beat b jobs (inr (inl q)) s =
      subst (HasStart date)
        (sym (row-touch_job_ne b.now b.iso b.heartbeat jobs job_type job_id (inr q))) s
  HasStart-beat b jobs (inr (inr undated)) s =
      let o = b.heartbeat in
      let skip = λ (apart : (o.job_type ≢ job_type) ⊎ (o.job_id ≢ job_id)).
        subst (HasStart date) (sym (row-touch_job_ne b.now b.iso o jobs job_type job_id apart)) s in
      elim (Bool-cases (o.job_type == job_type)) [
        | inr e ↦ skip (inl (λ q. absurd (cc ((eq_iff o.job_type job_type).1 q, e))))
        | inl e ↦ elim (Bool-cases (o.job_id == job_id)) [
          | inr e' ↦ skip (inr (λ q. absurd (cc ((eq_iff o.job_id job_id).1 q, e'))))
          | inl e' ↦
              let t = (eq_iff o.job_type job_type).0 e in
              let k = (eq_iff o.job_id job_id).0 e' in
              let at =
                λ (js : Jobs). ap (λ y. row y o.job_id js) t ∙ ap (λ y. row job_type y js) k in
              subst (HasStart date)
                (sym (row-touch_job b.now b.iso o jobs (λ q. named (sym k ∙ q))) ∙ at (beat b jobs))
                (HasStart-seen b.now b.iso date o (row o.job_type o.job_id jobs) undated
                  (subst (HasStart date) (sym (at jobs)) s))
        ]
      ]

  HasStart-beats :
      (bs : List Beat) (jobs : Jobs)
      → All (IsForeign job_type job_id) bs
      → HasStart date (row job_type job_id jobs)
      → HasStart date (row job_type job_id (beats bs jobs))
  HasStart-beats [] jobs all s = s
  HasStart-beats (b ∷ bs) jobs all s =
      HasStart-beats bs (beat b jobs) all.1 (HasStart-beat b jobs all.0 s)

-- The dates that the row of a job has.
abbrev pub Dated : String → String → Option JobRun → Type 0
Dated start end none = ⊥
Dated start end (some run) = (run.start_date ≡ some start) × (run.end_date ≡ some end)

Dated-seen :
    (now : ℕ) (iso start end : String) (o : Heartbeat) (old : Option JobRun)
    → o.start_date ≡ none
    → o.end_date ≡ some (some end)
    → HasStart start old
    → Dated start end (some (seen_run now iso o old))
Dated-seen now iso start end o none h h' s = absurd s
Dated-seen now iso start end o (some run) h h' s = (rw h s, rw h' refl)

module _ {A : Type 0} (time : ℕ → ℕ) (iso date : ℕ → String) where
  -- However a job ends, and whatever heartbeats of other jobs, or without a start date, come while it
  -- runs: at its end its row in the registry has the dates of its start and of its end.
  pub target-Dated :
      (o : Outcome A) (bs : List Beat) (r : JobRunner A) (jobs : Jobs)
      → r.job_id ≢ ""
      → All (IsForeign r.job_type r.job_id) bs
      → Dated (date 0) (date 1) (
          row r.job_type r.job_id
            (target time iso date (λ registry. (o, beats bs registry)) r jobs).2)
  unfolding target
  target-Dated o bs r jobs named foreign =
      let start = heartbeat r (some (some (date 0))) (some none) in
      let begun = touch_job (time 0) (iso 0) start jobs in
      let last = heartbeat r none (some (some (date 1))) in
      subst (Dated (date 0) (date 1))
        (sym (row-touch_job (time 1) (iso 1) last (beats bs begun) named))
        (Dated-seen (time 1) (iso 1) (date 0) (date 1) last _ refl refl (
          HasStart-beats r.job_type r.job_id (date 0) named bs begun foreign (
            subst (HasStart (date 0)) (sym (row-touch_job (time 0) (iso 0) start jobs named))
              (begun_start (row r.job_type r.job_id jobs)))))
    where
      begun_start :
          (old : Option JobRun)
          → HasStart (date 0) (
              some (seen_run (time 0) (iso 0) (heartbeat r (some (some (date 0))) (some none)) old))
      begun_start none = refl
      begun_start (some run) = refl

  -- How a runner ends: it is started and finished; its state is `success` after a return or
  -- `SystemExit`, `failed` with the exception after an exception, which is raised again, and it stays
  -- `running` after any other.
  abbrev pub Settled : Outcome A → Outcome A → JobRunner A → JobRunner A → Type 0
  Settled (returned ret) o r r' =
      (o ≡ returned ret)
      × (r'.state ≡ some JobState.success)
      × (r'.result ≡ ret)
      × (r'.exception ≡ r.exception)
  Settled system_exit o r r' =
      (o ≡ returned none)
      × (r'.state ≡ some JobState.success)
      × (r'.result ≡ none)
      × (r'.exception ≡ r.exception)
  Settled (raised e) o r r' =
      (o ≡ raised e)
      × (r'.state ≡ some JobState.failed)
      × (r'.result ≡ r.result)
      × (r'.exception ≡ some e)
  Settled interrupted o r r' =
      (o ≡ interrupted)
      × (r'.state ≡ some JobState.running)
      × (r'.result ≡ r.result)
      × (r'.exception ≡ r.exception)

  target-Settled :
      (run : Jobs → Outcome A × Jobs) (r : JobRunner A) (jobs : Jobs)
      → let begun =
          touch_job (time 0) (iso 0) (heartbeat r (some (some (date 0))) (some none)) jobs in
        let (o, r', _) = target time iso date run r jobs in
        Settled (run begun).0 o r r' × (r'.started ≡ true) × (r'.finished ≡ true)
  unfolding target
  target-Settled run r jobs =
      settle_cases
        (run (touch_job (time 0) (iso 0) (heartbeat r (some (some (date 0))) (some none)) jobs)).0
    where
      settle_cases :
          (o : Outcome A)
          → let (o', r') = settle o (record r { state = some JobState.running; started = true }) in
            Settled o o' r (record r' { finished = true })
            × (r'.started ≡ true)
            × (◌≡◌ {A = Bool} true true)
      settle_cases (returned ret) = ((refl, refl, refl, refl), refl, refl)
      settle_cases system_exit = ((refl, refl, refl, refl), refl, refl)
      settle_cases (raised e) = ((refl, refl, refl, refl), refl, refl)
      settle_cases interrupted = ((refl, refl, refl, refl), refl, refl)

  -- The scheduler and the executor report success also where their loop raised an exception, or could
  -- not start for want of a pool: the runner ends without an exception and in the state `success`.
  pub target-execute :
      (has_pool : Bool) (loop : Jobs → Outcome A × Jobs) (r : JobRunner A) (jobs : Jobs)
      → let (o, r', _) = target time iso date (execute has_pool loop) r jobs in
        (o ≡ returned none)
        × (r'.state ≡ some JobState.success)
        × (r'.exception ≡ r.exception)
        × (r'.finished ≡ true)
  unfolding target execute
  target-execute has_pool loop r jobs = (refl, refl, refl, refl)
