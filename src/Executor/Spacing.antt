-- ===== src/Executor/Spacing.antt =====
-- The interval between two attempts to start a task run.
use yt_scheduler.Base.{
  lookup-assign, lookup-assign_ne, lookup, assign, ℕ, ◌+◌, ◌≤◌, String, Bool, ◌≡◌, ◌≢◌, ◌⊎◌, ◌<◌,
  refl, sym, ap, ◌∙◌, subst, inl, inr, some, List, [], ◌∷◌, ◌++◌, In, All, length, arith,
  Bool-cases, ltb, Option,
}
use yt_scheduler.Rows.{TaskRunRow}
use yt_scheduler.Executor.{last_attempt, start_taskruns}

module _ (interval : ℕ) (now later : ℕ → ℕ) where
  abbrev round : ℕ → List TaskRunRow → List (String × ℕ) → List TaskRunRow × List (String × ℕ)
  round = start_taskruns interval now later

  -- None of the task runs has this id.
  abbrev pub Apart : String → List TaskRunRow → Type 0
  Apart k trs = All (λ (x : TaskRunRow). x.run_id ≢ k) trs

  abbrev early : ℕ → TaskRunRow → List (String × ℕ) → Bool
  early i x attempts = ltb (now i) (last_attempt (lookup x.run_id attempts) + interval)

  -- Other task runs leave the time of the last attempt alone.
  lookup-round :
      (k : String) (i : ℕ) (trs : List TaskRunRow) (attempts : List (String × ℕ))
      → Apart k trs
      → lookup k (round i trs attempts).1 ≡ lookup k attempts
  unfolding start_taskruns
  lookup-round k i [] attempts h = refl
  lookup-round k i (x ∷ trs) attempts h = elim (Bool-cases (early i x attempts)) [
    | inl e ↦ rw e (lookup-round k (i + 1) trs attempts h.1)
    | inr e ↦ rw e (
        lookup-round k (i + 1) trs (assign x.run_id (later i) attempts) h.1
        ∙ lookup-assign_ne x.run_id k (later i) attempts h.0)
  ]

  not_started :
      (tr : TaskRunRow) (i : ℕ) (trs : List TaskRunRow) (attempts : List (String × ℕ))
      → Apart tr.run_id trs
      → In tr (round i trs attempts).0
      → ⊥
  unfolding start_taskruns
  not_started tr i [] attempts h m = elim m [ ]
  not_started tr i (x ∷ trs) attempts h m = elim (Bool-cases (early i x attempts)) [
    | inl e ↦ not_started tr (i + 1) trs attempts h.1 (rw e at m)
    | inr e ↦ elim (rw e at m) [
      | inl same ↦ h.0 (ap (λ (y : TaskRunRow). y.run_id) (sym same))
      | inr m' ↦ not_started tr (i + 1) trs (assign x.run_id (later i) attempts) h.1 m'
    ]
  ]

  -- The attempt of the `i`-th task run: made and noted, or too early.
  abbrev pub Tried :
      TaskRunRow → ℕ → List (String × ℕ) → List TaskRunRow × List (String × ℕ) → Type 0
  Tried tr i attempts (started, times) =
      ((last_attempt (lookup tr.run_id attempts) + interval ≤ now i)
        × In tr started
        × (lookup tr.run_id times ≡ some (later i)))
      ⊎ ((now i < last_attempt (lookup tr.run_id attempts) + interval)
          × (In tr started → ⊥)
          × (lookup tr.run_id times ≡ lookup tr.run_id attempts))

  attempted :
      (i : ℕ) (tr : TaskRunRow) (trs : List TaskRunRow) (attempts : List (String × ℕ))
      → Apart tr.run_id trs
      → Tried tr i attempts (round i (tr ∷ trs) attempts)
  unfolding start_taskruns
  attempted i tr trs attempts h = elim (Bool-cases (early i tr attempts)) [
    | inl e ↦ rw (e) (
        inr (
          ground arith,
          not_started tr (i + 1) trs attempts h,
          lookup-round tr.run_id (i + 1) trs attempts h,
        ))
    | inr e ↦ rw (e) (
        inl (
          ground arith,
          inl refl,
          lookup-round tr.run_id (i + 1) trs (assign tr.run_id (later i) attempts) h
              ∙ lookup-assign tr.run_id (later i) attempts,
        ))
  ]

  attempted_later :
      (tr x : TaskRunRow) (j : ℕ) (attempts attempts' : List (String × ℕ))
      (started : List TaskRunRow) (times : List (String × ℕ))
      → x.run_id ≢ tr.run_id
      → lookup tr.run_id attempts' ≡ lookup tr.run_id attempts
      → Tried tr j attempts' (started, times)
      → Tried tr j attempts (started, times) × Tried tr j attempts (x ∷ started, times)
  attempted_later tr x j attempts attempts' started times apart same h = (
    subst (λ o. goal o started) same h,
    elim (subst (λ o. goal o started) same h) [
      | inl (d, m, noted) ↦ inl (d, inr m, noted)
      | inr (d, n, kept) ↦ inr (
        d,
        (λ m. elim m [ inl e ↦ apart (ap (λ (y : TaskRunRow). y.run_id) (sym e)) | inr m' ↦ n m' ]),
        kept,
      )
    ],
  )
    where
      goal : Option ℕ → List TaskRunRow → Type 0
      goal o begun =
          ((last_attempt o + interval ≤ now j)
            × In tr begun
            × (lookup tr.run_id times ≡ some (later j)))
          ⊎ ((now j < last_attempt o + interval) × (In tr begun → ⊥) × (lookup tr.run_id times ≡ o))

  attempted_at :
      (i j : ℕ) (before after : List TaskRunRow) (tr : TaskRunRow) (attempts : List (String × ℕ))
      → i + length before ≡ j
      → Apart tr.run_id before
      → Apart tr.run_id after
      → Tried tr j attempts (round i (before ++ tr ∷ after) attempts)
  unfolding start_taskruns
  attempted_at i j [] after tr attempts e h h' =
      subst (λ n. Tried tr n attempts (round i (tr ∷ after) attempts)) (omega (arith, e))
        (attempted i tr after attempts h')
  attempted_at i j (x ∷ before) after tr attempts e h h' = elim (Bool-cases (early i x attempts)) [
    | inl b ↦ rw (b) (attempted_at (i + 1) j before after tr attempts (omega (arith, e)) h.1 h')
    | inr b ↦
        let noted = assign x.run_id (later i) attempts in
        let rest = round (i + 1) (before ++ tr ∷ after) noted in
        rw (b)
          (attempted_later tr x j attempts noted rest.0 rest.1 h.0
            (lookup-assign_ne x.run_id tr.run_id (later i) attempts h.0)
            (attempted_at (i + 1) j before after tr noted (omega (arith, e)) h.1 h')).1
  ]

  -- Of task runs that are given once each, the one at place `i` is handed to the pool if its last
  -- attempt was an interval or more before the `i`-th reading of the clock, and then the reading after
  -- that is noted as the time of its attempt; otherwise it is not, and the time of its last attempt
  -- stays. `attempts` holds the times of the last attempts, with 0 for none.
  pub start_taskruns-spaced :
      (before after : List TaskRunRow) (tr : TaskRunRow) (attempts : List (String × ℕ))
      → Apart tr.run_id before
      → Apart tr.run_id after
      → let (started, times) =
          start_taskruns interval now later 0 (before ++ tr ∷ after) attempts in
        ((last_attempt (lookup tr.run_id attempts) + interval ≤ now (length before))
          × In tr started
          × (lookup tr.run_id times ≡ some (later (length before))))
        ⊎ ((now (length before) < last_attempt (lookup tr.run_id attempts) + interval)
            × (In tr started → ⊥)
            × (lookup tr.run_id times ≡ lookup tr.run_id attempts))
  start_taskruns-spaced before after tr attempts h h' =
      attempted_at 0 (length before) before after tr attempts (omega arith) h h'
