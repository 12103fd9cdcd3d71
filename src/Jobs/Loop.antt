-- ===== src/Jobs/Loop.antt =====
-- The loop of a job: scheduler.py `_run_scheduler_loop`, executor.py `_run_executor_loop`.
use yt_scheduler.Base.{
  ℕ, zero, suc, ◌<◌, Bool, true, false, ◌≡◌, refl, ap, subst, ◌∙◌, ◌↔◌, Option, none, some, arith,
  Bool-cases, inl, inr,
}
use yt_scheduler.Base.Action.{Error, Result, ok, err, Action, Result-cases}

module _ {W : Type 0} (stop : W → Bool) (round : Action W (Unit {0})) where
  -- Rounds until the event to stop is set, or until one raises; `none` means that the fuel ran out,
  -- which the source has no counterpart for.
  unfoldable pub run_loop : ℕ → W → Option (Result (Unit {0}) × W)
  run_loop zero w = none
  run_loop (suc fuel) w = elim (stop w) [
    | true ↦ some (ok tt, w)
    | false ↦ let (r, w') = round w in elim r [ err e ↦ some (err e, w') | ok _ ↦ run_loop fuel w' ]
  ]

-- A loop that ends after so many rounds that ended well.
pub data Ran {W : Type 0} (stop : W → Bool) (round : Action W (Unit {0}))
    : ℕ → W → Result (Unit {0}) → W → Type 0 where
  stopped : (w : W) → stop w ≡ true → Ran stop round zero w (ok tt) w
  crashed :
      (w w' : W) (e : Error)
      → stop w ≡ false
      → round w ≡ (err e, w')
      → Ran stop round zero w (err e) w'
  went_on :
      (n : ℕ) (w w' w'' : W) (r : Result (Unit {0}))
      → stop w ≡ false
      → round w ≡ (ok tt, w')
      → Ran stop round n w' r w''
      → Ran stop round (suc n) w r w''

module _ {W : Type 0} (stop : W → Bool) (round : Action W (Unit {0})) where
  ran :
      (fuel n : ℕ) (w w' : W) (r : Result (Unit {0}))
      → n < fuel
      → Ran stop round n w r w'
      → run_loop stop round fuel w ≡ some (r, w')
  unfolding run_loop
  ran zero n w w' r lt x = absurd (omega (arith, lt))
  ran (suc fuel) zero w _ _ lt (stopped _ h) = rw (run_loop, h) refl
  ran (suc fuel) zero w w' _ lt (crashed _ _ e go h) =
      rw (run_loop, go, h) (λ i. some (err e, (h i).1))
  ran (suc fuel) (suc n) w w'' r lt (went_on _ _ w' _ _ go h x) =
      rw (run_loop, go, h)
        (ap (λ (x : Result (Unit {0}) × W). run_loop stop round fuel x.1) h
          ∙ ran fuel n w' w'' r (omega (arith, lt)) x)

  ended :
      (fuel : ℕ) (w w' : W) (r : Result (Unit {0}))
      → run_loop stop round fuel w ≡ some (r, w')
      → (n : ℕ) × (n < fuel) × Ran stop round n w r w'
  unfolding run_loop
  ended zero w w' r h = cc
  ended (suc fuel) w w' r h = elim (Bool-cases (stop w)) [
    | inl set ↦
        let same : ◌≡◌ {A = Result (Unit {0}) × W} (ok tt, w) (r, w') =
          some_same (rw (run_loop, set) at h) in
        (
          zero,
          omega arith,
          subst (λ (x : Result (Unit {0}) × W). Ran stop round zero w x.0 x.1) same (stopped w set),
        )
    | inr go ↦ elim (Result-cases (round w).0) [
      | inr (e, bad) ↦
          let same : ◌≡◌ {A = Result (Unit {0}) × W} (err e, (round w).1) (r, w') =
            some_same (rw (run_loop, go, bad) at h) in
          (
            zero,
            omega arith,
            subst (λ (x : Result (Unit {0}) × W). Ran stop round zero w x.0 x.1) same
                (crashed w (round w).1 e go (λ i. (bad i, (round w).1))),
          )
      | inl (u, good) ↦
          let (n, lt, x) = ended fuel (round w).1 w' r (rw (run_loop, go, good) at h) in
          (suc n, omega (arith, lt), went_on n w (round w).1 w' r go (λ i. (good i, (round w).1)) x)
    ]
  ]
    where
      some_same : {x y : Result (Unit {0}) × W} → some x ≡ some y → x ≡ y
      some_same e = cc

  -- The loop ends, with that result, if and only if so many rounds as the fuel is larger than end
  -- well, the event being unset before each, and then the event is set or a round raises.
  pub run_loop-Ran :
      (fuel : ℕ) (w w' : W) (r : Result (Unit {0}))
      → (run_loop stop round fuel w ≡ some (r, w'))
        ↔ ((n : ℕ) × (n < fuel) × Ran stop round n w r w')
  run_loop-Ran fuel w w' r = (ended fuel w w' r, λ h. ran fuel h.0 w w' r h.1 h.2)
