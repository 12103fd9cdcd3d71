-- ===== src/Scheduler/Claiming/Reread.antt =====
-- The job that reads the DAGs of invalid rows again.
use yt_scheduler.Base.{
  ℕ, suc, String, Bool, true, inl, inr, ◌⊎◌, ◌≡◌, refl, ap, ◌∙◌, false, Option, none, some, List,
  [], ◌∷◌,
}
use yt_scheduler.Base.Action.{Result, ok, err, Action, Error, same_error, dag_initialization}
use yt_scheduler.Retrier.{Retrier, init, run, loop, after, exhaust}
use yt_scheduler.Scheduler.{Services, Scheduling, cached}
use yt_scheduler.Scheduler.Claiming.{
  Needing, Claims, try_get_dag, load_dag, try_set_metas_invalid, add_invalid,
}
use yt_scheduler.Scheduler.Claiming.Split.{result_of, reading, found, unreadable_now, raised}

-- The retrier of `_try_set_metas_invalid`.
abbrev get_dag_retrier : Retrier Bool
get_dag_retrier = record {
  exceptions = some (dag_initialization ∷ []);
  ignore_exceptions = [];
  attempts = 2;
  initial_backoff = 500;
  max_backoff = none;
  retry_on = none;
  total_timeout = none;
  raise_on_exhaust = false;
  on_exhaust = some (λ e. false);
}

-- The job that reads the DAGs of the invalid rows again, from one state to another, with the metas
-- that it finds are to be marked: those whose DAG it cannot read twice, with a pause in between.
pub data Reread {W R D : Type 0} (services : Services W R D)
    (sleep : ℕ → Scheduling W D → Scheduling W D)
    : List (Needing R) → List (Option String) → Scheduling W D → Scheduling W D → Type 0 where
  all_read : (s : Scheduling W D) → Reread services sleep [] [] s s
  read_at_once :
      (row : Needing R) (rows : List (Needing R)) (ids : List (Option String)) (dag : D) (w : W)
      (s s' : Scheduling W D)
      → services.from_serialized_repr row.0 s.world ≡ (ok dag, w)
      → Reread services sleep rows ids (cached services row.0 dag w s) s'
      → Reread services sleep (row ∷ rows) ids s s'
  read_later :
      (row : Needing R) (rows : List (Needing R)) (ids : List (Option String)) (dag : D) (w w' : W)
      (s s' : Scheduling W D)
      → services.from_serialized_repr row.0 s.world ≡ (err dag_initialization, w)
      → services.from_serialized_repr row.0 (sleep 500 (record s { world = w })).world
        ≡ (ok dag, w')
      → Reread services sleep rows ids
          (cached services row.0 dag w' (sleep 500 (record s { world = w })))
          s'
      → Reread services sleep (row ∷ rows) ids s s'
  given_up :
      (row : Needing R) (rows : List (Needing R)) (ids : List (Option String)) (w w' : W)
      (s s' : Scheduling W D)
      → services.from_serialized_repr row.0 s.world ≡ (err dag_initialization, w)
      → services.from_serialized_repr row.0 (sleep 500 (record s { world = w })).world
        ≡ (err dag_initialization, w')
      → Reread services sleep rows ids
          (record (sleep 500 (record s { world = w })) { world = w' })
          s'
      → Reread services sleep (row ∷ rows) (row.1 ∷ ids) s s'

module _ {S : Type 0} (now : S → ℕ) (sleep : ℕ → S → S) (fn : Action S Bool) (fuel : ℕ)
    (s : S) where
  -- A run of the retrier, by its first two attempts.
  abbrev twice : Option (Result Bool × S)
  twice = run now sleep false get_dag_retrier (suc (suc fuel)) fn s

  run_first : (b : Bool) (s1 : S) → fn s ≡ (ok b, s1) → twice ≡ some (ok b, s1)
  unfolding run loop after exhaust
  run_first b s1 h = let h0 = result_of h in rw (run, loop, h0) (λ i. some (ok b, (h i).1))

  run_raises :
      (e : Error) (s1 : S)
      → fn s ≡ (err e, s1)
      → same_error e dag_initialization ≡ false
      → twice ≡ some (err e, s1)
  unfolding run loop after exhaust
  run_raises e s1 h other =
      let h0 = result_of h in rw (run, loop, h0, after, other) (λ i. some (err e, (h i).1))

  module _ (s1 : S) (failed : fn s ≡ (err dag_initialization, s1)) where
    second :
        (r : Result Bool) (s2 : S) → fn (sleep 500 s1) ≡ (r, s2) → fn (sleep 500 (fn s).1) ≡ (r, s2)
    second r s2 h = ap (λ (x : Result Bool × S). fn (sleep 500 x.1)) failed ∙ h

    run_later : (b : Bool) (s2 : S) → fn (sleep 500 s1) ≡ (ok b, s2) → twice ≡ some (ok b, s2)
    unfolding run loop after exhaust
    run_later b s2 h =
        let h0 = result_of failed in
        let q = second (ok b) s2 h in
        let h1 = result_of q in rw (run, loop, h0, after, h1) (λ i. some (ok b, (q i).1))

    run_raises_later :
        (e : Error) (s2 : S)
        → fn (sleep 500 s1) ≡ (err e, s2)
        → same_error e dag_initialization ≡ false
        → twice ≡ some (err e, s2)
    unfolding run loop after exhaust
    run_raises_later e s2 h other =
        let h0 = result_of failed in
        let q = second (err e) s2 h in
        let h1 = result_of q in rw (run, loop, h0, after, h1, other) (λ i. some (err e, (q i).1))

    run_gives_up :
        (s2 : S) → fn (sleep 500 s1) ≡ (err dag_initialization, s2) → twice ≡ some (ok false, s2)
    unfolding run loop after exhaust
    run_gives_up s2 h =
        let h0 = result_of failed in
        let q = second (err dag_initialization) s2 h in
        let h1 = result_of q in
        rw (run, loop, h0, after, h1, exhaust) (λ i. some (ok false, (q i).1))

module _ {W R D : Type 0} (services : Services W R D) (claims : Claims W R D)
    (now : Scheduling W D → ℕ) (sleep : ℕ → Scheduling W D → Scheduling W D) (fuel : ℕ) where
  -- The job ends: by an exception, or as `Reread` says.
  abbrev pub Ends : List (Needing R) → Scheduling W D → Type 0
  Ends rows s =
      (x : Result (List (Option String)) × Scheduling W D) × (try_set_metas_invalid services claims
          now sleep (suc (suc fuel)) rows s
        ≡ some x)
      × (((e : Error) × (x.0 ≡ err e))
          ⊎ ((ids : List (Option String)) × (x.0 ≡ ok ids) × Reread services sleep rows ids s x.1))

  ends :
      (row : Needing R) (rows : List (Needing R)) (s s1 : Scheduling W D) (e : Error)
      → load_dag services claims now sleep (suc (suc fuel)) row.0 s ≡ some (err e, s1)
      → Ends (row ∷ rows) s
  unfolding try_set_metas_invalid
  ends row rows s s1 e h = ((err e, s1), rw (try_set_metas_invalid, h) refl, inl (e, refl))

  goes_on :
      (row : Needing R) (rows : List (Needing R)) (s s1 : Scheduling W D) (b : Bool)
      → load_dag services claims now sleep (suc (suc fuel)) row.0 s ≡ some (ok b, s1)
      → ((ids : List (Option String)) (s' : Scheduling W D)
          → Reread services sleep rows ids s1 s'
          → Reread services sleep (row ∷ rows) (add_invalid services claims b row.1 ids) s s')
      → Ends rows s1
      → Ends (row ∷ rows) s
  unfolding try_set_metas_invalid
  goes_on row rows s s1 b h more ((r, s2), p, inl (e, q)) =
      ((err e, s2), rw (try_set_metas_invalid, h, p, q) refl, inl (e, refl))
  goes_on row rows s s1 b h more ((r, s2), p, inr (ids, q, rest)) = (
    (ok (add_invalid services claims b row.1 ids), s2),
    rw (try_set_metas_invalid, h, p, q) refl,
    inr (add_invalid services claims b row.1 ids, refl, more ids s2 rest),
  )

  -- What `_try_get_dag` does, by how the DAG is read.
  tried :
      (ref : R) (dag : D) (w : W) (s : Scheduling W D)
      → services.from_serialized_repr ref s.world ≡ (ok dag, w)
      → try_get_dag services claims ref s ≡ (ok true, cached services ref dag w s)
  tried ref dag w s h =
      let h0 = result_of h in
      rw (try_get_dag, h0) (λ i. (ok true, cached services ref dag (h i).1 s))

  failed :
      (ref : R) (e : Error) (w : W) (s : Scheduling W D)
      → services.from_serialized_repr ref s.world ≡ (err e, w)
      → try_get_dag services claims ref s ≡ (err e, record s { world = w })
  failed ref e w s h =
      let h0 = result_of h in rw (try_get_dag, h0) (λ i. (err e, record s { world = (h i).1 }))

  pub try_set_metas_invalid-Ends : (rows : List (Needing R)) (s : Scheduling W D) → Ends rows s
  unfolding try_set_metas_invalid load_dag init
  try_set_metas_invalid-Ends [] s = ((ok [], s), refl, inr ([], refl, all_read s))
  try_set_metas_invalid-Ends (row ∷ rows) s =
      let fn = try_get_dag services claims row.0 in
      elim (reading services row.0 s.world) [
        | found dag w h ↦
            let s1 = cached services row.0 dag w s in
            goes_on row rows s s1 true
              (run_first now sleep fn fuel s true s1 (tried row.0 dag w s h))
              (λ ids s' r. read_at_once row rows ids dag w s s' h r)
              (try_set_metas_invalid-Ends rows s1)
        | raised e w h other ↦
            ends row rows s (record s { world = w }) e
              (run_raises now sleep fn fuel s e (record s { world = w }) (failed row.0 e w s h)
                other)
        | unreadable_now w h ↦
            let s1 = record s { world = w } in
            let paused = sleep 500 s1 in
            let first = failed row.0 dag_initialization w s h in
            elim (reading services row.0 paused.world) [
              | found dag w' h' ↦
                  let s2 = cached services row.0 dag w' paused in
                  goes_on row rows s s2 true
                    (run_later now sleep fn fuel s s1 first true s2 (tried row.0 dag w' paused h'))
                    (λ ids s' r. read_later row rows ids dag w w' s s' h h' r)
                    (try_set_metas_invalid-Ends rows s2)
              | raised e w' h' other ↦
                  ends row rows s (record paused { world = w' }) e
                    (run_raises_later now sleep fn fuel s s1 first e (record paused { world = w' })
                      (failed row.0 e w' paused h') other)
              | unreadable_now w' h' ↦
                  let s2 = record paused { world = w' } in
                  goes_on row rows s s2 false
                    (run_gives_up now sleep fn fuel s s1 first s2
                      (failed row.0 dag_initialization w' paused h'))
                    (λ ids s' r. given_up row rows ids w w' s s' h h' r)
                    (try_set_metas_invalid-Ends rows s2)
            ]
      ]
