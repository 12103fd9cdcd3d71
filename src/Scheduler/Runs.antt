-- ===== src/Scheduler/Runs.antt =====
-- Which runs the loop handles, and what it keeps of the DAGs.
use yt_scheduler.Base.{
  String, ◌≡◌, subst, sym, ap, ◌∙◌, inl, inr, Option, none, some, List, [], ◌∷◌, ◌++◌, lookup,
  lookup-assign_ne, Bool-cases, Option-cases,
}
use yt_scheduler.Base.Action.{
  Result, ok, err, Action, Result-cases, same_error, dag_initialization, attribute_error, ◌>>=◌,
  >>=-eq-ok, continue, pure,
}
use yt_scheduler.Rows.{DagRunRow}
use yt_scheduler.Scheduler.{
  Services, Scheduling, outside, get_dag, find_dag, schedule_ready, examine, schedule_run,
  schedule_dag_runs,
}

-- A statement that ended well goes on with its value, from the state it left.
>>=-ok :
    {S A B : Type 0} (m : Action S A) (f : A → Action S B) (s : S) {a : A}
    → (m s).0 ≡ ok a
    → (m >>= f) s ≡ f a (m s).1
>>=-ok m f s h = ap (λ r. continue r f (m s).1) h

>>=-result :
    {S A B : Type 0} (m : Action S A) (f : A → Action S B) (s : S) {r : Result A} {s' : S}
    → m s ≡ (r, s')
    → (m >>= f) s ≡ continue r f s'
>>=-result {S} {A} m f s h = ap (λ (x : Result A × S). continue x.0 f x.1) h

-- What both parts of a statement keep, the statement keeps, whether it raises or not.
>>=-keeps :
    {S A B : Type 0} (P : S → Type 0) (m : Action S A) (f : A → Action S B) (s : S)
    → P (m s).1
    → ((a : A) (x : S) → P x → P (f a x).1)
    → P ((m >>= f) s).1
>>=-keeps P m f s h k = elim (Result-cases (m s).0) [
  | inl (a, e) ↦ rw (>>=-ok m f s e) (k a (m s).1 h)
  | inr (x, e) ↦ rw e h
]

module _ {W R D : Type 0} (services : Services W R D) where
  -- The loop ends at a run whose DAG is not there or cannot be read: with an `AttributeError`, and
  -- before it handles any later run. The runs before it were handled without an exception.
  pub schedule_dag_runs-stops :
      (before later : List DagRunRow) (run : DagRunRow) (s s' s'' : Scheduling W D)
      → schedule_dag_runs services before s ≡ (ok tt, s')
      → find_dag services run s' ≡ (ok none, s'')
      → schedule_dag_runs services (before ++ run ∷ later) s ≡ (err attribute_error, s'')
  unfolding schedule_dag_runs
  schedule_dag_runs-stops [] later run s s' s'' h f =
      let same : s' ≡ s = sym (ap (λ (x : Result (Unit {0}) × Scheduling W D). x.1) h) in
      let found : find_dag services run s ≡ (ok none, s'') =
        subst (λ x. find_dag services run x ≡ (ok none, s'')) same f in
      >>=-result (schedule_run services run) (λ _. schedule_dag_runs services later) s
        (>>=-result (find_dag services run) (examine services run) s found)
  schedule_dag_runs-stops (x ∷ before) later run s s' s'' h f =
      let (a, done, rest) =
        >>=-eq-ok (schedule_run services x) (λ _. schedule_dag_runs services before) s
          (ap (λ (y : Result (Unit {0}) × Scheduling W D). y.0) h) in
      >>=-ok (schedule_run services x) (λ _. schedule_dag_runs services (before ++ run ∷ later)) s
        done
      ∙ schedule_dag_runs-stops before later run (schedule_run services x s).1 s' s'' (sym rest ∙ h)
          f

  module _ (k : String) (dag : D) where
    get_dag-cache :
        (ref : Option R) (s : Scheduling W D)
        → lookup k s.dag_cache ≡ some dag
        → lookup k (get_dag services ref s).1.dag_cache ≡ some dag
    unfolding get_dag
    get_dag-cache none s h = h
    get_dag-cache (some ref) s h = elim (Option-cases (lookup (services.dag_id ref) s.dag_cache)) [
      | inr (cached, e) ↦ rw (get_dag, e) h
      | inl e ↦ elim (Result-cases (services.from_serialized_repr ref s.world).0) [
        | inl (new, e') ↦
            rw (get_dag, e, e')
              (lookup-assign_ne (services.dag_id ref) k new s.dag_cache
                  (λ q. apart (sym e ∙ ap (λ j. lookup j s.dag_cache) q ∙ h))
                ∙ h)
        | inr (x, e') ↦ elim (Bool-cases (same_error x dag_initialization)) [
          | inl b ↦ rw (get_dag, e, e', b) h
          | inr b ↦ rw (get_dag, e, e', b) h
        ]
      ]
    ]
      where
        apart : ◌≡◌ {A = Option D} none (some dag) → ⊥
        apart q = cc

    schedule_run-cache :
        (run : DagRunRow) (s : Scheduling W D)
        → lookup k s.dag_cache ≡ some dag
        → lookup k (schedule_run services run s).1.dag_cache ≡ some dag
    schedule_run-cache run s h =
        >>=-keeps (λ x. lookup k x.dag_cache ≡ some dag) (find_dag services run)
          (examine services run) s
          (>>=-keeps (λ x. lookup k x.dag_cache ≡ some dag)
            (outside services (services.get_dag_ref run.dag_id)) (get_dag services) s h
            get_dag-cache)
          examined
      where
        ready :
            (tids : List String) (x : Scheduling W D)
            → lookup k x.dag_cache ≡ some dag
            → lookup k (schedule_ready services run tids x).1.dag_cache ≡ some dag
        ready [] x h = h
        ready (tid ∷ tids) x h =
            >>=-keeps (λ y. lookup k y.dag_cache ≡ some dag)
              (outside services (services.schedule_trs run.run_id (tid ∷ tids))) (λ _. pure tt) x h
              (λ a y h. h)

        examined :
            (o : Option D) (x : Scheduling W D)
            → lookup k x.dag_cache ≡ some dag
            → lookup k (examine services run o x).1.dag_cache ≡ some dag
        examined none x h = h
        examined (some d) x h =
            >>=-keeps (λ y. lookup k y.dag_cache ≡ some dag)
              (outside services (services.update_state d run)) (schedule_ready services run) x h
              ready

    -- A DAG that is in the cache stays there as it is, whatever the references say later, and
    -- whether the loop ends with an exception or not.
    pub schedule_dag_runs-cache :
        (runs : List DagRunRow) (s : Scheduling W D)
        → lookup k s.dag_cache ≡ some dag
        → lookup k (schedule_dag_runs services runs s).1.dag_cache ≡ some dag
    unfolding schedule_dag_runs
    schedule_dag_runs-cache [] s h = h
    schedule_dag_runs-cache (run ∷ runs) s h =
        >>=-keeps (λ x. lookup k x.dag_cache ≡ some dag) (schedule_run services run)
          (λ _. schedule_dag_runs services runs) s (schedule_run-cache run s h)
          (λ _ x h'. schedule_dag_runs-cache runs x h')
