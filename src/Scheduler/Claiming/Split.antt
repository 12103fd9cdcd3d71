-- ===== src/Scheduler/Claiming/Split.antt =====
-- How a round divides the metas: those that get a run, and those that are marked.
use yt_scheduler.Base.{
  String, ◌≡◌, refl, sym, ap, ◌∙◌, subst, true, false, inl, inr, Option, none, some, List, [], ◌∷◌,
  lookup, Bool-cases, Option-cases, arith,
}
use yt_scheduler.Base.Action.{
  Error, Result, ok, err, Action, continue, Result-cases, same_error, dag_initialization, >>=-eq-ok,
  pure, ◌>>=◌,
}
use yt_scheduler.Scheduler.{Services, Scheduling, cached, get_dag}
use yt_scheduler.Scheduler.Claiming.{Needing, Claims, Targets, place, split_rows}

-- The loop over the rows, from one state to another: each row is a target, whose DAG is in the cache or
-- is read and put there, or invalid, for reading its DAG raised a `DagInitializationError`.
pub data Divided {W R D : Type 0} (services : Services W R D)
    : Scheduling W D
      → List (Needing R)
      → List (Option String)
      → List (Needing R)
      → Scheduling W D
      → Type 0 where
  no_rows : (s : Scheduling W D) → Divided services s [] [] [] s
  in_cache :
      (row : Needing R) (rows : List (Needing R)) (ids : List (Option String))
      (invalid : List (Needing R)) (dag : D) (s s' : Scheduling W D)
      → lookup (services.dag_id row.0) s.dag_cache ≡ some dag
      → Divided services s rows ids invalid s'
      → Divided services s (row ∷ rows) (row.1 ∷ ids) invalid s'
  is_read :
      (row : Needing R) (rows : List (Needing R)) (ids : List (Option String))
      (invalid : List (Needing R)) (dag : D) (w : W) (s s' : Scheduling W D)
      → lookup (services.dag_id row.0) s.dag_cache ≡ none
      → services.from_serialized_repr row.0 s.world ≡ (ok dag, w)
      → Divided services (cached services row.0 dag w s) rows ids invalid s'
      → Divided services s (row ∷ rows) (row.1 ∷ ids) invalid s'
  unreadable :
      (row : Needing R) (rows : List (Needing R)) (ids : List (Option String))
      (invalid : List (Needing R)) (w : W) (s s' : Scheduling W D)
      → lookup (services.dag_id row.0) s.dag_cache ≡ none
      → services.from_serialized_repr row.0 s.world ≡ (err dag_initialization, w)
      → Divided services (record s { world = w }) rows ids invalid s'
      → Divided services s (row ∷ rows) ids (row ∷ invalid) s'

pub same-dag_initialization :
    (e : Error) → same_error e dag_initialization ≡ true → e ≡ dag_initialization
same-dag_initialization e h = ground arith

pub result_of : {A S : Type 0} {x : A × S} {a : A} {s : S} → x ≡ (a, s) → x.0 ≡ a
result_of h = ap (λ x. x.0) h

module _ {W R D : Type 0} (services : Services W R D) where
  -- The reading ended well, or with the exception that is caught, or with another one.
  pub data Read (ref : R) (w : W) : Type 0 where
    found : (dag : D) (w' : W) → services.from_serialized_repr ref w ≡ (ok dag, w') → Read ref w
    unreadable_now :
        (w' : W) → services.from_serialized_repr ref w ≡ (err dag_initialization, w') → Read ref w
    raised :
        (e : Error) (w' : W)
        → services.from_serialized_repr ref w ≡ (err e, w')
        → same_error e dag_initialization ≡ false
        → Read ref w

  pub reading : (ref : R) (w : W) → Read ref w
  reading ref w =
      let w' = (services.from_serialized_repr ref w).1 in
      elim (Result-cases (services.from_serialized_repr ref w).0) [
        | inl (dag, h) ↦ found dag w' (λ i. (h i, w'))
        | inr (e, h) ↦ elim (Bool-cases (same_error e dag_initialization)) [
          | inl b ↦
              let q = h ∙ ap (λ y. err y) (same-dag_initialization e b) in
              unreadable_now w' (λ i. (q i, w'))
          | inr b ↦ raised e w' (λ i. (h i, w')) b
        ]
      ]

  -- What `_get_dag` does, by the cache and by how the DAG is read.
  hit :
      (ref : R) (dag : D) (s : Scheduling W D)
      → lookup (services.dag_id ref) s.dag_cache ≡ some dag
      → get_dag services (some ref) s ≡ (ok (some dag), s)
  unfolding get_dag
  hit ref dag s e = rw (get_dag, e) refl

  module _ (ref : R) (w : W) (s : Scheduling W D)
      (miss : lookup (services.dag_id ref) s.dag_cache ≡ none) where
    miss_found :
        (dag : D)
        → services.from_serialized_repr ref s.world ≡ (ok dag, w)
        → get_dag services (some ref) s ≡ (ok (some dag), cached services ref dag w s)
    unfolding get_dag
    miss_found dag h =
        let h0 = result_of h in
        rw (get_dag, miss, h0) (λ i. (ok (some dag), cached services ref dag (h i).1 s))

    miss_unreadable :
        services.from_serialized_repr ref s.world ≡ (err dag_initialization, w)
        → get_dag services (some ref) s ≡ (ok none, record s { world = w })
    unfolding get_dag
    miss_unreadable h =
        let h0 = result_of h in
        rw (get_dag, miss, h0) (λ i. (ok none, record s { world = (h i).1 }))

    miss_raises :
        (e : Error)
        → services.from_serialized_repr ref s.world ≡ (err e, w)
        → same_error e dag_initialization ≡ false
        → get_dag services (some ref) s ≡ (err e, record s { world = w })
    unfolding get_dag
    miss_raises e h other =
        let h0 = result_of h in
        rw (get_dag, miss, h0, other) (λ i. (err e, record s { world = (h i).1 }))

  module _ (claims : Claims W R D) where
    abbrev place_next :
        Needing R → List (Needing R) → Option D → Action (Scheduling W D) (Targets services claims)
    place_next row rows got =
        split_rows services claims rows >>= (λ rest. pure (place services claims row got rest))

    -- A row that `_get_dag` leaves without an exception.
    after_row :
        (row : Needing R) (rows : List (Needing R)) (got : Option D) (s s1 : Scheduling W D)
        (targets : Targets services claims)
        → get_dag services (some row.0) s ≡ (ok got, s1)
        → (split_rows services claims (row ∷ rows) s).0 ≡ ok targets
        → (others : Targets services claims) × ((split_rows services claims rows s1).0 ≡ ok others)
          × (place services claims row got others ≡ targets)
          × ((split_rows services claims rows s1).1 ≡ (split_rows services claims (row ∷ rows) s).1)
    unfolding split_rows
    after_row row rows got s s1 targets h ended =
        let eq : split_rows services claims (row ∷ rows) s ≡ place_next row rows got s1 =
          ap (λ (x : Result (Option D) × Scheduling W D). continue x.0 (place_next row rows) x.1)
            h in
        let ended' =
          sym (ap (λ (x : Result (Targets services claims) × Scheduling W D). x.0) eq) ∙ ended in
        let (others, split, rest) =
          >>=-eq-ok (split_rows services claims rows)
            (λ rest. pure (place services claims row got rest)) s1 ended' in
        (
          others,
          split,
          ok_same (
              sym (ap (λ (x : Result (Targets services claims) × Scheduling W D). x.0) rest)
              ∙ ended'),
          sym (ap (λ (x : Result (Targets services claims) × Scheduling W D). x.1) (eq ∙ rest)),
        )
      where
        ok_same : {x y : Targets services claims} → ok x ≡ ok y → x ≡ y
        ok_same e = cc

    raised_row :
        (row : Needing R) (rows : List (Needing R)) (e : Error) (s s1 : Scheduling W D)
        (targets : Targets services claims)
        → get_dag services (some row.0) s ≡ (err e, s1)
        → (split_rows services claims (row ∷ rows) s).0 ≡ ok targets
        → ⊥
    unfolding split_rows
    raised_row row rows e s s1 targets h ended =
        let eq : split_rows services claims (row ∷ rows) s ≡ (err e, s1) =
          ap (λ (x : Result (Option D) × Scheduling W D). continue x.0 (place_next row rows) x.1)
            h in
        not_ok
          (sym (ap (λ (x : Result (Targets services claims) × Scheduling W D). x.0) eq) ∙ ended)
      where
        not_ok : ◌≡◌ {A = Result (Targets services claims)} (err e) (ok targets) → ⊥
        not_ok q = cc

    abbrev Splits :
        Scheduling W D → List (Needing R) → Targets services claims → Scheduling W D → Type 0
    Splits s rows targets s' = Divided services s rows targets.0 targets.1 s'

    pub split_rows-Divided :
        (rows : List (Needing R)) (s : Scheduling W D) (targets : Targets services claims)
        → (split_rows services claims rows s).0 ≡ ok targets
        → Divided services s rows targets.0 targets.1 (split_rows services claims rows s).1
    unfolding split_rows
    split_rows-Divided [] s targets h =
        let same : ([], []) ≡ targets = cc in
        subst (λ (x : Targets services claims). Splits s [] x s) same (no_rows s)
    split_rows-Divided (row ∷ rows) s targets h =
        elim (Option-cases (lookup (services.dag_id row.0) s.dag_cache)) [
          | inr (dag, e) ↦
              let (others, split, same, last) =
                after_row row rows (some dag) s s targets (hit row.0 dag s e) h in
              subst (λ x. Splits s (row ∷ rows) x (split_rows services claims (row ∷ rows) s).1)
                same
                (in_cache row rows others.0 others.1 dag s _ e
                  (subst (Splits s rows others) last (split_rows-Divided rows s others split)))
          | inl miss ↦ elim (reading row.0 s.world) [
            | found dag w r ↦
                let s1 = cached services row.0 dag w s in
                let (others, split, same, last) =
                  after_row row rows (some dag) s s1 targets (miss_found row.0 w s miss dag r) h in
                subst (λ x. Splits s (row ∷ rows) x (split_rows services claims (row ∷ rows) s).1)
                  same
                  (is_read row rows others.0 others.1 dag w s _ miss r
                    (subst (Splits s1 rows others) last (split_rows-Divided rows s1 others split)))
            | unreadable_now w r ↦
                let s1 = record s { world = w } in
                let (others, split, same, last) =
                  after_row row rows none s s1 targets (miss_unreadable row.0 w s miss r) h in
                subst (λ x. Splits s (row ∷ rows) x (split_rows services claims (row ∷ rows) s).1)
                  same
                  (unreadable row rows others.0 others.1 w s _ miss r
                    (subst (Splits s1 rows others) last (split_rows-Divided rows s1 others split)))
            | raised e w r other ↦ absurd (
                raised_row row rows e s (record s { world = w }) targets
                  (miss_raises row.0 w s miss e r other) h)
          ]
        ]
