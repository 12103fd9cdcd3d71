-- ===== src/Yt/Model.antt =====
-- Tables as lists of rows in the order of writing, the later of two rows with one key counting:
-- a client that meets the laws.
use yt_scheduler.Base.{
  ℕ, zero, suc, String, ◌≡◌, refl, sym, subst, inl, inr, ◌⊎◌, true, Bool, Option, none, some, List,
  [], ◌∷◌, ◌++◌, In, In-keep, keep, length, ◌<◌, ◌≤◌, arith, Option-cases, eq_iff,
}
use yt_scheduler.Base.Action.{ok}
use yt_scheduler.Rows.{TaskRunRow, DagRunRow, matches_task_run, matches_dag_run}
use yt_scheduler.Yt.{YtClient, YtLaws, find_row, or_stored}
use yt_scheduler.DagRef.{DagMetaRow, DagRefRow, TaskRefRow}
use yt_scheduler.Yt.Lookup.{find_row-eq-some, find_row-append}

module _ {R : Type 0} (key : R → String) where
  -- The rows that count.
  abbrev current : List R → List R
  current [] = []
  current (r ∷ rs) =
      let rest = current rs in
      elim (find_row key (key r) rs) [ some later ↦ rest | none ↦ r ∷ rest ]

  find-current : (r : R) (rows : List R) → In r (current rows) → find_row key (key r) rows ≡ some r
  find-current r [] m = elim m [ ]
  find-current r (x ∷ xs) m = elim (Option-cases (find_row key (key x) xs)) [
    | inr (y, e) ↦ rw (find-current r xs (rw (e, In) at m))
    | inl e ↦ elim (counted e m) [
      | inl p ↦ ground (arith, eq_iff (key x) (key x))
      | inr later ↦ rw (find-current r xs later)
    ]
  ]
    where
      counted :
          find_row key (key x) xs ≡ none → In r (current (x ∷ xs)) → (r ≡ x) ⊎ In r (current xs)
      counted e m = rw (e, In) at m

  current_cons : (r x : R) (xs : List R) → In r (current xs) → In r (current (x ∷ xs))
  current_cons r x xs m = elim (Option-cases (find_row key (key x) xs)) [
    | inr (y, e) ↦ rw (e, In) m
    | inl e ↦ rw (e, In) (inr m)
  ]

  current-find :
      (k : String) (r : R) (rows : List R) → find_row key k rows ≡ some r → In r (current rows)
  current-find k r [] h = cc
  current-find k r (x ∷ xs) h = elim (Option-cases (find_row key k xs)) [
    | inr (y, e) ↦ current_cons r x xs (current-find k r xs (ground arith))
    | inl e ↦ ground (arith, eq_iff (key x) k)
  ]

-- At least one row where there is one; a limit of 0 is no limit.
abbrev pub limit_to : {R : Type 0} → Option ℕ → List R → List R
limit_to none rows = rows
limit_to (some n) [] = []
limit_to (some zero) (r ∷ rs) = r ∷ rs
limit_to (some (suc zero)) (r ∷ rs) = r ∷ []
limit_to (some (suc (suc n))) (r ∷ rs) = r ∷ limit_to (some (suc n)) rs

pub limit_to_member :
    {R : Type 0} (limit : Option ℕ) (rows : List R) (r : R) → In r (limit_to limit rows) → In r rows
limit_to_member none rows r m = m
limit_to_member (some zero) [] r m = m
limit_to_member (some (suc zero)) [] r m = m
limit_to_member (some (suc (suc n))) [] r m = m
limit_to_member (some zero) (x ∷ xs) r m = m
limit_to_member (some (suc zero)) (x ∷ xs) r (inl e) = inl e
limit_to_member (some (suc zero)) (x ∷ xs) r (inr m) = elim m [ ]
limit_to_member (some (suc (suc n))) (x ∷ xs) r (inl e) = inl e
limit_to_member (some (suc (suc n))) (x ∷ xs) r (inr m) =
    inr (limit_to_member (some (suc n)) xs r m)

pub limited :
    {R : Type 0} (limit : Option ℕ) (rows : List R) (r : R) → limit_to limit rows ≡ [] → ¬ In r rows
limited none [] r e m = m
limited (some n) [] r e m = m
limited none (x ∷ xs) r e m = cc
limited (some zero) (x ∷ xs) r e m = cc
limited (some (suc zero)) (x ∷ xs) r e m = cc
limited (some (suc (suc n))) (x ∷ xs) r e m = cc

pub length-limit_to-le :
    {R : Type 0} (n : ℕ) (rows : List R) → 0 < n → length (limit_to (some n) rows) ≤ n
length-limit_to-le n [] h = omega arith
length-limit_to-le (suc zero) (r ∷ rs) h = omega arith
length-limit_to-le (suc (suc n)) (r ∷ rs) h =
    omega (arith, length-limit_to-le (suc n) rs (omega arith))
length-limit_to-le zero (r ∷ rs) h = absurd (omega arith)

-- What a query with the where clause `p` selects.
abbrev select : {R : Type 0} → (R → String) → (R → Bool) → Option ℕ → List R → List R
select key p limit rows = limit_to limit (keep p (current key rows))

module _ {R : Type 0} (key : R → String) (p : R → Bool) where
  ok_rows : (xs ys : List R) → ok xs ≡ ok ys → xs ≡ ys
  ok_rows xs ys e = cc

  select_sound :
      (limit : Option ℕ) (table rows : List R) (r : R)
      → ok (select key p limit table) ≡ ok rows
      → In r rows
      → (find_row key (key r) table ≡ some r) × (p r ≡ true)
  select_sound limit table rows r e m =
      let there = limit_to_member limit _ r (subst (λ l. In r l) (sym (ok_rows _ rows e)) m) in
      let (kept, test) = (In-keep p r (current key table)).0 there in
      (find-current key r table kept, test)

  select_complete :
      (limit : Option ℕ) (table rows : List R) (r : R)
      → ok (select key p limit table) ≡ ok rows
      → limit ≡ none
      → find_row key (key r) table ≡ some r
      → p r ≡ true
      → In r rows
  select_complete none table rows r e l h t =
      subst (λ x. In r x) (ok_rows _ rows e)
        ((In-keep p r (current key table)).1 (current-find key (key r) r table h, t))
  select_complete (some n) table rows r e l h t = cc

  select-limited :
      (limit : Option ℕ) (table : List R) (r : R)
      → ok (select key p limit table) ≡ ok []
      → find_row key (key r) table ≡ some r
      → p r ≡ true
      → ⊥
  select-limited limit table r e h t =
      limited limit _ r (ok_rows _ [] e)
        ((In-keep p r (current key table)).1 (current-find key (key r) r table h, t))

  select-at_most :
      (limit : Option ℕ) (table rows : List R) (n : ℕ)
      → ok (select key p limit table) ≡ ok rows
      → limit ≡ some n
      → 0 < n
      → length rows ≤ n
  select-at_most none table rows n e l h = cc
  select-at_most (some m) table rows n e l h =
      subst (λ (x : List R). length x ≤ n) (ok_rows _ rows e)
        (subst (λ (o : Option ℕ). length (limit_to o (keep p (current key table))) ≤ n) (sym l)
          (length-limit_to-le n (keep p (current key table)) h))

abbrev run_key : TaskRunRow → String
run_key r = r.run_id

abbrev dag_run_key : DagRunRow → String
dag_run_key r = r.run_id

pub record Tables : Type 0 where
  pub task_runs : List TaskRunRow
  pub dag_runs : List DagRunRow
  pub metas : List DagMetaRow
  pub dag_refs : List DagRefRow
  pub task_refs : List TaskRefRow

module _ (farm_hash : String → ℕ) where
  -- A client of one program whose requests never fail.
  abbrev pub client : YtClient Tables
  client = record {
    farm_hash = farm_hash;
    select_task_runs =
        λ q db. ok (select run_key (matches_task_run farm_hash q) q.limit db.task_runs);
    select_dag_runs =
        λ q db. ok (select dag_run_key (matches_dag_run farm_hash q) q.limit db.dag_runs);
    insert_task_runs = λ rows db. ok (record db { task_runs = db.task_runs ++ rows });
    insert_dag_runs = λ rows db. ok (record db { dag_runs = db.dag_runs ++ rows });
    commit = λ before written. (ok tt, written);
    abort = λ before written. before;
    task_run_at = λ db k. find_row run_key k db.task_runs;
    dag_run_at = λ db k. find_row dag_run_key k db.dag_runs;
  }

  ok_tables : (a b : Tables) → ok a ≡ ok b → a ≡ b
  ok_tables a b e = cc

  task_runs_after :
      (rows : List TaskRunRow) (db db' : Tables) (k : String)
      → client.insert_task_runs rows db ≡ ok db'
      → find_row run_key k db'.task_runs
        ≡ or_stored (find_row run_key k rows) (find_row run_key k db.task_runs)
  task_runs_after rows db db' k e =
      subst
        (λ (t : Tables).
          find_row run_key k t.task_runs
          ≡ or_stored (find_row run_key k rows) (find_row run_key k db.task_runs))
        (ok_tables _ db' e) (find_row-append run_key k db.task_runs rows)

  dag_runs_after :
      (rows : List DagRunRow) (db db' : Tables) (k : String)
      → client.insert_dag_runs rows db ≡ ok db'
      → find_row dag_run_key k db'.dag_runs
        ≡ or_stored (find_row dag_run_key k rows) (find_row dag_run_key k db.dag_runs)
  dag_runs_after rows db db' k e =
      subst
        (λ (t : Tables).
          find_row dag_run_key k t.dag_runs
          ≡ or_stored (find_row dag_run_key k rows) (find_row dag_run_key k db.dag_runs))
        (ok_tables _ db' e) (find_row-append dag_run_key k db.dag_runs rows)

  pub client-YtLaws : YtLaws client
  client-YtLaws = record {
    task_runs_sound =
        λ q db. select_sound run_key (matches_task_run farm_hash q) q.limit db.task_runs;
    task_runs_complete =
        λ q db. select_complete run_key (matches_task_run farm_hash q) q.limit db.task_runs;
    dag_runs_sound =
        λ q db. select_sound dag_run_key (matches_dag_run farm_hash q) q.limit db.dag_runs;
    dag_runs_complete =
        λ q db. select_complete dag_run_key (matches_dag_run farm_hash q) q.limit db.dag_runs;
    dag_runs_limited =
        λ q db. select-limited dag_run_key (matches_dag_run farm_hash q) q.limit db.dag_runs;
    dag_runs_at_most =
        λ q db. select-at_most dag_run_key (matches_dag_run farm_hash q) q.limit db.dag_runs;
    task_run_key = λ db k r h. (find_row-eq-some run_key k db.task_runs r h).1;
    dag_run_key = λ db k r h. (find_row-eq-some dag_run_key k db.dag_runs r h).1;
    insert_task_runs_at = task_runs_after;
    insert_task_runs_frame = λ rows db db' k e. ground arith;
    insert_dag_runs_at = dag_runs_after;
    insert_dag_runs_frame = λ rows db db' k e. ground arith;
    commit_ok = λ before written e. refl;
    commit_err = λ before written x e. cc;
    abort_restores = λ before written. refl;
  }
