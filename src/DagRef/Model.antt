-- ===== src/DagRef/Model.antt =====
-- Tables of DAGs, tasks and metas as lists of rows in the order of writing, the later of two rows
-- with one key counting: a client that meets the laws.
use yt_scheduler.Base.{
  ℕ, String, Bool, true, false, ◌&&◌, ◌≡◌, refl, sym, ap, ◌∙◌, subst, ◌⊎◌, inl, inr, Option, none,
  some, List, [], ◌∷◌, ◌++◌, In, In-append, In-append_left, In-append_right, In-keep, keep, any,
  any-eq-true, any_of_member, map, In-map, map_member, length, ◌≤◌, arith, Option-cases, Bool-cases,
  eq_iff, if◌then◌else◌, ◌==◌,
}
use yt_scheduler.Base.Action.{ok}
use yt_scheduler.Yt.{or_stored}
use yt_scheduler.Yt.Model.{Tables, client, limit_to, limit_to_member, limited, length-limit_to-le}
use yt_scheduler.DagRef.{
  DagMetaRow, DagRefRow, Joined, Unclaimed, RefClient, RefLaws, matches, is_id, last_where,
  SameMetas, SameRefs, SameTaskRefs, SameRuns, find_meta, find_ref, find_task_ref,
}
use yt_scheduler.DagRef.Claimed.{last_where-eq-some, last_where-ne-none, listed_id, some_injective}

module _ {R : Type 0} (p : R → Bool) where
  last_where-append :
      (xs ys : List R) → last_where p (xs ++ ys) ≡ or_stored (last_where p ys) (last_where p xs)
  last_where-append [] ys = ground arith
  last_where-append (x ∷ xs) ys = ground (arith, last_where-append xs ys)

module _ {R : Type 0} (id : R → Option String) where
  -- A later row has the key, or there is none.
  abbrev is_hidden : Option String → List R → Bool
  is_hidden none rows = true
  is_hidden (some k) rows = any (λ r. is_id k (id r)) rows

  abbrev current : List R → List R
  current [] = []
  current (r ∷ rs) = let rest = current rs in if is_hidden (id r) rs then rest else r ∷ rest

  unhidden :
      (k : String) (rows : List R)
      → is_hidden (some k) rows ≡ false
      → last_where (λ x. is_id k (id x)) rows ≡ none
  unhidden k rows h = elim (Option-cases (last_where (λ x. is_id k (id x)) rows)) [
    | inl e ↦ e
    | inr (y, e) ↦
        let (m, t) = last_where-eq-some (λ x. is_id k (id x)) rows y e in
        absurd (cc (any_of_member (λ x. is_id k (id x)) y rows m t, h))
  ]

  hidden_found :
      (k : String) (rows : List R)
      → is_hidden (some k) rows ≡ true
      → last_where (λ x. is_id k (id x)) rows ≡ none
      → ⊥
  hidden_found k rows h missing =
      let (y, m, t) = any-eq-true (λ x. is_id k (id x)) rows h in
      last_where-ne-none (λ x. is_id k (id x)) rows y m t missing

  current_cons : (r x : R) (rows : List R) → In r (current rows) → In r (current (x ∷ rows))
  current_cons r x rows m = elim (Bool-cases (is_hidden (id x) rows)) [
    | inl e ↦ rw (e, In) m
    | inr e ↦ rw (e, In) (inr m)
  ]

  find-current :
      (k : String) (r : R) (rows : List R)
      → In r (current rows)
      → id r ≡ some k
      → last_where (λ x. is_id k (id x)) rows ≡ some r
  find-current k r [] m e = elim m [ ]
  find-current k r (x ∷ xs) m e = elim (Bool-cases (is_hidden (id x) xs)) [
    | inl hidden ↦ rw (find-current k r xs (rw (hidden, In) at m) e)
    | inr shown ↦ elim (split shown m) [
      | inl q ↦
          let key : id x ≡ some k = ap id (sym q) ∙ e in
          let alone = unhidden k xs (subst (λ o. is_hidden o xs ≡ false) key shown) in
          rw (alone, key, (eq_iff k k).1 refl) (ap (λ y. some y) (sym q))
      | inr m' ↦ rw (find-current k r xs m' e)
    ]
  ]
    where
      split : is_hidden (id x) xs ≡ false → In r (current (x ∷ xs)) → (r ≡ x) ⊎ In r (current xs)
      split shown m = rw (shown, In) at m

  current-find :
      (k : String) (r : R) (rows : List R)
      → last_where (λ x. is_id k (id x)) rows ≡ some r
      → In r (current rows)
  current-find k r [] h = cc
  current-find k r (x ∷ xs) h = elim (Option-cases (last_where (λ y. is_id k (id y)) xs)) [
    | inr (y, e) ↦ current_cons r x xs (current-find k r xs (e ∙ later_found y e))
    | inl e ↦ elim (Bool-cases (is_id k (id x))) [
      | inr other ↦ cc (rw (e, other) at h)
      | inl same ↦
          let key = listed_id k (id x) same in
          elim (Bool-cases (is_hidden (id x) xs)) [
            | inl hidden ↦
                absurd (hidden_found k xs (subst (λ o. is_hidden o xs ≡ true) key hidden) e)
            | inr shown ↦ rw (shown, In) (inl (sym (some_injective (rw (e, same) at h))))
          ]
    ]
  ]
    where
      later_found : (y : R) → last_where (λ z. is_id k (id z)) xs ≡ some y → some y ≡ some r
      later_found y e = rw e at h

-- A meta's and a DAG's key.
abbrev meta_id : DagMetaRow → Option String
meta_id m = m.id

abbrev ref_id : DagRefRow → Option String
ref_id r = some r.dag_id

abbrev join_with : DagRefRow → List DagMetaRow → List Joined
join_with r [] = record { ref = r; id = none; run_id = none } ∷ []
join_with r (m ∷ ms) = map (λ x. record { ref = r; id = x.id; run_id = x.run_id }) (m ∷ ms)

-- The left join of the DAGs with the metas.
abbrev left_join : List DagRefRow → List DagMetaRow → List Joined
left_join [] metas = []
left_join (r ∷ rs) metas =
    join_with r (keep (λ m. m.dag_id == r.dag_id) metas) ++ left_join rs metas

In-join_with :
    (r : DagRefRow) (ms : List DagMetaRow) (j : Joined) (k : String)
    → In j (join_with r ms)
    → (j.ref ≡ r)
      × (j.id ≡ some k → (m : DagMetaRow) × In m ms × (m.id ≡ some k) × (m.run_id ≡ j.run_id))
In-join_with r [] j k (inl e) =
    (ap (λ (x : Joined). x.ref) e, λ q. absurd (no_id (sym (ap (λ (x : Joined). x.id) e) ∙ q)))
  where
    no_id : ◌≡◌ {A = Option String} none (some k) → ⊥
    no_id q = cc
In-join_with r [] j k (inr m) = elim m [ ]
In-join_with r (x ∷ ms) j k h =
    let (m, l, e) =
      In-map (λ (x : DagMetaRow). record { ref = r; id = x.id; run_id = x.run_id }) j (x ∷ ms) h in
    (
      ap (λ (y : Joined). y.ref) e,
      λ q. (m, l, sym (ap (λ (y : Joined). y.id) e) ∙ q, sym (ap (λ (y : Joined). y.run_id) e)),
    )

In-left_join :
    (rs : List DagRefRow) (metas : List DagMetaRow) (j : Joined) (k : String)
    → In j (left_join rs metas)
    → In j.ref rs
      × (j.id ≡ some k
          → (m : DagMetaRow) × In m metas
            × (m.id ≡ some k)
            × (m.dag_id ≡ j.ref.dag_id)
            × (m.run_id ≡ j.run_id))
In-left_join [] metas j k h = elim h [ ]
In-left_join (r ∷ rs) metas j k h =
    let here = keep (λ (m : DagMetaRow). m.dag_id == r.dag_id) metas in
    elim (In-append j (join_with r here) (left_join rs metas) h) [
      | inr later ↦ let (m, f) = In-left_join rs metas j k later in (inr m, f)
      | inl now ↦
          let (e, f) = In-join_with r here j k now in
          (
            inl e,
            λ q.
                let (m, inm, key, run) = f q in
                let (stored, same) =
                  (In-keep (λ (x : DagMetaRow). x.dag_id == r.dag_id) m metas).0 inm in
                (
                  m,
                  stored,
                  key,
                  (eq_iff m.dag_id r.dag_id).0 same ∙ ap (λ (x : DagRefRow). x.dag_id) (sym e),
                  run,
                ),
          )
    ]

left_join_member :
    (rs : List DagRefRow) (metas : List DagMetaRow) (r : DagRefRow) (m : DagMetaRow)
    → In r rs
    → In m metas
    → m.dag_id ≡ r.dag_id
    → In (record { ref = r; id = m.id; run_id = m.run_id }) (left_join rs metas)
left_join_member [] metas r m h inm e = elim h [ ]
left_join_member (x ∷ rs) metas r m (inr h) inm e =
    In-append_right _ (join_with x (keep (λ y. y.dag_id == x.dag_id) metas)) (left_join rs metas)
      (left_join_member rs metas r m h inm e)
left_join_member (x ∷ rs) metas r m (inl q) inm e =
    In-append_left _ (join_with x (keep (λ y. y.dag_id == x.dag_id) metas)) (left_join rs metas) (
      subst
        (λ (ref : DagRefRow).
          In (record { ref = r; id = m.id; run_id = m.run_id })
            (join_with ref (keep (λ y. y.dag_id == ref.dag_id) metas)))
        q
        (joined (keep (λ y. y.dag_id == r.dag_id) metas) (
          (In-keep (λ (y : DagMetaRow). y.dag_id == r.dag_id) m metas).1
            (inm, (eq_iff m.dag_id r.dag_id).1 e))))
  where
    joined :
        (ms : List DagMetaRow)
        → In m ms
        → In (record { ref = r; id = m.id; run_id = m.run_id }) (join_with r ms)
    joined [] l = elim l [ ]
    joined (y ∷ ys) l =
        map_member (λ (z : DagMetaRow). record { ref = r; id = z.id; run_id = z.run_id }) m (y ∷ ys)
          l

module _ (farm_hash : String → ℕ) where
  abbrev selected : Unclaimed → Tables → List Joined
  selected q db =
      keep (matches farm_hash q) (left_join (current ref_id db.dag_refs) (current meta_id db.metas))

  -- A client of one program whose requests never fail.
  abbrev pub ref_client : RefClient Tables
  ref_client = record {
    select_unclaimed = λ q db. ok (selected q db);
    select_refs = λ h n db.
        ok (limit_to (some n) (keep (λ r. r.payload_hash == h) (current ref_id db.dag_refs)));
    insert_metas = λ rows db. ok (record db { metas = db.metas ++ rows });
    insert_refs = λ rows db. ok (record db { dag_refs = db.dag_refs ++ rows });
    insert_task_refs = λ rows db. ok (record db { task_refs = db.task_refs ++ rows });
    meta_at = λ db k. find_meta k db.metas;
    ref_at = λ db k. find_ref k db.dag_refs;
    task_ref_at = λ db k t. find_task_ref k t db.task_refs;
  }

  ok_injective : {A : Type 0} (a b : A) → ok a ≡ ok b → a ≡ b
  ok_injective a b e = cc

  sound :
      (q : Unclaimed) (db : Tables) (j : Joined)
      → In j (selected q db)
      → (find_ref j.ref.dag_id db.dag_refs ≡ some j.ref)
        × ((k : String)
            → j.id ≡ some k
            → (m : DagMetaRow) × (find_meta k db.metas ≡ some m)
              × (m.dag_id ≡ j.ref.dag_id)
              × (m.run_id ≡ j.run_id))
        × (matches farm_hash q j ≡ true)
  sound q db j h =
      let rs = current ref_id db.dag_refs in
      let ms = current meta_id db.metas in
      let (inj, test) = (In-keep (matches farm_hash q) j (left_join rs ms)).0 h in
      (
        find-current ref_id j.ref.dag_id j.ref db.dag_refs (In-left_join rs ms j "" inj).0 refl,
        (λ k key.
            let (m, inm, id, dag, run) = (In-left_join rs ms j k inj).1 key in
            (m, find-current meta_id k m db.metas inm id, dag, run)),
        test,
      )

  complete :
      (q : Unclaimed) (db : Tables) (r : DagRefRow) (k : String) (m : DagMetaRow)
      → find_ref m.dag_id db.dag_refs ≡ some r
      → find_meta k db.metas ≡ some m
      → matches farm_hash q (record { ref = r; id = some k; run_id = m.run_id }) ≡ true
      → In (record { ref = r; id = some k; run_id = m.run_id }) (selected q db)
  complete q db r k m stored at test =
      let (_, rk) = last_where-eq-some (λ x. x.dag_id == m.dag_id) db.dag_refs r stored in
      let (_, mk) = last_where-eq-some (λ x. is_id k x.id) db.metas m at in
      let key = listed_id k m.id mk in
      (In-keep (matches farm_hash q) _ _).1 (
        subst
            (λ (o : Option String).
              In (record { ref = r; id = o; run_id = m.run_id })
                (left_join (current ref_id db.dag_refs) (current meta_id db.metas)))
            key
            (left_join_member _ _ r m (current-find ref_id m.dag_id r db.dag_refs stored)
              (current-find meta_id k m db.metas at) (sym ((eq_iff r.dag_id m.dag_id).0 rk))),
        test,
      )

  found :
      (h : String) (n : ℕ) (db : Tables) (r : DagRefRow)
      → In r (limit_to (some n) (keep (λ x. x.payload_hash == h) (current ref_id db.dag_refs)))
      → (find_ref r.dag_id db.dag_refs ≡ some r) × (r.payload_hash ≡ h)
  found h n db r m =
      let rows = current ref_id db.dag_refs in
      let (inr', same) =
        (In-keep (λ (x : DagRefRow). x.payload_hash == h) r rows).0
          (limit_to_member (some n) _ r m) in
      (find-current ref_id r.dag_id r db.dag_refs inr' refl, (eq_iff r.payload_hash h).0 same)

  missing :
      (h : String) (n : ℕ) (db : Tables) (k : String) (r : DagRefRow)
      → limit_to (some n) (keep (λ x. x.payload_hash == h) (current ref_id db.dag_refs)) ≡ []
      → find_ref k db.dag_refs ≡ some r
      → r.payload_hash ≡ h
      → ⊥
  missing h n db k r e stored same = limited (some n) _ r e (
      (In-keep (λ (x : DagRefRow). x.payload_hash == h) r _).1
        (current-find ref_id k r db.dag_refs stored, (eq_iff r.payload_hash h).1 same))

  pub ref_client-RefLaws : RefLaws ref_client (client farm_hash)
  ref_client-RefLaws = record {
    unclaimed_sound =
        λ q db rows j e m. sound q db j (subst (λ l. In j l) (sym (ok_injective _ rows e)) m);
    unclaimed_complete = λ q db rows r k m e stored at test.
        subst (λ l. In (record { ref = r; id = some k; run_id = m.run_id }) l)
          (ok_injective _ rows e) (complete q db r k m stored at test);
    refs_sound =
        λ h n db rows r e m. found h n db r (subst (λ l. In r l) (sym (ok_injective _ rows e)) m);
    refs_limited = λ h n db k r e stored same. missing h n db k r (ok_injective _ [] e) stored same;
    refs_at_most = λ h n db rows e pos.
        subst (λ (l : List DagRefRow). length l ≤ n) (ok_injective _ rows e)
          (length-limit_to-le n (keep (λ r. r.payload_hash == h) (current ref_id db.dag_refs)) pos);
    ref_key = λ db k r h.
        (eq_iff r.dag_id k).0 (last_where-eq-some (λ x. x.dag_id == k) db.dag_refs r h).1;
    meta_key = λ db k m h. listed_id k m.id (last_where-eq-some (λ x. is_id k x.id) db.metas m h).1;
    metas_written = λ rows db db' e.
        subst
          (λ (t : Tables).
            ((k : String)
              → find_meta k t.metas ≡ or_stored (find_meta k rows) (find_meta k db.metas))
            × SameRefs ref_client db t
            × SameTaskRefs ref_client db t
            × SameRuns ref_client (client farm_hash) db t)
          (ok_injective _ db' e)
          (
            (λ k. last_where-append (λ x. is_id k x.id) db.metas rows),
            (λ k. refl),
            (λ k t. refl),
            (λ k. refl),
          );
    refs_written = λ rows db db' e.
        subst
          (λ (t : Tables).
            ((k : String)
              → find_ref k t.dag_refs ≡ or_stored (find_ref k rows) (find_ref k db.dag_refs))
            × SameMetas ref_client db t
            × SameTaskRefs ref_client db t
            × SameRuns ref_client (client farm_hash) db t)
          (ok_injective _ db' e)
          (
            (λ k. last_where-append (λ x. x.dag_id == k) db.dag_refs rows),
            (λ k. refl),
            (λ k t. refl),
            (λ k. refl),
          );
    task_refs_written = λ rows db db' e.
        subst
          (λ (t : Tables).
            ((k i : String)
              → find_task_ref k i t.task_refs
                ≡ or_stored (find_task_ref k i rows) (find_task_ref k i db.task_refs))
            × SameMetas ref_client db t
            × SameRefs ref_client db t
            × SameRuns ref_client (client farm_hash) db t)
          (ok_injective _ db' e)
          (
            (λ k i. last_where-append (λ x. x.dag_id == k && x.task_id == i) db.task_refs rows),
            (λ k. refl),
            (λ k. refl),
            (λ k. refl),
          );
    runs_written = λ rows db db' e.
        subst
          (λ (t : Tables).
            SameMetas ref_client db t × SameRefs ref_client db t × SameTaskRefs ref_client db t)
          (ok_injective _ db' e) ((λ k. refl), (λ k. refl), (λ k t. refl));
  }
