-- ===== src/Jobs/Index.antt =====
-- The shards that jobs take.
use yt_scheduler.Base.{
  ℕ, suc, ◌<◌, ◌≡◌, ◌≢◌, refl, subst, sym, ap, ◌∙◌, ◌⊎◌, inl, inr, String, true, false, List, [],
  ◌∷◌, ◌++◌, length, is_empty, contains, contains_iff, In, In-append_right, arith, Bool-cases,
  eq_iff, ◌==◌,
}
use Prim.Native.Nat.{Ordering}
use Prim.Native.String.{compare}
use yt_scheduler.Jobs.{Jobs, Heartbeat, get_active_jobs, insert, sort, index, compute_shard_index}

Ordering-cases : (o : Ordering) → (o ≡ Ordering.lt) ⊎ (o ≡ Ordering.eq) ⊎ (o ≡ Ordering.gt)
Ordering-cases Ordering.lt = inl refl
Ordering-cases Ordering.eq = inr (inl refl)
Ordering-cases Ordering.gt = inr (inr refl)

In-insert : (k j : String) (xs : List String) → (j ≡ k) ⊎ In j xs → In j (insert k xs)
In-insert k j [] (inl e) = inl e
In-insert k j [] (inr m) = absurd m
In-insert k j (x ∷ xs) h = elim (Ordering-cases (compare k x)) [
  | inl e ↦ rw (e, In) (front h)
  | inr (inl e) ↦ rw (e, In) (front h)
  | inr (inr e) ↦
      rw (e, In)
        (elim h [
          | inl q ↦ inr (In-insert k j xs (inl q))
          | inr (inl q) ↦ inl q
          | inr (inr m) ↦ inr (In-insert k j xs (inr m))
        ])
]
  where
    front : (j ≡ k) ⊎ In j (x ∷ xs) → In j (k ∷ x ∷ xs)
    front (inl q) = inl q
    front (inr m) = inr m

In-sort : (k : String) (xs : List String) → In k xs → In k (sort xs)
In-sort k [] m = absurd m
In-sort k (x ∷ xs) (inl e) = In-insert x k (sort xs) (inl e)
In-sort k (x ∷ xs) (inr m) = In-insert x k (sort xs) (inr (In-sort k xs m))

index-lt : (k : String) (xs : List String) → In k xs → index k xs < length xs
index-lt k [] m = absurd m
index-lt k (x ∷ xs) m = elim (Bool-cases (x == k)) [
  | inl e ↦ rw e (omega arith)
  | inr e ↦ elim m [
    | inl q ↦ absurd (cc ((eq_iff x k).1 (sym q), e))
    | inr later ↦ let lt = index-lt k xs later in rw e (omega (arith, lt))
  ]
]

index_injective :
    (a b : String) (xs : List String) → In a xs → In b xs → index a xs ≡ index b xs → a ≡ b
index_injective a b [] m m' h = absurd m
index_injective a b (x ∷ xs) m m' h = elim (Bool-cases (x == a)) [
  | inl e ↦ elim (Bool-cases (x == b)) [
    | inl e' ↦ sym ((eq_iff x a).0 e) ∙ (eq_iff x b).0 e'
    | inr e' ↦ absurd (zero_suc (rw (e, e') at h))
  ]
  | inr e ↦ elim (Bool-cases (x == b)) [
    | inl e' ↦ absurd (zero_suc (sym (rw (e, e') at h)))
    | inr e' ↦ index_injective a b xs (behind a m e) (behind b m' e') (suc_suc (rw (e, e') at h))
  ]
]
  where
    zero_suc : {n : ℕ} → 0 ≡ suc n → ⊥
    zero_suc q = omega arith

    suc_suc : {n m : ℕ} → suc n ≡ suc m → n ≡ m
    suc_suc q = omega arith

    behind : (k : String) → In k (x ∷ xs) → (x == k) ≡ false → In k xs
    behind k (inl q) other = absurd (cc ((eq_iff x k).1 (sym q), other))
    behind k (inr listed) other = listed

empty : (xs : List String) → is_empty xs ≡ true → xs ≡ []
empty [] h = refl
empty (x ∷ xs) h = cc

occupied : (k : String) (xs : List String) → In k xs → is_empty xs ≡ false
occupied k [] m = absurd m
occupied k (x ∷ xs) m = refl

-- An active job takes its place in the list of the active jobs.
active_shard :
    (ttl now later : ℕ) (iso : String) (self : Heartbeat) (jobs : Jobs)
    → let active = get_active_jobs ttl now self.job_type jobs in
      In self.job_id active
      → (compute_shard_index ttl now later iso self jobs).0
        ≡ (index self.job_id active, length active)
unfolding compute_shard_index
active_shard ttl now later iso self jobs m =
    let active = get_active_jobs ttl now self.job_type jobs in
    rw (occupied self.job_id active m, (contains_iff self.job_id active).1 m) refl

-- The shard of a job is below the number of shards, unless no job is active: then both are 0.
pub compute_shard_index-lt :
    (ttl now later : ℕ) (iso : String) (self : Heartbeat) (jobs : Jobs)
    → let (index, count) = (compute_shard_index ttl now later iso self jobs).0 in
      (index < count)
      ⊎ ((get_active_jobs ttl now self.job_type jobs ≡ []) × (index ≡ 0) × (count ≡ 0))
unfolding compute_shard_index
compute_shard_index-lt ttl now later iso self jobs =
    let active = get_active_jobs ttl now self.job_type jobs in
    elim (Bool-cases (is_empty active)) [
      | inl none_active ↦ inr (empty active none_active, rw none_active refl, rw none_active refl)
      | inr some_active ↦ elim (Bool-cases (contains self.job_id active)) [
        | inl listed ↦ inl (
            rw (some_active, listed)
              (index-lt self.job_id active ((contains_iff self.job_id active).0 listed)))
        | inr unlisted ↦ inl (
            rw (some_active, unlisted)
              (index-lt self.job_id (sort (active ++ self.job_id ∷ [])) (
                In-sort self.job_id (active ++ self.job_id ∷ [])
                  (In-append_right self.job_id active (self.job_id ∷ []) (inl refl)))))
      ]
    ]

-- Two active jobs of a type count the same number of shards, and take different ones.
pub compute_shard_index-apart :
    (ttl now later : ℕ) (iso : String) (a b : Heartbeat) (jobs : Jobs)
    → a.job_type ≡ b.job_type
    → a.job_id ≢ b.job_id
    → In a.job_id (get_active_jobs ttl now a.job_type jobs)
    → In b.job_id (get_active_jobs ttl now b.job_type jobs)
    → let x = (compute_shard_index ttl now later iso a jobs).0 in
      let y = (compute_shard_index ttl now later iso b jobs).0 in (x.1 ≡ y.1) × (x.0 ≢ y.0)
compute_shard_index-apart ttl now later iso a b jobs same apart m m' =
    let active = get_active_jobs ttl now b.job_type jobs in
    let m'' = subst (λ job_type. In a.job_id (get_active_jobs ttl now job_type jobs)) same m in
    let x =
      active_shard ttl now later iso a jobs m
      ∙ ap
          (λ job_type.
            let l = get_active_jobs ttl now job_type jobs in (index a.job_id l, length l))
          same in
    let y = active_shard ttl now later iso b jobs m' in
    rw (x, y) (refl, λ h. apart (index_injective a.job_id b.job_id active m'' m' h))
