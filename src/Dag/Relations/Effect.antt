-- ===== src/Dag/Relations/Effect.antt =====
-- What links make of a task: the ids that are added before and after it.
use yt_scheduler.Base.{
  String, ◌≡◌, ◌↔◌, refl, sym, ◌∙◌, subst, ◌⊎◌, inl, inr, false, List, [], ◌∷◌, ◌++◌, In, arith,
  In-append, In-append_left, In-append_right, contains, contains_iff, Bool-cases, eq_iff, ◌==◌,
}
use yt_scheduler.Dag.{Task}
use yt_scheduler.Dag.Relations.{add_id}
use yt_scheduler.Dag.Relations.Links.{Link, link_one, link_each}

In-add_id : (k j : String) (ids : List String) → In j (add_id k ids) ↔ (In j ids ⊎ (j ≡ k))
In-add_id k j ids = elim (Bool-cases (contains k ids)) [
  | inl there ↦ rw there (
    (λ m. inl m),
    λ x. elim x [
      | inl m ↦ m
      | inr e ↦ subst (λ i. In i ids) (sym e) ((contains_iff k ids).0 there)
    ],
  )
  | inr new ↦ rw new (
    apart,
    λ x. elim x [
      | inl m ↦ In-append_left j ids (k ∷ []) m
      | inr e ↦ In-append_right j ids (k ∷ []) (inl e)
    ],
  )
]
  where
    apart : In j (ids ++ k ∷ []) → In j ids ⊎ (j ≡ k)
    apart m = elim (In-append j ids (k ∷ []) m) [
      | inl there ↦ inl there
      | inr (inl e) ↦ inr e
      | inr (inr none_left) ↦ elim none_left [ ]
    ]

-- A link whose ends are in one DAG, with the ids of its consumer and its producer.
abbrev pub Joins : Link → String → String → Type 0
Joins (c, p) consumer producer =
    (p.dag_id ≡ c.dag_id) × (c.task_id ≡ consumer) × (p.task_id ≡ producer)

kept_id : (l : Link) (t : Task) → (link_one l t).task_id ≡ t.task_id
kept_id (c, p) t = ground arith

one_preceding :
    (l : Link) (t : Task) (k : String)
    → In k (link_one l t).preceding_task_ids ↔ (In k t.preceding_task_ids ⊎ Joins l t.task_id k)
one_preceding (c, p) t k = elim (Bool-cases (p.dag_id == c.dag_id)) [
  | inr other ↦ rw other (
    λ m. inl m,
    λ x. elim x [ inl m ↦ m | inr (d, _, _) ↦ absurd (cc ((eq_iff p.dag_id c.dag_id).1 d, other)) ],
  )
  | inl same ↦ elim (Bool-cases (t.task_id == c.task_id)) [
    | inl mine ↦
        let id = (eq_iff t.task_id c.task_id).0 mine in
        let dags = (eq_iff p.dag_id c.dag_id).0 same in
        let iff = In-add_id p.task_id k t.preceding_task_ids in
        elim (Bool-cases (t.task_id == p.task_id)) [
          | inl b ↦ rw (same, mine, b) (λ m. there dags id (iff.0 m), λ x. iff.1 (back x))
          | inr b ↦ rw (same, mine, b) (λ m. there dags id (iff.0 m), λ x. iff.1 (back x))
        ]
    | inr apart ↦ elim (Bool-cases (t.task_id == p.task_id)) [
      | inl b ↦
          rw (same, apart, b) (λ m. inl m, λ x. elim x [ inl m ↦ m | inr j ↦ absurd (no apart j) ])
      | inr b ↦
          rw (same, apart, b) (λ m. inl m, λ x. elim x [ inl m ↦ m | inr j ↦ absurd (no apart j) ])
    ]
  ]
]
  where
    there :
        p.dag_id ≡ c.dag_id
        → t.task_id ≡ c.task_id
        → In k t.preceding_task_ids ⊎ (k ≡ p.task_id)
        → In k t.preceding_task_ids ⊎ Joins (c, p) t.task_id k
    there dags id (inl m) = inl m
    there dags id (inr e) = inr (dags, sym id, sym e)

    back :
        In k t.preceding_task_ids ⊎ Joins (c, p) t.task_id k
        → In k t.preceding_task_ids ⊎ (k ≡ p.task_id)
    back (inl m) = inl m
    back (inr (_, _, e)) = inr (sym e)

    no : (t.task_id == c.task_id) ≡ false → Joins (c, p) t.task_id k → ⊥
    no apart (_, e, _) = cc ((eq_iff t.task_id c.task_id).1 (sym e), apart)

one_succeeding :
    (l : Link) (t : Task) (k : String)
    → In k (link_one l t).succeeding_task_ids ↔ (In k t.succeeding_task_ids ⊎ Joins l k t.task_id)
one_succeeding (c, p) t k = elim (Bool-cases (p.dag_id == c.dag_id)) [
  | inr other ↦ rw other (
    λ m. inl m,
    λ x. elim x [ inl m ↦ m | inr (d, _, _) ↦ absurd (cc ((eq_iff p.dag_id c.dag_id).1 d, other)) ],
  )
  | inl same ↦ elim (Bool-cases (t.task_id == p.task_id)) [
    | inl mine ↦
        let id = (eq_iff t.task_id p.task_id).0 mine in
        let dags = (eq_iff p.dag_id c.dag_id).0 same in
        let iff = In-add_id c.task_id k t.succeeding_task_ids in
        elim (Bool-cases (t.task_id == c.task_id)) [
          | inl b ↦ rw (same, b, mine) (λ m. there dags id (iff.0 m), λ x. iff.1 (back x))
          | inr b ↦ rw (same, b, mine) (λ m. there dags id (iff.0 m), λ x. iff.1 (back x))
        ]
    | inr apart ↦ elim (Bool-cases (t.task_id == c.task_id)) [
      | inl b ↦
          rw (same, b, apart) (λ m. inl m, λ x. elim x [ inl m ↦ m | inr j ↦ absurd (no apart j) ])
      | inr b ↦
          rw (same, b, apart) (λ m. inl m, λ x. elim x [ inl m ↦ m | inr j ↦ absurd (no apart j) ])
    ]
  ]
]
  where
    there :
        p.dag_id ≡ c.dag_id
        → t.task_id ≡ p.task_id
        → In k t.succeeding_task_ids ⊎ (k ≡ c.task_id)
        → In k t.succeeding_task_ids ⊎ Joins (c, p) k t.task_id
    there dags id (inl m) = inl m
    there dags id (inr e) = inr (dags, sym e, sym id)

    back :
        In k t.succeeding_task_ids ⊎ Joins (c, p) k t.task_id
        → In k t.succeeding_task_ids ⊎ (k ≡ c.task_id)
    back (inl m) = inl m
    back (inr (_, e, _)) = inr (sym e)

    no : (t.task_id == p.task_id) ≡ false → Joins (c, p) k t.task_id → ⊥
    no apart (_, _, e) = cc ((eq_iff t.task_id p.task_id).1 (sym e), apart)

-- Some link of a list joins two ids.
abbrev pub Joined : List Link → String → String → Type 0
Joined ls consumer producer = (l : Link) × In l ls × Joins l consumer producer

pub kept_ids : (ls : List Link) (t : Task) → (link_each ls t).task_id ≡ t.task_id
kept_ids [] t = refl
kept_ids (l ∷ ls) t = kept_ids ls (link_one l t) ∙ kept_id l t

-- One more link.
Joined-cons :
    {X Y Z : Type 0} (l : Link) (ls : List Link) (consumer producer : String)
    → (X ↔ (Y ⊎ Joined ls consumer producer))
    → (Y ↔ (Z ⊎ Joins l consumer producer))
    → (X ↔ (Z ⊎ Joined (l ∷ ls) consumer producer))
Joined-cons l ls consumer producer outer inner = (
  λ x. elim (outer.0 x) [
    | inr (m, listed, j) ↦ inr (m, inr listed, j)
    | inl y ↦ elim (inner.0 y) [ inl z ↦ inl z | inr j ↦ inr (l, inl refl, j) ]
  ],
  λ x. elim x [
    | inl z ↦ outer.1 (inl (inner.1 (inl z)))
    | inr (m, inr listed, j) ↦ outer.1 (inr (m, listed, j))
    | inr (m, inl e, j) ↦
        outer.1 (inl (inner.1 (inr (subst (λ (y : Link). Joins y consumer producer) e j))))
  ],
)

pub each_preceding :
    (ls : List Link) (t : Task) (k : String)
    → In k (link_each ls t).preceding_task_ids ↔ (In k t.preceding_task_ids ⊎ Joined ls t.task_id k)
each_preceding [] t k = (λ m. inl m, λ x. elim x [ inl m ↦ m | inr (_, m, _) ↦ absurd m ])
each_preceding (l ∷ ls) t k =
    Joined-cons l ls t.task_id k
      (subst
        (λ (id : String).
          In k (link_each ls (link_one l t)).preceding_task_ids
          ↔ (In k (link_one l t).preceding_task_ids ⊎ Joined ls id k))
        (kept_id l t) (each_preceding ls (link_one l t) k))
      (one_preceding l t k)

pub each_succeeding :
    (ls : List Link) (t : Task) (k : String)
    → In k (link_each ls t).succeeding_task_ids
      ↔ (In k t.succeeding_task_ids ⊎ Joined ls k t.task_id)
each_succeeding [] t k = (λ m. inl m, λ x. elim x [ inl m ↦ m | inr (_, m, _) ↦ absurd m ])
each_succeeding (l ∷ ls) t k =
    Joined-cons l ls k t.task_id
      (subst
        (λ (id : String).
          In k (link_each ls (link_one l t)).succeeding_task_ids
          ↔ (In k (link_one l t).succeeding_task_ids ⊎ Joined ls k id))
        (kept_id l t) (each_succeeding ls (link_one l t) k))
      (one_succeeding l t k)
