-- ===== src/Dag/Relations/Producers.antt =====
-- The map from tables to the tasks that write them.
use yt_scheduler.Base.{
  String, ◌≡◌, ◌↔◌, sym, ◌∙◌, subst, ◌⊎◌, inl, inr, List, [], ◌∷◌, ◌++◌, In, In-append,
  In-append_left, In-append_right, Bool-cases, eq_iff, ◌==◌,
}
use yt_scheduler.Dag.{Task}
use yt_scheduler.Dag.Relations.{append_to, append_keys, producers_of, producers_map}

-- Which tasks a key of the map has.
In-append_to :
    (key k : String) (task p : Task) (producers : List (String × List Task))
    → In p (producers_of k (append_to key task producers))
      ↔ (In p (producers_of k producers) ⊎ ((p ≡ task) × (k ≡ key)))
In-append_to key k task p [] = elim (Bool-cases (key == k)) [
  | inl e ↦ rw e (
    λ m. elim m [ inl q ↦ inr (q, sym ((eq_iff key k).0 e)) | inr x ↦ absurd x ],
    λ x. elim x [ inl m ↦ absurd m | inr (q, _) ↦ inl q ],
  )
  | inr e ↦ rw e (
    λ m. absurd m,
    λ x. elim x [ inl m ↦ absurd m | inr (_, q) ↦ absurd (cc ((eq_iff key k).1 (sym q), e)) ],
  )
]
In-append_to key k task p ((j, tasks) ∷ producers) = elim (Bool-cases (j == key)) [
  | inl a ↦
      let here = (eq_iff j key).0 a in
      elim (Bool-cases (j == k)) [
        | inl b ↦ rw (a, b) (there (sym ((eq_iff j k).0 b) ∙ here), back)
        | inr b ↦
            rw (a, b)
              (
                λ m. inl m,
                λ x. elim x [
                  | inl m ↦ m
                  | inr (_, q) ↦ absurd (cc ((eq_iff j k).1 (here ∙ sym q), b))
                ],
              )
      ]
  | inr a ↦ elim (Bool-cases (j == k)) [
    | inl b ↦
        rw (a, b)
          (
            λ m. inl m,
            λ x. elim x [
              | inl m ↦ m
              | inr (_, q) ↦ absurd (cc ((eq_iff j key).1 ((eq_iff j k).0 b ∙ q), a))
            ],
          )
    | inr b ↦ rw (a, b) (In-append_to key k task p producers)
  ]
]
  where
    there : k ≡ key → In p (tasks ++ task ∷ []) → In p tasks ⊎ ((p ≡ task) × (k ≡ key))
    there q m = elim (In-append p tasks (task ∷ []) m) [
      | inl old ↦ inl old
      | inr (inl e) ↦ inr (e, q)
      | inr (inr x) ↦ absurd x
    ]

    back : In p tasks ⊎ ((p ≡ task) × (k ≡ key)) → In p (tasks ++ task ∷ [])
    back (inl m) = In-append_left p tasks (task ∷ []) m
    back (inr (e, _)) = In-append_right p tasks (task ∷ []) (inl e)

In-append_keys :
    (keys : List String) (k : String) (task p : Task) (producers : List (String × List Task))
    → In p (producers_of k (append_keys keys task producers))
      ↔ (In p (producers_of k producers) ⊎ ((p ≡ task) × In k keys))
In-append_keys [] k task p producers =
    (λ m. inl m, λ x. elim x [ inl m ↦ m | inr (_, m) ↦ absurd m ])
In-append_keys (key ∷ keys) k task p producers =
    let rest = In-append_keys keys k task p (append_to key task producers) in
    let first = In-append_to key k task p producers in
    (
      λ m. elim (rest.0 m) [
        | inr (e, listed) ↦ inr (e, inr listed)
        | inl m' ↦ elim (first.0 m') [ inl old ↦ inl old | inr (e, q) ↦ inr (e, inl q) ]
      ],
      λ x. elim x [
        | inl old ↦ rest.1 (inl (first.1 (inl old)))
        | inr (e, inl q) ↦ rest.1 (inl (first.1 (inr (e, q))))
        | inr (e, inr listed) ↦ rest.1 (inr (e, listed))
      ],
    )

pub In-producers_map :
    (tasks : List Task) (k : String) (p : Task) (producers : List (String × List Task))
    → In p (producers_of k (producers_map tasks producers))
      ↔ (In p (producers_of k producers) ⊎ (In p tasks × In k p.output_table_paths))
In-producers_map [] k p producers = (λ m. inl m, λ x. elim x [ inl m ↦ m | inr (m, _) ↦ absurd m ])
In-producers_map (t ∷ ts) k p producers =
    let rest = In-producers_map ts k p (append_keys t.output_table_paths t producers) in
    let first = In-append_keys t.output_table_paths k t p producers in
    (
      λ m. elim (rest.0 m) [
        | inr (listed, w) ↦ inr (inr listed, w)
        | inl m' ↦ elim (first.0 m') [
          | inl old ↦ inl old
          | inr (e, w) ↦ inr (inl e, subst (λ (y : Task). In k y.output_table_paths) (sym e) w)
        ]
      ],
      λ x. elim x [
        | inl old ↦ rest.1 (inl (first.1 (inl old)))
        | inr (inl e, w) ↦
            rest.1 (inl (first.1 (inr (e, subst (λ (y : Task). In k y.output_table_paths) e w))))
        | inr (inr listed, w) ↦ rest.1 (inr (listed, w))
      ],
    )
