-- ===== src/Dag/Relations/Resolved.antt =====
-- What `resolve_tasks_dependencies` makes of the relations between tasks.
use yt_scheduler.Base.{
  String, ◌≡◌, ◌↔◌, refl, sym, ap, ◌∙◌, subst, ◌⊎◌, inl, inr, List, [], ◌∷◌, In, map_member,
  In-append, In-append_left, In-append_right,
}
use yt_scheduler.Dag.{Task, Dag}
use yt_scheduler.Dag.Relations.{producers_of, producers_map, resolve_tasks_dependencies}
use yt_scheduler.Dag.Relations.Links.{
  Link, link_each, links_to, links_over, links_all, links_rules, apply_rules-links,
}
use yt_scheduler.Dag.Relations.Effect.{Joined, kept_ids, each_preceding, each_succeeding}
use yt_scheduler.Dag.{IsKeyed}
use yt_scheduler.Dag.Relations.Producers.{In-producers_map}

-- A task that writes a table which the other reads, both of one DAG.
pub record Feeds (p c : Task) : Type 0 where
  pub table : String
  pub written : In table p.output_table_paths
  pub read : In table c.input_table_paths
  pub same_dag : p.dag_id ≡ c.dag_id

In-links_to :
    (l : Link) (c : Task) (ps : List Task) → In l (links_to c ps) ↔ ((l.0 ≡ c) × In l.1 ps)
In-links_to l c [] = (λ m. absurd m, λ (_, m). absurd m)
In-links_to l c (p ∷ ps) =
    let rest = In-links_to l c ps in
    (
      λ m. elim m [
        | inl e ↦ (ap (λ (x : Link). x.0) e, inl (ap (λ (x : Link). x.1) e))
        | inr later ↦ let (e, listed) = rest.0 later in (e, inr listed)
      ],
      λ (e, m). elim m [ inl q ↦ inl (cc (e, q)) | inr listed ↦ inr (rest.1 (e, listed)) ],
    )

-- A consumer reads a table of which the map has the producer.
abbrev Reads : List (String × List Task) → Link → List String → Type 0
Reads producers l keys = (key : String) × In key keys × In l.1 (producers_of key producers)

In-links_over :
    (producers : List (String × List Task)) (l : Link) (c : Task) (keys : List String)
    → In l (links_over producers c keys) ↔ ((l.0 ≡ c) × Reads producers l keys)
In-links_over producers l c [] = (λ m. absurd m, λ (_, (_, m, _)). absurd m)
In-links_over producers l c (key ∷ keys) =
    let rest = In-links_over producers l c keys in
    let first = In-links_to l c (producers_of key producers) in
    let front = links_to c (producers_of key producers) in
    (
      λ m. elim (In-append l front (links_over producers c keys) m) [
        | inl here ↦ let (e, listed) = first.0 here in (e, (key, inl refl, listed))
        | inr later ↦ let (e, (j, listed, w)) = rest.0 later in (e, (j, inr listed, w))
      ],
      λ (e, (j, listed, w)). elim listed [
        | inl q ↦
            In-append_left l front (links_over producers c keys)
              (first.1 (e, subst (λ i. In l.1 (producers_of i producers)) q w))
        | inr later ↦
            In-append_right l front (links_over producers c keys) (rest.1 (e, (j, later, w)))
      ],
    )

In-links_all :
    (producers : List (String × List Task)) (l : Link) (cs : List Task)
    → In l (links_all producers cs) ↔ (In l.0 cs × Reads producers l l.0.input_table_paths)
In-links_all producers l [] = (λ m. absurd m, λ (m, _). absurd m)
In-links_all producers l (c ∷ cs) =
    let rest = In-links_all producers l cs in
    let first = In-links_over producers l c c.input_table_paths in
    let front = links_over producers c c.input_table_paths in
    (
      λ m. elim (In-append l front (links_all producers cs) m) [
        | inl here ↦
            let (e, reads) = first.0 here in
            (inl e, subst (λ (x : Task). Reads producers l x.input_table_paths) (sym e) reads)
        | inr later ↦ let (listed, reads) = rest.0 later in (inr listed, reads)
      ],
      λ (listed, reads). elim listed [
        | inl e ↦
            In-append_left l front (links_all producers cs)
              (first.1 (e, subst (λ (x : Task). Reads producers l x.input_table_paths) e reads))
        | inr later ↦ In-append_right l front (links_all producers cs) (rest.1 (later, reads))
      ],
    )

In-links_rules :
    (l : Link) (rules tasks : List Task)
    → In l (links_rules rules tasks)
    → In l (links_all (producers_map tasks []) tasks)
In-links_rules l [] tasks m = absurd m
In-links_rules l (rule ∷ rules) tasks m =
    elim (In-append l (links_all (producers_map tasks []) tasks) (links_rules rules tasks) m) [
      | inl here ↦ here
      | inr later ↦ In-links_rules l rules tasks later
    ]

In-links_rules_intro :
    (l : Link) (rules tasks : List Task) (t : Task)
    → In t rules
    → In l (links_all (producers_map tasks []) tasks)
    → In l (links_rules rules tasks)
In-links_rules_intro l [] tasks t m h = absurd m
In-links_rules_intro l (rule ∷ rules) tasks t m h =
    In-append_left l (links_all (producers_map tasks []) tasks) (links_rules rules tasks) h

or_else_iff : {X Y A B : Type 0} → (X ↔ (Y ⊎ A)) → (A ↔ B) → (X ↔ (Y ⊎ B))
or_else_iff f g = (
  λ x. elim (f.0 x) [ inl y ↦ inl y | inr a ↦ inr (g.0 a) ],
  λ y. f.1 (elim y [ inl old ↦ inl old | inr b ↦ inr (g.1 b) ]),
)

module _ (dag : Dag) (keyed : IsKeyed dag) (t : Task) (m : In t dag.tasks) where
  links : List Link
  links = links_rules dag.tasks dag.tasks

  -- A link is between a task and one that feeds it.
  link-feeds :
      (l : Link)
      → In l links ↔ (
          In l.0 dag.tasks
          × In l.1 dag.tasks
          × ((key : String) × In key l.1.output_table_paths × In key l.0.input_table_paths))
  unfolding links
  link-feeds l = (
    λ listed.
        let (c, (key, read, w)) =
          (In-links_all (producers_map dag.tasks []) l dag.tasks).0
            (In-links_rules l dag.tasks dag.tasks listed) in
        elim ((In-producers_map dag.tasks key l.1 []).0 w) [
          | inl x ↦ absurd x
          | inr (p, written) ↦ (c, p, (key, written, read))
        ],
    λ (c, p, (key, written, read)). In-links_rules_intro l dag.tasks dag.tasks t m (
        (In-links_all (producers_map dag.tasks []) l dag.tasks).1
          (c, (key, read, (In-producers_map dag.tasks key l.1 []).1 (inr (p, written))))),
  )

  preceding-Joined :
      (k : String)
      → Joined links t.task_id k ↔ ((p : Task) × In p dag.tasks × Feeds p t × (p.task_id ≡ k))
  preceding-Joined k = (
    λ (l, listed, (dags, near, far)).
        let (c, p, (key, written, read)) = (link-feeds l).0 listed in
        let same : l.0 ≡ t = keyed l.0 t c m near in
        (
          l.1,
          p,
          record {
            table = key;
            written = written;
            read = subst (λ (x : Task). In key x.input_table_paths) same read;
            same_dag = dags ∙ ap (λ (x : Task). x.dag_id) same;
          },
          far,
        ),
    λ (p, listed, f, e). (
      (t, p),
      (link-feeds (t, p)).1 (m, listed, (f.table, f.written, f.read)),
      (f.same_dag, refl, e),
    ),
  )

  succeeding-Joined :
      (k : String)
      → Joined links k t.task_id ↔ ((c : Task) × In c dag.tasks × Feeds t c × (c.task_id ≡ k))
  succeeding-Joined k = (
    λ (l, listed, (dags, near, far)).
        let (c, p, (key, written, read)) = (link-feeds l).0 listed in
        let same : l.1 ≡ t = keyed l.1 t p m far in
        (
          l.0,
          c,
          record {
            table = key;
            written = subst (λ (x : Task). In key x.output_table_paths) same written;
            read = read;
            same_dag = sym (ap (λ (x : Task). x.dag_id) same) ∙ dags;
          },
          near,
        ),
    λ (c, listed, f, e). (
      (c, t),
      (link-feeds (c, t)).1 (listed, m, (f.table, f.written, f.read)),
      (f.same_dag, e, refl),
    ),
  )

  -- After `resolve_tasks_dependencies`, a task is preceded by what preceded it and by the tasks of
  -- its DAG that write a table which it reads, and succeeded by what succeeded it and by those that
  -- read a table which it writes; and by nothing else. No two tasks share an id.
  pub resolve_tasks_dependencies-relations :
      (t' : Task) × In t' (resolve_tasks_dependencies dag.tasks)
      × (t'.task_id ≡ t.task_id)
      × ((k : String)
          → In k t'.preceding_task_ids ↔ (
              In k t.preceding_task_ids
              ⊎ ((p : Task) × In p dag.tasks × Feeds p t × (p.task_id ≡ k))))
      × ((k : String)
          → In k t'.succeeding_task_ids ↔ (
              In k t.succeeding_task_ids
              ⊎ ((c : Task) × In c dag.tasks × Feeds t c × (c.task_id ≡ k))))
  unfolding resolve_tasks_dependencies links
  resolve_tasks_dependencies-relations = (
    link_each links t,
    rw (apply_rules-links dag.tasks dag.tasks dag.tasks)
        (map_member (link_each links) t dag.tasks m),
    kept_ids links t,
    λ k. or_else_iff (each_preceding links t k) (preceding-Joined k),
    λ k. or_else_iff (each_succeeding links t k) (succeeding-Joined k),
  )
