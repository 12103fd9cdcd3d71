-- ===== src/Dag/Relations/Links.antt =====
-- The loops of `resolve_tasks_dependencies` as one list of links between tasks.
use yt_scheduler.Base.{
  String, ◌≡◌, refl, sym, ap, ◌∙◌, inl, inr, true, false, not, List, [], ◌∷◌, ◌++◌, map, Bool-cases,
  ◌==◌, if◌then◌else◌,
}
use yt_scheduler.Dag.{Task}
use yt_scheduler.Dag.Relations.{
  change, add_succeeding, add_preceding, set_relatives, set_producers, producers_of, set_all,
  producers_map, apply_rules,
}

-- A consumer and its producer.
abbrev pub Link : Type 0
Link = Task × Task

-- What a link makes of one task object.
abbrev pub link_one : Link → Task → Task
link_one (c, p) t =
    if not (p.dag_id == c.dag_id)
    then t
    else (let u = if t.task_id == p.task_id then add_succeeding c.task_id t else t in
        if t.task_id == c.task_id then add_preceding p.task_id u else u)

abbrev pub link_each : List Link → Task → Task
link_each [] t = t
link_each (l ∷ ls) t = link_each ls (link_one l t)

abbrev pub links_to : Task → List Task → List Link
links_to c [] = []
links_to c (p ∷ ps) = (c, p) ∷ links_to c ps

abbrev pub links_over : List (String × List Task) → Task → List String → List Link
links_over producers c [] = []
links_over producers c (key ∷ keys) =
    links_to c (producers_of key producers) ++ links_over producers c keys

abbrev pub links_all : List (String × List Task) → List Task → List Link
links_all producers [] = []
links_all producers (c ∷ cs) = links_over producers c c.input_table_paths ++ links_all producers cs

abbrev pub links_rules : List Task → List Task → List Link
links_rules [] tasks = []
links_rules (rule ∷ rules) tasks =
    links_all (producers_map tasks []) tasks ++ links_rules rules tasks

map-id : (objects : List Task) → map (link_each []) objects ≡ objects
map-id [] = refl
map-id (t ∷ ts) = ap (◌∷◌ t) (map-id ts)

link_each-append :
    (ls ms : List Link) (t : Task) → link_each (ls ++ ms) t ≡ link_each ms (link_each ls t)
link_each-append [] ms t = refl
link_each-append (l ∷ ls) ms t = link_each-append ls ms (link_one l t)

map-append :
    (ls ms : List Link) (objects : List Task)
    → map (link_each ms) (map (link_each ls) objects) ≡ map (link_each (ls ++ ms)) objects
map-append ls ms [] = refl
map-append ls ms (t ∷ ts) = rw (link_each-append ls ms t, map-append ls ms ts)

-- One link, object by object.
changed_one :
    (c p : Task) (objects : List Task)
    → (p.dag_id == c.dag_id) ≡ true
    → change c.task_id
        (add_preceding p.task_id)
        (change p.task_id (add_succeeding c.task_id) objects)
      ≡ map (link_one (c, p)) objects
changed_one c p [] same = refl
changed_one c p (t ∷ ts) same = elim (Bool-cases (t.task_id == p.task_id)) [
  | inl a ↦ elim (Bool-cases (t.task_id == c.task_id)) [
    | inl b ↦ rw (a, b, same, changed_one c p ts same)
    | inr b ↦ rw (a, b, same, changed_one c p ts same)
  ]
  | inr a ↦ elim (Bool-cases (t.task_id == c.task_id)) [
    | inl b ↦ rw (a, b, same, changed_one c p ts same)
    | inr b ↦ rw (a, b, same, changed_one c p ts same)
  ]
]

map-link :
    (l : Link) (ls : List Link) (objects : List Task)
    → map (link_each ls) (map (link_one l) objects) ≡ map (link_each (l ∷ ls)) objects
map-link l ls [] = refl
map-link l ls (t ∷ ts) = ap (◌∷◌ (link_each ls (link_one l t))) (map-link l ls ts)

unlinked :
    (c p : Task) (objects : List Task)
    → (p.dag_id == c.dag_id) ≡ false
    → map (link_one (c, p)) objects ≡ objects
unlinked c p [] other = refl
unlinked c p (t ∷ ts) other = rw (other, unlinked c p ts other)

pub set_relatives-links :
    (c : Task) (ps objects : List Task)
    → set_relatives c ps true objects ≡ map (link_each (links_to c ps)) objects
unfolding set_relatives
set_relatives-links c [] objects = sym (map-id objects)
set_relatives-links c (p ∷ ps) objects = elim (Bool-cases (p.dag_id == c.dag_id)) [
  | inl same ↦ rw same (
      set_relatives-links c ps _
      ∙ ap (map (link_each (links_to c ps))) (changed_one c p objects same)
      ∙ map-link (c, p) (links_to c ps) objects)
  | inr other ↦ rw other (
      set_relatives-links c ps objects
      ∙ ap (map (link_each (links_to c ps))) (sym (unlinked c p objects other))
      ∙ map-link (c, p) (links_to c ps) objects)
]

set_producers-links :
    (producers : List (String × List Task)) (c : Task) (keys : List String) (objects : List Task)
    → set_producers producers c keys objects ≡ map (link_each (links_over producers c keys)) objects
set_producers-links producers c [] objects = sym (map-id objects)
set_producers-links producers c (key ∷ keys) objects =
    set_producers-links producers c keys _
    ∙ ap (map (link_each (links_over producers c keys)))
        (set_relatives-links c (producers_of key producers) objects)
    ∙ map-append (links_to c (producers_of key producers)) (links_over producers c keys) objects

set_all-links :
    (producers : List (String × List Task)) (cs objects : List Task)
    → set_all producers cs objects ≡ map (link_each (links_all producers cs)) objects
set_all-links producers [] objects = sym (map-id objects)
set_all-links producers (c ∷ cs) objects =
    set_all-links producers cs _
    ∙ ap (map (link_each (links_all producers cs)))
        (set_producers-links producers c c.input_table_paths objects)
    ∙ map-append (links_over producers c c.input_table_paths) (links_all producers cs) objects

pub apply_rules-links :
    (rules tasks objects : List Task)
    → apply_rules rules tasks objects ≡ map (link_each (links_rules rules tasks)) objects
apply_rules-links [] tasks objects = sym (map-id objects)
apply_rules-links (rule ∷ rules) tasks objects =
    apply_rules-links rules tasks _
    ∙ ap (map (link_each (links_rules rules tasks)))
        (set_all-links (producers_map tasks []) tasks objects)
    ∙ map-append (links_all (producers_map tasks []) tasks) (links_rules rules tasks) objects
