-- ===== src/DagRef/Content.antt =====
-- The table of DAGs as a store that is addressed by content: for each hash at most one DAG id, which
-- `try_add_dag` gives out again or makes.
use yt_scheduler.Base.{
  String, Bool, true, false, ◌≡◌, ◌≢◌, refl, sym, ap, ◌∙◌, subst, inl, inr, Option, none, some, [],
  ◌∷◌, eq_iff, Option-cases, Bool-cases, ◌==◌, if◌then◌else◌,
}
use yt_scheduler.Base.Action.{ok}
use yt_scheduler.Yt.{YtClient, YtLaws, Session}
use yt_scheduler.DagRef.{DagRefRow, RefClient, RefLaws, SameRefs}
use yt_scheduler.DagRef.Claimed.{some_injective}
use yt_scheduler.DagRef.Add.{Submission, dag_ref_of, new_meta, try_add_dag}
use yt_scheduler.DagRef.Added.{
  StoredOnce, try_add_dag-ok, try_add_dag-finds, found_cases, add_new-ok, create_refs_meta-ok,
  stored_same, stored_new,
}

-- The abstract store: the DAG id of each hash.
abbrev pub Content : Type 0
Content = String → Option String

abbrev pub extend : Content → String → String → Content
extend content hash dag_id = λ h. if hash == h then some dag_id else content h

-- Adding a hash gives the id that it has, or takes the new one; the first part of the result is
-- whether the hash is new.
unfoldable pub add : Content → String → String → (Bool × String) × Content
add content hash dag_id = elim (content hash) [
  | some d ↦ ((false, d), content)
  | none ↦ ((true, dag_id), extend content hash dag_id)
]

add-none :
    (content : Content) (hash dag_id : String)
    → content hash ≡ none
    → add content hash dag_id ≡ ((true, dag_id), extend content hash dag_id)
unfolding add
add-none content hash dag_id e = rw (e, add) refl

add-some :
    (content : Content) (hash dag_id d : String)
    → content hash ≡ some d
    → add content hash dag_id ≡ ((false, d), content)
unfolding add
add-some content hash dag_id d e = rw (e, add) refl

module _ {Db : Type 0} (yt : YtClient Db) (refs : RefClient Db) where
  abbrev Holds : Db → String → Option String → Type 0
  Holds db hash none =
      (k : String) (r : DagRefRow) → refs.ref_at db k ≡ some r → r.payload_hash ≡ hash → ⊥
  Holds db hash (some d) = StoredOnce yt refs db hash d

  -- The tables hold the content.
  abbrev pub Refines : Db → Content → Type 0
  Refines db content = (hash : String) → Holds db hash (content hash)

  module _ (laws : YtLaws yt) (ref_laws : RefLaws refs yt) where
    Holds-same :
        (db db' : Db) (hash : String) (o : Option String)
        → SameRefs refs db db'
        → Holds db hash o
        → Holds db' hash o
    Holds-same db db' hash none same h = λ k r at. h k r (sym (same k) ∙ at)
    Holds-same db db' hash (some d) same h = stored_same yt refs laws ref_laws db db' hash d same h

    -- What is held for other hashes, after a DAG is written under an id that is free.
    Holds-other :
        (db db' : Db) (r : DagRefRow) (hash : String) (o : Option String)
        → refs.insert_refs (r ∷ []) db ≡ ok db'
        → refs.ref_at db r.dag_id ≡ none
        → r.payload_hash ≢ hash
        → Holds db hash o
        → Holds db' hash o
    Holds-other db db' r hash o e free apart h = holds o h
      where
        before :
            (k : String) (x : DagRefRow)
            → refs.ref_at db' k ≡ some x
            → x.payload_hash ≡ hash
            → refs.ref_at db k ≡ some x
        before k x at same = elim (Bool-cases (r.dag_id == k)) [
          | inr other ↦ sym (rw other at ((ref_laws.refs_written (r ∷ []) db db' e).0 k)) ∙ at
          | inl q ↦
              let written = rw q at ((ref_laws.refs_written (r ∷ []) db db' e).0 k) in
              absurd (
                apart (
                  ap (λ (y : DagRefRow). y.payload_hash) (some_injective (sym written ∙ at))
                  ∙ same))
        ]

        kept : (k : String) (x : DagRefRow) → refs.ref_at db k ≡ some x → refs.ref_at db' k ≡ some x
        kept k x at = elim (Bool-cases (r.dag_id == k)) [
          | inr other ↦ rw other at ((ref_laws.refs_written (r ∷ []) db db' e).0 k) ∙ at
          | inl q ↦ absurd (cc (sym free ∙ ap (refs.ref_at db) ((eq_iff r.dag_id k).0 q) ∙ at))
        ]

        holds : (o : Option String) → Holds db hash o → Holds db' hash o
        holds none h = λ k x at same. h k x (before k x at same) same
        holds (some d) h =
            ((h.0.0, kept d h.0.0 h.0.1, h.0.2), λ k x at same. h.1 k x (before k x at same) same)

    -- The tables after a new DAG is written.
    extend-Refines :
        (content : Content) (dag_id repr hash now : String) (db db' : Db)
        → Refines db content
        → Holds db hash none
        → refs.ref_at db dag_id ≡ none
        → refs.insert_refs (dag_ref_of now dag_id (repr, hash) ∷ []) db ≡ ok db'
        → Refines db' (extend content hash dag_id)
    extend-Refines content dag_id repr hash now db db' all fresh free e h =
        let ref = dag_ref_of now dag_id (repr, hash) in
        elim (Bool-cases (hash == h)) [
          | inr other ↦ rw other (
              Holds-other db db' ref h (content h) e free (λ q. cc ((eq_iff hash h).1 q, other))
                (all h))
          | inl same ↦
              let q = (eq_iff hash h).0 same in
              rw same (
                subst (λ x. StoredOnce yt refs db' x dag_id) q
                  (stored_new yt refs laws ref_laws db db' ref e fresh))
        ]

    -- A submission that ends well does what adding its hash does to the content of the tables, and
    -- returns what that gives: whether the DAG is new, and the id that its hash has from then on.
    -- The id that is generated for it is free.
    pub try_add_dag-Refines :
        {O : Type 0} (now dag_id id repr hash : String) (submission : Submission) (s : Session Db O)
        (content : Content) (new : Bool) (d i : String)
        → Refines s.db content
        → submission.serialized ≡ ok (repr, hash)
        → refs.ref_at s.db dag_id ≡ none
        → (try_add_dag yt refs now dag_id id submission s).0 ≡ ok (new, d, i)
        → let (out, content') = add content hash dag_id in
          (◌≡◌ {A = Bool × String} (new, d) out)
          × Refines (try_add_dag yt refs now dag_id id submission s).1.db content'
    try_add_dag-Refines now dag_id id repr hash submission s content new d i all known free h =
        elim (Option-cases (content hash)) [
          | inr (old, e) ↦
              let (o, keeps) =
                try_add_dag-finds yt refs laws ref_laws now dag_id id repr hash submission s old _
                  known (subst (Holds s.db hash) e (all hash)) h in
              rw (add-some content hash dag_id old e) (
                ap (λ (x : Bool × String × String). (x.0, x.1)) o,
                λ k. Holds-same s.db _ k (content k) keeps (all k),
              )
          | inl e ↦
              let payload : String × String = (repr, hash) in
              let fresh : Holds s.db hash none = subst (Holds s.db hash) e (all hash) in
              let (rows, found, q) =
                try_add_dag-ok yt refs now dag_id id submission payload s _ known h in
              elim (found_cases yt refs laws ref_laws hash s.db rows found) [
                | inr (r, _, at, same) ↦ absurd (fresh r.dag_id r at same)
                | inl (missing, _) ↦
                    let (tasks, _, o, done, w) =
                      add_new-ok yt refs now dag_id id submission payload s _
                        (rw (q, missing) at h) in
                    let ref = dag_ref_of now dag_id payload in
                    let meta = new_meta now id dag_id in
                    let (db, db', e1, e2, e3) =
                      create_refs_meta-ok yt refs ref tasks meta s tt laws done in
                    let (_, _, keeps, _) = ref_laws.task_refs_written tasks db db' e2 in
                    let (_, keeps', _, _) = ref_laws.metas_written (meta ∷ []) db' _ e3 in
                    rw (add-none content hash dag_id e) (
                      ap (λ (x : Bool × String × String). (x.0, x.1)) o,
                      λ k.
                          rw (q, missing, w)
                            (Holds-same db' _ k _ keeps' (
                              Holds-same db db' k _ keeps (
                                extend-Refines content dag_id repr hash now s.db db all fresh free
                                  e1 k))),
                    )
              ]
        ]
