-- ===== src/Examples/Claims.antt =====
-- DAGs that are submitted and metas that are claimed.
use yt_scheduler.Base.{
  String, Bool, true, ◌≡◌, refl, sym, ap, ◌∙◌, inl, inr, none, some, List, [], ◌∷◌, In, eq_iff,
}
use yt_scheduler.Base.Action.{ok, Result}
use yt_scheduler.Yt.{Session}
use yt_scheduler.Yt.Model.{Tables}
use yt_scheduler.DagRef.{DagMetaRow, DagRefRow, RefClient, RefLaws, matches}
use yt_scheduler.DagRef.Model.{ref_client, ref_client-RefLaws}
use yt_scheduler.DagRef.Claim.{new_dag_run, create_dag_runs_atomic, set_invalid_meta}
use yt_scheduler.DagRef.Claimed.{create_dag_runs-claims}
use yt_scheduler.DagRef.Once.{creating, invalidating, claim_all, claim_all-keeps}
use yt_scheduler.DagRef.Add.{Submission, dag_ref_of, new_meta, task_ref_of, try_add_dag}
use yt_scheduler.DagRef.Content.{Content, add, Refines, try_add_dag-Refines}
use yt_scheduler.DagRef.Tasks.{AreKeyed, try_add_dag-adds}
use yt_scheduler.Examples.Data.{clock, uuid, uuid_injective, farm, farm-YtLaws}

abbrev store : RefClient Tables
store = ref_client (λ k. 0)

store-RefLaws : RefLaws store farm
store-RefLaws = ref_client-RefLaws (λ k. 0)

abbrev dag_ref : DagRefRow
dag_ref = dag_ref_of "then" "d" ("{}", "h")

abbrev submitted : DagMetaRow
submitted = record { id = some "m"; dag_id = "d"; created_at = "later"; run_id = none }

abbrev claimed : DagMetaRow
claimed = record { id = some "n"; dag_id = "d"; created_at = "then"; run_id = some "r" }

abbrev tables : List DagMetaRow → List DagRefRow → Tables
tables metas dag_refs = record {
  task_runs = [];
  dag_runs = [];
  metas = metas;
  dag_refs = dag_refs;
  task_refs = [];
}

abbrev at_rest : Tables → Session Tables (Unit {0})
at_rest db = record { db = db; self = tt }

abbrev two_metas : Tables
two_metas = tables (submitted ∷ claimed ∷ []) (dag_ref ∷ [])

-- One of two listed metas is claimed: the other has a run.
one_claimed :
    (create_dag_runs_atomic farm store clock uuid ("n" ∷ "m" ∷ []) (at_rest two_metas)).0 ≡ ok 1
unfolding create_dag_runs_atomic matches
one_claimed = refl

none_to_claim : (create_dag_runs_atomic farm store clock uuid [] (at_rest two_metas)).0 ≡ ok 0
unfolding create_dag_runs_atomic matches
none_to_claim = refl

marked :
    store.meta_at (set_invalid_meta farm store clock ("m" ∷ []) (at_rest two_metas)).1.db "m"
    ≡ some (record {
      id = some "m";
      dag_id = "d";
      created_at = "then";
      run_id = some "ERR:PARSING_FAILED:now";
    })
unfolding set_invalid_meta matches
marked = refl

create_dag_runs-claims_example :
    let db' = (create_dag_runs_atomic farm store clock uuid ("m" ∷ []) (at_rest two_metas)).1.db in
    (run_id now : String) × (store.meta_at db' "m"
      ≡ some (record { id = some "m"; dag_id = "d"; created_at = "then"; run_id = some run_id }))
    × (farm.dag_run_at db' run_id ≡ some (new_dag_run now run_id "d"))
unfolding create_dag_runs_atomic matches
create_dag_runs-claims_example =
    create_dag_runs-claims farm store farm-YtLaws store-RefLaws clock uuid ("m" ∷ [])
      (at_rest two_metas) 1 "m" submitted dag_ref uuid_injective refl refl refl refl refl

claim_all-keeps_example :
    store.meta_at
      (claim_all farm store
        (creating clock uuid ("n" ∷ "m" ∷ []) ∷ invalidating clock ("n" ∷ []) ∷ [])
        two_metas)
      "n"
    ≡ some claimed
claim_all-keeps_example =
    claim_all-keeps farm store farm-YtLaws store-RefLaws
      (creating clock uuid ("n" ∷ "m" ∷ []) ∷ invalidating clock ("n" ∷ []) ∷ []) two_metas "n" "r"
      claimed refl refl

abbrev submission : Submission
submission = record {
  serialized = ok ("{}", "h");
  tasks = ("a", ok ("{a}", "ha")) ∷ ("b", ok ("{b}", "hb")) ∷ [];
}

abbrev key_of : String × Result (String × String) → String
key_of x = x.0

abbrev value_of : String × Result (String × String) → Result (String × String)
value_of x = x.1

-- "a" and "b" are different ids.
apart : {id : String} → id ≡ "a" → id ≡ "b" → ⊥
apart e e' = cc ((eq_iff "a" "b").1 (sym e ∙ e'))

submission-AreKeyed : AreKeyed submission.tasks
submission-AreKeyed id a b (inl e) (inl e') = ap value_of e ∙ sym (ap value_of e')
submission-AreKeyed id a b (inl e) (inr (inl e')) = absurd (apart (ap key_of e) (ap key_of e'))
submission-AreKeyed id a b (inr (inl e)) (inl e') = absurd (apart (ap key_of e') (ap key_of e))
submission-AreKeyed id a b (inr (inl e)) (inr (inl e')) = ap value_of e ∙ sym (ap value_of e')
submission-AreKeyed id a b (inr (inr m)) h = absurd m
submission-AreKeyed id a b (inl e) (inr (inr m)) = absurd m
submission-AreKeyed id a b (inr (inl e)) (inr (inr m)) = absurd m

try_add_dag-adds_example :
    let db = (try_add_dag farm store "now" "d" "m" submission (at_rest (tables [] []))).1.db in
    (store.ref_at db "d" ≡ some (dag_ref_of "now" "d" ("{}", "h")))
    × (store.meta_at db "m" ≡ some (new_meta "now" "m" "d"))
    × ((task_id : String) (payload : String × String)
        → In (task_id, ok payload) submission.tasks
        → store.task_ref_at db "d" task_id ≡ some (task_ref_of "now" "d" task_id payload))
    × ((k : String) (r : DagRefRow)
        → store.ref_at (tables [] []) k ≡ some r
        → r.payload_hash ≡ "h"
        → ⊥)
unfolding try_add_dag
try_add_dag-adds_example =
    try_add_dag-adds farm store "now" "d" "m" "{}" "h" submission (at_rest (tables [] [])) "d" "m"
      farm-YtLaws store-RefLaws refl submission-AreKeyed refl

abbrev no_content : Content
no_content hash = none

added : (add no_content "h" "d").0 ≡ (true, "d")
unfolding add
added = refl

try_add_dag-Refines_example :
    let (out, content') = add no_content "h" "d" in
    (◌≡◌ {A = Bool × String} (true, "d") out)
    × Refines farm store
        (try_add_dag farm store "now" "d" "m" submission (at_rest (tables [] []))).1.db
        content'
unfolding try_add_dag
try_add_dag-Refines_example =
    try_add_dag-Refines farm store farm-YtLaws store-RefLaws "now" "d" "m" "{}" "h" submission
      (at_rest (tables [] [])) no_content true "d" "m" (λ hash k r e same. cc) refl refl refl
