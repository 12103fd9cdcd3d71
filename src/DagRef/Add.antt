-- ===== src/DagRef/Add.antt =====
-- commands.py: `try_add_dag`, which stores a DAG, unless one with the same payload is stored, and a
-- new meta for it.
use yt_scheduler.Base.{String, Bool, true, false, Option, none, some, List, [], ◌∷◌, if◌then◌else◌}
use yt_scheduler.Base.Action.{
  Result, ok, err, Action, pure, lift, ◌>>=◌, ◌>>◌, and_then, lock_conflict, attribute_error,
  same_error,
}
use yt_scheduler.Yt.{YtClient, Session, transaction}
use yt_scheduler.DagRun.Methods.{single}
use yt_scheduler.DagRef.{
  DagMetaRow, DagRefRow, TaskRefRow, RefClient, upsert_metas, upsert_refs, upsert_task_refs,
}

-- What `to_serialized_repr` gives for a DAG, and for each of its tasks by their ids: the text and
-- the hash of it.
pub record Submission : Type 0 where
  pub serialized : Result (String × String)
  pub tasks : List (String × Result (String × String))

abbrev pub unowned {ℓ} : {S A : Type ℓ} → Result A → S → Result A × S
unowned (ok a) s = (ok a, s)
unowned (err e) s = (err (if same_error e lock_conflict then attribute_error else e), s)

-- A call through a client that passes no positional argument: the wrapper asks `None` for a log
-- before it would try again.
abbrev pub through_client {ℓ} : {S A : Type ℓ} → Action S A → Action S A
through_client fn s = let (r, s') = fn s in unowned r s'

abbrev pub task_ref_of : String → String → String → String × String → TaskRefRow
task_ref_of now dag_id task_id (ser, phash) = record {
  dag_id = dag_id;
  task_id = task_id;
  serialized_repr = ser;
  payload_hash = phash;
  created_at = now;
}

-- `task_refs`
abbrev pub task_refs_of :
    String → String → List (String × Result (String × String)) → Result (List TaskRefRow)
task_refs_of now dag_id [] = ok []
task_refs_of now dag_id ((task_id, serialized) ∷ tasks) = and_then serialized (λ payload.
    and_then (task_refs_of now dag_id tasks)
      (λ rows. ok (task_ref_of now dag_id task_id payload ∷ rows)))

abbrev pub dag_ref_of : String → String → String × String → DagRefRow
dag_ref_of now dag_id (repr, hash) = record {
  dag_id = dag_id;
  serialized_repr = repr;
  payload_hash = hash;
  created_at = now;
}

abbrev pub new_meta : String → String → String → DagMetaRow
new_meta now id dag_id = record { id = some id; dag_id = dag_id; created_at = now; run_id = none }

module _ {Db : Type 0} (yt : YtClient Db) (refs : RefClient Db) {O : Type 0} where
  -- DagRef.get(payload_hash=payload_hash)
  unfoldable pub get_ref : String → Action (Session Db O) (Option DagRefRow)
  get_ref hash = (λ s. (refs.select_refs hash 1 s.db, s)) >>= λ rows. pure (single rows)

  abbrev pub create_refs_body :
      DagRefRow → List TaskRefRow → DagMetaRow → Action (Session Db O) (Unit {0})
  create_refs_body dag_ref task_refs meta = do
    upsert_refs yt refs (dag_ref ∷ [])
    upsert_task_refs yt refs task_refs
    upsert_metas yt refs (meta ∷ [])

  -- `_create_refs_meta_atomic`
  unfoldable pub create_refs_meta :
      DagRefRow → List TaskRefRow → DagMetaRow → Action (Session Db O) (Unit {0})
  create_refs_meta dag_ref task_refs meta = transaction yt (create_refs_body dag_ref task_refs meta)

  -- `now` is what the clock shows, at one reading for all rows where the source reads it for each;
  -- `dag_id` and `id` are generated: the id of a new DAG and that of
  -- the meta. The result is whether the DAG is new, its id and the meta's.
  unfoldable pub add_found :
      String
      → String
      → String
      → Submission
      → String × String
      → Option DagRefRow
      → Action (Session Db O) (Bool × String × String)
  unfolding create_refs_meta
  add_found now dag_id id submission payload (some found) = do
    through_client (upsert_metas yt refs (new_meta now id found.dag_id ∷ []))
    pure (false, found.dag_id, id)
  add_found now dag_id id submission payload none = do
    task_refs ← lift (task_refs_of now dag_id submission.tasks)
    through_client
        (create_refs_meta (dag_ref_of now dag_id payload) task_refs (new_meta now id dag_id))
    pure (true, dag_id, id)

  -- `try_add_dag`
  unfoldable pub try_add_dag :
      String → String → String → Submission → Action (Session Db O) (Bool × String × String)
  unfolding get_ref add_found
  try_add_dag now dag_id id submission = do
    payload ← lift submission.serialized
    found ← through_client (get_ref payload.1)
    add_found now dag_id id submission payload found
