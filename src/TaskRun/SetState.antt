-- ===== src/TaskRun/SetState.antt =====
-- `TaskRun.set_state` of taskrun.py, with `update_row`, and the helpers inside it.
pub mod Guarded
pub mod Applied
pub mod Direct
use yt_scheduler.Base.{
  ℕ, suc, String, Bool, true, false, not, ◌&&◌, Option, none, some, List, [], ◌∷◌, ◌++◌, contains,
  is_empty, ◌==◌, if◌then◌else◌,
}
use yt_scheduler.Base.Action.{Action, pure, ◌>>=◌, ◌>>◌}
use yt_scheduler.State.{TaskRunState, same_task_run}
use yt_scheduler.Rows.{
  TaskRunRow, Condition, anything, equals, among, holds, holds_optional, TaskRunQuery, any_task_run,
}
use yt_scheduler.Yt.{
  YtClient, Session, find_task_run, transaction, select_task_runs, upsert_task_runs,
}
use yt_scheduler.TaskRun.{build_row}

-- The row of an update: a run id, or an object that holds a row.
pub data RowRef : Type 0 where
  by_id : String → RowRef
  by_row : TaskRunRow → RowRef

-- The `required_…` parameters of `update_row`.
pub record Requires : Type 0 where
  pub task_id : Condition String
  pub dag_id : Condition String
  pub dagrun_id : Condition String
  pub state : Condition TaskRunState
  pub operation_id : Condition String

abbrev pub no_requires : Requires
no_requires = record {
  task_id = anything;
  dag_id = anything;
  dagrun_id = anything;
  state = anything;
  operation_id = anything;
}

-- What `update_row` returns: the row, the new values and the requirements.
pub record Update : Type 0 where
  pub row : RowRef
  pub state : Option TaskRunState
  pub operation_id : Option String
  pub requires : Requires

-- TaskRun.update_row(tr, state=state)
abbrev pub update_to : TaskRunState → TaskRunRow → Update
update_to state tr = record {
  row = by_row tr;
  state = some state;
  operation_id = none;
  requires = no_requires;
}

abbrev is_given : {A : Type 0} → Condition A → Bool
is_given anything = false
is_given _ = true

-- `if requires`: the dictionary holds what was not `None`.
abbrev pub has_requires : Requires → Bool
has_requires q = not (
    not (is_given q.task_id)
    && not (is_given q.dag_id)
    && not (is_given q.dagrun_id)
    && not (is_given q.state)
    && not (is_given q.operation_id))

-- `_is_matched`
unfoldable pub is_matched : TaskRunRow → Requires → Bool
is_matched r q =
    holds (λ a b. a == b) q.task_id r.task_id
    && holds (λ a b. a == b) q.dag_id r.dag_id
    && holds (λ a b. a == b) q.dagrun_id r.dagrun_id
    && holds same_task_run q.state r.state
    && holds_optional q.operation_id r.operation_id

-- The id to fetch for an update, if its row has to be read first.
abbrev pub fetched_id : RowRef → Requires → Option String
fetched_id (by_id k) q = some k
fetched_id (by_row r) q = if has_requires q then some r.run_id else none

abbrev pub add_id : Option String → List String → List String
add_id none ids = ids
add_id (some k) ids = if contains k ids then ids else k ∷ ids

-- The set `fetchable_rids`.
unfoldable pub fetchable_ids : List Update → List String
fetchable_ids [] = []
fetchable_ids (u ∷ us) = add_id (fetched_id u.row u.requires) (fetchable_ids us)

-- The row that an update starts from; `none` where looking it up fails, and the update is skipped.
abbrev pub resolve : List TaskRunRow → RowRef → Requires → Option TaskRunRow
resolve fetched (by_id k) q = find_task_run k fetched
resolve fetched (by_row r) q = if has_requires q then find_task_run r.run_id fetched else some r

-- One round of the loop of `_set_state`: the row to write, if any.
unfoldable pub new_row : String → List TaskRunRow → Update → Option TaskRunRow
new_row now fetched u = elim (resolve fetched u.row u.requires) [
  | none ↦ none
  | some tr ↦
      if has_requires u.requires && not (is_matched tr u.requires)
      then none
      else some (build_row now tr u.state u.operation_id)
]

abbrev pub push : Option TaskRunRow → List TaskRunRow → List TaskRunRow
push none rows = rows
push (some r) rows = r ∷ rows

-- `rows_batch`. `now i` is what the clock shows when the `i`-th update is looked at.
unfoldable pub rows_batch : (ℕ → String) → List TaskRunRow → List Update → List TaskRunRow
unfolding new_row
rows_batch now fetched [] = []
rows_batch now fetched (u ∷ us) =
    push (new_row (now 0) fetched u) (rows_batch (λ i. now (suc i)) fetched us)

module _ {Db : Type 0} (yt : YtClient Db) {O : Type 0} where
  -- The rest of `_set_state`, and what `set_state` returns: `copy_fields` has given each of the
  -- returned objects the fields of the row written for it.
  abbrev pub write_batch : List TaskRunRow → Action (Session Db O) (List TaskRunRow)
  write_batch [] = pure []
  write_batch (r ∷ rs) = do upsert_task_runs yt (r ∷ rs); pure (r ∷ rs)

  -- The body of the transaction: the rows that the updates need are read, then the batch is written.
  abbrev pub fetch_and_write : (ℕ → String) → List Update → Action (Session Db O) (List TaskRunRow)
  fetch_and_write now updates = do
    fetched ← select_task_runs yt (record any_task_run { run_id = among (fetchable_ids updates) })
    write_batch (rows_batch now fetched updates)

  -- Objects that an update names by their row are refreshed in place too. A caller that keeps
  -- such an object reads the row that `set_state` returns for it. The source opens the transaction on
  -- the global client of the package and reads and writes with the client of the job: here the two
  -- are one client, as where no job has another.
  unfoldable pub set_state : (ℕ → String) → List Update → Action (Session Db O) (List TaskRunRow)
  unfolding rows_batch fetchable_ids
  set_state now updates =
      if is_empty (fetchable_ids updates)
      then write_batch (rows_batch now [] updates)
      else transaction yt (fetch_and_write now updates)
