-- ===== src/TaskRun/Lifecycle.antt =====
-- The columns of a task run through its changes of state.
use yt_scheduler.Base.{String, ◌≡◌, ◌≢◌, true, false, Option, none, some, arith, ◌⊎◌}
use yt_scheduler.State.{TaskRunState, is_unfinished}
use yt_scheduler.Rows.{TaskRunRow}
use yt_scheduler.TaskRun.{restate, build_row}

-- A row whose dates fit its state.
pub record IsDated (r : TaskRunRow) : Type 0 where
  pub open_ended : is_unfinished r.state ≡ true → r.end_date ≡ none
  pub ended : is_unfinished r.state ≡ false → r.end_date ≢ none
  pub started : r.state ≡ TaskRunState.running → r.start_date ≢ none
  pub waiting :
      r.state ≡ TaskRunState.scheduled ⊎ r.state ≡ TaskRunState.queued → r.start_date ≡ none

restate-IsDated :
    (now : String) (s : TaskRunState) (r : TaskRunRow) → IsDated r → IsDated (restate now s r)
unfolding restate
restate-IsDated now s r d = ground (arith, d.open_ended, d.ended, d.started, d.waiting)

-- Any change of a task run keeps its dates in step with its state: an unfinished task run has no
-- end date and a finished one has, one that runs has a start date, and one that waits has none.
pub build_row-IsDated :
    (now : String) (r : TaskRunRow) (s : Option TaskRunState) (o : Option String)
    → IsDated r
    → IsDated (build_row now r s o)
unfolding build_row
build_row-IsDated now r none o d = ground (arith, d.open_ended, d.ended, d.started, d.waiting)
build_row-IsDated now r (some s) o d = ground (arith, d.open_ended, d.ended, d.started, d.waiting)

-- To make the same change again later, as a retry does, changes nothing.
pub build_row_twice :
    (now later : String) (r : TaskRunRow) (s : Option TaskRunState) (o : Option String)
    → build_row later (build_row now r s o) s o ≡ build_row now r s o
unfolding build_row restate
build_row_twice now later r s o = ground arith

-- No change of state touches the columns that say which task run a row is.
pub build_row-run_id :
    (now : String) (r : TaskRunRow) (s : Option TaskRunState) (o : Option String)
    → (build_row now r s o).run_id ≡ r.run_id
unfolding build_row
build_row-run_id now r s o = ground arith

pub build_row-state :
    (now : String) (r : TaskRunRow) (s : TaskRunState) (o : Option String)
    → (build_row now r (some s) o).state ≡ s
unfolding build_row
build_row-state now r s o = ground arith
