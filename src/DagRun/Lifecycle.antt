-- ===== src/DagRun/Lifecycle.antt =====
-- The dates of a DAG run through its changes of state.
use yt_scheduler.Base.{String, ◌≡◌, ◌≢◌, true, false, none, arith}
use yt_scheduler.State.{DagRunState}
use yt_scheduler.Rows.{DagRunRow}
use yt_scheduler.DagRun.{is_open, build_row_by_state}

-- The dates that a state promises.
pub record IsStamped (r : DagRunRow) : Type 0 where
  pub scheduled : r.scheduled_at ≢ none
  pub unqueued : r.state ≡ DagRunState.scheduled → r.queued_at ≡ none
  pub queued : r.state ≢ DagRunState.scheduled → r.queued_at ≢ none
  pub unstarted : r.state ≡ DagRunState.queued → r.start_date ≡ none
  pub started : r.state ≢ DagRunState.scheduled → r.state ≢ DagRunState.queued → r.start_date ≢ none
  pub open_ended : is_open r.state ≡ true → r.end_date ≡ none
  pub ended : is_open r.state ≡ false → r.end_date ≢ none

-- Any change of state keeps the dates in step with the state: a run has its queueing date from
-- QUEUED on, its start date from RUNNING on, and an end date exactly when it is finished.
pub build_row_by_state-IsStamped :
    (now : String) (s : DagRunState) (r : DagRunRow)
    → IsStamped r
    → IsStamped (build_row_by_state now s r)
unfolding build_row_by_state
build_row_by_state-IsStamped now s r d =
    ground (arith, d.scheduled, d.unqueued, d.queued, d.unstarted, d.started, d.open_ended, d.ended)

-- To set a state again, as a retry does, changes nothing, and the row has that state.
pub build_row_by_state_twice :
    (now later : String) (s : DagRunState) (r : DagRunRow)
    → (build_row_by_state later s (build_row_by_state now s r) ≡ build_row_by_state now s r)
      × ((build_row_by_state now s r).state ≡ s)
unfolding build_row_by_state
build_row_by_state_twice now later s r = ground arith

pub build_row_by_state-run_id :
    (now : String) (s : DagRunState) (r : DagRunRow)
    → (build_row_by_state now s r).run_id ≡ r.run_id
unfolding build_row_by_state
build_row_by_state-run_id now s r = ground arith
