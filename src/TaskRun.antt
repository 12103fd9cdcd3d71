-- ===== src/TaskRun.antt =====
-- taskrun.py: what a change of state writes into the row of a task run.
pub mod Lifecycle
pub mod SetState
use yt_scheduler.Base.{String, Bool, true, false, Option, none, some, ◌==◌, if◌then◌else◌, any}
use yt_scheduler.State.{TaskRunState, same_task_run, is_unfinished}
use yt_scheduler.Rows.{TaskRunRow}

-- Python's `value or default`, on an optional text: the empty text counts as absent.
abbrev pub or_else : Option String → String → String
or_else none default = default
or_else (some v) default = if v == "" then default else v

-- The branch of `_build_row` for a new state that is not finished.
unfoldable pub reopen : String → TaskRunState → TaskRunRow → TaskRunRow
reopen now TaskRunState.scheduled base = record base {
  scheduled_at = some (or_else base.scheduled_at now);
  queued_at = none;
  start_date = none;
  end_date = none;
}
reopen now TaskRunState.running base = record base {
  scheduled_at = some (or_else base.scheduled_at now);
  queued_at = some (or_else base.queued_at now);
  start_date = some now;
  end_date = none;
}
reopen now state base = record base {
  scheduled_at = some (or_else base.scheduled_at now);
  queued_at = some (or_else base.queued_at now);
  start_date = none;
  end_date = none;
}

-- The branch for a new state that is finished.
unfoldable pub close : String → TaskRunRow → TaskRunRow
close now base = if is_unfinished base.state then record base { end_date = some now } else base

unfoldable pub restate : String → TaskRunState → TaskRunRow → TaskRunRow
unfolding reopen close
restate now state base =
    if same_task_run base.state state
    then base
    else record (if is_unfinished state then reopen now state base else close now base) {
      state = state;
    }

-- `_build_row` of `TaskRun.set_state`; a parameter that was not given is `none`.
unfoldable pub build_row : String → TaskRunRow → Option TaskRunState → Option String → TaskRunRow
unfolding restate
build_row now row state operation_id =
    let base : TaskRunRow = elim state [ none ↦ row | some s ↦ restate now s row ] in
    elim operation_id [ none ↦ base | some o ↦ record base { operation_id = some o } ]
