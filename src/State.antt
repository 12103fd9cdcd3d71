-- ===== src/State.antt =====
-- state.py: the states of jobs, DAG runs and task runs. Its enumerations are strings, and `==`
-- on them compares the values.
use yt_scheduler.Base.{Bool, true, false, List, [], ◌∷◌, any, ◌≡◌, ◌↔◌, arith}

pub data JobState : Type 0 where
  running success failed : JobState

pub data DagRunState : Type 0 where
  scheduled queued running success failed : DagRunState

pub data TaskRunState : Type 0 where
  scheduled queued running success failed skipped : TaskRunState

abbrev pub same_dag_run : DagRunState → DagRunState → Bool
same_dag_run DagRunState.scheduled DagRunState.scheduled = true
same_dag_run DagRunState.queued DagRunState.queued = true
same_dag_run DagRunState.running DagRunState.running = true
same_dag_run DagRunState.success DagRunState.success = true
same_dag_run DagRunState.failed DagRunState.failed = true
same_dag_run _ _ = false

abbrev pub same_task_run : TaskRunState → TaskRunState → Bool
same_task_run TaskRunState.scheduled TaskRunState.scheduled = true
same_task_run TaskRunState.queued TaskRunState.queued = true
same_task_run TaskRunState.running TaskRunState.running = true
same_task_run TaskRunState.success TaskRunState.success = true
same_task_run TaskRunState.failed TaskRunState.failed = true
same_task_run TaskRunState.skipped TaskRunState.skipped = true
same_task_run _ _ = false

abbrev pub unfinished_states : List TaskRunState
unfinished_states = TaskRunState.scheduled ∷ TaskRunState.queued ∷ TaskRunState.running ∷ []

abbrev pub finished_states : List TaskRunState
finished_states = TaskRunState.failed ∷ TaskRunState.success ∷ TaskRunState.skipped ∷ []

-- state in TaskRunState.unfinished_states
abbrev pub is_unfinished : TaskRunState → Bool
is_unfinished state = any (same_task_run state) unfinished_states

-- state in TaskRunState.finished_states
abbrev pub is_finished : TaskRunState → Bool
is_finished state = any (same_task_run state) finished_states

pub same_task_run_iff : (a b : TaskRunState) → (same_task_run a b ≡ true) ↔ (a ≡ b)
same_task_run_iff a b = ground arith

pub same_dag_run_iff : (a b : DagRunState) → (same_dag_run a b ≡ true) ↔ (a ≡ b)
same_dag_run_iff a b = ground arith
