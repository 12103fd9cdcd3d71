-- ===== src/Queries.antt =====
-- The queries by state of taskrun.py and dagrun.py, each for a shard of the rows.
pub mod Shards
use yt_scheduler.Base.{Option, List}
use yt_scheduler.Base.Action.{Action}
use yt_scheduler.State.{TaskRunState, DagRunState}
use yt_scheduler.Rows.{
  TaskRunRow, DagRunRow, ShardingOptions, TaskRunQuery, DagRunQuery, any_task_run, any_dag_run,
  equals,
}
use yt_scheduler.Yt.{YtClient, Session, select_task_runs, select_dag_runs}

abbrev pub task_runs_in : TaskRunState → Option ShardingOptions → TaskRunQuery
task_runs_in state shard = record any_task_run { state = equals state; shard = shard }

abbrev pub dag_runs_in : DagRunState → Option ShardingOptions → DagRunQuery
dag_runs_in state shard = record any_dag_run { state = equals state; shard = shard }

module _ {Db O : Type 0} (yt : YtClient Db) where
  -- `TaskRun.get_executable_task_runs_to_queue`
  abbrev pub get_executable_task_runs_to_queue :
      Option ShardingOptions → Action (Session Db O) (List TaskRunRow)
  get_executable_task_runs_to_queue shard =
      select_task_runs yt (task_runs_in TaskRunState.queued shard)

  -- `TaskRun.get_running_task_runs_to_poll`
  abbrev pub get_running_task_runs_to_poll :
      Option ShardingOptions → Action (Session Db O) (List TaskRunRow)
  get_running_task_runs_to_poll shard =
      select_task_runs yt (task_runs_in TaskRunState.running shard)

  -- `DagRun.get_scheduled_dag_runs_to_queue`
  abbrev pub get_scheduled_dag_runs_to_queue :
      Option ShardingOptions → Action (Session Db O) (List DagRunRow)
  get_scheduled_dag_runs_to_queue shard =
      select_dag_runs yt (dag_runs_in DagRunState.scheduled shard)

  -- `DagRun.get_queued_dag_runs_to_set_running`
  abbrev pub get_queued_dag_runs_to_set_running :
      Option ShardingOptions → Action (Session Db O) (List DagRunRow)
  get_queued_dag_runs_to_set_running shard =
      select_dag_runs yt (dag_runs_in DagRunState.queued shard)

  -- `DagRun.get_running_dag_runs_to_examine`
  abbrev pub get_running_dag_runs_to_examine :
      Option ShardingOptions → Action (Session Db O) (List DagRunRow)
  get_running_dag_runs_to_examine shard = select_dag_runs yt (dag_runs_in DagRunState.running shard)
