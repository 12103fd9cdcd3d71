-- ===== src/Lib.antt =====
-- A scheduler that keeps DAGs of YT operations, their runs and the runs of their tasks in tables.
--
-- The scheduler job turns a new DAG into a DAG run, queues it with a task run for each task, and
-- moves the runs on; the executor job starts the queued task runs as operations and polls them.
-- They work on tables of DAGs, of submissions of DAGs (metas), of their tasks, of DAG runs and of task
-- runs, by reading, deciding and writing in transactions, while other processes do the same.
--
-- The parts and their files:
--   State             src/state.py: the states of jobs, DAG runs and task runs.
--   Rows              src/taskrun.py (`TaskRunRow`), src/dagrun.py (`DagRunRow`), and the where
--                     clauses of src/rows_helpers.py (`make_formatted_select`) as tests on rows.
--   Yt                the YT client, which is not part of the repository: a record of operations
--                     (`YtClient`) and of what the program relies on (`YtLaws`), parameters of all
--                     that uses them; the transactions; `upsert_rows` of src/base_row.py. Yt/Model
--                     is a client that meets the laws.
--   TaskRun           src/taskrun.py: `_build_row` (`build_row`). TaskRun/SetState is
--                     `TaskRun.set_state` with `update_row`: `fetchable_ids` is the set
--                     `fetchable_rids`, `new_row` a round of the loop, `set_state` the whole method.
--   Dag               src/dag.py, src/dagnode.py and src/task.py: tasks, roots, upstream tasks.
--                     Dag/Relations has `_set_relatives` and `resolve_tasks_dependencies`, as
--                     changes of the list of all task objects.
--   DagRun            src/dagrun.py: `_build_row_by_state`, the verdict on a run, the ready task
--                     runs. DagRun/Methods has the methods in their transactions: `set_state`,
--                     `update_state`, `schedule_trs`, `queue_run_atomic`.
--   Retrier           src/retrier.py: `Retrier.__init__` (`init`) and `Retrier.run` (`run`).
--   HandleExceptions  src/handle_exceptions.py: the wrapper (`wrapper`) with its actions (`act`);
--                     src/rows_clients.py: the retry options.
--   Queries           src/taskrun.py and src/dagrun.py: the queries by state, by shard.
--   Jobs              src/job.py: the heartbeats (`touch_job`), the active jobs and the shards
--                     (`compute_shard_index`). Jobs/Runner is `JobRunner` with the wrapper of its
--                     target and the heartbeats, Jobs/Flush the writing of the rows in batches,
--                     with `_chunked` of src/common.py, Jobs/Loop the loop of a job.
--   Callback          src/callback.py: references to owners, the queue of callbacks of a job.
--   Pool              src/pool.py: the queue, `submit`, `submit_or_execute`, a round of a worker,
--                     `shutdown`. Pool/Exchange is `_PoolQueueable.execute` of a worker against
--                     `set_callback` of the caller: statements in any order. Pool/Progress has rounds
--                     of a worker.
--   Executor          src/executor.py: `_start_taskrun`, the callback of `_start_taskruns`,
--                     `_poll_pending_operations` and its callbacks. What it calls of the clients is
--                     a record (`Services`). Executor/Orphans is `_orphan_cleanup` on the task runs
--                     that its query finds.
--   Scheduler         src/scheduler.py: `_get_dag` with its cache, and `_schedule_dag_runs`, with what
--                     they call as a record. Scheduler/Claiming has `_try_claim_dagruns` and its
--                     callbacks, Scheduler/Rounds the loop; the same is Executor/Rounds for
--                     src/executor.py.
--   DagRef            src/dagref.py: the rows, and the two queries for metas without a run. DagRef/Claim
--                     has `_create_dag_runs_atomic` and `_set_invalid_meta` of src/scheduler.py,
--                     DagRef/Add `try_add_dag` of src/commands.py.
--   Serialized        src/serialized.py: the values (`Value`), Serialized/Encode with `serialize` and
--                     Serialized/Decode with `deserialize`, Serialized/Objects for tasks and DAGs, with
--                     `to_serialized_repr` and `from_serialized_repr` of src/dag.py and src/task.py,
--                     Serialized/Spec for their `from_spec_conf`, and for all of
--                     `DAG.from_serialized_repr` but the dependencies.
--   ClientContext     src/yt_wrapper.py: the client of a job, and the decorators that pass it on.
--   Config            src/config.py: `_get` and `_set`, on a tree of tables.
--   Base              shared names, lists, tests, and statements with exceptions (`Action`).
--   Examples          concrete rows and calls.
--
-- A method is a function from a session, the tables and the object whose method runs, to a result
-- or an exception and the session after it. Exceptions are values of one type, in which the five
-- classes of transient lock errors are one constructor. The clock and the generated ids are
-- functions that are passed in: `clock i` is what the clock shows at the `i`-th reading. The functions
-- that the two jobs define in their loops take the variables of the method as they are when they are
-- called, in a record (`Frame`), for Python shares one variable between the rounds. An abort
-- restores the tables and not the object, as in the program.
--
-- The loop of the retrier runs on fuel. It goes on only after an attempt that is not the last one,
-- so as many rounds as there are attempts are enough. With no attempts at all, the number of
-- attempts does not end the loop of the program. Times are milliseconds.
--
-- The JSON text between `json.dumps` and `json.loads` is left out: what is encoded is decoded from the
-- same tree of values. Floats, dates and the order of `sorted` are parameters, with what the program
-- relies on as hypotheses.
--
-- The loop of a job runs on fuel too: it goes on until another thread sets the event to stop, which no
-- number of rounds bounds, and Jobs/Loop relates its outcomes to runs of rounds.
--
-- Not modelled: the threads, the command line, the defaults of the settings and the log. Of the
-- queries, what they select is modelled, and not their text; the query of the orphans is a parameter.
pub mod Base
pub mod State
pub mod Rows
pub mod Yt
pub mod TaskRun
pub mod Dag
pub mod DagRun
pub mod Retrier
pub mod HandleExceptions
pub mod Queries
pub mod Jobs
pub mod Callback
pub mod Pool
pub mod Executor
pub mod DagRef
pub mod Config
pub mod ClientContext
pub mod Scheduler
pub mod Serialized
pub mod Examples
