-- ===== src/Dag.antt =====
-- dag.py, dagnode.py and task.py: the graph of tasks.
pub mod Relations
use yt_scheduler.Base.{
  ◌≡◌, In, String, Bool, false, keep, any, is_empty, Option, none, some, List, [], ◌∷◌, map, ◌==◌,
  if◌then◌else◌,
}

-- A task: `DagNode` with the tables that its spec reads and writes. The sets of task ids are
-- lists without repetition, in the order of insertion.
pub record Task : Type 0 where
  pub task_id : String
  pub dag_id : String
  pub preceding_task_ids : List String
  pub succeeding_task_ids : List String
  pub input_table_paths : List String
  pub output_table_paths : List String

-- `task_dict`, in its order; the key of an entry is the id of its task.
pub record Dag : Type 0 where
  pub dag_id : String
  pub tasks : List Task

abbrev pub find_task : String → List Task → Option Task
find_task k [] = none
find_task k (t ∷ ts) = if t.task_id == k then some t else find_task k ts

abbrev pub task_ids : Dag → List String
task_ids dag = map (λ t. t.task_id) dag.tasks

abbrev preceding : Option Task → List String
preceding none = []
preceding (some t) = t.preceding_task_ids

-- The ids upstream of a task id; none, where the DAG holds no such task.
unfoldable pub upstream_of : Dag → String → List String
upstream_of dag k = preceding (find_task k dag.tasks)

-- The roots: tasks with no upstream, looked up by their ids.
unfoldable pub roots : Dag → List (Option Task)
roots dag =
    map (λ t. find_task t.task_id dag.tasks) (keep (λ t. is_empty t.preceding_task_ids) dag.tasks)

-- The program compares task objects by identity; within a DAG the id of a task stands for it.
abbrev pub same_task : Task → Option Task → Bool
same_task task none = false
same_task task (some t) = t.task_id == task.task_id

-- task in dag.roots
unfoldable pub in_roots : Dag → Task → Bool
unfolding roots
in_roots dag task = any (same_task task) (roots dag)

-- The keys of `task_dict` are the ids of its tasks, so no two tasks share one.
abbrev pub IsKeyed : Dag → Type 0
IsKeyed dag = (a b : Task) → In a dag.tasks → In b dag.tasks → a.task_id ≡ b.task_id → a ≡ b
