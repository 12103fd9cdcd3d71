-- ===== src/Dag/Relations.antt =====
-- dagnode.py and dag.py: the relations between tasks, from the tables that they read and write.
pub mod Links
pub mod Effect
pub mod Producers
pub mod Resolved
use yt_scheduler.Base.{
  String, Bool, true, false, not, List, [], ◌∷◌, ◌++◌, Option, none, some, map, contains, ◌==◌,
  if◌then◌else◌,
}
use yt_scheduler.Dag.{Task}

-- set.add
abbrev pub add_id : String → List String → List String
add_id k ids = if contains k ids then ids else ids ++ k ∷ []

-- The task objects are shared: a change of the one with the id `k`.
abbrev pub change : String → (Task → Task) → List Task → List Task
change k f tasks = map (λ t. if t.task_id == k then f t else t) tasks

abbrev pub add_succeeding : String → Task → Task
add_succeeding k t = record t { succeeding_task_ids = add_id k t.succeeding_task_ids }

abbrev pub add_preceding : String → Task → Task
add_preceding k t = record t { preceding_task_ids = add_id k t.preceding_task_ids }

-- `_set_relatives`, for the list of all task objects. Only ids are read of `self` and `tasks`.
unfoldable pub set_relatives : Task → List Task → Bool → List Task → List Task
set_relatives self [] upstream objects = objects
set_relatives self (task ∷ tasks) upstream objects =
    let related =
      if not (task.dag_id == self.dag_id)
      then objects
      else if upstream
      then change self.task_id (add_preceding task.task_id)
          (change task.task_id (add_succeeding self.task_id) objects)
      else change self.task_id (add_succeeding task.task_id)
          (change task.task_id (add_preceding self.task_id) objects) in
    set_relatives self tasks upstream related

abbrev pub set_upstream : Task → List Task → List Task → List Task
set_upstream self tasks objects = set_relatives self tasks true objects

abbrev pub set_downstream : Task → List Task → List Task → List Task
set_downstream self tasks objects = set_relatives self tasks false objects

-- producers_map.setdefault(dep_key, []).append(task)
abbrev pub append_to : String → Task → List (String × List Task) → List (String × List Task)
append_to key task [] = (key, task ∷ []) ∷ []
append_to key task ((k, tasks) ∷ producers) =
    if k == key
    then (k, tasks ++ task ∷ []) ∷ producers
    else (k, tasks) ∷ append_to key task producers

-- producers_map.get(dep_key); a missing key has no producers.
abbrev pub producers_of : String → List (String × List Task) → List Task
producers_of key [] = []
producers_of key ((k, tasks) ∷ producers) = if k == key then tasks else producers_of key producers

abbrev pub append_keys : List String → Task → List (String × List Task) → List (String × List Task)
append_keys [] task producers = producers
append_keys (key ∷ keys) task producers = append_keys keys task (append_to key task producers)

-- The first loop of `resolve_tasks_dependencies`.
abbrev pub producers_map : List Task → List (String × List Task) → List (String × List Task)
producers_map [] producers = producers
producers_map (task ∷ tasks) producers =
    producers_map tasks (append_keys task.output_table_paths task producers)

-- The second loop: for a task, over the tables that it reads, and for all tasks.
abbrev pub set_producers : List (String × List Task) → Task → List String → List Task → List Task
set_producers producers task [] objects = objects
set_producers producers task (key ∷ keys) objects =
    set_producers producers task keys (set_upstream task (producers_of key producers) objects)

abbrev pub set_all : List (String × List Task) → List Task → List Task → List Task
set_all producers [] objects = objects
set_all producers (task ∷ tasks) objects =
    set_all producers tasks (set_producers producers task task.input_table_paths objects)

-- Each task contributes the one rule of its class, so the loops run once per task. `tasks` are the
-- tasks as they are before, of which the loops read the ids and the tables.
abbrev pub apply_rules : List Task → List Task → List Task → List Task
apply_rules [] tasks objects = objects
apply_rules (task ∷ rest) tasks objects =
    apply_rules rest tasks (set_all (producers_map tasks []) tasks objects)

-- `resolve_tasks_dependencies`
unfoldable pub resolve_tasks_dependencies : List Task → List Task
unfolding set_relatives
resolve_tasks_dependencies tasks = apply_rules tasks tasks tasks
