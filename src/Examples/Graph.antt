-- ===== src/Examples/Graph.antt =====
-- The relations between two tasks that were read from a spec.
use yt_scheduler.Base.{String, ◌≡◌, ◌↔◌, ◌⊎◌, refl, inl, inr, [], ◌∷◌, In, eq_iff}
use yt_scheduler.Dag.{Task, Dag, IsKeyed}
use yt_scheduler.Dag.Relations.{resolve_tasks_dependencies, set_relatives}
use yt_scheduler.Dag.Relations.Resolved.{Feeds, resolve_tasks_dependencies-relations}
use yt_scheduler.Examples.Data.{first, second, pair-IsKeyed}

abbrev new_first : Task
new_first = record first { succeeding_task_ids = [] }

abbrev new_second : Task
new_second = record second { preceding_task_ids = [] }

abbrev new_dag : Dag
new_dag = record { dag_id = "d"; tasks = new_first ∷ new_second ∷ [] }

resolved : resolve_tasks_dependencies (new_first ∷ new_second ∷ []) ≡ first ∷ second ∷ []
unfolding resolve_tasks_dependencies set_relatives
resolved = refl

new_dag-IsKeyed : IsKeyed new_dag
new_dag-IsKeyed = pair-IsKeyed "d" new_first new_second (λ e. cc ((eq_iff "first" "second").1 e))

resolve_tasks_dependencies-relations_example :
    (t' : Task) × In t' (resolve_tasks_dependencies new_dag.tasks)
    × (t'.task_id ≡ "second")
    × ((k : String)
        → In k t'.preceding_task_ids ↔ (
            In k new_second.preceding_task_ids
            ⊎ ((p : Task) × In p new_dag.tasks × Feeds p new_second × (p.task_id ≡ k))))
    × ((k : String)
        → In k t'.succeeding_task_ids ↔ (
            In k new_second.succeeding_task_ids
            ⊎ ((c : Task) × In c new_dag.tasks × Feeds new_second c × (c.task_id ≡ k))))
resolve_tasks_dependencies-relations_example =
    resolve_tasks_dependencies-relations new_dag new_dag-IsKeyed new_second (inr (inl refl))
