-- ===== src/Examples/Operations.antt =====
-- Operations that are polled and started, and rows that are divided among shards.
use yt_scheduler.Base.{
  lookup, pop, if◌then◌else◌, ◌==◌, zero, ℕ, suc, ◌+◌, ◌<◌, ◌≤◌, String, ◌≡◌, ◌⊎◌, refl, false,
  Option, none, some, List, [], ◌∷◌, In, any, arith, eq_iff,
}
use yt_scheduler.Base.Action.{Error, Result, ok, err, other}
use yt_scheduler.State.{TaskRunState, DagRunState}
use yt_scheduler.Rows.{TaskRunRow, DagRunRow, matches_task_run, matches_dag_run, in_shard}
use yt_scheduler.Executor.{
  Pending, Services, Running, OperationState, last_attempt, call_all, poll_pending_operations,
  start_taskrun, start_taskruns, get_task_run_manifest,
}
use yt_scheduler.Executor.Poll.{has_finished, poll_pending_operations-last}
use yt_scheduler.Executor.Start.{IsRegistered, start_taskrun-registers}
use yt_scheduler.Executor.Spacing.{start_taskruns-spaced}
use yt_scheduler.Queries.{get_executable_task_runs_to_queue, get_scheduled_dag_runs_to_queue}
use yt_scheduler.Queries.Shards.{shard, get_executable-one_shard}
use yt_scheduler.Examples.Data.{farm, farm-YtLaws, session, task_run, run, running}

-- Two operations, the first of which has finished.
abbrev pending : Pending
pending = record { task_runs = []; operations = ("a", some "op1") ∷ ("b", some "op2") ∷ [] }

abbrev first_finished : Option String → Result OperationState
first_finished none = err other
first_finished (some op) =
    ok (record { is_finished = op == "op1"; is_unsuccessfully_finished = false })

poll_pending_operations-last_example :
    let (jobs, frame) = poll_pending_operations first_finished pending in
    call_all jobs frame pending ≡ (
      if any (has_finished first_finished) pending.operations
      then record { task_runs = []; operations = pop "b" pending.operations }
      else pending)
poll_pending_operations-last_example =
    poll_pending_operations-last first_finished pending (("a", some "op1") ∷ []) "b" (some "op2")
      refl

-- The one that has finished stays pending, and the other one does not.
finished_stays :
    let (jobs, frame) = poll_pending_operations first_finished pending in
    call_all jobs frame pending ≡ record { task_runs = []; operations = ("a", some "op1") ∷ [] }
unfolding poll_pending_operations call_all
finished_stays = refl

-- Services on a world that nothing changes.
abbrev services : Services ℕ String String
services = record {
  get_dag_run = λ k w. (ok (some running), w);
  get_task_ref = λ d t w. (ok (some t), w);
  from_serialized_repr = λ r. ok r;
  set_dag_run_state = λ s d w. (ok tt, w);
  set_task_run_state = λ u w. (ok tt, w);
  run_operation = λ t k w. (ok "op3", w);
}

abbrev queued_c : TaskRunRow
queued_c = task_run "c" "first" TaskRunState.queued

abbrev here : Running ℕ
here = record { world = 0; pending = pending }

start_taskrun-registers_example :
    let after = start_taskrun services queued_c here in
    ((e : Error) × ((get_task_run_manifest services queued_c here.world).0 ≡ err e)
      × (after.0 ≡ err e)
      × (after.1.pending ≡ here.pending))
    ⊎ ((after.0 ≡ ok tt) × IsRegistered services queued_c here.pending after.1.pending)
start_taskrun-registers_example = start_taskrun-registers services queued_c here

-- Two task runs at 7000: one that was tried at 1000, behind one that was tried at 6000.
abbrev tried_before : List (String × ℕ)
tried_before = ("a", 6000) ∷ ("c", 1000) ∷ []

abbrev queued_a : TaskRunRow
queued_a = task_run "a" "first" TaskRunState.queued

a-ne-c : ◌≡◌ {A = String} "a" "c" → ⊥
a-ne-c e = cc ((eq_iff "a" "c").1 e)

start_taskruns-spaced_example :
    let (started, times) =
      start_taskruns 5000 (λ i. 7000) (λ i. 7001 + i) 0 (queued_a ∷ queued_c ∷ []) tried_before in
    ((last_attempt (lookup "c" tried_before) + 5000 ≤ 7000)
      × In queued_c started
      × (lookup "c" times ≡ some 7002))
    ⊎ ((7000 < last_attempt (lookup "c" tried_before) + 5000)
        × (In queued_c started → ⊥)
        × (lookup "c" times ≡ lookup "c" tried_before))
start_taskruns-spaced_example =
    start_taskruns-spaced 5000 (λ i. 7000) (λ i. 7001 + i) (queued_a ∷ []) [] queued_c tried_before
      (a-ne-c, tt) tt

-- All keys have the hash 0, so the first of two shards has every row.
abbrev queued_rows : ℕ → List TaskRunRow
queued_rows zero = queued_c ∷ []
queued_rows (suc i) = []

executable :
    (i : ℕ)
    → i < 2
    → (get_executable_task_runs_to_queue farm
        (some (shard 2 500 i))
        (session running (queued_c ∷ []))).0
      ≡ ok (queued_rows i)
unfolding matches_task_run in_shard
executable zero lt = refl
executable (suc zero) lt = refl
executable (suc (suc i)) lt = absurd (omega arith)

get_executable-one_shard_example :
    (i : ℕ) × (i < 2)
    × In queued_c (queued_rows i)
    × ((j : ℕ) → j < 2 → In queued_c (queued_rows j) → j ≡ i)
get_executable-one_shard_example =
    get_executable-one_shard farm farm-YtLaws 2 500 (omega arith) (session running (queued_c ∷ []))
      queued_rows executable queued_c refl refl

abbrev scheduled_rows : ℕ → List DagRunRow
scheduled_rows zero = run DagRunState.scheduled ∷ []
scheduled_rows (suc i) = []

to_queue :
    (i : ℕ)
    → i < 2
    → (get_scheduled_dag_runs_to_queue farm
        (some (shard 2 500 i))
        (session (run DagRunState.scheduled) [])).0
      ≡ ok (scheduled_rows i)
unfolding matches_dag_run in_shard
to_queue zero lt = refl
to_queue (suc zero) lt = refl
to_queue (suc (suc i)) lt = absurd (omega arith)
