-- ===== src/Executor/Orphans.antt =====
-- executor.py: `_orphan_cleanup`, on the task runs of failed DAG runs that are still queued or
-- running.
pub mod Treated
use yt_scheduler.Base.{
  ℕ, String, Bool, true, false, ◌≡◌, refl, sym, ap, ◌∙◌, subst, inl, inr, ◌⊎◌, ◌↔◌, Option, none,
  some, List, [], ◌∷◌, In, map, ◌==◌, if◌then◌else◌, arith, Bool-cases,
}
use yt_scheduler.Base.Action.{Result, ok, err, Error, Action}
use yt_scheduler.State.{TaskRunState}
use yt_scheduler.Rows.{TaskRunRow, equals, among}
use yt_scheduler.TaskRun.SetState.{Update, by_row, no_requires}
use yt_scheduler.HandleExceptions.{no_options}
use yt_scheduler.Retrier.{RetryOptions, init, run}

-- if tr.operation_id
abbrev has_operation : Option String → Bool
has_operation none = false
has_operation (some op) = if op == "" then false else true

-- What the loop does with a task run.
pub data Treatment : Type 0 where
  skip abort leave : Treatment

abbrev running_treatment : Bool → Treatment
running_treatment true = abort
running_treatment false = skip

abbrev treatment_in : TaskRunState → Option String → Treatment
treatment_in TaskRunState.queued op = skip
treatment_in TaskRunState.running op = running_treatment (has_operation op)
treatment_in TaskRunState.scheduled op = leave
treatment_in TaskRunState.success op = leave
treatment_in TaskRunState.failed op = leave
treatment_in TaskRunState.skipped op = leave

abbrev pub treatment : TaskRunRow → Treatment
treatment tr = treatment_in tr.state tr.operation_id

-- The variable `tr` of `_orphan_cleanup`: there is one for all rounds of its loop, and the functions
-- that the rounds define read it when they are executed. It is unbound before the first round.
pub record Frame : Type 0 where
  pub tr : Option TaskRunRow

-- The update for each of `skippable_trs`.
abbrev pub skip_update : TaskRunRow → Update
skip_update tr = record {
  row = by_row tr;
  state = some TaskRunState.skipped;
  operation_id = none;
  requires = record no_requires { state = among (TaskRunState.running ∷ TaskRunState.queued ∷ []) };
}

abbrev pub abort_update : TaskRunRow → Update
abort_update tr = record {
  row = by_row tr;
  state = some TaskRunState.failed;
  operation_id = none;
  requires = record no_requires { state = among (TaskRunState.running ∷ []) };
}

module _ {W : Type 0} (now : W → ℕ) (sleep : ℕ → W → W)
    (abort_operation : Option String → Action W (Unit {0}))
    (set_state : List Update → Action W (Unit {0})) where
  -- `_try_abort_run`, with the retrier's fuel: whatever comes of the attempts to abort, short of an
  -- exception that is raised, the task run is to be set to failed.
  unfoldable pub try_abort_run : ℕ → TaskRunRow → W → Option (Result (Unit {0}) × W)
  unfolding run init
  try_abort_run fuel tr w =
      elim (init {A = Unit {0}}
        (record no_options { retries = some 2; raise_on_exhaust = some false })) [
          | err e ↦ some (err e, w)
          | ok r ↦ elim (run now sleep tt r fuel (abort_operation tr.operation_id) w) [
            | none ↦ none
            | some (outcome, w') ↦ elim outcome [
              | err e ↦ some (err e, w')
              | ok _ ↦ some (set_state (abort_update tr ∷ []) w')
            ]
          ]
        ]

  -- A job that is handed to the pool, by the variables that it closes over when it is executed, with
  -- the retrier's fuel.
  abbrev pub Job : Type 0
  Job = Frame → ℕ → W → Option (Result (Unit {0}) × W)

  -- The function that a round of the loop defines and hands to the pool.
  abbrev pub abort_job : Job
  abort_job frame fuel w = elim frame.tr [
    | none ↦ some (err Error.other, w)
    | some tr ↦ try_abort_run fuel tr w
  ]

  -- `skippable_trs`, and the jobs.
  abbrev pub Sorted : Type 0
  Sorted = List TaskRunRow × List Job

  abbrev pub sort_in : Treatment → TaskRunRow → Sorted → Sorted
  sort_in skip tr rest = (tr ∷ rest.0, rest.1)
  sort_in abort tr rest = (rest.0, abort_job ∷ rest.1)
  sort_in leave tr rest = rest

  -- The loop, on the variable: each round assigns it.
  abbrev pub sort_rows : List TaskRunRow → Frame → Sorted × Frame
  sort_rows [] frame = (([], []), frame)
  sort_rows (tr ∷ trs) frame =
      let (rest, frame') = sort_rows trs (record frame { tr = some tr }) in
      (sort_in (treatment tr) tr rest, frame')

  -- An exception is logged.
  abbrev pub skip_rows : List TaskRunRow → W → W
  skip_rows [] w = w
  skip_rows (tr ∷ trs) w = (set_state (map skip_update (tr ∷ trs)) w).1

  -- `_orphan_cleanup`, after its query: the jobs that it hands to the pool, its variable when it
  -- returns, and the world.
  unfoldable pub orphan_cleanup : List TaskRunRow → W → List Job × Frame × W
  orphan_cleanup trs w =
      let (rows, frame) = sort_rows trs (record { tr = none }) in
      (rows.1, frame, skip_rows rows.0 w)
