-- ===== src/Executor/Rounds.antt =====
-- executor.py: the rounds of the executor, `_run_executor_loop` and `_loop_iter`.
use yt_scheduler.Base.{ℕ, Bool, Option}
use yt_scheduler.Base.Action.{Result, Action, ◌>>◌}
use yt_scheduler.Jobs.Loop.{run_loop}

-- What a round calls; `submit_cleanup` hands `_orphan_cleanup` to the pool.
pub record Steps (W : Type 0) : Type 0 where
  pub heartbeat_tick : Action W (Unit {0})
  pub start_taskruns : Action W (Unit {0})
  pub poll_pending_operations : Action W (Unit {0})
  pub submit_cleanup : Action W (Unit {0})
  pub drain_callbacks : Action W (Unit {0})
  pub is_set : W → Bool
  pub sleep : Action W (Unit {0})

module _ {W : Type 0} (steps : Steps W) where
  -- `_loop_iter`
  abbrev pub loop_iter : Action W (Unit {0})
  loop_iter = do
    steps.start_taskruns
    steps.poll_pending_operations
    steps.submit_cleanup
    steps.drain_callbacks

  abbrev pub executor_round : Action W (Unit {0})
  executor_round = do steps.heartbeat_tick; loop_iter; steps.sleep

  -- `_run_executor_loop`
  unfoldable pub run_executor_loop : ℕ → W → Option (Result (Unit {0}) × W)
  unfolding run_loop
  run_executor_loop fuel w = run_loop steps.is_set executor_round fuel w
