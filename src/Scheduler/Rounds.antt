-- ===== src/Scheduler/Rounds.antt =====
-- scheduler.py: the rounds of the scheduler, from `_run_scheduler_loop` to `_do_scheduling`.
use yt_scheduler.Base.{ℕ, zero, suc, Bool, Option}
use yt_scheduler.Base.Action.{Result, Action, pure, ◌>>=◌, ◌>>◌}
use yt_scheduler.Jobs.Loop.{run_loop}

-- What a round calls. The first four hand a query to the pool, with its callback; `take_created`
-- reads the counter of created runs and resets it; `wait` is `_stop_event.wait`.
pub record Steps (W : Type 0) : Type 0 where
  pub heartbeat_tick : Action W (Unit {0})
  pub create_dagruns_for_dags : Action W (Unit {0})
  pub queue_scheduled_dagruns : Action W (Unit {0})
  pub start_queued_dagruns : Action W (Unit {0})
  pub schedule_running_dagruns : Action W (Unit {0})
  pub drain_callbacks : Action W (Unit {0})
  pub take_created : Action W ℕ
  pub is_set : W → Bool
  pub wait : Action W (Unit {0})

module _ {W : Type 0} (steps : Steps W) where
  -- `_do_scheduling`
  abbrev pub do_scheduling : Action W (Unit {0})
  do_scheduling = do
    steps.create_dagruns_for_dags
    steps.queue_scheduled_dagruns
    steps.start_queued_dagruns
    steps.schedule_running_dagruns

  -- `_loop_iter`
  abbrev pub loop_iter : Action W ℕ
  loop_iter = do do_scheduling; steps.drain_callbacks; steps.take_created

  abbrev pub idle : ℕ → Action W (Unit {0})
  idle zero = steps.wait
  idle (suc n) = pure tt

  abbrev pub scheduler_round : Action W (Unit {0})
  scheduler_round = do steps.heartbeat_tick; num_scheduled ← loop_iter; idle num_scheduled

  -- `_run_scheduler_loop`
  unfoldable pub run_scheduler_loop : ℕ → W → Option (Result (Unit {0}) × W)
  unfolding run_loop
  run_scheduler_loop fuel w = run_loop steps.is_set scheduler_round fuel w
