-- ===== src/Scheduler/Claiming/Marked.antt =====
-- What a claim of runs makes, and what it leaves to be marked.
use yt_scheduler.Base.Action.{Action}
