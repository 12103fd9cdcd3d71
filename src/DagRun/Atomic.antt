-- ===== src/DagRun/Atomic.antt =====
-- The transactions of `DagRun`: a method that raises has written nothing.
use yt_scheduler.Base.{ℕ, String, ◌≡◌, refl, Option, none, some, List, [], ◌∷◌}
use yt_scheduler.Base.Action.{Result, ok, err, Error}
use yt_scheduler.Rows.{DagRunRow}
use yt_scheduler.Yt.{YtClient, YtLaws, Session}
use yt_scheduler.Yt.Transaction.{transaction-err}
use yt_scheduler.Dag.{Dag}
use yt_scheduler.DagRun.Methods.{
  update_state, update_state_body, schedule_trs, schedule_trs_body, queue_run_atomic,
  queue_run_body,
}

-- A call of one of the methods that work in a transaction.
pub data Call : Type 0 where
  updating : (clock : ℕ → String) (now : String) → Dag → Call
  scheduling : (clock : ℕ → String) (run_id : String) → List String → Call
  queueing : (uuid : ℕ → String) (now : String) → Dag → Call

abbrev raised : {A : Type 0} → Result A → Option Error
raised (ok a) = none
raised (err e) = some e

raised-some : {A : Type 0} (r : Result A) (e : Error) → raised r ≡ some e → r ≡ err e
raised-some (ok a) e h = cc
raised-some (err x) e h = cc

module _ {Db : Type 0} (yt : YtClient Db) where
  -- What a call raised, and the tables after it.
  unfoldable pub call : Call → Session Db DagRunRow → Option Error × Db
  call (updating clock now dag) s =
      let (r, s') = update_state yt clock now dag s in (raised r, s'.db)
  call (scheduling clock run_id tids) s =
      let (r, s') = schedule_trs yt clock run_id tids s in (raised r, s'.db)
  call (queueing uuid now dag) s =
      let (r, s') = queue_run_atomic yt uuid now dag s in (raised r, s'.db)

  -- `update_state`, `schedule_trs` and `queue_run_atomic` leave the tables as they were when they
  -- raise.
  pub call_atomic :
      YtLaws yt
      → (c : Call) (s : Session Db DagRunRow) (e : Error) → (call c s).0 ≡ some e
      → (call c s).1 ≡ s.db
  unfolding call update_state schedule_trs queue_run_atomic
  call_atomic laws (updating clock now dag) s e h =
      transaction-err yt laws (update_state_body yt clock now dag) s e (raised-some _ e h)
  call_atomic laws (scheduling clock run_id []) s e h = refl
  call_atomic laws (scheduling clock run_id (tid ∷ tids)) s e h =
      transaction-err yt laws (schedule_trs_body yt clock run_id (tid ∷ tids)) s e
        (raised-some _ e h)
  call_atomic laws (queueing uuid now dag) s e h =
      transaction-err yt laws (queue_run_body yt uuid now dag) s e (raised-some _ e h)
