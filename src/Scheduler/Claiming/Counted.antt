-- ===== src/Scheduler/Claiming/Counted.antt =====
-- The number of runs that the rounds of the scheduler report as made.
use yt_scheduler.Base.{ℕ, ◌+◌, ◌≡◌, List, [], ◌∷◌, arith}
use yt_scheduler.Base.Action.{Result, ok, err}
use yt_scheduler.Scheduler.Claiming.{on_complete_inc, take_created}

-- What happens to the counter: a claim completes, in a callback, or a round ends.
pub data Event : Type 0 where
  complete : Result ℕ → Event
  round : Event

-- What the rounds report, and the counter at the end.
abbrev pub reported : List Event → ℕ → List ℕ × ℕ
reported [] created = ([], created)
reported (complete r ∷ events) created = reported events (on_complete_inc r created)
reported (round ∷ events) created =
    let (n, created') = take_created created in
    let (ns, last) = reported events created' in (n ∷ ns, last)

abbrev pub sum : List ℕ → ℕ
sum [] = 0
sum (n ∷ ns) = n + sum ns

-- The runs that were made, by the claims that did not fail.
abbrev pub made : List Event → ℕ
made [] = 0
made (complete (ok n) ∷ events) = n + made events
made (complete (err e) ∷ events) = made events
made (round ∷ events) = made events

-- Whenever claims complete and rounds end, each run that was made is reported by one round, or is
-- still counted at the end; none is lost or reported twice.
pub reported-made :
    (events : List Event) (created : ℕ)
    → sum (reported events created).0 + (reported events created).1 ≡ created + made events
reported-made [] created = omega arith
reported-made (complete (ok n) ∷ events) created = omega (arith, reported-made events (created + n))
reported-made (complete (err e) ∷ events) created = reported-made events created
reported-made (round ∷ events) created = omega (arith, reported-made events 0)
