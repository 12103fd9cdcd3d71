-- ===== src/Pool/Progress.antt =====
-- Rounds of a worker: every job that waits is executed in the end, in the order of the queue.
use yt_scheduler.Base.{ℕ, zero, suc, ◌≡◌, refl, inl, inr, ◌⊎◌, List, [], ◌∷◌}
use yt_scheduler.Base.Action.{Action}
use yt_scheduler.Pool.{Pool, execute, worker_round}

queue_cases : (queue : List ℕ) → (queue ≡ []) ⊎ ((k : ℕ) × (rest : List ℕ) × (queue ≡ k ∷ rest))
queue_cases [] = inl refl
queue_cases (k ∷ rest) = inr (k, rest, refl)

module _ {S A : Type 0} where
  -- A worker that makes so many rounds while no other thread uses the pool.
  unfoldable pub rounds : ℕ → Pool S A → Pool S A
  unfolding worker_round
  rounds zero p = p
  rounds (suc n) p = rounds n (worker_round p)

  -- The state that the jobs leave when each is called once, one after the other.
  abbrev pub called : (ℕ → Action S A) → List ℕ → S → S
  called job [] s = s
  called job (k ∷ ks) s = called job ks (job k s).1

  abbrev execute_all : List ℕ → Pool S A → Pool S A
  execute_all [] p = p
  execute_all (k ∷ ks) p = execute_all ks (execute k p)

  abbrev emptied : Pool S A → Pool S A
  emptied p = record p { queue = [] }
