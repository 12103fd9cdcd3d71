-- ===== src/Jobs/Flush.antt =====
-- job.py: `flush_to_yt`, which writes the rows of all jobs in batches; and `_chunked` of common.py.
use yt_scheduler.Base.{
  ℕ, zero, suc, ◌-◌, ◌≤◌, ◌<◌, ◌≡◌, refl, ap, ◌∙◌, List, [], ◌∷◌, ◌++◌, All, length, arith,
}
use yt_scheduler.Base.Action.{Action, pure, ◌>>◌}
use yt_scheduler.Jobs.{Jobs, JobRun, values}

module _ {A : Type 0} where
  -- tuple(itertools.islice(it, n)), and what is left of the iterator
  abbrev pub take : ℕ → List A → List A
  take zero xs = []
  take (suc n) [] = []
  take (suc n) (x ∷ xs) = x ∷ take n xs

  abbrev pub drop : ℕ → List A → List A
  drop zero xs = xs
  drop (suc n) [] = []
  drop (suc n) (x ∷ xs) = drop n xs

  -- The loop of `_chunked`: a round for each chunk, and one that finds none.
  abbrev pub chunks : ℕ → ℕ → List A → List (List A)
  chunks zero size xs = []
  chunks (suc fuel) size xs = elim (take size xs) [
    | [] ↦ []
    | y ∷ ys ↦ (y ∷ ys) ∷ chunks fuel size (drop size xs)
  ]

  -- `_chunked`. Every chunk holds an item, so there are at most as many as items.
  unfoldable pub chunked : List A → ℕ → List (List A)
  chunked xs size = chunks (suc (length xs)) size xs

  -- list(chain.from_iterable(xss))
  abbrev pub concat : List (List A) → List A
  concat [] = []
  concat (xs ∷ xss) = xs ++ concat xss

  take-drop : (n : ℕ) (xs : List A) → take n xs ++ drop n xs ≡ xs
  take-drop zero xs = refl
  take-drop (suc n) [] = refl
  take-drop (suc n) (x ∷ xs) = ap (λ l. x ∷ l) (take-drop n xs)

  length-take-le : (n : ℕ) (xs : List A) → length (take n xs) ≤ n
  length-take-le zero xs = omega arith
  length-take-le (suc n) [] = omega arith
  length-take-le (suc n) (x ∷ xs) = omega (arith, length-take-le n xs)

  length-drop : (n : ℕ) (xs : List A) → length (drop n xs) ≡ length xs - n
  length-drop zero xs = omega arith
  length-drop (suc n) [] = omega arith
  length-drop (suc n) (x ∷ xs) = omega (arith, length-drop n xs)

  -- A batch that is not empty and holds no more than the size.
  abbrev pub IsBatch : ℕ → List A → Type 0
  IsBatch size xs = (0 < length xs) × (length xs ≤ size)

  chunks_lem :
      (fuel n : ℕ) (xs : List A)
      → length xs < fuel
      → (concat (chunks fuel (suc n) xs) ≡ xs) × All (IsBatch (suc n)) (chunks fuel (suc n) xs)
  chunks_lem zero n xs h = absurd (omega arith)
  chunks_lem (suc fuel) n [] h = (refl, tt)
  chunks_lem (suc fuel) n (x ∷ xs) h =
      let (e, all) = chunks_lem fuel n (drop n xs) (omega (arith, length-drop n xs)) in
      (
        ap (λ l. x ∷ (take n xs ++ l)) e ∙ ap (λ l. x ∷ l) (take-drop n xs),
        ((omega arith, omega (arith, length-take-le n xs)), all),
      )

  -- With a batch size above 0, the batches joined are the rows in their order, and no batch is empty
  -- or larger than the size.
  pub concat-chunked :
      (xs : List A) (size : ℕ)
      → 0 < size
      → (concat (chunked xs size) ≡ xs) × All (IsBatch size) (chunked xs size)
  unfolding chunked
  concat-chunked xs zero h = absurd (omega arith)
  concat-chunked xs (suc n) h = chunks_lem (suc (length xs)) n xs (omega arith)

-- `get_all_jobs`, of all types
abbrev pub all_jobs : Jobs → List JobRun
all_jobs [] = []
all_jobs ((job_type, runs) ∷ jobs) = values runs ++ all_jobs jobs

module _ {S : Type 0} (upsert_rows : List JobRun → Action S (Unit {0})) where
  abbrev pub write_batches : List (List JobRun) → Action S (Unit {0})
  write_batches [] = pure tt
  write_batches (batch ∷ batches) = upsert_rows batch >> write_batches batches

  abbrev pub write_rows : ℕ → List JobRun → Action S (Unit {0})
  write_rows batch_size [] = pure tt
  write_rows batch_size (r ∷ rs) = write_batches (chunked (r ∷ rs) batch_size)

  -- `flush_to_yt`, without a pool
  unfoldable pub flush_to_yt : Jobs → ℕ → Action S (Unit {0})
  unfolding chunked
  flush_to_yt jobs batch_size = write_rows batch_size (all_jobs jobs)
