-- ===== src/Yt/Lookup.antt =====
-- Rows by their key, in a list and in the tables.
use yt_scheduler.Base.{
  String, ◌≡◌, refl, sym, ◌∙◌, subst, inl, inr, true, none, some, List, [], ◌∷◌, ◌++◌, In, contains,
  arith, eq_iff, Option-cases,
}
use yt_scheduler.Base.Action.{ok}
use yt_scheduler.Rows.{TaskRunRow, any_task_run, among, matches_task_run, in_shard}
use yt_scheduler.Yt.{YtClient, YtLaws, find_row, find_task_run, or_stored}

module _ {R : Type 0} (key : R → String) where
  pub find_row-eq-some :
      (k : String) (rows : List R) (r : R) → find_row key k rows ≡ some r → In r rows × (key r ≡ k)
  find_row-eq-some k [] r h = cc
  find_row-eq-some k (x ∷ xs) r h = elim (Option-cases (find_row key k xs)) [
    | inl e ↦ ground (arith, eq_iff (key x) k)
    | inr (y, e) ↦ let (m, at) = find_row-eq-some k xs r (ground arith) in (inr m, at)
  ]

  pub find_row-ne-none :
      (k : String) (rows : List R) (r : R) → In r rows → key r ≡ k → find_row key k rows ≡ none → ⊥
  find_row-ne-none k [] r m at h = elim m [ ]
  find_row-ne-none k (x ∷ xs) r (inl e) at h = ground (arith, eq_iff (key x) k)
  find_row-ne-none k (x ∷ xs) r (inr m) at h = ground (arith, find_row-ne-none k xs r m at)

  -- Rows written later hide those with the same key.
  pub find_row-append :
      (k : String) (xs ys : List R)
      → find_row key k (xs ++ ys) ≡ or_stored (find_row key k ys) (find_row key k xs)
  find_row-append k [] ys = ground arith
  find_row-append k (x ∷ xs) ys = ground (arith, find_row-append k xs ys)

module _ {Db : Type 0} (yt : YtClient Db) where
  matches_by_id :
      (ids : List String) (r : TaskRunRow)
      → contains r.run_id ids ≡ true
      → matches_task_run yt.farm_hash (record any_task_run { run_id = among ids }) r ≡ true
  unfolding matches_task_run in_shard
  matches_by_id ids r h = rw h

  -- Reading by ids gives, for each of the ids, what is stored under it.
  pub find-select :
      YtLaws yt
      → (ids : List String) (db : Db) (rows : List TaskRunRow) (k : String)
      → yt.select_task_runs (record any_task_run { run_id = among ids }) db ≡ ok rows
      → contains k ids ≡ true
      → find_task_run k rows ≡ yt.task_run_at db k
  find-select laws ids db rows k h c = elim (Option-cases (find_task_run k rows)) [
    | inl e ↦ elim (Option-cases (yt.task_run_at db k)) [
      | inl absent ↦ e ∙ sym absent
      | inr (r, stored) ↦
          let key = laws.task_run_key db k r stored in
          absurd (
            find_row-ne-none (λ t. t.run_id) k rows r
              (laws.task_runs_complete _ db rows r h refl
                (subst (λ j. yt.task_run_at db j ≡ some r) (sym key) stored)
                (matches_by_id ids r (subst (λ j. contains j ids ≡ true) (sym key) c)))
              key e)
    ]
    | inr (r, e) ↦
        let (m, key) = find_row-eq-some (λ t. t.run_id) k rows r e in
        e
        ∙ sym
            (subst (λ j. yt.task_run_at db j ≡ some r) key (laws.task_runs_sound _ db rows r h m).0)
  ]
