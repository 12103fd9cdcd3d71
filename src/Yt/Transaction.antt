-- ===== src/Yt/Transaction.antt =====
-- Transactions under the laws of the client: all or nothing.
use yt_scheduler.Base.{◌≡◌, refl, sym, subst, inl, inr, arith, ◌⊎◌}
use yt_scheduler.Base.Action.{Result, ok, err, Error, Action, Result-cases}
use yt_scheduler.Yt.{YtClient, YtLaws, Session, transaction, finish}

module _ {Db : Type 0} (yt : YtClient Db) (laws : YtLaws yt) {O A : Type 0} where
  -- How a transaction ends: as its body did, with the body's writes, or without any.
  finish_cases :
      (before : Db) (r : Result A) (s : Session Db O)
      → ((a : A) × (r ≡ ok a) × (finish yt before r s ≡ (ok a, s)))
        ⊎ ((e : Error) × (finish yt before r s ≡ (err e, record s { db = before })))
  finish_cases before (err e) s = inr (e, ground (arith, laws.abort_restores before s.db))
  finish_cases before (ok a) s = elim (Result-cases (yt.commit before s.db).0) [
    | inl (t, e) ↦ inl (a, refl, ground (arith, laws.commit_ok before s.db))
    | inr (x, e) ↦ inr (x, ground (arith, laws.commit_err before s.db x))
  ]

  pub transaction_cases :
      (body : Action (Session Db O) A) (s : Session Db O)
      → ((a : A) × ((body s).0 ≡ ok a) × (transaction yt body s ≡ (ok a, (body s).1)))
        ⊎ ((e : Error) × (transaction yt body s
              ≡ (err e, record { db = s.db; self = (body s).1.self })))
  transaction_cases body s = finish_cases s.db (body s).0 (body s).1

  -- A transaction that raises has written nothing.
  pub transaction-err :
      (body : Action (Session Db O) A) (s : Session Db O) (e : Error)
      → (transaction yt body s).0 ≡ err e
      → (transaction yt body s).1.db ≡ s.db
  transaction-err body s e h = elim (transaction_cases body s) [
    | inl (a, _, p) ↦ ground arith
    | inr (x, p) ↦ ground arith
  ]

  pub transaction-inv :
      (Q : Db → Type 0) (body : Action (Session Db O) A) (s : Session Db O)
      → Q s.db
      → Q (body s).1.db
      → Q (transaction yt body s).1.db
  transaction-inv Q body s q q' = elim (transaction_cases body s) [
    | inl (a, _, p) ↦ subst (λ (x : Result A × Session Db O). Q x.1.db) (sym p) q'
    | inr (x, p) ↦ subst (λ (x : Result A × Session Db O). Q x.1.db) (sym p) q
  ]
