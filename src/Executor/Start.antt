-- ===== src/Executor/Start.antt =====
-- What the start of a task run leaves among the pending operations, and how often it is tried.
use yt_scheduler.Base.{
  String, ◌≡◌, refl, ◌⊎◌, inl, inr, Option, none, some, [], ◌∷◌, arith, Bool-cases,
}
use yt_scheduler.Base.Action.{Error, Result, ok, err, Action, Result-cases, ◌>>=◌}
use yt_scheduler.State.{TaskRunState, DagRunState}
use yt_scheduler.Rows.{TaskRunRow, DagRunRow}
use yt_scheduler.Executor.{
  Pending, Services, Running, add_pending, start_taskrun, start_with, get_task_run_manifest, launch,
  register, ignoring, outside, skip, is_failed, from_queued,
}

module _ {W T R : Type 0} (services : Services W T R) where
  ignoring-ok : (m : Action W (Unit {0})) (w : W) → (ignoring services m w).0 ≡ ok tt
  ignoring-ok m w = elim (Result-cases (m w).0) [
    | inl (t, e) ↦ ground arith
    | inr (x, e) ↦ ground arith
  ]

  -- A launch does not raise, and returns the operation that was started, if any.
  launch-cases :
      (tr : TaskRunRow) (task : T) (dagrun : DagRunRow) (w : W)
      → ((launch services tr task dagrun w).0 ≡ ok none)
        ⊎ ((operation : String) × ((services.run_operation task tr.run_id w).0 ≡ ok operation)
            × ((launch services tr task dagrun w).0 ≡ ok (some operation)))
  launch-cases tr task dagrun w = elim (Result-cases (services.run_operation task tr.run_id w).0) [
    | inr (x, e) ↦ inl (ground arith)
    | inl (operation, e) ↦
        elim (Result-cases
          (services.set_dag_run_state DagRunState.running dagrun
            (services.run_operation task tr.run_id w).1).0) [
              | inl (t, e') ↦ inr (operation, e, ground arith)
              | inr (x, e') ↦ inl (ground arith)
            ]
  ]

  -- What `_start_taskrun` leaves among the pending operations: what was there, or an operation that
  -- was started for the task run, with its row.
  abbrev pub IsRegistered : TaskRunRow → Pending → Pending → Type 0
  IsRegistered tr before after =
      (after ≡ before)
      ⊎ ((operation : String) × (after ≡ add_pending tr (some operation) before)
          × (task : T) × (w : W) × ((services.run_operation task tr.run_id w).0 ≡ ok operation))

  skip-ok : (tr : TaskRunRow) (w : W) → (skip services tr w).0 ≡ ok tt
  skip-ok tr w =
      ignoring-ok (services.set_task_run_state (from_queued TaskRunState.skipped none tr ∷ [])) w

  Started : TaskRunRow → Pending → Result (Unit {0}) × Running W → Type 0
  Started tr before (r, s) = (r ≡ ok tt) × IsRegistered tr before s.pending

  launched :
      (tr : TaskRunRow) (task : T) (dagrun : DagRunRow) (s : Running W)
      → Started tr s.pending ((outside (launch services tr task dagrun) >>= register services tr) s)
  unfolding Started
  launched tr task dagrun s = elim (launch-cases tr task dagrun s.world) [
    | inl e ↦ rw e (refl, inl refl)
    | inr (operation, ran, e) ↦ rw e (
      ignoring-ok
          (services.set_task_run_state (from_queued TaskRunState.running (some operation) tr ∷ []))
          (launch services tr task dagrun s.world).1,
      inr (operation, refl, task, s.world, ran),
    )
  ]

  Started-start_with :
      (tr : TaskRunRow) (m : Option T × Option DagRunRow) (s : Running W)
      → Started tr s.pending (start_with services tr m s)
  unfolding Started
  Started-start_with tr (none, none) s = (refl, inl refl)
  Started-start_with tr (some task, none) s = (refl, inl refl)
  Started-start_with tr (none, some dagrun) s = elim (Bool-cases (is_failed dagrun)) [
    | inl t ↦ rw t (skip-ok tr s.world, inl refl)
    | inr f ↦ rw f (refl, inl refl)
  ]
  Started-start_with tr (some task, some dagrun) s = elim (Bool-cases (is_failed dagrun)) [
    | inl t ↦ rw t (skip-ok tr s.world, inl refl)
    | inr f ↦ rw f (launched tr task dagrun s)
  ]

  -- `_start_taskrun` raises only what reading the run and the task raises; whatever fails after
  -- that is handled. Among the pending operations it leaves what was there, or adds the task
  -- run with an operation that was started for it.
  pub start_taskrun-registers :
      (tr : TaskRunRow) (s : Running W)
      → let after = start_taskrun services tr s in
        ((e : Error) × ((get_task_run_manifest services tr s.world).0 ≡ err e)
          × (after.0 ≡ err e)
          × (after.1.pending ≡ s.pending))
        ⊎ ((after.0 ≡ ok tt) × IsRegistered tr s.pending after.1.pending)
  unfolding start_taskrun Started
  start_taskrun-registers tr s = elim (Result-cases (get_task_run_manifest services tr s.world).0) [
    | inr (e, h) ↦ inl (e, h, rw h refl, rw h refl)
    | inl (m, h) ↦ inr (
        rw h (
          Started-start_with tr m
            (record s { world = (get_task_run_manifest services tr s.world).1 })))
  ]
