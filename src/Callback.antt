-- ===== src/Callback.antt =====
-- callback.py: references to the queue of an owner, and the queue of callbacks that a job drains.
pub mod Drain
use yt_scheduler.Base.{
  ℕ, zero, suc, Bool, true, false, not, Option, none, some, List, [], ◌∷◌, ◌++◌, length, is_empty,
  if◌then◌else◌,
}
use yt_scheduler.Base.Action.{Result, ok, err, Action}

-- `WeakCallbackRef`: no reference, one that keeps its target alive, or a weak one.
pub data WeakCallbackRef (A : Type 0) : Type 0 where
  empty : WeakCallbackRef A
  strong : A → WeakCallbackRef A
  weak : A → WeakCallbackRef A

-- `WeakCallbackRef.__init__`; `weakly` tells whether a weak reference can be made to the callback.
abbrev pub reference : {A : Type 0} → (A → Bool) → Option A → WeakCallbackRef A
reference weakly none = empty
reference weakly (some cb) = if weakly cb then weak cb else strong cb

-- `WeakCallbackRef.get`; `alive` tells which targets are still there.
abbrev pub target : {A : Type 0} → (A → Bool) → WeakCallbackRef A → Option A
target alive empty = none
target alive (strong cb) = some cb
target alive (weak cb) = if alive cb then some cb else none

-- The state of a job with its queue `_cb_q`.
pub record Inbox (C S : Type 0) : Type 0 where
  pub pending : List C
  pub state : S

module _ {C S : Type 0} where
  -- `add_callback`
  abbrev pub add_callback : C → Inbox C S → Inbox C S
  add_callback cb box = record box { pending = box.pending ++ cb ∷ [] }

  abbrev pub qsize : Inbox C S → ℕ
  qsize box = length box.pending

  abbrev pub has_callbacks : Inbox C S → Bool
  has_callbacks box = not (is_empty box.pending)

  -- `_drain_callbacks`: how many were processed, and the state after. A callback works on the whole
  -- state, so it may add callbacks; what it raises is logged.
  unfoldable pub drain_callbacks :
      (C → Action (Inbox C S) (Unit {0})) → ℕ → Inbox C S → ℕ × Inbox C S
  drain_callbacks call zero box = (0, box)
  drain_callbacks call (suc max_count) box = elim box.pending [
    | [] ↦ (0, box)
    | cb ∷ rest ↦
        let (processed, after) =
          drain_callbacks call max_count (call cb (record box { pending = rest })).1 in
        (suc processed, after)
  ]
