-- ===== src/Base/Action.antt =====
-- Statements that read and write a state and may raise. The state outlives an exception.
use mathlib.Core.Path.{◌≡◌, refl}
use mathlib.Core.Logic.{◌⊎◌, inl, inr}
use mathlib.Core.Bool.{Bool, true, false}

-- The exceptions that the program tells apart. `lock_conflict` stands for the five classes of
-- `TRANSIENT_LOCK_ERRORS` (src/errors.py), `other` for whatever else a library raises.
pub data Error : Type 0 where
  lock_conflict dag_initialization attribute_error key_error type_error value_error : Error
  runtime_error assertion_error queue_full other : Error

pub data Result {ℓ} (A : Type ℓ) : Type ℓ where
  ok : A → Result A
  err : Error → Result A

abbrev pub Action {ℓ} : Type ℓ → Type ℓ → Type ℓ
Action S A = S → Result A × S

-- A call whose exception ends the caller.
abbrev pub and_then {ℓ κ} : {A : Type ℓ} {B : Type κ} → Result A → (A → Result B) → Result B
and_then (ok a) f = f a
and_then (err e) f = err e

module _ {ℓ} {S A : Type ℓ} where
  abbrev pub pure : A → Action S A
  pure a s = (ok a, s)

  abbrev pub raise : Error → Action S A
  raise e s = (err e, s)

  abbrev pub lift : Result A → Action S A
  lift r s = (r, s)

  abbrev pub gets : (S → A) → Action S A
  gets f s = (ok (f s), s)

  -- `try: body` / `except Exception as e: handler`
  abbrev pub try_except : Action S A → (Error → Action S A) → Action S A
  try_except body handler s =
      let (r, s') = body s in elim r [ ok a ↦ (ok a, s') | err e ↦ handler e s' ]

module _ {ℓ} {S A B : Type ℓ} where
  abbrev pub continue : Result A → (A → Action S B) → Action S B
  continue (ok a) f s = f a s
  continue (err e) f s = (err e, s)

  infixl 5 ◌>>=◌ ◌>>◌
  abbrev pub ◌>>=◌ : Action S A → (A → Action S B) → Action S B
  ◌>>=◌ m f s = let (r, s') = m s in continue r f s'

  abbrev pub ◌>>◌ : Action S A → Action S B → Action S B
  m >> n = m >>= λ _. n

pub Result-cases {ℓ} :
    {A : Type ℓ} (r : Result A) → ((a : A) × (r ≡ ok a)) ⊎ ((e : Error) × (r ≡ err e))
Result-cases (ok a) = inl (a, refl)
Result-cases (err e) = inr (e, refl)

-- A step that ends well went through its first part.
continue-eq-ok {ℓ} :
    {S A B : Type ℓ} (r : Result A) (f : A → Action S B) (s : S) {b : B}
    → (continue r f s).0 ≡ ok b
    → (a : A) × (r ≡ ok a) × (continue r f s ≡ f a s)
continue-eq-ok (ok a) f s h = (a, refl, refl)
continue-eq-ok (err e) f s h = cc

pub >>=-eq-ok {ℓ} :
    {S A B : Type ℓ} (m : Action S A) (f : A → Action S B) (s : S) {b : B}
    → ((m >>= f) s).0 ≡ ok b
    → (a : A) × ((m s).0 ≡ ok a) × ((m >>= f) s ≡ f a (m s).1)
>>=-eq-ok m f s h = continue-eq-ok (m s).0 f (m s).1 h

abbrev pub same_error : Error → Error → Bool
same_error lock_conflict lock_conflict = true
same_error dag_initialization dag_initialization = true
same_error attribute_error attribute_error = true
same_error key_error key_error = true
same_error type_error type_error = true
same_error value_error value_error = true
same_error runtime_error runtime_error = true
same_error assertion_error assertion_error = true
same_error queue_full queue_full = true
same_error other other = true
same_error _ _ = false
