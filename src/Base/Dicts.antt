-- ===== src/Base/Dicts.antt =====
-- Dictionaries in the order of insertion, with the operations of Python's.
use Prim.Native.String.{String}
use mathlib.Core.Path.{◌≡◌, refl, sym, ◌∙◌}
use mathlib.Core.Logic.{◌≢◌, inl, inr}
use mathlib.Core.Bool.{false, not}
use mathlib.Core.Option.{Option, none, some}
use mathlib.Core.List.{List, [], ◌∷◌}
use text.Mathlib.TextEquality.{eq_iff}
use yt_scheduler.Base.Tests.{Bool-cases, differs, ◌==◌, if◌then◌else◌}
use yt_scheduler.Base.Lists.{keep}

-- Dictionaries: an assignment replaces the value of a key, or adds the key at the end.
abbrev pub lookup {ℓ} : {A : Type ℓ} → String → List (String × A) → Option A
lookup k [] = none
lookup k ((j, a) ∷ d) = if j == k then some a else lookup k d

abbrev pub assign {ℓ} : {A : Type ℓ} → String → A → List (String × A) → List (String × A)
assign k a [] = (k, a) ∷ []
assign k a ((j, b) ∷ d) = if j == k then (j, a) ∷ d else (j, b) ∷ assign k a d

-- d.pop(k, None)
abbrev pub pop {ℓ} : {A : Type ℓ} → String → List (String × A) → List (String × A)
pop k d = keep (λ (j, a). not (j == k)) d

pub lookup-assign {ℓ} :
    {A : Type ℓ} (k : String) (a : A) (d : List (String × A)) → lookup k (assign k a d) ≡ some a
lookup-assign k a [] = rw ((eq_iff k k).1 refl)
lookup-assign k a ((j, b) ∷ d) = elim (Bool-cases (j == k)) [
  | inl e ↦ rw (e, e)
  | inr e ↦ rw (e, e, lookup-assign k a d)
]

pub lookup-assign_ne {ℓ} :
    {A : Type ℓ} (k j : String) (a : A) (d : List (String × A))
    → k ≢ j
    → lookup j (assign k a d) ≡ lookup j d
lookup-assign_ne k j a [] apart = rw (differs apart)
lookup-assign_ne k j a ((i, b) ∷ d) apart = elim (Bool-cases (i == k)) [
  | inl e ↦
      let other : (i == j) ≡ false = differs (λ q. apart (sym ((eq_iff i k).0 e) ∙ q)) in
      rw (e, other)
  | inr e ↦ rw (e, lookup-assign_ne k j a d apart)
]
