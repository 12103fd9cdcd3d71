-- ===== src/Base/Lists.antt =====
-- Lists under Python's comprehensions, `any`, `all` and `in`, with membership by recursion.
use Prim.Native.Nat.{ℕ, suc, ◌+◌}
use Prim.Native.String.{String}
use mathlib.Core.Path.{◌≡◌, refl, sym, ap, subst}
use mathlib.Core.Logic.{◌⊎◌, inl, inr, ◌↔◌}
use mathlib.Core.Bool.{Bool, true, false, ◌&&◌, ◌||◌}
use mathlib.Core.List.{List, [], ◌∷◌, ◌++◌, map}
use native.Mathlib.Omega.{arith}
use text.Mathlib.TextEquality.{eq_iff}
use yt_scheduler.Base.Tests.{◌==◌, if◌then◌else◌, Bool-cases}

module _ {ℓ} {A : Type ℓ} where
  abbrev pub length : List A → ℕ
  length [] = 0
  length (x ∷ xs) = suc (length xs)

  -- [x for x in xs if p(x)]
  abbrev pub keep : (A → Bool) → List A → List A
  keep p [] = []
  keep p (x ∷ xs) = let rest = keep p xs in if p x then x ∷ rest else rest

  abbrev pub any : (A → Bool) → List A → Bool
  any p [] = false
  any p (x ∷ xs) = p x || any p xs

  abbrev pub all : (A → Bool) → List A → Bool
  all p [] = true
  all p (x ∷ xs) = p x && all p xs

  abbrev pub is_empty : List A → Bool
  is_empty [] = true
  is_empty (x ∷ xs) = false

  pub length-append : (xs ys : List A) → length (xs ++ ys) ≡ length xs + length ys
  length-append [] ys = omega arith
  length-append (x ∷ xs) ys = omega (arith, length-append xs ys)

-- k in xs, for texts
abbrev pub contains : String → List String → Bool
contains k = any (λ x. x == k)

abbrev pub In : {A : Type 0} → A → List A → Type 0
In a [] = ⊥
In a (x ∷ xs) = (a ≡ x) ⊎ In a xs

abbrev pub All : {A : Type 0} → (A → Type 0) → List A → Type 0
All P [] = Unit
All P (x ∷ xs) = P x × All P xs

module _ {A : Type 0} where
  pub All-of_each : (P : A → Type 0) (xs : List A) → ((a : A) → In a xs → P a) → All P xs
  All-of_each P [] h = tt
  All-of_each P (x ∷ xs) h = (h x (inl refl), All-of_each P xs (λ a m. h a (inr m)))

  pub In-All : (P : A → Type 0) (a : A) (xs : List A) → All P xs → In a xs → P a
  In-All P a [] h m = elim m [ ]
  In-All P a (x ∷ xs) h (inl e) = subst P (sym e) h.0
  In-All P a (x ∷ xs) h (inr m) = In-All P a xs h.1 m

  pub In-append : (a : A) (xs ys : List A) → In a (xs ++ ys) → In a xs ⊎ In a ys
  In-append a [] ys m = inr m
  In-append a (x ∷ xs) ys (inl e) = inl (inl e)
  In-append a (x ∷ xs) ys (inr m) = elim (In-append a xs ys m) [
    | inl l ↦ inl (inr l)
    | inr r ↦ inr r
  ]

  pub In-append_left : (a : A) (xs ys : List A) → In a xs → In a (xs ++ ys)
  In-append_left a [] ys m = elim m [ ]
  In-append_left a (x ∷ xs) ys (inl e) = inl e
  In-append_left a (x ∷ xs) ys (inr m) = inr (In-append_left a xs ys m)

  pub In-append_right : (a : A) (xs ys : List A) → In a ys → In a (xs ++ ys)
  In-append_right a [] ys m = m
  In-append_right a (x ∷ xs) ys m = inr (In-append_right a xs ys m)

  keep_member : (p : A → Bool) (a : A) (xs : List A) → In a (keep p xs) → In a xs × (p a ≡ true)
  keep_member p a [] m = elim m [ ]
  keep_member p a (x ∷ xs) m = elim (Bool-cases (p x)) [
    | inl t ↦ elim (kept t m) [
      | inl e ↦ (inl e, subst (λ y. p y ≡ true) (sym e) t)
      | inr later ↦ let r = keep_member p a xs later in (inr r.0, r.1)
    ]
    | inr f ↦ let r = keep_member p a xs (rw f at m) in (inr r.0, r.1)
  ]
    where
      kept : p x ≡ true → In a (keep p (x ∷ xs)) → (a ≡ x) ⊎ In a (keep p xs)
      kept t m = rw t at m

  pub keep_intro : (p : A → Bool) (a : A) (xs : List A) → In a xs → p a ≡ true → In a (keep p xs)
  keep_intro p a [] m h = elim m [ ]
  keep_intro p a (x ∷ xs) m h = ground (arith, keep_intro p a xs)

  -- A comprehension holds exactly the members that pass its test.
  pub In-keep : (p : A → Bool) (a : A) (xs : List A) → In a (keep p xs) ↔ (In a xs × (p a ≡ true))
  In-keep p a xs = (keep_member p a xs, λ h. keep_intro p a xs h.0 h.1)

  pub any-eq-true :
      (p : A → Bool) (xs : List A) → any p xs ≡ true → (a : A) × In a xs × (p a ≡ true)
  any-eq-true p [] h = cc
  any-eq-true p (x ∷ xs) h = elim (Bool-cases (p x)) [
    | inl t ↦ (x, inl refl, t)
    | inr f ↦ let (a, m, e) = any-eq-true p xs (ground arith) in (a, inr m, e)
  ]

  pub any_of_member : (p : A → Bool) (a : A) (xs : List A) → In a xs → p a ≡ true → any p xs ≡ true
  any_of_member p a [] m h = elim m [ ]
  any_of_member p a (x ∷ xs) (inl e) h = ground arith
  any_of_member p a (x ∷ xs) (inr m) h = ground (arith, any_of_member p a xs m h)

  pub all-eq-true : (p : A → Bool) (a : A) (xs : List A) → all p xs ≡ true → In a xs → p a ≡ true
  all-eq-true p a [] h m = elim m [ ]
  all-eq-true p a (x ∷ xs) h (inl e) = ground arith
  all-eq-true p a (x ∷ xs) h (inr m) = all-eq-true p a xs (ground arith) m

  pub all_of_members :
      (p : A → Bool) (xs : List A) → ((a : A) → In a xs → p a ≡ true) → all p xs ≡ true
  all_of_members p [] h = refl
  all_of_members p (x ∷ xs) h =
      ground (arith, h x (inl refl), all_of_members p xs (λ a m. h a (inr m)))

module _ {A B : Type 0} (f : A → B) where
  pub In-map : (b : B) (xs : List A) → In b (map f xs) → (a : A) × In a xs × (b ≡ f a)
  In-map b [] m = elim m [ ]
  In-map b (x ∷ xs) (inl e) = (x, inl refl, e)
  In-map b (x ∷ xs) (inr m) = let (a, h, e) = In-map b xs m in (a, inr h, e)

  pub map_member : (a : A) (xs : List A) → In a xs → In (f a) (map f xs)
  map_member a [] m = elim m [ ]
  map_member a (x ∷ xs) (inl e) = inl (ap f e)
  map_member a (x ∷ xs) (inr m) = inr (map_member a xs m)

pub contains_iff : (k : String) (xs : List String) → (contains k xs ≡ true) ↔ In k xs
contains_iff k xs = (there, back)
  where
    there : contains k xs ≡ true → In k xs
    there h =
        let (a, m, e) = any-eq-true (λ x. x == k) xs h in subst (λ y. In y xs) ((eq_iff a k).0 e) m

    back : In k xs → contains k xs ≡ true
    back m = any_of_member (λ x. x == k) k xs m ((eq_iff k k).1 refl)
