-- ===== src/Config.antt =====
-- config.py: settings that are read and written by a path of keys. The dictionary is that of the YT
-- package, without the checks that it makes of what is assigned.
use yt_scheduler.Base.{
  String, false, ◌≡◌, refl, sym, ap, ◌∙◌, subst, inl, inr, Option, none, some, List, [], ◌∷◌, ◌==◌,
  eq_iff, Bool-cases, Option-cases, if◌then◌else◌, ◌≢◌, differs,
}
use yt_scheduler.Base.Action.{
  Result, ok, err, Result-cases, and_then, key_error, type_error, attribute_error,
}

mutual
  pub data Setting : Type 0 where
    unset : Setting
    value : String → Setting
    table : Table → Setting

  pub data Table : Type 0 where
    end : Table
    item : String → Setting → Table → Table

abbrev pub find : String → Table → Option Setting
find k end = none
find k (item j v t) = if j == k then some v else find k t

-- t[k] = v
abbrev pub put : String → Setting → Table → Table
put k v end = item k v end
put k v (item j w t) = if j == k then item j v t else item j w (put k v t)

-- t.get(k)
abbrev pub get_item : String → Table → Setting
get_item k t = elim (find k t) [ none ↦ unset | some v ↦ v ]

-- `_get`, on the parts of the key
unfoldable pub get : List String → Setting → Result Setting
get [] d = ok d
get (k ∷ ks) (table t) = get ks (get_item k t)
get (k ∷ ks) unset = err attribute_error
get (k ∷ ks) (value s) = err attribute_error

-- `_set`: all parts but the last lead to a table, in which the last is assigned.
unfoldable pub set : List String → Setting → Setting → Result Setting
set [] v d = ok v
set (k ∷ []) v (table t) = ok (table (put k v t))
set (k ∷ j ∷ ks) v (table t) = elim (find k t) [
  | none ↦ err key_error
  | some d ↦ and_then (set (j ∷ ks) v d) (λ d'. ok (table (put k d' t)))
]
set (k ∷ ks) v unset = err type_error
set (k ∷ ks) v (value s) = err type_error

-- `get_proxy`, `set_proxy` and `default_work_dir`, which reads through `__getattr__`
abbrev pub proxy_path : List String
proxy_path = "proxy" ∷ "url" ∷ []

abbrev pub get_proxy : Setting → Result Setting
get_proxy = get proxy_path

abbrev pub set_proxy : Setting → Setting → Result Setting
set_proxy = set proxy_path

find-put : (k : String) (v : Setting) (t : Table) → find k (put k v t) ≡ some v
find-put k v end = rw ((eq_iff k k).1 refl) refl
find-put k v (item j w t) = elim (Bool-cases (j == k)) [
  | inl e ↦ rw (e, e) refl
  | inr e ↦ rw (e, e) (find-put k v t)
]

find-put_ne : (k j : String) (v : Setting) (t : Table) → k ≢ j → find j (put k v t) ≡ find j t
find-put_ne k j v end apart = rw (differs apart) refl
find-put_ne k j v (item i w t) apart = elim (Bool-cases (i == k)) [
  | inl e ↦
      let other : (i == j) ≡ false = differs (λ q. apart (sym ((eq_iff i k).0 e) ∙ q)) in
      rw (e, other) refl
  | inr e ↦ rw (e, find-put_ne k j v t apart) refl
]

get_item-put : (k : String) (v : Setting) (t : Table) → get_item k (put k v t) ≡ v
get_item-put k v t = rw (find-put k v t, get_item) refl

ok_injective : (a b : Setting) → ok a ≡ ok b → a ≡ b
ok_injective a b e = cc

-- A path of two keys or more is set in the table of its first key.
set-cons :
    (k j : String) (ks : List String) (v d' : Setting) (t : Table)
    → set (k ∷ j ∷ ks) v (table t) ≡ ok d'
    → (d e : Setting) × (set (j ∷ ks) v d ≡ ok e) × (d' ≡ table (put k e t))
unfolding set
set-cons k j ks v d' t h = elim (Option-cases (find k t)) [
  | inl missing ↦ cc (rw (missing, set) at h)
  | inr (d, found) ↦ elim (Result-cases (set (j ∷ ks) v d)) [
    | inr (x, wrong) ↦ cc (rw (found, set, wrong) at h)
    | inl (e, done) ↦ (d, e, done, sym (ok_injective _ d' (rw (found, set, done) at h)))
  ]
]

read-set : (ks : List String) (v d d' : Setting) → set ks v d ≡ ok d' → get ks d' ≡ ok v
unfolding get set
read-set [] v d d' h = ap (λ x. ok x) (sym (ok_injective v d' h))
read-set (k ∷ []) v (table t) d' h =
    subst (λ x. get (k ∷ []) x ≡ ok v) (ok_injective _ d' h) (ap (get []) (get_item-put k v t))
read-set (k ∷ j ∷ ks) v (table t) d' h =
    let (d, e, done, q) = set-cons k j ks v d' t h in
    subst (λ x. get (k ∷ j ∷ ks) x ≡ ok v) (sym q)
      (ap (get (j ∷ ks)) (get_item-put k e t) ∙ read-set (j ∷ ks) v d e done)
read-set (k ∷ []) v unset d' h = cc
read-set (k ∷ j ∷ ks) v unset d' h = cc
read-set (k ∷ []) v (value s) d' h = cc
read-set (k ∷ j ∷ ks) v (value s) d' h = cc

put_apart :
    (k i : String) (is : List String) (v : Setting) (t : Table)
    → k ≢ i
    → get (i ∷ is) (table (put k v t)) ≡ get (i ∷ is) (table t)
unfolding get
put_apart k i is v t apart =
    let same : get_item i (put k v t) ≡ get_item i t =
      rw (find-put_ne k i v t apart, get_item) refl in
    ap (get is) same

set_apart :
    (k : String) (ks : List String) (i : String) (is : List String) (v d d' : Setting)
    → k ≢ i
    → set (k ∷ ks) v d ≡ ok d'
    → get (i ∷ is) d' ≡ get (i ∷ is) d
unfolding set
set_apart k [] i is v (table t) d' apart h =
    subst (λ x. get (i ∷ is) x ≡ get (i ∷ is) (table t)) (ok_injective _ d' h)
      (put_apart k i is v t apart)
set_apart k (j ∷ ks) i is v (table t) d' apart h =
    let (_, e, _, q) = set-cons k j ks v d' t h in
    subst (λ x. get (i ∷ is) x ≡ get (i ∷ is) (table t)) (sym q) (put_apart k i is e t apart)
set_apart k [] i is v unset d' apart h = cc
set_apart k (j ∷ ks) i is v unset d' apart h = cc
set_apart k [] i is v (value s) d' apart h = cc
set_apart k (j ∷ ks) i is v (value s) d' apart h = cc

-- What is set at a path is read at it, and a path that begins with another key reads what it did.
pub get-set :
    (k : String) (ks : List String) (i : String) (is : List String) (v d d' : Setting)
    → set (k ∷ ks) v d ≡ ok d'
    → k ≢ i
    → (get (k ∷ ks) d' ≡ ok v) × (get (i ∷ is) d' ≡ get (i ∷ is) d)
get-set k ks i is v d d' h apart = (read-set (k ∷ ks) v d d' h, set_apart k ks i is v d d' apart h)
