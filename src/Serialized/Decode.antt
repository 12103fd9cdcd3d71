-- ===== src/Serialized/Decode.antt =====
-- serialized.py: `deserialize`. It reads a member of a dictionary and goes into it: each of these
-- recursions is a function on the entries that looks for the key on its way.
use yt_scheduler.Base.{
  String, Bool, true, false, ◌&&◌, ◌||◌, none, some, List, [], ◌∷◌, if◌then◌else◌,
}
use yt_scheduler.Base.Action.{Result, ok, err, Error, type_error, key_error, and_then}
use yt_scheduler.Serialized.{
  Library, Runtime, Value, Items, nil, cons, Entries, end, entry, null, boolean, int, pos, float,
  text, enum, datetime, timedelta, dict, list, set, tuple, task, dag, find, is_text,
}

module _ {l : Library} where
  -- hash(v) raises no TypeError
  unfoldable mutual
    pub is_hashable : Value l → Bool
    is_hashable (dict es) = false
    is_hashable (list xs) = false
    is_hashable (set xs) = false
    is_hashable (tuple xs) = are_hashable xs
    is_hashable null = true
    is_hashable (boolean b) = true
    is_hashable (int n) = true
    is_hashable (float x) = true
    is_hashable (text s) = true
    is_hashable (enum s) = true
    is_hashable (datetime d) = true
    is_hashable (timedelta d) = true
    is_hashable (task o) = true
    is_hashable (dag d) = true
    is_hashable (Value.other o) = true

    pub are_hashable : Items l → Bool
    are_hashable nil = true
    are_hashable (cons v xs) = is_hashable v && are_hashable xs

  -- datetime.datetime.fromisoformat(var)
  abbrev pub read_datetime : Value l → Result (Value l)
  read_datetime (text s) = and_then (l.fromisoformat s) (λ d. ok (datetime d))
  read_datetime (enum s) = and_then (l.fromisoformat s) (λ d. ok (datetime d))
  read_datetime null = err type_error
  read_datetime (boolean b) = err type_error
  read_datetime (int n) = err type_error
  read_datetime (float x) = err type_error
  read_datetime (datetime d) = err type_error
  read_datetime (timedelta d) = err type_error
  read_datetime (dict es) = err type_error
  read_datetime (list xs) = err type_error
  read_datetime (set xs) = err type_error
  read_datetime (tuple xs) = err type_error
  read_datetime (task o) = err type_error
  read_datetime (dag d) = err type_error
  read_datetime (Value.other o) = err type_error

  -- datetime.timedelta(seconds=var)
  abbrev pub read_timedelta : Value l → Result (Value l)
  read_timedelta (float x) = and_then (l.seconds x) (λ d. ok (timedelta d))
  read_timedelta (int n) = and_then (l.int_seconds n) (λ d. ok (timedelta d))
  read_timedelta (boolean b) =
      and_then (l.int_seconds (if b then pos 1 else pos 0)) (λ d. ok (timedelta d))
  read_timedelta null = err type_error
  read_timedelta (text s) = err type_error
  read_timedelta (enum s) = err type_error
  read_timedelta (datetime d) = err type_error
  read_timedelta (timedelta d) = err type_error
  read_timedelta (dict es) = err type_error
  read_timedelta (list xs) = err type_error
  read_timedelta (set xs) = err type_error
  read_timedelta (tuple xs) = err type_error
  read_timedelta (task o) = err type_error
  read_timedelta (dag d) = err type_error
  read_timedelta (Value.other o) = err type_error

  -- cls.deserialize(c) for c in s, for a text
  abbrev characters : String → List (Result (Value l))
  characters String.[] = []
  characters (String.◌∷◌ c s) = ok (text (String.◌∷◌ c String.[])) ∷ characters s

module _ {l : Library} (python : Runtime l) where
  -- {v for v in xs}
  abbrev pub contains_same : Value l → Items l → Bool
  contains_same v nil = false
  contains_same v (cons x xs) = python.same x v || contains_same v xs

  abbrev append_item : Items l → Value l → Items l
  append_item nil v = cons v nil
  append_item (cons x xs) v = cons x (append_item xs v)

  abbrev pub add : Value l → Items l → Items l
  add v members = if contains_same v members then members else append_item members v

  abbrev pub add_all : Items l → List (Result (Value l)) → Result (Items l)
  add_all members [] = ok members
  add_all members (r ∷ rs) =
      and_then r (λ v.
        let rest = add_all (add v members) rs in if is_hashable v then rest else err type_error)

  -- [v for v in xs]
  abbrev pub collect : List (Result (Value l)) → Result (Items l)
  collect [] = ok nil
  collect (r ∷ rs) = and_then r (λ v. and_then (collect rs) (λ xs. ok (cons v xs)))

  unfoldable mutual
    -- `deserialize`
    pub deserialize : Value l → Result (Value l)
    deserialize null = ok null
    deserialize (boolean b) = ok (boolean b)
    deserialize (int n) = ok (int n)
    deserialize (float x) = ok (float x)
    deserialize (text s) = ok (text s)
    deserialize (enum s) = ok (enum s)
    deserialize (list xs) = and_then (collect (deserialize_items xs)) (λ ys. ok (list ys))
    deserialize (dict es) = elim (find "__var" es) [
      | none ↦ err key_error
      | some var ↦ elim (find "__type" es) [
        | none ↦ err key_error
        | some kind ↦
            if is_text "dict" kind
            then and_then (deserialize_dict_at "__var" es) (λ es'. ok (dict es'))
            else if is_text "datetime" kind
            then read_datetime var
            else if is_text "timedelta" kind
            then read_timedelta var
            else if is_text "set" kind
            then and_then (deserialize_each_at "__var" es)
                (λ rs. and_then (add_all nil rs) (λ ys. ok (set ys)))
            else if is_text "tuple" kind
            then and_then (deserialize_each_at "__var" es)
                (λ rs. and_then (collect rs) (λ xs. ok (tuple xs)))
            else err type_error
      ]
    ]
    deserialize (datetime d) = err Error.value_error
    deserialize (timedelta d) = err Error.value_error
    deserialize (set xs) = err Error.value_error
    deserialize (tuple xs) = err Error.value_error
    deserialize (task o) = err Error.value_error
    deserialize (dag d) = err Error.value_error
    deserialize (Value.other o) = err Error.value_error

    -- cls.deserialize(v) for v in xs: what each of them comes to, when it is asked for
    pub deserialize_items : Items l → List (Result (Value l))
    deserialize_items nil = []
    deserialize_items (cons v xs) = deserialize v ∷ deserialize_items xs

    -- {k: cls.deserialize(v) for k, v in es.items()}
    pub deserialize_entries : Entries l → Result (Entries l)
    deserialize_entries end = ok end
    deserialize_entries (entry k v es) =
        and_then (deserialize v)
          (λ v'. and_then (deserialize_entries es) (λ es'. ok (entry k v' es')))

    -- The keys of a dictionary, deserialized.
    deserialize_keys : Entries l → List (Result (Value l))
    deserialize_keys end = []
    deserialize_keys (entry k v es) = deserialize k ∷ deserialize_keys es

    -- {k: cls.deserialize(v) for k, v in var.items()}
    pub deserialize_dict : Value l → Result (Entries l)
    deserialize_dict (dict es) = deserialize_entries es
    deserialize_dict null = err Error.attribute_error
    deserialize_dict (boolean b) = err Error.attribute_error
    deserialize_dict (int n) = err Error.attribute_error
    deserialize_dict (float x) = err Error.attribute_error
    deserialize_dict (text s) = err Error.attribute_error
    deserialize_dict (enum s) = err Error.attribute_error
    deserialize_dict (datetime d) = err Error.attribute_error
    deserialize_dict (timedelta d) = err Error.attribute_error
    deserialize_dict (list xs) = err Error.attribute_error
    deserialize_dict (set xs) = err Error.attribute_error
    deserialize_dict (tuple xs) = err Error.attribute_error
    deserialize_dict (task o) = err Error.attribute_error
    deserialize_dict (dag d) = err Error.attribute_error
    deserialize_dict (Value.other o) = err Error.attribute_error

    -- cls.deserialize(v) for v in var
    pub deserialize_each : Value l → Result (List (Result (Value l)))
    deserialize_each (list xs) = ok (deserialize_items xs)
    deserialize_each (set xs) = ok (deserialize_items xs)
    deserialize_each (tuple xs) = ok (deserialize_items xs)
    deserialize_each (dict es) = ok (deserialize_keys es)
    deserialize_each (text s) = ok (characters s)
    deserialize_each (enum s) = ok (characters s)
    deserialize_each null = err type_error
    deserialize_each (boolean b) = err type_error
    deserialize_each (int n) = err type_error
    deserialize_each (float x) = err type_error
    deserialize_each (datetime d) = err type_error
    deserialize_each (timedelta d) = err type_error
    deserialize_each (task o) = err type_error
    deserialize_each (dag d) = err type_error
    deserialize_each (Value.other o) = err type_error

    -- `deserialize_dict` of the value of a key
    deserialize_dict_at : String → Entries l → Result (Entries l)
    deserialize_dict_at k end = err key_error
    deserialize_dict_at k (entry j v es) =
        if is_text k j then deserialize_dict v else deserialize_dict_at k es

    -- `deserialize_each` of the value of a key
    deserialize_each_at : String → Entries l → Result (List (Result (Value l)))
    deserialize_each_at k end = err key_error
    deserialize_each_at k (entry j v es) =
        if is_text k j then deserialize_each v else deserialize_each_at k es
