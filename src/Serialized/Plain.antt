-- ===== src/Serialized/Plain.antt =====
-- The values that JSON keeps apart from one another: what the encoding gives back as it was.
use yt_scheduler.Base.{String, true, ◌≡◌, none}
use yt_scheduler.Base.Action.{ok}
use yt_scheduler.Serialized.{
  Library, Value, Items, nil, cons, Entries, end, entry, null, boolean, int, float, text, enum,
  datetime, timedelta, dict, list, set, tuple, task, dag, find,
}

module _ {l : Library} where
  -- No enumerations, floats that are not finite, datetimes, sets, tasks, DAGs or unknown types; the
  -- keys of a dictionary are texts, none of which comes twice; a timedelta is one that its seconds,
  -- a finite number, determine.
  unfoldable mutual
    pub IsPlain : Value l → Type 0
    IsPlain null = Unit
    IsPlain (boolean b) = Unit
    IsPlain (int n) = Unit
    IsPlain (float x) = l.is_finite x ≡ true
    IsPlain (text s) = Unit
    IsPlain (timedelta d) =
        (l.seconds (l.total_seconds d) ≡ ok d) × (l.is_finite (l.total_seconds d) ≡ true)
    IsPlain (dict es) = ArePlainEntries es
    IsPlain (list xs) = ArePlain xs
    IsPlain (tuple xs) = ArePlain xs
    IsPlain (enum s) = ⊥
    IsPlain (datetime d) = ⊥
    IsPlain (set xs) = ⊥
    IsPlain (task o) = ⊥
    IsPlain (dag d) = ⊥
    IsPlain (Value.other o) = ⊥

    pub ArePlain : Items l → Type 0
    ArePlain nil = Unit
    ArePlain (cons v xs) = IsPlain v × ArePlain xs

    pub ArePlainEntries : Entries l → Type 0
    ArePlainEntries end = Unit
    ArePlainEntries (entry k v es) =
        ((s : String) × (k ≡ text s) × (find s es ≡ none)) × IsPlain v × ArePlainEntries es
