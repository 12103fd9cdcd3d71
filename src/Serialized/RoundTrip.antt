-- ===== src/Serialized/RoundTrip.antt =====
-- What `deserialize` makes of what `serialize` gives.
use yt_scheduler.Base.{String, ◌≡◌, refl, sym, ◌∙◌, subst, inl, inr, none, Bool-cases, ◌==◌}
use yt_scheduler.Base.Action.{ok, err, and_then, type_error, type_error}
use yt_scheduler.Serialized.{
  Library, Runtime, Value, Items, nil, cons, Entries, end, entry, null, boolean, int, float, text,
  enum, datetime, timedelta, dict, list, set, tuple, task, dag, find, put_first, encode,
}
use yt_scheduler.Serialized.Encode.{serialize, serialize_items, serialize_entries}
use yt_scheduler.Serialized.Decode.{deserialize, deserialize_items, deserialize_entries, collect}
use yt_scheduler.Serialized.Plain.{IsPlain, ArePlain, ArePlainEntries}

module _ {l : Library} (python : Runtime l) where
  decode_dict :
      (es : Entries l)
      → deserialize python (encode (dict es) "dict")
        ≡ and_then (deserialize_entries python es) (λ es'. ok (dict es'))
  unfolding deserialize
  decode_dict es = refl

  decode_tuple :
      (xs : Items l)
      → deserialize python (encode (list xs) "tuple")
        ≡ and_then (collect python (deserialize_items python xs)) (λ ys. ok (tuple ys))
  unfolding deserialize
  decode_tuple es = refl

  decode_timedelta :
      (x : l.Float)
      → deserialize python (encode (float x) "timedelta")
        ≡ and_then (l.seconds x) (λ d. ok (timedelta d))
  unfolding deserialize
  decode_timedelta es = refl

  -- A key that is written first stays first where no other entry has it.
  pub put_first_new :
      (k : String) (v : Value l) (es : Entries l)
      → find k es ≡ none
      → put_first k v es ≡ entry (text k) v es
  put_first_new k v es h = rw (h, put_first) refl

  find-entry :
      (s k : String) (v w : Value l) (es es' : Entries l)
      → (find s es ≡ none → find s es' ≡ none)
      → find s (entry (text k) v es) ≡ none
      → find s (entry (text k) w es') ≡ none
  find-entry s k v w es es' keeps h = elim (Bool-cases (k == s)) [
    | inl e ↦ absurd (cc (rw e at h))
    | inr e ↦ rw e (keeps (rw e at h))
  ]

  encode-IsPlain : (v : Value l) (kind : String) → IsPlain v → IsPlain (encode v kind)
  unfolding IsPlain
  encode-IsPlain v kind h = (("__var", refl, refl), h, (("__type", refl, refl), tt, tt))

  mutual
    unfolding serialize deserialize IsPlain

    pub encoded :
        (v : Value l)
        → IsPlain v
        → (v' : Value l) × (serialize python v ≡ ok v')
          × (deserialize python v' ≡ ok v)
          × IsPlain v'
    encoded null h = (null, refl, refl, tt)
    encoded (boolean b) h = (boolean b, refl, refl, tt)
    encoded (int n) h = (int n, refl, refl, tt)
    encoded (float x) h = (float x, rw h refl, refl, h)
    encoded (text s) h = (text s, refl, refl, tt)
    encoded (timedelta d) h = (
      encode (float (l.total_seconds d)) "timedelta",
      refl,
      decode_timedelta (l.total_seconds d) ∙ rw h.0 refl,
      encode-IsPlain (float (l.total_seconds d)) "timedelta" h.1,
    )
    encoded (dict es) h =
        let (es', e, d, _, p) = encoded_entries es h in
        (
          encode (dict es') "dict",
          rw e refl,
          decode_dict es' ∙ rw d refl,
          encode-IsPlain (dict es') "dict" p,
        )
    encoded (list xs) h =
        let (xs', e, d, p) = encoded_items xs h in (list xs', rw e refl, rw d refl, p)
    encoded (tuple xs) h =
        let (xs', e, d, p) = encoded_items xs h in
        (
          encode (list xs') "tuple",
          rw e refl,
          decode_tuple xs' ∙ rw d refl,
          encode-IsPlain (list xs') "tuple" p,
        )
    encoded (enum s) h = absurd h
    encoded (datetime d) h = absurd h
    encoded (set xs) h = absurd h
    encoded (task o) h = absurd h
    encoded (dag d) h = absurd h
    encoded (Value.other o) h = absurd h

    encoded_items :
        (xs : Items l)
        → ArePlain xs
        → (xs' : Items l) × (serialize_items python xs ≡ ok xs')
          × (collect python (deserialize_items python xs') ≡ ok xs)
          × ArePlain xs'
    encoded_items nil h = (nil, refl, refl, tt)
    encoded_items (cons v xs) h =
        let (v', e, d, p) = encoded v h.0 in
        let (xs', es, ds, ps) = encoded_items xs h.1 in
        (cons v' xs', rw (e, es) refl, rw (d, ds) refl, (p, ps))

    pub encoded_entries :
        (es : Entries l)
        → ArePlainEntries es
        → (es' : Entries l) × (serialize_entries python es ≡ ok es')
          × (deserialize_entries python es' ≡ ok es)
          × ((s : String) → find s es ≡ none → find s es' ≡ none)
          × ArePlainEntries es'
    encoded_entries end h = (end, refl, refl, (λ s e. refl), tt)
    encoded_entries (entry k v es) h =
        let (v', e, d, p) = encoded v h.1 in
        let (es', e', d', keeps, ps) = encoded_entries es h.2 in
        let (key, q, fresh) = h.0 in
        subst
          (λ (j : Value l).
            (es'' : Entries l) × (serialize_entries python (entry j v es) ≡ ok es'')
            × (deserialize_entries python es'' ≡ ok (entry j v es))
            × ((s : String) → find s (entry j v es) ≡ none → find s es'' ≡ none)
            × ArePlainEntries es'')
          (sym q)
          (
            entry (text key) v' es',
            rw (e, e', put_first_new key v' es' (keeps key fresh)) refl,
            rw (d, d') refl,
            (λ s. find-entry s key v v' es es' (keeps s)),
            ((key, refl, keeps key fresh), p, ps),
          )

  -- What `serialize` makes of a plain value, `deserialize` turns back into that value.
  pub deserialize-serialize :
      (v : Value l) → IsPlain v → and_then (serialize python v) (λ v'. deserialize python v') ≡ ok v
  deserialize-serialize v h = let (v', e, d, _) = encoded v h in rw e d

  -- Unlike the other encodings, that of a datetime cannot be read: it is a number of seconds, and
  -- `fromisoformat` wants a text.
  pub deserialize-serialize_datetime :
      (d : l.Datetime)
      → and_then (serialize python (datetime d)) (λ v'. deserialize python v') ≡ err type_error
  unfolding serialize deserialize
  deserialize-serialize_datetime d = refl
