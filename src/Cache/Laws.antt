-- ===== src/Cache/Laws.antt =====
-- What a lookup finds after each operation of the cache.
use proyecto_1_back.Prelude.{
  ℕ, ◌+◌, ◌*◌, ◌≡◌, refl, Bool, true, false, Option, none, some, [], ◌∷◌, arith, ltb, if◌then◌else◌,
  Bool-cases, inl, inr,
}
use proyecto_1_back.Text.{Text, text_eq, text_eq_iff, starts_with}
use proyecto_1_back.Models.{Time}
use proyecto_1_back.Cache.{
  Cache, Entry, second, find, cache_get, read_entry, cache_set, cache_invalidate,
  cache_invalidate_prefix,
}

module _ {ℓ} {V : Type ℓ} where
  pub find-invalidate :
      (key k : Text) (cache : Cache V)
      → find k (cache_invalidate key cache) ≡ (if text_eq key k then none else find k cache)
  unfolding find cache_invalidate
  find-invalidate key k [] = ground arith
  find-invalidate key k (e ∷ cache) = ground (
    arith,
    find-invalidate key k cache,
    text_eq_iff key k,
    text_eq_iff key e.key,
    text_eq_iff k e.key,
  )

  -- A lookup after `cache_invalidate_prefix` finds what it found before, and nothing under the prefix.
  pub find-invalidate_prefix :
      (prefix k : Text) (cache : Cache V)
      → find k (cache_invalidate_prefix prefix cache)
        ≡ (if starts_with prefix k then none else find k cache)
  unfolding find cache_invalidate_prefix
  find-invalidate_prefix prefix k [] = ground arith
  find-invalidate_prefix prefix k (e ∷ cache) =
      ground (arith, find-invalidate_prefix prefix k cache, text_eq_iff k e.key)

  pub find-set :
      (now : Time) (key k : Text) (v : V) (ttl : ℕ) (cache : Cache V)
      → find k (cache_set now key v ttl cache) ≡ (
          if text_eq k key
          then some (record { key = key; value = v; expires_at = now + ttl * second })
          else find k cache)
  unfolding find cache_set
  find-set now key k v ttl cache =
      ground (arith, find-invalidate key k cache, text_eq_iff key k, text_eq_iff k key)

  -- what `cache_get` makes of the entry that it finds
  abbrev pub live : Time → Option (Entry V) → Option V
  live now none = none
  live now (some e) = if ltb e.expires_at now then none else some e.value

  pub cache_get-live :
      (now : Time) (key : Text) (cache : Cache V)
      → (cache_get now key cache).0 ≡ live now (find key cache)
  unfolding cache_get
  cache_get-live now key cache = go (find key cache)
    where
      go : (o : Option (Entry V)) → (read_entry now key cache o).0 ≡ live now o
      go none = refl
      go (some e) = elim (Bool-cases (ltb e.expires_at now)) [ inl x ↦ rw x | inr x ↦ rw x ]

  if-none-some :
      (b : Bool) {o : Option (Entry V)} {e : Entry V}
      → (if b then none else o) ≡ some e
      → o ≡ some e
  if-none-some true h = cc
  if-none-some false h = h

  -- The eviction of an expired entry by `cache_get` makes no other entry appear.
  pub find-cache_get :
      (now : Time) (key k : Text) (cache : Cache V) (e : Entry V)
      → find k (cache_get now key cache).1 ≡ some e
      → find k cache ≡ some e
  unfolding cache_get
  find-cache_get now key k cache e h = go (find key cache) h
    where
      go :
          (o : Option (Entry V))
          → find k (read_entry now key cache o).1 ≡ some e
          → find k cache ≡ some e
      go none h = h
      go (some x) h = elim (Bool-cases (ltb x.expires_at now)) [
        | inl y ↦ if-none-some (text_eq key k) (rw find-invalidate at (rw y at h))
        | inr y ↦ rw y at h
      ]

  -- After `cache_set` with a time to live, `cache_get` of the key returns the value exactly while the
  -- clock has not passed the expiry time, and after that returns nothing; another key reads as before.
  pub cache_get-set :
      (now later : Time) (key k : Text) (v : V) (ttl : ℕ) (cache : Cache V)
      → (cache_get later k (cache_set now key v ttl cache)).0 ≡ (
          if text_eq k key
          then (if ltb (now + ttl * second) later then none else some v)
          else (cache_get later k cache).0)
  cache_get-set now later key k v ttl cache =
      simp (cache_get-live, find-set)
        (elim (Bool-cases (text_eq k key)) [ inl e ↦ rw e | inr e ↦ rw e ])

  -- After `cache_invalidate_prefix`, `cache_get` returns nothing for a key under the prefix, and what it
  -- returned before for any other key.
  pub cache_get-invalidate_prefix :
      (now : Time) (prefix k : Text) (cache : Cache V)
      → (cache_get now k (cache_invalidate_prefix prefix cache)).0
        ≡ (if starts_with prefix k then none else (cache_get now k cache).0)
  cache_get-invalidate_prefix now prefix k cache =
      simp (cache_get-live, find-invalidate_prefix)
        (elim (Bool-cases (starts_with prefix k)) [ inl e ↦ rw e | inr e ↦ rw e ])
