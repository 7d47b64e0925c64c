-- ===== src/Cache.antt =====
-- api/app/core/cache.py: the in-memory cache, a dict from keys to values with an expiry time.
-- Its order is never observed, so a new entry goes to the front. `time.time()` is an argument.
pub mod Laws
use proyecto_1_back.Prelude.{
  ℕ, ◌+◌, ◌*◌, Bool, not, Option, none, some, List, [], ◌∷◌, filter, ltb, if◌then◌else◌,
}
use proyecto_1_back.Text.{Text, text_eq, starts_with}
use proyecto_1_back.Models.{Time}

pub record Entry {ℓ} (V : Type ℓ) : Type ℓ where
  pub key : Text
  pub value : V
  pub expires_at : Time

abbrev pub Cache {ℓ} : Type ℓ → Type ℓ
Cache V = List (Entry V)

-- a second in the unit of `Time`
abbrev pub second : ℕ
second = 1000000

module _ {ℓ} {V : Type ℓ} where
  -- `_cache.get(key)`
  unfoldable pub find : Text → Cache V → Option (Entry V)
  find key [] = none
  find key (e ∷ cache) = if text_eq key e.key then some e else find key cache

  -- `_cache.pop(key, None)`
  unfoldable pub cache_invalidate : Text → Cache V → Cache V
  cache_invalidate key cache = filter (λ e. not (text_eq key e.key)) cache

  -- the part of `cache_get` behind the lookup
  unfoldable pub read_entry : Time → Text → Cache V → Option (Entry V) → Option V × Cache V
  unfolding cache_invalidate
  read_entry now key cache none = (none, cache)
  read_entry now key cache (some e) =
      if ltb e.expires_at now then (none, cache_invalidate key cache) else (some e.value, cache)

  unfoldable pub cache_get : Time → Text → Cache V → Option V × Cache V
  unfolding find read_entry
  cache_get now key cache = read_entry now key cache (find key cache)

  unfoldable pub cache_set : Time → Text → V → ℕ → Cache V → Cache V
  unfolding cache_invalidate
  cache_set now key value ttl cache =
      record { key = key; value = value; expires_at = now + ttl * second }
      ∷ cache_invalidate key cache

  unfoldable pub cache_invalidate_prefix : Text → Cache V → Cache V
  cache_invalidate_prefix prefix cache = filter (λ e. not (starts_with prefix e.key)) cache

  unfoldable pub cache_clear : Cache V → Cache V
  cache_clear cache = []
