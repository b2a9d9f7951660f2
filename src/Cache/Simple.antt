-- ===== src/Cache/Simple.antt =====
-- core/cache/simple_cache.go: the unbounded cache without expiration, whose map is a function from
-- keys to entries.
use Prim.Native.String.{String}
use text.Mathlib.Text.{◌==◌ as str_eq}
use go_anansi.Prelude.{Bool, true, false, Option, none, some, if◌then◌else◌}
use go_anansi.Prelude.Int.{ℤ, negsuc}
use go_anansi.Cache.{Answer, cache_miss, cache_hit_positive, cache_hit_negative}

pub record SimpleCacheEntry (T : Type 0) : Type 0 where
  pub artifact : T
  pub not_available : Bool

abbrev pub InMemoryCache : Type 0 → Type 0
InMemoryCache T = String → Option (SimpleCacheEntry T)

module _ {T : Type 0} where
  abbrev pub answer : T → Option (SimpleCacheEntry T) → Answer T
  answer zero_value none = (zero_value, cache_miss)
  answer zero_value (some e) =
      if e.not_available then (zero_value, cache_hit_negative) else (e.artifact, cache_hit_positive)

  unfoldable pub simple_status : T → InMemoryCache T → String → Answer T
  simple_status zero_value c key = answer zero_value (c key)

  abbrev pub put : String → Option (SimpleCacheEntry T) → InMemoryCache T → InMemoryCache T
  put key e c k = if str_eq key k then e else c k

  unfoldable pub simple_set : String → T → InMemoryCache T → InMemoryCache T
  simple_set key value = put key (some record { artifact = value; not_available = false })

  unfoldable pub simple_nullify : T → String → InMemoryCache T → InMemoryCache T
  simple_nullify zero_value key =
      put key (some record { artifact = zero_value; not_available = true })

  unfoldable pub simple_evict : String → InMemoryCache T → InMemoryCache T
  simple_evict key = put key none

  unfoldable pub simple_clear : InMemoryCache T → InMemoryCache T
  simple_clear c k = none

  unfoldable pub simple_persist : InMemoryCache T → String → Bool
  simple_persist c key = elim (c key) [ none ↦ false | some e ↦ true ]

  -- -1 is NoExpiration.
  unfoldable pub simple_ttl : InMemoryCache T → String → Option ℤ
  simple_ttl c key = elim (c key) [ none ↦ none | some e ↦ some (negsuc 0) ]
