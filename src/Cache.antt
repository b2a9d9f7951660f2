-- ===== src/Cache.antt =====
-- core/cache: the bounded cache with a time to live (cache.go) and the simple one
-- (simple_cache.go). Cache/Items holds the items in their traversal order, Cache/Shard the
-- operations of a shard, and Cache/Simple the simple cache.
pub mod Items
pub mod Shard
pub mod Reaping
pub mod Simple
pub mod History
pub mod Config
pub mod Managed
pub mod Tests
use Prim.Native.String.{String}
use go_anansi.Prelude.{ℕ, zero, suc, Bool, true, false, Option, none, some, ltb, if◌then◌else◌}
use go_anansi.Prelude.Int.{ℤ, pos, negsuc}

pub data CacheStatus : Type 0 where
  cache_miss cache_hit_positive cache_hit_negative : CacheStatus

-- a value and how it was found
abbrev pub Answer : Type 0 → Type 0
Answer T = T × CacheStatus

-- A duration in nanoseconds. A result that is not positive means that the entry never expires.
unfoldable pub resolve_ttl : ℤ → ℤ → ℤ
resolve_ttl (negsuc n) configured_default = pos 0
resolve_ttl (pos zero) (negsuc n) = pos 0
resolve_ttl (pos zero) (pos n) = pos n
resolve_ttl (pos (suc n)) configured_default = pos (suc n)

-- A time is a number of nanoseconds; the zero time, which means never, is `none`.
pub record Item (T : Type 0) : Type 0 where
  pub key : String
  pub artifact : T
  pub not_available : Bool
  pub expires_at : Option ℕ
  pub accessed : Bool

abbrev pub after_time : Option ℕ → ℕ → Bool
after_time none now = false
after_time (some t) now = ltb t now

unfoldable pub expired : {T : Type 0} → ℕ → Item T → Bool
expired now it = after_time (it.expires_at) now
