-- ===== src/Cache/Config.antt =====
-- core/cache/config.go: the settings of a cache and their defaults, and the bound of a shard.
use go_anansi.Prelude.{
  ℕ, zero, suc, ◌*◌, ◌/◌, ◌^◌, ltb, leb, if◌then◌else◌, Bool, ◌||◌, ◌%◌, Option, none, some,
}
use go_anansi.Registry.Pages.{◌>>=?◌}
use go_anansi.Prelude.Int.{ℤ, pos, negsuc}

-- The fields without the logger, and without the two watermarks, which are floats. An `int` or a
-- duration that is not positive asks for a default.
pub record CacheConfig : Type 0 where
  pub max_entries : ℤ
  pub positive_ttl : ℤ
  pub negative_ttl : ℤ
  pub janitor_batch_size : ℤ
  pub shard_count : ℤ
  pub max_key_length : ℤ
  pub compaction_threshold : ℤ

-- `p < n` for an `int` that is kept as its 64 bits, and `n` from 1 on
abbrev pub int_less : ℕ → ℕ → Bool
int_less p n = leb (2 ^ 63) p || ltb p n

-- the loop that doubles the int `p` while `p < n`; `none` where it is not over after `fuel` tests
unfoldable pub double_until : ℕ → ℕ → ℕ → Option ℕ
double_until zero n p = none
double_until (suc fuel) n p =
    let larger = double_until fuel n (p * 2 % 2 ^ 64) in if int_less p n then larger else some p

-- nextPowerOfTwo of an int that is not negative. After 64 doublings the int is 0, and stays it, so
-- `none` is a loop that does not end.
unfoldable pub next_power_of_two : ℕ → Option ℕ
next_power_of_two n = if leb n 1 then some 1 else double_until 65 n 1

abbrev pub or_default : ℕ → ℤ → ℤ
or_default d (pos zero) = pos d
or_default d (negsuc n) = pos d
or_default d (pos (suc n)) = pos (suc n)

abbrev pub shards_of : ℤ → Option ℤ
shards_of (pos zero) = some (pos 16)
shards_of (negsuc n) = some (pos 16)
shards_of (pos (suc n)) = next_power_of_two (suc n) >>=? λ shards. some (pos shards)

-- `none` where it does not return
unfoldable pub normalize : CacheConfig → Option CacheConfig
normalize cfg = shards_of cfg.shard_count >>=? λ shards. some record cfg {
  shard_count = shards;
  max_key_length = or_default 512 cfg.max_key_length;
  compaction_threshold = or_default 256 cfg.compaction_threshold;
  janitor_batch_size = or_default 1000 cfg.janitor_batch_size;
}

abbrev pub to_ℕ : ℤ → ℕ
to_ℕ (pos n) = n
to_ℕ (negsuc n) = 0

abbrev pub at_least_one : ℕ → ℕ
at_least_one zero = 1
at_least_one (suc n) = suc n

-- the bound of each shard, 0 for none; `shards` is not 0
abbrev pub per_shard : ℤ → ℕ → ℕ
per_shard (pos zero) shards = 0
per_shard (negsuc n) shards = 0
per_shard (pos (suc n)) shards = at_least_one (suc n / shards)
