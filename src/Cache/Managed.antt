-- ===== src/Cache/Managed.antt =====
-- core/cache/cache.go, managedCache: the shards of a cache and its counters. The hash of a key and the number of its bytes are parameters. The counter that the
-- shards share is the sum of what each adds to it.
pub mod Shards
use Prim.Native.Nat.{bit_and}
use Prim.Native.String.{String}
use go_anansi.Prelude.{
  ℕ, zero, suc, ◌+◌, ◌-◌, ◌*◌, ◌/◌, Bool, true, false, Option, none, some, List, [], ◌∷◌, ◌++◌,
  length, get_elem?, ltb, leb, ◌==◌, if◌then◌else◌,
}
use go_anansi.Prelude.Int.{ℤ, pos, negsuc, ◌+ℤ◌}
use go_anansi.Registry.Pages.{◌>>=?◌, set_elem?}
use go_anansi.Cache.{
  CacheStatus, cache_miss, cache_hit_positive, cache_hit_negative, Answer, resolve_ttl,
}
use go_anansi.Cache.Config.{CacheConfig, normalize, to_ℕ, per_shard}
use go_anansi.Cache.Shard.{
  CacheShard, new_cache_shard, get_status, set, nullify, evict, evict_one_clock,
}
use go_anansi.Cache.Reaping.{
  clear, append_positive_keys, sweep_expired_bounded, compact_if_needed, counts, ttl, persist,
}

pub record ManagedCache (T : Type 0) : Type 0 where
  pub cfg : CacheConfig
  pub shards : List (CacheShard T)
  pub hits : ℕ
  pub misses : ℕ
  pub neg_hits : ℕ
  pub hard_cap_evictions : ℕ
  pub watermark_evictions : ℕ
  pub expirations : ℕ
  pub compactions : ℕ

-- `c.clock().Add(resolved)`, or the zero time
abbrev pub expiry : ℕ → ℤ → Option ℕ
expiry now (pos zero) = none
expiry now (negsuc n) = none
expiry now (pos (suc n)) = some (now + suc n)

abbrev pub add_if : Bool → ℕ → ℕ
add_if true n = n + 1
add_if false n = n

module _ {T : Type 0} where
  abbrev pub copies : ℕ → CacheShard T → List (CacheShard T)
  copies zero s = []
  copies (suc n) s = s ∷ copies n s

  -- `none` where `normalize` does not return
  unfoldable pub new_managed_cache : CacheConfig → Bool → Option (ManagedCache T)
  new_managed_cache given on_evict = normalize given >>=? λ cfg.
      let n = to_ℕ cfg.shard_count in
      some record {
        cfg = cfg;
        shards = copies n (
            new_cache_shard (per_shard cfg.max_entries n) (to_ℕ cfg.compaction_threshold) on_evict);
        hits = 0;
        misses = 0;
        neg_hits = 0;
        hard_cap_evictions = 0;
        watermark_evictions = 0;
        expirations = 0;
        compactions = 0;
      }

  abbrev pub tally : CacheStatus → ManagedCache T → ManagedCache T
  tally cache_hit_positive c = record c { hits = c.hits + 1 }
  tally cache_hit_negative c = record c { neg_hits = c.neg_hits + 1 }
  tally cache_miss c = record c { misses = c.misses + 1 }

  module _ (hash : String → ℕ) (bytes : String → ℕ) (zero_value : T) where
    unfoldable pub index_for : String → ManagedCache T → ℕ
    index_for key c = bit_and (hash key) (length c.shards - 1)

    -- An index out of range panics.
    unfoldable pub shard_for : String → ManagedCache T → Option (CacheShard T)
    shard_for key c = get_elem? c.shards (index_for key c)

    -- what a method of the key's shard does to the cache
    abbrev pub on_shard :
        {B : Type 0}
        → String
        → (CacheShard T → CacheShard T × B)
        → ManagedCache T
        → Option (ManagedCache T × B)
    on_shard key f c = shard_for key c >>=? λ s.
        set_elem? c.shards (index_for key c) (f s).0 >>=? λ shards.
        some (record c { shards = shards }, (f s).1)

    unfoldable pub cache_status : String → ℕ → ManagedCache T → Option (ManagedCache T × Answer T)
    cache_status key now c =
        on_shard key (get_status zero_value key now) c >>=? λ r. some (tally r.1.1 r.0, r.1)

    -- Whether a shard evicted is added to the count of evictions; starting the evictor is not here.
    abbrev pub count_eviction : Option (ManagedCache T × Bool) → Option (ManagedCache T)
    count_eviction r =
        r >>=? λ r. some (record r.0 { hard_cap_evictions = add_if r.1 (r.0).hard_cap_evictions })

    abbrev pub key_fits : String → ManagedCache T → Bool
    key_fits key c = leb (bytes key) (to_ℕ (c.cfg).max_key_length)

    unfoldable pub set_with_ttl : String → T → ℤ → ℕ → ManagedCache T → Option (ManagedCache T)
    set_with_ttl key value duration now c =
        let expires_at = expiry now (resolve_ttl duration (c.cfg).positive_ttl) in
        if key_fits key c
        then count_eviction (on_shard key (set key value expires_at) c)
        else some c

    unfoldable pub nullify_with_ttl : String → ℤ → ℕ → ManagedCache T → Option (ManagedCache T)
    nullify_with_ttl key duration now c =
        let expires_at = expiry now (resolve_ttl duration (c.cfg).negative_ttl) in
        if key_fits key c
        then count_eviction (on_shard key (nullify zero_value key expires_at) c)
        else some c

    unfoldable pub cache_ttl : String → ℕ → ManagedCache T → Option (Option ℤ)
    cache_ttl key now c = shard_for key c >>=? λ s. some (ttl key now s)

    unfoldable pub cache_persist : String → ℕ → ManagedCache T → Option (ManagedCache T × Bool)
    cache_persist key now c = on_shard key (persist key now) c

    unfoldable pub cache_evict : String → ManagedCache T → Option (ManagedCache T)
    cache_evict key c = on_shard key (λ s. (evict key s, true)) c >>=? λ r. some r.0

  abbrev pub keys_from : ℕ → List (CacheShard T) → List String → List String
  keys_from now [] out = out
  keys_from now (s ∷ ss) out = keys_from now ss (append_positive_keys out now s)

  unfoldable pub cache_keys : ℕ → ManagedCache T → List String
  cache_keys now c = keys_from now c.shards []

  abbrev pub clear_all : List (CacheShard T) → List (CacheShard T)
  clear_all [] = []
  clear_all (s ∷ ss) = clear s ∷ clear_all ss

  unfoldable pub cache_clear : ManagedCache T → ManagedCache T
  cache_clear c = record c { shards = clear_all c.shards }

  -- the positive and the negative entries
  unfoldable pub stats_counts : ℕ → List (CacheShard T) → ℕ × ℕ
  stats_counts now [] = (0, 0)
  stats_counts now (s ∷ ss) =
      let (p, n) = counts now s in let (ps, ns) = stats_counts now ss in (p + ps, n + ns)

  abbrev pub swept : ℕ → ℤ → CacheShard T → CacheShard T × ℕ × Bool
  swept now limit s =
      let (r, expired) = sweep_expired_bounded now limit s in
      let (t, compacted) = compact_if_needed r in (t, expired, compacted)

  unfoldable pub sweep_shards : ℕ → ℤ → List (CacheShard T) → List (CacheShard T) × ℕ × ℕ
  sweep_shards now limit [] = ([], 0, 0)
  sweep_shards now limit (s ∷ ss) =
      let (t, expired, compacted) = swept now limit s in
      let (ts, total_expired, total_compacted) = sweep_shards now limit ss in
      (t ∷ ts, expired + total_expired, add_if compacted total_compacted)

  unfoldable pub cache_sweep : ℕ → ManagedCache T → ManagedCache T
  cache_sweep now c =
      let (shards, total_expired, total_compacted) =
        sweep_shards now (c.cfg).janitor_batch_size c.shards in
      record c {
        shards = shards;
        expirations = c.expirations + total_expired;
        compactions = c.compactions + total_compacted;
      }
