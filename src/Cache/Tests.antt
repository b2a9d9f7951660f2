-- ===== src/Cache/Tests.antt =====
-- core/cache: concrete runs, with numbers as artifacts.
use Prim.Native.String.{String}
use go_anansi.Prelude.{
  ℕ, Bool, true, false, Option, none, some, List, [], ◌∷◌, ◌≡◌, refl, arith, if◌then◌else◌,
}
use go_anansi.Prelude.Int.{pos}
use go_anansi.Cache.{Item, cache_hit_positive, cache_miss, expired}
use go_anansi.Cache.Config.{double_until, next_power_of_two, CacheConfig, normalize}
use go_anansi.Cache.Shard.{
  CacheShard, new_cache_shard, evict_one_clock, get_status, set, upsert, scan, remove_element,
}
use go_anansi.Cache.Reaping.{sweep_expired_bounded, sweep_from}
use go_anansi.Cache.Simple.{simple_status}
use go_anansi.Cache.Shard.Valid.{IsSound, IsValid}
use go_anansi.Cache.Shard.Clock.{Evicts}
use go_anansi.Cache.Shard.SecondChance.{evict_one_clock-Evicts}
use go_anansi.Cache.Shard.Writes.{set_evicts_itself}
use go_anansi.Cache.History.{Call, call_set, call_get, run, step, simple_run, run-IsValid, run_hits}
use go_anansi.Cache.Managed.{ManagedCache, shard_for, index_for, set_with_ttl, cache_status}
use go_anansi.Cache.Managed.Shards.{lives, set_with_ttl-cache_status}

abbrev calls : List (Call ℕ)
calls = call_set "a" 1 none ∷ call_set "b" 2 (some 10) ∷ call_get "a" 5 ∷ call_set "c" 3 none ∷ []

-- The entry that was read is kept, and the other one of the two makes room for the third.
after_calls :
    (get_status 0 "a" 6 (run 0 calls (new_cache_shard 2 8 true))).1 ≡ (1, cache_hit_positive)
unfolding run step set upsert evict_one_clock scan remove_element get_status new_cache_shard expired
after_calls = refl

run_hits_example : simple_status 0 (simple_run 0 calls (λ j. none)) "a" ≡ (1, cache_hit_positive)
run_hits_example =
    run_hits 0 calls 2 8 true "a" 6 1 cache_hit_positive after_calls (λ e. ground (arith, e))

run-IsValid_example : IsValid (run 0 calls (new_cache_shard 2 8 true))
run-IsValid_example = run-IsValid 0 calls 2 8 true

abbrev item : String → ℕ → Option ℕ → Bool → Item ℕ
item k v t read = record {
  key = k;
  artifact = v;
  not_available = false;
  expires_at = t;
  accessed = read;
}

abbrev shard : Bool → CacheShard ℕ
shard read = record {
  order = item "b" 2 (some 10) read ∷ item "a" 1 none true ∷ [];
  clock_hand = none;
  max_entries = 2;
  compact_at = 8;
  tombstones = 0;
  global_size = pos 2;
  on_evict = true;
  evicted = [];
}

shard-IsSound : (read : Bool) → IsSound (shard read)
shard-IsSound read = record { distinct = refl; hand = refl; counted = refl }

shard-IsValid : (read : Bool) → IsValid (shard read)
shard-IsValid read = record { sound = shard-IsSound read; bounded = refl }

evict_one_clock-Evicts_example :
    Evicts (shard false).order (shard false).order (evict_one_clock (shard false)).0
evict_one_clock-Evicts_example = evict_one_clock-Evicts (shard false) (shard-IsSound false) refl

set_evicts_itself_example : (get_status 0 "c" 5 (set "c" 3 none (shard true)).0).1 ≡ (0, cache_miss)
set_evicts_itself_example =
    set_evicts_itself 0 "c" 3 none 5 (shard true) (shard-IsValid true) refl refl (omega arith) refl

-- The expired entry is behind the one that a sweep of one examines, at every tick.
sweep_stalls : (sweep_expired_bounded 11 (pos 1) (shard true)).0.order ≡ (shard true).order
unfolding sweep_expired_bounded sweep_from expired
sweep_stalls = refl

abbrev settings : CacheConfig
settings = record {
  max_entries = pos 8;
  positive_ttl = pos 100;
  negative_ttl = pos 10;
  janitor_batch_size = pos 0;
  shard_count = pos 2;
  max_key_length = pos 0;
  compaction_threshold = pos 0;
}

abbrev hash : String → ℕ
hash k = 6

abbrev bytes : String → ℕ
bytes k = 1

abbrev small : ManagedCache ℕ
small = record {
  cfg = record settings {
    shard_count = pos 2;
    max_key_length = pos 512;
    compaction_threshold = pos 256;
    janitor_batch_size = pos 1000;
  };
  shards = shard false ∷ shard true ∷ [];
  hits = 0;
  misses = 0;
  neg_hits = 0;
  hard_cap_evictions = 0;
  watermark_evictions = 0;
  expirations = 0;
  compactions = 0;
}

-- one more than 2 ^ 62 shards
hangs : normalize (record settings { shard_count = pos 4611686018427387905 }) ≡ none
unfolding normalize next_power_of_two double_until
hangs = refl

normalized : normalize settings ≡ some (small.cfg)
unfolding normalize next_power_of_two double_until
normalized = refl

set_with_ttl-cache_status_example :
    (after : ManagedCache ℕ) × (end : ManagedCache ℕ) × (set_with_ttl hash bytes 0 "b" 7
        (pos 0)
        50
        small
      ≡ some after)
    × (cache_status hash bytes 0 "b" 151 after
        ≡ some (
          end,
          if lives (pos 0) (pos 100) 50 151 then (7, cache_hit_positive) else (0, cache_miss),
        ))
unfolding shard_for index_for
set_with_ttl-cache_status_example =
    set_with_ttl-cache_status hash bytes 0 "b" 7 (pos 0) 50 151 small (shard false) refl refl refl
