-- ===== src/Cache/Shard.antt =====
-- core/cache/cache.go, cacheShard: one partition of the cache. Each function is what its method
-- does under the mutex.
pub mod Valid
pub mod Kept
pub mod Agree
pub mod Clock
pub mod SecondChance
pub mod Writes
pub mod Sweeps
use Prim.Native.String.{String}
use text.Mathlib.Text.{◌==◌ as str_eq}
use go_anansi.Prelude.{
  ℕ, zero, suc, ◌+◌, ◌-◌, Bool, true, false, not, ◌&&◌, ◌||◌, Option, none, some, List, [], ◌∷◌,
  ◌++◌, map, length, ltb, leb, ◌==◌, if◌then◌else◌,
}
use go_anansi.Prelude.Int.{ℤ, pos, negsuc, ◌+ℤ◌}
use go_anansi.Cache.{
  Item, Answer, CacheStatus, cache_miss, cache_hit_positive, cache_hit_negative, expired,
}
use go_anansi.Cache.Items.{found, has, update, without, prev, next, front, back}

-- `max_entries` 0 is unbounded. `global_size` is the counter that the shards share; `evicted` are
-- the calls of `onEvict`, the first first, if there is one.
pub record CacheShard (T : Type 0) : Type 0 where
  pub order : List (Item T)
  pub clock_hand : Option String
  pub max_entries : ℕ
  pub compact_at : ℕ
  pub tombstones : ℕ
  pub global_size : ℤ
  pub on_evict : Bool
  pub evicted : List (String × T)

abbrev pub or_else : Option String → Option String → Option String
or_else none b = b
or_else (some a) b = some a

abbrev pub is_at : Option String → String → Bool
is_at none k = false
is_at (some a) k = str_eq a k

module _ {T : Type 0} where
  unfoldable pub new_cache_shard : ℕ → ℕ → Bool → CacheShard T
  new_cache_shard max_entries compact_at on_evict = record {
    order = [];
    clock_hand = none;
    max_entries = max_entries;
    compact_at = compact_at;
    tombstones = 0;
    global_size = pos 0;
    on_evict = on_evict;
    evicted = [];
  }

  -- the call of `onEvict` for a positive item
  abbrev pub told : Bool → Option (Item T) → List (String × T) → List (String × T)
  told on_evict none log = log
  told on_evict (some it) log =
      if on_evict && not (it.not_available) then log ++ ((it.key, it.artifact) ∷ []) else log

  -- the hand after the element at `k` is gone
  abbrev pub hand_without : String → Option String → List (Item T) → Option String
  hand_without k hand order =
      let moved = or_else (prev k order) (next k order) in
      if is_at hand k then (if is_at moved k then none else moved) else hand

  unfoldable pub remove_element : String → CacheShard T → CacheShard T
  remove_element k s = record s {
    clock_hand = hand_without k s.clock_hand s.order;
    evicted = told s.on_evict (found k s.order) s.evicted;
    order = without k s.order;
    tombstones = s.tombstones + 1;
    global_size = s.global_size +ℤ negsuc 0;
  }

  abbrev pub accessed_at : String → List (Item T) → Bool
  accessed_at k order = elim (found k order) [ none ↦ false | some it ↦ it.accessed ]

  abbrev pub unread : Item T → Item T
  unread it = record it { accessed = false }

  -- where the hand goes on from `k`
  abbrev pub onwards : String → List (Item T) → String
  onwards k order = elim (or_else (prev k order) (back order)) [ none ↦ k | some j ↦ j ]

  -- the scan with the hand at `k`, for at most so many elements; after that the hand's is evicted
  unfoldable pub scan : ℕ → String → CacheShard T → CacheShard T
  scan zero k s = remove_element k (record s { clock_hand = some k })
  scan (suc n) k s =
      let rest = scan n (onwards k s.order) (record s { order = update k unread s.order }) in
      if accessed_at k s.order then rest else remove_element k (record s { clock_hand = some k })

  unfoldable pub evict_one_clock : CacheShard T → CacheShard T × Bool
  evict_one_clock s =
      if length s.order == 0 then (s, false) else (elim (or_else s.clock_hand (back s.order)) [
        | none ↦ (s, false)
        | some k ↦ (scan (length s.order) k s, true)
      ])

  -- `zero` is the zero value of T.
  unfoldable pub get_status : T → String → ℕ → CacheShard T → CacheShard T × Answer T
  get_status zero_value k now s = elim (found k s.order) [
    | none ↦ (s, (zero_value, cache_miss))
    | some it ↦ if expired now it then (s, (zero_value, cache_miss)) else (
      record s { order = update k (λ x. record x { accessed = true }) s.order },
      (if it.not_available
          then (zero_value, cache_hit_negative)
          else (it.artifact, cache_hit_positive)),
    )
  ]

  unfoldable pub upsert : Item T → CacheShard T → CacheShard T × Bool
  upsert item s =
      let pushed = record s { order = item ∷ s.order; global_size = s.global_size +ℤ pos 1 } in
      if has item.key s.order
      then (record s { order = item ∷ without item.key s.order }, false)
      else if ltb 0 s.max_entries && ltb s.max_entries (length pushed.order)
      then ((evict_one_clock pushed).0, true)
      else (pushed, false)

  unfoldable pub set : String → T → Option ℕ → CacheShard T → CacheShard T × Bool
  set key artifact expires_at s =
      upsert
        record {
          key = key;
          artifact = artifact;
          not_available = false;
          expires_at = expires_at;
          accessed = false;
        }
        s

  unfoldable pub nullify : T → String → Option ℕ → CacheShard T → CacheShard T × Bool
  nullify zero_value key expires_at s =
      upsert
        record {
          key = key;
          artifact = zero_value;
          not_available = true;
          expires_at = expires_at;
          accessed = false;
        }
        (record s { evicted = told s.on_evict (found key s.order) s.evicted })

  unfoldable pub evict : String → CacheShard T → CacheShard T
  evict key s = if has key s.order then remove_element key s else s
