-- ===== src/Cache/History.antt =====
-- core/cache: a shard of cache.go through any sequence of calls, next to the simple cache of
-- simple_cache.go, which is told what the callers ask for.
use Prim.Native.String.{String}
use go_anansi.Prelude.{
  ℕ, Bool, true, false, Option, none, List, [], ◌∷◌, ◌≡◌, ◌≢◌, ap, ◌∙◌, sym, inl, inr,
}
use go_anansi.Prelude.Int.{ℤ}
use go_anansi.Cache.{CacheStatus, cache_miss}
use go_anansi.Cache.Items.{found}
use go_anansi.Cache.Shard.{
  CacheShard, new_cache_shard, evict_one_clock, get_status, set, nullify, evict, told,
}
use go_anansi.Cache.Reaping.{clear, sweep_expired_bounded, compact_if_needed, persist}
use go_anansi.Cache.Simple.{
  InMemoryCache, simple_status, simple_set, simple_nullify, simple_evict, simple_clear,
}
use go_anansi.Cache.Shard.Valid.{IsValid}
use go_anansi.Cache.Shard.Kept.{
  new-IsValid, set-IsValid, nullify-IsValid, evict-IsValid, evict_one-IsValid, get_status-IsValid,
  persist-IsValid, compact-IsValid, clear-IsValid, sweep-IsValid,
}
use go_anansi.Cache.Shard.Agree.{
  Agrees, upsert-Agrees, evict-Agrees, evict_one-Agrees, get_status-Agrees, persist-Agrees,
  sweep-Agrees, clear-Agrees, compact-Agrees, empty-Agrees, get_status-cases,
}

-- A call of a method of the shard, by the cache or by its janitor and its evictor.
pub data Call (T : Type 0) : Type 0 where
  call_set : String → T → Option ℕ → Call T
  call_nullify : String → Option ℕ → Call T
  call_evict : String → Call T
  call_get call_persist : String → ℕ → Call T
  call_sweep : ℕ → ℤ → Call T
  call_clear call_compact call_evict_one : Call T

module _ {T : Type 0} (zero_value : T) where
  unfoldable pub step : Call T → CacheShard T → CacheShard T
  step (call_set k v t) s = (set k v t s).0
  step (call_nullify k t) s = (nullify zero_value k t s).0
  step (call_evict k) s = evict k s
  step (call_get k now) s = (get_status zero_value k now s).0
  step (call_persist k now) s = (persist k now s).0
  step (call_sweep now limit) s = (sweep_expired_bounded now limit s).0
  step call_clear s = clear s
  step call_compact s = (compact_if_needed s).0
  step call_evict_one s = (evict_one_clock s).0

  unfoldable pub run : List (Call T) → CacheShard T → CacheShard T
  run [] s = s
  run (c ∷ cs) s = run cs (step c s)

  -- What the caller asks for; the rest is up to the cache.
  unfoldable pub simple_step : Call T → InMemoryCache T → InMemoryCache T
  simple_step (call_set k v t) m = simple_set k v m
  simple_step (call_nullify k t) m = simple_nullify zero_value k m
  simple_step (call_evict k) m = simple_evict k m
  simple_step call_clear m = simple_clear m
  simple_step (call_get k now) m = m
  simple_step (call_persist k now) m = m
  simple_step (call_sweep now limit) m = m
  simple_step call_compact m = m
  simple_step call_evict_one m = m

  unfoldable pub simple_run : List (Call T) → InMemoryCache T → InMemoryCache T
  simple_run [] m = m
  simple_run (c ∷ cs) m = simple_run cs (simple_step c m)

  step-IsValid : (c : Call T) (s : CacheShard T) → IsValid s → IsValid (step c s)
  unfolding step
  step-IsValid (call_set k v t) s h = set-IsValid k v t s h
  step-IsValid (call_nullify k t) s h = nullify-IsValid zero_value k t s h
  step-IsValid (call_evict k) s h = evict-IsValid k s h
  step-IsValid (call_get k now) s h = get_status-IsValid zero_value k now s h
  step-IsValid (call_persist k now) s h = persist-IsValid k now s h
  step-IsValid (call_sweep now limit) s h = sweep-IsValid now limit s h
  step-IsValid call_clear s h = clear-IsValid s h
  step-IsValid call_compact s h = compact-IsValid s h
  step-IsValid call_evict_one s h = evict_one-IsValid s h

  run-IsValid_from : (cs : List (Call T)) (s : CacheShard T) → IsValid s → IsValid (run cs s)
  unfolding run
  run-IsValid_from [] s h = h
  run-IsValid_from (c ∷ cs) s h = run-IsValid_from cs (step c s) (step-IsValid c s h)

  -- A new shard, after any calls of its methods, has distinct keys, not more entries than its bound
  -- if it has one, as many entries as it added to the size, and a hand that points to an entry or
  -- nowhere.
  pub run-IsValid :
      (cs : List (Call T)) (max compact : ℕ) (b : Bool)
      → IsValid (run cs (new_cache_shard max compact b))
  run-IsValid cs max compact b =
      run-IsValid_from cs (new_cache_shard max compact b) (new-IsValid max compact b)

  step-Agrees :
      (c : Call T) (m : InMemoryCache T) (s : CacheShard T)
      → IsValid s
      → Agrees m s.order
      → Agrees (simple_step c m) (step c s).order
  unfolding step simple_step set nullify simple_set simple_nullify simple_evict
  step-Agrees (call_set k v t) m s h g = upsert-Agrees m _ s h.sound g
  step-Agrees (call_nullify k t) m s h g =
      let logged : CacheShard T = record s {
        evicted = told s.on_evict (found k s.order) s.evicted;
      } in
      upsert-Agrees m
        record {
          key = k;
          artifact = zero_value;
          not_available = true;
          expires_at = t;
          accessed = false;
        }
        logged
        record { distinct = h.sound.distinct; hand = h.sound.hand; counted = h.sound.counted } g
  step-Agrees (call_evict k) m s h g = evict-Agrees m k s h.sound g
  step-Agrees (call_get k now) m s h g = get_status-Agrees m zero_value k now s g
  step-Agrees (call_persist k now) m s h g = persist-Agrees m k now s h.sound g
  step-Agrees (call_sweep now limit) m s h g = sweep-Agrees m now limit s h.sound g
  step-Agrees call_clear m s h g = clear-Agrees (simple_clear m) s
  step-Agrees call_compact m s h g = compact-Agrees m s g
  step-Agrees call_evict_one m s h g = evict_one-Agrees m s h.sound g

  run-Agrees :
      (cs : List (Call T)) (m : InMemoryCache T) (s : CacheShard T)
      → IsValid s
      → Agrees m s.order
      → Agrees (simple_run cs m) (run cs s).order
  unfolding run simple_run
  run-Agrees [] m s h g = g
  run-Agrees (c ∷ cs) m s h g =
      run-Agrees cs (simple_step c m) (step c s) (step-IsValid c s h) (step-Agrees c m s h g)

  -- what a lookup finds in the shard, the map says too
  hit_lem :
      (m : InMemoryCache T) (s : CacheShard T) (k : String) (now : ℕ) (v : T) (status : CacheStatus)
      → Agrees m s.order
      → (get_status zero_value k now s).1 ≡ (v, status)
      → status ≢ cache_miss
      → simple_status zero_value m k ≡ (v, status)
  unfolding simple_status Agrees
  hit_lem m s k now v status g h hit = elim (get_status-cases zero_value k now s) [
    | inl e ↦ absurd (hit (ap (λ a. a.1) (sym h ∙ e)))
    | inr e ↦ rw (g k e.0 e.1) (sym e.3 ∙ h)
  ]

  -- A hit in a shard, after any calls of its methods from a new one, gives the value and the status
  -- that the simple cache gives after the sets, nullifications, evictions and clears among these
  -- calls.
  pub run_hits :
      (cs : List (Call T)) (max compact : ℕ) (b : Bool) (k : String) (now : ℕ) (v : T)
      (status : CacheStatus)
      → (get_status zero_value k now (run cs (new_cache_shard max compact b))).1 ≡ (v, status)
      → status ≢ cache_miss
      → simple_status zero_value (simple_run cs (λ j. none)) k ≡ (v, status)
  unfolding new_cache_shard
  run_hits cs max compact b k now v status h hit =
      let start : CacheShard T = new_cache_shard max compact b in
      let valid = new-IsValid max compact b in
      hit_lem (simple_run cs (λ j. none)) (run cs start) k now v status
        (run-Agrees cs (λ j. none) start valid (empty-Agrees (λ j. none))) h hit
