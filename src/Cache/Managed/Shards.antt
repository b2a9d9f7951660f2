-- ===== src/Cache/Managed/Shards.antt =====
-- core/cache/cache.go, managedCache: what a key's shard does is seen through the cache.
use Prim.Native.Nat.{bit_and}
use Prim.Native.String.{String}
use go_anansi.Prelude.{
  ℕ, zero, suc, ◌-◌, true, ◌||◌, some, List, [], ◌∷◌, length, get_elem?, ltb, leb, ◌==◌, ◌≡◌, ◌∙◌,
  ◌+◌, Bool, if◌then◌else◌, refl, ap, arith,
}
use go_anansi.Prelude.Int.{ℤ, pos, negsuc}
use go_anansi.Registry.Pages.{set_elem?}
use go_anansi.Cache.{Answer, cache_miss, cache_hit_positive, resolve_ttl, after_time}
use go_anansi.Cache.Items.{has}
use go_anansi.Cache.Shard.{CacheShard, get_status, set}
use go_anansi.Cache.Shard.Writes.{set-get_status}
use go_anansi.Cache.Managed.{
  ManagedCache, index_for, shard_for, on_shard, cache_status, set_with_ttl, key_fits, expiry, tally,
  add_if,
}

module _ {ℓ} {A : Type ℓ} where
  -- an element written, and read back
  record Written (xs : List A) (i : ℕ) (x : A) : Type ℓ where
    list : List A
    wrote : set_elem? xs i x ≡ some list
    there : get_elem? list i ≡ some x
    size : length list ≡ length xs

  written : (xs : List A) (i : ℕ) (old x : A) → get_elem? xs i ≡ some old → Written xs i x
  written [] i old x h = absurd (ground (arith, h))
  written (y ∷ ys) zero old x h = record { list = x ∷ ys; wrote = refl; there = refl; size = refl }
  written (y ∷ ys) (suc i) old x h =
      let w = written ys i old x h in
      record { list = y ∷ w.list; wrote = rw w.wrote refl; there = w.there; size = ap suc w.size }

-- Whether a value that is set at `now` is there at `later`: for a requested duration, and the default
-- that a request of 0 asks for.
abbrev pub lives : ℤ → ℤ → ℕ → ℕ → Bool
lives (negsuc n) default now later = true
lives (pos zero) (negsuc n) now later = true
lives (pos zero) (pos zero) now later = true
lives (pos zero) (pos (suc n)) now later = leb later (now + suc n)
lives (pos (suc n)) default now later = leb later (now + suc n)

within_lem :
    {A : Type 0} (limit later : ℕ) (gone there : A)
    → (if ltb limit later then gone else there) ≡ (if leb later limit then there else gone)
within_lem limit later gone there = ground arith

expires_lem :
    {A : Type 0} (duration default : ℤ) (now later : ℕ) (gone there : A)
    → (if after_time (expiry now (resolve_ttl duration default)) later then gone else there)
      ≡ (if lives duration default now later then there else gone)
unfolding resolve_ttl
expires_lem (negsuc n) default now later gone there = refl
expires_lem (pos zero) (negsuc n) now later gone there = refl
expires_lem (pos zero) (pos zero) now later gone there = refl
expires_lem (pos zero) (pos (suc n)) now later gone there =
    within_lem (now + suc n) later gone there
expires_lem (pos (suc n)) default now later gone there = within_lem (now + suc n) later gone there

module _ {T : Type 0} (hash bytes : String → ℕ) (zero_value : T) where
  -- The cache after a method of the key's shard, and that shard in it.
  record OnShard {B : Type 0} (key : String) (f : CacheShard T → CacheShard T × B)
      (c : ManagedCache T) (s : CacheShard T) : Type 0 where
    shards : List (CacheShard T)
    done : on_shard hash bytes zero_value key f c ≡ some (record c { shards = shards }, (f s).1)
    there : shard_for hash bytes zero_value key (record c { shards = shards }) ≡ some (f s).0

  on_shard_lem :
      {B : Type 0} (key : String) (f : CacheShard T → CacheShard T × B) (c : ManagedCache T)
      (s : CacheShard T)
      → shard_for hash bytes zero_value key c ≡ some s
      → OnShard key f c s
  unfolding shard_for index_for
  on_shard_lem key f c s at =
      let i = bit_and (hash key) (length c.shards - 1) in
      let w = written c.shards i s (f s).0 at in
      record { shards = w.list; done = rw (at, w.wrote) refl; there = rw w.size w.there }

  -- After SetWithTTL of a key of allowed length, whose shard holds the key or has room, GetStatus
  -- of the key hits with the value exactly as long as it lives, and misses later: up to the
  -- requested duration, for a request of 0 up to the default, and for ever where that is not
  -- positive or the request is negative.
  pub set_with_ttl-cache_status :
      (key : String) (v : T) (duration : ℤ) (now later : ℕ) (c : ManagedCache T) (s : CacheShard T)
      → shard_for hash bytes zero_value key c ≡ some s
      → key_fits hash bytes zero_value key c ≡ true
      → (has key s.order || (s.max_entries == 0 || ltb (length s.order) s.max_entries)) ≡ true
      → (after : ManagedCache T) × (end : ManagedCache T) × (set_with_ttl hash bytes zero_value key
            v duration now c
          ≡ some after)
        × (cache_status hash bytes zero_value key later after
            ≡ some (
              end,
              if lives duration (c.cfg).positive_ttl now later
                  then (v, cache_hit_positive)
                  else (zero_value, cache_miss),
            ))
  unfolding set_with_ttl cache_status shard_for index_for
  set_with_ttl-cache_status key v duration now later c s at fits room =
      let expires_at = expiry now (resolve_ttl duration (c.cfg).positive_ttl) in
      let wrote = on_shard_lem key (set key v expires_at) c s at in
      let after : ManagedCache T = record c {
        shards = wrote.shards;
        hard_cap_evictions = add_if (set key v expires_at s).1 c.hard_cap_evictions;
      } in
      let found =
        on_shard_lem key (get_status zero_value key later) after (set key v expires_at s).0
          wrote.there in
      let result : Answer T =
        if lives duration (c.cfg).positive_ttl now later
        then (v, cache_hit_positive)
        else (zero_value, cache_miss) in
      let answer : (get_status zero_value key later (set key v expires_at s).0).1 ≡ result =
        set-get_status zero_value key v expires_at later s room
        ∙ expires_lem duration (c.cfg).positive_ttl now later (zero_value, cache_miss)
            (v, cache_hit_positive) in
      (
        after,
        tally result.1 (record after { shards = found.shards }),
        rw (fits, wrote.done) refl,
        rw (found.done, answer) refl,
      )
