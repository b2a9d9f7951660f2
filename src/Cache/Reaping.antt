-- ===== src/Cache/Reaping.antt =====
-- core/cache/cache.go, cacheShard: what looks at all the items of a shard, and what works by the
-- clock.
use Prim.Native.String.{String}
use go_anansi.Prelude.{
  ℕ, zero, suc, ◌+◌, ◌-◌, Bool, true, false, not, ◌&&◌, Option, none, some, List, [], ◌∷◌, ◌++◌,
  length, ltb, if◌then◌else◌,
}
use go_anansi.Prelude.Int.{ℤ, pos, negsuc, ◌+ℤ◌}
use go_anansi.Cache.{Item, expired}
use go_anansi.Cache.Items.{found, update, prev, back}
use go_anansi.Cache.Shard.{CacheShard, remove_element, told}

-- -1 is NoExpiration.
abbrev pub remaining : Option ℕ → ℕ → ℤ
remaining none now = negsuc 0
remaining (some t) now = pos (t - now)

abbrev pub minus : ℕ → ℤ
minus zero = pos 0
minus (suc n) = negsuc n

module _ {T : Type 0} where
  abbrev pub told_all : Bool → List (Item T) → List (String × T) → List (String × T)
  told_all on_evict [] log = log
  told_all on_evict (it ∷ rest) log = told_all on_evict rest (told on_evict (some it) log)

  -- The calls of `onEvict` are in the order of a map, which is any order.
  unfoldable pub clear : CacheShard T → CacheShard T
  clear s = record s {
    evicted = told_all s.on_evict s.order s.evicted;
    global_size = s.global_size +ℤ minus (length s.order);
    order = [];
    clock_hand = none;
    tombstones = 0;
  }

  abbrev pub is_positive_now : ℕ → Item T → Bool
  is_positive_now now it = not it.not_available && not (expired now it)

  abbrev pub positive_keys : ℕ → List (Item T) → List String
  positive_keys now [] = []
  positive_keys now (it ∷ rest) =
      let keys = positive_keys now rest in if is_positive_now now it then it.key ∷ keys else keys

  unfoldable pub append_positive_keys : List String → ℕ → CacheShard T → List String
  append_positive_keys out now s = out ++ positive_keys now s.order

  abbrev pub is_expired_at : String → ℕ → List (Item T) → Bool
  is_expired_at k now order = elim (found k order) [ none ↦ false | some it ↦ expired now it ]

  -- the loop from the element `e`, with so many elements left to examine
  unfoldable pub sweep_from : ℕ → Option String → ℕ → CacheShard T → ℕ → CacheShard T × ℕ
  sweep_from zero e now s count = (s, count)
  sweep_from (suc n) none now s count = (s, count)
  sweep_from (suc n) (some k) now s count =
      let reaped = sweep_from n (prev k s.order) now (remove_element k s) (count + 1) in
      let kept = sweep_from n (prev k s.order) now s count in
      if is_expired_at k now s.order then reaped else kept

  abbrev pub budget : ℤ → CacheShard T → ℕ
  budget (pos (suc n)) s = suc n
  budget (pos zero) s = length s.order
  budget (negsuc n) s = length s.order

  -- A limit that is not positive is none: the loop ends at the front.
  unfoldable pub sweep_expired_bounded : ℕ → ℤ → CacheShard T → CacheShard T × ℕ
  sweep_expired_bounded now limit s = sweep_from (budget limit s) (back s.order) now s 0

  -- The map that is rebuilt holds the same items.
  unfoldable pub compact_if_needed : CacheShard T → CacheShard T × Bool
  compact_if_needed s =
      if ltb s.tombstones s.compact_at then (s, false) else (record s { tombstones = 0 }, true)

  abbrev pub count_live : ℕ → Bool → List (Item T) → ℕ
  count_live now negative [] = 0
  count_live now negative (it ∷ rest) =
      let others = count_live now negative rest in
      if expired now it
      then others
      else if (if it.not_available then negative else not negative)
      then suc others
      else others

  unfoldable pub counts : ℕ → CacheShard T → ℕ × ℕ
  counts now s = (count_live now false s.order, count_live now true s.order)

  unfoldable pub ttl : String → ℕ → CacheShard T → Option ℤ
  ttl key now s = elim (found key s.order) [
    | none ↦ none
    | some it ↦ if expired now it then none else some (remaining it.expires_at now)
  ]

  unfoldable pub persist : String → ℕ → CacheShard T → CacheShard T × Bool
  persist key now s = elim (found key s.order) [
    | none ↦ (s, false)
    | some it ↦
        if expired now it
        then (remove_element key s, false)
        else (record s { order = update key (λ x. record x { expires_at = none }) s.order }, true)
  ]
