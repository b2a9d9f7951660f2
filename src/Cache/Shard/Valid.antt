-- ===== src/Cache/Shard/Valid.antt =====
-- core/cache/cache.go, cacheShard: the invariant of a shard, which the methods keep.
use Prim.Native.String.{String}
use text.Mathlib.Text.{◌==◌ as str_eq}
use text.Mathlib.TextEquality.{eq_iff}
use go_anansi.Prelude.{
  ℕ, zero, suc, Bool, true, false, ◌||◌, Option, none, some, List, length, ◌≡◌, refl, ap, ◌∙◌, sym,
  arith, if◌then◌else◌, leb, ◌==◌, inl, inr, Option-cases, both_branches,
}
use mathlib.Core.Path.{subst}
use go_anansi.Prelude.Int.{pos}
use go_anansi.Cache.{Item}
use go_anansi.Cache.Items.{has, update, without, prev, back, next}
use go_anansi.Cache.Items.Laws.{
  unique, has-without_other, unique-without, length-without, has-prev_from, has-back_from, has-next,
  has-update, unique-update, length-update, back-none,
}
use go_anansi.Cache.Shard.{
  CacheShard, remove_element, scan, evict_one_clock, hand_without, or_else, is_at, onwards, unread,
  accessed_at,
}

module _ {T : Type 0} where
  abbrev pub hand_in : Option String → List (Item T) → Bool
  hand_in none xs = true
  hand_in (some k) xs = has k xs

  -- Keys are distinct, the hand is in the list, and the items are counted.
  pub record IsSound (s : CacheShard T) : Type 0 where
    pub distinct : unique s.order ≡ true
    pub hand : hand_in s.clock_hand s.order ≡ true
    pub counted : s.global_size ≡ pos (length s.order)

  -- Also, there are not more items than allowed.
  pub record IsValid (s : CacheShard T) : Type 0 where
    pub sound : IsSound s
    pub bounded : (s.max_entries == 0 || leb (length s.order) s.max_entries) ≡ true

  has-moved :
      (k j : String) (xs : List (Item T))
      → or_else (prev k xs) (next k xs) ≡ some j
      → has j xs ≡ true
  has-moved k j xs h = ground (arith, has-prev_from none k j xs, has-next k j xs)

  -- the hand `a` moved to `m` off `k`
  moved-in :
      (k a : String) (m : Option String) (xs : List (Item T))
      → has a xs ≡ true
      → hand_in m xs ≡ true
      → hand_in (if str_eq a k then (if is_at m k then none else m) else some a) (without k xs)
        ≡ true
  moved-in k a none xs h g = ground (arith, has-without_other a k xs, eq_iff a k, eq_iff k a)
  moved-in k a (some j) xs h g = ground (
    arith,
    has-without_other a k xs,
    has-without_other j k xs,
    eq_iff a k,
    eq_iff k a,
    eq_iff j k,
    eq_iff k j,
  )

  moved_lem :
      (k : String) (xs : List (Item T)) → hand_in (or_else (prev k xs) (next k xs)) xs ≡ true
  moved_lem k xs = elim (Option-cases (or_else (prev k xs) (next k xs))) [
    | inl e ↦ ap (λ m. hand_in m xs) e
    | inr e ↦ ap (λ m. hand_in m xs) e.1 ∙ has-moved k e.0 xs e.1
  ]

  hand_without-in :
      (k : String) (hand : Option String) (xs : List (Item T))
      → hand_in hand xs ≡ true
      → hand_in (hand_without k hand xs) (without k xs) ≡ true
  hand_without-in k none xs h = refl
  hand_without-in k (some a) xs h =
      moved-in k a (or_else (prev k xs) (next k xs)) xs h (moved_lem k xs)

  -- sound, with one entry fewer than `n`, and the bound
  pub record Removes (n limit : ℕ) (r : CacheShard T) : Type 0 where
    pub sound : IsSound r
    pub fewer : suc (length r.order) ≡ n
    pub bound : r.max_entries ≡ limit

  pub remove_element-Removes :
      (k : String) (s : CacheShard T)
      → IsSound s
      → has k s.order ≡ true
      → Removes (length s.order) s.max_entries (remove_element k s)
  unfolding remove_element
  remove_element-Removes k s v h =
      let fewer = length-without k s.order h in
      record {
        sound = record {
          distinct = unique-without k s.order v.distinct;
          hand = hand_without-in k s.clock_hand s.order v.hand;
          counted = ground (arith, v.counted, fewer);
        };
        fewer = fewer;
        bound = refl;
      }

  onwards-has : (k : String) (xs : List (Item T)) → has k xs ≡ true → has (onwards k xs) xs ≡ true
  onwards-has k xs h = elim (Option-cases (or_else (prev k xs) (back xs))) [
    | inl e ↦ rw (onwards, e) h
    | inr e ↦
        rw (onwards, e.1)
          (ground (arith, has-prev_from none k e.0 xs, has-back_from none e.0 xs, e.1))
  ]

  hand-update :
      (f : Item T → Item T) (same : (x : Item T) → (f x).key ≡ x.key) (k : String)
      (hand : Option String) (xs : List (Item T))
      → hand_in hand (update k f xs) ≡ hand_in hand xs
  hand-update f same k none xs = refl
  hand-update f same k (some a) xs = has-update f same a k xs

  pub update-IsSound :
      (f : Item T → Item T) (same : (x : Item T) → (f x).key ≡ x.key) (k : String)
      (s : CacheShard T)
      → IsSound s
      → IsSound (record s { order = update k f s.order })
  update-IsSound f same k s v = record {
    distinct = unique-update f same k s.order ∙ v.distinct;
    hand = hand-update f same k s.clock_hand s.order ∙ v.hand;
    counted = v.counted ∙ ap pos (sym (length-update f k s.order));
  }

  pub scan-Removes :
      (n : ℕ) (k : String) (s : CacheShard T)
      → IsSound s
      → has k s.order ≡ true
      → Removes (length s.order) s.max_entries (scan n k s)
  unfolding scan
  scan-Removes zero k s v h =
      remove_element-Removes k (record s { clock_hand = some k })
        record { distinct = v.distinct; hand = h; counted = v.counted } h
  scan-Removes (suc n) k s v h =
      let next_s : CacheShard T = record s { order = update k unread s.order } in
      let there : has (onwards k s.order) next_s.order ≡ true =
        has-update unread (λ x. refl) (onwards k s.order) k s.order ∙ onwards-has k s.order h in
      both_branches (Removes (length s.order) s.max_entries) (accessed_at k s.order)
        (subst (λ m. Removes m s.max_entries (scan n (onwards k s.order) next_s))
          (length-update unread k s.order)
          (scan-Removes n (onwards k s.order) next_s (update-IsSound unread (λ x. refl) k s v)
            there))
        (remove_element-Removes k (record s { clock_hand = some k })
          record { distinct = v.distinct; hand = h; counted = v.counted } h)

  start-has :
      (hand : Option String) (k : String) (xs : List (Item T))
      → hand_in hand xs ≡ true
      → or_else hand (back xs) ≡ some k
      → has k xs ≡ true
  start-has none k xs h e = ground (arith, has-back_from none k xs e)
  start-has (some a) k xs h e = ground (arith, h, e)

  start-none :
      (hand : Option String) (xs : List (Item T))
      → or_else hand (back xs) ≡ none
      → (length xs == 0) ≡ true
  start-none none xs e = back-none xs e
  start-none (some a) xs e = ground (arith, e)

  -- An eviction from a list that is not empty scans it from an element.
  pub record Scans (s : CacheShard T) : Type 0 where
    pub start : String
    pub member : has start s.order ≡ true
    pub scans : evict_one_clock s ≡ (scan (length s.order) start s, true)

  pub evict-Scans : (s : CacheShard T) → IsSound s → (length s.order == 0) ≡ false → Scans s
  unfolding evict_one_clock
  evict-Scans s v h = elim (Option-cases (or_else s.clock_hand (back s.order))) [
    | inl e ↦ absurd (ground (arith, h, start-none s.clock_hand s.order e))
    | inr e ↦ record {
      start = e.0;
      member = start-has s.clock_hand e.0 s.order v.hand e.1;
      scans = rw (h, e.1) refl;
    }
  ]

  pub evict-Removes :
      (s : CacheShard T)
      → IsSound s
      → (length s.order == 0) ≡ false
      → Removes (length s.order) s.max_entries (evict_one_clock s).0
  evict-Removes s v h =
      let x = evict-Scans s v h in rw x.scans (scan-Removes (length s.order) x.start s v x.member)
