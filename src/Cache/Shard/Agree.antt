-- ===== src/Cache/Shard/Agree.antt =====
-- core/cache: a shard of cache.go against the map of simple_cache.go. What the shard holds, the map
-- holds too.
use Prim.Native.String.{String}
use mathlib.Core.Path.{subst}
use text.Mathlib.Text.{◌==◌ as str_eq}
use text.Mathlib.TextEquality.{eq_iff}
use go_anansi.Prelude.{
  ℕ, zero, suc, ◌+◌, Bool, true, false, ◌&&◌, Option, none, some, List, [], ◌∷◌, length, ◌≡◌, refl,
  ap, ◌∙◌, sym, arith, ltb, ◌==◌, ◌⊎◌, inl, inr, Bool-cases, Option-cases, both_branches,
}
use go_anansi.Prelude.Int.{ℤ}
use go_anansi.Cache.{Item, cache_miss, expired}
use go_anansi.Cache.Items.{found, has, update, without, prev, back}
use go_anansi.Cache.Items.Laws.{
  unique, has-without_same, found-without_other, found-has, found-update, changed, unique-update,
  unique-without,
}
use go_anansi.Cache.Simple.{InMemoryCache, SimpleCacheEntry, put, answer}
use go_anansi.Cache.Shard.{
  CacheShard, remove_element, scan, evict_one_clock, upsert, onwards, unread, accessed_at, evict,
  get_status,
}
use go_anansi.Cache.Reaping.{
  sweep_from, sweep_expired_bounded, budget, is_expired_at, persist, clear, compact_if_needed,
}
use go_anansi.Cache.Shard.Valid.{IsSound, evict-Scans}
use go_anansi.Cache.Shard.Kept.{pushed, pushed-IsSound}

module _ {T : Type 0} where
  abbrev pub entry_of : Item T → SimpleCacheEntry T
  entry_of it = record { artifact = it.artifact; not_available = it.not_available }

  unfoldable pub Agrees : InMemoryCache T → List (Item T) → Type 0
  Agrees m xs = (k : String) (it : Item T) → found k xs ≡ some it → m k ≡ some (entry_of it)

  without-Agrees :
      (m : InMemoryCache T) (k : String) (xs : List (Item T))
      → unique xs ≡ true
      → Agrees m xs
      → Agrees (put k none m) (without k xs)
  unfolding Agrees
  without-Agrees m k xs u g j it h = elim (Bool-cases (str_eq k j)) [
    | inl e ↦
        let gone =
          subst (λ i. has i (without k xs) ≡ false) ((eq_iff k j).0 e) (has-without_same k xs u) in
        absurd (ground (arith, gone, found-has j (without k xs) it h))
    | inr e ↦ rw e (g j it (sym (found-without_other j k xs e) ∙ h))
  ]

  weaker-Agrees :
      (m : InMemoryCache T) (k : String) (xs : List (Item T))
      → Agrees (put k none m) xs
      → Agrees m xs
  unfolding Agrees
  weaker-Agrees m k xs g j it h = ground (arith, g j it h)

  old_entry :
      (f : Item T → Item T) (kept : (x : Item T) → entry_of (f x) ≡ entry_of x) (b : Bool)
      (m : InMemoryCache T) (j : String) (old : Option (Item T)) (it : Item T)
      → ((x : Item T) → old ≡ some x → m j ≡ some (entry_of x))
      → changed b f old ≡ some it
      → m j ≡ some (entry_of it)
  old_entry f kept b m j none it g h = absurd (ground (arith, h))
  old_entry f kept false m j (some x) it g h =
      let same : x ≡ it = ground (arith, h) in subst (λ o. m j ≡ some (entry_of o)) same (g x refl)
  old_entry f kept true m j (some x) it g h =
      let same : f x ≡ it = ground (arith, h) in
      subst (λ o. m j ≡ some (entry_of o)) same (g x refl ∙ ap some (sym (kept x)))

  update-Agrees :
      (f : Item T → Item T) (same : (x : Item T) → (f x).key ≡ x.key)
      (kept : (x : Item T) → entry_of (f x) ≡ entry_of x) (m : InMemoryCache T) (k : String)
      (xs : List (Item T))
      → Agrees m xs
      → Agrees m (update k f xs)
  unfolding Agrees
  update-Agrees f same kept m k xs g j it h =
      old_entry f kept (str_eq k j) m j (found j xs) it (g j) (sym (found-update f same j k xs) ∙ h)

  put-Agrees :
      (m : InMemoryCache T) (item : Item T) (xs : List (Item T))
      → Agrees m xs
      → Agrees (put item.key (some (entry_of item)) m) (item ∷ xs)
  unfolding Agrees
  put-Agrees m item xs g j it h = ground (arith, g j it)

  remove_element-Agrees :
      (m : InMemoryCache T) (k : String) (s : CacheShard T)
      → unique s.order ≡ true
      → Agrees m s.order
      → Agrees m (remove_element k s).order
  unfolding remove_element
  remove_element-Agrees m k s u g =
      weaker-Agrees m k (without k s.order) (without-Agrees m k s.order u g)

  scan-Agrees :
      (m : InMemoryCache T) (n : ℕ) (k : String) (s : CacheShard T)
      → unique s.order ≡ true
      → Agrees m s.order
      → Agrees m (scan n k s).order
  unfolding scan
  scan-Agrees m zero k s u g = remove_element-Agrees m k (record s { clock_hand = some k }) u g
  scan-Agrees m (suc n) k s u g =
      let next_s : CacheShard T = record s { order = update k unread s.order } in
      both_branches (λ (r : CacheShard T). Agrees m r.order) (accessed_at k s.order)
        (scan-Agrees m n (onwards k s.order) next_s (unique-update unread (λ x. refl) k s.order ∙ u)
          (update-Agrees unread (λ x. refl) (λ x. refl) m k s.order g))
        (remove_element-Agrees m k (record s { clock_hand = some k }) u g)

  pub evict_one-Agrees :
      (m : InMemoryCache T) (s : CacheShard T)
      → IsSound s
      → Agrees m s.order
      → Agrees m (evict_one_clock s).0.order
  unfolding evict_one_clock
  evict_one-Agrees m s v g = elim (Bool-cases (length s.order == 0)) [
    | inl h ↦ rw h g
    | inr h ↦
        let x = evict-Scans s v h in
        subst (λ (r : CacheShard T × Bool). Agrees m r.0.order) (sym x.scans)
          (scan-Agrees m (length s.order) x.start s v.distinct g)
  ]

  absent-Agrees :
      (m : InMemoryCache T) (k : String) (xs : List (Item T))
      → has k xs ≡ false
      → Agrees m xs
      → Agrees (put k none m) xs
  unfolding Agrees
  absent-Agrees m k xs a g j it h = elim (Bool-cases (str_eq k j)) [
    | inl e ↦
        let gone = subst (λ i. has i xs ≡ false) ((eq_iff k j).0 e) a in
        absurd (ground (arith, gone, found-has j xs it h))
    | inr e ↦ rw e (g j it h)
  ]

  pub upsert-Agrees :
      (m : InMemoryCache T) (item : Item T) (s : CacheShard T)
      → IsSound s
      → Agrees m s.order
      → Agrees (put item.key (some (entry_of item)) m) (upsert item s).0.order
  unfolding upsert
  upsert-Agrees m item s v g = elim (Bool-cases (has item.key s.order)) [
    | inl h ↦ rw h (
        put-Agrees m item (without item.key s.order) (
          weaker-Agrees m item.key (without item.key s.order)
            (without-Agrees m item.key s.order v.distinct g)))
    | inr h ↦
        let grown = put-Agrees m item s.order g in
        elim (Bool-cases (ltb 0 s.max_entries && ltb s.max_entries (suc (length s.order)))) [
          | inl full ↦
              rw (h, full)
                (evict_one-Agrees (put item.key (some (entry_of item)) m) (pushed item s)
                  (pushed-IsSound item s v h) grown)
          | inr full ↦ rw (h, full) grown
        ]
  ]

  sweep_from-Agrees :
      (m : InMemoryCache T) (n : ℕ) (e : Option String) (now : ℕ) (s : CacheShard T) (count : ℕ)
      → unique s.order ≡ true
      → Agrees m s.order
      → Agrees m (sweep_from n e now s count).0.order
  unfolding sweep_from remove_element
  sweep_from-Agrees m zero e now s count u g = g
  sweep_from-Agrees m (suc n) none now s count u g = g
  sweep_from-Agrees m (suc n) (some k) now s count u g =
      both_branches (λ (r : CacheShard T × ℕ). Agrees m r.0.order) (is_expired_at k now s.order)
        (sweep_from-Agrees m n (prev k s.order) now (remove_element k s) (count + 1)
          (unique-without k s.order u) (remove_element-Agrees m k s u g))
        (sweep_from-Agrees m n (prev k s.order) now s count u g)

  pub sweep-Agrees :
      (m : InMemoryCache T) (now : ℕ) (limit : ℤ) (s : CacheShard T)
      → IsSound s
      → Agrees m s.order
      → Agrees m (sweep_expired_bounded now limit s).0.order
  unfolding sweep_expired_bounded
  sweep-Agrees m now limit s v g =
      sweep_from-Agrees m (budget limit s) (back s.order) now s 0 v.distinct g

  pub evict-Agrees :
      (m : InMemoryCache T) (k : String) (s : CacheShard T)
      → IsSound s
      → Agrees m s.order
      → Agrees (put k none m) (evict k s).order
  unfolding evict remove_element
  evict-Agrees m k s v g = elim (Bool-cases (has k s.order)) [
    | inl h ↦ rw h (without-Agrees m k s.order v.distinct g)
    | inr h ↦ rw h (absent-Agrees m k s.order h g)
  ]

  pub get_status-Agrees :
      (m : InMemoryCache T) (zero_value : T) (k : String) (now : ℕ) (s : CacheShard T)
      → Agrees m s.order
      → Agrees m (get_status zero_value k now s).0.order
  unfolding get_status
  get_status-Agrees m zero_value k now s g = elim (Option-cases (found k s.order)) [
    | inl e ↦ rw (get_status, e) g
    | inr e ↦ elim (Bool-cases (expired now e.0)) [
      | inl x ↦ rw (get_status, e.1, x) g
      | inr x ↦
          rw (get_status, e.1, x)
            (update-Agrees (λ y. record y { accessed = true }) (λ y. refl) (λ y. refl) m k s.order
              g)
    ]
  ]

  pub persist-Agrees :
      (m : InMemoryCache T) (k : String) (now : ℕ) (s : CacheShard T)
      → IsSound s
      → Agrees m s.order
      → Agrees m (persist k now s).0.order
  unfolding persist
  persist-Agrees m k now s v g = elim (Option-cases (found k s.order)) [
    | inl e ↦ rw (persist, e) g
    | inr e ↦ elim (Bool-cases (expired now e.0)) [
      | inl x ↦ rw (persist, e.1, x) (remove_element-Agrees m k s v.distinct g)
      | inr x ↦
          rw (persist, e.1, x)
            (update-Agrees (λ y. record y { expires_at = none }) (λ y. refl) (λ y. refl) m k s.order
              g)
    ]
  ]

  pub empty-Agrees : (m : InMemoryCache T) → Agrees m []
  unfolding Agrees
  empty-Agrees m k it h = absurd (ground (arith, h))

  pub clear-Agrees : (m : InMemoryCache T) (s : CacheShard T) → Agrees m (clear s).order
  unfolding clear
  clear-Agrees m s = empty-Agrees m

  pub compact-Agrees :
      (m : InMemoryCache T) (s : CacheShard T)
      → Agrees m s.order
      → Agrees m (compact_if_needed s).0.order
  unfolding compact_if_needed
  compact-Agrees m s g =
      both_branches (λ (r : CacheShard T × Bool). Agrees m r.0.order)
        (ltb s.tombstones s.compact_at) g g

  -- What is looked up in the shard: a miss, or an item that is not expired.
  pub get_status-cases :
      (zero_value : T) (k : String) (now : ℕ) (s : CacheShard T)
      → ((get_status zero_value k now s).1 ≡ (zero_value, cache_miss))
        ⊎ ((it : Item T) × (found k s.order ≡ some it)
            × (expired now it ≡ false)
            × ((get_status zero_value k now s).1 ≡ answer zero_value (some (entry_of it))))
  unfolding get_status
  get_status-cases zero_value k now s = elim (Option-cases (found k s.order)) [
    | inl e ↦ inl (rw (get_status, e) refl)
    | inr e ↦ elim (Bool-cases (expired now e.0)) [
      | inl x ↦ inl (rw (get_status, e.1, x) refl)
      | inr x ↦ inr (e.0, e.1, x, rw (get_status, e.1, x) refl)
    ]
  ]
