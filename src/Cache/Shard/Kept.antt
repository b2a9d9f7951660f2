-- ===== src/Cache/Shard/Kept.antt =====
-- core/cache/cache.go, cacheShard: every method keeps the invariant.
use Prim.Native.String.{String}
use go_anansi.Prelude.{
  ℕ, zero, suc, ◌+◌, Bool, true, false, ◌&&◌, Option, none, some, List, ◌∷◌, length, ◌≡◌, refl, ap,
  ◌∙◌, sym, arith, ltb, ◌==◌, inl, inr, Bool-cases, Option-cases,
}
use go_anansi.Prelude.Int.{ℤ, pos, ◌+ℤ◌}
use go_anansi.Cache.{Item, expired}
use go_anansi.Cache.Items.{found, has, update, without, prev, back}
use go_anansi.Cache.Items.Laws.{
  has-without_other, has-without_same, unique-without, length-without, found-has, length-update,
}
use go_anansi.Cache.Shard.{
  CacheShard, new_cache_shard, remove_element, evict_one_clock, upsert, set, nullify, evict,
  get_status, told,
}
use go_anansi.Cache.Reaping.{
  clear, sweep_from, sweep_expired_bounded, budget, compact_if_needed, persist, is_expired_at,
  minus,
}
use go_anansi.Cache.Shard.Valid.{
  IsSound, IsValid, hand_in, Removes, remove_element-Removes, evict-Removes, update-IsSound,
}

minus_lem : (n : ℕ) → pos n +ℤ minus n ≡ pos 0
minus_lem zero = refl
minus_lem (suc n) = ground arith

module _ {T : Type 0} where
  hand-front :
      (item : Item T) (hand : Option String) (xs : List (Item T))
      → hand_in hand xs ≡ true
      → hand_in hand (item ∷ without item.key xs) ≡ true
  hand-front item none xs h = refl
  hand-front item (some a) xs h = ground (arith, h, has-without_other a item.key xs)

  hand-pushed :
      (item : Item T) (hand : Option String) (xs : List (Item T))
      → hand_in hand xs ≡ true
      → hand_in hand (item ∷ xs) ≡ true
  hand-pushed item none xs h = refl
  hand-pushed item (some a) xs h = ground (arith, h)

  refresh-IsValid :
      (item : Item T) (s : CacheShard T)
      → IsValid s
      → has item.key s.order ≡ true
      → IsValid (record s { order = item ∷ without item.key s.order })
  refresh-IsValid item s v h =
      let fewer = length-without item.key s.order h in
      record {
        sound = record {
          distinct = ground (
            arith,
            has-without_same item.key s.order v.sound.distinct,
            unique-without item.key s.order v.sound.distinct,
          );
          hand = hand-front item s.clock_hand s.order v.sound.hand;
          counted = v.sound.counted ∙ ap pos (sym fewer);
        };
        bounded = rw fewer v.bounded;
      }

  abbrev pub pushed : Item T → CacheShard T → CacheShard T
  pushed item s = record s { order = item ∷ s.order; global_size = s.global_size +ℤ pos 1 }

  pub pushed-IsSound :
      (item : Item T) (s : CacheShard T)
      → IsSound s
      → has item.key s.order ≡ false
      → IsSound (pushed item s)
  pushed-IsSound item s v h = record {
    distinct = ground (arith, h, v.distinct);
    hand = hand-pushed item s.clock_hand s.order v.hand;
    counted = ground (arith, v.counted);
  }

  pub upsert-IsValid : (item : Item T) (s : CacheShard T) → IsValid s → IsValid (upsert item s).0
  unfolding upsert
  upsert-IsValid item s v = elim (Bool-cases (has item.key s.order)) [
    | inl h ↦ rw h (refresh-IsValid item s v h)
    | inr h ↦ elim (Bool-cases (ltb 0 s.max_entries && ltb s.max_entries (suc (length s.order)))) [
      | inl full ↦
          let gone =
            evict-Removes (pushed item s) (pushed-IsSound item s v.sound h) (ground arith) in
          rw (h, full)
            record {
              sound = gone.sound;
              bounded = ground (arith, gone.fewer, gone.bound, v.bounded, full);
            }
      | inr full ↦
          rw (h, full)
            record {
              sound = pushed-IsSound item s v.sound h;
              bounded = ground (arith, v.bounded, full);
            }
    ]
  ]

  pub new-IsValid : (max compact : ℕ) (b : Bool) → IsValid (new_cache_shard {T = T} max compact b)
  unfolding new_cache_shard
  new-IsValid max compact b = record {
    sound = record { distinct = refl; hand = refl; counted = refl };
    bounded = ground arith;
  }

  pub removed-IsValid :
      (r s : CacheShard T) → IsValid s → Removes (length s.order) s.max_entries r → IsValid r
  removed-IsValid r s v x = record {
    sound = x.sound;
    bounded = ground (arith, x.fewer, x.bound, v.bounded);
  }

  pub remove_element-IsValid :
      (k : String) (s : CacheShard T)
      → IsValid s
      → has k s.order ≡ true
      → IsValid (remove_element k s)
  remove_element-IsValid k s v h =
      removed-IsValid (remove_element k s) s v (remove_element-Removes k s v.sound h)

  pub set-IsValid :
      (k : String) (a : T) (t : Option ℕ) (s : CacheShard T) → IsValid s → IsValid (set k a t s).0
  unfolding set
  set-IsValid k a t s v = upsert-IsValid _ s v

  pub nullify-IsValid :
      (zero_value : T) (k : String) (t : Option ℕ) (s : CacheShard T)
      → IsValid s
      → IsValid (nullify zero_value k t s).0
  unfolding nullify
  nullify-IsValid zero_value k t s v =
      let logged : CacheShard T = record s {
        evicted = told s.on_evict (found k s.order) s.evicted;
      } in
      upsert-IsValid _ logged record {
        sound = record {
          distinct = v.sound.distinct;
          hand = v.sound.hand;
          counted = v.sound.counted;
        };
        bounded = v.bounded;
      }

  pub evict-IsValid : (k : String) (s : CacheShard T) → IsValid s → IsValid (evict k s)
  unfolding evict
  evict-IsValid k s v = elim (Bool-cases (has k s.order)) [
    | inl h ↦ rw h (remove_element-IsValid k s v h)
    | inr h ↦ rw h v
  ]

  pub evict_one-IsValid : (s : CacheShard T) → IsValid s → IsValid (evict_one_clock s).0
  unfolding evict_one_clock
  evict_one-IsValid s v = elim (Bool-cases (length s.order == 0)) [
    | inl h ↦ rw h v
    | inr h ↦ removed-IsValid (evict_one_clock s).0 s v (evict-Removes s v.sound h)
  ]

  update-IsValid :
      (f : Item T → Item T) (same : (x : Item T) → (f x).key ≡ x.key) (k : String)
      (s : CacheShard T)
      → IsValid s
      → IsValid (record s { order = update k f s.order })
  update-IsValid f same k s v = record {
    sound = update-IsSound f same k s v.sound;
    bounded = rw (length-update f k s.order) v.bounded;
  }

  pub get_status-IsValid :
      (zero_value : T) (k : String) (now : ℕ) (s : CacheShard T)
      → IsValid s
      → IsValid (get_status zero_value k now s).0
  unfolding get_status
  get_status-IsValid zero_value k now s v = elim (Option-cases (found k s.order)) [
    | inl e ↦ rw (get_status, e) v
    | inr e ↦ elim (Bool-cases (expired now e.0)) [
      | inl x ↦ rw (get_status, e.1, x) v
      | inr x ↦
          rw (get_status, e.1, x)
            (update-IsValid (λ y. record y { accessed = true }) (λ y. refl) k s v)
    ]
  ]

  pub persist-IsValid :
      (k : String) (now : ℕ) (s : CacheShard T) → IsValid s → IsValid (persist k now s).0
  unfolding persist
  persist-IsValid k now s v = elim (Option-cases (found k s.order)) [
    | inl e ↦ rw (persist, e) v
    | inr e ↦ elim (Bool-cases (expired now e.0)) [
      | inl x ↦ rw (persist, e.1, x) (remove_element-IsValid k s v (found-has k s.order e.0 e.1))
      | inr x ↦
          rw (persist, e.1, x)
            (update-IsValid (λ y. record y { expires_at = none }) (λ y. refl) k s v)
    ]
  ]

  pub compact-IsValid : (s : CacheShard T) → IsValid s → IsValid (compact_if_needed s).0
  unfolding compact_if_needed
  compact-IsValid s v = elim (Bool-cases (ltb s.tombstones s.compact_at)) [
    | inl h ↦ rw h v
    | inr h ↦ rw h record {
      sound = record {
        distinct = v.sound.distinct;
        hand = v.sound.hand;
        counted = v.sound.counted;
      };
      bounded = v.bounded;
    }
  ]

  pub clear-IsValid : (s : CacheShard T) → IsValid s → IsValid (clear s)
  unfolding clear
  clear-IsValid s v = record {
    sound = record {
      distinct = refl;
      hand = refl;
      counted = ap (λ n. n +ℤ minus (length s.order)) v.sound.counted ∙ minus_lem (length s.order);
    };
    bounded = ground arith;
  }

  expired-has :
      (k : String) (now : ℕ) (xs : List (Item T)) → is_expired_at k now xs ≡ true → has k xs ≡ true
  expired-has k now xs h = elim (Option-cases (found k xs)) [
    | inl e ↦ absurd (ground (arith, h, e))
    | inr e ↦ found-has k xs e.0 e.1
  ]

  sweep_from-IsValid :
      (n : ℕ) (e : Option String) (now : ℕ) (s : CacheShard T) (count : ℕ)
      → IsValid s
      → IsValid (sweep_from n e now s count).0
  unfolding sweep_from
  sweep_from-IsValid zero e now s count v = v
  sweep_from-IsValid (suc n) none now s count v = v
  sweep_from-IsValid (suc n) (some k) now s count v =
      elim (Bool-cases (is_expired_at k now s.order)) [
        | inl h ↦ rw h (
            sweep_from-IsValid n (prev k s.order) now (remove_element k s) (count + 1)
              (remove_element-IsValid k s v (expired-has k now s.order h)))
        | inr h ↦ rw h (sweep_from-IsValid n (prev k s.order) now s count v)
      ]

  pub sweep-IsValid :
      (now : ℕ) (limit : ℤ) (s : CacheShard T)
      → IsValid s
      → IsValid (sweep_expired_bounded now limit s).0
  unfolding sweep_expired_bounded
  sweep-IsValid now limit s v = sweep_from-IsValid (budget limit s) (back s.order) now s 0 v
