-- ===== src/Cache/Shard/Writes.antt =====
-- core/cache/cache.go: whether a key that was just set is found.
use Prim.Native.String.{String}
use text.Mathlib.Text.{◌==◌ as str_eq}
use text.Mathlib.TextEquality.{eq_iff}
use go_anansi.Prelude.{
  ℕ, suc, ◌<◌, true, false, ◌&&◌, ◌||◌, Option, some, List, [], ◌∷◌, length, ◌≡◌, refl, ◌∙◌, sym,
  arith, ltb, ◌==◌, inl, inr, Bool-cases, Option-cases, if◌then◌else◌,
}
use go_anansi.Cache.{Item, cache_miss, cache_hit_positive, expired, after_time}
use go_anansi.Cache.Items.{found, has, without}
use go_anansi.Cache.Items.Laws.{str_refl, found-has}
use go_anansi.Cache.Items.Cycle.{any_unread}
use go_anansi.Cache.Shard.{CacheShard, evict_one_clock, get_status, set, upsert}
use go_anansi.Cache.Shard.Valid.{IsValid}
use go_anansi.Cache.Shard.Kept.{pushed, pushed-IsSound}
use go_anansi.Cache.Shard.SecondChance.{evict_one_clock-Evicts}

module _ {T : Type 0} (zero_value : T) where
  fresh : String → T → Option ℕ → Item T
  fresh key v t = record {
    key = key;
    artifact = v;
    not_available = false;
    expires_at = t;
    accessed = false;
  }

  -- The item at the front is found until its time has passed.
  get_front :
      (s : CacheShard T) (it : Item T) (xs : List (Item T)) (now : ℕ)
      → s.order ≡ it ∷ xs
      → it.not_available ≡ false
      → (get_status zero_value it.key now s).1
        ≡ (if expired now it then (zero_value, cache_miss) else (it.artifact, cache_hit_positive))
  unfolding get_status
  get_front s it xs now e p = elim (Bool-cases (expired now it)) [
    | inl x ↦ rw (get_status, e, str_refl it.key, x) refl
    | inr x ↦ rw (get_status, e, str_refl it.key, x, p) refl
  ]

  -- A key that was set in a shard that holds it or has room is found until its time has passed.
  pub set-get_status :
      (key : String) (v : T) (t : Option ℕ) (now : ℕ) (s : CacheShard T)
      → (has key s.order || (s.max_entries == 0 || ltb (length s.order) s.max_entries)) ≡ true
      → (get_status zero_value key now (set key v t s).0).1
        ≡ (if after_time t now then (zero_value, cache_miss) else (v, cache_hit_positive))
  unfolding set upsert expired fresh
  set-get_status key v t now s room = elim (Bool-cases (has key s.order)) [
    | inl h ↦
        rw (set, upsert, h)
          (get_front (record s { order = fresh key v t ∷ without key s.order }) (fresh key v t)
            (without key s.order) now refl refl)
    | inr h ↦
        let fits : ltb 0 s.max_entries && ltb s.max_entries (suc (length s.order)) ≡ false =
          ground (arith, room, h) in
        rw (set, upsert, h, fits)
          (get_front (pushed (fresh key v t) s) (fresh key v t) s.order now refl refl)
  ]

  only_unread :
      (xs : List (Item T)) (k : String) (i : Item T)
      → any_unread xs ≡ false
      → found k xs ≡ some i
      → i.accessed ≡ true
  only_unread [] k i a h = absurd (ground (arith, h))
  only_unread (x ∷ xs) k i a h = ground (arith, a, h, only_unread xs k i)

  itself_lem :
      (it : Item T) (xs : List (Item T)) (x : Item T)
      → any_unread xs ≡ false
      → found x.key (it ∷ xs) ≡ some x
      → x.accessed ≡ false
      → x.key ≡ it.key
  itself_lem it xs x a h r = elim (Bool-cases (str_eq it.key x.key)) [
    | inl e ↦ sym ((eq_iff it.key x.key).0 e)
    | inr e ↦ absurd (ground (arith, e, h, r, only_unread xs x.key x a))
  ]

  get_absent :
      (s : CacheShard T) (k : String) (now : ℕ)
      → has k s.order ≡ false
      → (get_status zero_value k now s).1 ≡ (zero_value, cache_miss)
  unfolding get_status
  get_absent s k now h = elim (Option-cases (found k s.order)) [
    | inl e ↦ rw (get_status, e) refl
    | inr e ↦ absurd (ground (arith, h, found-has k s.order e.0 e.1))
  ]

  -- Setting a new key in a full shard in which every entry was read evicts the new key itself: a
  -- lookup of it right after misses.
  pub set_evicts_itself :
      (key : String) (v : T) (t : Option ℕ) (now : ℕ) (s : CacheShard T)
      → IsValid s
      → has key s.order ≡ false
      → s.max_entries ≡ length s.order
      → 0 < s.max_entries
      → any_unread s.order ≡ false
      → (get_status zero_value key now (set key v t s).0).1 ≡ (zero_value, cache_miss)
  unfolding set upsert fresh
  set_evicts_itself key v t now s valid h full some_room read =
      let it = fresh key v t in
      let over : ltb 0 s.max_entries && ltb s.max_entries (suc (length s.order)) ≡ true =
        ground (arith, full, some_room) in
      let gone = evict_one_clock-Evicts (pushed it s) (pushed-IsSound it s valid.sound h) refl in
      let itself : gone.victim.key ≡ key =
        itself_lem it s.order gone.victim read gone.member gone.not_read in
      rw (set, upsert, h, over)
        (get_absent (evict_one_clock (pushed it s)).0 key now
          (gone.others key ∙ rw (itself, str_refl key) ground arith))
