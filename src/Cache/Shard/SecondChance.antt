-- ===== src/Cache/Shard/SecondChance.antt =====
-- core/cache/cache.go, evictOneCLOCK: an entry that was read is spared while there is one that was
-- not.
use Prim.Native.String.{String}
use mathlib.Core.Path.{subst}
use text.Mathlib.Text.{◌==◌ as str_eq}
use text.Mathlib.TextEquality.{eq_iff}
use go_anansi.Prelude.{
  true, false, none, some, List, [], ◌∷◌, ◌++◌, length, ◌≡◌, refl, ap, ◌∙◌, sym, arith, ◌==◌, inl,
  inr, Bool-cases,
}
use go_anansi.Cache.{Item}
use go_anansi.Cache.Items.{found, has, back}
use go_anansi.Cache.Items.Laws.{unique, str_refl}
use go_anansi.Cache.Items.Cycle.{
  onto, any_unread, cycle, cycle-found, cycle-unique, cycle-any_unread, length-cycle, unique-onto,
  prev-onto, back-onto, onto-onto, onto_append, append_nil, disjoint-cons,
}
use go_anansi.Cache.Shard.{CacheShard, evict_one_clock, onwards, scan}
use go_anansi.Cache.Shard.Valid.{IsSound, evict-Scans}
use go_anansi.Cache.Shard.Clock.{Follows, ends, goes, Evicts, Ready, scan-Evicts}

module _ {T : Type 0} where
  -- `xs` around its element at `k`
  record Around (k : String) (xs : List (Item T)) : Type 0 where
    before : List (Item T)
    at : Item T
    behind : List (Item T)
    same : at.key ≡ k
    whole : xs ≡ onto before (at ∷ behind)

  split_from : (k : String) (rp ys : List (Item T)) → has k ys ≡ true → Around k (onto rp ys)
  split_from k rp [] h = absurd (ground (arith, h))
  split_from k rp (y ∷ ys) h = elim (Bool-cases (str_eq y.key k)) [
    | inl e ↦ record { before = rp; at = y; behind = ys; same = (eq_iff y.key k).0 e; whole = refl }
    | inr e ↦ split_from k (y ∷ rp) ys (ground (arith, h, e))
  ]

  -- What the scan may do behind the front: stop, or go on at the back.
  data Wraps (xs : List (Item T)) : List (Item T) → Type 0 where
    stops : Wraps xs []
    wraps :
        (y : Item T) (ys : List (Item T))
        → back xs ≡ some y.key
        → Follows xs (y ∷ ys)
        → Wraps xs (y ∷ ys)

  onwards_front :
      (x y : Item T) (post : List (Item T))
      → back (x ∷ post) ≡ some y.key
      → onwards x.key (x ∷ post) ≡ y.key
  onwards_front x y post h = rw (onwards, str_refl x.key, h) refl

  onwards_up :
      (rp : List (Item T)) (a x : Item T) (post : List (Item T))
      → unique (onto rp (a ∷ x ∷ post)) ≡ true
      → onwards x.key (onto rp (a ∷ x ∷ post)) ≡ a.key
  onwards_up rp a x post u =
      let whole = unique-onto rp (a ∷ x ∷ post) in
      let free : has x.key rp ≡ false =
        ground (arith, u, whole, disjoint-cons rp (x ∷ post) a, disjoint-cons rp post x) in
      let apart : str_eq a.key x.key ≡ false =
        ground (arith, u, whole, eq_iff a.key x.key, eq_iff x.key a.key) in
      rw (onwards, prev-onto none x.key rp (a ∷ x ∷ post) free, apart, str_refl x.key) refl

  up-Follows :
      (rp : List (Item T)) (x : Item T) (post ys : List (Item T))
      → unique (onto rp (x ∷ post)) ≡ true
      → Wraps (onto rp (x ∷ post)) ys
      → Follows (onto rp (x ∷ post)) (x ∷ (rp ++ ys))
  up-Follows [] x post [] u stops = ends x
  up-Follows [] x post (y ∷ ys) u (wraps _ _ e f) = goes x y ys (onwards_front x y post e) f
  up-Follows (a ∷ rp) x post ys u w =
      goes x a (rp ++ ys) (onwards_up rp a x post u) (up-Follows rp a (x ∷ post) ys u w)

  prefix-Follows :
      (xs : List (Item T)) (t : Item T) (ts us : List (Item T))
      → Follows xs (t ∷ (ts ++ us))
      → Follows xs (t ∷ ts)
  prefix-Follows xs t [] us f = ends t
  prefix-Follows xs t (y ∷ ts) us (goes _ _ _ e f) = goes t y ts e (prefix-Follows xs y ts us f)

  back-Wraps :
      (ws rest : List (Item T))
      → unique (onto (ws ++ rest) []) ≡ true
      → Wraps (onto (ws ++ rest) []) ws
  back-Wraps [] rest u = stops
  back-Wraps (l ∷ ws) rest u =
      let whole = onto (ws ++ rest) (l ∷ []) in
      wraps l ws (back-onto none (ws ++ rest) l []) (
        prefix-Follows whole l ws rest
          (prefix-Follows whole l (ws ++ rest) [] (up-Follows (ws ++ rest) l [] [] u stops)))

  around_back :
      (rp : List (Item T)) (x : Item T) (post : List (Item T))
      → onto (onto post [] ++ (x ∷ rp)) [] ≡ onto rp (x ∷ post)
  around_back rp x post =
      ap (λ ws. onto ws []) (sym (onto_append post [] (x ∷ rp)))
      ∙ onto-onto post (x ∷ rp) []
      ∙ ap (λ ps. onto rp (x ∷ ps)) (append_nil post)

  cycle-Follows :
      (rp : List (Item T)) (x : Item T) (post : List (Item T))
      → unique (onto rp (x ∷ post)) ≡ true
      → Follows (onto rp (x ∷ post)) (cycle rp x post)
  cycle-Follows rp x post u =
      let same = around_back rp x post in
      up-Follows rp x post (onto post []) u (
        subst (λ xs. Wraps xs (onto post [])) same
          (back-Wraps (onto post []) (x ∷ rp) (ap unique same ∙ u)))

  cycle-Evicts :
      (rp : List (Item T)) (x : Item T) (post : List (Item T)) (s : CacheShard T)
      → s.order ≡ onto rp (x ∷ post)
      → unique s.order ≡ true
      → any_unread s.order ≡ true
      → Evicts s.order s.order (scan (length s.order) x.key s)
  cycle-Evicts rp x post s w u a =
      let u_whole = ap unique (sym w) ∙ u in
      let follows =
        subst (λ xs. Follows xs (cycle rp x post)) (sym w) (cycle-Follows rp x post u_whole) in
      let ready : Ready (cycle rp x post) s.order = record {
        follows = follows;
        items = λ k i h. ap (found k) w ∙ cycle-found rp x post k i u_whole h;
        distinct = cycle-unique rp x post u_whole;
        all_distinct = u;
      } in
      let gone =
        scan-Evicts (rp ++ onto post []) x (length s.order) s ready follows
          (cycle-any_unread rp x post ∙ ap any_unread (sym w) ∙ a)
          (omega (arith, length-cycle rp x post, ap length w)) in
      record {
        victim = gone.victim;
        member = ready.items gone.victim.key gone.victim gone.member;
        not_read = gone.not_read;
        others = gone.others;
      }

  some_unread : (xs : List (Item T)) → any_unread xs ≡ true → (length xs == 0) ≡ false
  some_unread [] a = ground (arith, a)
  some_unread (x ∷ xs) a = ground arith

  -- If some entry of a shard was not read since it was written or spared, and keys are distinct and
  -- the hand points to an entry or nowhere, then the CLOCK eviction removes one entry that was not
  -- read, and no other.
  pub evict_one_clock-Evicts :
      (s : CacheShard T)
      → IsSound s
      → any_unread s.order ≡ true
      → Evicts s.order s.order (evict_one_clock s).0
  evict_one_clock-Evicts s v a =
      let x = evict-Scans s v (some_unread s.order a) in
      let around = split_from x.start [] s.order x.member in
      rw x.scans (
        subst (λ k. Evicts s.order s.order (scan (length s.order) k s)) around.same
          (cycle-Evicts around.before around.at around.behind s around.whole v.distinct a))
