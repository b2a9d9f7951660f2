-- ===== src/Cache/Shard/Clock.antt =====
-- core/cache/cache.go, evictOneCLOCK: which entry is evicted.
use Prim.Native.String.{String}
use mathlib.Core.Path.{subst}
use text.Mathlib.Text.{◌==◌ as str_eq}
use text.Mathlib.TextEquality.{eq_iff}
use go_anansi.Prelude.{
  ℕ, zero, suc, ◌≤◌, Bool, true, false, not, ◌&&◌, Option, none, some, List, [], ◌∷◌, length, ◌≡◌,
  refl, ap, ◌∙◌, sym, arith, inl, inr, Bool-cases,
}
use go_anansi.Cache.{Item}
use go_anansi.Cache.Items.{found, has, update, without, prev_from, back_from}
use go_anansi.Cache.Items.Laws.{
  unique, str_refl, found-has, found-update, changed, has-update, unique-update, has-without_same,
  has-without_other,
}
use go_anansi.Cache.Items.Cycle.{any_unread}
use go_anansi.Cache.Shard.{CacheShard, remove_element, scan, onwards, unread, accessed_at}

module _ {T : Type 0} where
  -- The scan of `xs` goes through the second list.
  pub data Follows (xs : List (Item T)) : List (Item T) → Type 0 where
    ends : (x : Item T) → Follows xs (x ∷ [])
    goes :
        (x y : Item T) (ys : List (Item T))
        → onwards x.key xs ≡ y.key
        → Follows xs (y ∷ ys)
        → Follows xs (x ∷ y ∷ ys)

  prev-update :
      (f : Item T → Item T) (same : (x : Item T) → (f x).key ≡ x.key) (j : String)
      (p : Option String) (k : String) (xs : List (Item T))
      → prev_from p k (update j f xs) ≡ prev_from p k xs
  prev-update f same j p k [] = refl
  prev-update f same j p k (x ∷ xs) = ground (
    arith,
    same x,
    prev-update f same j (some x.key) k xs,
    prev-update f same j (some (f x).key) k xs,
  )

  back-update :
      (f : Item T → Item T) (same : (x : Item T) → (f x).key ≡ x.key) (j : String)
      (p : Option String) (xs : List (Item T))
      → back_from p (update j f xs) ≡ back_from p xs
  back-update f same j p [] = refl
  back-update f same j p (x ∷ xs) = ground (
    arith,
    same x,
    back-update f same j (some x.key) xs,
    back-update f same j (some (f x).key) xs,
  )

  onwards-update :
      (k j : String) (xs : List (Item T)) → onwards k (update j unread xs) ≡ onwards k xs
  onwards-update k j xs =
      rw
        (
          onwards,
          prev-update unread (λ x. refl) j none k xs,
          back-update unread (λ x. refl) j none xs,
        )
        refl

  update-Follows :
      (j : String) (xs ts : List (Item T)) → Follows xs ts → Follows (update j unread xs) ts
  update-Follows j xs _ (ends x) = ends x
  update-Follows j xs _ (goes x y ys e f) =
      goes x y ys (onwards-update x.key j xs ∙ e) (update-Follows j xs (y ∷ ys) f)

  -- One of `ts` that was not read is gone from `xs`, and nothing else is.
  pub record Evicts (ts xs : List (Item T)) (r : CacheShard T) : Type 0 where
    pub victim : Item T
    pub member : found victim.key ts ≡ some victim
    pub not_read : victim.accessed ≡ false
    pub others : (j : String) → has j r.order ≡ (has j xs && not (str_eq victim.key j))

  without-others :
      (k : String) (xs : List (Item T))
      → unique xs ≡ true
      → (j : String) → has j (without k xs) ≡ (has j xs && not (str_eq k j))
  without-others k xs u j = elim (Bool-cases (str_eq k j)) [
    | inl e ↦
        let gone =
          subst (λ i. has i (without k xs) ≡ false) ((eq_iff k j).0 e) (has-without_same k xs u) in
        rw e (gone ∙ ground arith)
    | inr e ↦ rw e (has-without_other j k xs e ∙ ground arith)
  ]

  abbrev read_flag : Option (Item T) → Bool
  read_flag o = elim o [ none ↦ false | some it ↦ it.accessed ]

  head_found : (t : Item T) (ts : List (Item T)) → found t.key (t ∷ ts) ≡ some t
  head_found t ts = ground (arith, str_refl t.key)

  not_head :
      (k : String) (t : Item T) (ts : List (Item T)) (i : Item T)
      → unique (t ∷ ts) ≡ true
      → found k ts ≡ some i
      → str_eq t.key k ≡ false
  not_head k t ts i u h = elim (Bool-cases (str_eq t.key k)) [
    | inl e ↦
        let there =
          subst (λ j. has j ts ≡ true) (sym ((eq_iff t.key k).0 e)) (found-has k ts i h) in
        absurd (ground (arith, u, there))
    | inr e ↦ e
  ]

  -- What the scan may rely on: it goes through `ts`, which are items of `xs`.
  pub record Ready (ts xs : List (Item T)) : Type 0 where
    pub follows : Follows xs ts
    pub items : (k : String) (i : Item T) → found k ts ≡ some i → found k xs ≡ some i
    pub distinct : unique ts ≡ true
    pub all_distinct : unique xs ≡ true

  next-Ready :
      (t y : Item T) (ys xs : List (Item T))
      → Follows xs (y ∷ ys)
      → Ready (t ∷ y ∷ ys) xs
      → Ready (y ∷ ys) (update t.key unread xs)
  next-Ready t y ys xs f r = record {
    follows = update-Follows t.key xs (y ∷ ys) f;
    items = λ k i h.
        let other = not_head k t (y ∷ ys) i r.distinct h in
        found-update unread (λ x. refl) k t.key xs
        ∙ ap (changed (str_eq t.key k) unread) (r.items k i (rw other h))
        ∙ rw other refl;
    distinct = ground (arith, r.distinct);
    all_distinct = unique-update unread (λ x. refl) t.key xs ∙ r.all_distinct;
  }

  wider-Evicts :
      (t : Item T) (ts xs : List (Item T)) (r : CacheShard T)
      → unique (t ∷ ts) ≡ true
      → Evicts ts (update t.key unread xs) r
      → Evicts (t ∷ ts) xs r
  wider-Evicts t ts xs r u x = record {
    victim = x.victim;
    member = rw (not_head x.victim.key t ts x.victim u x.member) x.member;
    not_read = x.not_read;
    others = λ j. x.others j ∙ rw (has-update unread (λ y. refl) j t.key xs) refl;
  }

  scan-first :
      (ts : List (Item T)) (t : Item T) (n : ℕ) (s : CacheShard T)
      → Ready (t ∷ ts) s.order
      → t.accessed ≡ false
      → Evicts (t ∷ ts) s.order (scan (suc n) t.key s)
  unfolding scan remove_element
  scan-first ts t n s r e =
      let at : accessed_at t.key s.order ≡ false =
        ap read_flag (r.items t.key t (head_found t ts)) ∙ e in
      rw at record {
        victim = t;
        member = head_found t ts;
        not_read = e;
        others = without-others t.key s.order r.all_distinct;
      }

  pub scan-Evicts :
      (ts : List (Item T)) (t : Item T) (n : ℕ) (s : CacheShard T)
      → Ready (t ∷ ts) s.order
      → Follows s.order (t ∷ ts)
      → any_unread (t ∷ ts) ≡ true
      → length (t ∷ ts) ≤ n
      → Evicts (t ∷ ts) s.order (scan n t.key s)
  unfolding scan
  scan-Evicts ts t zero s r f a h = absurd (omega arith)
  scan-Evicts [] t (suc n) s r (ends _) a h = scan-first [] t n s r (ground (arith, a))
  scan-Evicts (y ∷ ys) t (suc n) s r (goes _ _ _ e f) a h = elim (Bool-cases t.accessed) [
    | inl x ↦
        let at : accessed_at t.key s.order ≡ true =
          ap read_flag (r.items t.key t (head_found t (y ∷ ys))) ∙ x in
        let next_s : CacheShard T = record s { order = update t.key unread s.order } in
        let ready = next-Ready t y ys s.order f r in
        rw (at, e)
          (wider-Evicts t (y ∷ ys) s.order (scan n y.key next_s) r.distinct
            (scan-Evicts ys y n next_s ready ready.follows (ground (arith, a, x)) (omega arith)))
    | inr x ↦ scan-first (y ∷ ys) t n s r x
  ]
