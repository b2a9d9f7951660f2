-- ===== src/Cache/Items/Cycle.antt =====
-- The items of a shard in core/cache/cache.go in the order in which the CLOCK scan meets them: from
-- the hand towards the front, and then from the back up to the hand.
use Prim.Native.String.{String}
use text.Mathlib.Text.{◌==◌ as str_eq}
use text.Mathlib.TextEquality.{eq_iff}
use go_anansi.Prelude.{
  ◌+◌, Bool, true, false, not, ◌&&◌, ◌||◌, Option, some, List, [], ◌∷◌, ◌++◌, length, ◌≡◌, refl, ap,
  ◌∙◌, sym, arith, ◌⊎◌, inl, inr, Option-cases, Bool-cases, length-append,
}
use go_anansi.Cache.{Item}
use go_anansi.Cache.Items.{found, has, prev_from, back_from}
use go_anansi.Cache.Items.Laws.{unique, found-has, has-found}

module _ {T : Type 0} where
  -- the items of the first list put before the second, the last first
  abbrev pub onto : List (Item T) → List (Item T) → List (Item T)
  onto [] ys = ys
  onto (x ∷ xs) ys = onto xs (x ∷ ys)

  abbrev pub any_unread : List (Item T) → Bool
  any_unread [] = false
  any_unread (x ∷ xs) = not x.accessed || any_unread xs

  abbrev pub disjoint : List (Item T) → List (Item T) → Bool
  disjoint [] ys = true
  disjoint (x ∷ xs) ys = not (has x.key ys) && disjoint xs ys

  -- the key before the ones that follow a reversed list
  abbrev pub last_key : Option String → List (Item T) → Option String
  last_key p [] = p
  last_key p (x ∷ xs) = some x.key

  pub append_nil : (xs : List (Item T)) → xs ++ [] ≡ xs
  append_nil [] = refl
  append_nil (x ∷ xs) = ap (λ (zs : List (Item T)). x ∷ zs) (append_nil xs)

  pub onto_append : (rp ys zs : List (Item T)) → onto rp (ys ++ zs) ≡ onto rp ys ++ zs
  onto_append [] ys zs = refl
  onto_append (x ∷ rp) ys zs = onto_append rp (x ∷ ys) zs

  pub onto-onto : (rp ys zs : List (Item T)) → onto (onto rp ys) zs ≡ onto ys (rp ++ zs)
  onto-onto [] ys zs = refl
  onto-onto (x ∷ rp) ys zs = onto-onto rp (x ∷ ys) zs

  has-onto : (k : String) (rp ys : List (Item T)) → has k (onto rp ys) ≡ (has k rp || has k ys)
  has-onto k [] ys = refl
  has-onto k (x ∷ rp) ys = ground (arith, has-onto k rp (x ∷ ys))

  has-append : (k : String) (xs ys : List (Item T)) → has k (xs ++ ys) ≡ (has k xs || has k ys)
  has-append k [] ys = refl
  has-append k (x ∷ xs) ys = ground (arith, has-append k xs ys)

  any_unread-onto :
      (rp ys : List (Item T)) → any_unread (onto rp ys) ≡ (any_unread rp || any_unread ys)
  any_unread-onto [] ys = refl
  any_unread-onto (x ∷ rp) ys = ground (arith, any_unread-onto rp (x ∷ ys))

  any_unread-append :
      (xs ys : List (Item T)) → any_unread (xs ++ ys) ≡ (any_unread xs || any_unread ys)
  any_unread-append [] ys = refl
  any_unread-append (x ∷ xs) ys = ground (arith, any_unread-append xs ys)

  length-onto : (rp ys : List (Item T)) → length (onto rp ys) ≡ length rp + length ys
  length-onto [] ys = omega arith
  length-onto (x ∷ rp) ys = omega (arith, length-onto rp (x ∷ ys))

  disjoint-nil : (xs : List (Item T)) → disjoint xs [] ≡ true
  disjoint-nil [] = refl
  disjoint-nil (x ∷ xs) = ground (arith, disjoint-nil xs)

  pub disjoint-cons :
      (xs ys : List (Item T)) (y : Item T)
      → disjoint xs (y ∷ ys) ≡ (not (has y.key xs) && disjoint xs ys)
  disjoint-cons [] ys y = refl
  disjoint-cons (x ∷ xs) ys y =
      ground (arith, disjoint-cons xs ys y, eq_iff x.key y.key, eq_iff y.key x.key)

  disjoint-onto :
      (xs rp ys : List (Item T)) → disjoint xs (onto rp ys) ≡ (disjoint xs rp && disjoint xs ys)
  disjoint-onto xs [] ys = ground (arith, disjoint-nil xs)
  disjoint-onto xs (y ∷ rp) ys =
      ground (arith, disjoint-onto xs rp (y ∷ ys), disjoint-cons xs ys y, disjoint-cons xs rp y)

  pub unique-onto :
      (rp ys : List (Item T)) → unique (onto rp ys) ≡ (unique rp && (unique ys && disjoint rp ys))
  unique-onto [] ys = ground arith
  unique-onto (x ∷ rp) ys = ground (arith, unique-onto rp (x ∷ ys), disjoint-cons rp ys x)

  unique-append :
      (xs ys : List (Item T)) → unique (xs ++ ys) ≡ (unique xs && (unique ys && disjoint xs ys))
  unique-append [] ys = ground arith
  unique-append (x ∷ xs) ys = ground (arith, unique-append xs ys, has-append x.key xs ys)

  pub found-onto :
      (k : String) (rp ys : List (Item T)) → has k rp ≡ false → found k (onto rp ys) ≡ found k ys
  found-onto k [] ys h = refl
  found-onto k (x ∷ rp) ys h = ground (arith, found-onto k rp (x ∷ ys), h)

  pub prev-onto :
      (p : Option String) (k : String) (rp ys : List (Item T))
      → has k rp ≡ false
      → prev_from p k (onto rp ys) ≡ prev_from (last_key p rp) k ys
  prev-onto p k [] ys h = refl
  prev-onto p k (x ∷ rp) ys h = ground (arith, prev-onto p k rp (x ∷ ys), h)

  pub back-onto :
      (p : Option String) (rp : List (Item T)) (y : Item T) (ys : List (Item T))
      → back_from p (onto rp (y ∷ ys)) ≡ back_from (some y.key) ys
  back-onto p [] y ys = refl
  back-onto p (x ∷ rp) y ys = back-onto p rp x (y ∷ ys)

  has_equal : (j k : String) (xs : List (Item T)) → str_eq j k ≡ true → has j xs ≡ has k xs
  has_equal j k xs h = ap (λ i. has i xs) ((eq_iff j k).0 h)

  found-onto_left :
      (k : String) (rp ys : List (Item T)) (i : Item T)
      → unique rp ≡ true
      → found k rp ≡ some i
      → found k (onto rp ys) ≡ some i
  found-onto_left k [] ys i u h = absurd (ground (arith, h))
  found-onto_left k (x ∷ rp) ys i u h =
      ground
        (arith, h, u, found-onto k rp (x ∷ ys), found-onto_left k rp (x ∷ ys) i, eq_iff x.key k)

  found-reversed :
      (k : String) (post : List (Item T)) (i : Item T)
      → unique post ≡ true
      → found k (onto post []) ≡ some i
      → found k post ≡ some i
  found-reversed k post i u h = elim (Option-cases (found k post)) [
    | inl e ↦
        absurd (
          ground (arith, h, has-onto k post [], has-found k post e, found-has k (onto post []) i h))
    | inr e ↦ e.1 ∙ sym (found-onto_left k post [] e.0 u e.1) ∙ h
  ]

  found-append :
      (k : String) (xs ys : List (Item T)) (i : Item T)
      → found k (xs ++ ys) ≡ some i
      → (found k xs ≡ some i) ⊎ ((has k xs ≡ false) × (found k ys ≡ some i))
  found-append k [] ys i h = inr (refl, h)
  found-append k (x ∷ xs) ys i h = ground (arith, h, found-append k xs ys i)

  -- The order of the scan, where the hand is at `x`, which stands between the others.
  abbrev pub cycle : List (Item T) → Item T → List (Item T) → List (Item T)
  cycle rp x post = x ∷ (rp ++ onto post [])

  pub cycle-found :
      (rp : List (Item T)) (x : Item T) (post : List (Item T)) (k : String) (i : Item T)
      → unique (onto rp (x ∷ post)) ≡ true
      → found k (cycle rp x post) ≡ some i
      → found k (onto rp (x ∷ post)) ≡ some i
  cycle-found rp x post k i u h =
      let whole = unique-onto rp (x ∷ post) in
      elim (Bool-cases (str_eq x.key k)) [
        | inl e ↦ ground (
          arith,
          h,
          e,
          u,
          whole,
          found-onto k rp (x ∷ post),
          disjoint-cons rp post x,
          has_equal x.key k rp,
        )
        | inr e ↦ elim (found-append k rp (onto post []) i (ground (arith, h, e))) [
          | inl l ↦ found-onto_left k rp (x ∷ post) i (ground (arith, u, whole)) l
          | inr r ↦ ground (
            arith,
            e,
            found-onto k rp (x ∷ post) r.0,
            found-reversed k post i (ground (arith, u, whole)) r.1,
          )
        ]
      ]

  pub cycle-unique :
      (rp : List (Item T)) (x : Item T) (post : List (Item T))
      → unique (onto rp (x ∷ post)) ≡ true
      → unique (cycle rp x post) ≡ true
  cycle-unique rp x post u = ground (
    arith,
    u,
    unique-onto rp (x ∷ post),
    unique-append rp (onto post []),
    unique-onto post [],
    disjoint-onto rp post [],
    disjoint-cons rp post x,
    disjoint-nil post,
    disjoint-nil rp,
    has-append x.key rp (onto post []),
    has-onto x.key post [],
  )

  pub cycle-any_unread :
      (rp : List (Item T)) (x : Item T) (post : List (Item T))
      → any_unread (cycle rp x post) ≡ any_unread (onto rp (x ∷ post))
  cycle-any_unread rp x post = ground (
    arith,
    any_unread-onto rp (x ∷ post),
    any_unread-append rp (onto post []),
    any_unread-onto post [],
  )

  pub length-cycle :
      (rp : List (Item T)) (x : Item T) (post : List (Item T))
      → length (cycle rp x post) ≡ length (onto rp (x ∷ post))
  length-cycle rp x post =
      omega (arith, length-onto rp (x ∷ post), length-append rp (onto post []), length-onto post [])
