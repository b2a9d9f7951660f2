-- ===== src/Cache/Items/Laws.antt =====
-- The items of a shard in core/cache/cache.go: what the changes of the list keep.
use Prim.Native.String.{String}
use text.Mathlib.Text.{◌==◌ as str_eq}
use text.Mathlib.TextEquality.{eq_iff}
use go_anansi.Prelude.{
  suc, Bool, true, false, not, ◌&&◌, Option, none, some, List, [], ◌∷◌, length, ◌≡◌, refl, ap,
  arith, if◌then◌else◌, ◌⊎◌, inl, ◌≢◌, ◌==◌,
}
use go_anansi.Cache.{Item}
use go_anansi.Cache.Items.{found, has, update, without, prev_from, back_from, next, front}

pub str_refl : (k : String) → str_eq k k ≡ true
str_refl k = (eq_iff k k).1 refl

module _ {T : Type 0} where
  -- no two items have one key
  abbrev pub unique : List (Item T) → Bool
  unique [] = true
  unique (x ∷ xs) = not (has (x.key) xs) && unique xs

  pub found-has :
      (k : String) (xs : List (Item T)) (it : Item T) → found k xs ≡ some it → has k xs ≡ true
  found-has k [] it h = ground arith
  found-has k (x ∷ xs) it h = ground (arith, found-has k xs it)

  pub has-found : (k : String) (xs : List (Item T)) → found k xs ≡ none → has k xs ≡ false
  has-found k [] h = refl
  has-found k (x ∷ xs) h = ground (arith, has-found k xs)

  pub has-without :
      (j k : String) (xs : List (Item T)) → has j xs ≡ false → has j (without k xs) ≡ false
  has-without j k [] h = refl
  has-without j k (x ∷ xs) h = ground (arith, has-without j k xs)

  pub has-without_other :
      (j k : String) (xs : List (Item T)) → str_eq k j ≡ false → has j (without k xs) ≡ has j xs
  has-without_other j k [] h = refl
  has-without_other j k (x ∷ xs) h =
      ground (arith, has-without_other j k xs h, eq_iff x.key k, eq_iff x.key j, eq_iff k j)

  pub found-without_other :
      (j k : String) (xs : List (Item T)) → str_eq k j ≡ false → found j (without k xs) ≡ found j xs
  found-without_other j k [] h = refl
  found-without_other j k (x ∷ xs) h =
      ground (arith, found-without_other j k xs h, eq_iff x.key k, eq_iff x.key j, eq_iff k j)

  pub has-without_same :
      (k : String) (xs : List (Item T)) → unique xs ≡ true → has k (without k xs) ≡ false
  has-without_same k [] u = refl
  has-without_same k (x ∷ xs) u = ground (arith, has-without_same k xs, eq_iff x.key k)

  pub unique-without :
      (k : String) (xs : List (Item T)) → unique xs ≡ true → unique (without k xs) ≡ true
  unique-without k [] u = refl
  unique-without k (x ∷ xs) u = ground (arith, unique-without k xs, has-without x.key k xs)

  pub length-without :
      (k : String) (xs : List (Item T)) → has k xs ≡ true → suc (length (without k xs)) ≡ length xs
  length-without k [] h = ground arith
  length-without k (x ∷ xs) h = ground (arith, length-without k xs)

  -- the element before another, or after it, is in the list
  pub has-prev_from :
      (p : Option String) (k j : String) (xs : List (Item T))
      → prev_from p k xs ≡ some j
      → (p ≡ some j) ⊎ (has j xs ≡ true)
  has-prev_from p k j [] h = ground arith
  has-prev_from p k j (x ∷ xs) h = ground (arith, has-prev_from (some x.key) k j xs, eq_iff x.key j)

  pub has-back_from :
      (p : Option String) (j : String) (xs : List (Item T))
      → back_from p xs ≡ some j
      → (p ≡ some j) ⊎ (has j xs ≡ true)
  has-back_from p j [] h = inl h
  has-back_from p j (x ∷ xs) h = ground (arith, has-back_from (some x.key) j xs h, eq_iff x.key j)

  back_from-some : (k : String) (xs : List (Item T)) → back_from (some k) xs ≢ none
  back_from-some k [] h = ground (arith, h)
  back_from-some k (x ∷ xs) h = back_from-some x.key xs h

  pub back-none : (xs : List (Item T)) → back_from none xs ≡ none → (length xs == 0) ≡ true
  back-none [] h = refl
  back-none (x ∷ xs) h = absurd (back_from-some x.key xs h)

  pub has-front : (j : String) (xs : List (Item T)) → front xs ≡ some j → has j xs ≡ true
  has-front j [] h = ground arith
  has-front j (x ∷ xs) h = ground (arith, eq_iff x.key j)

  pub has-next : (k j : String) (xs : List (Item T)) → next k xs ≡ some j → has j xs ≡ true
  has-next k j [] h = ground arith
  has-next k j (x ∷ xs) h = ground (arith, has-next k j xs, has-front j xs)

  abbrev pub changed : Bool → (Item T → Item T) → Option (Item T) → Option (Item T)
  changed b f none = none
  changed b f (some x) = some (if b then f x else x)

  -- A change of an item that leaves its key.
  module _ (f : Item T → Item T) (same : (x : Item T) → (f x).key ≡ x.key) where
    pub has-update : (j k : String) (xs : List (Item T)) → has j (update k f xs) ≡ has j xs
    has-update j k [] = refl
    has-update j k (x ∷ xs) = ground (arith, has-update j k xs, same x)

    pub unique-update : (k : String) (xs : List (Item T)) → unique (update k f xs) ≡ unique xs
    unique-update k [] = refl
    unique-update k (x ∷ xs) =
        ground (arith, unique-update k xs, has-update x.key k xs, has-update (f x).key k xs, same x)

    pub found-update :
        (j k : String) (xs : List (Item T))
        → found j (update k f xs) ≡ changed (str_eq k j) f (found j xs)
    found-update j k [] = ground arith
    found-update j k (x ∷ xs) =
        ground (arith, found-update j k xs, same x, eq_iff x.key k, eq_iff x.key j, eq_iff k j)

  pub length-update :
      (f : Item T → Item T) (k : String) (xs : List (Item T)) → length (update k f xs) ≡ length xs
  length-update f k [] = refl
  length-update f k (x ∷ xs) = ap suc (length-update f k xs)
