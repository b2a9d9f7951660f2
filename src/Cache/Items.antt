-- ===== src/Cache/Items.antt =====
-- core/cache/cache.go, the items of a shard: the list `order`, its front first, and the map `items`
-- from keys to its elements. The two hold the same items, so a list models both, and an element is
-- known by its key. `Prev` leads towards the front.
pub mod Laws
pub mod Cycle
use Prim.Native.String.{String}
use text.Mathlib.Text.{◌==◌ as str_eq}
use go_anansi.Prelude.{Bool, true, false, ◌||◌, Option, none, some, List, [], ◌∷◌, if◌then◌else◌}
use go_anansi.Cache.{Item}

module _ {T : Type 0} where
  -- `items[k]`
  abbrev pub found : String → List (Item T) → Option (Item T)
  found k [] = none
  found k (x ∷ xs) = if str_eq (x.key) k then some x else found k xs

  abbrev pub has : String → List (Item T) → Bool
  has k [] = false
  has k (x ∷ xs) = str_eq (x.key) k || has k xs

  -- the item of the element at `k` changed in place
  abbrev pub update : String → (Item T → Item T) → List (Item T) → List (Item T)
  update k f [] = []
  update k f (x ∷ xs) = (if str_eq (x.key) k then f x else x) ∷ update k f xs

  -- the list after `Remove`
  abbrev pub without : String → List (Item T) → List (Item T)
  without k [] = []
  without k (x ∷ xs) = let rest = without k xs in if str_eq (x.key) k then xs else (x ∷ rest)

  -- `Prev` of the element at `k`, where `p` is what comes before the list
  abbrev pub prev_from : Option String → String → List (Item T) → Option String
  prev_from p k [] = none
  prev_from p k (x ∷ xs) =
      let rest = prev_from (some (x.key)) k xs in if str_eq (x.key) k then p else rest

  abbrev pub prev : String → List (Item T) → Option String
  prev k xs = prev_from none k xs

  -- `Front` and `Back`
  abbrev pub front : List (Item T) → Option String
  front [] = none
  front (x ∷ xs) = some (x.key)

  abbrev pub back_from : Option String → List (Item T) → Option String
  back_from p [] = p
  back_from p (x ∷ xs) = back_from (some (x.key)) xs

  abbrev pub back : List (Item T) → Option String
  back xs = back_from none xs

  -- `Next` of the element at `k`
  abbrev pub next : String → List (Item T) → Option String
  next k [] = none
  next k (x ∷ xs) = let rest = next k xs in if str_eq (x.key) k then front xs else rest
