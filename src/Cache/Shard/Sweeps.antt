-- ===== src/Cache/Shard/Sweeps.antt =====
-- core/cache/cache.go, sweepExpiredBounded: what is reaped.
use Prim.Native.String.{String}
use go_anansi.Prelude.{ℕ, zero, suc, Bool, false, Option, none, some, List, [], ◌∷◌, if◌then◌else◌}
use go_anansi.Cache.{Item, expired}

module _ {T : Type 0} where
  -- `rp` without the expired ones of its first `n`
  unfoldable pub reaped : ℕ → ℕ → List (Item T) → List (Item T)
  reaped now zero rp = rp
  reaped now (suc n) [] = []
  reaped now (suc n) (x ∷ rp) =
      let rest = reaped now n rp in if expired now x then rest else (x ∷ rest)

  -- how many there are
  unfoldable pub reaped_count : ℕ → ℕ → List (Item T) → ℕ
  reaped_count now zero rp = 0
  reaped_count now (suc n) [] = 0
  reaped_count now (suc n) (x ∷ rp) =
      let rest = reaped_count now n rp in if expired now x then suc rest else rest

  abbrev expired_flag : ℕ → Option (Item T) → Bool
  expired_flag now o = elim o [ none ↦ false | some it ↦ expired now it ]
