-- ===== src/Version/Order.antt =====
-- The order of versions in core/common/version.go: Compare against the semantic order of the
-- fields, the bumps, and Latest.
use go_anansi.Prelude.{◌+◌, ◌-◌, ◌^◌, ◌≤◌, ◌<◌, ◌≡◌, ◌⊎◌, ◌↔◌, inl, inr, refl, arith, sym, ◌∙◌, ap}
use go_anansi.Prelude.{Bool-cases, ◌≢◌, some, List, [], ◌∷◌}
use go_anansi.Prelude.Int.{pos, negsuc}
use go_anansi.Version.{
  Version, compare, pack, to_uint64, bump_major, bump_minor, bump_patch, latest,
}
use go_anansi.Version.{is_positive, max_from, new_version_from_uint64}
use mathlib.Core.List.{Memᴰ}
use mathlib.Core.List.Memᴰ.{head, tail}
use go_anansi.Version.Packing.{Fits, pack_lem, from_uint64-pack}

-- `v` comes before `w`: by the first field in which they differ.
pub Before : Version → Version → Type 0
Before v w =
    (v.major < w.major)
    ⊎ ((v.major ≡ w.major)
        × ((v.minor < w.minor)
            ⊎ ((v.minor ≡ w.minor)
                × ((v.patch < w.patch)
                    ⊎ ((v.patch ≡ w.patch)
                        × ((v.tag_type < w.tag_type)
                            ⊎ ((v.tag_type ≡ w.tag_type) × (v.tag_version < w.tag_version))))))))

-- For versions whose fields fit the packed form, Compare gives -1 exactly when the first field in
-- which they differ is smaller in the first version.
pub compare-Before :
    (v w : Version) → Fits v → Fits w → (compare (some v) (some w) ≡ negsuc 0) ↔ Before v w
unfolding compare to_uint64 Before
compare-Before v w f g = ground (arith, pack_lem v, pack_lem w)

-- For versions whose fields fit the packed form, Compare gives 0 exactly when the versions are
-- equal.
pub compare_equal :
    (v w : Version) → Fits v → Fits w → (compare (some v) (some w) ≡ pos 0) ↔ (v ≡ w)
unfolding compare to_uint64
compare_equal v w f g = (
  λ e.
      sym (from_uint64-pack v f)
      ∙ ap new_version_from_uint64 (ground (arith, e))
      ∙ from_uint64-pack w g,
  λ e. ground (arith, ap pack e),
)

pub compare-bump :
    (v : Version)
    → Fits v
    → v.major + 1 < 2 ^ 16
    → v.minor + 1 < 2 ^ 16
    → v.patch + 1 < 2 ^ 16
    → (compare (some v) (some (bump_patch v)) ≡ negsuc 0)
      × (compare (some (bump_patch v)) (some (bump_minor v)) ≡ negsuc 0)
      × (compare (some (bump_minor v)) (some (bump_major v)) ≡ negsuc 0)
unfolding compare to_uint64 bump_major bump_minor bump_patch
compare-bump v f hm hi hp =
    ground
      (arith, pack_lem v, pack_lem (bump_patch v), pack_lem (bump_minor v), pack_lem (bump_major v))

max_from-upper : (best : Version) (vs : List Version) → pack best ≤ pack (max_from best vs)
unfolding max_from compare to_uint64
max_from-upper best [] = omega arith
max_from-upper best (v ∷ rest) = ground (arith, max_from-upper best rest, max_from-upper v rest)

past : {a best v : Version} {vs : List Version} → Memᴰ a (best ∷ vs) → Memᴰ a (best ∷ v ∷ vs)
past (head e) = head e
past (tail h) = tail (tail h)

max_from-member : (best : Version) (vs : List Version) → Memᴰ (max_from best vs) (best ∷ vs)
unfolding max_from compare to_uint64
max_from-member best [] = head refl
max_from-member best (v ∷ rest) = elim (Bool-cases (is_positive (compare (some v) (some best)))) [
  | inl e ↦ rw e (tail (max_from-member v rest))
  | inr e ↦ rw e (past (max_from-member best rest))
]

max_from-bound :
    (best : Version) (vs : List Version) (w : Version)
    → Memᴰ w vs
    → pack w ≤ pack (max_from best vs)
unfolding max_from compare to_uint64
max_from-bound best [] w h = elim h [ ]
max_from-bound best (v ∷ rest) w (head e) =
    ground (arith, e, ap pack e, max_from-upper best rest, max_from-upper v rest)
max_from-bound best (v ∷ rest) w (tail h) =
    ground (arith, max_from-bound best rest w h, max_from-bound v rest w h)

below :
    (v : Version) (vs : List Version) (w : Version)
    → Memᴰ w (v ∷ vs)
    → compare (some (max_from v vs)) (some w) ≢ negsuc 0
unfolding compare to_uint64
below v vs w (head p) e = ground (arith, max_from-upper v vs, e, ap pack p)
below v vs w (tail h) e = ground (arith, max_from-bound v vs w h, e)

-- Latest of a list that is not empty is one of its versions, and compares below none of them.
pub latest_lem :
    (v : Version) (vs : List Version)
    → (m : Version) × (latest (v ∷ vs) ≡ some m)
      × Memᴰ m (v ∷ vs)
      × ((w : Version) → Memᴰ w (v ∷ vs) → compare (some m) (some w) ≢ negsuc 0)
unfolding latest compare to_uint64
latest_lem v vs = (max_from v vs, refl, max_from-member v vs, below v vs)

-- For a version whose fields fit and whose major number is 65535, the version that BumpMajor gives
-- compares below it.
pub compare-bump_major_wraps :
    (v : Version) → Fits v → v.major ≡ 2 ^ 16 - 1 → compare (some v) (some (bump_major v)) ≡ pos 1
unfolding compare to_uint64 bump_major
compare-bump_major_wraps v f h = ground (arith, pack_lem v, pack_lem (bump_major v), h)
