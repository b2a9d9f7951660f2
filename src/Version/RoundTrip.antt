-- ===== src/Version/RoundTrip.antt =====
-- Version strings of core/common/version.go: what StringWithRegistry prints, Parse reads.
use go_anansi.Prelude.{
  ℕ, ◌^◌, ◌<◌, Bool, true, false, ◌≡◌, ◌≢◌, ◌⊎◌, inl, inr, refl, sym, ap, ◌∙◌, arith, ◌==◌, Option,
  none, some, [], ◌∷◌, ◌++◌,
}
use mathlib.Core.List.{append_assoc}
use go_anansi.Prelude.Result.{ok}
use go_anansi.Version.{Version, rank_stable}
use go_anansi.Version.Text.{Str, dot, hyphen, plus, split, cut, to_lower, decimal, trim_space}
use go_anansi.Version.Text.{trim_prefix, is_digit}
use go_anansi.Version.Text.Split.{excludes, excludes-append, split-excludes, split-append}
use go_anansi.Version.Text.Split.{cut-excludes, cut-append, tight, tight-append, trim_space-tight}
use go_anansi.Version.Text.Decimal.{numeric, numeric-excludes, digit_not_space, decimal_first}
use go_anansi.Version.Text.Decimal.{atoi-decimal, decimal-tight}
use go_anansi.Version.Registry.{VersionRegistry, parse, parse_parts, parse_tag, tag_rank, tag_name}
use go_anansi.Version.Registry.{string_with_registry}

module _ (lower : ℕ → ℕ) (r : VersionRegistry) where
  -- The registry's name of the version's rank leads back to it, in lower case and without the
  -- characters that end a tag.
  pub record IsNamed (v : Version) : Type 0 where
    pub no_dot : excludes dot (tag_name r.tags v.tag_type) ≡ true
    pub no_plus : excludes plus (tag_name r.tags v.tag_type) ≡ true
    pub is_lower : to_lower lower (tag_name r.tags v.tag_type) ≡ tag_name r.tags v.tag_type
    pub looked_up : tag_rank r.tags (tag_name r.tags v.tag_type) ≡ some v.tag_type

-- Numbers that are not negative, as `int`.
pub record IsCounted (v : Version) : Type 0 where
  pub major_counted : v.major < 2 ^ 63
  pub minor_counted : v.minor < 2 ^ 63
  pub patch_counted : v.patch < 2 ^ 63
  pub tag_counted : v.tag_version < 2 ^ 63

excludes_cons :
    (sep c : ℕ) (s : Str) → (c == sep) ≡ false → excludes sep s ≡ true → excludes sep (c ∷ s) ≡ true
unfolding excludes
excludes_cons sep c s h k = rw (h, k)

decimal-excludes : (sep x : ℕ) → is_digit sep ≡ false → x < 2 ^ 63 → excludes sep (decimal x) ≡ true
decimal-excludes sep x d h =
    let (c, cs, e, n) = decimal_first x h in rw e (numeric-excludes sep (c ∷ cs) d n)

base : Version → Str
base v = decimal v.major ++ (dot ∷ decimal v.minor ++ (dot ∷ decimal v.patch))

parse_parts-base :
    (v : Version) → IsCounted v → parse_parts (split dot (base v)) ≡ ok (v.major, v.minor, v.patch)
unfolding parse_parts base
parse_parts-base v c = rw (
  split-append dot (decimal v.major) (decimal v.minor ++ (dot ∷ decimal v.patch))
      (decimal-excludes dot v.major refl c.major_counted),
  split-append dot (decimal v.minor) (decimal v.patch)
      (decimal-excludes dot v.minor refl c.minor_counted),
  split-excludes dot (decimal v.patch) (decimal-excludes dot v.patch refl c.patch_counted),
  atoi-decimal v.major (omega (arith, c)),
  atoi-decimal v.minor (omega (arith, c)),
  atoi-decimal v.patch (omega (arith, c)),
)

base-excludes : (v : Version) → IsCounted v → excludes hyphen (base v) ≡ true
unfolding base excludes
base-excludes v c =
    excludes-append hyphen (decimal v.major) (dot ∷ decimal v.minor ++ (dot ∷ decimal v.patch))
      (decimal-excludes hyphen v.major refl c.major_counted)
      (excludes-append hyphen (decimal v.minor) (dot ∷ decimal v.patch)
        (decimal-excludes hyphen v.minor refl c.minor_counted)
        (decimal-excludes hyphen v.patch refl c.patch_counted))

base-tight : (v : Version) → tight (base v) ≡ true
unfolding base
base-tight v =
    tight-append (decimal v.major) _
      (tight-append (dot ∷ decimal v.minor) _ (tight-append (dot ∷ []) _ (decimal-tight v.patch)))

-- Nothing is trimmed off text that begins with a number and ends tight.
clean :
    (x : ℕ) (t : Str)
    → x < 2 ^ 63
    → tight (decimal x ++ t) ≡ true
    → trim_prefix 0x56 (trim_prefix 0x76 (trim_space (decimal x ++ t))) ≡ decimal x ++ t
unfolding trim_prefix numeric
clean x t h e =
    let (c, cs, p, n) = decimal_first x h in
    let d : is_digit c ≡ true = ground (arith, n) in
    let trimmed =
      trim_space-tight c (cs ++ t) (digit_not_space c d)
        (ap (λ (s : Str). tight (s ++ t)) (sym p) ∙ e) in
    rw (p, trimmed) (ground (arith, d))

parse_tag-name :
    (lower : ℕ → ℕ) (r : VersionRegistry) (v : Version)
    → IsCounted v
    → IsNamed lower r v
    → parse_tag lower r (some (tag_name r.tags v.tag_type ++ (dot ∷ decimal v.tag_version)))
      ≡ (v.tag_type, v.tag_version)
unfolding parse_tag
parse_tag-name lower r v c n =
    let number = decimal v.tag_version in
    let after_dot : excludes plus (dot ∷ number) ≡ true =
      excludes_cons plus dot number refl (decimal-excludes plus v.tag_version refl c.tag_counted) in
    rw
      (
        cut-excludes plus (tag_name r.tags v.tag_type ++ (dot ∷ number))
            (excludes-append plus (tag_name r.tags v.tag_type) (dot ∷ number) n.no_plus after_dot),
        split-append dot (tag_name r.tags v.tag_type) number n.no_dot,
        split-excludes dot number (decimal-excludes dot v.tag_version refl c.tag_counted),
        n.is_lower,
        n.looked_up,
      )
      (ap (λ (p : ℕ × Bool). (v.tag_type, p.0)) (atoi-decimal v.tag_version (omega (arith, c))))

-- Parse on text with nothing to trim, by its parts.
parse_lem :
    (lower : ℕ → ℕ) (r : VersionRegistry) (v : Version) (s : Str) (after : Option Str)
    → IsCounted v
    → trim_prefix 0x56 (trim_prefix 0x76 (trim_space s)) ≡ s
    → cut hyphen s ≡ (base v, after)
    → parse_tag lower r after ≡ (v.tag_type, v.tag_version)
    → parse lower r s ≡ ok v
unfolding parse
parse_lem lower r v s after c e d t = rw (e, d, parse_parts-base v c, t) refl

-- Parse reads back what StringWithRegistry prints, for a version whose numbers are not negative,
-- and which is stable without a tag number, or has a rank that is not the stable one and whose name
-- in the registry leads back to it, is in lower case, and has no dot and no plus.
pub parse-string :
    (lower : ℕ → ℕ) (r : VersionRegistry) (v : Version)
    → IsCounted v
    → ((v.tag_type ≡ rank_stable) × (v.tag_version ≡ 0))
      ⊎ ((v.tag_type ≢ rank_stable) × IsNamed lower r v)
    → parse lower r (string_with_registry r v) ≡ ok v
unfolding string_with_registry parse_tag base
parse-string lower r v c (inl (stable, zero_tag)) =
    let e : (v.tag_type == rank_stable) ≡ true = ground (arith, stable) in
    rw e (
      parse_lem lower r v (base v) none c (clean v.major _ c.major_counted (base-tight v))
        (cut-excludes hyphen (base v) (base-excludes v c)) (rw (stable, zero_tag)))
parse-string lower r v c (inr (unstable, n)) =
    let e : (v.tag_type == rank_stable) ≡ false = ground (arith, unstable) in
    let tag = tag_name r.tags v.tag_type ++ (dot ∷ decimal v.tag_version) in
    let minor_on = dot ∷ decimal v.minor ++ (dot ∷ decimal v.patch) in
    let whole = append_assoc (decimal v.major) minor_on (hyphen ∷ tag) in
    let ends : tight (decimal v.major ++ (minor_on ++ (hyphen ∷ tag))) ≡ true =
      ap tight (sym whole)
      ∙ tight-append (base v) _ (
          tight-append (hyphen ∷ tag_name r.tags v.tag_type) _
            (tight-append (dot ∷ []) _ (decimal-tight v.tag_version))) in
    rw e (
      parse_lem lower r v (base v ++ (hyphen ∷ tag)) (some tag) c
        (rw whole (clean v.major (minor_on ++ (hyphen ∷ tag)) c.major_counted ends))
        (cut-append hyphen (base v) tag (base-excludes v c)) (parse_tag-name lower r v c n))
