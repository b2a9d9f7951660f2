-- ===== src/Version/Text/Split.antt =====
-- Splitting, cutting and trimming of strings: what they do at a separator, and where there is
-- nothing to do.
use go_anansi.Prelude.{
  ℕ, Bool, true, false, ◌&&◌, not, none, some, [], ◌∷◌, ◌++◌, ◌≡◌, refl, ap, arith, ◌==◌,
}
use go_anansi.Version.Text.{Str, is_space, trim_left, trim_right, trim_space, keep_before}
use go_anansi.Version.Text.{split, cut}

-- No character is `sep`.
unfoldable pub excludes : ℕ → Str → Bool
excludes sep [] = true
excludes sep (c ∷ cs) = not (c == sep) && excludes sep cs

pub excludes-append :
    (sep : ℕ) (s t : Str)
    → excludes sep s ≡ true
    → excludes sep t ≡ true
    → excludes sep (s ++ t) ≡ true
unfolding excludes
excludes-append sep [] t h k = k
excludes-append sep (c ∷ cs) t h k = ground (arith, excludes-append sep cs t)

pub split-excludes : (sep : ℕ) (s : Str) → excludes sep s ≡ true → split sep s ≡ s ∷ []
unfolding split excludes
split-excludes sep [] h = refl
split-excludes sep (c ∷ cs) h = ground (arith, split-excludes sep cs)

pub split-append :
    (sep : ℕ) (s t : Str) → excludes sep s ≡ true → split sep (s ++ (sep ∷ t)) ≡ s ∷ split sep t
unfolding split excludes
split-append sep [] t h = ground arith
split-append sep (c ∷ cs) t h = ground (arith, split-append sep cs t)

pub cut-excludes : (sep : ℕ) (s : Str) → excludes sep s ≡ true → cut sep s ≡ (s, none)
unfolding cut excludes
cut-excludes sep [] h = refl
cut-excludes sep (c ∷ cs) h = ground (arith, cut-excludes sep cs)

pub cut-append :
    (sep : ℕ) (s t : Str) → excludes sep s ≡ true → cut sep (s ++ (sep ∷ t)) ≡ (s, some t)
unfolding cut excludes
cut-append sep [] t h = ground arith
cut-append sep (c ∷ cs) t h = ground (arith, cut-append sep cs t)

-- The last character, which there is, is no space.
unfoldable pub tight : Str → Bool
tight [] = false
tight (c ∷ []) = not (is_space c)
tight (c ∷ d ∷ rest) = tight (d ∷ rest)

pub tight-append : (s t : Str) → tight t ≡ true → tight (s ++ t) ≡ true
unfolding tight
tight-append [] t h = h
tight-append (c ∷ []) [] h = cc
tight-append (c ∷ []) (d ∷ t) h = h
tight-append (c ∷ d ∷ s) t h = tight-append (d ∷ s) t h

trim_right-tight : (s : Str) → tight s ≡ true → trim_right s ≡ s
unfolding tight trim_right
trim_right-tight [] h = cc
trim_right-tight (c ∷ []) h = ground arith
trim_right-tight (c ∷ d ∷ rest) h = ap (keep_before c) (trim_right-tight (d ∷ rest) h)

pub trim_space-tight :
    (c : ℕ) (cs : Str) → is_space c ≡ false → tight (c ∷ cs) ≡ true → trim_space (c ∷ cs) ≡ c ∷ cs
unfolding trim_space trim_left
trim_space-tight c cs h t = rw h (trim_right-tight (c ∷ cs) t)
