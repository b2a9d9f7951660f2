-- ===== src/Version/Text/Decimal.antt =====
-- Decimal numbers: what `%d` prints is read back by Atoi.
use native.Mathlib.Nat.{le_refl}
use go_anansi.Prelude.{
  ℕ, zero, suc, ◌+◌, ◌*◌, ◌/◌, ◌%◌, ◌^◌, ◌≤◌, ◌<◌, Bool, true, false, ◌&&◌, [], ◌∷◌, ◌++◌, ◌≡◌,
  refl, ap, sym, ◌∙◌, arith, ltb, lt→ltb, ◌-◌, inl, inr, Bool-cases,
}
use go_anansi.Version.Text.{
  Str, Parsed, value, bad_syntax, out_of_range, hyphen, is_digit, is_space, digits, decimal,
  parse_uint,
}
use go_anansi.Version.Text.{atoi, parse_magnitude}
use go_anansi.Version.Text.Split.{excludes, tight, tight-append}

unfoldable pub numeric : Str → Bool
numeric [] = true
numeric (c ∷ cs) = is_digit c && numeric cs

pub numeric-excludes :
    (sep : ℕ) (s : Str) → is_digit sep ≡ false → numeric s ≡ true → excludes sep s ≡ true
unfolding numeric excludes
numeric-excludes sep [] d h = refl
numeric-excludes sep (c ∷ cs) d h = ground (arith, numeric-excludes sep cs)

pub digit_not_space : (c : ℕ) → is_digit c ≡ true → is_space c ≡ false
unfolding is_space
digit_not_space c h = ground arith

pub numeric-tight : (c : ℕ) (cs : Str) → numeric (c ∷ cs) ≡ true → tight (c ∷ cs) ≡ true
unfolding numeric tight
numeric-tight c [] h = ground (arith, digit_not_space c)
numeric-tight c (d ∷ rest) h = ground (arith, numeric-tight d rest)

numeric-append : (s t : Str) → numeric s ≡ true → numeric t ≡ true → numeric (s ++ t) ≡ true
unfolding numeric
numeric-append [] t h k = k
numeric-append (c ∷ cs) t h k = ground (arith, numeric-append cs t)

numeric-digits : (fuel n : ℕ) → numeric (digits fuel n) ≡ true
unfolding digits numeric
numeric-digits zero n = ground arith
numeric-digits (suc fuel) n = elim (Bool-cases (ltb n 10)) [
  | inl e ↦ rw e (ground (arith, e))
  | inr e ↦ rw e (
      numeric-append (digits fuel (n / 10)) ((0x30 + n % 10) ∷ []) (numeric-digits fuel (n / 10))
        (ground arith))
]

resume : Parsed → Str → Parsed
resume (value n) t = parse_uint n t
resume bad_syntax t = bad_syntax
resume out_of_range t = out_of_range

parse_uint-append :
    (n : ℕ) (s t : Str) (m : ℕ) → parse_uint n s ≡ value m → parse_uint n (s ++ t) ≡ parse_uint m t
unfolding parse_uint resume
parse_uint-append n [] t m h = ap (λ (p : Parsed). resume p t) h
parse_uint-append n (c ∷ cs) t m h = ground (arith, parse_uint-append (n * 10 + (c - 0x30)) cs t m)

parse_uint-digits : (fuel n : ℕ) → n ≤ fuel → n < 2 ^ 64 → parse_uint 0 (digits fuel n) ≡ value n
unfolding digits parse_uint
parse_uint-digits zero n h b = ground arith
parse_uint-digits (suc fuel) n h b = ground (
  arith,
  parse_uint-digits fuel (n / 10),
  parse_uint-append 0 (digits fuel (n / 10)) ((0x30 + n % 10) ∷ []) (n / 10),
)

-- The digits of a number begin with one.
pub digits_first :
    (fuel n : ℕ) → (c : ℕ) × (cs : Str) × (digits fuel n ≡ c ∷ cs) × (is_digit c ≡ true)
unfolding digits numeric
digits_first zero n = (_, _, refl, ground arith)
digits_first (suc fuel) n =
    let (c, cs, e, d) = digits_first fuel (n / 10) in
    elim (Bool-cases (ltb n 10)) [
      | inl small ↦ (0x30 + n, [], rw small, ground (arith, small))
      | inr big ↦ (c, cs ++ ((0x30 + n % 10) ∷ []), rw (big, e), d)
    ]

atoi-digits : (x : ℕ) → x < 2 ^ 63 → atoi (digits x x) ≡ (x, true)
unfolding atoi parse_magnitude
atoi-digits x h =
    let (c, cs, e, d) = digits_first x x in
    let parsed = parse_uint-digits x x (le_refl x) (omega arith) in
    rw e (ground (arith, parsed, ap (parse_uint 0) e))

atoi-minus : (x : ℕ) → x ≤ 2 ^ 63 → atoi (hyphen ∷ digits x x) ≡ ((2 ^ 64 - x) % 2 ^ 64, true)
unfolding atoi parse_magnitude
atoi-minus x h =
    let (c, cs, e, d) = digits_first x x in
    let parsed = parse_uint-digits x x (le_refl x) (omega arith) in
    rw e (ground (arith, parsed, ap (parse_uint 0) e))

digits-tight : (fuel n : ℕ) → tight (digits fuel n) ≡ true
digits-tight fuel n =
    let (c, cs, e, d) = digits_first fuel n in
    rw e (numeric-tight c cs (ap numeric (sym e) ∙ numeric-digits fuel n))

-- What `%d` prints for any 64-bit pattern, Atoi reads.
pub atoi-decimal : (x : ℕ) → x < 2 ^ 64 → atoi (decimal x) ≡ (x, true)
unfolding decimal
atoi-decimal x h = elim (Bool-cases (ltb x (2 ^ 63))) [
  | inl e ↦ rw e (atoi-digits x (ground (arith, e)))
  | inr e ↦
      rw e (
        atoi-minus (2 ^ 64 - x) (ground (arith, e)) ∙ ap (λ (t : ℕ). (t, true)) (ground (arith, e)))
]

-- The shape of what is printed for a number that is not negative.
pub decimal_first :
    (x : ℕ) → x < 2 ^ 63 → (c : ℕ) × (cs : Str) × (decimal x ≡ c ∷ cs) × (numeric (c ∷ cs) ≡ true)
unfolding decimal
decimal_first x h =
    let (c, cs, e, d) = digits_first x x in
    (c, cs, rw (lt→ltb x (2 ^ 63) h, e), ap numeric (sym e) ∙ numeric-digits x x)

-- What is printed ends in a digit, also behind other text.
pub decimal-tight : (x : ℕ) → tight (decimal x) ≡ true
unfolding decimal
decimal-tight x = elim (Bool-cases (ltb x (2 ^ 63))) [
  | inl e ↦ rw e (digits-tight x x)
  | inr e ↦ rw e (tight-append (hyphen ∷ []) _ (digits-tight (2 ^ 64 - x) (2 ^ 64 - x)))
]
