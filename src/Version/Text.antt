-- ===== src/Version/Text.antt =====
-- What core/common/version.go uses of `strings`, `strconv` and `fmt`. A string is the list of its
-- code points.
pub mod Decimal
pub mod Split
use go_anansi.Prelude.{
  ℕ, zero, suc, ◌+◌, ◌-◌, ◌*◌, ◌/◌, ◌%◌, ◌^◌, Bool, true, false, ◌&&◌, ◌||◌, Option, none, some,
  List, [], ◌∷◌, ◌++◌, map, ltb, leb, ◌==◌, if◌then◌else◌,
}

abbrev pub Str : Type 0
Str = List ℕ

abbrev pub dot : ℕ
dot = 0x2E

abbrev pub hyphen : ℕ
hyphen = 0x2D

abbrev pub plus : ℕ
plus = 0x2B

abbrev pub is_digit : ℕ → Bool
is_digit c = leb 0x30 c && leb c 0x39

-- `unicode.IsSpace`
unfoldable pub is_space : ℕ → Bool
is_space c =
    (leb 0x09 c && leb c 0x0D)
    || (c == 0x20)
    || (c == 0x85)
    || (c == 0xA0)
    || (c == 0x1680)
    || (leb 0x2000 c && leb c 0x200A)
    || (c == 0x2028)
    || (c == 0x2029)
    || (c == 0x202F)
    || (c == 0x205F)
    || (c == 0x3000)

unfoldable pub trim_left : Str → Str
trim_left [] = []
trim_left (c ∷ cs) = let rest = trim_left cs in if is_space c then rest else c ∷ cs

abbrev pub keep_before : ℕ → Str → Str
keep_before c [] = if is_space c then [] else c ∷ []
keep_before c (d ∷ rest) = c ∷ d ∷ rest

unfoldable pub trim_right : Str → Str
trim_right [] = []
trim_right (c ∷ cs) = keep_before c (trim_right cs)

unfoldable pub trim_space : Str → Str
trim_space s = trim_right (trim_left s)

-- `strings.TrimPrefix` of one character
unfoldable pub trim_prefix : ℕ → Str → Str
trim_prefix p [] = []
trim_prefix p (c ∷ cs) = if c == p then cs else c ∷ cs

abbrev pub put_first : ℕ → List Str → List Str
put_first c [] = (c ∷ []) ∷ []
put_first c (part ∷ parts) = (c ∷ part) ∷ parts

-- `strings.Split` at one character: at least one part
unfoldable pub split : ℕ → Str → List Str
split sep [] = [] ∷ []
split sep (c ∷ cs) = let parts = split sep cs in if c == sep then [] ∷ parts else put_first c parts

-- `strings.SplitN` with two parts: what comes before the first `sep`, and after it
unfoldable pub cut : ℕ → Str → Str × Option Str
cut sep [] = ([], none)
cut sep (c ∷ cs) =
    let (before, after) = cut sep cs in if c == sep then ([], some cs) else (c ∷ before, after)

-- `strings.ToLower`; `unicode_lower` is its table beyond ASCII.
unfoldable pub to_lower : (ℕ → ℕ) → Str → Str
to_lower unicode_lower s =
    map
      (λ (c : ℕ).
        if ltb c 0x80 then (if leb 0x41 c && leb c 0x5A then c + 32 else c) else unicode_lower c)
      s

unfoldable pub str_eq : Str → Str → Bool
str_eq [] [] = true
str_eq [] (d ∷ ds) = false
str_eq (c ∷ cs) [] = false
str_eq (c ∷ cs) (d ∷ ds) = (c == d) && str_eq cs ds

-- The outcome of `strconv.Atoi`: a number and no error, or a syntax or a range error.
pub data Parsed : Type 0 where
  value : ℕ → Parsed
  bad_syntax out_of_range : Parsed

-- the loop of `strconv.ParseUint`: a digit that takes the number over 64 bits ends it
unfoldable pub parse_uint : ℕ → Str → Parsed
parse_uint n [] = value n
parse_uint n (c ∷ cs) =
    let next = n * 10 + (c - 0x30) in
    let rest = parse_uint next cs in
    if is_digit c then (if ltb (2 ^ 64 - 1) next then out_of_range else rest) else bad_syntax

unfoldable pub parse_magnitude : Str → Parsed
parse_magnitude [] = bad_syntax
parse_magnitude (c ∷ cs) = parse_uint 0 (c ∷ cs)

-- `strconv.Atoi`: the 64-bit pattern that it returns, and whether the error is nil
abbrev pub positive : Parsed → ℕ × Bool
positive (value n) = if ltb n (2 ^ 63) then (n, true) else (2 ^ 63 - 1, false)
positive bad_syntax = (0, false)
positive out_of_range = (2 ^ 63 - 1, false)

abbrev pub negative : Parsed → ℕ × Bool
negative (value n) = if leb n (2 ^ 63) then ((2 ^ 64 - n) % 2 ^ 64, true) else (2 ^ 63, false)
negative bad_syntax = (0, false)
negative out_of_range = (2 ^ 63, false)

unfoldable pub atoi : Str → ℕ × Bool
atoi [] = (0, false)
atoi (c ∷ cs) =
    if c == hyphen
    then negative (parse_magnitude cs)
    else if c == plus
    then positive (parse_magnitude cs)
    else positive (parse_magnitude (c ∷ cs))

-- the decimal digits of a number; it has at most as many as its value and one
unfoldable pub digits : ℕ → ℕ → Str
digits zero n = (0x30 + n % 10) ∷ []
digits (suc fuel) n =
    let front = digits fuel (n / 10) in
    if ltb n 10 then (0x30 + n) ∷ [] else front ++ ((0x30 + n % 10) ∷ [])

-- `%d` of an `int`
unfoldable pub decimal : ℕ → Str
decimal x = if ltb x (2 ^ 63) then digits x x else hyphen ∷ digits (2 ^ 64 - x) (2 ^ 64 - x)
