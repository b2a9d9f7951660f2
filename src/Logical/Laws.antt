-- ===== src/Logical/Laws.antt =====
-- `Evaluate` of core/common/logical_operators.go against a counting specification.
use mathlib.Core.List.{Perm, Permᴰ}
use mathlib.Core.Logic.{∥∥₁_elim}
use mathlib.Core.HLevel.{×_prop}
use native.Mathlib.Nat.{ℕ_set}
use go_anansi.Prelude.{ℕ, zero, suc, ◌+◌, ◌%◌, ◌≤◌, ◌≡◌, refl, ◌∙◌, arith}
use go_anansi.Prelude.{Bool, true, false, List, [], ◌∷◌, length, ◌==◌, ltb, if◌then◌else◌}
use go_anansi.Prelude.Result.{Result, ok, err}
use go_anansi.Logical.{
  LogicalOperator, logical_and, logical_or, logical_not, logical_nor, logical_xor, logical_nand,
  logical_xnor, other, LogicalError, empty_conditions, invalid_not_operand, invalid_operator,
  first_hit, true_count, evaluate_not, evaluate_conditions, evaluate,
}

-- how many of the conditions hold
abbrev pub trues : List Bool → ℕ
trues [] = 0
trues (true ∷ rest) = suc (trues rest)
trues (false ∷ rest) = trues rest

-- What each operator promises of `n` conditions of which `k` hold.
abbrev pub meaning : LogicalOperator → ℕ → ℕ → Result LogicalError Bool
meaning o zero k = err empty_conditions
meaning logical_and (suc n) k = ok (k == suc n)
meaning logical_or (suc n) k = ok (ltb 0 k)
meaning logical_not (suc n) k = if n == 0 then ok (k == 0) else err invalid_not_operand
meaning logical_nor (suc n) k = ok (k == 0)
meaning logical_xor (suc n) k = ok (k == 1)
meaning logical_nand (suc n) k = ok (ltb k (suc n))
meaning logical_xnor (suc n) k = ok (k % 2 == 0)
meaning (other b) (suc n) k = err invalid_operator

pub trues-le-length : (cs : List Bool) → trues cs ≤ length cs
trues-le-length [] = omega arith
trues-le-length (true ∷ cs) = omega (arith, trues-le-length cs)
trues-le-length (false ∷ cs) = omega (arith, trues-le-length cs)

true_count-eq-trues : (n : ℕ) (cs : List Bool) → true_count n cs ≡ n + trues cs
unfolding true_count
true_count-eq-trues n [] = omega arith
true_count-eq-trues n (true ∷ cs) = omega (arith, true_count-eq-trues (n + 1) cs)
true_count-eq-trues n (false ∷ cs) = true_count-eq-trues n cs

first_hit-true :
    (stop done : Bool) (cs : List Bool)
    → first_hit true stop done cs ≡ (if trues cs == 0 then done else stop)
unfolding first_hit
first_hit-true stop done [] = refl
first_hit-true stop done (true ∷ cs) = ground arith
first_hit-true stop done (false ∷ cs) = first_hit-true stop done cs

first_hit-false :
    (stop done : Bool) (cs : List Bool)
    → first_hit false stop done cs ≡ (if trues cs == length cs then done else stop)
unfolding first_hit
first_hit-false stop done [] = refl
first_hit-false stop done (true ∷ cs) = ground (arith, first_hit-false stop done cs)
first_hit-false stop done (false ∷ cs) = ground (arith, trues-le-length cs)

evaluate_not_lem :
    (c : Bool) (cs : List Bool)
    → evaluate_not (c ∷ cs) ≡ meaning logical_not (suc (length cs)) (trues (c ∷ cs))
unfolding evaluate_not
evaluate_not_lem true [] = refl
evaluate_not_lem false [] = refl
evaluate_not_lem true (d ∷ cs) = ground arith
evaluate_not_lem false (d ∷ cs) = ground arith

-- On every operator and every list of conditions, Evaluate gives what the number of conditions and
-- the number of true ones among them determine, errors included.
pub evaluate-eq-meaning :
    (o : LogicalOperator) (cs : List Bool) → evaluate o cs ≡ meaning o (length cs) (trues cs)
unfolding evaluate evaluate_conditions
evaluate-eq-meaning o [] = refl
evaluate-eq-meaning logical_and (c ∷ cs) = ground (arith, first_hit-false false true (c ∷ cs))
evaluate-eq-meaning logical_or (c ∷ cs) = ground (arith, first_hit-true true false (c ∷ cs))
evaluate-eq-meaning logical_not (c ∷ cs) = evaluate_not_lem c cs
evaluate-eq-meaning logical_nor (c ∷ cs) = ground (arith, first_hit-true false true (c ∷ cs))
evaluate-eq-meaning logical_xor (c ∷ cs) = ground (arith, true_count-eq-trues 0 (c ∷ cs))
evaluate-eq-meaning logical_nand (c ∷ cs) =
    ground (arith, first_hit-false true false (c ∷ cs), trues-le-length (c ∷ cs))
evaluate-eq-meaning logical_xnor (c ∷ cs) = ground (arith, true_count-eq-trues 0 (c ∷ cs))
evaluate-eq-meaning (other b) (c ∷ cs) = refl

abbrev one_if : Bool → ℕ
one_if true = 1
one_if false = 0

trues-cons : (c : Bool) (cs : List Bool) → trues (c ∷ cs) ≡ one_if c + trues cs
trues-cons true cs = omega arith
trues-cons false cs = omega arith

abbrev SameCount : List Bool → List Bool → Type 0
SameCount cs ds = (trues cs ≡ trues ds) × (length cs ≡ length ds)

Permᴰ-SameCount : {cs ds : List Bool} → Permᴰ cs ds → SameCount cs ds
Permᴰ-SameCount Permᴰ.nil = (refl, refl)
Permᴰ-SameCount (Permᴰ.cons {b = b} {l₁ = l} {l₂ = m} e p) =
    rw e (omega (arith, Permᴰ-SameCount p, trues-cons b l, trues-cons b m))
Permᴰ-SameCount (Permᴰ.swap {a} {b} {l = l} e f) =
    rw (← e, ← f)
      (omega (arith, trues-cons a (b ∷ l), trues-cons b l, trues-cons b (a ∷ l), trues-cons a l))
Permᴰ-SameCount (Permᴰ.trans p q) =
    let (t, n) = Permᴰ-SameCount p in let (u, m) = Permᴰ-SameCount q in (t ∙ u, n ∙ m)

-- The order of the conditions does not matter to Evaluate, whichever operator it is given.
pub evaluate-perm :
    (o : LogicalOperator) (cs ds : List Bool) → Perm cs ds → evaluate o cs ≡ evaluate o ds
evaluate-perm o cs ds p =
    let same : SameCount cs ds =
      ∥∥₁_elim p (×_prop (ℕ_set _ _) (ℕ_set _ _)) (λ q. Permᴰ-SameCount q) in
    rw (evaluate-eq-meaning o cs, evaluate-eq-meaning o ds, same.0, same.1)
