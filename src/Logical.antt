-- ===== src/Logical.antt =====
-- core/common/logical_operators.go: the operators that combine filter conditions, their names and
-- their evaluation. A byte that names no operator is `other`. The JSON methods wrap the two name
-- tables in encoding/json.
pub mod Laws
pub mod Names
pub mod Tests
use Prim.Native.String.{String}
use text.Mathlib.Text.{◌==◌ as str_eq}
use go_anansi.Prelude.{ℕ, ◌+◌, ◌%◌, Bool, true, false, not, Option, none, some, List, [], ◌∷◌}
use go_anansi.Prelude.{◌==◌, if◌then◌else◌}
use go_anansi.Prelude.Result.{Result, ok, err}

pub data LogicalOperator : Type 0 where
  logical_and logical_or logical_not logical_nor logical_xor : LogicalOperator
  logical_nand logical_xnor : LogicalOperator
  other : ℕ → LogicalOperator

pub data LogicalError : Type 0 where
  empty_conditions invalid_not_operand invalid_operator : LogicalError

unfoldable pub logical_operator_from : String → Option LogicalOperator
logical_operator_from s =
    if str_eq s "and"
    then some logical_and
    else if str_eq s "or"
    then some logical_or
    else if str_eq s "not"
    then some logical_not
    else if str_eq s "nor"
    then some logical_nor
    else if str_eq s "xor"
    then some logical_xor
    else if str_eq s "nand"
    then some logical_nand
    else if str_eq s "xnor"
    then some logical_xnor
    else none

unfoldable pub string : LogicalOperator → String
string logical_and = "and"
string logical_or = "or"
string logical_not = "not"
string logical_nor = "nor"
string logical_xor = "xor"
string logical_nand = "nand"
string logical_xnor = "xnor"
string (other b) = ""

-- `UnmarshalJSON` on a decoded JSON string: an unknown name is an error, and the receiver is
-- written only on success.
unfoldable pub unmarshal : String → LogicalOperator → Result LogicalError LogicalOperator
unfolding logical_operator_from
unmarshal s o = elim (logical_operator_from s) [
  | some value ↦ ok value
  | none ↦ err invalid_operator
]

-- the loop that returns `stop` at the first condition equal to `b`, and `done` after the last
unfoldable pub first_hit : Bool → Bool → Bool → List Bool → Bool
first_hit b stop done [] = done
first_hit true stop done (true ∷ rest) = stop
first_hit true stop done (false ∷ rest) = first_hit true stop done rest
first_hit false stop done (true ∷ rest) = first_hit false stop done rest
first_hit false stop done (false ∷ rest) = stop

-- the loop that counts the true conditions
unfoldable pub true_count : ℕ → List Bool → ℕ
true_count n [] = n
true_count n (true ∷ rest) = true_count (n + 1) rest
true_count n (false ∷ rest) = true_count n rest

unfoldable pub evaluate_not : List Bool → Result LogicalError Bool
evaluate_not (r ∷ []) = ok (not r)
evaluate_not _ = err invalid_not_operand

unfoldable pub evaluate_conditions : LogicalOperator → List Bool → Result LogicalError Bool
unfolding first_hit true_count evaluate_not
evaluate_conditions logical_and conditions = ok (first_hit false false true conditions)
evaluate_conditions logical_or conditions = ok (first_hit true true false conditions)
evaluate_conditions logical_not conditions = evaluate_not conditions
evaluate_conditions logical_nor conditions = ok (first_hit true false true conditions)
evaluate_conditions logical_xor conditions = ok (true_count 0 conditions == 1)
evaluate_conditions logical_nand conditions = ok (first_hit false true false conditions)
evaluate_conditions logical_xnor conditions = ok (true_count 0 conditions % 2 == 0)
evaluate_conditions (other b) conditions = err invalid_operator

unfoldable pub evaluate : LogicalOperator → List Bool → Result LogicalError Bool
unfolding evaluate_conditions
evaluate o [] = err empty_conditions
evaluate o (r ∷ rest) = evaluate_conditions o (r ∷ rest)
