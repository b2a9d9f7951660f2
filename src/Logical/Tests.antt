-- ===== src/Logical/Tests.antt =====
-- Runs of core/common/logical_operators.go, and its theorems at concrete conditions.
use mathlib.Core.Path.{refl}
use go_anansi.Prelude.{◌≡◌, true, false, none, some, List, [], ◌∷◌, length, Bool}
use go_anansi.Prelude.Result.{ok, err}
use go_anansi.Logical.{
  logical_and, logical_xor, logical_xnor, logical_not, evaluate, empty_conditions,
  invalid_not_operand, logical_operator_from, unmarshal, invalid_operator,
}
use go_anansi.Logical.Laws.{evaluate-eq-meaning, meaning, trues}

abbrev two_of_three : List Bool
two_of_three = true ∷ false ∷ true ∷ []

runs :
    (evaluate logical_and two_of_three ≡ ok false)
    × (evaluate logical_xor two_of_three ≡ ok false)
    × (evaluate logical_xnor two_of_three ≡ ok true)
    × (evaluate logical_not two_of_three ≡ err invalid_not_operand)
    × (evaluate logical_and [] ≡ err empty_conditions)
unfolding evaluate
runs = (refl, refl, refl, refl, refl)

names : (logical_operator_from "xnor" ≡ some logical_xnor) × (logical_operator_from "AND" ≡ none)
unfolding logical_operator_from
names = (refl, refl)

unknown_name : unmarshal "both" logical_and ≡ err invalid_operator
unfolding unmarshal
unknown_name = refl

xor_name : logical_operator_from "xor" ≡ some logical_xor
unfolding logical_operator_from
xor_name = refl

evaluate-eq-meaning_example :
    evaluate logical_xor two_of_three
    ≡ meaning logical_xor (length two_of_three) (trues two_of_three)
evaluate-eq-meaning_example = evaluate-eq-meaning logical_xor two_of_three
