-- ===== src/Logical/Names.antt =====
-- The two name tables of core/common/logical_operators.go are inverse to one another.
use Prim.Native.String.{String}
use text.Mathlib.TextEquality.{eq_iff}
use go_anansi.Prelude.{◌≡◌, some, arith}
use go_anansi.Logical.{LogicalOperator, logical_operator_from, string}

-- The name of an operator that was looked up by a text is that text.
pub string-logical_operator_from :
    (s : String) {o : LogicalOperator} → logical_operator_from s ≡ some o → string o ≡ s
unfolding logical_operator_from string
string-logical_operator_from s h = ground (
  arith,
  eq_iff s "and",
  eq_iff s "or",
  eq_iff s "not",
  eq_iff s "nor",
  eq_iff s "xor",
  eq_iff s "nand",
  eq_iff s "xnor",
)
