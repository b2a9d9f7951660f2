-- ===== src/Version/Address.antt =====
-- The 10-bit history addresses of core/common/version.go: two epoch bits and eight index bits, at
-- the top of a `uint16`.
use Prim.Native.Nat.{bit_and, bit_or}
use go_anansi.Prelude.{ℕ, ◌+◌, ◌*◌, ◌/◌, ◌%◌, ◌^◌, ◌≤◌, ◌<◌, ◌≡◌, arith, leb}
use go_anansi.Prelude.{if◌then◌else◌}
use go_anansi.Prelude.Int.{ℤ, pos, negsuc}
use go_anansi.Prelude.Word.{shr, bit_and-ones, disjoint-bit_or}

abbrev pub max_history_size : ℕ
max_history_size = 1024

-- `x << k` on a uint16
abbrev shl16 : ℕ → ℕ → ℕ
shl16 x k = (x * 2 ^ k) % 2 ^ 16

unfoldable pub new_history_address : ℕ → ℕ → ℕ
new_history_address epoch index = bit_or (shl16 (bit_and epoch 0x3) 14) (shl16 index 6)

unfoldable pub decode_history_address : ℕ → ℕ × ℕ
decode_history_address addr = (bit_and (shr addr 14) 0x3, bit_and (shr addr 6) 0xFF)

unfoldable pub history_address_to_absolute : ℕ → ℕ
history_address_to_absolute addr =
    let (epoch, index) = decode_history_address addr in epoch * 256 + index

unfoldable pub absolute_to_history_address : ℤ → ℕ
absolute_to_history_address (negsuc n) = 0
absolute_to_history_address (pos absolute) =
    if leb max_history_size absolute
    then 0
    else new_history_address (absolute / 256) (absolute % 256)

address_lem :
    (epoch index : ℕ)
    → epoch < 4
    → index < 256
    → new_history_address epoch index ≡ index * 2 ^ 6 + epoch * 2 ^ 14
unfolding new_history_address
address_lem epoch index he hi =
    rw (bit_and-ones 2 epoch) (ground (arith, disjoint-bit_or 14 (index * 2 ^ 6) epoch))

pub absolute-new_history_address :
    (epoch index : ℕ)
    → epoch < 4
    → index < 256
    → history_address_to_absolute (new_history_address epoch index) ≡ epoch * 256 + index
unfolding history_address_to_absolute decode_history_address
absolute-new_history_address epoch index he hi =
    rw (address_lem epoch index he hi, bit_and-ones 2, bit_and-ones 8) (omega arith)

pub to_absolute-address :
    (i : ℕ)
    → i < max_history_size
    → history_address_to_absolute (absolute_to_history_address (pos i)) ≡ i
unfolding absolute_to_history_address
to_absolute-address i h =
    ground (arith, absolute-new_history_address (i / 256) (i % 256) (omega arith) (omega arith))

pub overflow-address : (i : ℕ) → max_history_size ≤ i → absolute_to_history_address (pos i) ≡ 0
unfolding absolute_to_history_address
overflow-address i h = ground arith
