-- ===== src/Handle.antt =====
-- core/bits/handle.go: the packed 64-bit handle of a registry entry, with its offset in bits 0 to
-- 15, its length in the next `length_bits` and its ID above. A `uint8` spec and a `uint64` handle
-- are numbers; Go's `int` arguments are integers, since the code checks their sign.
pub mod Masks
mod Fields
pub mod Laws
pub mod Tests
use Prim.Native.Nat.{bit_and, bit_or}
use go_anansi.Prelude.{ℕ, ◌+◌, ◌-◌, ◌%◌, ◌^◌, Bool, true, false, ◌||◌, ltb, leb, ◌==◌}
use go_anansi.Prelude.{if◌then◌else◌}
use go_anansi.Prelude.Int.{ℤ, pos, negsuc, pos_part, ◌+ℤ◌}
use go_anansi.Prelude.Word.{shl, shr, and_not}
use go_anansi.Prelude.Result.{Result, ok, err}

abbrev pub HandleSpec : Type 0
HandleSpec = ℕ

abbrev pub Handle : Type 0
Handle = ℕ

pub data HandleError : Type 0 where
  length_exceeds_bit_space length_negative offset_out_of_bounds : HandleError
  id_exceeds_bit_space length_bits_exceed_max : HandleError

abbrev pub max_offset : ℕ
max_offset = 2 ^ 16

unfoldable pub new_handle_spec : ℕ → Result HandleError HandleSpec
new_handle_spec length_bits =
    let bits = if length_bits == 0 then 32 else length_bits in
    if ltb 32 bits then err length_bits_exceed_max else ok bits

abbrev pub configured_length_bits : HandleSpec → ℕ
configured_length_bits s = s

-- `48 - bits` in uint8
unfoldable pub bit_space : HandleSpec → ℕ
bit_space s = (48 + 256 - configured_length_bits s) % 256

-- `(uint64(1) << bits) - 1`, which wraps to all ones where the shift gives 0
unfoldable pub ones : ℕ → ℕ
ones bits = (shl 1 bits + 2 ^ 64 - 1) % 2 ^ 64

unfoldable pub max_length : HandleSpec → ℕ
max_length s = let bits = configured_length_bits s in if leb 64 bits then 2 ^ 64 - 1 else ones bits

unfoldable pub max_id : HandleSpec → ℕ
max_id s = let bits = bit_space s in if leb 64 bits then 2 ^ 64 - 1 else ones bits

abbrev pub is_negative : ℤ → Bool
is_negative (pos n) = false
is_negative (negsuc n) = true

-- an offset that is refused: below 0 or above `max_offset`
abbrev pub out_of_bounds : ℤ → Bool
out_of_bounds offset = is_negative offset || ltb max_offset (pos_part offset)

unfoldable pub handle : HandleSpec → ℤ → ℤ → Result HandleError Handle
handle s offset length =
    if out_of_bounds offset
    then err offset_out_of_bounds
    else if is_negative length
    then err length_negative
    else if ltb (max_length s) (pos_part length)
    then err length_exceeds_bit_space
    else let offset_part = bit_and (pos_part offset) 0xFFFF in
      let len_mask = ones (configured_length_bits s) in
      let len_part = shl (bit_and (pos_part length) len_mask) 16 in ok (bit_or offset_part len_part)

unfoldable pub offset : Handle → ℕ
offset h = bit_and h 0xFFFF

-- `int32(x)` of a word: its low 32 bits, read with a sign
abbrev pub int32 : ℕ → ℤ
int32 x = let w = x % 2 ^ 32 in if ltb w (2 ^ 31) then pos w else negsuc (2 ^ 32 - w - 1)

unfoldable pub length : HandleSpec → Handle → ℤ
length s h = int32 (bit_and (shr h 16) (ones (configured_length_bits s)))

-- The sum cannot leave Go's `int` except where it is refused here too.
unfoldable pub shift : HandleSpec → Handle → ℤ → Result HandleError Handle
shift s h delta =
    let new_offset = pos (offset h) +ℤ delta in
    if out_of_bounds new_offset
    then err offset_out_of_bounds
    else let cleared = and_not h 0xFFFF in
      ok (bit_or cleared (bit_and (pos_part new_offset) 0xFFFF))

-- `16 + bits` in uint8: where the ID begins
unfoldable pub id_shift : HandleSpec → ℕ
id_shift s = (16 + configured_length_bits s) % 256

unfoldable pub set_id : HandleSpec → Handle → ℕ → Result HandleError Handle
set_id s h id =
    if ltb (max_id s) id
    then err id_exceeds_bit_space
    else let id_mask = shl (ones (bit_space s)) (id_shift s) in
      let cleared = and_not h id_mask in ok (bit_or cleared (shl id (id_shift s)))

unfoldable pub id : HandleSpec → Handle → ℕ
id s h = bit_and (shr h (id_shift s)) (ones (bit_space s))
