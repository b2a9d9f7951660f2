-- ===== src/Handle/Tests.antt =====
-- Runs of core/bits/handle.go, and its theorems at concrete handles.
use go_anansi.Prelude.{ℕ, ◌+◌, ◌*◌, ◌^◌, ◌≤◌, ◌<◌, ◌≡◌, ◌↔◌, refl, arith}
use go_anansi.Prelude.Int.{pos, negsuc}
use go_anansi.Prelude.Result.{ok, err, ◌>>=◌}
use go_anansi.Handle.{
  Handle, handle, set_id, shift, offset, length, id, int32, max_length, max_id, ones, bit_space,
  id_shift, max_offset, length_negative, offset_out_of_bounds, length_exceeds_bit_space,
  id_exceeds_bit_space, new_handle_spec, length_bits_exceed_max,
}
use go_anansi.Handle.Masks.{IsSpec}
use go_anansi.Handle.Laws.{handle-set_id, handle_accepts, shift_keeps}

IsSpec-10 : IsSpec 10
IsSpec-10 = omega arith

IsSpec-32 : IsSpec 32
IsSpec-32 = omega arith

packed : (handle 10 (pos 3) (pos 5) >>= λ h. set_id 10 h 7) ≡ ok (3 + 5 * 2 ^ 16 + 7 * 2 ^ 26)
unfolding handle set_id max_length max_id ones bit_space id_shift
packed = refl

unpacked :
    let h = 3 + 5 * 2 ^ 16 + 7 * 2 ^ 26 in (offset h ≡ 3) × (length 10 h ≡ pos 5) × (id 10 h ≡ 7)
unfolding offset length id ones bit_space id_shift
unpacked = (refl, refl, refl)

refused :
    (handle 10 (negsuc 0) (pos 5) ≡ err offset_out_of_bounds)
    × (handle 10 (pos 65537) (pos 5) ≡ err offset_out_of_bounds)
    × (handle 10 (pos 3) (negsuc 4) ≡ err length_negative)
    × (handle 10 (pos 3) (pos 1024) ≡ err length_exceeds_bit_space)
    × (set_id 10 0 (2 ^ 38) ≡ err id_exceeds_bit_space)
unfolding handle set_id max_length max_id ones bit_space
refused = (refl, refl, refl, refl, refl)

specs :
    (new_handle_spec 0 ≡ ok 32)
    × (new_handle_spec 10 ≡ ok 10)
    × (new_handle_spec 33 ≡ err length_bits_exceed_max)
unfolding new_handle_spec
specs = (refl, refl, refl)

handle-set_id_example :
    (h : Handle) × ((handle 10 (pos 3) (pos 5) >>= λ g. set_id 10 g 7) ≡ ok h)
    × (offset h ≡ 3)
    × (length 10 h ≡ int32 5)
    × (id 10 h ≡ 7)
handle-set_id_example = handle-set_id 10 3 5 7 IsSpec-10 (omega arith) (omega arith) (omega arith)

handle_accepts_example :
    ((h : Handle) × (handle 10 (pos 3) (pos 5) ≡ ok h))
    ↔ ((a b : ℕ) × (pos 3 ≡ pos a) × (pos 5 ≡ pos b) × (a ≤ max_offset) × (b < 2 ^ 10))
handle_accepts_example = handle_accepts 10 (pos 3) (pos 5) IsSpec-10

three : offset (3 + 5 * 2 ^ 16) ≡ 3
unfolding offset
three = refl

shift_keeps_example :
    (g : Handle) × (shift 10 (3 + 5 * 2 ^ 16) (negsuc 1) ≡ ok g)
    × (offset g ≡ 1)
    × (length 10 g ≡ length 10 (3 + 5 * 2 ^ 16))
    × (id 10 g ≡ id 10 (3 + 5 * 2 ^ 16))
shift_keeps_example =
    shift_keeps 10 (3 + 5 * 2 ^ 16) 1 (negsuc 1) IsSpec-10 (omega arith) (rw three) (omega arith)
