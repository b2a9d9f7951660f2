-- ===== src/Registry/Header/Codec.antt =====
-- The slot words of core/bits/registry.go: what is written in a slot is read back.
use Prim.Native.Nat.{bit_and, bit_or}
use go_anansi.Prelude.{
  ℕ, ◌+◌, ◌-◌, ◌*◌, ◌/◌, ◌%◌, ◌^◌, ◌<◌, ◌≡◌, ap, ◌∙◌, arith, Bool, true, false, not, ◌==◌,
}
use go_anansi.Prelude.Word.{shl, shr, and_not, bit_and-ones, bit_or-disjoint, disjoint-bit_or}
use go_anansi.Prelude.Word.{bit_and-shifted}
use go_anansi.Registry.Header.{
  Slot, decode_slot, encode_slot, uint32, slot_gen_mask, slot_alive_bit,
}

-- The bits of a slot word as a sum.
abbrev bit_of : Bool → ℕ
bit_of true = 1
bit_of false = 0

abbrev pub slot : ℕ → ℕ → Bool → Slot
slot o g b = record { offset_or_next = o; generation = g; alive = b }

encode_lem :
    (o g : ℕ) (b : Bool)
    → o < 2 ^ 32
    → g < 2 ^ 31
    → encode_slot (slot o g b) ≡ o + g * 2 ^ 32 + bit_of b * 2 ^ 63
unfolding encode_slot
encode_lem o g true ho hg =
    rw (bit_and-ones 31 g)
      (ground (arith, bit_or-disjoint 32 o g, bit_or-disjoint 63 (o + g * 2 ^ 32) 1))
encode_lem o g false ho hg = rw (bit_and-ones 31 g) (ground (arith, bit_or-disjoint 32 o g))

alive_lem :
    (r : ℕ) (b : Bool) → r < 2 ^ 63 → not (bit_and (r + bit_of b * 2 ^ 63) slot_alive_bit == 0) ≡ b
alive_lem r true h = ground (arith, bit_and-shifted 63 r 1 1 h, bit_and-ones 1 1)
alive_lem r false h = ground (arith, bit_and-shifted 63 r 0 1 h, bit_and-ones 1 0)

-- What is written in a slot, with an offset of 32 bits and a generation of 31, is read back.
pub decode-encode_slot :
    (s : Slot) → s.offset_or_next < 2 ^ 32 → s.generation < 2 ^ 31 → decode_slot (encode_slot s) ≡ s
unfolding decode_slot
decode-encode_slot s ho hg =
    let o = s.offset_or_next in
    let g = s.generation in
    let w = encode_lem o g s.alive ho hg in
    let low : uint32 (encode_slot s) ≡ o = (omega (arith, w)) in
    let gen : uint32 (bit_and (shr (encode_slot s) 32) slot_gen_mask) ≡ g =
      omega (arith, w, bit_and-ones 31 (encode_slot s / 2 ^ 32)) in
    let top : not (bit_and (encode_slot s) slot_alive_bit == 0) ≡ s.alive =
      ap (λ (t : ℕ). not (bit_and t slot_alive_bit == 0)) w
      ∙ alive_lem (o + g * 2 ^ 32) s.alive (omega arith) in
    rw (low, gen, top)

-- The low half of a word is replaced by `v`, or the high half.
pub low_half :
    (w v : ℕ) → w < 2 ^ 64 → v < 2 ^ 32 → bit_or (and_not w 0xFFFFFFFF) v ≡ v + w / 2 ^ 32 * 2 ^ 32
low_half w v fits hv = ground (
  arith,
  bit_and-shifted 32 (w % 2 ^ 32) (w / 2 ^ 32) (2 ^ 32 - 1),
  bit_and-ones 32 (w / 2 ^ 32),
  disjoint-bit_or 32 v (w / 2 ^ 32),
)

pub high_half :
    (w v : ℕ)
    → v < 2 ^ 32
    → bit_or (and_not w (shl 0xFFFFFFFF 32)) (shl v 32) ≡ w % 2 ^ 32 + v * 2 ^ 32
high_half w v hv = ground (arith, bit_and-ones 32 w, bit_or-disjoint 32 (w % 2 ^ 32) v)
