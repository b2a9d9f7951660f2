-- ===== src/Registry/Header/Slots.antt =====
-- The slot table of core/bits/registry.go: a slot that is freed is the next one to be allocated.
use Prim.Native.Nat.{bit_and}
use go_anansi.Prelude.{
  ℕ, suc, ◌+◌, ◌-◌, ◌*◌, ◌/◌, ◌%◌, ◌^◌, ◌<◌, ◌≡◌, ◌≢◌, refl, ap, ◌∙◌, arith, false, some, List, ◌∷◌,
  length, get_elem?, ◌==◌,
}
use go_anansi.Prelude.Int.{ℤ}
use go_anansi.Prelude.Result.{ok}
use go_anansi.Prelude.Word.{bit_and-ones}
use go_anansi.Registry.Pages.{Pages, set_elem?}
use go_anansi.Registry.Pages.Flat.{replace, set_elem_lem, get_elem-replace}
use go_anansi.Registry.Header.{
  Header, Slot, decode_slot, encode_slot, uint32, slot_gen_mask, header_prefix_len,
  header_live_count, header_free_head, set_header_live_count, set_header_free_head, read_slot,
  write_slot, free_slot, alloc_slot, free_list_nil,
}
use go_anansi.Registry.Header.Codec.{slot, decode-encode_slot, low_half, high_half}

-- A header of three words of counts before its slots.
abbrev pub header_of : ℕ → ℕ → ℕ → List ℕ → Header
header_of w0 w1 w2 slots = w0 ∷ w1 ∷ w2 ∷ slots

pub record IsHeader (w0 w1 : ℕ) : Type 0 where
  pub three_words : w0 % 4 ≡ 2
  pub is_word : w1 < 2 ^ 64

module _ (w0 w1 w2 : ℕ) (slots : List ℕ) where
  pub prefix_lem : IsHeader w0 w1 → header_prefix_len (header_of w0 w1 w2 slots) ≡ some 3
  unfolding header_prefix_len
  prefix_lem v = ground (arith, v, bit_and-ones 2 w0)

  pub read_slot_lem :
      (index w : ℕ)
      → get_elem? slots index ≡ some w
      → read_slot (header_of w0 w1 w2 slots) 3 index ≡ some (decode_slot w)
  unfolding read_slot
  read_slot_lem index w h =
      let at_index : get_elem? (header_of w0 w1 w2 slots) (3 + index) ≡ some w =
        ap (get_elem? (header_of w0 w1 w2 slots)) {y = suc (suc (suc index))} (omega arith) ∙ h in
      rw at_index

  pub write_slot_lem :
      (index : ℕ) (s : Slot)
      → index < length slots
      → write_slot (header_of w0 w1 w2 slots) 3 index s
        ≡ some (header_of w0 w1 w2 (replace slots index (encode_slot s)))
  unfolding write_slot
  write_slot_lem index s h =
      ap (λ (t : ℕ). set_elem? (header_of w0 w1 w2 slots) t (encode_slot s))
        {y = suc (suc (suc index))} (omega arith)
      ∙ rw (set_elem_lem slots index (encode_slot s) h) refl

  set_free_head_lem :
      (v : ℕ)
      → v < 2 ^ 32
      → set_header_free_head (header_of w0 w1 w2 slots) v
        ≡ some (header_of w0 (w1 % 2 ^ 32 + v * 2 ^ 32) w2 slots)
  unfolding set_header_free_head
  set_free_head_lem v h = ap (λ (t : ℕ). some (header_of w0 t w2 slots)) (high_half w1 v h)

  set_live_count_lem :
      (v : ℕ)
      → w1 < 2 ^ 64
      → v < 2 ^ 32
      → set_header_live_count (header_of w0 w1 w2 slots) v
        ≡ some (header_of w0 (v + w1 / 2 ^ 32 * 2 ^ 32) w2 slots)
  unfolding set_header_live_count
  set_live_count_lem v fits h =
      ap (λ (t : ℕ). some (header_of w0 t w2 slots)) (low_half w1 v fits h)

  free_head_lem : w1 < 2 ^ 64 → header_free_head (header_of w0 w1 w2 slots) ≡ some (w1 / 2 ^ 32)
  unfolding header_free_head
  free_head_lem h = ap (λ (t : ℕ). some t) {y = w1 / 2 ^ 32} (omega arith)

  live_count_lem : header_live_count (header_of w0 w1 w2 slots) ≡ some (w1 % 2 ^ 32)
  unfolding header_live_count
  live_count_lem = refl

module _ (w0 w1 w2 : ℕ) (slots : List ℕ) where
  -- The slot that is freed: next in the free list, a generation on.
  freed : ℕ → ℕ → ℕ
  freed index w =
      encode_slot
        (slot (w1 / 2 ^ 32) (bit_and (uint32 ((decode_slot w).generation + 1)) slot_gen_mask) false)

  free_slot_lem :
      (index w : ℕ)
      → IsHeader w0 w1
      → get_elem? slots index ≡ some w
      → index < length slots
      → index < 2 ^ 32
      → free_slot (header_of w0 w1 w2 slots) index
        ≡ some (
            header_of w0
              ((w1 % 2 ^ 32 + 2 ^ 32 - 1) % 2 ^ 32 + index * 2 ^ 32)
              w2
              (replace slots index (freed index w)))
  unfolding free_slot freed
  free_slot_lem index w v h below small =
      let linked = w1 % 2 ^ 32 + uint32 index * 2 ^ 32 in
      let after = replace slots index (freed index w) in
      rw
        (
          prefix_lem w0 w1 w2 slots v,
          read_slot_lem w0 w1 w2 slots index w h,
          free_head_lem w0 w1 w2 slots v.is_word,
          write_slot_lem w0 w1 w2 slots index
              (slot (w1 / 2 ^ 32) (bit_and (uint32 ((decode_slot w).generation + 1)) slot_gen_mask)
                false)
              below,
          set_free_head_lem w0 w1 w2 after (uint32 index) (omega arith),
          live_count_lem w0 linked w2 after,
          set_live_count_lem w0 linked w2 after (uint32 (linked % 2 ^ 32 + 2 ^ 32 - 1))
              (omega arith) (omega arith),
        )
        (ap (λ (t : ℕ). some (header_of w0 t w2 after)) (omega arith))

  reuse_lem :
      (s : Pages ℤ) (index w : ℕ)
      → IsHeader w0 w1
      → w1 / 2 ^ 32 ≡ index
      → index ≢ free_list_nil
      → get_elem? slots index ≡ some w
      → (decode_slot w).alive ≡ false
      → alloc_slot (header_of w0 w1 w2 slots) s
        ≡ some (
            ok record {
              index = index;
              header =
                  header_of w0
                    ((w1 % 2 ^ 32 + 1) % 2 ^ 32 + (decode_slot w).offset_or_next * 2 ^ 32)
                    w2
                    slots;
              slot_to_entry = s;
            })
  unfolding alloc_slot decode_slot
  reuse_lem s index w v first listed h dead =
      let next = (decode_slot w).offset_or_next in
      let unlinked = w1 % 2 ^ 32 + next * 2 ^ 32 in
      let in_list : (index == free_list_nil) ≡ false = ground (arith, listed) in
      rw
        (
          free_head_lem w0 w1 w2 slots v.is_word,
          first,
          in_list,
          prefix_lem w0 w1 w2 slots v,
          read_slot_lem w0 w1 w2 slots index w h,
          dead,
          set_free_head_lem w0 w1 w2 slots next (omega arith),
          live_count_lem w0 unlinked w2 slots,
          set_live_count_lem w0 unlinked w2 slots (uint32 (unlinked % 2 ^ 32 + 1)) (omega arith)
              (omega arith),
        )
        (ap
          (λ (t : ℕ).
            some (ok record { index = index; header = header_of w0 t w2 slots; slot_to_entry = s }))
          (omega arith))

-- In a header of three words before its slots, freeing a slot and then allocating succeeds and
-- gives that slot back, with the counts and the other slots as they were, and the slot dead, linked
-- to the slot that was free before it, and one generation on.
pub alloc_slot-free_slot :
    (w0 w1 w2 : ℕ) (slots : List ℕ) (s : Pages ℤ) (index w : ℕ)
    → IsHeader w0 w1
    → get_elem? slots index ≡ some w
    → index < length slots
    → index < free_list_nil
    → (h : Header) × (next : ℕ) × (free_slot (header_of w0 w1 w2 slots) index ≡ some h)
      × (alloc_slot h s
          ≡ some (
              ok record {
                index = index;
                header = header_of w0 w1 w2 (replace slots index next);
                slot_to_entry = s;
              }))
      × (decode_slot next ≡ slot (w1 / 2 ^ 32) (((decode_slot w).generation + 1) % 2 ^ 31) false)
unfolding freed
alloc_slot-free_slot w0 w1 w2 slots s index w v h below small =
    let gen = bit_and (uint32 ((decode_slot w).generation + 1)) slot_gen_mask in
    let gen_lem : gen ≡ ((decode_slot w).generation + 1) % 2 ^ 31 =
      omega (arith, bit_and-ones 31 (uint32 ((decode_slot w).generation + 1))) in
    let next = freed w0 w1 w2 slots index w in
    let decoded : decode_slot next ≡ slot (w1 / 2 ^ 32) gen false =
      decode-encode_slot (slot (w1 / 2 ^ 32) gen false) (omega arith) (omega (arith, gen_lem)) in
    let back : (decode_slot next).offset_or_next ≡ w1 / 2 ^ 32 =
      ap (λ (t : Slot). t.offset_or_next) decoded in
    let w1_freed = (w1 % 2 ^ 32 + 2 ^ 32 - 1) % 2 ^ 32 + index * 2 ^ 32 in
    (
      header_of w0 w1_freed w2 (replace slots index next),
      next,
      free_slot_lem w0 w1 w2 slots index w v h below (omega arith),
      reuse_lem w0 w1_freed w2 (replace slots index next) s index next (omega arith) (omega arith)
            (ground arith) (get_elem-replace slots index next below)
            (ap (λ (t : Slot). t.alive) decoded)
          ∙ ap
              (λ (t : ℕ). some (
                ok record {
                  index = index;
                  header = header_of w0 t w2 (replace slots index next);
                  slot_to_entry = s;
                }))
              {y = w1} (omega (arith, back)),
      decoded ∙ ap (λ (t : ℕ). slot (w1 / 2 ^ 32) t false) gen_lem,
    )
