-- ===== src/Registry/Tests.antt =====
-- Runs of core/bits/registry.go, and its theorems at concrete registries.
use go_anansi.Prelude.{
  ℕ, ◌+◌, ◌^◌, ◌%◌, ◌/◌, ◌*◌, ◌-◌, ◌≡◌, refl, arith, false, some, List, [], ◌∷◌,
}
use go_anansi.Prelude.{get_elem?}
use go_anansi.Prelude.Int.{ℤ}
use go_anansi.Prelude.Result.{ok}
use go_anansi.Registry.Pages.{Pages}
use go_anansi.Registry.Pages.Flat.{IsPaged, flat}
use go_anansi.Registry.Pages.Laws.{IsValid, elements}
use go_anansi.Registry.Pages.Refine.{
  Update, appending, setting, popping, update_all, update_list_all, update_list, update_all_refines,
}
use go_anansi.Registry.Header.{Header, free_slot, alloc_slot, decode_slot, new_header}
use go_anansi.Registry.Header.Codec.{slot}
use go_anansi.Registry.Header.Slots.{IsHeader, header_of, alloc_slot-free_slot}
use go_anansi.Registry.Pages.Flat.{replace}

abbrev two : Pages ℕ
two = record { pages = (5 ∷ 6 ∷ []) ∷ []; length = 2 }

two-IsValid : IsValid two
unfolding IsValid IsPaged
two-IsValid = (refl, omega arith)

abbrev updates : List (Update ℕ)
updates = appending 7 ∷ setting 0 8 ∷ popping ∷ []

listed : update_list_all updates (elements two) ≡ some (8 ∷ 6 ∷ [])
unfolding update_list_all update_list elements flat
listed = refl

update_all_refines_example :
    (new : Pages ℕ) × (update_all updates two ≡ some new)
    × IsValid new
    × (elements new ≡ 8 ∷ 6 ∷ [])
update_all_refines_example = update_all_refines updates two (8 ∷ 6 ∷ []) two-IsValid listed

abbrev no_slots : Pages ℤ
no_slots = record { pages = []; length = 0 }

-- one live slot, at offset 40
one_slot : get_elem? ((40 + 2 ^ 63) ∷ []) 0 ≡ some (40 + 2 ^ 63)
one_slot = refl

IsHeader-32774 : IsHeader 32774 (1 + (2 ^ 32 - 1) * 2 ^ 32)
IsHeader-32774 = omega arith

alloc_slot-free_slot_example :
    (h : Header) × (next : ℕ) × (free_slot
        (header_of 32774 (1 + (2 ^ 32 - 1) * 2 ^ 32) 1 ((40 + 2 ^ 63) ∷ []))
        0
      ≡ some h)
    × (alloc_slot h no_slots
        ≡ some (
            ok record {
              index = 0;
              header =
                  header_of 32774
                    (1 + (2 ^ 32 - 1) * 2 ^ 32)
                    1
                    (replace ((40 + 2 ^ 63) ∷ []) 0 next);
              slot_to_entry = no_slots;
            }))
    × (decode_slot next
        ≡ slot
            ((1 + (2 ^ 32 - 1) * 2 ^ 32) / 2 ^ 32)
            (((decode_slot (40 + 2 ^ 63)).generation + 1) % 2 ^ 31)
            false)
alloc_slot-free_slot_example =
    alloc_slot-free_slot 32774 (1 + (2 ^ 32 - 1) * 2 ^ 32) 1 ((40 + 2 ^ 63) ∷ []) no_slots 0
      (40 + 2 ^ 63) IsHeader-32774 one_slot (omega arith) (omega arith)

header_word : new_header 32 ≡ 32774 ∷ (2 ^ 32 - 1) * 2 ^ 32 ∷ 0 ∷ []
unfolding new_header
header_word = refl
