-- ===== src/Version/Tests.antt =====
-- Runs of core/common/version.go, and its theorems at concrete versions.
use go_anansi.Prelude.{
  ℕ, zero, suc, ◌+◌, ◌^◌, ◌≡◌, ◌↔◌, inr, refl, arith, some, List, [], ◌∷◌, ◌++◌, length,
}
use go_anansi.Prelude.Int.{pos, negsuc}
use go_anansi.Prelude.Result.{ok, err}
use go_anansi.Version.{Version, pack, new_version_from_uint64, compare, bump_major, bump_minor}
use go_anansi.Version.{bump_patch, to_uint64, rank_stable}
use go_anansi.Version.{is_prerelease}
use go_anansi.Version.Packing.{Fits, pack-from_uint64}
use go_anansi.Version.Order.{Before, compare-Before, compare-bump}
use go_anansi.Version.Address.{
  absolute_to_history_address, max_history_size, new_history_address, history_address_to_absolute,
  decode_history_address,
}
use go_anansi.Version.Text.{
  Str, atoi, decimal, digits, trim_space, trim_left, trim_right, trim_prefix, is_space, split, cut,
  to_lower, str_eq, parse_uint, parse_magnitude,
}
use go_anansi.Version.Text.Split.{excludes}
use go_anansi.Version.Registry.{
  parse, parse_parts, parse_tag, tag_rank, tag_name, string_with_registry, default_registry,
  version_not_found, history_full,
}
use go_anansi.Version.RoundTrip.{IsCounted, IsNamed, parse-string}
use go_anansi.Version.History.{Versionable, bump_major as renew_major, bump_minor as renew_minor}
use go_anansi.Version.History.{resolve, index, index_from}
use go_anansi.Version.History.{increment}
use go_anansi.Version.History.Laws.{incrementing}
use go_anansi.Version.History.Laws.{run, run_all, run_appends}
use go_anansi.Version.History.Lookup.{run_all-resolve, resolve-index, full_history}
use go_anansi.Version.History.Rising.{run_rises}

-- 1.2.3-beta.4 and 1.10.0
abbrev beta : Version
beta = record { major = 1; minor = 2; patch = 3; tag_type = 20; tag_version = 4 }

abbrev stable : Version
stable = record { major = 1; minor = 10; patch = 0; tag_type = rank_stable; tag_version = 0 }

abbrev highest : Version
highest = record { major = 65535; minor = 10; patch = 0; tag_type = rank_stable; tag_version = 0 }

-- " v1.2.3-BETA.4+build"
abbrev beta_text : Str
beta_text =
    0x20 ∷ 0x76 ∷ 0x31 ∷ 0x2E ∷ 0x32 ∷ 0x2E ∷ 0x33 ∷ 0x2D ∷ 0x42 ∷ 0x45 ∷ 0x54 ∷ 0x41 ∷ 0x2E ∷ 0x34
    ∷ 0x2B ∷ 0x62 ∷ 0x75 ∷ []

same : ℕ → ℕ
same c = c

parsed : parse same default_registry beta_text ≡ ok beta
unfolding parse parse_parts parse_tag tag_rank trim_space trim_left trim_right trim_prefix is_space
    split cut to_lower str_eq atoi parse_uint parse_magnitude
parsed = refl

-- "1.10.0"
printed :
    string_with_registry default_registry stable ≡ 0x31 ∷ 0x2E ∷ 0x31 ∷ 0x30 ∷ 0x2E ∷ 0x30 ∷ []
unfolding string_with_registry decimal digits
printed = refl

beta-Fits : Fits beta
beta-Fits = omega arith

stable-Fits : Fits stable
stable-Fits = omega arith

highest-Fits : Fits highest
highest-Fits = omega arith

beta-IsCounted : IsCounted beta
beta-IsCounted = omega arith

beta-IsNamed : IsNamed same default_registry beta
unfolding excludes tag_name to_lower tag_rank str_eq
beta-IsNamed = record { no_dot = refl; no_plus = refl; is_lower = refl; looked_up = refl }

pack-from_uint64_example : pack (new_version_from_uint64 (2 ^ 48 + 7)) ≡ 2 ^ 48 + 7
pack-from_uint64_example = pack-from_uint64 (2 ^ 48 + 7) (omega arith)

compare-Before_example : (compare (some beta) (some stable) ≡ negsuc 0) ↔ Before beta stable
compare-Before_example = compare-Before beta stable beta-Fits stable-Fits

compare-bump_example :
    (compare (some beta) (some (bump_patch beta)) ≡ negsuc 0)
    × (compare (some (bump_patch beta)) (some (bump_minor beta)) ≡ negsuc 0)
    × (compare (some (bump_minor beta)) (some (bump_major beta)) ≡ negsuc 0)
compare-bump_example = compare-bump beta beta-Fits (omega arith) (omega arith) (omega arith)

parse-string_example :
    parse same default_registry (string_with_registry default_registry beta) ≡ ok beta
parse-string_example =
    parse-string same default_registry beta beta-IsCounted (inr (ground arith, beta-IsNamed))

abbrev entity : Versionable
entity = record { current = beta; history = stable ∷ []; registry = default_registry }

-- after one of `incrementing`
abbrev next_entity : Versionable
next_entity = record {
  current = record { major = 1; minor = 2; patch = 3; tag_type = 20; tag_version = 5 };
  history = stable ∷ beta ∷ [];
  registry = default_registry;
}

run_increment : run incrementing entity ≡ ok next_entity
unfolding run increment is_prerelease
run_increment = refl

resolved : resolve entity (absolute_to_history_address (pos 0)) ≡ ok stable
unfolding resolve absolute_to_history_address new_history_address history_address_to_absolute
    decode_history_address
resolved = refl

run_all_increment : run_all (incrementing ∷ []) entity ≡ ok next_entity
unfolding run_all run increment is_prerelease
run_all_increment = refl

run_appends_example :
    (next_entity.history ≡ entity.history ++ (entity.current ∷ []))
    × (next_entity.registry ≡ entity.registry)
run_appends_example = run_appends incrementing entity next_entity run_increment

run_all-resolve_example :
    (resolve next_entity (absolute_to_history_address (pos 0)) ≡ ok stable)
    × (length next_entity.history ≡ length entity.history + length (incrementing ∷ []))
run_all-resolve_example =
    run_all-resolve (incrementing ∷ []) entity next_entity 0 stable run_all_increment (omega arith)
      resolved

indexed : index entity (some stable) ≡ ok 0
unfolding index index_from compare to_uint64 pack absolute_to_history_address new_history_address
indexed = refl

resolve-index_example :
    (y : Version) × (resolve entity 0 ≡ ok y) × (compare (some y) (some stable) ≡ pos 0)
resolve-index_example = resolve-index entity stable 0 (omega arith) indexed

run_rises_example : compare (some beta) (some next_entity.current) ≡ negsuc 0
run_rises_example =
    run_rises incrementing entity next_entity (omega arith) (λ tag e. cc) run_increment

abbrev repeat : ℕ → List Version
repeat zero = []
repeat (suc n) = stable ∷ repeat n

abbrev full_entity : Versionable
full_entity = record { current = beta; history = repeat 1024; registry = default_registry }

length-repeat : (n : ℕ) → length (repeat n) ≡ n
length-repeat zero = refl
length-repeat (suc n) = omega (arith, length-repeat n)

differ : compare (some stable) (some beta) ≡ pos 1
unfolding compare to_uint64 pack
differ = refl

index_from-repeat : (i n : ℕ) → index_from i (repeat n) beta ≡ err version_not_found
unfolding index_from
index_from-repeat i zero = refl
index_from-repeat i (suc n) = rw differ (index_from-repeat (suc i) n)

full_history_example :
    (w : Versionable) × (renew_major full_entity ≡ err history_full)
    × (renew_minor full_entity ≡ ok w)
    × (length w.history ≡ max_history_size + 1)
    × (index w (some beta) ≡ ok 0)
unfolding index
full_history_example = full_history full_entity (length-repeat 1024) (index_from-repeat 0 1024)
