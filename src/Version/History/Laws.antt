-- ===== src/Version/History/Laws.antt =====
-- Versionable in core/common/version.go: every operation keeps the old versions in order, the
-- history is found again by its addresses, and what the limit of 1024 versions is good for.
use go_anansi.Prelude.{
  ◌-◌, ◌≤◌, ◌<◌, false, ◌≡◌, inl, inr, refl, sym, ◌∙◌, arith, List, [], ◌∷◌, ◌++◌, Bool-cases,
  length, length-append, take-append, leb, leb→le,
}
use go_anansi.Prelude.Result.{Result, ok, err, ok-injective, ◌>>=◌}
use go_anansi.Version.{bump_major as raise_major}
use go_anansi.Version.Address.{max_history_size}
use go_anansi.Version.Text.{Str}
use go_anansi.Version.Registry.{VersionError, history_full}
use go_anansi.Version.History.{
  Versionable, moved_to, add_to_history, bump_major, bump_minor, bump_patch, prerelease, increment,
  promote, stabilize,
}

-- The operations that give a new Versionable.
pub data Operation : Type 0 where
  raising_major raising_minor raising_patch incrementing stabilizing : Operation
  prereleasing promoting : Str → Operation

unfoldable pub run : Operation → Versionable → Result VersionError Versionable
run raising_major v = bump_major v
run raising_minor v = bump_minor v
run raising_patch v = bump_patch v
run incrementing v = increment v
run stabilizing v = stabilize v
run (prereleasing tag) v = prerelease v tag
run (promoting tag) v = promote v tag

bump_major_lem :
    (v : Versionable)
    → length v.history < max_history_size
    → bump_major v ≡ ok (moved_to v (raise_major v.current))
unfolding bump_major add_to_history
bump_major_lem v h =
    let n = raise_major v.current in
    let shorter : length (v.history ++ (n ∷ [])) - 1 ≡ length v.history =
      omega (arith, length-append v.history (n ∷ [])) in
    let room : leb max_history_size (length v.history) ≡ false = ground (arith, h) in
    rw (room, shorter, take-append v.history (n ∷ []))

pub bump_major_full :
    (v : Versionable) → max_history_size ≤ length v.history → bump_major v ≡ err history_full
unfolding bump_major add_to_history
bump_major_full v h = ground (arith, h)

pub bump_major_ok :
    (v w : Versionable) → bump_major v ≡ ok w → moved_to v (raise_major v.current) ≡ w
bump_major_ok v w e = elim (Bool-cases (leb max_history_size (length v.history))) [
  | inl full ↦ ground (arith, bump_major_full v (leb→le _ _ full), e)
  | inr room ↦ ok-injective _ w (sym (bump_major_lem v (ground (arith, room))) ∙ e)
]

-- Every operation on a Versionable that succeeds appends the current version to the history, and
-- keeps the rest of the history and the registry.
pub run_appends :
    (o : Operation) (v w : Versionable)
    → run o v ≡ ok w
    → (w.history ≡ v.history ++ (v.current ∷ [])) × (w.registry ≡ v.registry)
unfolding run bump_minor bump_patch prerelease increment promote stabilize
run_appends raising_major v w e = rw (← bump_major_ok v w e) (refl, refl)
run_appends raising_minor v w e = rw (← ok-injective _ w e) (refl, refl)
run_appends raising_patch v w e = rw (← ok-injective _ w e) (refl, refl)
run_appends incrementing v w e = ground (arith, e)
run_appends stabilizing v w e = ground (arith, e)
run_appends (prereleasing tag) v w e = ground (arith, e)
run_appends (promoting tag) v w e = ground (arith, e)

-- The operations of a list, one after the other.
unfoldable pub run_all : List Operation → Versionable → Result VersionError Versionable
run_all [] v = ok v
run_all (o ∷ os) v = run o v >>= run_all os
