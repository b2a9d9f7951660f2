-- ===== src/Version/History/Lookup.antt =====
-- Versionable in core/common/version.go, history addresses: Resolve and Index against the history,
-- and a history that grew past its addresses.
use go_anansi.Prelude.{
  ℕ, zero, suc, ◌+◌, ◌≤◌, ◌<◌, true, ◌≡◌, inl, inr, refl, sym, ap, ◌∙◌, arith, Option, none, some,
  List, [], ◌∷◌, ◌++◌, Bool-cases, length, get_elem?, length-append,
}
use go_anansi.Prelude.Int.{ℤ, pos, negsuc}
use go_anansi.Prelude.Result.{ok, err, bind-ok, ok-injective}
use go_anansi.Version.{Version, compare, to_uint64}
use go_anansi.Version.{bump_minor as raise_minor}
use go_anansi.Version.Address.{max_history_size, absolute_to_history_address, to_absolute-address}
use go_anansi.Version.Address.{overflow-address}
use go_anansi.Version.Registry.{history_full, version_not_found}
use go_anansi.Version.History.{
  Versionable, moved_to, bump_major, bump_minor, resolve, index, index_from, is_zero, found_or,
}
use go_anansi.Version.History.Laws.{Operation, run, run_all, run_appends, bump_major_full}

module _ {ℓ} {A : Type ℓ} where
  get_elem_append :
      (xs ys : List A) (i : ℕ) (x : A) → get_elem? xs i ≡ some x → get_elem? (xs ++ ys) i ≡ some x
  get_elem_append [] ys i x h = cc
  get_elem_append (y ∷ xs) ys zero x h = h
  get_elem_append (y ∷ xs) ys (suc i) x h = get_elem_append xs ys i x h

  get_elem_bound : (xs : List A) (i : ℕ) (x : A) → get_elem? xs i ≡ some x → i < length xs
  get_elem_bound [] i x h = cc
  get_elem_bound (y ∷ xs) zero x h = omega arith
  get_elem_bound (y ∷ xs) (suc i) x h = omega (arith, get_elem_bound xs i x h)

  get_elem_past : (xs : List A) (i : ℕ) → length xs ≤ i → get_elem? xs i ≡ none
  get_elem_past [] i h = refl
  get_elem_past (y ∷ xs) zero h = absurd (omega arith)
  get_elem_past (y ∷ xs) (suc i) h = get_elem_past xs i (omega arith)

resolve_lem :
    (v : Versionable) (i : ℕ)
    → i < max_history_size
    → resolve v (absolute_to_history_address (pos i)) ≡ found_or (get_elem? v.history i)
unfolding resolve
resolve_lem v i fits = rw (to_absolute-address i fits) (ground (arith, get_elem_past v.history i))

found_or-some : (o : Option Version) (x : Version) → found_or o ≡ ok x → o ≡ some x
found_or-some none x h = cc
found_or-some (some y) x h = cc

grow :
    (o : Operation) (v w : Versionable) (i : ℕ) (x : Version)
    → run o v ≡ ok w
    → i < max_history_size
    → resolve v (absolute_to_history_address (pos i)) ≡ ok x
    → (resolve w (absolute_to_history_address (pos i)) ≡ ok x)
      × (length w.history ≡ length v.history + 1)
grow o v w i x e fits h =
    let (appended, same) = run_appends o v w e in
    let found = found_or-some _ x (sym (resolve_lem v i fits) ∙ h) in
    (
      rw (resolve_lem w i fits, appended, get_elem_append v.history (v.current ∷ []) i x found)
          refl,
      rw appended (length-append v.history (v.current ∷ [])),
    )

-- Whatever operations run one after the other on a Versionable and succeed, every address below the
-- 1024th that resolves before resolves to the same version afterwards, and the history grows by one
-- version for each operation.
pub run_all-resolve :
    (os : List Operation) (v w : Versionable) (i : ℕ) (x : Version)
    → run_all os v ≡ ok w
    → i < max_history_size
    → resolve v (absolute_to_history_address (pos i)) ≡ ok x
    → (resolve w (absolute_to_history_address (pos i)) ≡ ok x)
      × (length w.history ≡ length v.history + length os)
unfolding run_all
run_all-resolve [] v w i x e fits h = rw (← ok-injective v w e) (h, omega arith)
run_all-resolve (o ∷ os) v w i x e fits h =
    let (u, first, rest) = bind-ok (run o v) (run_all os) e in
    let (kept, one) = grow o v u i x first fits h in
    let (kept_on, more) = run_all-resolve os u w i x rest fits kept in
    (kept_on, omega (arith, one, more))

is_zero_lem : (z : ℤ) → is_zero z ≡ true → z ≡ pos 0
is_zero_lem (pos zero) h = refl
is_zero_lem (pos (suc n)) h = ground (arith, h)
is_zero_lem (negsuc n) h = cc

index_from_lem :
    (i : ℕ) (hs : List Version) (x : Version) (addr : ℕ)
    → index_from i hs x ≡ ok addr
    → (j : ℕ) × (y : Version) × (get_elem? hs j ≡ some y)
      × (absolute_to_history_address (pos (i + j)) ≡ addr)
      × (compare (some y) (some x) ≡ pos 0)
unfolding index_from
index_from_lem i [] x addr e = cc
index_from_lem i (h ∷ rest) x addr e = elim (Bool-cases (is_zero (compare (some h) (some x)))) [
  | inl same ↦ (0, h, refl, ground (arith, e, same), is_zero_lem _ same)
  | inr other ↦
      let (j, y, p, q, r) = index_from_lem (suc i) rest x addr (ground (arith, e, other)) in
      (
        suc j,
        y,
        p,
        ap (λ (t : ℕ). absolute_to_history_address (pos t)) {y = suc i + j} (omega arith) ∙ q,
        r,
      )
]

-- In a history of at most 1024 versions, an address that Index finds for a version resolves, to a
-- version that compares equal to it.
pub resolve-index :
    (v : Versionable) (x : Version) (addr : ℕ)
    → length v.history ≤ max_history_size
    → index v (some x) ≡ ok addr
    → (y : Version) × (resolve v addr ≡ ok y) × (compare (some y) (some x) ≡ pos 0)
unfolding index
resolve-index v x addr fits e =
    let (j, y, p, q, r) = index_from_lem 0 v.history x addr e in
    let below = get_elem_bound v.history j y p in
    let at_start : get_elem? v.history (0 + j) ≡ some y =
      ap (get_elem? v.history) {y = j} (omega arith) ∙ p in
    (y, rw (← q, resolve_lem v (0 + j) (omega (arith, below)), at_start) refl, r)

index_from-append :
    (i : ℕ) (hs : List Version) (h x : Version)
    → index_from i hs x ≡ err version_not_found
    → compare (some h) (some x) ≡ pos 0
    → index_from i (hs ++ (h ∷ [])) x ≡ ok (absolute_to_history_address (pos (i + length hs)))
unfolding index_from
index_from-append i [] h x e same =
    rw same (ap (λ (t : ℕ). ok (absolute_to_history_address (pos t))) {y = i + 0} (omega arith))
index_from-append i (g ∷ rest) h x e same =
    elim (Bool-cases (is_zero (compare (some g) (some x)))) [
      | inl hit ↦ ground (arith, e, hit)
      | inr miss ↦ rw miss (
          index_from-append (suc i) rest h x (ground (arith, e, miss)) same
          ∙ ap (λ (t : ℕ). ok (absolute_to_history_address (pos t))) {y = i + suc (length rest)}
              (omega arith))
    ]

compare_self : (x : Version) → compare (some x) (some x) ≡ pos 0
unfolding compare to_uint64
compare_self x = ground arith

-- On a full history of 1024 versions that Index does not find the current version in, BumpMajor is
-- refused, but BumpMinor succeeds and leaves 1025 versions, and Index then gives the address 0 for
-- the version that it added.
pub full_history :
    (v : Versionable)
    → length v.history ≡ max_history_size
    → index v (some v.current) ≡ err version_not_found
    → (w : Versionable) × (bump_major v ≡ err history_full)
      × (bump_minor v ≡ ok w)
      × (length w.history ≡ max_history_size + 1)
      × (index w (some v.current) ≡ ok 0)
unfolding index bump_minor
full_history v full fresh = (
  moved_to v (raise_minor v.current),
  bump_major_full v (omega (arith, full)),
  refl,
  omega (arith, full, length-append v.history (v.current ∷ [])),
  index_from-append 0 v.history v.current v.current fresh (compare_self v.current)
      ∙ ap ok (overflow-address (0 + length v.history) (omega (arith, full))),
)
