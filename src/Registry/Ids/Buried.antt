-- ===== src/Registry/Ids/Buried.antt =====
-- Tombstones in the hash table of core/bits/registry.go: one ends no search.
use go_anansi.Prelude.{
  ℕ, zero, suc, ◌+◌, ◌-◌, ◌<◌, ◌≡◌, ◌≢◌, inl, inr, refl, sym, ap, ◌∙◌, arith, Bool, true, false,
  Option, none, some, List, [], ◌∷◌, length, get_elem?, leb, ◌==◌, if◌then◌else◌, Bool-cases,
}
use go_anansi.Prelude.Int.{ℤ}
use go_anansi.Registry.Pages.{◌>>=?◌}
use go_anansi.Registry.Pages.Flat.{
  replace, length-replace, get_elem-replace, get_elem-replace_other,
}
use go_anansi.Registry.Ids.{
  Cell, empty_cell, tombstone, occupied, IdTable, Found, Seen, see, stop_hit, pass_tomb, find_from,
  find_step, next, delete_at, put, rehashed,
}
use go_anansi.Registry.Ids.Probe.{step_past, step_on}
use go_anansi.Registry.Ids.Laws.{bind-some, put_lem}

stopped :
    (s : Seen) (i e : ℕ) (rest : Option Found)
    → s ≡ stop_hit
    → find_step s i rest ≡ some (some e)
    → e ≡ i
stopped s i e rest p h = ground (arith, p, h)

module _ (cells : List Cell) (t : ℕ) (below : t < length cells) where
  unfoldable pub buried : List Cell
  buried = replace cells t tombstone

  -- A search that hits another cell still hits it.
  pub find-buried :
      (fuel k i e : ℕ)
      → e ≢ t
      → find_from fuel cells k i ≡ some (some e)
      → find_from fuel buried k i ≡ some (some e)
  unfolding find_from buried see
  find-buried zero k i e apart h = cc
  find-buried (suc fuel) k i e apart h =
      let next-buried : next buried i ≡ next cells i = rw (length-replace cells t tombstone) refl in
      let goes_on : find_from fuel cells k (next cells i) ≡ some (some e)
          → find_from fuel buried k (next buried i) ≡ some (some e) =
        λ p.
          ap (find_from fuel buried k) next-buried ∙ find-buried fuel k (next cells i) e apart p in
      elim (Bool-cases (i == t)) [
        | inl same ↦
            let at_grave : i ≡ t = ground (arith, same) in
            let grave : see k (get_elem? buried i) ≡ pass_tomb =
              ap (λ (j : ℕ). see k (get_elem? buried j)) at_grave
              ∙ ap (see k) (get_elem-replace cells t tombstone below) in
            let old : see k (get_elem? cells i) ≢ stop_hit =
              λ p. apart (stopped _ i e _ p h ∙ at_grave) in
            rw grave (goes_on (step_past _ i e _ old h))
        | inr other ↦
            let away : t ≢ i = λ q. ground (arith, q, other) in
            rw (get_elem-replace_other cells t i tombstone away)
              (step_on (see k (get_elem? cells i)) i e _ _ goes_on h)
      ]

unfoldable pub compact_result : IdTable → Option (Option IdTable × Bool)
compact_result c = some (some c, true)

unfoldable pub after : IdTable → ℕ → Found → Option (Option IdTable × Bool)
after t threshold found = elim found [
  | none ↦ some (some t, false)
  | some idx ↦ delete_at t threshold idx
]

not_compacted : (c new : IdTable) → compact_result c ≡ some (some new, false) → ⊥
unfolding compact_result
not_compacted c new h = cc

pub same_cells :
    (a b : IdTable)
    → ◌≡◌ {A = Option (Option IdTable × Bool)} (some (some a, false)) (some (some b, false))
    → a.cells ≡ b.cells
same_cells a b h = ap (λ (t : IdTable). t.cells) {x = a} {y = b} cc

pub see_range :
    (cells : List Cell) (i id : ℕ) → see id (get_elem? cells i) ≡ stop_hit → i < length cells
unfolding see
see_range [] i id h = absurd (ground (arith, h))
see_range (c ∷ cells) zero id h = omega arith
see_range (c ∷ cells) (suc i) id h = omega (arith, see_range cells i id h)

pub one_key : (k id : ℕ) (o : Option Cell) → see k o ≡ stop_hit → see id o ≡ stop_hit → k ≡ id
unfolding see
one_key k id none p q = absurd (ground (arith, p))
one_key k id (some empty_cell) p q = absurd (ground (arith, p))
one_key k id (some tombstone) p q = absurd (ground (arith, p))
one_key k id (some (occupied j v)) p q = ground (arith, p, q)

pub no_hit : (id : ℕ) → see id (some tombstone) ≢ stop_hit
unfolding see
no_hit id h = ground (arith, h)

pub see_hit :
    (id : ℕ) (o : Option Cell) → see id o ≡ stop_hit → (w : ℤ) × (o ≡ some (occupied id w))
unfolding see
see_hit id none p = absurd (ground (arith, p))
see_hit id (some empty_cell) p = absurd (ground (arith, p))
see_hit id (some tombstone) p = absurd (ground (arith, p))
see_hit id (some (occupied j v)) p =
    (v, ap (λ (n : ℕ). some (occupied n v)) {x = j} {y = id} (ground (arith, p)))

-- A deletion that did not compact the table buried the cell.
pub buried_at :
    (t new : IdTable) (threshold i : ℕ)
    → i < length t.cells
    → delete_at t threshold i ≡ some (some new, false)
    → new.cells ≡ replace t.cells i tombstone
unfolding compact_result
buried_at t new threshold i below h =
    let (nt, placed, rest) = bind-some (put t i tombstone (t.count - 1) (t.tomb + 1)) _ h in
    elim (Bool-cases (leb threshold nt.tomb)) [
      | inl compacts ↦
          let compacted : (rehashed nt (length nt.cells) >>=? compact_result)
              ≡ some (some new, false) =
            ap
              (λ (b : Bool).
                if b
                then (rehashed nt (length nt.cells) >>=? compact_result)
                else (some (some nt, false)))
              (sym compacts)
            ∙ rest in
          let (c, made, q) = bind-some (rehashed nt (length nt.cells)) compact_result compacted in
          absurd (not_compacted c new q)
      | inr keeps ↦
          let same : ◌≡◌ {A = Option (Option IdTable × Bool)} (some (some nt, false))
              (some (some new, false)) =
            ap
              (λ (b : Bool).
                if b
                then (rehashed nt (length nt.cells) >>=? compact_result)
                else (some (some nt, false)))
              (sym keeps)
            ∙ rest in
          sym (same_cells nt new same) ∙ put_lem t nt i tombstone _ _ below placed
    ]
