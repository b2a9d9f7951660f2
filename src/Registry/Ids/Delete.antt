-- ===== src/Registry/Ids/Delete.antt =====
-- Deletion in the hash table of core/bits/registry.go: the ID is gone, and no other is.
use go_anansi.Prelude.{
  ℕ, ◌<◌, ◌≡◌, ◌≢◌, inl, inr, refl, sym, ap, ◌∙◌, arith, false, Option, none, some, List, length,
  get_elem?, ◌==◌, Bool-cases,
}
use go_anansi.Prelude.Int.{ℤ}
use go_anansi.Registry.Pages.{◌>>=?◌}
use go_anansi.Registry.Pages.Flat.{
  replace, length-replace, get_elem-replace, get_elem-replace_other,
}
use go_anansi.Registry.Ids.{
  Cell, tombstone, IdTable, Found, see, find, find_from, lookup, start, delete,
}
use go_anansi.Registry.Ids.Probe.{found_index, find-stop_hit}
use go_anansi.Registry.Ids.Laws.{IsReachable, bind-some, held}
use go_anansi.Registry.Ids.Buried.{
  same_cells, see_range, one_key, no_hit, see_hit, buried_at, after, buried, find-buried,
}

module _ (t new : IdTable) (id threshold : ℕ)
    (done : delete (some t) id threshold ≡ some (some new, false)) where
  -- Either the ID is not there, or its cell is buried.
  Deleted : Found → Type 0
  Deleted none = t.cells ≡ new.cells
  Deleted (some i) = new.cells ≡ replace t.cells i tombstone

  deleted : (found : Found) → find t id ≡ some found → Deleted found
  unfolding delete find Deleted after
  deleted none searched =
      same_cells t new (ap (λ (o : Option Found). o >>=? after t threshold) (sym searched) ∙ done)
  deleted (some i) searched =
      let below =
        see_range t.cells i id
          (find-stop_hit (length t.cells) t.cells id (start t.cells id) i searched) in
      buried_at t new threshold i below
        (ap (λ (o : Option Found). o >>=? after t threshold) (sym searched) ∙ done)

  -- What the search for the ID of the deletion found.
  searched_id : (found : Found) × (find t id ≡ some found)
  unfolding delete after
  searched_id =
      let (found, searched, rest) = bind-some (find t id) (after t threshold) done in
      (found, searched)

  find_new :
      (i : ℕ) (below : i < length t.cells)
      → new.cells ≡ buried t.cells i below
      → (k : ℕ)
      → find new k ≡ find_from (length t.cells) (buried t.cells i below) k (start t.cells k)
  unfolding find buried
  find_new i below written k = rw (written, length-replace t.cells i tombstone) refl

  find_kept :
      (found : Found) (k e : ℕ)
      → k ≢ id
      → find t id ≡ some found
      → find t k ≡ some (some e)
      → (find new k ≡ some (some e)) × (get_elem? new.cells e ≡ get_elem? t.cells e)
  unfolding find Deleted buried
  find_kept none k e diff searched h =
      let same = deleted none searched in
      (rw (← same) h, ap (λ (cells : List Cell). get_elem? cells e) (sym same))
  find_kept (some i) k e diff searched h =
      let written = deleted (some i) searched in
      let hit_id = find-stop_hit (length t.cells) t.cells id (start t.cells id) i searched in
      let hit_k = find-stop_hit (length t.cells) t.cells k (start t.cells k) e h in
      let below = see_range t.cells i id hit_id in
      let away : e ≢ i = λ q.
        diff
          (one_key k id _ (ap (λ (j : ℕ). see k (get_elem? t.cells j)) (sym q) ∙ hit_k) hit_id) in
      (
        find_new i below written k
            ∙ find-buried t.cells i below (length t.cells) k (start t.cells k) e away h,
        ap (λ (cells : List Cell). get_elem? cells e) written
            ∙ get_elem-replace_other t.cells i e tombstone (λ q. away (sym q)),
      )

  -- After delete of an ID has run without compaction on any table, a lookup of another ID that gave
  -- a value before still gives it.
  pub lookup-delete_other :
      (k : ℕ) (w : ℤ)
      → k ≢ id
      → lookup (some t) k ≡ some (some w)
      → lookup (some new) k ≡ some (some w)
  unfolding lookup held
  lookup-delete_other k w diff h =
      let (found_k, searched_k, rest) = bind-some (find t k) (held t) h in
      let (found, searched) = searched_id in
      elim found_k
          as (λ f.
            find t k ≡ some f → held t f ≡ some (some w) → lookup (some new) k ≡ some (some w)) [
              | none ↦ λ s r. absurd (ground (arith, r))
              | some e ↦
                  λ s r. let (kept, cell) = find_kept found k e diff searched s in rw (kept, cell) r
            ]
        searched_k rest

  gone :
      (found : Found) (e : ℕ) → IsReachable t → find t id ≡ some found → find new id ≢ some (some e)
  unfolding find Deleted IsReachable
  gone none e v searched h =
      let back : find t id ≡ some (some e) = rw (deleted none searched) h in cc
  gone (some i) e v searched h =
      let written = deleted (some i) searched in
      let below =
        see_range t.cells i id
          (find-stop_hit (length t.cells) t.cells id (start t.cells id) i searched) in
      let hit_new = find-stop_hit (length new.cells) new.cells id (start new.cells id) e h in
      elim (Bool-cases (e == i)) [
        | inl same ↦
            let at_grave : e ≡ i = ground (arith, same) in
            let grave : get_elem? new.cells e ≡ some tombstone =
              ap (get_elem? new.cells) at_grave
              ∙ ap (λ (cells : List Cell). get_elem? cells i) written
              ∙ get_elem-replace t.cells i tombstone below in
            no_hit id (ap (see id) (sym grave) ∙ hit_new)
        | inr other ↦
            let away : i ≢ e = λ q. ground (arith, q, other) in
            let cell : get_elem? new.cells e ≡ get_elem? t.cells e =
              ap (λ (cells : List Cell). get_elem? cells e) written
              ∙ get_elem-replace_other t.cells i e tombstone away in
            let (w, there) = see_hit id _ (ap (see id) (sym cell) ∙ hit_new) in
            away (found_index i e (sym searched ∙ v e id w there))
      ]

  -- After delete of an ID has run without compaction on a table in which every occupied cell is the
  -- one that a search for its ID ends at, a lookup of the ID gives no value.
  pub lookup-delete : (w : ℤ) → IsReachable t → lookup (some new) id ≢ some (some w)
  unfolding lookup held
  lookup-delete w v h =
      let (found_new, searched_new, rest) = bind-some (find new id) (held new) h in
      let (found, searched) = searched_id in
      elim found_new as (λ f. find new id ≡ some f → held new f ≡ some (some w) → ⊥) [
        | none ↦ λ s r. ground (arith, r)
        | some e ↦ λ s r. gone found e v searched s
      ]
        searched_new rest
