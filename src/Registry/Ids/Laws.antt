-- ===== src/Registry/Ids/Laws.antt =====
-- The hash table of core/bits/registry.go as a finite map: an insertion is found, and it loses no
-- other key.
use go_anansi.Prelude.{
  ℕ, zero, suc, ◌<◌, ◌≡◌, ◌≢◌, inl, inr, refl, sym, ap, ◌∙◌, arith, Option, none, some, List, [],
  ◌∷◌, length, get_elem?, ◌==◌, Bool-cases,
}
use go_anansi.Prelude.Int.{ℤ}
use go_anansi.Registry.Pages.{◌>>=?◌}
use go_anansi.Registry.Pages.Flat.{replace, set_elem_lem, length-replace, get_elem-replace}
use go_anansi.Registry.Pages.Flat.{get_elem-replace_other}
use go_anansi.Registry.Ids.{
  Cell, occupied, IdTable, Found, find, find_from, lookup, value_of, start, place_from, put,
  insert_at, insert_or_update_in_place, Place, fresh, reused, updated, see, stop_hit,
}
use go_anansi.Registry.Ids.Probe.{
  index_of, inserted, find-kept, place-found, place-find, find-stop_hit,
}
use go_anansi.Registry.Ids.Open.{place-IsOpen, see-IsOpen, Opens, place_index}

-- Every key is where a search for it ends.
unfoldable pub IsReachable : IdTable → Type 0
IsReachable t =
    (e k : ℕ) (w : ℤ) → get_elem? t.cells e ≡ some (occupied k w) → find t k ≡ some (some e)

pub get_elem_range :
    {A : Type 0} (xs : List A) (i : ℕ) (x : A) → get_elem? xs i ≡ some x → i < length xs
get_elem_range [] i x h = cc
get_elem_range (y ∷ xs) zero x h = omega arith
get_elem_range (y ∷ xs) (suc i) x h = omega (arith, get_elem_range xs i x h)

finish : ℕ → ℕ → List Cell → Option IdTable
finish count tomb cells = some record { cells = cells; count = count; tomb = tomb }

some_cells : (a b : IdTable) → ◌≡◌ {A = Option IdTable} (some a) (some b) → a.cells ≡ b.cells
some_cells a b h = ap (λ (t : IdTable). t.cells) {x = a} {y = b} cc

pub bind-some :
    {A : Type 0} {B : Type 0} (o : Option A) (f : A → Option B) {b : B}
    → (o >>=? f) ≡ some b
    → (a : A) × (o ≡ some a) × (f a ≡ some b)
bind-some none f h = cc
bind-some (some a) f h = (a, refl, h)

pub put_lem :
    (t new : IdTable) (i : ℕ) (c : Cell) (count tomb : ℕ)
    → i < length t.cells
    → put t i c count tomb ≡ some new
    → new.cells ≡ replace t.cells i c
unfolding finish
put_lem t new i c count tomb below h =
    let written = set_elem_lem t.cells i c below in
    let made = ap (λ (o : Option (List Cell)). o >>=? finish count tomb) (sym written) ∙ h in
    sym (some_cells (record { cells = replace t.cells i c; count = count; tomb = tomb }) new made)

insert_at_lem :
    (t new : IdTable) (c : Cell) (p : Place)
    → index_of p < length t.cells
    → insert_at t c p ≡ some new
    → new.cells ≡ replace t.cells (index_of p) c
insert_at_lem t new c (fresh i) below h = put_lem t new i c _ _ below h
insert_at_lem t new c (reused i) below h = put_lem t new i c _ _ below h
insert_at_lem t new c (updated i) below h = put_lem t new i c _ _ below h

same_key :
    (k id : ℕ) (w v : ℤ)
    → ◌≡◌ {A = Option Cell} (some (occupied k w)) (some (occupied id v))
    → k ≡ id
same_key k id w v h = cc

unfoldable pub held : IdTable → Found → Option (Option ℤ)
held t found = elim found [
  | none ↦ some none
  | some i ↦ get_elem? t.cells i >>=? λ c. some (value_of c)
]

module _ (t new : IdTable) (id : ℕ) (v : ℤ)
    (done : insert_or_update_in_place t id v ≡ some new) where
  -- Where the insertion goes.
  record Target : Type 0 where
    place : Place
    chosen : place_from (length t.cells) t.cells id none (start t.cells id) ≡ some place
    below : index_of place < length t.cells
    apart : (k : ℕ) → k ≢ id → see k (get_elem? t.cells (index_of place)) ≢ stop_hit
    written : new.cells ≡ inserted t.cells id (index_of place) v below

  target : Target
  unfolding insert_or_update_in_place inserted Opens
  target =
      let (p, chosen, rest) =
        bind-some (place_from (length t.cells) t.cells id none (start t.cells id))
          (insert_at t (occupied id v)) done in
      let (c, there, open_cell) =
        place-IsOpen t.cells id (length t.cells) (start t.cells id) none p (λ j q. absurd cc)
          chosen in
      let below = get_elem_range t.cells (index_of p) c there in
      record {
        place = p;
        chosen = chosen;
        below = below;
        apart = λ k diff q. see-IsOpen id k c open_cell diff (ap (see k) (sym there) ∙ q);
        written = insert_at_lem t new (occupied id v) p below rest;
      }

  -- A search in the new table, as one in the old cells with one exchanged.
  find_new :
      (x : Target) (k : ℕ)
      → find new k
        ≡ find_from
            (length t.cells)
            (inserted t.cells id (index_of x.place) v x.below)
            k
            (start t.cells k)
  unfolding find inserted
  find_new x k =
      let c = occupied id v in rw (x.written, length-replace t.cells (index_of x.place) c) refl

  find_inserted : (x : Target) → find new id ≡ some (some (index_of x.place))
  find_inserted x =
      find_new x id
      ∙ elim (place-found t.cells id (index_of x.place) v x.below (length t.cells)
          (start t.cells id) none x.place x.chosen refl) [
            | inl none_first ↦ absurd cc
            | inr found ↦ found
          ]

  find_kept :
      (x : Target) (k e : ℕ) → k ≢ id → find t k ≡ some (some e) → find new k ≡ some (some e)
  unfolding find
  find_kept x k e diff h =
      find_new x k
      ∙ find-kept t.cells id (index_of x.place) v x.below (length t.cells) k (start t.cells k) e
          diff (x.apart k diff) h

  cell_inserted : (x : Target) → get_elem? new.cells (index_of x.place) ≡ some (occupied id v)
  unfolding inserted
  cell_inserted x =
      ap (λ (cells : List Cell). get_elem? cells (index_of x.place)) x.written
      ∙ get_elem-replace t.cells (index_of x.place) (occupied id v) x.below

  cell_kept :
      (x : Target) (e : ℕ) → e ≢ index_of x.place → get_elem? new.cells e ≡ get_elem? t.cells e
  unfolding inserted
  cell_kept x e other =
      ap (λ (cells : List Cell). get_elem? cells e) x.written
      ∙ get_elem-replace_other t.cells (index_of x.place) e (occupied id v) (λ q. other (sym q))

  -- A key that was found already stays at its place.
  old_place : (x : Target) (e : ℕ) → find t id ≡ some (some e) → e ≡ index_of x.place
  unfolding find
  old_place x e found =
      place_index (updated e) x.place
        (sym (place-find (length t.cells) t.cells id (start t.cells id) e none found) ∙ x.chosen)

  -- After insertOrUpdateInPlace of an ID and a value has run on any table, a lookup of the ID gives
  -- the value.
  pub lookup-insert : lookup (some new) id ≡ some (some v)
  unfolding lookup
  lookup-insert = let x = target in rw (find_inserted x, cell_inserted x) refl

  -- After insertOrUpdateInPlace of an ID has run on any table, a lookup of another ID that gave a
  -- value before still gives it.
  pub lookup-insert_other :
      (k : ℕ) (w : ℤ)
      → k ≢ id
      → lookup (some t) k ≡ some (some w)
      → lookup (some new) k ≡ some (some w)
  unfolding lookup find held
  lookup-insert_other k w diff h =
      let x = target in
      let (found, searched, rest) = bind-some (find t k) (held t) h in
      elim found
          as (λ f.
            find t k ≡ some f → held t f ≡ some (some w) → lookup (some new) k ≡ some (some w)) [
              | none ↦ λ s r. absurd (ground (arith, r))
              | some e ↦ λ s r.
                  let apart : e ≢ index_of x.place = λ q. x.apart k diff (
                    ap (λ (j : ℕ). see k (get_elem? t.cells j)) (sym q)
                    ∙ find-stop_hit (length t.cells) t.cells k (start t.cells k) e s) in
                  rw (find_kept x k e diff s, cell_kept x e apart) r
            ]
        searched rest

  -- If every occupied cell of a table is the one that a search for its ID ends at, this also holds
  -- after insertOrUpdateInPlace has run on it.
  pub insert-IsReachable : IsReachable t → IsReachable new
  unfolding IsReachable find
  insert-IsReachable v_old e k w h =
      let x = target in
      elim (Bool-cases (e == index_of x.place)) [
        | inl same ↦
            let at_place : e ≡ index_of x.place = ground (arith, same) in
            let key : k ≡ id =
              same_key k id w v (sym h ∙ ap (get_elem? new.cells) at_place ∙ cell_inserted x) in
            ap (find new) key ∙ find_inserted x ∙ ap (λ (j : ℕ). some (some j)) (sym at_place)
        | inr other ↦
            let away : e ≢ index_of x.place = λ q. ground (arith, q, other) in
            let found = v_old e k w (sym (cell_kept x e away) ∙ h) in
            elim (Bool-cases (k == id)) [
              | inl same ↦
                  absurd (away (old_place x e (ap (find t) (sym (ground (arith, same))) ∙ found)))
              | inr diff ↦ find_kept x k e (λ q. ground (arith, q, diff)) found
            ]
      ]
