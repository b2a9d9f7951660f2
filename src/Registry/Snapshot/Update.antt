-- ===== src/Registry/Snapshot/Update.antt =====
-- core/bits/registry.go, UpdateHandle and Handle: the handle of an ID is exchanged.
use go_anansi.Prelude.{
  ℕ, ◌<◌, ◌≡◌, ◌≢◌, refl, sym, ap, ◌∙◌, arith, true, false, none, some, get_elem?, ◌==◌,
}
use go_anansi.Prelude.Int.{pos}
use go_anansi.Handle.{HandleSpec, Handle, id, offset}
use go_anansi.Registry.Pages.{Pages, get, set}
use go_anansi.Registry.Pages.Flat.{replace, get_elem-replace, get_elem-replace_other}
use go_anansi.Registry.Pages.Laws.{IsValid, elements, get-elements, set-elements}
use go_anansi.Registry.Pages.Refine.{length-elements}
use go_anansi.Registry.Ids.{lookup}
use go_anansi.Registry.Snapshot.{Snapshot}
use go_anansi.Registry.Snapshot.Methods.{handle_of, update_handle, with_entries}

module _ (spec : HandleSpec) (s : Snapshot) (h : Handle) (p : ℕ) (v : IsValid s.entries) where
  -- the reads of the entries after an update of one
  set_reads :
      p < (s.entries).length
      → (new : Pages Handle) × (set s.entries p h ≡ some new)
        × (get new p ≡ some h)
        × ((q : ℕ) → q < (s.entries).length → q ≢ p → get new q ≡ get s.entries q)
  set_reads below =
      let (new, done, valid, same, len) = set-elements s.entries p h v below in
      let read : (q : ℕ)
          → q < (s.entries).length
          → get new q ≡ get_elem? (replace (elements s.entries) p h) q =
        λ q inside. get-elements new q valid (omega (arith, len)) ∙ ap (λ t. get_elem? t q) same in
      (
        new,
        done,
        read p below
            ∙ get_elem-replace (elements s.entries) p h
                (omega (arith, length-elements s.entries v)),
        λ q inside other.
            read q inside
            ∙ get_elem-replace_other (elements s.entries) p q h (λ e. other (sym e))
            ∙ sym (get-elements s.entries q v inside),
      )

  -- On well paged entries, UpdateHandle of a handle whose ID is at a position of the entries, where
  -- the handle has the same offset, gives the handle that was there. Then Handle gives the new one
  -- for the ID, the other positions read as before, and no other part has changed.
  pub update_handle-handle_of :
      (old : Handle)
      → lookup s.id_index (id spec h) ≡ some (some (pos p))
      → p < (s.entries).length
      → get s.entries p ≡ some old
      → offset h ≡ offset old
      → (new : Snapshot) × (update_handle spec s h ≡ some (some (old, new)))
        × (handle_of new (id spec h) ≡ some (some h))
        × ((q : ℕ) → q < (s.entries).length → q ≢ p → get new.entries q ≡ get s.entries q)
        × (new ≡ with_entries s new.entries)
  unfolding update_handle handle_of
  update_handle-handle_of old found below there same_offset =
      let (entries, done, reads, others) = set_reads below in
      let same : (offset h == offset old) ≡ true = ground (arith, same_offset) in
      (
        with_entries s entries,
        rw (found, there, same, done) refl,
        rw (found, reads) refl,
        others,
        refl,
      )

-- UpdateHandle changes nothing where it finds no entry for the ID of the handle, or one with another
-- offset: it gives no snapshot.
pub update_handle_refuses :
    (spec : HandleSpec) (s : Snapshot) (h old : Handle) (p : ℕ)
    → lookup s.id_index (id spec h) ≡ some (some (pos p))
    → get s.entries p ≡ some old
    → offset h ≢ offset old
    → update_handle spec s h ≡ some none
unfolding update_handle
update_handle_refuses spec s h old p found there differ =
    let apart : (offset h == offset old) ≡ false = ground (arith, differ) in
    rw (found, there, apart) refl
