-- ===== src/Registry/Pages/Laws.antt =====
-- The paged arrays of core/bits/registry.go against one flat list: get, set, append and pop never
-- panic on an array that is well paged, and do what their namesakes do to the list.
use go_anansi.Prelude.{
  ℕ, zero, suc, ◌+◌, ◌-◌, ◌*◌, ◌/◌, ◌%◌, ◌<◌, ◌≡◌, refl, sym, ap, ◌∙◌, arith, true, false, Option,
  none, some, List, [], ◌∷◌, ◌++◌, length, get_elem?, take, ltb, ◌==◌, ◌⊎◌, inl, inr, Bool-cases,
}
use mathlib.Core.Path.{subst}
use go_anansi.Prelude.Word.{bit_and-ones}
use go_anansi.Registry.Pages.{Pages, page_size, get, set, append, pop, page_offset}
use go_anansi.Registry.Pages.{◌>>=?◌, set_elem?, add_to_page}
use go_anansi.Registry.Pages.Flat.{IsPaged, flat, read_at, write_at, add_at, replace, read_at_lem}
use go_anansi.Registry.Pages.Updates.{write_at_lem, add_at_lem}
use go_anansi.Registry.Pages.Pop.{pop_at, pop_at_lem, last_page_room}

ℕ-cases : (n : ℕ) → (n ≡ 0) ⊎ ((k : ℕ) × (n ≡ suc k))
ℕ-cases zero = inl refl
ℕ-cases (suc k) = inr (k, refl)

module _ {ℓ} {A : Type ℓ} where
  -- Well paged, at the length that is recorded.
  unfoldable pub IsValid : Pages A → Type 0
  IsValid pe = IsPaged pe.pages pe.length

  unfoldable pub elements : Pages A → List A
  elements pe = flat pe.pages

  with_length : ℕ → List (List A) → Option (Pages A)
  with_length n new_pages = some record { pages = new_pages; length = n }

  reassoc :
      (o : Option (List A)) (f : List A → Option (List (List A))) (n : ℕ)
      → (o >>=? λ t. f t >>=? with_length n) ≡ ((o >>=? f) >>=? with_length n)
  reassoc none f n = refl
  reassoc (some t) f n = refl

  reassoc_update :
      (o : Option (List A)) (f : List A → Option (List A)) (g : List A → Option (List (List A)))
      (n : ℕ)
      → (o >>=? λ t. f t >>=? λ u. g u >>=? with_length n)
        ≡ ((o >>=? λ t. f t >>=? g) >>=? with_length n)
  reassoc_update none f g n = refl
  reassoc_update (some t) f g n = reassoc (f t) g n

  set_lem :
      (pe : Pages A) (i : ℕ) (x : A)
      → set pe i x ≡ (write_at pe.pages (i / 256) (i % 256) x >>=? with_length pe.length)
  unfolding set write_at with_length
  set_lem pe i x = rw (bit_and-ones 8 i) (
      reassoc_update (get_elem? pe.pages (i / 256)) (λ t. set_elem? t (i % 256) x)
        (set_elem? pe.pages (i / 256)) pe.length)

  append_lem :
      (pe : Pages A) (x : A)
      → append pe x
        ≡ (add_at pe.pages (pe.length / 256) (pe.length % 256) x >>=? with_length (pe.length + 1))
  unfolding append add_at with_length
  append_lem pe x =
      let p : ℕ = pe.length / 256 in
      elim (Bool-cases (ltb p (length pe.pages))) [
        | inl e ↦
            rw (e, bit_and-ones 8 pe.length)
              (reassoc_update (get_elem? pe.pages p) (λ t. add_to_page t (pe.length % 256) x)
                (set_elem? pe.pages p) (pe.length + 1))
        | inr e ↦ rw e refl
      ]

  pop_lem :
      (pe : Pages A) (k : ℕ)
      → IsPaged pe.pages pe.length
      → pe.length ≡ suc k
      → pop pe ≡ (pop_at (ltb 1 (length pe.pages)) pe.pages (k / 256) (k % 256) >>=? with_length k)
  unfolding pop pop_at with_length
  pop_lem pe k v e =
      let shorter : pe.length - 1 ≡ k = omega arith in
      let some_left : (pe.length == 0) ≡ false = ground (arith, e) in
      let (page, there, room) =
        last_page_room pe.pages pe.length (k / 256) (k % 256) v (omega arith) (omega arith) in
      let inside : ltb (length page) (k % 256) ≡ false = ground (arith, room) in
      rw (shorter, some_left, bit_and-ones 8 k, there, inside) refl

  pop_empty : (pe : Pages A) → pe.length ≡ 0 → pop pe ≡ some pe
  unfolding pop
  pop_empty pe e = let gone : (pe.length == 0) ≡ true = ground (arith, e) in rw gone refl

  flat-empty : (pages : List (List A)) (n : ℕ) → IsPaged pages n → n ≡ 0 → flat pages ≡ []
  unfolding IsPaged flat
  flat-empty [] n v e = refl
  flat-empty ([] ∷ []) n v e = refl
  flat-empty ((x ∷ page) ∷ []) n (full, most) e = absurd (omega arith)
  flat-empty (page ∷ next ∷ rest) n (full, (m, more, some_more, v)) e = absurd (omega arith)

  -- Reading a well paged array below its length gives what reading the flat list of its elements at
  -- that position gives.
  pub get-elements :
      (pe : Pages A) (i : ℕ) → IsValid pe → i < pe.length → get pe i ≡ get_elem? (elements pe) i
  unfolding get IsValid elements read_at
  get-elements pe i v h =
      let off : page_offset i ≡ i % 256 = bit_and-ones 8 i in
      rw off (
        read_at_lem pe.pages pe.length (i / 256) (i % 256) v (omega arith) (omega arith)
        ∙ ap (get_elem? (flat pe.pages)) {y = i} (omega arith))

  pub set-elements :
      (pe : Pages A) (i : ℕ) (x : A)
      → IsValid pe
      → i < pe.length
      → (new : Pages A) × (set pe i x ≡ some new)
        × IsValid new
        × (elements new ≡ replace (elements pe) i x)
        × (new.length ≡ pe.length)
  unfolding IsValid elements with_length
  set-elements pe i x v h =
      let (new, written, paged, same) =
        write_at_lem pe.pages pe.length (i / 256) (i % 256) x v (omega arith) (omega arith) in
      (
        record { pages = new; length = pe.length },
        rw (set_lem pe i x, written) refl,
        paged,
        same ∙ ap (λ (t : ℕ). replace (flat pe.pages) t x) {y = i} (omega arith),
        refl,
      )

  pub append-elements :
      (pe : Pages A) (x : A)
      → IsValid pe
      → (new : Pages A) × (append pe x ≡ some new)
        × IsValid new
        × (elements new ≡ elements pe ++ (x ∷ []))
        × (new.length ≡ pe.length + 1)
  unfolding IsValid elements with_length
  append-elements pe x v =
      let (new, added, paged, same) =
        add_at_lem pe.pages pe.length (pe.length / 256) (pe.length % 256) x v (omega arith)
          (omega arith) in
      (
        record { pages = new; length = pe.length + 1 },
        rw (append_lem pe x, added) refl,
        paged,
        same,
        refl,
      )

  pub pop-elements :
      (pe : Pages A)
      → IsValid pe
      → (new : Pages A) × (pop pe ≡ some new)
        × IsValid new
        × (elements new ≡ take (pe.length - 1) (elements pe))
        × (new.length ≡ pe.length - 1)
  unfolding IsValid elements with_length
  pop-elements pe v = elim (ℕ-cases pe.length) [
    | inl none_left ↦
        let nothing : elements pe ≡ [] = flat-empty pe.pages pe.length v none_left in
        let still : pe.length - 1 ≡ 0 = omega arith in
        (
          pe,
          pop_empty pe none_left,
          v,
          nothing ∙ ap (λ (t : ℕ). take t (flat pe.pages)) (sym still),
          omega arith,
        )
    | inr (k, e) ↦
        let (new, popped, paged, same) =
          pop_at_lem pe.pages pe.length (k / 256) (k % 256) v (omega arith) (omega arith) in
        let back : k / 256 * page_size + k % 256 ≡ k = omega arith in
        let shorter : k ≡ pe.length - 1 = omega arith in
        (
          record { pages = new; length = k },
          rw (pop_lem pe k v e, popped) refl,
          subst (IsPaged new) back paged,
          same ∙ ap (λ (t : ℕ). take t (flat pe.pages)) (back ∙ shorter),
          shorter,
        )
  ]
