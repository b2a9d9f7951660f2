-- ===== src/Query/Join/Shuffle.antt =====
-- Gathering in rows or in columns, with what is alone in its place or at the end: the same up to the
-- order. For the joins of core/query/helper.go.
use mathlib.Core.List.{Permᴰ}
use mathlib.Core.List.Permᴰ
use mathlib.Core.Path.{subst}
use go_anansi.Prelude.{List, [], ◌∷◌, ◌++◌, ◌≡◌, refl, ap, sym, if◌then◌else◌}
use go_anansi.Query.Join.{or_alone}
use go_anansi.Query.Join.Plain.{gather, lonely, is_nil}

module _ {C : Type 0} where
  pub assoc : (xs ys zs : List C) → (xs ++ ys) ++ zs ≡ xs ++ (ys ++ zs)
  assoc [] ys zs = refl
  assoc (x ∷ xs) ys zs = ap (λ (l : List C). x ∷ l) (assoc xs ys zs)

  pub same : {xs ys : List C} → xs ≡ ys → Permᴰ xs ys
  same {xs} e = subst (λ ys. Permᴰ xs ys) e (Permᴰ.refl xs)

  pub swap_middle : (a b c d : List C) → Permᴰ ((a ++ b) ++ (c ++ d)) ((a ++ c) ++ (b ++ d))
  swap_middle a b c d =
      let inner : Permᴰ (b ++ (c ++ d)) (c ++ (b ++ d)) =
        Permᴰ.trans (same (sym (assoc b c d)))
          (Permᴰ.trans (Permᴰ.append_right d (Permᴰ.append_comm b c)) (same (assoc c b d))) in
      Permᴰ.trans (same (assoc a b (c ++ d)))
        (Permᴰ.trans (Permᴰ.append_left a inner) (same (sym (assoc a c (b ++ d)))))

  -- an item whose list is empty stands alone at its place, or at the end
  alone_step :
      (docs : List C) (alone : C) (all some_docs rest : List C)
      → Permᴰ all (some_docs ++ rest)
      → Permᴰ
          (or_alone docs alone ++ all)
          ((docs ++ some_docs) ++ (if is_nil docs then alone ∷ rest else rest))
  alone_step [] alone all some_docs rest p =
      Permᴰ.trans (Permᴰ.cons refl p) (Permᴰ.symm (Permᴰ.middle alone some_docs rest))
  alone_step (c ∷ docs) alone all some_docs rest p =
      Permᴰ.trans (Permᴰ.append_left (c ∷ docs) p) (same (sym (assoc (c ∷ docs) some_docs rest)))

module _ {A C : Type 0} where
  pub gather_alone :
      (f : A → List C) (alone : A → C) (xs : List A)
      → Permᴰ (gather (λ x. or_alone (f x) (alone x)) xs) (gather f xs ++ lonely f alone xs)
  gather_alone f alone [] = Permᴰ.nil
  gather_alone f alone (x ∷ xs) =
      alone_step (f x) (alone x) (gather (λ y. or_alone (f y) (alone y)) xs) (gather f xs)
        (lonely f alone xs) (gather_alone f alone xs)

  gather_both :
      (f h : A → List C) (xs : List A)
      → Permᴰ (gather (λ x. f x ++ h x) xs) (gather f xs ++ gather h xs)
  gather_both f h [] = Permᴰ.nil
  gather_both f h (x ∷ xs) =
      Permᴰ.trans (Permᴰ.append_left (f x ++ h x) (gather_both f h xs))
        (swap_middle (f x) (h x) (gather f xs) (gather h xs))

  gather_nothing : (xs : List A) → gather {C = C} (λ x. []) xs ≡ []
  gather_nothing [] = refl
  gather_nothing (x ∷ xs) = gather_nothing xs

module _ {A B C : Type 0} where
  pub gather_columns :
      (g : A → B → List C) (ls : List A) (rs : List B)
      → Permᴰ (gather (λ l. gather (g l) rs) ls) (gather (λ r. gather (λ l. g l r) ls) rs)
  gather_columns g [] rs = same (sym (gather_nothing rs))
  gather_columns g (l ∷ ls) rs =
      Permᴰ.trans (Permᴰ.append_left (gather (g l) rs) (gather_columns g ls rs))
        (Permᴰ.symm (gather_both (g l) (λ r. gather (λ k. g k r) ls) rs))
