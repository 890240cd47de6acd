-- ===== src/Base/Sorting.antt =====
-- Insertion sort by a Boolean order: ORDER BY of a statement.
use mathlib.Core.Path.{◌≡◌, refl}
use mathlib.Core.Bool.{Bool, true, false}
use mathlib.Core.List.{List, [], ◌∷◌, ◌++◌}
use native.Mathlib.Omega.{arith}
use vive_cserver.Base.Bools.{if◌then◌else◌, if_cases}
use vive_cserver.Base.Lists.{All}

module _ {ℓ} {A : Type ℓ} (le : A → A → Bool) where
  abbrev pub insert_by : A → List A → List A
  insert_by x [] = x ∷ []
  insert_by x (y ∷ ys) = let rest = insert_by x ys in if le x y then x ∷ y ∷ ys else y ∷ rest

  abbrev pub sort_by : List A → List A
  sort_by [] = []
  sort_by (x ∷ xs) = insert_by x (sort_by xs)

  module _ {κ} (P : A → Type κ) where
    pub All-insert_by : (x : A) (ys : List A) → P x → All P ys → All P (insert_by x ys)
    All-insert_by x [] p h = (p, tt)
    All-insert_by x (y ∷ ys) p h =
        if_cases (All P) (le x y) {x = x ∷ y ∷ ys} {y = y ∷ insert_by x ys} (p, h)
          (h.0, All-insert_by x ys p h.1)

    pub All-sort_by : (xs : List A) → All P xs → All P (sort_by xs)
    All-sort_by [] h = tt
    All-sort_by (x ∷ xs) h = All-insert_by x (sort_by xs) h.0 (All-sort_by xs h.1)

  -- What goes before every element of the second part stays in the first.
  pub insert_by-left :
      (x : A) (xs ys : List A)
      → All (λ y. le x y ≡ true) ys
      → insert_by x (xs ++ ys) ≡ insert_by x xs ++ ys
  insert_by-left x [] [] h = refl
  insert_by-left x [] (y ∷ ys) h = ground (arith, h.0)
  insert_by-left x (z ∷ xs) ys h = ground (arith, insert_by-left x xs ys h)

  pub insert_by-right :
      (x : A) (xs ys : List A)
      → All (λ z. le x z ≡ false) xs
      → insert_by x (xs ++ ys) ≡ xs ++ insert_by x ys
  insert_by-right x [] ys h = refl
  insert_by-right x (z ∷ xs) ys h = ground (arith, h.0, insert_by-right x xs ys h.1)
