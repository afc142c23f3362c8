-- ===== src/Prelude/Sorting.antt =====
-- `sort_by`: the stable sort, as insertion into a sorted list. An element goes in behind those that
-- are not greater, taken from the end of the list.
use mathlib.Core.Path.{◌≡◌, refl, ap, ◌∙◌}
use mathlib.Core.Bool.{Bool, true, false}
use mathlib.Core.List.{List, [], ◌∷◌, ◌++◌}
use native.Mathlib.Omega.{arith}
use lastpass_ssh_agent.Prelude.Tests.{if◌then◌else◌}

module _ {ℓ} {A : Type ℓ} (le : A → A → Bool) where
  -- In front of the first that is not less.
  unfoldable pub insert_sorted : A → List A → List A
  insert_sorted x [] = x ∷ []
  insert_sorted x (y ∷ ys) =
      let later = y ∷ insert_sorted x ys in if le x y then x ∷ y ∷ ys else later

  unfoldable pub sort_by : List A → List A
  unfolding insert_sorted
  sort_by [] = []
  sort_by (x ∷ xs) = insert_sorted x (sort_by xs)

  -- Each is at most the one behind it.
  abbrev pub IsAscending : List A → Type 0
  IsAscending [] = Unit
  IsAscending (x ∷ []) = Unit
  IsAscending (x ∷ y ∷ ys) = (le x y ≡ true) × IsAscending (y ∷ ys)

  module _ (total : (x y : A) → le x y ≡ false → le y x ≡ true) where
    insert_sorted-IsAscending :
        (x : A) (ys : List A) → IsAscending ys → IsAscending (insert_sorted x ys)
    unfolding insert_sorted
    insert_sorted-IsAscending x [] h = tt
    insert_sorted-IsAscending x (y ∷ []) h = ground (arith, total x y)
    insert_sorted-IsAscending x (y ∷ z ∷ zs) h =
        ground (arith, total x y, insert_sorted-IsAscending x (z ∷ zs) h.1)

    pub sort_by-IsAscending : (xs : List A) → IsAscending (sort_by xs)
    unfolding sort_by
    sort_by-IsAscending [] = tt
    sort_by-IsAscending (x ∷ xs) = insert_sorted-IsAscending x (sort_by xs) (sort_by-IsAscending xs)

  module _ (total : (x y : A) → le x y ≡ false → le y x ≡ true)
      (trans : (x y z : A) → le x y ≡ true → le y z ≡ true → le x z ≡ true)
      (antisymm : (x y : A) → le x y ≡ true → le y x ≡ true → x ≡ y) where
    place_place :
        (x y : A) (zs : List A)
        → insert_sorted x (insert_sorted y zs) ≡ insert_sorted y (insert_sorted x zs)
    unfolding insert_sorted
    place_place x y [] = ground (arith, total x y, total y x, antisymm x y)
    place_place x y (z ∷ zs) =
        ground
          (arith, total x y, total y x, antisymm x y, trans x y z, trans y x z, place_place x y zs)

    -- The order in which the elements come does not show.
    pub sort_by-middle :
        (xs : List A) (x : A) (ys : List A)
        → sort_by (xs ++ x ∷ ys) ≡ insert_sorted x (sort_by (xs ++ ys))
    unfolding sort_by
    sort_by-middle [] x ys = refl
    sort_by-middle (y ∷ xs) x ys =
        ap (insert_sorted y) (sort_by-middle xs x ys) ∙ place_place y x (sort_by (xs ++ ys))
