-- ===== src/Psort/MergeLists.antt =====
-- Merging two sorted lists: the specification of `merge`.
use mathlib.Core.List.{Perm, perm_middle}
use mathlib.Core.List.Perm
use cs537_sp23_operating_sys.Common.{
  All, Bool-cases, List, [], append-nil, arith, false, inl, inr, refl, true, ◌++◌, ◌∷◌, ◌≡◌, ◌≤◌,
  rank,
}
use cs537_sp23_operating_sys.Psort.{KeyIndex, key_le}

-- The smaller head first, the left one if they are equal.
pub merge_lists : List KeyIndex → List KeyIndex → List KeyIndex
merge_lists [] ys = ys
merge_lists (x ∷ xs) [] = x ∷ xs
merge_lists (x ∷ xs) (y ∷ ys) = elim (key_le x y) [
  | true ↦ x ∷ merge_lists xs (y ∷ ys)
  | false ↦ y ∷ merge_lists (x ∷ xs) ys
]

-- No key of the list is below that of `x`.
abbrev pub Below : KeyIndex → List KeyIndex → Type 0
Below x ys = All (λ y. rank x.key ≤ rank y.key) ys

abbrev pub IsSorted : List KeyIndex → Type 0
IsSorted [] = Unit
IsSorted (x ∷ xs) = Below x xs × IsSorted xs

pub merge_lists-nil : (xs : List KeyIndex) → merge_lists xs [] ≡ xs
unfolding merge_lists
merge_lists-nil [] = refl
merge_lists-nil (x ∷ xs) = refl

pub merge_lists-nil_left : (ys : List KeyIndex) → merge_lists [] ys ≡ ys
unfolding merge_lists
merge_lists-nil_left ys = refl

Below-trans :
    (x y : KeyIndex) (zs : List KeyIndex) → rank x.key ≤ rank y.key → Below y zs → Below x zs
Below-trans x y [] h b = tt
Below-trans x y (z ∷ zs) h b = (omega arith, Below-trans x y zs h b.1)

Below-merge_lists :
    (z : KeyIndex) (xs ys : List KeyIndex) → Below z xs → Below z ys → Below z (merge_lists xs ys)
unfolding merge_lists
Below-merge_lists z [] ys a b = b
Below-merge_lists z (x ∷ xs) [] a b = a
Below-merge_lists z (x ∷ xs) (y ∷ ys) a b =
    ground (arith, Below-merge_lists z xs (y ∷ ys) a.1 b, Below-merge_lists z (x ∷ xs) ys a b.1)

pub merge_lists-le :
    (x y : KeyIndex) (xs ys : List KeyIndex)
    → key_le x y ≡ true
    → merge_lists (x ∷ xs) (y ∷ ys) ≡ x ∷ merge_lists xs (y ∷ ys)
unfolding merge_lists
merge_lists-le x y xs ys e = rw (e, merge_lists)

pub merge_lists-gt :
    (x y : KeyIndex) (xs ys : List KeyIndex)
    → key_le x y ≡ false
    → merge_lists (x ∷ xs) (y ∷ ys) ≡ y ∷ merge_lists (x ∷ xs) ys
unfolding merge_lists
merge_lists-gt x y xs ys e = rw (e, merge_lists)

pub merge_lists-IsSorted :
    (xs ys : List KeyIndex) → IsSorted xs → IsSorted ys → IsSorted (merge_lists xs ys)
unfolding merge_lists
merge_lists-IsSorted [] ys a b = b
merge_lists-IsSorted (x ∷ xs) [] a b = a
merge_lists-IsSorted (x ∷ xs) (y ∷ ys) a b = elim (Bool-cases (key_le x y)) [
  | inl e ↦ rw (merge_lists-le x y xs ys e) (
    Below-merge_lists x xs (y ∷ ys) a.0 (ground arith, Below-trans x y ys (ground arith) b.0),
    merge_lists-IsSorted xs (y ∷ ys) a.1 b,
  )
  | inr e ↦ rw (merge_lists-gt x y xs ys e) (
    Below-merge_lists y (x ∷ xs) ys (ground arith, Below-trans y x xs (ground arith) a.0) b.0,
    merge_lists-IsSorted (x ∷ xs) ys a b.1,
  )
]

pub merge_lists-perm : (xs ys : List KeyIndex) → Perm (merge_lists xs ys) (xs ++ ys)
unfolding merge_lists
merge_lists-perm [] ys = Perm.refl ys
merge_lists-perm (x ∷ xs) [] = rw (append-nil (x ∷ xs)) (Perm.refl (x ∷ xs))
merge_lists-perm (x ∷ xs) (y ∷ ys) = elim (Bool-cases (key_le x y)) [
  | inl e ↦ rw (merge_lists-le x y xs ys e) (Perm.cons x (merge_lists-perm xs (y ∷ ys)))
  | inr e ↦ rw (merge_lists-gt x y xs ys e) (
      Perm.trans (Perm.cons y (merge_lists-perm (x ∷ xs) ys)) (Perm.symm (perm_middle (x ∷ xs) ys)))
]
