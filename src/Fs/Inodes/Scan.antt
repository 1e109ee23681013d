-- ===== src/Fs/Inodes/Scan.antt =====
-- What the scan of the cache in `iget` finds.
use mathlib.Core.Path.{subst}
use cs537_sp23_operating_sys.Common.{
  ℕ, ==→eq, All, Bool, Bool-cases, List, Option, [], ap, arith, false, get_elem?, inl, inr, none,
  refl, some, suc, sym, true, zero, ◌&&◌, ◌+◌, ◌==◌, ◌∙◌, ◌∷◌, ◌≡◌, ◌≢◌, ◌⊎◌,
}
use cs537_sp23_operating_sys.Fs.{Inode}
use cs537_sp23_operating_sys.Fs.Inodes.{is_held, Place, cached, empty, full, iget_from}

-- Whether a slot is in use for an inode.
abbrev pub is_for : ℕ → ℕ → Inode → Bool
is_for dev inum x = is_held x && (x.dev == dev) && (x.inum == inum)

-- What the scan finds, from slot `i` on.
unfoldable pub PlaceSpec : List Inode → ℕ → Option ℕ → ℕ → ℕ → Place → Type 0
PlaceSpec xs i slot dev inum (cached k) =
    (j : ℕ) × (x : Inode) × (k ≡ i + j) × (get_elem? xs j ≡ some x) × (is_for dev inum x ≡ true)
PlaceSpec xs i slot dev inum (empty k) =
    All (λ (x : Inode). is_for dev inum x ≡ false) xs
    × ((slot ≡ some k)
        ⊎ ((j : ℕ) × (x : Inode) × (k ≡ i + j) × (get_elem? xs j ≡ some x) × (x.ref ≡ 0)))
PlaceSpec xs i slot dev inum full = All (λ (x : Inode). x.ref ≢ 0) xs × (slot ≡ none)

PlaceSpec-cons :
    (x : Inode) (xs : List Inode) (i : ℕ) (slot slot' : Option ℕ) (dev inum : ℕ) (found : Place)
    → is_for dev inum x ≡ false
    → (((slot' ≡ slot) × (x.ref ≢ 0 ⊎ (slot ≢ none)))
        ⊎ ((slot ≡ none) × (slot' ≡ some i) × (x.ref ≡ 0)))
    → PlaceSpec xs (i + 1) slot' dev inum found
    → PlaceSpec (x ∷ xs) i slot dev inum found
unfolding PlaceSpec
PlaceSpec-cons x xs i slot slot' dev inum (cached k) other how (j, y, at, there, mine) =
    (suc j, y, omega arith, there, mine)
PlaceSpec-cons x xs i slot slot' dev inum (empty k) other (inl (same, used)) (clear, inl taken) =
    ((other, clear), inl (sym same ∙ taken))
PlaceSpec-cons x xs i slot slot' dev inum (empty k) other (inr (before, now, free))
      (clear, inl taken) =
    let k_eq : i ≡ k = cc in ((other, clear), inr (0, x, omega arith, refl, free))
PlaceSpec-cons x xs i slot slot' dev inum (empty k) other how (clear, inr (j, y, at, there, free)) =
    ((other, clear), inr (suc j, y, omega arith, there, free))
PlaceSpec-cons x xs i slot slot' dev inum full other (inl (same, inl used)) (all, nothing) =
    ((used, all), sym same ∙ nothing)
PlaceSpec-cons x xs i slot slot' dev inum full other (inl (same, inr some_slot)) (all, nothing) =
    absurd (some_slot (sym same ∙ nothing))
PlaceSpec-cons x xs i slot slot' dev inum full other (inr (before, now, free)) (all, nothing) = cc

pub iget_from-PlaceSpec :
    (xs : List Inode) (i : ℕ) (slot : Option ℕ) (dev inum : ℕ)
    → PlaceSpec xs i slot dev inum (iget_from xs i slot dev inum)
unfolding iget_from PlaceSpec
iget_from-PlaceSpec [] i none dev inum = (tt, refl)
iget_from-PlaceSpec [] i (some j) dev inum = (tt, inl refl)
iget_from-PlaceSpec (x ∷ xs) i none dev inum = elim (Bool-cases (is_for dev inum x)) [
  | inl mine ↦
      let found : iget_from (x ∷ xs) i none dev inum ≡ cached i = rw (mine, iget_from) refl in
      subst (PlaceSpec (x ∷ xs) i none dev inum) (sym found) (0, x, omega arith, refl, mine)
  | inr other ↦ elim (Bool-cases (x.ref == 0)) [
    | inl free ↦
        let found : iget_from (x ∷ xs) i none dev inum ≡ iget_from xs (i + 1) (some i) dev inum =
          rw (other, iget_from, free) refl in
        subst (PlaceSpec (x ∷ xs) i none dev inum) (sym found) (
          PlaceSpec-cons x xs i none (some i) dev inum _ other
            (inr (refl, refl, ==→eq x.ref 0 free))
            (iget_from-PlaceSpec xs (i + 1) (some i) dev inum))
    | inr used ↦
        let found : iget_from (x ∷ xs) i none dev inum ≡ iget_from xs (i + 1) none dev inum =
          rw (other, iget_from, used) refl in
        subst (PlaceSpec (x ∷ xs) i none dev inum) (sym found) (
          PlaceSpec-cons x xs i none none dev inum _ other (inl (refl, inl (ground arith)))
            (iget_from-PlaceSpec xs (i + 1) none dev inum))
  ]
]
iget_from-PlaceSpec (x ∷ xs) i (some j) dev inum = elim (Bool-cases (is_for dev inum x)) [
  | inl mine ↦
      let found : iget_from (x ∷ xs) i (some j) dev inum ≡ cached i = rw (mine, iget_from) refl in
      subst (PlaceSpec (x ∷ xs) i (some j) dev inum) (sym found) (0, x, omega arith, refl, mine)
  | inr other ↦
      let found : iget_from (x ∷ xs) i (some j) dev inum ≡ iget_from xs (i + 1) (some j) dev inum =
        rw (other, iget_from) refl in
      subst (PlaceSpec (x ∷ xs) i (some j) dev inum) (sym found) (
        PlaceSpec-cons x xs i (some j) (some j) dev inum _ other (inl (refl, inr (λ e. cc)))
          (iget_from-PlaceSpec xs (i + 1) (some j) dev inum))
]

pub Clear-at :
    (dev inum : ℕ) (xs : List Inode) (j : ℕ) (z : Inode)
    → All (λ (x : Inode). is_for dev inum x ≡ false) xs
    → get_elem? xs j ≡ some z
    → is_for dev inum z ≡ false
Clear-at dev inum [] j z all there = cc
Clear-at dev inum (x ∷ xs) zero z (other, all) there =
    let same : x ≡ z = cc in ap (is_for dev inum) (sym same) ∙ other
Clear-at dev inum (x ∷ xs) (suc j) z (other, all) there = Clear-at dev inum xs j z all there
