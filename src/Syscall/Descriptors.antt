-- ===== src/Syscall/Descriptors.antt =====
-- File descriptors: a duplicate and a close against the table of files.
use cs537_sp23_operating_sys.Common.{
  ℕ, List, Option, All, [], ap, arith, get_elem?, none, refl, set, some, suc, zero, ◌+◌, ◌<◌, ◌∷◌,
  ◌≡◌, ◌≢◌,
}
use cs537_sp23_operating_sys.Syscall.{fdalloc_from}

-- What `fdalloc` has done from descriptor `fd` on.
abbrev pub FdSpec : ℕ → List (Option ℕ) → ℕ → Option ℕ → List (Option ℕ) → Type 0
FdSpec f ofile fd none ofile' = (ofile' ≡ ofile) × All (λ (g : Option ℕ). g ≢ none) ofile
FdSpec f ofile fd (some d) ofile' =
    (j : ℕ) × (d ≡ fd + j)
    × (get_elem? ofile j ≡ some none)
    × (ofile' ≡ set ofile j (some f))
    × ((i : ℕ) → i < j → get_elem? ofile i ≢ some none)

FdSpec-used :
    (f g : ℕ) (ofile ofile' : List (Option ℕ)) (fd : ℕ) (d : Option ℕ)
    → FdSpec f ofile (fd + 1) d ofile'
    → FdSpec f (some g ∷ ofile) fd d (some g ∷ ofile')
FdSpec-used f g ofile ofile' fd none (e, all) =
    (ap (λ (o : List (Option ℕ)). some g ∷ o) e, ((λ h. cc), all))
FdSpec-used f g ofile ofile' fd (some d) (j, e, free, changed, least) =
    (suc j, omega arith, free, ap (λ (o : List (Option ℕ)). some g ∷ o) changed, before)
  where
    before : (i : ℕ) → i < suc j → get_elem? (some g ∷ ofile) i ≢ some none
    before zero l h = cc
    before (suc i) l h = least i (omega arith) h

-- `fdalloc` gives the file the least free descriptor and changes no other, or fails with every descriptor in
-- use and the table as it was; counted from `fd`.
pub fdalloc_from-FdSpec :
    (f : ℕ) (ofile : List (Option ℕ)) (fd : ℕ)
    → FdSpec f ofile fd (fdalloc_from f ofile fd).0 (fdalloc_from f ofile fd).1
unfolding fdalloc_from
fdalloc_from-FdSpec f [] fd = (refl, tt)
fdalloc_from-FdSpec f (none ∷ ofile) fd = (0, omega arith, refl, refl, λ i l. absurd (omega arith))
fdalloc_from-FdSpec f (some g ∷ ofile) fd =
    FdSpec-used f g ofile _ fd _ (fdalloc_from-FdSpec f ofile (fd + 1))
