-- ===== src/File/Refs.antt =====
-- The reference counts of open files against the number of their holders.
use native.Mathlib.Decide.{ℕ_discrete}
use cs537_sp23_operating_sys.Common.{
  ℕ, List, ==→eq, All, Bool-cases, Option, [], ap, arith, false, get_elem?, get_elem?-set_ne,
  get_elem?-set_self, if◌then◌else◌, inl, inr, length, ltb, ne→==, none, ok, rank, refl, set, some,
  suc, sym, true, update, zero, ◌%◌, ◌+◌, ◌-◌, ◌<◌, ◌==◌, ◌^◌, ◌∙◌, ◌∷◌, ◌≡◌, ◌≢◌, ◌⊎◌,
}
use cs537_sp23_operating_sys.File.{
  File, filealloc, filedup, fileclose, nothing, closing, is_free, fd_none,
}

-- `h i` processes hold file `i`.
abbrev pub Counts : List File → (ℕ → ℕ) → Type 0
Counts fs h = (i : ℕ) (f : File) → get_elem? fs i ≡ some f → f.ref ≡ h i

Counts-set :
    (fs : List File) (h : ℕ → ℕ) (i n : ℕ) (f f' : File)
    → Counts fs h
    → get_elem? fs i ≡ some f
    → f'.ref ≡ n
    → Counts (set fs i f') (update h i n)
Counts-set fs h i n f f' c there e j g eq = elim (ℕ_discrete i j) [
  | yes same ↦ ground (arith, get_elem?-set_self fs i f' f there)
  | no ne ↦ ground (arith, get_elem?-set_ne fs i j f' ne, c j g)
]

-- A file that somebody holds can be shared: `filedup` does not panic, and counts one holder more.
pub filedup-Counts :
    (fs : List File) (h : ℕ → ℕ) (i : ℕ) (f : File)
    → Counts fs h
    → get_elem? fs i ≡ some f
    → 0 < h i
    → h i < 2 ^ 31
    → (fs' : List File) × (filedup i fs ≡ ok fs') × Counts fs' (update h i (h i + 1))
unfolding filedup
filedup-Counts fs h i f c there low high =
    let r : f.ref ≡ h i = c i f there in
    let used : is_free f ≡ false = ground arith in
    (
      _,
      rw (there, filedup, used) refl,
      Counts-set fs h i (h i + 1) f (record f { ref = (f.ref + 1) % 2 ^ 32 }) c there (omega arith),
    )

-- A holder can give up a file: `fileclose` does not panic and counts one holder less, and only for the
-- last one it closes the pipe or the inode behind the file.
pub fileclose-Counts :
    (fs : List File) (h : ℕ → ℕ) (i : ℕ) (f : File)
    → Counts fs h
    → get_elem? fs i ≡ some f
    → 0 < h i
    → h i < 2 ^ 31
    → (fs' : List File) × (fileclose i fs ≡ ok (fs', if h i == 1 then closing f else nothing))
      × Counts fs' (update h i (h i - 1))
unfolding fileclose
fileclose-Counts fs h i f c there low high =
    let r : f.ref ≡ h i = c i f there in
    let used : is_free f ≡ false = ground arith in
    elim (ℕ_discrete (h i) 1) [
      | yes last ↦
          let gone : ltb (rank 0) (rank ((f.ref + (2 ^ 32 - 1)) % 2 ^ 32)) ≡ false = ground arith in
          (
            _,
            rw (there, fileclose, used, gone, last) refl,
            Counts-set fs h i (h i - 1) f (record f { ref = 0; type = fd_none }) c there
                (omega arith),
          )
      | no more ↦
          let kept : ltb (rank 0) (rank ((f.ref + (2 ^ 32 - 1)) % 2 ^ 32)) ≡ true = ground arith in
          let not_last : (h i == 1) ≡ false = ne→== (h i) 1 more in
          (
            _,
            rw (there, fileclose, used, kept, not_last) refl,
            Counts-set fs h i (h i - 1) f (record f { ref = (f.ref + (2 ^ 32 - 1)) % 2 ^ 32 }) c
                there (omega arith),
          )
    ]

-- What `filealloc` has done to the table from slot `i` on.
abbrev pub AllocSpec : List File → ℕ → Option ℕ → List File → Type 0
AllocSpec fs i none fs' = (fs' ≡ fs) × All (λ (f : File). f.ref ≢ 0) fs
AllocSpec fs i (some k) fs' =
    (j : ℕ) × (f : File) × (k ≡ i + j)
    × (get_elem? fs j ≡ some f)
    × (f.ref ≡ 0)
    × (fs' ≡ set fs j (record f { ref = 1 }))

AllocSpec-cons :
    (f : File) (fs fs' : List File) (i : ℕ) (k : Option ℕ)
    → f.ref ≢ 0
    → AllocSpec fs (i + 1) k fs'
    → AllocSpec (f ∷ fs) i k (f ∷ fs')
AllocSpec-cons f fs fs' i none used (e, all) = (ap (λ (x : List File). f ∷ x) e, (used, all))
AllocSpec-cons f fs fs' i (some k) used (j, g, e, there, free, t) =
    (suc j, g, omega arith, there, free, ap (λ (x : List File). f ∷ x) t)

filealloc-AllocSpec :
    (fs : List File) (i : ℕ) → AllocSpec fs i (filealloc fs i).0 (filealloc fs i).1
unfolding filealloc
filealloc-AllocSpec [] i = (refl, tt)
filealloc-AllocSpec (f ∷ fs) i = elim (Bool-cases (f.ref == 0)) [
  | inl free ↦ rw free (0, f, omega arith, refl, ==→eq f.ref 0 free, refl)
  | inr used ↦ rw used (AllocSpec-cons f fs _ i _ (ground arith) (filealloc-AllocSpec fs (i + 1)))
]

-- `filealloc` gives out a file that nobody holds, which then has one holder, or it fails, with every file
-- of the table held and nothing changed.
pub filealloc-Counts :
    (fs : List File) (h : ℕ → ℕ)
    → Counts fs h
    → ((k : ℕ) × (fs' : List File) × (filealloc fs 0 ≡ (some k, fs'))
        × (h k ≡ 0)
        × Counts fs' (update h k 1))
      ⊎ ((filealloc fs 0 ≡ (none, fs)) × ((k : ℕ) → k < length fs → h k ≢ 0))
filealloc-Counts fs h c = go (filealloc fs 0).0 (filealloc fs 0).1 refl (filealloc-AllocSpec fs 0)
  where
    held :
        (gs : List File) (g : ℕ → ℕ)
        → Counts gs g
        → All (λ (f : File). f.ref ≢ 0) gs
        → (k : ℕ) → k < length gs
        → g k ≢ 0
    held [] g cs all k l = absurd (omega arith)
    held (f ∷ gs) g cs (used, all) zero l = λ e. used (cs 0 f refl ∙ e)
    held (f ∷ gs) g cs (used, all) (suc k) l =
        held gs (λ m. g (suc m)) (λ m q there. cs (suc m) q there) all k (omega arith)

    go :
        (k : Option ℕ) (fs' : List File)
        → filealloc fs 0 ≡ (k, fs')
        → AllocSpec fs 0 k fs'
        → ((k : ℕ) × (fs' : List File) × (filealloc fs 0 ≡ (some k, fs'))
            × (h k ≡ 0)
            × Counts fs' (update h k 1))
          ⊎ ((filealloc fs 0 ≡ (none, fs)) × ((k : ℕ) → k < length fs → h k ≢ 0))
    go none fs' eq (e, all) = inr (eq ∙ ap (λ (x : List File). (none, x)) e, held fs h c all)
    go (some k) fs' eq (j, f, e, there, free, t) =
        let k_eq : k ≡ j = omega arith in
        let at_k : get_elem? fs k ≡ some f = ap (get_elem? fs) k_eq ∙ there in
        inl (
          k,
          fs',
          eq,
          sym (c k f at_k) ∙ free,
          rw (t, ← k_eq) (Counts-set fs h k 1 f (record f { ref = 1 }) c at_k refl),
        )
