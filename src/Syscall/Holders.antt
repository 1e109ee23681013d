-- ===== src/Syscall/Holders.antt =====
-- `dup` and `close`: the reference count of each file against its descriptors.

use cs537_sp23_operating_sys.Common.{
  ℕ, List, Option, [], arith, get_elem?, get_or, if◌then◌else◌, length, none, set, some, suc, zero,
  ◌+◌, ◌<◌, ◌==◌, ◌^◌, ◌∷◌, ◌≡◌, Option-cases, inl, inr, ok, refl, ◌∙◌, Bool, Outcome, false,
  get_elem?-eq-get_or, true,
}
use cs537_sp23_operating_sys.File.{File, closing, fd_none, Closing, nothing}
use cs537_sp23_operating_sys.File.Refs.{Counts, filedup-Counts, fileclose-Counts}
use cs537_sp23_operating_sys.Syscall.{Caller, Files, argfd, fdalloc, sys_dup, sys_close}
use cs537_sp23_operating_sys.Syscall.Descriptors.{FdSpec, fdalloc_from-FdSpec}

abbrev pub points_to : Option ℕ → ℕ → ℕ
points_to none g = 0
points_to (some f) g = if f == g then 1 else 0

-- The number of descriptors of file `g`.
abbrev pub uses : List (Option ℕ) → ℕ → ℕ
uses [] g = 0
uses (o ∷ ofile) g = points_to o g + uses ofile g

uses-set :
    (ofile : List (Option ℕ)) (j g : ℕ) (old new : Option ℕ)
    → get_elem? ofile j ≡ some old
    → uses (set ofile j new) g + points_to old g ≡ uses ofile g + points_to new g
uses-set [] j g old new h = cc
uses-set (o ∷ ofile) zero g old new h = let same : o ≡ old = cc in rw same (omega arith)
uses-set (o ∷ ofile) (suc j) g old new h = omega (arith, uses-set ofile j g old new h)

uses-pos :
    (ofile : List (Option ℕ)) (j f : ℕ) → get_elem? ofile j ≡ some (some f) → 0 < uses ofile f
uses-pos [] j f h = cc
uses-pos (o ∷ ofile) zero f h = let same : o ≡ some f = cc in rw same (ground arith)
uses-pos (o ∷ ofile) (suc j) f h = omega (arith, uses-pos ofile j f h)

-- The count of each file is the number of its descriptors here and of its `others`; every descriptor is of
-- a file of the table, and no count is near the largest `int`.
pub record Match (others : ℕ → ℕ) (s : Files) : Type 0 where
  pub counts : Counts s.ftable (λ g. uses s.ofile g + others g)
  pub known : (fd f : ℕ) → get_elem? s.ofile fd ≡ some (some f) → f < length s.ftable
  pub small : (g : ℕ) → uses s.ofile g + others g < 2 ^ 31

get_elem?_of_get_or :
    (ofile : List (Option ℕ)) (i f : ℕ)
    → get_or ofile i none ≡ some f
    → get_elem? ofile i ≡ some (some f)
get_elem?_of_get_or [] i f h = cc
get_elem?_of_get_or (o ∷ ofile) zero f h = rw h refl
get_elem?_of_get_or (o ∷ ofile) (suc i) f h = get_elem?_of_get_or ofile i f h

argfd-there :
    (p : Caller) (ofile : List (Option ℕ)) (n fd f : ℕ)
    → argfd p ofile n ≡ some (fd, f)
    → get_elem? ofile fd ≡ some (some f)
unfolding argfd
argfd-there p ofile n fd f h = ground (arith, get_elem?_of_get_or ofile fd f, h)

-- The counts after one more holder of `i`, or one less, as those of the new descriptors.
Counts-eq : (fs : List File) (h h' : ℕ → ℕ) → Counts fs h → ((g : ℕ) → h g ≡ h' g) → Counts fs h'
Counts-eq fs h h' c same i f there = c i f there ∙ same i

abbrev no_file : File
no_file = record { type = fd_none; ref = 0; readable = 0; writable = 0; pipe = 0; ip = 0; off = 0 }

module _ (others : ℕ → ℕ) (p : Caller) (s : Files) (match : Match others s) where
  abbrev held : ℕ → ℕ
  held g = uses s.ofile g + others g

  abbrev DupDone : Outcome (Option ℕ × Files) → Type 0
  DupDone o =
      (r : Option ℕ) × (s' : Files) × (o ≡ ok (r, s'))
      × Counts s'.ftable (λ g. uses s'.ofile g + others g)

  dup_held :
      (fd f : ℕ) (d : Option ℕ)
      → argfd p s.ofile 0 ≡ some (fd, f)
      → (fdalloc f s.ofile).0 ≡ d
      → FdSpec f s.ofile 0 d (fdalloc f s.ofile).1
      → DupDone (sys_dup p s)
  unfolding sys_dup
  dup_held fd f none good e (same, full) = (
    none,
    record s { ofile = (fdalloc f s.ofile).1 },
    rw (good, e, sys_dup) refl,
    rw same match.counts,
  )
  dup_held fd f (some d) good e (j, d_eq, free, changed, least) =
      let there = argfd-there p s.ofile 0 fd f good in
      let file = get_elem?-eq-get_or s.ftable f no_file (match.known fd f there) in
      let (ftable, e2, counts) =
        filedup-Counts s.ftable held f _ match.counts file
          (omega (arith, uses-pos s.ofile fd f there)) (match.small f) in
      (
        some d,
        record { ofile = (fdalloc f s.ofile).1; ftable = ftable },
        rw (good, e, e2, sys_dup) refl,
        Counts-eq ftable _ _ counts
            (λ g. rw changed (ground (arith, uses-set s.ofile j g none (some f) free))),
      )

  -- `dup`, where every file's count is the number of its descriptors, does not panic, and the counts are
  -- again those numbers.
  pub sys_dup-Counts :
      (r : Option ℕ) × (s' : Files) × (sys_dup p s ≡ ok (r, s'))
      × Counts s'.ftable (λ g. uses s'.ofile g + others g)
  unfolding sys_dup
  sys_dup-Counts = elim (Option-cases (argfd p s.ofile 0)) [
    | inl bad ↦ (none, s, rw (bad, sys_dup) refl, match.counts)
    | inr ((fd, f), good) ↦
        dup_held fd f (fdalloc f s.ofile).0 good refl (fdalloc_from-FdSpec f s.ofile 0)
  ]

  -- `close`, where every file's count is the number of its descriptors, does not panic, and the counts are
  -- again those numbers.
  pub sys_close-Counts :
      (r : Bool) × (s' : Files) × (c : Closing) × (sys_close p s ≡ ok (r, s', c))
      × Counts s'.ftable (λ g. uses s'.ofile g + others g)
  unfolding sys_close
  sys_close-Counts = elim (Option-cases (argfd p s.ofile 0)) [
    | inl bad ↦ (false, s, nothing, rw (bad, sys_close) refl, match.counts)
    | inr ((fd, f), good) ↦
        let there = argfd-there p s.ofile 0 fd f good in
        let file = get_elem?-eq-get_or s.ftable f no_file (match.known fd f there) in
        let one = uses-pos s.ofile fd f there in
        let (ftable, e2, counts) =
          fileclose-Counts s.ftable held f _ match.counts file (omega arith) (match.small f) in
        (
          true,
          record { ofile = set s.ofile fd none; ftable = ftable },
          (if held f == 1 then closing (get_or s.ftable f no_file) else nothing),
          rw (good, e2, sys_close) refl,
          Counts-eq ftable _ _ counts
              (λ g. ground (arith, one, uses-set s.ofile fd g (some f) none there)),
        )
  ]
