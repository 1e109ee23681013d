-- ===== src/Fs/Paths.antt =====
-- Paths: skipelem, namex, namei and nameiparent. A path is the list of its bytes up to the NUL.
pub mod Elements
use cs537_sp23_operating_sys.Common.{
  ℕ, List, Bool, Option, [], false, get_elem?, get_or, if◌then◌else◌, length, ltb, none, not, some,
  suc, true, zero, ◌&&◌, ◌+◌, ◌==◌, ◌∷◌,
}
use cs537_sp23_operating_sys.Fs.{Run, panics, waits, returns, ◌>>=◌, Fs}
use cs537_sp23_operating_sys.Fs.Inodes.{iget, idup, ilock, iunlock, iput, iunlockput}
use cs537_sp23_operating_sys.Fs.Directories.{Name, dirlookup}

pub skip_slashes : List ℕ → List ℕ
skip_slashes [] = []
skip_slashes (c ∷ path) = elim (c == 47) [ true ↦ skip_slashes path | false ↦ c ∷ path ]

-- The bytes up to the next slash, and the rest from it on.
pub first_part : List ℕ → List ℕ × List ℕ
first_part [] = ([], [])
first_part (c ∷ path) = elim (c == 47) [
  | true ↦ ([], c ∷ path)
  | false ↦ (c ∷ (first_part path).0, (first_part path).1)
]

-- The element in the array: at most 14 bytes of it, and a zero byte behind a shorter one.
abbrev pub copy_name : List ℕ → Name → Name
copy_name elem name i =
    if ltb i (length elem) && ltb i 14
    then get_or elem i 0
    else if (i == length elem) && ltb (length elem) 14
    then 0
    else name i

-- The path behind the next element, and the name.
pub skipelem : List ℕ → Name → Option (List ℕ × Name)
skipelem path name = elim (skip_slashes path) [
  | [] ↦ none
  | c ∷ rest ↦
      some (skip_slashes (first_part (c ∷ rest)).1, copy_name (first_part (c ∷ rest)).0 name)
]

-- What a round of the loop of `namex` comes to: the end, where none is the null pointer, or the next inode.
pub data Step : Type 0 where
  stop : Option (ℕ × Name) → Step
  next : ℕ → Step

-- A round behind the call of `skipelem`; `last` is that the parent is wanted and the path ends.
pub visit : Bool → Name → ℕ → Fs → Run (Step × Fs)
visit last elem ip s = ilock ip s >>= λ s1. elim (get_elem? s1.inodes ip) [
  | none ↦ panics
  | some x ↦
      if not (x.type == 1)
      then (iunlockput ip s1 >>= λ t. returns (stop none, t))
      else if last
      then (iunlock ip s1 >>= λ t. returns (stop (some (ip, elem)), t))
      else (dirlookup ip elem s1 >>= λ r. iunlockput ip r.1 >>= λ t.
          returns (elim (r.0) [ none ↦ stop none | some found ↦ next (found.1) ], t))
]

-- What is left where the path has no more elements.
pub arrive : Bool → Name → ℕ → Fs → Run (Option (ℕ × Name) × Fs)
arrive parent name ip s =
    if parent then (iput ip s >>= λ t. returns (none, t)) else returns (some (ip, name), s)

-- The end of a round: the loop returns, or goes on at the next inode.
abbrev pub resume :
    (ℕ → Fs → Run (Option (ℕ × Name) × Fs)) → Step × Fs → Run (Option (ℕ × Name) × Fs)
resume go (stop result, s) = returns (result, s)
resume go (next ip, s) = go ip s

-- The loop of `namex`, with fuel; without fuel it would go on.
pub walk : ℕ → Bool → List ℕ → Name → ℕ → Fs → Run (Option (ℕ × Name) × Fs)
walk zero parent path name ip s = waits
walk (suc fuel) parent path name ip s = elim (skipelem path name) [
  | none ↦ arrive parent name ip s
  | some (rest, elem) ↦ visit (parent && (length rest == 0)) elem ip s >>= λ v.
      resume (λ ip' t. walk fuel parent rest elem ip' t) v
]

-- `cwd` is the inode of the current directory.
pub namex : List ℕ → Bool → Name → ℕ → Fs → Run (Option (ℕ × Name) × Fs)
namex path parent name cwd s =
    (if get_or path 0 0 == 47 then iget 1 1 s else returns (cwd, idup cwd s)) >>= λ r.
    walk (length path + 1) parent path name (r.0) r.1

abbrev pub namei : List ℕ → Name → ℕ → Fs → Run (Option (ℕ × Name) × Fs)
namei path name cwd s = namex path false name cwd s

abbrev pub nameiparent : List ℕ → Name → ℕ → Fs → Run (Option (ℕ × Name) × Fs)
nameiparent path name cwd s = namex path true name cwd s
