-- ===== src/Syscall.antt =====
-- The arguments of system calls and the file descriptors of a process: P5_XV6_CoW_Fork/kernel/syscall.c
-- and the first part of sysfile.c. A result of none is -1.
pub mod Arguments
pub mod Descriptors
pub mod Holders
mod Tests
use cs537_sp23_operating_sys.Common.{
  ℕ, List, Option, load, Bool, Memory, Outcome, [], false, get_or, if◌then◌else◌, leb, ltb, none,
  ok, rank, set, some, suc, true, zero, ◌%◌, ◌*◌, ◌+◌, ◌-◌, ◌==◌, ◌>>=◌, ◌^◌, ◌||◌, ◌∷◌,
}
use cs537_sp23_operating_sys.File.{File, filedup, fileclose, Closing, nothing}

-- What the routines read of the process: the size of its memory, its stack pointer and the bytes.
pub record Caller : Type 0 where
  pub sz : ℕ
  pub esp : ℕ
  pub byte : Memory

-- The word at `addr`; `addr + 4` is computed on `uint`.
pub fetchint : Caller → ℕ → Option ℕ
fetchint p addr =
    if leb p.sz addr || ltb p.sz ((addr + 4) % 2 ^ 32) then none else some (load p.byte addr)

-- The loop of `fetchstr` from `s` on, by the bytes left.
pub fetchstr_from : ℕ → Memory → ℕ → ℕ → Option ℕ
fetchstr_from zero m s len = none
fetchstr_from (suc n) m s len = elim (m s == 0) [
  | true ↦ some len
  | false ↦ fetchstr_from n m (s + 1) (len + 1)
]

-- The length of the text at `addr`.
pub fetchstr : Caller → ℕ → Option ℕ
fetchstr p addr = if leb p.sz addr then none else fetchstr_from (p.sz - addr) p.byte addr 0

pub argint : Caller → ℕ → Option ℕ
argint p n = fetchint p ((p.esp + 4 + 4 * n) % 2 ^ 32)

-- The address of a block of `size` bytes; `size` is the pattern of an `int`, added as a `uint`.
pub argptr : Caller → ℕ → ℕ → Option ℕ
argptr p n size = elim (argint p n) [
  | none ↦ none
  | some i ↦ if leb p.sz i || ltb p.sz ((i + size) % 2 ^ 32) then none else some i
]

-- The address of a text and its length.
pub argstr : Caller → ℕ → Option (ℕ × ℕ)
argstr p n = elim (argint p n) [
  | none ↦ none
  | some addr ↦ elim (fetchstr p addr) [ none ↦ none | some len ↦ some (addr, len) ]
]

-- The descriptor and its file, from `ofile`.
pub argfd : Caller → List (Option ℕ) → ℕ → Option (ℕ × ℕ)
argfd p ofile n = elim (argint p n) [
  | none ↦ none
  | some fd ↦
      if ltb (rank fd) (rank 0) || leb (rank 16) (rank fd)
      then none
      else elim (get_or ofile fd none) [ none ↦ none | some f ↦ some (fd, f) ]
]

-- The loop of `fdalloc` from descriptor `fd` on: the descriptor, and the table.
pub fdalloc_from : ℕ → List (Option ℕ) → ℕ → Option ℕ × List (Option ℕ)
fdalloc_from f [] fd = (none, [])
fdalloc_from f (none ∷ ofile) fd = (some fd, some f ∷ ofile)
fdalloc_from f (some g ∷ ofile) fd =
    let rest = fdalloc_from f ofile (fd + 1) in (rest.0, some g ∷ rest.1)

abbrev pub fdalloc : ℕ → List (Option ℕ) → Option ℕ × List (Option ℕ)
fdalloc f ofile = fdalloc_from f ofile 0

-- The descriptors of the process and the table of files.
pub record Files : Type 0 where
  pub ofile : List (Option ℕ)
  pub ftable : List File

-- The new descriptor, or none.
pub sys_dup : Caller → Files → Outcome (Option ℕ × Files)
sys_dup p s = elim (argfd p s.ofile 0) [
  | none ↦ ok (none, s)
  | some (fd, f) ↦
      let (new, ofile) = fdalloc f s.ofile in
      elim new [
        | none ↦ ok (none, record s { ofile = ofile })
        | some d ↦
            filedup f s.ftable >>= λ ftable. ok (some d, record { ofile = ofile; ftable = ftable })
      ]
]

-- Whether it succeeded, and what closing the file leaves to do.
pub sys_close : Caller → Files → Outcome (Bool × Files × Closing)
sys_close p s = elim (argfd p s.ofile 0) [
  | none ↦ ok (false, s, nothing)
  | some (fd, f) ↦ fileclose f s.ftable >>= λ r.
      ok (true, record { ofile = set s.ofile fd none; ftable = r.0 }, r.1)
]
