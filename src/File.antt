-- ===== src/File.antt =====
-- The table of open files: P5_XV6_CoW_Fork/kernel/file.c and file.h.
-- Each routine runs with ftable.lock held; what fileclose does behind the lock is its second result.
pub mod Refs
use cs537_sp23_operating_sys.Common.{
  ℕ, List, Bool, Option, Outcome, [], get_elem?, if◌then◌else◌, ltb, none, ok, panic, rank, set,
  some, ◌%◌, ◌+◌, ◌-◌, ◌==◌, ◌^◌, ◌∷◌,
}

pub data FileType : Type 0 where
  fd_none fd_pipe fd_inode : FileType

-- `struct file`: `pipe` and `ip` are addresses, numbers are bit patterns.
pub record File : Type 0 where
  pub type : FileType
  pub ref : ℕ
  pub readable : ℕ
  pub writable : ℕ
  pub pipe : ℕ
  pub ip : ℕ
  pub off : ℕ

-- `f->ref < 1`
abbrev pub is_free : File → Bool
is_free f = ltb (rank f.ref) (rank 1)

-- The slot, if one is free, and the table; `i` is the number of the first slot.
pub filealloc : List File → ℕ → Option ℕ × List File
filealloc [] i = (none, [])
filealloc (f ∷ fs) i =
    let rest = filealloc fs (i + 1) in
    if f.ref == 0 then (some i, record f { ref = 1 } ∷ fs) else (rest.0, f ∷ rest.1)

-- An index outside the table stands for no file.
pub filedup : ℕ → List File → Outcome (List File)
filedup i fs = elim (get_elem? fs i) [
  | none ↦ panic
  | some f ↦ if is_free f then panic else ok (set fs i (record f { ref = (f.ref + 1) % 2 ^ 32 }))
]

-- What is left to do once the lock is given up.
pub data Closing : Type 0 where
  nothing : Closing
  closes_pipe : ℕ → ℕ → Closing
  puts_inode : ℕ → Closing

abbrev pub closing : File → Closing
closing f = elim (f.type) [
  | fd_none ↦ nothing
  | fd_pipe ↦ closes_pipe f.pipe f.writable
  | fd_inode ↦ puts_inode f.ip
]

pub fileclose : ℕ → List File → Outcome (List File × Closing)
fileclose i fs = elim (get_elem? fs i) [
  | none ↦ panic
  | some f ↦
      if is_free f
      then panic
      else if ltb (rank 0) (rank ((f.ref + (2 ^ 32 - 1)) % 2 ^ 32))
      then ok (set fs i (record f { ref = (f.ref + (2 ^ 32 - 1)) % 2 ^ 32 }), nothing)
      else ok (set fs i (record f { ref = 0; type = fd_none }), closing f)
]
