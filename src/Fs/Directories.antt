-- ===== src/Fs/Directories.antt =====
-- Directories: dirlookup and dirlink.
use cs537_sp23_operating_sys.Common.{
  ℕ, Memory, Bool, List, Option, [], false, get_elem?, get_or, if◌then◌else◌, length, none, not,
  replicate, set, some, suc, true, zero, ◌%◌, ◌&&◌, ◌*◌, ◌+◌, ◌/◌, ◌==◌, ◌∷◌,
}
use cs537_sp23_operating_sys.Fs.{place, Run, panics, returns, ◌>>=◌, Open, Fs}
use cs537_sp23_operating_sys.Fs.Contents.{bmap, readi, writei, failed, device, moved}
use cs537_sp23_operating_sys.Fs.Inodes.{half, iget, iput}

-- A name is an array of 14 bytes, with a zero byte behind a shorter one.
abbrev pub Name : Type 0
Name = ℕ → ℕ

-- `namecmp(s, t) == 0` from place `i` on, by the bytes left of DIRSIZ.
pub same_name_from : ℕ → ℕ → Name → Name → Bool
same_name_from zero i s t = true
same_name_from (suc n) i s t =
    let rest = same_name_from n (i + 1) s t in
    if s i == t i then (if s i == 0 then true else rest) else false

abbrev pub same_name : Name → Name → Bool
same_name s t = same_name_from 14 0 s t

-- A change of inode `i` and the disk; an index outside the cache is a panic.
pub with_inode : {A : Type 0} → ℕ → (Open → Run (A × Open)) → Fs → Run (A × Fs)
with_inode i call s = elim (get_elem? s.inodes i) [
  | none ↦ panics
  | some x ↦ call (record { ip = x; disk = s.disk }) >>= λ r.
      returns (r.0, record { inodes = set s.inodes i r.1.ip; disk = r.1.disk })
]

-- The entries of block `b` from number `k` on, by the entries left: the place in the block and the inode
-- number of the first one with the name.
pub find_entry_in : ℕ → ℕ → ℕ → Name → Memory → Option (ℕ × ℕ)
find_entry_in zero b k name disk = none
find_entry_in (suc n) b k name disk =
    let a = place b (16 * k) in
    elim (not (half disk a == 0) && same_name name (λ i. disk (a + 2 + i))) [
      | true ↦ some (16 * k, half disk a)
      | false ↦ find_entry_in n b (k + 1) name disk
    ]

-- The loop of `dirlookup` over the blocks, by the blocks left: the place in the directory and the inode
-- number.
pub lookup_from : ℕ → ℕ → Name → Open → Run (Option (ℕ × ℕ) × Open)
lookup_from zero off name f = returns (none, f)
lookup_from (suc n) off name f = bmap (off / 512) f >>= λ r.
    elim (find_entry_in 32 (r.0) 0 name r.1.disk) [
      | some found ↦ returns (some (off + found.0, found.1), r.1)
      | none ↦ lookup_from n (off + 512) name r.1
    ]

-- The place of the entry and the inode that it names, or none.
pub dirlookup : ℕ → Name → Fs → Run (Option (ℕ × ℕ) × Fs)
dirlookup dp name s = elim (get_elem? s.inodes dp) [
  | none ↦ panics
  | some x ↦
      if not (x.type == 1)
      then panics
      else (with_inode dp (lookup_from ((x.size + 511) / 512) 0 name) s >>= λ r. elim (r.0) [
        | none ↦ returns (none, r.1)
        | some found ↦ iget x.dev (found.1) r.1 >>= λ t. returns (some (found.0, t.0), t.1)
      ])
]

-- The bytes of an entry: the number, and the name with zero bytes behind its end.
pub padded : ℕ → ℕ → Name → List ℕ
padded zero i name = []
padded (suc n) i name = if name i == 0 then replicate (suc n) 0 else name i ∷ padded n (i + 1) name

abbrev pub dirent : ℕ → Name → List ℕ
dirent inum name = inum % 256 ∷ inum / 256 % 256 ∷ padded 14 0 name

module _ (has_device : ℕ → Bool) where
  -- The loop of `dirlink` for an empty entry, by the entries left: its place, or the end.
  pub empty_from : ℕ → ℕ → Open → Run (ℕ × Open)
  empty_from zero off f = returns (off, f)
  empty_from (suc n) off f = readi has_device off 16 f >>= λ r. elim (r.0) [
    | failed ↦ panics
    | device major ↦ panics
    | moved bytes ↦ elim (length bytes == 16) [
      | false ↦ panics
      | true ↦ elim (get_or bytes 0 0 + 256 * get_or bytes 1 0 == 0) [
        | true ↦ returns (off, r.1)
        | false ↦ empty_from n (off + 16) r.1
      ]
    ]
  ]

  -- The entry is written at the place found.
  pub link_entry : ℕ → Name → Open → Run (Unit {0} × Open)
  link_entry inum name f = empty_from ((f.ip.size + 15) / 16) 0 f >>= λ r.
      writei has_device (r.0) (dirent inum name) r.1 >>= λ w. elim (w.0) [
        | failed ↦ panics
        | device major ↦ panics
        | moved n ↦ if n == 16 then returns (tt, w.1) else panics
      ]

  -- False is -1: the name is there already.
  pub dirlink : ℕ → Name → ℕ → Fs → Run (Bool × Fs)
  dirlink dp name inum s = dirlookup dp name s >>= λ r. elim (r.0) [
    | some found ↦ iput (found.1) r.1 >>= λ t. returns (false, t)
    | none ↦ with_inode dp (link_entry inum name) r.1 >>= λ t. returns (true, t.1)
  ]
