-- ===== src/Fs/Inodes.antt =====
-- The cache of inodes: iget, idup, ilock, iunlock and iput, and the allocation of inodes.
pub mod Refs
pub mod Scan
use cs537_sp23_operating_sys.Common.{
  ℕ, load, Memory, Bool, List, Option, [], false, get_elem?, if◌then◌else◌, ltb, none, not, rank,
  set, some, suc, true, zero, ◌%◌, ◌&&◌, ◌*◌, ◌+◌, ◌-◌, ◌==◌, ◌^◌, ◌||◌, ◌∷◌,
}
use cs537_sp23_operating_sys.Strings.{memset}
use cs537_sp23_operating_sys.Fs.{Run, panics, waits, returns, ◌>>=◌, Inode, Open, Fs}
use cs537_sp23_operating_sys.Fs.Blocks.{sb_ninodes}
use cs537_sp23_operating_sys.Fs.Contents.{dinode, put_short, iupdate, itrunc}

abbrev pub half : Memory → ℕ → ℕ
half m a = m a + 256 * m (a + 1)

-- Whether somebody holds the inode: `ref` is an `int`.
abbrev pub is_held : Inode → Bool
is_held x = ltb (rank 0) (rank x.ref)

-- What the scan of the cache finds: the inode itself, the first slot without a holder, or neither.
pub data Place : Type 0 where
  cached : ℕ → Place
  empty : ℕ → Place
  full : Place

-- The loop of `iget` from slot `i` on, with the empty slot that it remembers.
pub iget_from : List Inode → ℕ → Option ℕ → ℕ → ℕ → Place
iget_from [] i none dev inum = full
iget_from [] i (some j) dev inum = empty j
iget_from (x ∷ xs) i slot dev inum = elim (is_held x && (x.dev == dev) && (x.inum == inum)) [
  | true ↦ cached i
  | false ↦ elim slot [
    | none ↦ iget_from xs (i + 1) (if x.ref == 0 then some i else none) dev inum
    | some j ↦ iget_from xs (i + 1) (some j) dev inum
  ]
]

abbrev pub one_more : Inode → Inode
one_more x = record x { ref = (x.ref + 1) % 2 ^ 32 }

-- A slot for the inode, which is not yet read.
abbrev pub taken_by : ℕ → ℕ → Inode → Inode
taken_by dev inum x = record x { dev = dev; inum = inum; ref = 1; busy = false; valid = false }

-- The inode at an index of the cache; an index outside stands for no inode.
abbrev pub change : ℕ → (Inode → Inode) → List Inode → List Inode
change i f xs = elim (get_elem? xs i) [ none ↦ xs | some x ↦ set xs i (f x) ]

pub iget : ℕ → ℕ → Fs → Run (ℕ × Fs)
iget dev inum s = elim (iget_from s.inodes 0 none dev inum) [
  | cached i ↦ returns (i, record s { inodes = change i one_more s.inodes })
  | empty j ↦ returns (j, record s { inodes = change j (taken_by dev inum) s.inodes })
  | full ↦ panics
]

pub idup : ℕ → Fs → Fs
idup i s = record s { inodes = change i one_more s.inodes }

-- The inode as it stands on the disk.
abbrev pub from_disk : Memory → Inode → Inode
from_disk disk x =
    let a = dinode x.inum in
    record x {
      valid = true;
      type = half disk a;
      major = half disk (a + 2);
      minor = half disk (a + 4);
      nlink = half disk (a + 6);
      size = load disk (a + 8);
      addrs = λ i. load disk (a + 12 + 4 * i);
    }

pub ilock : ℕ → Fs → Run Fs
ilock i s = elim (get_elem? s.inodes i) [
  | none ↦ panics
  | some x ↦
      if not (is_held x)
      then panics
      else if x.busy
      then waits
      else let y = if x.valid then x else from_disk s.disk x in
        if not x.valid && (y.type == 0)
        then panics
        else returns (record s { inodes = set s.inodes i (record y { busy = true }) })
]

pub iunlock : ℕ → Fs → Run Fs
iunlock i s = elim (get_elem? s.inodes i) [
  | none ↦ panics
  | some x ↦
      if not x.busy || not (is_held x)
      then panics
      else returns (record s { inodes = set s.inodes i (record x { busy = false }) })
]

abbrev pub one_less : Inode → Inode
one_less x = record x { ref = (x.ref + (2 ^ 32 - 1)) % 2 ^ 32 }

-- The end of an inode that nobody uses and no name refers to.
pub free_inode : Inode → Memory → Run Open
free_inode x disk = itrunc (record { ip = record x { busy = true }; disk = disk }) >>= λ f.
    let y = record f.ip { type = 0 } in
    returns (record { ip = record y { busy = false; valid = false }; disk = iupdate y f.disk })

pub iput : ℕ → Fs → Run Fs
iput i s = elim (get_elem? s.inodes i) [
  | none ↦ panics
  | some x ↦
      if (x.ref == 1) && x.valid && (x.nlink == 0)
      then if x.busy
        then panics
        else (free_inode x s.disk >>= λ f.
            returns (record { inodes = set s.inodes i (one_less f.ip); disk = f.disk }))
      else returns (record s { inodes = set s.inodes i (one_less x) })
]

pub iunlockput : ℕ → Fs → Run Fs
iunlockput i s = iunlock i s >>= iput i

-- The loop of `ialloc` from inode `inum` on, by the inodes left: the first one that is free.
pub ialloc_from : ℕ → ℕ → Memory → Option ℕ
ialloc_from zero inum disk = none
ialloc_from (suc n) inum disk = elim (half disk (dinode inum) == 0) [
  | true ↦ some inum
  | false ↦ ialloc_from n (inum + 1) disk
]

pub ialloc : ℕ → ℕ → Fs → Run (ℕ × Fs)
ialloc dev type s = elim (ialloc_from (sb_ninodes s.disk - 1) 1 s.disk) [
  | none ↦ panics
  | some inum ↦
      iget dev inum
        (record s { disk = put_short (memset s.disk (dinode inum) 0 64) (dinode inum) type })
]
