-- ===== src/Fs.antt =====
-- The file system, P5_XV6_CoW_Fork/kernel/fs.c and fs.h, on one device: blocks, inodes, contents, directories
-- and paths. The buffer cache is seen through: a block read is its bytes on the disk, and a block written is
-- on the disk at once.
mod Blocks
mod Inodes
mod Contents
mod Directories
mod Paths
mod Links
mod Tests
use cs537_sp23_operating_sys.Common.{ℕ, Memory, Bool, List, ◌*◌, ◌+◌}

-- The bytes of the disk, by block and place in it.
abbrev pub place : ℕ → ℕ → ℕ
place b o = b * 512 + o

-- What a call comes to: the panic, a wait for an inode that is locked, or a result.
pub data Run (A : Type 0) : Type 0 where
  panics : Run A
  waits : Run A
  returns : A → Run A

-- What follows a call is reached only if the call returns.
infixl 5 ◌>>=◌
abbrev pub ◌>>=◌ : {A R : Type 0} (call : Run A) (rest : A → Run R) → Run R
panics >>= rest = panics
waits >>= rest = waits
returns result >>= rest = rest result

-- `struct inode`, with its flags as Booleans.
pub record Inode : Type 0 where
  pub dev : ℕ
  pub inum : ℕ
  pub ref : ℕ
  pub busy : Bool
  pub valid : Bool
  pub type : ℕ
  pub major : ℕ
  pub minor : ℕ
  pub nlink : ℕ
  pub size : ℕ
  pub addrs : ℕ → ℕ

-- An inode in memory with the disk.
pub record Open : Type 0 where
  pub ip : Inode
  pub disk : Memory

-- The cache of inodes and the disk.
pub record Fs : Type 0 where
  pub inodes : List Inode
  pub disk : Memory
