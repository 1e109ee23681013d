-- ===== src/Fs/Tests.antt =====
-- Runs of the file system, and the theorems at a small disk.
use cs537_sp23_operating_sys.Fs.Links.{isdirempty}
use cs537_sp23_operating_sys.Fs.Links.Empty.{inum_at, isdirempty_lem}
use cs537_sp23_operating_sys.Common.{
  ℕ, All, Memory, [], arith, false, if◌then◌else◌, leb, ltb, refl, suc, true, zero, ◌&&◌, ◌*◌, ◌+◌,
  ◌-◌, ◌/◌, ◌<◌, ◌==◌, ◌∷◌, ◌≡◌, ◌≢◌, ◌≤◌, ◌⊎◌, load,
}
use cs537_sp23_operating_sys.Fs.{place, panics, returns, Inode, Open, Fs}
use cs537_sp23_operating_sys.Fs.Blocks.{bit, bblock, bit_byte, sb_size, sb_ninodes, balloc, bfree}
use cs537_sp23_operating_sys.Fs.Blocks.Scan.{in_use}
use cs537_sp23_operating_sys.Fs.Blocks.Bitmap.{balloc-first, bfree-clears}
use cs537_sp23_operating_sys.Fs.Inodes.{iget}
use cs537_sp23_operating_sys.Fs.Inodes.Refs.{Counts, AtMostOne, Given, iget-Given}
use cs537_sp23_operating_sys.Fs.Contents.{moved, readi, writei}
use cs537_sp23_operating_sys.Fs.Contents.Reads.{byte_at, IsMapped}
use cs537_sp23_operating_sys.Fs.Contents.Writes.{IsSeparate, readi-writei}
use cs537_sp23_operating_sys.Fs.Directories.{Name}
use cs537_sp23_operating_sys.Fs.Paths.{walk}
use cs537_sp23_operating_sys.Fs.Paths.Elements.{elements, follow, walk-follow}

-- A disk of 20 blocks with 8 inodes: the bitmap is block 4, and the blocks up to 6 are in use. The root
-- directory is in block 5, with the entry `a` for inode 2, and the file `a` is in block 6.
abbrev small : Memory
small a =
    if a == 512
    then 20
    else if a == 520
    then 8
    else if a == 2048
    then 127
    else if a == 2560
    then 2
    else if a == 2562
    then 97
    else if leb 3072 a && ltb a 3075
    then a - 3000
    else 0

abbrev root : Inode
root = record {
  dev = 1;
  inum = 1;
  ref = 1;
  busy = false;
  valid = true;
  type = 1;
  major = 0;
  minor = 0;
  nlink = 1;
  size = 16;
  addrs = λ i. if i == 0 then 5 else 0;
}

abbrev unused : Inode
unused = record root { inum = 0; ref = 0; valid = false }

abbrev file : Inode
file = record root {
  inum = 2;
  busy = true;
  type = 2;
  size = 3;
  addrs = λ i. if i == 0 then 6 else 0;
}

abbrev opened : Open
opened = record { ip = file; disk = small }

abbrev cache : Fs
cache = record { inodes = root ∷ unused ∷ []; disk = small }

abbrev holders : ℕ → ℕ
holders k = if k == 0 then 1 else 0

balloc-first_example :
    ((b : ℕ) × (disk' : Memory) × (balloc small ≡ returns (b, disk'))
      × (b / 4096 * 4096 < sb_size small)
      × (in_use small b ≡ 0)
      × ((c : ℕ) → c < b → in_use small c ≢ 0)
      × (in_use disk' b ≡ 1)
      × ((c : ℕ) → c ≢ b → in_use disk' c ≡ in_use small c)
      × ((a : ℕ) → a ≢ bit_byte small b → disk' a ≡ small a))
    ⊎ ((balloc small ≡ panics) × ((c : ℕ) → c < sb_size small → in_use small c ≢ 0))
balloc-first_example = balloc-first small

file_in_use : in_use small 6 ≢ 0
unfolding bit load
file_in_use = λ e. cc

bfree-clears_example :
    (disk' : Memory) × (bfree 6 small ≡ returns disk')
    × (in_use disk' 6 ≡ 0)
    × ((c : ℕ) → c ≢ 6 → bblock c (sb_ninodes small) ≢ 6 → in_use disk' c ≡ in_use small c)
    × ((o : ℕ) → o < 512 → disk' (place 6 o) ≡ 0)
    × ((a : ℕ) → a / 512 ≢ 6 → a ≢ bit_byte small 6 → disk' a ≡ small a)
unfolding load
bfree-clears_example = bfree-clears 6 small (λ e. cc) (λ e. cc) file_in_use

cache-Counts : Counts cache.inodes holders
cache-Counts zero x there = ground arith
cache-Counts (suc zero) x there = ground arith
cache-Counts (suc (suc i)) x there = cc

cache-AtMostOne : AtMostOne cache.inodes
cache-AtMostOne dev inum zero zero x y a b fx fy = refl
cache-AtMostOne dev inum zero (suc zero) x y a b fx fy = absurd (ground arith)
cache-AtMostOne dev inum zero (suc (suc j)) x y a b fx fy = cc
cache-AtMostOne dev inum (suc zero) j x y a b fx fy = absurd (ground arith)
cache-AtMostOne dev inum (suc (suc i)) j x y a b fx fy = cc

iget-Given_example :
    ((k : ℕ) × (s' : Fs) × (iget 1 2 cache ≡ returns (k, s')) × Given 1 2 cache holders k s')
    ⊎ ((iget 1 2 cache ≡ panics) × All (λ (x : Inode). x.ref ≢ 0) cache.inodes)
iget-Given_example = iget-Given 1 2 cache holders cache-Counts cache-AtMostOne (λ k. ground arith)

opened-IsMapped : IsMapped opened
opened-IsMapped = record {
  fits = omega arith;
  indirect = λ far. absurd (omega arith);
  mapped = λ bn low e. ground arith;
}

opened-IsSeparate : IsSeparate opened
opened-IsSeparate = record {
  all = opened-IsMapped;
  distinct = λ i j low_i low_j e. omega arith;
  no_table = λ i low far e. absurd (omega arith);
}

readi-writei_example :
    (g : Open) × (writei (λ d. false) 1 (120 ∷ 121 ∷ []) opened ≡ returns (moved 2, g))
    × (readi (λ d. false) 1 2 g ≡ returns (moved (120 ∷ 121 ∷ []), g))
    × (g.ip ≡ opened.ip)
    × IsSeparate g
    × ((k : ℕ) → k < 3 → (k < 1) ⊎ (1 + 2 ≤ k) → byte_at g k ≡ byte_at opened k)
readi-writei_example =
    readi-writei (λ d. false) (λ d. false) 1 (120 ∷ 121 ∷ []) opened opened-IsSeparate (λ e. cc)
      (omega arith)

abbrev no_name : Name
no_name i = 0

-- The path "/a".
walk-follow_example :
    walk 3 false (47 ∷ 97 ∷ []) no_name 0 cache
    ≡ follow false (elements (47 ∷ 97 ∷ [])) no_name 0 cache
walk-follow_example = walk-follow 3 false (47 ∷ 97 ∷ []) no_name 0 cache (omega arith)

-- The root directory with three entries, the first of them for inode 2.
abbrev directory : Open
directory = record { ip = record root { size = 48 }; disk = small }

directory-IsMapped : IsMapped directory
directory-IsMapped = record {
  fits = omega arith;
  indirect = λ far. absurd (omega arith);
  mapped = λ bn low e. ground arith;
}

isdirempty_lem_example :
    ((isdirempty (λ d. false) directory ≡ returns (true, directory))
      × ((j : ℕ) → 2 ≤ j → j < 2 + 1 → inum_at directory j ≡ 0))
    ⊎ ((isdirempty (λ d. false) directory ≡ returns (false, directory))
        × ((j : ℕ) × (2 ≤ j) × (j < 2 + 1) × (inum_at directory j ≢ 0)))
isdirempty_lem_example = isdirempty_lem (λ d. false) 1 directory directory-IsMapped refl refl
