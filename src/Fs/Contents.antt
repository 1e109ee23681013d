-- ===== src/Fs/Contents.antt =====
-- The contents of an inode: bmap, itrunc, readi and writei.
pub mod Reads
pub mod Writes
use cs537_sp23_operating_sys.Common.{
  ℕ, update, load, store, Memory, Bool, List, [], drop, false, if◌then◌else◌, leb, length, ltb, not,
  suc, take, true, zero, ◌%◌, ◌&&◌, ◌*◌, ◌++◌, ◌+◌, ◌-◌, ◌/◌, ◌==◌, ◌^◌, ◌||◌, ◌∷◌,
}
use cs537_sp23_operating_sys.Fs.{place, Run, panics, returns, ◌>>=◌, Inode, Open}
use cs537_sp23_operating_sys.Fs.Blocks.{balloc, bfree}

-- The place on the disk of the inode with number `inum`, and what `iupdate` writes there. A `short` is two
-- bytes.
abbrev pub dinode : ℕ → ℕ
dinode inum = place (inum / 8 + 2) (inum % 8 * 64)

abbrev pub put_short : Memory → ℕ → ℕ → Memory
put_short m a w = update (update m a (w % 256)) (a + 1) (w / 256 % 256)

-- The copy of `n` addresses from number `i` on.
pub put_addrs : ℕ → ℕ → ℕ → (ℕ → ℕ) → Memory → Memory
put_addrs zero i a addrs disk = disk
put_addrs (suc n) i a addrs disk = put_addrs n (i + 1) a addrs (store disk (a + 4 * i) (addrs i))

pub iupdate : Inode → Memory → Memory
iupdate x disk =
    let a = dinode x.inum in
    let d1 = put_short disk a x.type in
    let d2 = put_short d1 (a + 2) x.major in
    let d3 = put_short d2 (a + 4) x.minor in
    let d4 = put_short d3 (a + 6) x.nlink in
    put_addrs 13 0 (a + 12) x.addrs (store d4 (a + 8) x.size)

abbrev pub set_addr : ℕ → ℕ → Inode → Inode
set_addr i b x = record x { addrs = update x.addrs i b }

-- The address in slot `i` of the inode, allocated if it is 0.
pub slot : ℕ → Open → Run (ℕ × Open)
slot i f =
    if f.ip.addrs i == 0
    then (balloc f.disk >>= λ r. returns (r.0, record { ip = set_addr i (r.0) f.ip; disk = r.1 }))
    else returns (f.ip.addrs i, f)

-- The address in entry `i` of the indirect block `b`, allocated if it is 0. The buffer of the block is held
-- while `balloc` runs, and written afterwards.
pub entry : ℕ → ℕ → Open → Run (ℕ × Open)
entry b i f =
    let a = load f.disk (place b (4 * i)) in
    if a == 0
    then (balloc f.disk >>= λ r.
        returns (r.0, record f { disk = store r.1 (place b (4 * i)) (r.0) }))
    else returns (a, f)

pub bmap : ℕ → Open → Run (ℕ × Open)
bmap bn f =
    if ltb bn 12
    then slot bn f
    else if ltb (bn - 12) 128
    then (slot 12 f >>= λ r. entry (r.0) (bn - 12) r.1)
    else panics

-- The loop of `itrunc` over the direct blocks from number `i` on, by the blocks left.
pub free_direct : ℕ → ℕ → Open → Run Open
free_direct zero i f = returns f
free_direct (suc n) i f = elim (f.ip.addrs i == 0) [
  | true ↦ free_direct n (i + 1) f
  | false ↦ bfree (f.ip.addrs i) f.disk >>= λ d.
      free_direct n (i + 1) (record { ip = set_addr i 0 f.ip; disk = d })
]

-- The loop over the entries of an indirect block, whose buffer `a` was read before.
pub free_entries : ℕ → ℕ → (ℕ → ℕ) → Memory → Run Memory
free_entries zero j a disk = returns disk
free_entries (suc n) j a disk = elim (a j == 0) [
  | true ↦ free_entries n (j + 1) a disk
  | false ↦ bfree (a j) disk >>= λ d. free_entries n (j + 1) a d
]

pub free_indirect : Open → Run Open
free_indirect f =
    let b = f.ip.addrs 12 in
    if b == 0
    then returns f
    else (free_entries 128 0 (λ j. load f.disk (place b (4 * j))) f.disk >>= λ d.
        bfree b d >>= λ d'. returns (record { ip = set_addr 12 0 f.ip; disk = d' }))

pub itrunc : Open → Run Open
itrunc f = free_direct 12 0 f >>= free_indirect >>= λ g.
    let x = record g.ip { size = 0 } in returns (record { ip = x; disk = iupdate x g.disk })

pub record Stat : Type 0 where
  pub dev : ℕ
  pub ino : ℕ
  pub type : ℕ
  pub nlink : ℕ
  pub size : ℕ

abbrev pub stati : Inode → Stat
stati x = record { dev = x.dev; ino = x.inum; type = x.type; nlink = x.nlink; size = x.size }

-- What `readi` and `writei` come to: -1, the routine of the device, or the bytes or their number.
pub data Transfer (A : Type 0) : Type 0 where
  failed : Transfer A
  device : ℕ → Transfer A
  moved : A → Transfer A

pub take_bytes : Memory → ℕ → ℕ → List ℕ
take_bytes disk a zero = []
take_bytes disk a (suc n) = disk a ∷ take_bytes disk (a + 1) n

pub put_bytes : Memory → ℕ → List ℕ → Memory
put_bytes disk a [] = disk
put_bytes disk a (c ∷ cs) = put_bytes (update disk a c) (a + 1) cs

-- The bytes of one round at `off`, of `n` that are left.
abbrev pub chunk : ℕ → ℕ → ℕ
chunk off n = if ltb n (512 - off % 512) then n else 512 - off % 512

-- The loop of `readi`, with fuel, by the bytes left.
pub read_from : ℕ → ℕ → ℕ → Open → Run (List ℕ × Open)
read_from zero off n f = returns ([], f)
read_from (suc fuel) off n f = elim (n == 0) [
  | true ↦ returns ([], f)
  | false ↦ bmap (off / 512) f >>= λ r.
      read_from fuel (off + chunk off n) (n - chunk off n) r.1 >>= λ s.
      returns (take_bytes r.1.disk (place (r.0) (off % 512)) (chunk off n) ++ s.0, s.1)
]

-- The loop of `writei`.
pub write_from : ℕ → ℕ → List ℕ → Open → Run Open
write_from zero off src f = returns f
write_from (suc fuel) off src f = elim (length src == 0) [
  | true ↦ returns f
  | false ↦ bmap (off / 512) f >>= λ r.
      let m = chunk off (length src) in
      write_from fuel (off + m) (drop m src)
        (record r.1 { disk = put_bytes r.1.disk (place (r.0) (off % 512)) (take m src) })
]

-- `has_device` tells which devices have a routine in `devsw`; `type` 3 is T_DEV. A negative `major` is a
-- pattern from 2 ^ 15 on.
module _ (has_device : ℕ → Bool) where
  abbrev on_device : Inode → {A : Type 0} → Transfer A
  on_device x = if leb 10 x.major || not (has_device x.major) then failed else device x.major

  pub readi : ℕ → ℕ → Open → Run (Transfer (List ℕ) × Open)
  readi off n f =
      if f.ip.type == 3
      then returns (on_device f.ip, f)
      else if ltb f.ip.size off || ltb ((off + n) % 2 ^ 32) off
      then returns (failed, f)
      else let n' = if ltb f.ip.size (off + n) then f.ip.size - off else n in
        (read_from n' off n' f >>= λ r. returns (moved (r.0), r.1))

  -- The number of bytes written. `MAXFILE * BSIZE` is 140 * 512; a size is at most that, so `off`, which is
  -- not above the size, can be taken off it.
  pub writei : ℕ → List ℕ → Open → Run (Transfer ℕ × Open)
  writei off src f =
      let n = length src in
      if f.ip.type == 3
      then returns (on_device f.ip, f)
      else if ltb f.ip.size off || ltb ((off + n) % 2 ^ 32) off
      then returns (failed, f)
      else let n' = if ltb (140 * 512) (off + n) then 140 * 512 - off else n in
        (write_from n' off (take n' src) f >>= λ g.
        if ltb 0 n' && ltb g.ip.size (off + n')
        then (let x = record g.ip { size = off + n' } in
            returns (moved n', record { ip = x; disk = iupdate x g.disk }))
        else returns (moved n', g))
