-- ===== src/Fs/Blocks.antt =====
-- The bitmap of blocks in use: balloc and bfree.
pub mod Bitmap
pub mod Scan
use cs537_sp23_operating_sys.Common.{
  ℕ, update, load, Memory, Option, false, if◌then◌else◌, ltb, none, some, suc, true, zero, ◌%◌, ◌*◌,
  ◌+◌, ◌/◌, ◌==◌,
}
use cs537_sp23_operating_sys.Fs.{place, Run, panics, returns}
use cs537_sp23_operating_sys.Strings.{memset}

-- Bit `k` of a byte, and the byte with the bit set or cleared: `w & (1 << k)`, `w | (1 << k)` and
-- `w & ~(1 << k)`, from the lowest bit on.
unfoldable pub bit : ℕ → ℕ → ℕ
bit zero w = w % 2
bit (suc k) w = bit k (w / 2)

pub set_bit : ℕ → ℕ → ℕ
set_bit zero w = w / 2 * 2 + 1
set_bit (suc k) w = set_bit k (w / 2) * 2 + w % 2

pub clear_bit : ℕ → ℕ → ℕ
clear_bit zero w = w / 2 * 2
clear_bit (suc k) w = clear_bit k (w / 2) * 2 + w % 2

-- The fields `size` and `ninodes` of the super block.
abbrev pub sb_size : Memory → ℕ
sb_size disk = load disk (place 1 0)

abbrev pub sb_ninodes : Memory → ℕ
sb_ninodes disk = load disk (place 1 8)

-- The block with the bit of block `b`.
abbrev pub bblock : ℕ → ℕ → ℕ
bblock b ninodes = b / 4096 + ninodes / 8 + 3

-- The byte with the bit of block `b`.
abbrev pub bit_byte : Memory → ℕ → ℕ
bit_byte disk b = place (bblock b (sb_ninodes disk)) (b % 4096 / 8)

abbrev pub bzero : ℕ → Memory → Memory
bzero bno disk = memset disk (place bno 0) 0 512

-- The inner loop of `balloc` from bit `bi` of the bitmap block of `b` on, by the bits left.
pub scan_bits : ℕ → ℕ → ℕ → Memory → Option ℕ
scan_bits zero b bi disk = none
scan_bits (suc n) b bi disk =
    elim (bit (bi % 8) (disk (place (bblock b (sb_ninodes disk)) (bi / 8))) == 0) [
      | true ↦ some bi
      | false ↦ scan_bits n b (bi + 1) disk
    ]

-- The outer loop, by the blocks of the bitmap left.
pub balloc_from : ℕ → ℕ → Memory → Run (ℕ × Memory)
balloc_from zero b disk = panics
balloc_from (suc n) b disk = elim (ltb b (sb_size disk)) [
  | true ↦ elim (scan_bits 4096 b 0 disk) [
    | some bi ↦
        let a = place (bblock b (sb_ninodes disk)) (bi / 8) in
        returns (b + bi, update disk a (set_bit (bi % 8) (disk a)))
    | none ↦ balloc_from n (b + 4096) disk
  ]
  | false ↦ panics
]

pub balloc : Memory → Run (ℕ × Memory)
balloc disk = balloc_from ((sb_size disk + 4095) / 4096) 0 disk

pub bfree : ℕ → Memory → Run Memory
bfree b disk =
    let zeroed = bzero b disk in
    let a = bit_byte zeroed b in
    if bit (b % 4096 % 8) (zeroed a) == 0
    then panics
    else returns (update zeroed a (clear_bit (b % 4096 % 8) (zeroed a)))
