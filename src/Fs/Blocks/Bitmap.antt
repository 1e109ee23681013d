-- ===== src/Fs/Blocks/Bitmap.antt =====
-- The bitmap: balloc and bfree against the bits of the blocks.
use native.Mathlib.Decide.{ℕ_discrete}
use cs537_sp23_operating_sys.Common.{
  ℕ, load-eq, Memory, ap, arith, inl, inr, refl, suc, sym, zero, ◌%◌, ◌*◌, ◌+◌, ◌/◌, ◌<◌, ◌==◌, ◌∙◌,
  ◌≡◌, ◌≢◌, update, ◌⊎◌, update_ne, update_self, false, ne→==,
}
use cs537_sp23_operating_sys.Fs.{place, returns, panics}
use cs537_sp23_operating_sys.Strings.Moves.{memset_lem}
use cs537_sp23_operating_sys.Fs.Blocks.Scan.{in_use, Taken, balloc_from-Taken}
use cs537_sp23_operating_sys.Fs.Blocks.{
  bzero, bblock, bfree, bit, set_bit, clear_bit, sb_ninodes, bblock, bit_byte, sb_size, balloc,
}

bit-set_bit : (k w : ℕ) → bit k (set_bit k w) ≡ 1
unfolding bit set_bit
bit-set_bit zero w = omega arith
bit-set_bit (suc k) w =
    let e : (set_bit k (w / 2) * 2 + w % 2) / 2 ≡ set_bit k (w / 2) = omega arith in
    ap (bit k) e ∙ bit-set_bit k (w / 2)

bit-set_bit_ne : (j k w : ℕ) → j ≢ k → bit j (set_bit k w) ≡ bit j w
unfolding bit set_bit
bit-set_bit_ne zero zero w ne = absurd (ne refl)
bit-set_bit_ne zero (suc k) w ne = omega arith
bit-set_bit_ne (suc j) zero w ne = ap (bit j) (omega arith)
bit-set_bit_ne (suc j) (suc k) w ne =
    let e : (set_bit k (w / 2) * 2 + w % 2) / 2 ≡ set_bit k (w / 2) = omega arith in
    ap (bit j) e ∙ bit-set_bit_ne j k (w / 2) (λ e. ne (ap suc e))

bit-clear_bit : (k w : ℕ) → bit k (clear_bit k w) ≡ 0
unfolding bit clear_bit
bit-clear_bit zero w = omega arith
bit-clear_bit (suc k) w =
    let e : (clear_bit k (w / 2) * 2 + w % 2) / 2 ≡ clear_bit k (w / 2) = omega arith in
    ap (bit k) e ∙ bit-clear_bit k (w / 2)

bit-clear_bit_ne : (j k w : ℕ) → j ≢ k → bit j (clear_bit k w) ≡ bit j w
unfolding bit clear_bit
bit-clear_bit_ne zero zero w ne = absurd (ne refl)
bit-clear_bit_ne zero (suc k) w ne = omega arith
bit-clear_bit_ne (suc j) zero w ne = ap (bit j) (omega arith)
bit-clear_bit_ne (suc j) (suc k) w ne =
    let e : (clear_bit k (w / 2) * 2 + w % 2) / 2 ≡ clear_bit k (w / 2) = omega arith in
    ap (bit j) e ∙ bit-clear_bit_ne j k (w / 2) (λ e. ne (ap suc e))

-- No two blocks have one bit.
apart :
    (disk : Memory) (b c : ℕ)
    → bit_byte disk b ≡ bit_byte disk c
    → b % 4096 % 8 ≡ c % 4096 % 8
    → b ≡ c
apart disk b c byte place_of =
    let base = sb_ninodes disk / 8 in
    let row : b / 4096 ≡ c / 4096 = omega arith in
    let column : b % 4096 / 8 ≡ c % 4096 / 8 = omega arith in omega arith

-- The bytes of the super block are in front of the bitmap.
sb_ninodes-update :
    (disk : Memory) (b v : ℕ) → sb_ninodes (update disk (bit_byte disk b) v) ≡ sb_ninodes disk
sb_ninodes-update disk b v =
    load-eq (update disk (bit_byte disk b) v) disk 520
      (λ x low high. update_ne disk (bit_byte disk b) x v (λ e. absurd (omega arith)))

-- One bit of the bitmap is changed to `v`.
in_use-update :
    (disk : Memory) (b v : ℕ)
    → ((k : ℕ) → k ≢ b % 4096 % 8 → bit k v ≡ bit k (disk (bit_byte disk b)))
    → (in_use (update disk (bit_byte disk b) v) b ≡ bit (b % 4096 % 8) v)
      × ((c : ℕ) → c ≢ b → in_use (update disk (bit_byte disk b) v) c ≡ in_use disk c)
in_use-update disk b v others =
    let new = update disk (bit_byte disk b) v in
    let kept = sb_ninodes-update disk b v in
    let moved : (c : ℕ) → in_use new c ≡ bit (c % 4096 % 8) (new (bit_byte disk c)) =
      λ c. ap (λ n. bit (c % 4096 % 8) (new (place (bblock c n) (c % 4096 / 8)))) kept in
    (
      moved b ∙ ap (bit (b % 4096 % 8)) (update_self disk (bit_byte disk b) v),
      λ c ne. elim (ℕ_discrete (bit_byte disk b) (bit_byte disk c)) [
        | yes same ↦
            let other : c % 4096 % 8 ≢ b % 4096 % 8 = λ e. ne (apart disk c b (sym same) e) in
            moved c
            ∙ ap (λ a. bit (c % 4096 % 8) (new a)) (sym same)
            ∙ ap (bit (c % 4096 % 8)) (update_self disk (bit_byte disk b) v)
            ∙ others (c % 4096 % 8) other
            ∙ ap (λ a. bit (c % 4096 % 8) (disk a)) same
        | no different ↦
            moved c
            ∙ ap (bit (c % 4096 % 8))
                (update_ne disk (bit_byte disk b) (bit_byte disk c) v different)
      ],
    )

-- `balloc` gives out the first block whose bit is clear, sets that bit, and changes no other bit and no other
-- byte of the disk; it panics only if every block of the disk is in use. The block has its bit in the part
-- of the bitmap that begins below the size of the disk.
pub balloc-first :
    (disk : Memory)
    → ((b : ℕ) × (disk' : Memory) × (balloc disk ≡ returns (b, disk'))
        × (b / 4096 * 4096 < sb_size disk)
        × (in_use disk b ≡ 0)
        × ((c : ℕ) → c < b → in_use disk c ≢ 0)
        × (in_use disk' b ≡ 1)
        × ((c : ℕ) → c ≢ b → in_use disk' c ≡ in_use disk c)
        × ((a : ℕ) → a ≢ bit_byte disk b → disk' a ≡ disk a))
      ⊎ ((balloc disk ≡ panics) × ((c : ℕ) → c < sb_size disk → in_use disk c ≢ 0))
unfolding balloc Taken
balloc-first disk = elim (balloc_from-Taken ((sb_size disk + 4095) / 4096) 0 disk (omega arith)) [
  | inl (b, disk', gives, (free, near, before, now)) ↦
      let v = set_bit (b % 4096 % 8) (disk (bit_byte disk b)) in
      let (set_now, others) =
        in_use-update disk b v
          (λ k ne. bit-set_bit_ne k (b % 4096 % 8) (disk (bit_byte disk b)) ne) in
      inl (
        b,
        disk',
        gives,
        near,
        free,
        λ c low. before c (omega arith) low,
        ap (λ d. in_use d b) now ∙ set_now ∙ bit-set_bit (b % 4096 % 8) (disk (bit_byte disk b)),
        λ c ne. ap (λ d. in_use d c) now ∙ others c ne,
        λ a ne.
            ap (λ (d : Memory). d a) now ∙ update_ne disk (bit_byte disk b) a v (λ e. ne (sym e)),
      )
  | inr (gives, used) ↦ inr (gives, λ c low. used c (omega arith) low)
]

-- Outside of the block, `bzero` changes nothing.
bzero_other : (b a : ℕ) (disk : Memory) → a / 512 ≢ b → bzero b disk a ≡ disk a
bzero_other b a disk h = ground (arith, memset_lem disk (place b 0) 0 512 a)

bzero_self : (b o : ℕ) (disk : Memory) → o < 512 → bzero b disk (place b o) ≡ 0
bzero_self b o disk h = ground (arith, memset_lem disk (place b 0) 0 512 (place b o))

sb_ninodes-bzero : (b : ℕ) (disk : Memory) → b ≢ 1 → sb_ninodes (bzero b disk) ≡ sb_ninodes disk
sb_ninodes-bzero b disk h =
    load-eq (bzero b disk) disk 520
      (λ x low high. bzero_other b x disk (λ e. h (sym e ∙ omega arith)))

in_use-bzero :
    (b c : ℕ) (disk : Memory)
    → b ≢ 1
    → bblock c (sb_ninodes disk) ≢ b
    → (bit_byte (bzero b disk) c ≡ bit_byte disk c)
      × (bzero b disk (bit_byte disk c) ≡ disk (bit_byte disk c))
in_use-bzero b c disk h out = (
  ap (λ n. place (bblock c n) (c % 4096 / 8)) (sb_ninodes-bzero b disk h),
  bzero_other b (bit_byte disk c) disk
      (λ e. out (byte_block (bblock c (sb_ninodes disk)) (c % 4096 / 8) (omega arith) ∙ e)),
)
  where
    byte_block : (n o : ℕ) → o < 512 → n ≡ place n o / 512
    byte_block n o low = omega arith

-- `bfree` of a block in use, which holds neither the super block nor its own bit: it does not panic, it
-- clears the bit and the bytes of the block, and changes no other bit outside the block and no other byte.
pub bfree-clears :
    (b : ℕ) (disk : Memory)
    → b ≢ 1
    → bblock b (sb_ninodes disk) ≢ b
    → in_use disk b ≢ 0
    → (disk' : Memory) × (bfree b disk ≡ returns disk')
      × (in_use disk' b ≡ 0)
      × ((c : ℕ) → c ≢ b → bblock c (sb_ninodes disk) ≢ b → in_use disk' c ≡ in_use disk c)
      × ((o : ℕ) → o < 512 → disk' (place b o) ≡ 0)
      × ((a : ℕ) → a / 512 ≢ b → a ≢ bit_byte disk b → disk' a ≡ disk a)
unfolding bfree
bfree-clears b disk not_super out used =
    let zeroed = bzero b disk in
    let k = b % 4096 % 8 in
    let (byte, kept) = in_use-bzero b b disk not_super out in
    let same : in_use zeroed b ≡ in_use disk b =
      ap (λ a. bit k (zeroed a)) byte ∙ ap (bit k) kept in
    let set_still : (in_use zeroed b == 0) ≡ false =
      ne→== (in_use zeroed b) 0 (λ e. used (sym same ∙ e)) in
    let v = clear_bit k (zeroed (bit_byte zeroed b)) in
    let disk' = update zeroed (bit_byte zeroed b) v in
    let (clear_now, others) =
      in_use-update zeroed b v (λ j ne. bit-clear_bit_ne j k (zeroed (bit_byte zeroed b)) ne) in
    (
      disk',
      rw (set_still, bfree) refl,
      clear_now ∙ bit-clear_bit k (zeroed (bit_byte zeroed b)),
      λ c ne other.
          let (byte_c, kept_c) = in_use-bzero b c disk not_super other in
          others c ne
          ∙ ap (λ a. bit (c % 4096 % 8) (zeroed a)) byte_c
          ∙ ap (bit (c % 4096 % 8)) kept_c,
      λ o low.
          update_ne zeroed (bit_byte zeroed b) (place b o) v (λ e. out (
            block_of (bblock b (sb_ninodes disk)) (b % 4096 / 8) b o (omega arith) low
              (sym byte ∙ e)))
          ∙ bzero_self b o disk low,
      λ a away other.
          update_ne zeroed (bit_byte zeroed b) a v (λ e. other (sym e ∙ byte))
          ∙ bzero_other b a disk away,
    )
  where
    block_of : (n m b o : ℕ) → m < 512 → o < 512 → place n m ≡ place b o → n ≡ b
    block_of n m b o low high e = omega arith
