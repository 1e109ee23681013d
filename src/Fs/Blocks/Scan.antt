-- ===== src/Fs/Blocks/Scan.antt =====
-- The scan of the bitmap in `balloc`.
use native.Mathlib.Decide.{ℕ_discrete}
use mathlib.Core.Path.{subst}
use cs537_sp23_operating_sys.Common.{
  ℕ, ==→eq, Bool-cases, Memory, Option, Option-cases, ap, arith, inl, inr, ltb, none, refl, some,
  suc, sym, update, zero, ◌%◌, ◌*◌, ◌+◌, ◌/◌, ◌<◌, ◌==◌, ◌∙◌, ◌≡◌, ◌≢◌, ◌≤◌, ◌⊎◌,
}
use cs537_sp23_operating_sys.Fs.{place, panics, returns}
use cs537_sp23_operating_sys.Fs.Blocks.{
  bit, set_bit, sb_size, sb_ninodes, bblock, bit_byte, scan_bits, balloc_from,
}

-- The bit of block `b` in the bitmap.
abbrev pub in_use : Memory → ℕ → ℕ
in_use disk b = bit (b % 4096 % 8) (disk (bit_byte disk b))

-- The bit that the scan looks at is the bit of its block.
pub in_use_at :
    (q bi : ℕ) (disk : Memory)
    → bi < 4096
    → (bit (bi % 8) (disk (place (bblock (q * 4096) (sb_ninodes disk)) (bi / 8)))
        ≡ in_use disk (q * 4096 + bi))
      × (place (bblock (q * 4096) (sb_ninodes disk)) (bi / 8) ≡ bit_byte disk (q * 4096 + bi))
      × (bi % 8 ≡ (q * 4096 + bi) % 4096 % 8)
in_use_at q bi disk low =
    let where_bit : bi % 8 ≡ (q * 4096 + bi) % 4096 % 8 = omega arith in
    let where_byte : place (bblock (q * 4096) (sb_ninodes disk)) (bi / 8)
        ≡ bit_byte disk (q * 4096 + bi) =
      omega arith in
    (
      ap (λ k. bit k (disk (place (bblock (q * 4096) (sb_ninodes disk)) (bi / 8)))) where_bit
          ∙ ap (λ a. bit ((q * 4096 + bi) % 4096 % 8) (disk a)) where_byte,
      where_byte,
      where_bit,
    )

-- What `scan_bits` finds: the first free block from `q * 4096 + bi` on, of `n` blocks.
ScanSpec : ℕ → ℕ → ℕ → Memory → Option ℕ → Type 0
ScanSpec n q bi disk none = (c : ℕ) → q * 4096 + bi ≤ c → c < q * 4096 + bi + n → in_use disk c ≢ 0
ScanSpec n q bi disk (some j) =
    (bi ≤ j)
    × (j < bi + n)
    × (in_use disk (q * 4096 + j) ≡ 0)
    × ((c : ℕ) → q * 4096 + bi ≤ c → c < q * 4096 + j → in_use disk c ≢ 0)

ScanSpec-suc :
    (n q bi : ℕ) (disk : Memory) (found : Option ℕ)
    → in_use disk (q * 4096 + bi) ≢ 0
    → ScanSpec n q (bi + 1) disk found
    → ScanSpec (suc n) q bi disk found
unfolding ScanSpec
ScanSpec-suc n q bi disk none used all = λ c low high. elim (ℕ_discrete (q * 4096 + bi) c) [
  | yes same ↦ λ e. used (ap (in_use disk) same ∙ e)
  | no ne ↦ all c (omega arith) (omega arith)
]
ScanSpec-suc n q bi disk (some j) used (le, lt, free, all) = (
  omega arith,
  omega arith,
  free,
  λ c low high. elim (ℕ_discrete (q * 4096 + bi) c) [
    | yes same ↦ λ e. used (ap (in_use disk) same ∙ e)
    | no ne ↦ all c (omega arith) (omega arith)
  ],
)

scan_bits-ScanSpec :
    (n q bi : ℕ) (disk : Memory)
    → bi + n ≤ 4096
    → ScanSpec n q bi disk (scan_bits n (q * 4096) bi disk)
unfolding scan_bits ScanSpec
scan_bits-ScanSpec zero q bi disk fits = λ c low high. absurd (omega arith)
scan_bits-ScanSpec (suc n) q bi disk fits =
    let (same, byte, place_of) = in_use_at q bi disk (omega arith) in
    elim (Bool-cases
      (bit (bi % 8) (disk (place (bblock (q * 4096) (sb_ninodes disk)) (bi / 8))) == 0)) [
        | inl free ↦
            let found : scan_bits (suc n) (q * 4096) bi disk ≡ some bi =
              rw (free, scan_bits) refl in
            subst (ScanSpec (suc n) q bi disk) (sym found) (
              omega arith,
              omega arith,
              sym same ∙ ==→eq _ 0 free,
              λ c low high. absurd (omega arith),
            )
        | inr used ↦
            let found : scan_bits (suc n) (q * 4096) bi disk
                ≡ scan_bits n (q * 4096) (bi + 1) disk =
              rw (used, scan_bits) refl in
            subst (ScanSpec (suc n) q bi disk) (sym found) (
              ScanSpec-suc n q bi disk _ (λ e. let v = same ∙ e in ground arith)
                (scan_bits-ScanSpec n q (bi + 1) disk (omega arith)))
      ]

-- Block `b` is the first free one from `start` on, and its bit is set.
unfoldable pub Taken : Memory → ℕ → ℕ → Memory → Type 0
Taken disk start b disk' =
    (in_use disk b ≡ 0)
    × (b / 4096 * 4096 < sb_size disk)
    × ((c : ℕ) → start ≤ c → c < b → in_use disk c ≢ 0)
    × (disk' ≡ update disk (bit_byte disk b) (set_bit (b % 4096 % 8) (disk (bit_byte disk b))))

pub balloc_from-Taken :
    (n q : ℕ) (disk : Memory)
    → sb_size disk ≤ (q + n) * 4096
    → ((b : ℕ) × (disk' : Memory) × (balloc_from n (q * 4096) disk ≡ returns (b, disk'))
        × Taken disk (q * 4096) b disk')
      ⊎ ((balloc_from n (q * 4096) disk ≡ panics)
          × ((c : ℕ) → q * 4096 ≤ c → c < sb_size disk → in_use disk c ≢ 0))
unfolding balloc_from ScanSpec Taken
balloc_from-Taken zero q disk enough = inr (refl, λ c low high. absurd (omega arith))
balloc_from-Taken (suc n) q disk enough = elim (Bool-cases (ltb (q * 4096) (sb_size disk))) [
  | inr past ↦
      let e : sb_size disk ≤ q * 4096 = ground arith in
      inr (rw (past, balloc_from) refl, λ c low high. absurd (omega arith))
  | inl inside ↦
      let start : q * 4096 < sb_size disk = ground arith in
      let spec = scan_bits-ScanSpec 4096 q 0 disk (omega arith) in
      elim (Option-cases (scan_bits 4096 (q * 4096) 0 disk)) [
        | inl nothing ↦
            let all = subst (ScanSpec 4096 q 0 disk) nothing spec in
            let on : balloc_from (suc n) (q * 4096) disk ≡ balloc_from n (q * 4096 + 4096) disk =
              rw (inside, balloc_from, nothing) refl in
            let at : q * 4096 + 4096 ≡ (q + 1) * 4096 = omega arith in
            let whole = on ∙ ap (λ b. balloc_from n b disk) at in
            let used : (c : ℕ) → q * 4096 ≤ c → c < (q + 1) * 4096 → in_use disk c ≢ 0 =
              λ c low high. all c (omega arith) (omega arith) in
            elim (balloc_from-Taken n (q + 1) disk (omega arith)) [
              | inl (b, disk', gives, (free, near, before, now)) ↦
                  inl (b, disk', whole ∙ gives, (free, near, from_block q disk b used before, now))
              | inr (gives, rest) ↦ inr (whole ∙ gives, from_block q disk (sb_size disk) used rest)
            ]
        | inr (bi, found) ↦
            let (low, lt, free, before) = subst (ScanSpec 4096 q 0 disk) found spec in
            let (same, byte, place_of) = in_use_at q bi disk (omega arith) in
            inl (
              q * 4096 + bi,
              _,
              rw (inside, balloc_from, found) refl,
              (
                free,
                omega arith,
                λ c low high. before c (omega arith) high,
                ap (λ a. update disk a (set_bit (bi % 8) (disk a))) byte
                    ∙ ap
                        (λ k.
                          update disk (bit_byte disk (q * 4096 + bi))
                            (set_bit k (disk (bit_byte disk (q * 4096 + bi)))))
                        place_of,
              ),
            )
      ]
]
  where
    from_block :
        (q : ℕ) (disk : Memory) (b : ℕ)
        → ((c : ℕ) → q * 4096 ≤ c → c < (q + 1) * 4096 → in_use disk c ≢ 0)
        → ((c : ℕ) → (q + 1) * 4096 ≤ c → c < b → in_use disk c ≢ 0)
        → (c : ℕ) → q * 4096 ≤ c
        → c < b
        → in_use disk c ≢ 0
    from_block q disk b first rest c low high = elim (Bool-cases (ltb c ((q + 1) * 4096))) [
      | inl near ↦ first c low (ground arith)
      | inr far ↦ rest c (ground arith) high
    ]
