-- ===== src/Fs/Links/Empty.antt =====
-- A directory is empty: isdirempty against its entries.
use native.Mathlib.Decide.{ℕ_discrete}
use cs537_sp23_operating_sys.Common.{
  ℕ, ==→eq, Bool, Bool-cases, ap, arith, false, inl, inr, min, refl, suc, sym, true, zero, ◌*◌, ◌+◌,
  ◌-◌, ◌/◌, ◌<◌, ◌==◌, ◌∙◌, ◌≡◌, ◌≢◌, ◌≤◌, ◌⊎◌, List,
}
use cs537_sp23_operating_sys.Fs.{returns, Run, Open}
use cs537_sp23_operating_sys.Fs.Contents.{readi, Transfer, moved}
use cs537_sp23_operating_sys.Fs.Contents.Reads.{byte_at, bytes, IsMapped, readi-bytes}
use cs537_sp23_operating_sys.Fs.Links.{entry_inum, isdirempty_from, isdirempty}

-- The inode number of entry `k`.
abbrev pub inum_at : Open → ℕ → ℕ
inum_at f k = byte_at f (16 * k) + 256 * byte_at f (16 * k + 1)

read_entry :
    (has_device : ℕ → Bool) (k : ℕ) (f : Open)
    → IsMapped f
    → f.ip.type ≡ 1
    → 16 * k + 16 ≤ f.ip.size
    → readi has_device (16 * k) 16 f ≡ returns (moved (bytes f (16 * k) 16), f)
read_entry has_device k f all dir inside =
    let fits = all.fits in
    let whole : min 16 (f.ip.size - 16 * k) ≡ 16 = ground arith in
    readi-bytes has_device (16 * k) 16 f all (λ e. omega arith) (omega arith) (omega arith)
    ∙ ap (λ n. returns (moved (bytes f (16 * k) n), f)) whole

-- What the loop returns, from entry `k` on.
Emptiness : Run (Bool × Open) → Open → ℕ → ℕ → Type 0
Emptiness run f k n =
    ((run ≡ returns (true, f)) × ((j : ℕ) → k ≤ j → j < k + n → inum_at f j ≡ 0))
    ⊎ ((run ≡ returns (false, f)) × ((j : ℕ) × (k ≤ j) × (j < k + n) × (inum_at f j ≢ 0)))

isdirempty_from_next :
    (has_device : ℕ → Bool) (n off inum : ℕ) (f : Open) (read : Transfer (List ℕ))
    → readi has_device off 16 f ≡ returns (read, f)
    → entry_inum read ≡ returns inum
    → (inum == 0) ≡ true
    → isdirempty_from has_device (suc n) off f ≡ isdirempty_from has_device n (off + 16) f
unfolding isdirempty_from
isdirempty_from_next has_device n off inum f read got entry free =
    let at : isdirempty_from has_device (suc n) off f ≡ elim (inum == 0) [
      | true ↦ isdirempty_from has_device n (off + 16) f
      | false ↦ returns (false, f)
    ] =
      rw (got, isdirempty_from, entry) refl in
    at ∙ rw free refl

isdirempty_from_stop :
    (has_device : ℕ → Bool) (n off inum : ℕ) (f : Open) (read : Transfer (List ℕ))
    → readi has_device off 16 f ≡ returns (read, f)
    → entry_inum read ≡ returns inum
    → (inum == 0) ≡ false
    → isdirempty_from has_device (suc n) off f ≡ returns (false, f)
unfolding isdirempty_from
isdirempty_from_stop has_device n off inum f read got entry used =
    let at : isdirempty_from has_device (suc n) off f ≡ elim (inum == 0) [
      | true ↦ isdirempty_from has_device n (off + 16) f
      | false ↦ returns (false, f)
    ] =
      rw (got, isdirempty_from, entry) refl in
    at ∙ rw used refl

isdirempty_from-Emptiness :
    (has_device : ℕ → Bool) (n k : ℕ) (f : Open)
    → IsMapped f
    → f.ip.type ≡ 1
    → 16 * (k + n) ≤ f.ip.size
    → Emptiness (isdirempty_from has_device n (16 * k) f) f k n
unfolding isdirempty_from Emptiness bytes
isdirempty_from-Emptiness has_device zero k f all dir inside =
    inl (refl, λ j low high. absurd (omega arith))
isdirempty_from-Emptiness has_device (suc n) k f all dir inside =
    let got = read_entry has_device k f all dir (omega arith) in
    let next : 16 * k + 16 ≡ 16 * (k + 1) = omega arith in
    elim (Bool-cases (inum_at f k == 0)) [
      | inr used ↦ inr (
        isdirempty_from_stop has_device n (16 * k) (inum_at f k) f (moved (bytes f (16 * k) 16)) got
            refl used,
        (k, omega arith, omega arith, λ e. ground arith),
      )
      | inl free ↦
          let on : isdirempty_from has_device (suc n) (16 * k) f
              ≡ isdirempty_from has_device n (16 * (k + 1)) f =
            isdirempty_from_next has_device n (16 * k) (inum_at f k) f (moved (bytes f (16 * k) 16))
              got refl free
            ∙ ap (λ o. isdirempty_from has_device n o f) next in
          elim (isdirempty_from-Emptiness has_device n (k + 1) f all dir (omega arith)) [
            | inl (run, zeros) ↦ inl (
              on ∙ run,
              λ j low high. elim (ℕ_discrete k j) [
                | yes same ↦ ap (inum_at f) (sym same) ∙ ==→eq (inum_at f k) 0 free
                | no other ↦ zeros j (omega arith) (omega arith)
              ],
            )
            | inr (run, (j, low, high, set_entry)) ↦
                inr (on ∙ run, (j, omega arith, omega arith, set_entry))
          ]
    ]

-- `isdirempty` of a directory of whole entries whose blocks are allocated returns, with nothing changed: true
-- exactly where every entry behind the first two is unused.
pub isdirempty_lem :
    (has_device : ℕ → Bool) (m : ℕ) (f : Open)
    → IsMapped f
    → f.ip.type ≡ 1
    → f.ip.size ≡ 16 * (2 + m)
    → ((isdirempty has_device f ≡ returns (true, f))
        × ((j : ℕ) → 2 ≤ j → j < 2 + m → inum_at f j ≡ 0))
      ⊎ ((isdirempty has_device f ≡ returns (false, f))
          × ((j : ℕ) × (2 ≤ j) × (j < 2 + m) × (inum_at f j ≢ 0)))
unfolding isdirempty Emptiness
isdirempty_lem has_device m f all dir whole =
    let count : (f.ip.size - 32 + 15) / 16 ≡ m = omega arith in
    let run : isdirempty has_device f ≡ isdirempty_from has_device m 32 f =
      ap (λ n. isdirempty_from has_device n 32 f) count in
    elim (isdirempty_from-Emptiness has_device m 2 f all dir (omega arith)) [
      | inl (done, zeros) ↦ inl (run ∙ done, zeros)
      | inr (done, found) ↦ inr (run ∙ done, found)
    ]
