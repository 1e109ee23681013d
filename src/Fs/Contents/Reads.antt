-- ===== src/Fs/Contents/Reads.antt =====
-- readi against the bytes of a file, one by one.
use cs537_sp23_operating_sys.Common.{
  ℕ, load, Bool, Bool-cases, List, [], ap, arith, false, if◌then◌else◌, inl, inr, ltb, min, ne→==,
  refl, suc, sym, true, zero, ◌%◌, ◌*◌, ◌++◌, ◌+◌, ◌-◌, ◌/◌, ◌<◌, ◌==◌, ◌^◌, ◌||◌, ◌∙◌, ◌∷◌, ◌≡◌,
  ◌≢◌, ◌≤◌,
}
use cs537_sp23_operating_sys.Fs.{place, returns, Open}
use cs537_sp23_operating_sys.Fs.Contents.{
  slot, entry, bmap, moved, take_bytes, chunk, read_from, readi,
}

-- The address of block `bn` of a file whose blocks are allocated.
abbrev pub block : Open → ℕ → ℕ
block f bn =
    if ltb bn 12 then f.ip.addrs bn else load f.disk (place (f.ip.addrs 12) (4 * (bn - 12)))

abbrev pub byte_at : Open → ℕ → ℕ
byte_at f k = f.disk (place (block f (k / 512)) (k % 512))

unfoldable pub bytes : Open → ℕ → ℕ → List ℕ
bytes f off zero = []
bytes f off (suc n) = byte_at f off ∷ bytes f (off + 1) n

-- Every block below the size is allocated.
pub record IsMapped (f : Open) : Type 0 where
  pub fits : f.ip.size ≤ 140 * 512
  pub indirect : 12 * 512 < f.ip.size → f.ip.addrs 12 ≢ 0
  pub mapped : (bn : ℕ) → bn * 512 < f.ip.size → block f bn ≢ 0

pub bmap-mapped :
    (f : Open) (bn : ℕ) → IsMapped f → bn * 512 < f.ip.size → bmap bn f ≡ returns (block f bn, f)
unfolding bmap slot entry
bmap-mapped f bn all low =
    let fits = all.fits in
    let full = all.mapped bn low in
    elim (Bool-cases (ltb bn 12)) [
      | inl direct ↦
          let at : block f bn ≡ f.ip.addrs bn = rw direct refl in
          let there : (f.ip.addrs bn == 0) ≡ false = ne→== (f.ip.addrs bn) 0 (λ e. full (at ∙ e)) in
          rw (direct, bmap, slot, there) refl
      | inr behind ↦
          let near : ltb (bn - 12) 128 ≡ true = ground arith in
          let at : block f bn ≡ load f.disk (place (f.ip.addrs 12) (4 * (bn - 12))) =
            rw behind refl in
          let table : (f.ip.addrs 12 == 0) ≡ false =
            ne→== (f.ip.addrs 12) 0 (all.indirect (ground arith)) in
          let there : (load f.disk (place (f.ip.addrs 12) (4 * (bn - 12))) == 0) ≡ false =
            ne→== _ 0 (λ e. full (at ∙ e)) in
          rw (behind, bmap, near, slot, table, entry, there) refl
    ]

-- The bytes of one block.
pub take_bytes-block :
    (f : Open) (q o n : ℕ)
    → o + n ≤ 512
    → take_bytes f.disk (place (block f q) o) n ≡ bytes f (q * 512 + o) n
unfolding take_bytes bytes
take_bytes-block f q o zero h = refl
take_bytes-block f q o (suc n) h =
    let row : (q * 512 + o) / 512 ≡ q = omega arith in
    let column : (q * 512 + o) % 512 ≡ o = omega arith in
    let here : f.disk (place (block f q) o) ≡ byte_at f (q * 512 + o) =
      ap (λ k. f.disk (place (block f q) k)) (sym column)
      ∙ ap (λ k. f.disk (place (block f k) ((q * 512 + o) % 512))) (sym row) in
    let on : place (block f q) o + 1 ≡ place (block f q) (o + 1) = omega arith in
    let next : q * 512 + (o + 1) ≡ q * 512 + o + 1 = omega arith in
    ap (λ c. c ∷ take_bytes f.disk (place (block f q) o + 1) n) here
    ∙ ap (λ l. byte_at f (q * 512 + o) ∷ l)
        (ap (λ a. take_bytes f.disk a n) on
          ∙ take_bytes-block f q (o + 1) n (omega arith)
          ∙ ap (λ k. bytes f k n) next)

pub bytes_append :
    (f : Open) (off m n : ℕ) → bytes f off (m + n) ≡ bytes f off m ++ bytes f (off + m) n
unfolding bytes
bytes_append f off zero n =
    ap (λ k. bytes f off k) (omega arith) ∙ ap (λ k. bytes f k n) (omega arith)
bytes_append f off (suc m) n =
    let e : suc m + n ≡ suc (m + n) = omega arith in
    let e' : off + 1 + m ≡ off + suc m = omega arith in
    ap (bytes f off) e
    ∙ ap (λ l. byte_at f off ∷ l)
        (bytes_append f (off + 1) m n ∙ ap (λ k. bytes f (off + 1) m ++ bytes f k n) e')

read_from-bytes :
    (fuel off n : ℕ) (f : Open)
    → IsMapped f
    → n ≤ fuel
    → off + n ≤ f.ip.size
    → read_from fuel off n f ≡ returns (bytes f off n, f)
unfolding read_from bytes
read_from-bytes zero off zero f all enough inside = refl
read_from-bytes zero off (suc n) f all enough inside = absurd (omega arith)
read_from-bytes (suc fuel) off zero f all enough inside = refl
read_from-bytes (suc fuel) off (suc n) f all enough inside =
    let m = chunk off (suc n) in
    let small : m ≤ suc n = ground arith in
    let large : 0 < m = ground arith in
    let short : off % 512 + m ≤ 512 = ground arith in
    let more : (suc n == 0) ≡ false = ground arith in
    let at : off / 512 * 512 + off % 512 ≡ off = omega arith in
    let first = bmap-mapped f (off / 512) all (omega arith) in
    let rest = read_from-bytes fuel (off + m) (suc n - m) f all (omega arith) (omega arith) in
    let whole : m + (suc n - m) ≡ suc n = omega arith in
    let run : read_from (suc fuel) off (suc n) f
        ≡ returns (
          take_bytes f.disk (place (block f (off / 512)) (off % 512)) m
              ++ bytes f (off + m) (suc n - m),
          f,
        ) =
      rw (more, read_from, first, rest) refl in
    run
    ∙ ap (λ l. returns (l ++ bytes f (off + m) (suc n - m), f))
        (take_bytes-block f (off / 512) (off % 512) m short ∙ ap (λ k. bytes f k m) at)
    ∙ ap (λ l. returns (l, f)) (sym (bytes_append f off m (suc n - m)))
    ∙ ap (λ k. returns (bytes f off k, f)) whole

-- `readi` of a file whose blocks below the size are allocated, from an offset not above the size: it returns
-- the bytes of the file from there on, `n` or those up to the size, and changes nothing.
pub readi-bytes :
    (has_device : ℕ → Bool) (off n : ℕ) (f : Open)
    → IsMapped f
    → f.ip.type ≢ 3
    → off ≤ f.ip.size
    → off + n < 2 ^ 32
    → readi has_device off n f ≡ returns (moved (bytes f off (min n (f.ip.size - off))), f)
unfolding readi
readi-bytes has_device off n f all file inside low =
    let no_device : (f.ip.type == 3) ≡ false = ne→== f.ip.type 3 file in
    let guard : (ltb f.ip.size off || ltb ((off + n) % 2 ^ 32) off) ≡ false = ground arith in
    let n' = if ltb f.ip.size (off + n) then f.ip.size - off else n in
    let same : n' ≡ min n (f.ip.size - off) = ground arith in
    let fits : off + n' ≤ f.ip.size = ground arith in
    let run = read_from-bytes n' off n' f all (omega arith) fits in
    rw (no_device, readi, guard, run) refl ∙ ap (λ k. returns (moved (bytes f off k), f)) same
