-- ===== src/Fs/Contents/Writes.antt =====
-- writei inside of a file, and what readi returns afterwards.
use native.Mathlib.Decide.{ℕ_discrete}
use cs537_sp23_operating_sys.Common.{
  ℕ, load-eq, Bool-cases, List, Memory, [], ap, arith, inl, inr, length, ltb, refl, update,
  update_ne, update_self, ◌*◌, ◌+◌, ◌<◌, ◌∙◌, ◌∷◌, ◌≡◌, ◌≢◌, ◌≤◌, ◌⊎◌, sym, ◌%◌, ◌-◌, ◌/◌, drop,
  false, suc, take, take-append-drop, zero, ◌++◌, ◌==◌, length-drop, length-take, Bool, min, ne→==,
  ◌^◌, ◌||◌,
}
use cs537_sp23_operating_sys.Fs.{place, returns, Open}
use cs537_sp23_operating_sys.Fs.Contents.{
  take_bytes, put_bytes, chunk, write_from, writei, moved, readi,
}
use cs537_sp23_operating_sys.Fs.Contents.Reads.{
  block, byte_at, bytes, IsMapped, bmap-mapped, take_bytes-block, bytes_append, readi-bytes,
}

-- Besides, no two blocks of the file are one, and none is the block of addresses.
pub record IsSeparate (f : Open) : Type 0 where
  pub all : IsMapped f
  pub distinct :
      (i j : ℕ) → i * 512 < f.ip.size → j * 512 < f.ip.size → block f i ≡ block f j → i ≡ j
  pub no_table : (i : ℕ) → i * 512 < f.ip.size → 12 * 512 < f.ip.size → block f i ≢ f.ip.addrs 12

put_bytes_other :
    (disk : Memory) (a : ℕ) (cs : List ℕ) (x : ℕ)
    → (x < a) ⊎ (a + length cs ≤ x)
    → put_bytes disk a cs x ≡ disk x
unfolding put_bytes
put_bytes_other disk a [] x h = refl
put_bytes_other disk a (c ∷ cs) x h =
    put_bytes_other (update disk a c) (a + 1) cs x (ground arith)
    ∙ update_ne disk a x c (ground arith)

take_bytes-put_bytes :
    (disk : Memory) (a : ℕ) (cs : List ℕ) → take_bytes (put_bytes disk a cs) a (length cs) ≡ cs
unfolding take_bytes put_bytes
take_bytes-put_bytes disk a [] = refl
take_bytes-put_bytes disk a (c ∷ cs) =
    ap (λ d. d ∷ take_bytes (put_bytes (update disk a c) (a + 1) cs) (a + 1) (length cs))
      (put_bytes_other (update disk a c) (a + 1) cs a (inl (omega arith)) ∙ update_self disk a c)
    ∙ ap (λ l. c ∷ l) (take_bytes-put_bytes (update disk a c) (a + 1) cs)

-- The file after a round of the loop of `writei`, in block `q` at place `o`.
abbrev put : Open → ℕ → ℕ → List ℕ → Open
put f q o cs = record f { disk = put_bytes f.disk (place (block f q) o) cs }

put_other :
    (f : Open) (q o : ℕ) (cs : List ℕ) (b k : ℕ)
    → o + length cs ≤ 512
    → k < 512
    → b ≢ block f q
    → (put f q o cs).disk (place b k) ≡ f.disk (place b k)
put_other f q o cs b k fits low ne =
    put_bytes_other f.disk (place (block f q) o) cs (place b k) (outside (block f q) b ne)
  where
    outside : (c b : ℕ) → b ≢ c → (place b k < place c o) ⊎ (place c o + length cs ≤ place b k)
    outside c b ne = elim (Bool-cases (ltb b c)) [
      | inl before ↦ inl (ground arith)
      | inr after ↦ inr (ground arith)
    ]

block-put :
    (f : Open) (q o : ℕ) (cs : List ℕ) (i : ℕ)
    → IsSeparate f
    → o + length cs ≤ 512
    → q * 512 < f.ip.size
    → i * 512 < f.ip.size
    → block (put f q o cs) i ≡ block f i
block-put f q o cs i sep fits in_q in_i =
    let size = sep.all.fits in
    elim (Bool-cases (ltb i 12)) [
      | inl direct ↦ rw direct refl
      | inr behind ↦
          let t = f.ip.addrs 12 in
          let at = place t (4 * (i - 12)) in
          let same : (k : ℕ) → k < 512 → (put f q o cs).disk (place t k) ≡ f.disk (place t k) =
            λ k low.
              put_other f q o cs t k fits low (λ e. sep.no_table q in_q (ground arith) (sym e)) in
          rw behind (
            load-eq (put f q o cs).disk f.disk at (λ x low high.
              let k : x ≡ place t (x - t * 512) = omega arith in
              ap (put f q o cs).disk k ∙ same (x - t * 512) (ground arith) ∙ ap f.disk (sym k)))
    ]

-- The round changes its own bytes only.
byte_at-put_other :
    (f : Open) (q o : ℕ) (cs : List ℕ) (k : ℕ)
    → IsSeparate f
    → o + length cs ≤ 512
    → q * 512 < f.ip.size
    → k < f.ip.size
    → (k < q * 512 + o) ⊎ (q * 512 + o + length cs ≤ k)
    → byte_at (put f q o cs) k ≡ byte_at f k
byte_at-put_other f q o cs k sep fits in_q in_k away =
    let in_block : k / 512 * 512 < f.ip.size = omega arith in
    let column : k % 512 < 512 = omega arith in
    ap (λ b. (put f q o cs).disk (place b (k % 512)))
      (block-put f q o cs (k / 512) sep fits in_q in_block)
    ∙ elim (ℕ_discrete (k / 512) q) [
      | no other ↦
          put_other f q o cs (block f (k / 512)) (k % 512) fits column
            (λ e. other (sep.distinct (k / 512) q in_block in_q e))
      | yes same ↦
          put_bytes_other f.disk (place (block f q) o) cs (place (block f (k / 512)) (k % 512))
            (beside (block f q) (block f (k / 512)) (ap (block f) same) (in_row same))
    ]
  where
    in_row : k / 512 ≡ q → (k % 512 < o) ⊎ (o + length cs ≤ k % 512)
    in_row same = elim away [ inl e ↦ inl (omega arith) | inr e ↦ inr (omega arith) ]

    beside :
        (b c : ℕ)
        → c ≡ b
        → (k % 512 < o) ⊎ (o + length cs ≤ k % 512)
        → (place c (k % 512) < place b o) ⊎ (place b o + length cs ≤ place c (k % 512))
    beside b c e near = elim near [ inl u ↦ inl (omega arith) | inr u ↦ inr (omega arith) ]

bytes-put :
    (f : Open) (q o : ℕ) (cs : List ℕ)
    → IsSeparate f
    → o + length cs ≤ 512
    → q * 512 < f.ip.size
    → bytes (put f q o cs) (q * 512 + o) (length cs) ≡ cs
bytes-put f q o cs sep fits in_q =
    sym (take_bytes-block (put f q o cs) q o (length cs) fits)
    ∙ ap (λ b. take_bytes (put f q o cs).disk (place b o) (length cs))
        (block-put f q o cs q sep fits in_q in_q)
    ∙ take_bytes-put_bytes f.disk (place (block f q) o) cs

IsSeparate-put :
    (f : Open) (q o : ℕ) (cs : List ℕ)
    → IsSeparate f
    → o + length cs ≤ 512
    → q * 512 < f.ip.size
    → IsSeparate (put f q o cs)
IsSeparate-put f q o cs sep fits in_q =
    let same : (i : ℕ) → i * 512 < f.ip.size → block (put f q o cs) i ≡ block f i =
      λ i in_i. block-put f q o cs i sep fits in_q in_i in
    record {
      all = record {
        fits = sep.all.fits;
        indirect = sep.all.indirect;
        mapped = λ i low e. sep.all.mapped i low (sym (same i low) ∙ e);
      };
      distinct =
          λ i j low_i low_j e. sep.distinct i j low_i low_j (sym (same i low_i) ∙ e ∙ same j low_j);
      no_table = λ i low far e. sep.no_table i low far (sym (same i low) ∙ e);
    }

bytes-eq :
    (f g : Open) (off n : ℕ)
    → ((k : ℕ) → off ≤ k → k < off + n → byte_at f k ≡ byte_at g k)
    → bytes f off n ≡ bytes g off n
unfolding bytes
bytes-eq f g off zero h = refl
bytes-eq f g off (suc n) h =
    ap (λ c. c ∷ bytes f (off + 1) n) (h off (omega arith) (omega arith))
    ∙ ap (λ l. byte_at g off ∷ l)
        (bytes-eq f g (off + 1) n (λ k low high. h k (omega arith) (omega arith)))

-- What a run over `src` at `off` leaves: the same inode, `src` at its place and every other byte as before.
Wrote : ℕ → List ℕ → Open → Open → Type 0
Wrote off src f g =
    (g.ip ≡ f.ip)
    × IsSeparate g
    × (bytes g off (length src) ≡ src)
    × ((k : ℕ) → k < f.ip.size → (k < off) ⊎ (off + length src ≤ k) → byte_at g k ≡ byte_at f k)

-- One round and the rest.
Wrote-round :
    (off m : ℕ) (src : List ℕ) (f g : Open)
    → IsSeparate f
    → m ≤ length src
    → off % 512 + m ≤ 512
    → off + length src ≤ f.ip.size
    → 0 < m
    → Wrote (off + m) (drop m src) (put f (off / 512) (off % 512) (take m src)) g
    → Wrote off src f g
unfolding Wrote
Wrote-round off m src f g sep small short inside large (ip, after, written, kept) =
    let first = length-take m src small in
    let rest = length-drop m src in
    let at : off / 512 * 512 + off % 512 ≡ off = omega arith in
    let mid = put f (off / 512) (off % 512) (take m src) in
    let fits : off % 512 + length (take m src) ≤ 512 = omega arith in
    let in_q : off / 512 * 512 < f.ip.size = omega arith in
    let front : bytes mid off m ≡ take m src =
      ap (λ k. bytes mid k m) (sym at)
      ∙ ap (bytes mid (off / 512 * 512 + off % 512)) (sym first)
      ∙ bytes-put f (off / 512) (off % 512) (take m src) sep fits in_q in
    let early : bytes g off m ≡ bytes mid off m =
      bytes-eq g mid off m (λ k low high. kept k (omega arith) (inl high)) in
    let whole : m + length (drop m src) ≡ length src = omega arith in
    (
      ip,
      after,
      ap (bytes g off) (sym whole)
          ∙ bytes_append g off m (length (drop m src))
          ∙ ap (λ l. l ++ bytes g (off + m) (length (drop m src))) (early ∙ front)
          ∙ ap (λ l. take m src ++ l) written
          ∙ take-append-drop m src,
      λ k low away.
          kept k low (beyond k away)
          ∙ byte_at-put_other f (off / 512) (off % 512) (take m src) k sep fits in_q low
              (aside k away),
    )
  where
    beyond :
        (k : ℕ)
        → (k < off) ⊎ (off + length src ≤ k)
        → (k < off + m) ⊎ (off + m + length (drop m src) ≤ k)
    beyond k away =
        let rest = length-drop m src in
        elim away [ inl e ↦ inl (omega arith) | inr e ↦ inr (omega arith) ]

    aside :
        (k : ℕ)
        → (k < off) ⊎ (off + length src ≤ k)
        → (k < off / 512 * 512 + off % 512)
          ⊎ (off / 512 * 512 + off % 512 + length (take m src) ≤ k)
    aside k away =
        let first = length-take m src small in
        elim away [ inl e ↦ inl (omega arith) | inr e ↦ inr (omega arith) ]

write_from-Wrote :
    (fuel off : ℕ) (src : List ℕ) (f : Open)
    → IsSeparate f
    → length src ≤ fuel
    → off + length src ≤ f.ip.size
    → (g : Open) × (write_from fuel off src f ≡ returns g) × Wrote off src f g
unfolding write_from Wrote bytes
write_from-Wrote fuel off [] f sep enough inside =
    (f, nothing fuel, (refl, sep, refl, λ k low away. refl))
  where
    nothing : (fuel : ℕ) → write_from fuel off [] f ≡ returns f
    nothing zero = refl
    nothing (suc fuel) = refl
write_from-Wrote zero off (c ∷ cs) f sep enough inside = absurd (omega arith)
write_from-Wrote (suc fuel) off (c ∷ cs) f sep enough inside =
    let src = c ∷ cs in
    let m = chunk off (length src) in
    let small : m ≤ length src = ground arith in
    let large : 0 < m = ground arith in
    let short : off % 512 + m ≤ 512 = ground arith in
    let more : (length src == 0) ≡ false = ground arith in
    let rest = length-drop m src in
    let first = length-take m src small in
    let in_q : off / 512 * 512 < f.ip.size = omega arith in
    let mid = put f (off / 512) (off % 512) (take m src) in
    let (g, run, wrote) =
      write_from-Wrote fuel (off + m) (drop m src) mid
        (IsSeparate-put f (off / 512) (off % 512) (take m src) sep (omega arith) in_q) (omega arith)
        (omega arith) in
    (
      g,
      rw (more, write_from, bmap-mapped f (off / 512) sep.all in_q) run,
      Wrote-round off m src f g sep small short inside large wrote,
    )

take-length : (xs : List ℕ) → take (length xs) xs ≡ xs
take-length [] = refl
take-length (x ∷ xs) = ap (λ l. x ∷ l) (take-length xs)

writei-Wrote :
    (has_device : ℕ → Bool) (off : ℕ) (src : List ℕ) (f : Open)
    → IsSeparate f
    → f.ip.type ≢ 3
    → off + length src ≤ f.ip.size
    → (g : Open) × (writei has_device off src f ≡ returns (moved (length src), g))
      × Wrote off src f g
unfolding writei Wrote
writei-Wrote has_device off src f sep file inside =
    let fits = sep.all.fits in
    let no_device : (f.ip.type == 3) ≡ false = ne→== f.ip.type 3 file in
    let guard : (ltb f.ip.size off || ltb ((off + length src) % 2 ^ 32) off) ≡ false =
      ground arith in
    let small : ltb (140 * 512) (off + length src) ≡ false = ground arith in
    let (g, run, (ip, after, written, kept)) =
      write_from-Wrote (length src) off src f sep (omega arith) inside in
    let same : g.ip.size ≡ f.ip.size = ap (λ x. x.size) ip in
    let no_growth : ltb g.ip.size (off + length src) ≡ false = ground arith in
    elim (Bool-cases (ltb 0 (length src))) [
      | inl some_bytes ↦ (
        g,
        rw (no_device, writei, guard, small, take-length src, run, some_bytes, no_growth) refl,
        (ip, after, written, kept),
      )
      | inr nothing ↦ (
        g,
        rw (no_device, writei, guard, small, take-length src, run, nothing) refl,
        (ip, after, written, kept),
      )
    ]

-- A write into a file, from any offset, that does not go beyond the size, where the blocks below the size are
-- allocated and no two of them are one, and none is the block of addresses: `writei` writes all of it, `readi`
-- at the same place returns what was written, every other byte of the file and the inode are as before, and
-- the blocks of the file are again such.
pub readi-writei :
    (can_read can_write : ℕ → Bool) (off : ℕ) (src : List ℕ) (f : Open)
    → IsSeparate f
    → f.ip.type ≢ 3
    → off + length src ≤ f.ip.size
    → (g : Open) × (writei can_write off src f ≡ returns (moved (length src), g))
      × (readi can_read off (length src) g ≡ returns (moved src, g))
      × (g.ip ≡ f.ip)
      × IsSeparate g
      × ((k : ℕ) → k < f.ip.size → (k < off) ⊎ (off + length src ≤ k) → byte_at g k ≡ byte_at f k)
unfolding Wrote
readi-writei can_read can_write off src f sep file inside =
    let fits = sep.all.fits in
    let (g, run, (ip, after, written, kept)) = writei-Wrote can_write off src f sep file inside in
    let size : g.ip.size ≡ f.ip.size = ap (λ x. x.size) ip in
    let type : g.ip.type ≡ f.ip.type = ap (λ x. x.type) ip in
    let all : min (length src) (g.ip.size - off) ≡ length src = ground arith in
    (
      g,
      run,
      readi-bytes can_read off (length src) g after.all (λ e. file (sym type ∙ e)) (omega arith)
            (omega arith)
          ∙ ap (λ n. returns (moved (bytes g off n), g)) all
          ∙ ap (λ l. returns (moved l, g)) written,
      ip,
      after,
      kept,
    )
