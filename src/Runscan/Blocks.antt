-- ===== src/Runscan/Blocks.antt =====
-- The copying loops against the blocks of the file, in order.
use cs537_sp23_operating_sys.Common.{
  ℕ, List, [], ap, arith, length, min, refl, suc, take, zero, ◌++◌, ◌+◌, ◌-◌, ◌∷◌, ◌≡◌, ◌≤◌,
  append-nil, append_assoc, length-append, sym, ◌/◌, ◌<◌, ◌^◌, ◌∙◌, Bool-cases, inl, inr, ltb,
  ltb→lt, true, ◌%◌, ◌==◌, if◌then◌else◌,
}
use cs537_sp23_operating_sys.Runscan.{
  Inode, Copying, read_bytes, read_block, copy_one, copy_blocks, ind_block, copy_indirect,
  copy_double, copy_file, at_start,
}

length-take : (n : ℕ) (xs : List ℕ) → length (take n xs) ≡ min n (length xs)
length-take zero xs = omega arith
length-take (suc n) [] = omega arith
length-take (suc n) (x ∷ xs) = omega (arith, length-take n xs)

take_nil : (n : ℕ) → take {A = ℕ} n [] ≡ []
take_nil zero = refl
take_nil (suc n) = refl

take-append : (n : ℕ) (xs ys : List ℕ) → take n (xs ++ ys) ≡ take n xs ++ take (n - length xs) ys
take-append zero [] ys = refl
take-append zero (x ∷ xs) ys = let e : 0 - length (x ∷ xs) ≡ 0 = omega arith in rw e refl
take-append (suc n) [] ys = let e : suc n - 0 ≡ suc n = omega arith in rw e refl
take-append (suc n) (x ∷ xs) ys =
    let e : suc n - length (x ∷ xs) ≡ n - length xs = omega arith in
    rw e (ap (λ l. x ∷ l) (take-append n xs ys))

take_all : (n : ℕ) (xs : List ℕ) → length xs ≤ n → take n xs ≡ xs
take_all zero [] h = refl
take_all zero (x ∷ xs) h = absurd (omega arith)
take_all (suc n) [] h = refl
take_all (suc n) (x ∷ xs) h = ap (λ l. x ∷ l) (take_all n xs (omega arith))

length-read_bytes : (disk : ℕ → ℕ) (a n : ℕ) → length (read_bytes disk a n) ≡ n
unfolding read_bytes
length-read_bytes disk a zero = refl
length-read_bytes disk a (suc n) = ap suc (length-read_bytes disk (a + 1) n)

-- From `c` to `r`, the bytes `data` are written as far as the size allows.
pub record Wrote (size : ℕ) (c : Copying) (data_bytes : List ℕ) (r : Copying) : Type 0 where
  copied : r.bytes_copied ≡ min size (c.bytes_copied + length data_bytes)
  out : r.written ≡ c.written ++ take (size - c.bytes_copied) data_bytes

Wrote-end : (size : ℕ) (c : Copying) (d : List ℕ) → c.bytes_copied ≡ size → Wrote size c d c
Wrote-end size c d h =
    let e : size - c.bytes_copied ≡ 0 = omega arith in
    record { copied = omega arith; out = rw e (sym (append-nil c.written)) }

Wrote-from_start :
    (size : ℕ) (c : Copying) (d : List ℕ) (r : Copying)
    → c.bytes_copied ≡ 0
    → c.written ≡ []
    → Wrote size c d r
    → (r.written ≡ take size d) × (r.bytes_copied ≡ min size (length d))
Wrote-from_start size c d r none_copied none_written w =
    let whole : size - c.bytes_copied ≡ size = omega arith in
    (
      w.out ∙ ap (λ l. l ++ take (size - c.bytes_copied) d) none_written ∙ ap (λ n. take n d) whole,
      omega (arith, w.copied),
    )

Wrote-trans :
    (size : ℕ) (c : Copying) (d : List ℕ) (r : Copying) (e : List ℕ) (s : Copying)
    → Wrote size c d r
    → Wrote size r e s
    → Wrote size c (d ++ e) s
Wrote-trans size c d r e s w w' =
    let left : size - r.bytes_copied ≡ size - c.bytes_copied - length d = omega (arith, w.copied) in
    record {
      copied = omega (arith, w.copied, w'.copied, length-append d e);
      out =
          w'.out
          ∙ ap (λ l. l ++ take (size - r.bytes_copied) e) w.out
          ∙ append_assoc c.written (take (size - c.bytes_copied) d) (take (size - r.bytes_copied) e)
          ∙ ap (λ n. c.written ++ (take (size - c.bytes_copied) d ++ take n e)) left
          ∙ ap (λ l. c.written ++ l) (sym (take-append (size - c.bytes_copied) d e));
    }

module _ (disk : ℕ → ℕ) (block_size beyond : ℕ) where
  abbrev pub block : ℕ → List ℕ
  block b = read_block disk block_size beyond b

  -- The bytes of the blocks at `n` pointers from `i` on.
  pub blocks : (ℕ → ℕ) → ℕ → ℕ → List ℕ
  blocks pointer zero i = []
  blocks pointer (suc n) i = block (pointer i) ++ blocks pointer n (i + 1)

  -- The bytes of the blocks at `n` pointers to blocks of pointers.
  pub double_blocks : (ℕ → ℕ) → ℕ → ℕ → List ℕ
  double_blocks outer zero i = []
  double_blocks outer (suc n) i =
      blocks (ind_block disk block_size beyond (outer i)) (block_size / 4) 0
      ++ double_blocks outer n (i + 1)

  -- The bytes of the blocks of a file, in order: the direct ones, those of the block of pointers, and
  -- those of the blocks of pointers that the last block points to.
  abbrev pub contents : Inode → List ℕ
  contents inode =
      let word = ind_block disk block_size beyond in
      blocks inode.i_block 12 0
      ++ (blocks (word (inode.i_block 12)) (block_size / 4) 0
          ++ double_blocks (word (inode.i_block 13)) (block_size / 4) 0)

module _ (disk : ℕ → ℕ) (block_size beyond size : ℕ) (fits : size + block_size < 2 ^ 32) where
  copy_one-Wrote :
      (pointer : ℕ → ℕ) (i : ℕ) (c : Copying) (d : List ℕ)
      → c.bytes_copied < size
      → c.buffer ≡ d
      → length d ≡ block_size
      → Wrote size c d (copy_one disk block_size beyond pointer i size c)
  unfolding copy_one
  copy_one-Wrote pointer i c d h e l =
      let step = (c.bytes_copied + block_size) % 2 ^ 32 in
      elim (Bool-cases (ltb size step)) [
        | inl partial ↦ record { copied = rw partial (ground arith); out = rw (partial, e) refl }
        | inr whole ↦
            let room : block_size ≤ size - c.bytes_copied = ground arith in
            record {
              copied = rw whole (ground arith);
              out =
                  rw (whole, e)
                    (ap (λ t. c.written ++ t)
                      (take_all block_size d (omega arith)
                        ∙ sym (take_all (size - c.bytes_copied) d (omega arith))));
            }
      ]

  -- While the file goes on, the buffer has the next block.
  copy_one-buffer :
      (pointer : ℕ → ℕ) (i : ℕ) (c : Copying)
      → c.bytes_copied < size
      → (copy_one disk block_size beyond pointer i size c).bytes_copied < size
      → (copy_one disk block_size beyond pointer i size c).buffer
        ≡ block disk block_size beyond (pointer (i + 1))
  unfolding copy_one
  copy_one-buffer pointer i c h h' =
      let step = (c.bytes_copied + block_size) % 2 ^ 32 in
      elim (Bool-cases (ltb size step)) [
        | inl partial ↦ absurd (ground arith)
        | inr whole ↦
            let same : (block_size == block_size) ≡ true = ground arith in rw (whole, same) refl
      ]

  pub copy_blocks-Wrote :
      (pointer : ℕ → ℕ) (n i : ℕ) (c : Copying)
      → c.bytes_copied ≤ size
      → (c.bytes_copied < size → c.buffer ≡ block disk block_size beyond (pointer i))
      → Wrote size c
          (blocks disk block_size beyond pointer n i)
          (copy_blocks disk block_size beyond pointer n i size c)
  unfolding copy_blocks blocks
  copy_blocks-Wrote pointer zero i c h b = record {
    copied = omega arith;
    out = rw (take_nil (size - c.bytes_copied)) (sym (append-nil c.written));
  }
  copy_blocks-Wrote pointer (suc n) i c h b = elim (Bool-cases (ltb c.bytes_copied size)) [
    | inl more ↦
        let less = ltb→lt c.bytes_copied size more in
        let one =
          copy_one-Wrote pointer i c (block disk block_size beyond (pointer i)) less (b less)
            (length-read_bytes disk _ block_size) in
        rw (more, copy_blocks)
          (Wrote-trans size c _ (copy_one disk block_size beyond pointer i size c) _ _ one (
            copy_blocks-Wrote pointer n (i + 1) (copy_one disk block_size beyond pointer i size c)
              (omega (arith, one.copied)) (copy_one-buffer pointer i c less)))
    | inr done ↦ rw (done, copy_blocks) (Wrote-end size c _ (ground arith))
  ]

  copy_indirect-Wrote :
      (b : ℕ) (c : Copying)
      → c.bytes_copied ≤ size
      → Wrote size c
          (blocks disk block_size beyond (ind_block disk block_size beyond b) (block_size / 4) 0)
          (copy_indirect disk block_size beyond b size c)
  unfolding copy_indirect
  copy_indirect-Wrote b c h =
      let pointer = ind_block disk block_size beyond b in
      let w =
        copy_blocks-Wrote pointer (block_size / 4) 0
          (record c { buffer = block disk block_size beyond (pointer 0) }) h (λ l. refl) in
      record { copied = w.copied; out = w.out }

  copy_double-Wrote :
      (outer : ℕ → ℕ) (n i : ℕ) (c : Copying)
      → c.bytes_copied ≤ size
      → Wrote size c
          (double_blocks disk block_size beyond outer n i)
          (copy_double disk block_size beyond outer n i size c)
  unfolding copy_double double_blocks
  copy_double-Wrote outer zero i c h = record {
    copied = omega arith;
    out = rw (take_nil (size - c.bytes_copied)) (sym (append-nil c.written));
  }
  copy_double-Wrote outer (suc n) i c h = elim (Bool-cases (ltb c.bytes_copied size)) [
    | inl more ↦
        let one = copy_indirect-Wrote (outer i) c h in
        let next = copy_indirect disk block_size beyond (outer i) size c in
        rw (more, copy_double)
          (Wrote-trans size c _ next _ _ one
            (copy_double-Wrote outer n (i + 1) next (omega (arith, one.copied))))
    | inr done ↦ rw (done, copy_double) (Wrote-end size c _ (ground arith))
  ]

  -- A stage of `copy_file`: it is left out where the file is complete.
  stage-Wrote :
      (c : Copying) (d : List ℕ) (r : Copying)
      → c.bytes_copied ≤ size
      → Wrote size c d r
      → Wrote size c d (if ltb c.bytes_copied size then r else c)
  stage-Wrote c d r h w = elim (Bool-cases (ltb c.bytes_copied size)) [
    | inl more ↦ rw more w
    | inr done ↦ rw done (Wrote-end size c d (ground arith))
  ]

module _ (disk : ℕ → ℕ) (block_size beyond : ℕ) where
  -- Where the size is not close to 2 ^ 32, the copy of a file is its contents up to its size, and as many
  -- bytes are counted.
  pub copy_file_lem :
      (inode : Inode)
      → inode.i_size + block_size < 2 ^ 32
      → ((copy_file disk block_size beyond inode).written
          ≡ take inode.i_size (contents disk block_size beyond inode))
        × ((copy_file disk block_size beyond inode).bytes_copied
            ≡ min inode.i_size (length (contents disk block_size beyond inode)))
  unfolding copy_file
  copy_file_lem inode fits =
      let size = inode.i_size in
      let start = at_start disk block_size beyond inode in
      let word = ind_block disk block_size beyond in
      let direct = copy_blocks disk block_size beyond inode.i_block 12 0 size start in
      let w1 =
        copy_blocks-Wrote disk block_size beyond size fits inode.i_block 12 0 start (omega arith)
          (λ l. refl) in
      let le1 : direct.bytes_copied ≤ size = omega (arith, w1.copied) in
      let w2 =
        stage-Wrote disk block_size beyond size fits direct _ _ le1
          (copy_indirect-Wrote disk block_size beyond size fits (inode.i_block 12) direct le1) in
      let single =
        if ltb direct.bytes_copied size
        then copy_indirect disk block_size beyond (inode.i_block 12) size direct
        else direct in
      let le2 : single.bytes_copied ≤ size = omega (arith, w2.copied) in
      let w3 = stage-Wrote disk block_size beyond size fits single _ _ le2 (
        copy_double-Wrote disk block_size beyond size fits (word (inode.i_block 13))
          (block_size / 4) 0 single le2) in
      let w = Wrote-trans size start _ _ _ _ w1 (Wrote-trans size direct _ _ _ _ w2 w3) in
      Wrote-from_start size start (contents disk block_size beyond inode) _ refl refl w
