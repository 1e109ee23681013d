-- ===== src/Runscan/Scan.antt =====
-- The loop over all inodes: the array of marks and the files written.
use mathlib.Core.Path.{subst}
use native.Mathlib.Decide.{ℕ_discrete}
use cs537_sp23_operating_sys.Common.{
  update_self, sym, ℕ, All, Bool, Bool-cases, List, [], arith, false, inl, inr, take, true, ◌++◌,
  ◌+◌, ◌<◌, ◌==◌, ◌^◌, ◌||◌, ◌∷◌, ◌≡◌, refl, suc, zero, Option, ltb, ◌≤◌, ◌*◌,
}
use cs537_sp23_operating_sys.Runscan.{
  Inode, Saved, Found, is_regular, is_directory, is_jpg, read_block, copy_file, scan_inode,
  scan_group, scan_groups, scan, locate_inode_table, read_inode, find_top_secret, next_offset,
  name_len,
}
use cs537_sp23_operating_sys.Runscan.Blocks.{contents, copy_file_lem}

-- The file of inode `n` is among those written.
abbrev pub has_file : ℕ → List Saved → Bool
has_file n [] = false
has_file n (f ∷ fs) = (f.inode_num == n) || has_file n fs

has_file-append :
    (n : ℕ) (fs : List Saved) (f : Saved)
    → has_file n (fs ++ (f ∷ [])) ≡ has_file n fs || (f.inode_num == n)
has_file-append n [] f = ground arith
has_file-append n (g ∷ fs) f = ground (arith, has_file-append n fs f)

All-append :
    (P : Saved → Type 0) (fs : List Saved) (f : Saved) → All P fs → P f → All P (fs ++ (f ∷ []))
All-append P [] f h p = (p, tt)
All-append P (g ∷ fs) f h p = (h.0, All-append P fs f h.1 p)

module _ (disk : ℕ → ℕ) (block_size beyond : ℕ) where
  -- The loop over the entries of a directory ends: fuel for the bytes that are left is enough, and any
  -- more does not change the result.
  pub find_top_secret-ends :
      (n more limit b offset : ℕ) (top : Option ℕ)
      → block_size ≤ offset + n
      → find_top_secret disk block_size beyond (n + more) limit b offset top
        ≡ find_top_secret disk block_size beyond n limit b offset top
  unfolding find_top_secret
  find_top_secret-ends zero zero limit b offset top h = refl
  find_top_secret-ends zero (suc more) limit b offset top h =
      let e : zero + suc more ≡ suc more = omega arith in
      let over : ltb offset block_size ≡ false = ground arith in rw (e, over, find_top_secret) refl
  find_top_secret-ends (suc n) more limit b offset top h =
      let e : suc n + more ≡ suc (n + more) = omega arith in
      elim (Bool-cases (ltb offset block_size)) [
        | inl inside ↦
            rw (e, inside, find_top_secret)
              (find_top_secret-ends n more limit b
                (next_offset offset (name_len disk block_size beyond b offset)) _ (ground arith))
        | inr over ↦ rw (e, over, find_top_secret) refl
      ]

  module _ (num_groups inodes_per_group s_inode_size : ℕ) (bg_inode_table : ℕ → ℕ) where
    -- Inode `i` of a group, as it stands in the inode table of the group.
    abbrev pub inode_at : ℕ → ℕ → Inode
    inode_at ngroup i =
        read_inode disk block_size beyond
          (locate_inode_table disk block_size beyond num_groups inodes_per_group s_inode_size
            bg_inode_table ngroup)
          i s_inode_size

    -- A regular inode whose first block starts as a picture.
    abbrev pub IsPicture : Inode → Type 0
    IsPicture inode =
        (is_regular inode.i_mode ≡ true)
        × (is_jpg (read_block disk block_size beyond (inode.i_block 0)) ≡ true)

    -- A file is that of an inode of the disk, with the number of the inode, which is a picture, and has the
    -- contents of the inode up to its size.
    abbrev pub IsCopy : Saved → Type 0
    IsCopy f =
        ((ngroup i : ℕ) × (ngroup < num_groups)
          × (1 ≤ i)
          × (i ≤ inodes_per_group)
          × (f.inode_num ≡ ngroup * inodes_per_group + i)
          × (f.inode ≡ inode_at ngroup i))
        × IsPicture f.inode
        × (f.inode.i_size + block_size < 2 ^ 32
            → f.bytes ≡ take f.inode.i_size (contents disk block_size beyond f.inode))

    pub record IsSound (f : Found) : Type 0 where
      copies : All IsCopy f.files
      marks : (n : ℕ) → f.inode_is_jpg n ≡ has_file n f.files

    abbrev scan_limit : ℕ
    scan_limit = num_groups * inodes_per_group + 1

    scan_inode-IsSound :
        (ngroup i : ℕ) (f : Found)
        → ngroup < num_groups
        → 1 ≤ i
        → i ≤ inodes_per_group
        → IsSound f
        → IsSound (
            scan_inode disk block_size beyond scan_limit
              (ngroup * inodes_per_group + i)
              (inode_at ngroup i)
              f)
    unfolding scan_inode
    scan_inode-IsSound ngroup i f group first last h =
        let inode_num = ngroup * inodes_per_group + i in
        let inode = inode_at ngroup i in
        let block : List ℕ = read_block disk block_size beyond (inode.i_block 0) in
        elim (Bool-cases (is_regular inode.i_mode)) [
          | inl regular ↦ elim (Bool-cases (is_jpg block)) [
            | inl jpg ↦
                let saved : Saved = record {
                  inode_num = inode_num;
                  inode = inode;
                  bytes = (copy_file disk block_size beyond inode).written;
                } in
                rw (regular, jpg)
                  (record {
                    copies = All-append IsCopy f.files saved h.copies (
                      (ngroup, i, group, first, last, refl, refl),
                      (regular, jpg),
                      λ fits. (copy_file_lem disk block_size beyond inode fits).0,
                    );
                    marks = λ n. ground (arith, h.marks n, has_file-append n f.files saved);
                  })
            | inr other ↦ rw (regular, other) h
          ]
          | inr special ↦ elim (Bool-cases (is_directory inode.i_mode)) [
            | inl directory ↦
                rw (special, directory) (record { copies = h.copies; marks = h.marks })
            | inr other ↦ rw (special, other) h
          ]
        ]

    scan_group-IsSound :
        (n ngroup i : ℕ) (f : Found)
        → ngroup < num_groups
        → 1 ≤ i
        → i + n ≤ suc inodes_per_group
        → IsSound f
        → IsSound (
            scan_group disk block_size beyond num_groups inodes_per_group s_inode_size
              bg_inode_table n ngroup i f)
    unfolding scan_group
    scan_group-IsSound zero ngroup i f group first last h = h
    scan_group-IsSound (suc n) ngroup i f group first last h =
        scan_group-IsSound n ngroup (i + 1) _ group (omega (arith, first)) (omega (arith, last))
          (scan_inode-IsSound ngroup i f group first (omega (arith, last)) h)

    scan_groups-IsSound :
        (n ngroup : ℕ) (f : Found)
        → ngroup + n ≤ num_groups
        → IsSound f
        → IsSound (
            scan_groups disk block_size beyond num_groups inodes_per_group s_inode_size
              bg_inode_table n ngroup f)
    unfolding scan_groups
    scan_groups-IsSound zero ngroup f groups h = h
    scan_groups-IsSound (suc n) ngroup f groups h =
        scan_groups-IsSound n (ngroup + 1) _ (omega (arith, groups)) (
          scan_group-IsSound inodes_per_group ngroup 1 f (omega (arith, groups)) (omega arith)
            (omega arith) h)

    -- A mark is never taken back.
    scan_inode-keeps :
        (inode_num m : ℕ) (inode : Inode) (f : Found)
        → f.inode_is_jpg m ≡ true
        → (scan_inode disk block_size beyond scan_limit inode_num inode f).inode_is_jpg m ≡ true
    unfolding scan_inode
    scan_inode-keeps inode_num m inode f h = ground (arith, h)

    scan_group-keeps :
        (n ngroup i m : ℕ) (f : Found)
        → f.inode_is_jpg m ≡ true
        → (scan_group disk block_size beyond num_groups inodes_per_group s_inode_size bg_inode_table
              n ngroup i f).inode_is_jpg
            m
          ≡ true
    unfolding scan_group
    scan_group-keeps zero ngroup i m f h = h
    scan_group-keeps (suc n) ngroup i m f h =
        scan_group-keeps n ngroup (i + 1) m _ (scan_inode-keeps _ m _ f h)

    scan_groups-keeps :
        (n ngroup m : ℕ) (f : Found)
        → f.inode_is_jpg m ≡ true
        → (scan_groups disk block_size beyond num_groups inodes_per_group s_inode_size
              bg_inode_table n ngroup f).inode_is_jpg
            m
          ≡ true
    unfolding scan_groups
    scan_groups-keeps zero ngroup m f h = h
    scan_groups-keeps (suc n) ngroup m f h =
        scan_groups-keeps n (ngroup + 1) m _ (scan_group-keeps inodes_per_group ngroup 1 m f h)

    scan_inode-picture :
        (inode_num : ℕ) (inode : Inode) (f : Found)
        → IsPicture inode
        → (scan_inode disk block_size beyond scan_limit inode_num inode f).inode_is_jpg inode_num
          ≡ true
    unfolding scan_inode
    scan_inode-picture inode_num inode f (regular, jpg) =
        rw (regular, jpg) (update_self f.inode_is_jpg inode_num true)

    scan_group-picture :
        (n ngroup i j : ℕ) (f : Found)
        → i ≤ j
        → j < i + n
        → IsPicture (inode_at ngroup j)
        → (scan_group disk block_size beyond num_groups inodes_per_group s_inode_size bg_inode_table
              n ngroup i f).inode_is_jpg
            (ngroup * inodes_per_group + j)
          ≡ true
    unfolding scan_group
    scan_group-picture zero ngroup i j f first last picture = absurd (omega (arith, first, last))
    scan_group-picture (suc n) ngroup i j f first last picture = elim (ℕ_discrete i j) [
      | yes same ↦ scan_group-keeps n ngroup (i + 1) (ngroup * inodes_per_group + j) _ (
          subst
            (λ x.
              (scan_inode disk block_size beyond scan_limit (ngroup * inodes_per_group + x)
                  (inode_at ngroup x) f).inode_is_jpg
                (ngroup * inodes_per_group + j)
              ≡ true)
            (sym same) (scan_inode-picture _ _ f picture))
      | no ne ↦
          scan_group-picture n ngroup (i + 1) j _ (omega (arith, first, ne)) (omega (arith, last))
            picture
    ]

    scan_groups-picture :
        (n ngroup g j : ℕ) (f : Found)
        → ngroup ≤ g
        → g < ngroup + n
        → 1 ≤ j
        → j ≤ inodes_per_group
        → IsPicture (inode_at g j)
        → (scan_groups disk block_size beyond num_groups inodes_per_group s_inode_size
              bg_inode_table n ngroup f).inode_is_jpg
            (g * inodes_per_group + j)
          ≡ true
    unfolding scan_groups
    scan_groups-picture zero ngroup g j f start end first last picture =
        absurd (omega (arith, start, end))
    scan_groups-picture (suc n) ngroup g j f start end first last picture =
        elim (ℕ_discrete g ngroup) [
          | yes same ↦ scan_groups-keeps n (ngroup + 1) (g * inodes_per_group + j) _ (
              subst
                (λ x.
                  (scan_group disk block_size beyond num_groups inodes_per_group s_inode_size
                      bg_inode_table inodes_per_group x 1 f).inode_is_jpg
                    (g * inodes_per_group + j)
                  ≡ true)
                same
                (scan_group-picture inodes_per_group g 1 j f first (omega (arith, last)) picture))
          | no ne ↦
              scan_groups-picture n (ngroup + 1) g j _ (omega (arith, start, ne))
                (omega (arith, end)) first last picture
        ]

    -- After the loop over all inodes, every file written is that of an inode of the disk, under the number
    -- of the inode, which is regular and whose first block starts as a picture; where its size is not close
    -- to 2 ^ 32, the file is the contents of the inode up to its size. The array marks the inodes that have
    -- a file, and no others, and it marks every inode of the disk that is regular and starts as a picture.
    pub scan-IsSound :
        IsSound
          (scan disk block_size beyond num_groups inodes_per_group s_inode_size bg_inode_table)
        × ((ngroup i : ℕ)
            → ngroup < num_groups
            → 1 ≤ i
            → i ≤ inodes_per_group
            → IsPicture (inode_at ngroup i)
            → (scan disk block_size beyond num_groups inodes_per_group s_inode_size
                  bg_inode_table).inode_is_jpg
                (ngroup * inodes_per_group + i)
              ≡ true)
    unfolding scan
    scan-IsSound = (
      scan_groups-IsSound num_groups 0 _ (omega arith) (record { copies = tt; marks = λ n. refl }),
      λ ngroup i group first last picture.
          scan_groups-picture num_groups 0 ngroup i _ (omega arith) (omega (arith, group)) first
            last picture,
    )
