-- ===== src/Runscan/Tests.antt =====
-- Runs of the recovery: one picture of 6 bytes in blocks of 8, and a directory in a block of 1024.
use mathlib.Core.Path.{subst}
use cs537_sp23_operating_sys.Runscan.Names.{
  Output, picture_name, details_name, file_at, name_entries, remove_rest,
}
use cs537_sp23_operating_sys.Runscan.Names.Copies.{entries, AreNames, IsAlone, HasPictures}
use cs537_sp23_operating_sys.Runscan.Names.Removal.{Recovered, name_entries-Named}
use cs537_sp23_operating_sys.Common.{
  same_text_self, load, ℕ, load, update, List, [], arith, length, min, refl, take, true, ◌+◌, ◌∷◌,
  ◌≡◌, ==→eq, Memory, ap, if◌then◌else◌, some, sym, ◌<◌, ◌==◌, ◌∙◌, ◌*◌, ◌≤◌, replicate, suc, zero,
}
use cs537_sp23_operating_sys.Runscan.{
  read_bytes, Inode, read_inode, copy_file, scan, scan_inode, scan_group, scan_groups, copy_blocks,
  copy_one, read_bytes,
}
use cs537_sp23_operating_sys.Runscan.Blocks.{contents, copy_file_lem}
use cs537_sp23_operating_sys.Runscan.Scan.{IsSound, IsPicture, inode_at, scan-IsSound, has_file}

-- The bytes of a list from address `a` on.
abbrev placed : ℕ → List ℕ → (ℕ → ℕ) → ℕ → ℕ
placed a [] m = m
placed a (b ∷ bs) m = placed (a + 1) bs (update m a b)

-- The inode table is block 1 with one inode of 64 bytes; the inode's first block is number 10.
abbrev image : ℕ → ℕ
image =
    placed 8 (0 ∷ 0x80 ∷ 0 ∷ 0 ∷ 6 ∷ [])
      (placed 48 (10 ∷ []) (placed 80 (0xFF ∷ 0xD8 ∷ 0xFF ∷ 0xE0 ∷ 1 ∷ 2 ∷ 3 ∷ 4 ∷ []) (λ a. 0)))

abbrev picture : Inode
picture = read_inode image 8 0 8 1 64

picture_bytes : (copy_file image 8 0 picture).written ≡ 0xFF ∷ 0xD8 ∷ 0xFF ∷ 0xE0 ∷ 1 ∷ 2 ∷ []
unfolding copy_file copy_blocks copy_one read_bytes load
picture_bytes = refl

copy_file_lem_example :
    ((copy_file image 8 0 picture).written ≡ take 6 (contents image 8 0 picture))
    × ((copy_file image 8 0 picture).bytes_copied ≡ min 6 (length (contents image 8 0 picture)))
unfolding load
copy_file_lem_example = copy_file_lem image 8 0 picture (omega arith)

scan-IsSound_example :
    IsSound image 8 0 1 1 64 (λ g. 1) (scan image 8 0 1 1 64 (λ g. 1))
    × ((ngroup i : ℕ)
        → ngroup < 1
        → 1 ≤ i
        → i ≤ 1
        → IsPicture image 8 0 1 1 64 (λ g. 1) (inode_at image 8 0 1 1 64 (λ g. 1) ngroup i)
        → (scan image 8 0 1 1 64 (λ g. 1)).inode_is_jpg (ngroup * 1 + i) ≡ true)
scan-IsSound_example = scan-IsSound image 8 0 1 1 64 (λ g. 1)

picture_found : has_file 1 (scan image 8 0 1 1 64 (λ g. 1)).files ≡ true
unfolding scan scan_inode scan_group scan_groups read_bytes load
picture_found = refl

-- Block 1, of 1024 bytes, is a directory with one entry: the name "a" for inode 2.
abbrev one_entry : Memory
one_entry a = if a == 1048 then 2 else if a == 1054 then 1 else if a == 1056 then 97 else 0

abbrev nine : ℕ → List ℕ
nine i = 9 ∷ []

abbrev one_picture : Output
one_picture = record { inode_is_jpg = λ i. i == 2; dir = (picture_name 2, 9 ∷ []) ∷ [] }

abbrev nobody : ℕ × List ℕ
nobody = (0, [])

entries-one_entry : entries one_entry 1024 0 1024 1 24 ≡ (2, 97 ∷ []) ∷ replicate 124 nobody
unfolding entries load read_bytes
entries-one_entry = refl

nobody-IsAlone : (n : ℕ) → IsAlone 5 one_picture.inode_is_jpg (97 ∷ []) (replicate n nobody)
nobody-IsAlone zero = tt
nobody-IsAlone (suc n) = ((λ link. cc), nobody-IsAlone n)

nobody-AreNames : (n : ℕ) → AreNames 5 one_picture.inode_is_jpg (replicate n nobody)
unfolding AreNames
nobody-AreNames zero = tt
nobody-AreNames (suc n) = ((λ link. absurd cc), nobody-AreNames n)

one_entry-AreNames : AreNames 5 one_picture.inode_is_jpg (entries one_entry 1024 0 1024 1 24)
unfolding AreNames picture_name details_name
one_entry-AreNames =
    subst (AreNames 5 one_picture.inode_is_jpg) (sym entries-one_entry)
      ((λ link. ((λ j. (refl, refl)), nobody-IsAlone 124)), nobody-AreNames 124)

one_picture-HasPictures : HasPictures one_picture.inode_is_jpg nine one_picture.dir
unfolding file_at
one_picture-HasPictures i marked =
    let same : i ≡ 2 = ==→eq i 2 marked in
    ap (λ j. file_at (picture_name j) one_picture.dir) same
    ∙ rw (same_text_self (picture_name 2), file_at) refl

name_entries-Named_example :
    (o' : Output) × (name_entries one_entry 1024 0 true 1024 5 1 24 one_picture ≡ some o')
    × Recovered 5 nine (entries one_entry 1024 0 1024 1 24) one_picture o' (remove_rest 5 0 o').dir
name_entries-Named_example =
    name_entries-Named one_entry 1024 0 5 1 nine one_picture (omega arith) one_picture-HasPictures
      one_entry-AreNames
