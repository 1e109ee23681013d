-- ===== src/Runscan/Names/Copies.antt =====
-- The copies of pictures under the names of a directory.
use cs537_sp23_operating_sys.Common.{
  ℕ, All, Bool, Bool-cases, List, Memory, Option, Option-cases, [], arith, false, if◌then◌else◌,
  inl, inr, ltb, none, refl, same_text, some, suc, true, update, zero, ◌∙◌, ◌∷◌, ◌≡◌, ==→eq, ap,
  leb, length, not, sym, ◌&&◌, ◌==◌, ◌||◌,
}
use cs537_sp23_operating_sys.Runscan.{next_offset, entry_inode, entry_name, name_len}
use cs537_sp23_operating_sys.Runscan.Names.{
  Directory, file_at, put_file, picture_name, details_name, Output, copy_named, names_picture,
  name_entry, name_entries,
}
use cs537_sp23_operating_sys.Runscan.Names.Files.{file_at-put_file, file_at-put_file_ne}

-- The entries that the loop visits, with their inodes and names.
unfoldable pub entries : Memory → ℕ → ℕ → ℕ → ℕ → ℕ → List (ℕ × List ℕ)
entries disk block_size beyond zero b offset = []
entries disk block_size beyond (suc n) b offset = elim (ltb offset block_size) [
  | true ↦
      (entry_inode disk block_size beyond b offset, entry_name disk block_size beyond b offset)
      ∷ entries disk block_size beyond n b
          (next_offset offset (name_len disk block_size beyond b offset))
  | false ↦ []
]

-- The pictures `marked` and their bytes: each of them is there under its own name.
abbrev pub HasPictures : (ℕ → Bool) → (ℕ → List ℕ) → Directory → Type 0
HasPictures marked bytes dir =
    (i : ℕ) → marked i ≡ true → file_at (picture_name i) dir ≡ some (bytes i)

-- An entry that names a picture of those marked.
abbrev pub is_link : ℕ → (ℕ → Bool) → ℕ × List ℕ → Bool
is_link limit marked (i, name) = leb i limit && not (length name == 0) && marked i

-- A name that no entry of a picture has.
abbrev pub IsAlone : ℕ → (ℕ → Bool) → List ℕ → List (ℕ × List ℕ) → Type 0
IsAlone limit marked other es =
    All (λ (e : ℕ × List ℕ). is_link limit marked e ≡ true → same_text other (e.1) ≡ false) es

-- The entries of pictures have different names, and none of them is that of a picture or of details. Other
-- entries have any names.
unfoldable pub AreNames : ℕ → (ℕ → Bool) → List (ℕ × List ℕ) → Type 0
AreNames limit marked [] = Unit
AreNames limit marked ((i, name) ∷ es) =
    (is_link limit marked (i, name) ≡ true
      → ((j : ℕ)
          → (same_text (picture_name j) name ≡ false) × (same_text (details_name j) name ≡ false))
        × IsAlone limit marked name es)
    × AreNames limit marked es

-- Some entry names inode `j`.
unfoldable pub is_named : ℕ → ℕ → List (ℕ × List ℕ) → Bool
is_named limit j [] = false
is_named limit j ((i, name) ∷ es) =
    ((i == j) && leb i limit && not (length name == 0)) || is_named limit j es

-- The first entry of a picture is a file with the bytes of the picture.
unfoldable pub Named : ℕ → (ℕ → List ℕ) → List (ℕ × List ℕ) → (ℕ → Bool) → Directory → Type 0
Named limit bytes [] marked dir = Unit
Named limit bytes ((i, name) ∷ es) marked dir =
    if names_picture limit i name (record { inode_is_jpg = marked; dir = dir })
    then (file_at name dir ≡ some (bytes i)) × Named limit bytes es (update marked i false) dir
    else Named limit bytes es marked dir

-- The loop over "top_secret", by its entries.
pub name_all : ℕ → List (ℕ × List ℕ) → Output → Option Output
name_all limit [] o = some o
name_all limit ((i, name) ∷ es) o = elim (name_entry true limit i name o) [
  | none ↦ none
  | some o' ↦ name_all limit es o'
]

pub name_entries-name_all :
    (disk : Memory) (block_size beyond n limit b offset : ℕ) (o : Output)
    → name_entries disk block_size beyond true n limit b offset o
      ≡ name_all limit (entries disk block_size beyond n b offset) o
unfolding name_entries name_all entries
name_entries-name_all disk block_size beyond zero limit b offset o = refl
name_entries-name_all disk block_size beyond (suc n) limit b offset o =
    elim (Bool-cases (ltb offset block_size)) [
      | inr past ↦ rw (past, name_entries, entries) refl
      | inl inside ↦
          let i = entry_inode disk block_size beyond b offset in
          let name = entry_name disk block_size beyond b offset in
          elim (Option-cases (name_entry true limit i name o)) [
            | inl failed ↦ rw (inside, name_entries, entries, failed, name_all) refl
            | inr (o', done) ↦
                rw (inside, name_entries, entries, done, name_all)
                  (name_entries-name_all disk block_size beyond n limit b
                    (next_offset offset (name_len disk block_size beyond b offset)) o')
          ]
    ]

-- A copy under a name that is not that of a picture.
copy_named_lem :
    (i : ℕ) (name : List ℕ) (bytes : ℕ → List ℕ) (o : Output)
    → HasPictures o.inode_is_jpg bytes o.dir
    → o.inode_is_jpg i ≡ true
    → ((j : ℕ)
        → (same_text (picture_name j) name ≡ false) × (same_text (details_name j) name ≡ false))
    → copy_named true i name o
      ≡ some (record {
        inode_is_jpg = update o.inode_is_jpg i false;
        dir = put_file name (bytes i) (put_file name [] o.dir);
      })
unfolding copy_named
copy_named_lem i name bytes o pictures marked away =
    let there = pictures i marked in
    let still = file_at-put_file_ne name (picture_name i) [] o.dir (away i).0 ∙ there in
    rw (there, copy_named, still) refl

-- What the copies keep: the files that have none of the names.
abbrev pub Keeps : ℕ → (ℕ → Bool) → List (ℕ × List ℕ) → Output → Output → Type 0
Keeps limit marked es o o' =
    (other : List ℕ) → IsAlone limit marked other es → file_at other o'.dir ≡ file_at other o.dir

-- The marks that are left: those of pictures without a name.
abbrev pub Unmarks : ℕ → List (ℕ × List ℕ) → Output → Output → Type 0
Unmarks limit es o o' = (j : ℕ) → o'.inode_is_jpg j ≡ o.inode_is_jpg j && not (is_named limit j es)

Unmarks-skipped :
    (limit i j : ℕ) (name : List ℕ) (m : ℕ → Bool) (rest : Bool)
    → (leb i limit && not (length name == 0) && m i) ≡ false
    → (m j && not rest) ≡ (m j && not (((i == j) && leb i limit && not (length name == 0)) || rest))
Unmarks-skipped limit i j name m rest skipped = elim (Bool-cases (i == j)) [
  | inl same ↦
      let e : m i ≡ m j = ap m (==→eq i j same) in
      let off : (leb i limit && not (length name == 0) && m j) ≡ false =
        ap (λ b. leb i limit && not (length name == 0) && b) (sym e) ∙ skipped in
      ground arith
  | inr other ↦ rw other refl
]

Unmarks-copied :
    (limit i j : ℕ) (name : List ℕ) (m : ℕ → Bool) (rest : Bool)
    → (leb i limit && not (length name == 0)) ≡ true
    → (update m i false j && not rest)
      ≡ (m j && not (((i == j) && leb i limit && not (length name == 0)) || rest))
Unmarks-copied limit i j name m rest copied = ground arith

-- The copies of all entries; `marked` is what was marked before the loop.
pub name_all-Named :
    (limit : ℕ) (marked : ℕ → Bool) (bytes : ℕ → List ℕ) (es : List (ℕ × List ℕ)) (o : Output)
    → ((j : ℕ) → o.inode_is_jpg j ≡ true → marked j ≡ true)
    → HasPictures o.inode_is_jpg bytes o.dir
    → AreNames limit marked es
    → (o' : Output) × (name_all limit es o ≡ some o')
      × Named limit bytes es o.inode_is_jpg o'.dir
      × Unmarks limit es o o'
      × Keeps limit marked es o o'
unfolding name_all AreNames Named name_entry is_named
name_all-Named limit marked bytes [] o old pictures names =
    (o, refl, tt, (λ j. ground arith), λ other away. refl)
name_all-Named limit marked bytes ((i, name) ∷ es) o old pictures (apart, names) =
    elim (Bool-cases (names_picture limit i name o)) [
      | inr skipped ↦
          let (o', run, named, marks, kept) =
            name_all-Named limit marked bytes es o old pictures names in
          (
            o',
            rw (skipped, name_all, name_entry) run,
            rw skipped named,
            λ j. marks j ∙ Unmarks-skipped limit i j name o.inode_is_jpg _ skipped,
            λ other ways. kept other (ways.1),
          )
      | inl copied ↦
          let here : o.inode_is_jpg i ≡ true = ground arith in
          let was : marked i ≡ true = old i here in
          let good : (leb i limit && not (length name == 0)) ≡ true = ground arith in
          let link : is_link limit marked (i, name) ≡ true = ground arith in
          let (away, alone) = apart link in
          let o1 : Output = record {
            inode_is_jpg = update o.inode_is_jpg i false;
            dir = put_file name (bytes i) (put_file name [] o.dir);
          } in
          let same : (other : List ℕ)
              → same_text other name ≡ false
              → file_at other o1.dir ≡ file_at other o.dir =
            λ other ne.
              file_at-put_file_ne name other (bytes i) (put_file name [] o.dir) ne
              ∙ file_at-put_file_ne name other [] o.dir ne in
          let has1 : HasPictures o1.inode_is_jpg bytes o1.dir =
            λ j m. same (picture_name j) (away j).0 ∙ pictures j (still o.inode_is_jpg i j m) in
          let (o', run, named, marks, kept) =
            name_all-Named limit marked bytes es o1 (λ j m. old j (still o.inode_is_jpg i j m)) has1
              names in
          (
            o',
            rw (copied, name_all, name_entry, copy_named_lem i name bytes o pictures here away) run,
            rw copied
                (kept name alone ∙ file_at-put_file name (bytes i) (put_file name [] o.dir), named),
            λ j. marks j ∙ Unmarks-copied limit i j name o.inode_is_jpg _ good,
            λ other ways. kept other (ways.1) ∙ same other (ways.0 link),
          )
    ]
  where
    still : (m : ℕ → Bool) (i j : ℕ) → update m i false j ≡ true → m j ≡ true
    still m i j h = ground arith
