-- ===== src/Runscan/Names.antt =====
-- The second phase of P7_File_Systems/runscan.c: the pictures get the names that directories have for them.
-- The output directory is a list of names with their contents; a name of a directory has no slash.
pub mod Copies
mod Files
mod Numbers
pub mod Removal
use cs537_sp23_operating_sys.Common.{
  ℕ, Bool, List, Memory, Option, [], false, if◌then◌else◌, leb, length, ltb, none, not, same_text,
  some, suc, true, update, zero, ◌%◌, ◌&&◌, ◌*◌, ◌++◌, ◌+◌, ◌-◌, ◌/◌, ◌==◌, ◌∷◌,
}
use cs537_sp23_operating_sys.Runscan.{
  Inode, Saved, Found, is_directory, next_offset, entry_inode, entry_name, name_len, read_inode,
  locate_inode_table, scan,
}

abbrev pub Directory : Type 0
Directory = List (List ℕ × List ℕ)

unfoldable pub file_at : List ℕ → Directory → Option (List ℕ)
file_at name [] = none
file_at name ((n, bytes) ∷ dir) = elim (same_text name n) [
  | true ↦ some bytes
  | false ↦ file_at name dir
]

-- A file written, and removed.
pub put_file : List ℕ → List ℕ → Directory → Directory
put_file name bytes [] = (name, bytes) ∷ []
put_file name bytes ((n, old) ∷ dir) = elim (same_text name n) [
  | true ↦ (n, bytes) ∷ dir
  | false ↦ (n, old) ∷ put_file name bytes dir
]

pub remove_file : List ℕ → Directory → Directory
remove_file name [] = []
remove_file name ((n, old) ∷ dir) =
    let rest = remove_file name dir in if same_text name n then rest else (n, old) ∷ rest

-- `%u`: a number has at most 10 digits.
pub decimal_from : ℕ → ℕ → List ℕ
decimal_from zero n = []
decimal_from (suc fuel) n = elim (ltb n 10) [
  | true ↦ (48 + n) ∷ []
  | false ↦ decimal_from fuel (n / 10) ++ ((48 + n % 10) ∷ [])
]

abbrev pub decimal : ℕ → List ℕ
decimal n = decimal_from 10 n

-- "file-<i>.jpg" and "file-<i>-details.txt".
unfoldable pub picture_name : ℕ → List ℕ
picture_name i = 102 ∷ 105 ∷ 108 ∷ 101 ∷ 45 ∷ (decimal i ++ (46 ∷ 106 ∷ 112 ∷ 103 ∷ []))

unfoldable pub details_name : ℕ → List ℕ
details_name i =
    102
    ∷ 105
    ∷ 108
    ∷ 101
    ∷ 45
    ∷ (decimal i ++ (45 ∷ 100 ∷ 101 ∷ 116 ∷ 97 ∷ 105 ∷ 108 ∷ 115 ∷ 46 ∷ 116 ∷ 120 ∷ 116 ∷ []))

-- `%hu\n%u\n%hu`
abbrev pub details : Inode → List ℕ
details x = decimal x.i_links_count ++ (10 ∷ (decimal x.i_size ++ (10 ∷ decimal x.i_uid)))

-- The files of the first phase.
pub save_all : List Saved → Directory → Directory
save_all [] dir = dir
save_all (s ∷ saved) dir = save_all saved (
    put_file (details_name s.inode_num) (details s.inode)
      (put_file (picture_name s.inode_num) s.bytes dir))

pub record Output : Type 0 where
  pub inode_is_jpg : ℕ → Bool
  pub dir : Directory

-- The copy of a picture under a name, which is first emptied; none if there is no such picture. With `once`,
-- in the loop over "top_secret", the picture gets no further name.
pub copy_named : Bool → ℕ → List ℕ → Output → Option Output
copy_named once i name o = elim (file_at (picture_name i) o.dir) [
  | none ↦ none
  | some old ↦
      let emptied = put_file name [] o.dir in
      elim (file_at (picture_name i) emptied) [
        | none ↦ none
        | some bytes ↦ some (record {
          inode_is_jpg = if once then update o.inode_is_jpg i false else o.inode_is_jpg;
          dir = put_file name bytes emptied;
        })
      ]
]

-- Whether an entry names a picture that is marked; `limit` is the number of inodes and one more.
abbrev pub names_picture : ℕ → ℕ → List ℕ → Output → Bool
names_picture limit i name o = leb i limit && not (length name == 0) && o.inode_is_jpg i

pub name_entry : Bool → ℕ → ℕ → List ℕ → Output → Option Output
name_entry once limit i name o =
    if names_picture limit i name o then copy_named once i name o else some o

-- The loop that removes what has no name, from number `i` on, by the numbers left.
pub remove_rest : ℕ → ℕ → Output → Output
remove_rest zero i o = o
remove_rest (suc n) i o = elim (o.inode_is_jpg i) [
  | true ↦
      remove_rest n (i + 1)
        (record o { dir = remove_file (details_name i) (remove_file (picture_name i) o.dir) })
  | false ↦ remove_rest n (i + 1) o
]

module _ (disk : Memory) (block_size beyond : ℕ) where
  -- The loop over the entries of a directory, with fuel.
  pub name_entries : Bool → ℕ → ℕ → ℕ → ℕ → Output → Option Output
  name_entries once zero limit b offset o = some o
  name_entries once (suc n) limit b offset o = elim (ltb offset block_size) [
    | true ↦
        elim (name_entry once limit (entry_inode disk block_size beyond b offset)
          (entry_name disk block_size beyond b offset) o) [
            | none ↦ none
            | some o' ↦
                name_entries once n limit b
                  (next_offset offset (name_len disk block_size beyond b offset)) o'
          ]
    | false ↦ some o
  ]

  module _ (num_groups inodes_per_group s_inode_size : ℕ) (bg_inode_table : ℕ → ℕ) where
    abbrev pub table : ℕ → ℕ
    table ngroup =
        locate_inode_table disk block_size beyond num_groups inodes_per_group s_inode_size
          bg_inode_table ngroup

    abbrev pub limit : ℕ
    limit = num_groups * inodes_per_group + 1

    -- The inode of the directory: number 0 of a group is read in front of its table.
    abbrev pub top_inode : ℕ → Inode
    top_inode top =
        let ngroup = top / inodes_per_group in
        let i = top % inodes_per_group in
        if i == 0
        then read_inode disk block_size beyond (table ngroup - s_inode_size) 1 s_inode_size
        else read_inode disk block_size beyond (table ngroup) i s_inode_size

    pub name_group : ℕ → ℕ → ℕ → Output → Option Output
    name_group zero ngroup i o = some o
    name_group (suc n) ngroup i o =
        let inode = read_inode disk block_size beyond (table ngroup) i s_inode_size in
        elim (if is_directory inode.i_mode
          then name_entries false block_size limit (inode.i_block 0) 24 o
          else some o) [ none ↦ none | some o' ↦ name_group n ngroup (i + 1) o' ]

    pub name_groups : ℕ → ℕ → Output → Option Output
    name_groups zero ngroup o = some o
    name_groups (suc n) ngroup o = elim (name_group inodes_per_group ngroup 1 o) [
      | none ↦ none
      | some o' ↦ name_groups n (ngroup + 1) o'
    ]

    -- `main` behind the reading of the super block.
    pub recover : Option Output
    recover =
        let found =
          scan disk block_size beyond num_groups inodes_per_group s_inode_size bg_inode_table in
        let o : Output = record {
          inode_is_jpg = found.inode_is_jpg;
          dir = save_all found.files [];
        } in
        elim (found.top_secret) [
          | none ↦ name_groups num_groups 0 o
          | some top ↦ elim (name_entries true block_size limit ((top_inode top).i_block 0) 24 o) [
            | none ↦ none
            | some o' ↦ some (remove_rest limit 0 o')
          ]
        ]
