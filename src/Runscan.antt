-- ===== src/Runscan.antt =====
-- The recovery of pictures from an ext2 image: P7_File_Systems/runscan.c and read_ext2.c, up to the loop
-- over all inodes. Files and details are values, in the order in which they are written.
mod Blocks
mod Scan
mod Names
mod Tests
use cs537_sp23_operating_sys.Common.{
  ℕ, load, update, Bool, List, Memory, Option, [], false, if◌then◌else◌, leb, ltb, none, some, suc,
  take, true, zero, ◌%◌, ◌&&◌, ◌*◌, ◌++◌, ◌+◌, ◌-◌, ◌/◌, ◌==◌, ◌^◌, ◌||◌, ◌∷◌, same_text, text_of,
}

-- A word of 16 bits.
abbrev pub half : Memory → ℕ → ℕ
half m a = m a + 0x100 * m (a + 1)

-- The fields of `struct ext2_inode` that the program reads.
pub record Inode : Type 0 where
  pub i_mode : ℕ
  pub i_uid : ℕ
  pub i_size : ℕ
  pub i_links_count : ℕ
  pub i_block : ℕ → ℕ

-- The bytes copied, the buffer, and what is written.
pub record Copying : Type 0 where
  pub bytes_copied : ℕ
  pub buffer : List ℕ
  pub written : List ℕ

pub record Saved : Type 0 where
  pub inode_num : ℕ
  pub inode : Inode
  pub bytes : List ℕ

pub record Found : Type 0 where
  pub inode_is_jpg : ℕ → Bool
  pub top_secret : Option ℕ
  pub files : List Saved

abbrev pub is_regular : ℕ → Bool
is_regular mode = mode / 0x1000 == 8

abbrev pub is_directory : ℕ → Bool
is_directory mode = mode / 0x1000 == 4

-- The first bytes of a picture.
abbrev pub is_jpg : List ℕ → Bool
is_jpg (a ∷ b ∷ c ∷ d ∷ rest) =
    (a == 0xFF) && (b == 0xD8) && (c == 0xFF) && ((d == 0xE0) || (d == 0xE1) || (d == 0xE8))
is_jpg bytes = false

abbrev pub top_secret_name : List ℕ
top_secret_name = 116 ∷ 111 ∷ 112 ∷ 95 ∷ 115 ∷ 101 ∷ 99 ∷ 114 ∷ 101 ∷ 116 ∷ []

-- The place of the next entry of a directory, past a name of the length given.
abbrev pub next_offset : ℕ → ℕ → ℕ
next_offset offset name_len =
    let o = offset + 8 + name_len in if o % 4 == 0 then o else o + 4 - o % 4

-- `n` bytes from `a` on.
pub read_bytes : Memory → ℕ → ℕ → List ℕ
read_bytes disk a zero = []
read_bytes disk a (suc n) = disk a ∷ read_bytes disk (a + 1) n

-- The image and its `block_size`. A word past the end of a block of pointers, which the loops below read but
-- never use, is `beyond`.
module _ (disk : Memory) (block_size beyond : ℕ) where
  abbrev pub block_offset : ℕ → ℕ
  block_offset b = b * block_size % 2 ^ 32

  abbrev pub read_block : ℕ → List ℕ
  read_block b = read_bytes disk (block_offset b) block_size

  -- `table` is the address of the table of inodes.
  abbrev pub read_inode : ℕ → ℕ → ℕ → Inode
  read_inode table inode_no s_inode_size =
      let a = table + (inode_no - 1) * s_inode_size in
      record {
        i_mode = half disk a;
        i_uid = half disk (a + 2);
        i_size = load disk (a + 4);
        i_links_count = half disk (a + 26);
        i_block = λ i. load disk (a + 40 + 4 * i);
      }

  -- One round of a copying loop, at the pointer `block_idx`.
  pub copy_one : (ℕ → ℕ) → ℕ → ℕ → Copying → Copying
  copy_one pointer block_idx size c =
      let write_len =
        if ltb size ((c.bytes_copied + block_size) % 2 ^ 32)
        then size - c.bytes_copied
        else block_size in
      record {
        bytes_copied = (c.bytes_copied + write_len) % 2 ^ 32;
        buffer = if write_len == block_size then read_block (pointer (block_idx + 1)) else c.buffer;
        written = c.written ++ take write_len c.buffer;
      }

  -- A copying loop, by the pointers left: a round that does not go on to the next pointer is the last one.
  pub copy_blocks : (ℕ → ℕ) → ℕ → ℕ → ℕ → Copying → Copying
  copy_blocks pointer zero block_idx size c = c
  copy_blocks pointer (suc n) block_idx size c = elim (ltb c.bytes_copied size) [
    | true ↦ copy_blocks pointer n (block_idx + 1) size (copy_one pointer block_idx size c)
    | false ↦ c
  ]

  -- The pointers in block `b`.
  abbrev pub ind_block : ℕ → ℕ → ℕ
  ind_block b i = if ltb i (block_size / 4) then load disk (block_offset b + 4 * i) else beyond

  -- The loop over one block of pointers.
  pub copy_indirect : ℕ → ℕ → Copying → Copying
  copy_indirect b size c =
      copy_blocks (ind_block b) (block_size / 4) 0 size
        (record c { buffer = read_block (ind_block b 0) })

  -- The loop over a block of pointers to blocks of pointers, by the pointers left.
  pub copy_double : (ℕ → ℕ) → ℕ → ℕ → ℕ → Copying → Copying
  copy_double outer zero outer_block_idx size c = c
  copy_double outer (suc n) outer_block_idx size c = elim (ltb c.bytes_copied size) [
    | true ↦
        copy_double outer n (outer_block_idx + 1) size
          (copy_indirect (outer outer_block_idx) size c)
    | false ↦ c
  ]

  abbrev pub at_start : Inode → Copying
  at_start inode = record { bytes_copied = 0; buffer = read_block (inode.i_block 0); written = [] }

  pub copy_file : Inode → Copying
  copy_file inode =
      let direct = copy_blocks inode.i_block 12 0 inode.i_size (at_start inode) in
      let single =
        if ltb direct.bytes_copied inode.i_size
        then copy_indirect (inode.i_block 12) inode.i_size direct
        else direct in
      if ltb single.bytes_copied inode.i_size
      then copy_double (ind_block (inode.i_block 13)) (block_size / 4) 0 inode.i_size single
      else single

  -- The inode and the name of the entry at `offset` of block `b`.
  abbrev pub entry_inode : ℕ → ℕ → ℕ
  entry_inode b offset = load disk (block_offset b + offset)

  abbrev pub name_len : ℕ → ℕ → ℕ
  name_len b offset = disk (block_offset b + offset + 6)

  abbrev pub entry_name : ℕ → ℕ → List ℕ
  entry_name b offset = text_of (read_bytes disk (block_offset b + offset + 8) (name_len b offset))

  -- The loop over the entries of a directory, with fuel: the last entry of the name, or what was there.
  -- `limit` is the number of inodes of the image and one more.
  pub find_top_secret : ℕ → ℕ → ℕ → ℕ → Option ℕ → Option ℕ
  find_top_secret zero limit b offset top = top
  find_top_secret (suc n) limit b offset top = elim (ltb offset block_size) [
    | true ↦ find_top_secret n limit b (next_offset offset (name_len b offset)) (
        if leb (entry_inode b offset) limit && same_text (entry_name b offset) top_secret_name
        then some (entry_inode b offset)
        else top)
    | false ↦ top
  ]

  -- The body of the loop over the inodes.
  pub scan_inode : ℕ → ℕ → Inode → Found → Found
  scan_inode limit inode_num inode f =
      if is_regular inode.i_mode
      then if is_jpg (read_block (inode.i_block 0))
        then record f {
          inode_is_jpg = update f.inode_is_jpg inode_num true;
          files =
              f.files
              ++ (record { inode_num = inode_num; inode = inode; bytes = (copy_file inode).written }
                  ∷ []);
        }
        else f
      else if is_directory inode.i_mode
      then record f {
        top_secret = find_top_secret block_size limit (inode.i_block 0) 24 f.top_secret;
      }
      else f

  module _ (num_groups inodes_per_group s_inode_size : ℕ) (bg_inode_table : ℕ → ℕ) where
    abbrev pub locate_inode_table : ℕ → ℕ
    locate_inode_table ngroup = block_offset (bg_inode_table ngroup)

    -- The loop over the inodes of a group from number `i` on, by the inodes left.
    pub scan_group : ℕ → ℕ → ℕ → Found → Found
    scan_group zero ngroup i f = f
    scan_group (suc n) ngroup i f = scan_group n ngroup (i + 1) (
        scan_inode (num_groups * inodes_per_group + 1) (ngroup * inodes_per_group + i)
          (read_inode (locate_inode_table ngroup) i s_inode_size) f)

    -- The loop over the groups, by the groups left.
    pub scan_groups : ℕ → ℕ → Found → Found
    scan_groups zero ngroup f = f
    scan_groups (suc n) ngroup f =
        scan_groups n (ngroup + 1) (scan_group inodes_per_group ngroup 1 f)

    pub scan : Found
    scan =
        scan_groups num_groups 0
          (record { inode_is_jpg = λ i. false; top_secret = none; files = [] })
