-- ===== src/Fs/Links.antt =====
-- Names made and removed, P5_XV6_CoW_Fork/kernel/sysfile.c: sys_link, sys_unlink, create, sys_mkdir, sys_mknod
-- and sys_chdir, behind the fetch of their arguments. `cwd` is the inode of the current directory, and `name`
-- what the array on the stack held.
pub mod Empty
use cs537_sp23_operating_sys.Common.{
  ℕ, Bool, List, Option, false, get_elem?, get_or, if◌then◌else◌, leb, length, ltb, none, not,
  replicate, some, suc, true, zero, ◌%◌, ◌&&◌, ◌*◌, ◌+◌, ◌-◌, ◌/◌, ◌==◌, ◌^◌, ◌||◌,
}
use cs537_sp23_operating_sys.Fs.{Run, panics, returns, ◌>>=◌, Inode, Open, Fs}
use cs537_sp23_operating_sys.Fs.Inodes.{ialloc, ilock, iunlock, iput, iunlockput}
use cs537_sp23_operating_sys.Fs.Contents.{iupdate, readi, writei, Transfer, failed, device, moved}
use cs537_sp23_operating_sys.Fs.Directories.{Name, same_name, with_inode, dirlookup, dirlink}
use cs537_sp23_operating_sys.Fs.Paths.{namei, nameiparent}

pub inode_of : ℕ → Fs → Run Inode
inode_of i s = elim (get_elem? s.inodes i) [ none ↦ panics | some x ↦ returns x ]

-- A change of an inode that is written to the disk.
pub update_inode : ℕ → (Inode → Inode) → Fs → Run Fs
update_inode i f s =
    with_inode i (λ o. returns (tt, record { ip = f o.ip; disk = iupdate (f o.ip) o.disk })) s
    >>= λ r. returns r.1

-- `nlink` is a `short`.
abbrev pub one_link_more : Inode → Inode
one_link_more x = record x { nlink = (x.nlink + 1) % 2 ^ 16 }

abbrev pub one_link_less : Inode → Inode
one_link_less x = record x { nlink = (x.nlink + (2 ^ 16 - 1)) % 2 ^ 16 }

-- The names "." and "..".
abbrev pub dot : Name
dot i = if i == 0 then 46 else 0

abbrev pub dots : Name
dots i = if ltb i 2 then 46 else 0

-- The end of `sys_link` where it fails after it has counted the link.
pub undo_link : ℕ → Fs → Run (Bool × Fs)
undo_link ip s = ilock ip s >>= λ s1.
    update_inode ip one_link_less s1 >>= λ s2. iunlockput ip s2 >>= λ s3. returns (false, s3)

-- The inode number of an entry that `readi` has read; less than an entry is a panic.
abbrev pub entry_inum : Transfer (List ℕ) → Run ℕ
entry_inum failed = panics
entry_inum (device major) = panics
entry_inum (moved bytes) =
    if length bytes == 16 then returns (get_or bytes 0 0 + 256 * get_or bytes 1 0) else panics

module _ (has_device : ℕ → Bool) where
  -- The part of `sys_link` that enters the name in its directory.
  pub enter_link : ℕ → ℕ → Name → Fs → Run (Bool × Fs)
  enter_link ip dp name s = ilock dp s >>= λ s1. inode_of dp s1 >>= λ d. inode_of ip s1 >>= λ x.
      (if d.dev == x.dev then dirlink has_device dp name x.inum s1 else returns (false, s1))
      >>= λ r. iunlockput dp r.1 >>= λ s2.
          (if r.0 then (iput ip s2 >>= λ s3. returns (true, s3)) else undo_link ip s2)

  pub link : List ℕ → List ℕ → Name → ℕ → Fs → Run (Bool × Fs)
  link old new name cwd s = namei old name cwd s >>= λ r. elim (r.0) [
    | none ↦ returns (false, r.1)
    | some (ip, unused) ↦ ilock ip r.1 >>= λ s1. inode_of ip s1 >>= λ x.
        (if x.type == 1
          then (iunlockput ip s1 >>= λ s2. returns (false, s2))
          else (update_inode ip one_link_more s1 >>= λ s2. iunlock ip s2 >>= λ s3.
              nameiparent new name cwd s3 >>= λ p. elim (p.0) [
                | none ↦ undo_link ip p.1
                | some (dp, elem) ↦ enter_link ip dp elem p.1
              ]))
  ]

  -- The loop of `isdirempty` from the entry at `off` on, by the entries left.
  pub isdirempty_from : ℕ → ℕ → Open → Run (Bool × Open)
  isdirempty_from zero off f = returns (true, f)
  isdirempty_from (suc n) off f = readi has_device off 16 f >>= λ r. entry_inum (r.0) >>= λ inum.
      elim (inum == 0) [ true ↦ isdirempty_from n (off + 16) r.1 | false ↦ returns (false, r.1) ]

  pub isdirempty : Open → Run (Bool × Open)
  isdirempty f = isdirempty_from ((f.ip.size - 32 + 15) / 16) 32 f

  -- The entry at `off` is overwritten with zeros.
  pub clear_entry : ℕ → ℕ → Fs → Run Fs
  clear_entry dp off s = with_inode dp (writei has_device off (replicate 16 0)) s >>= λ r.
      elim (r.0) [
        | failed ↦ panics
        | device major ↦ panics
        | moved n ↦ if n == 16 then returns r.1 else panics
      ]

  -- The part of `sys_unlink` behind `dirlookup`.
  pub remove_entry : ℕ → ℕ → ℕ → Fs → Run (Bool × Fs)
  remove_entry dp off ip s = ilock ip s >>= λ s1. inode_of ip s1 >>= λ x.
      (if (x.nlink == 0) || leb (2 ^ 15) x.nlink
        then panics
        else ((if x.type == 1 then with_inode ip isdirempty s1 else returns (true, s1)) >>= λ e.
            if not (e.0)
            then (iunlockput ip e.1 >>= λ s2. iunlockput dp s2 >>= λ s3. returns (false, s3))
            else (clear_entry dp off e.1 >>= λ s2.
                (if x.type == 1 then update_inode dp one_link_less s2 else returns s2) >>= λ s3.
                iunlockput dp s3 >>= λ s4. update_inode ip one_link_less s4 >>= λ s5.
                iunlockput ip s5 >>= λ s6. returns (true, s6))))

  pub unlink : List ℕ → Name → ℕ → Fs → Run (Bool × Fs)
  unlink path name cwd s = nameiparent path name cwd s >>= λ p. elim (p.0) [
    | none ↦ returns (false, p.1)
    | some (dp, elem) ↦ ilock dp p.1 >>= λ s1.
        (if same_name elem dot || same_name elem dots
          then (iunlockput dp s1 >>= λ s2. returns (false, s2))
          else (dirlookup dp elem s1 >>= λ r. elim (r.0) [
            | none ↦ iunlockput dp r.1 >>= λ s2. returns (false, s2)
            | some (off, ip) ↦ remove_entry dp off ip r.1
          ]))
  ]

  -- The entries "." and ".." of a new directory.
  pub link_dots : ℕ → ℕ → Fs → Run Fs
  link_dots ip dp s = update_inode dp one_link_more s >>= λ s1. inode_of ip s1 >>= λ x.
      dirlink has_device ip dot x.inum s1 >>= λ r.
      (if not (r.0)
        then panics
        else (inode_of dp r.1 >>= λ d.
            dirlink has_device ip dots d.inum r.1 >>= λ q. if q.0 then returns q.1 else panics))

  -- The part of `create` that makes an inode.
  pub make_inode : ℕ → Name → ℕ → ℕ → ℕ → Fs → Run (Option ℕ × Fs)
  make_inode dp name type major minor s = inode_of dp s >>= λ d. ialloc d.dev type s >>= λ a.
      ilock (a.0) a.1 >>= λ s1.
      update_inode (a.0) (λ x. record x { major = major; minor = minor; nlink = 1 }) s1 >>= λ s2.
      (if type == 1 then link_dots (a.0) dp s2 else returns s2) >>= λ s3. inode_of (a.0) s3 >>= λ x.
      dirlink has_device dp name x.inum s3 >>= λ r.
      (if not (r.0) then panics else (iunlockput dp r.1 >>= λ s4. returns (some (a.0), s4)))

  -- The inode, which is locked; types 1, 2 and 3 are T_DIR, T_FILE and T_DEV.
  pub create : List ℕ → ℕ → ℕ → ℕ → Name → ℕ → Fs → Run (Option ℕ × Fs)
  create path type major minor name cwd s = nameiparent path name cwd s >>= λ p. elim (p.0) [
    | none ↦ returns (none, p.1)
    | some (dp, elem) ↦ ilock dp p.1 >>= λ s1. dirlookup dp elem s1 >>= λ r. elim (r.0) [
      | none ↦ make_inode dp elem type major minor r.1
      | some (off, ip) ↦ iunlockput dp r.1 >>= λ s2. ilock ip s2 >>= λ s3. inode_of ip s3 >>= λ x.
          (if (type == 2) && (x.type == 2)
            then returns (some ip, s3)
            else (iunlockput ip s3 >>= λ s4. returns (none, s4)))
    ]
  ]

  -- sys_mkdir, and sys_mknod with type 3.
  pub make : List ℕ → ℕ → ℕ → ℕ → Name → ℕ → Fs → Run (Bool × Fs)
  make path type major minor name cwd s = create path type major minor name cwd s >>= λ r.
      elim (r.0) [
        | none ↦ returns (false, r.1)
        | some ip ↦ iunlockput ip r.1 >>= λ s1. returns (true, s1)
      ]

-- The current directory afterwards.
pub chdir : List ℕ → Name → ℕ → Fs → Run (Option ℕ × Fs)
chdir path name cwd s = namei path name cwd s >>= λ r. elim (r.0) [
  | none ↦ returns (none, r.1)
  | some (ip, unused) ↦ ilock ip r.1 >>= λ s1. inode_of ip s1 >>= λ x.
      (if not (x.type == 1)
        then (iunlockput ip s1 >>= λ s2. returns (none, s2))
        else (iunlock ip s1 >>= λ s2. iput cwd s2 >>= λ s3. returns (some ip, s3)))
]
