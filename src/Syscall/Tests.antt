-- ===== src/Syscall/Tests.antt =====
-- A process with one open file, and the theorems there.
use cs537_sp23_operating_sys.Common.{
  ℕ, Bool, [], arith, get_elem?, if◌then◌else◌, none, ok, refl, some, suc, zero, ◌+◌, ◌<◌, ◌==◌,
  ◌∷◌, ◌≡◌, ◌≤◌, load,
}
use cs537_sp23_operating_sys.File.{File, fd_inode, Closing}
use cs537_sp23_operating_sys.File.Refs.{Counts}
use cs537_sp23_operating_sys.Syscall.{Caller, Files, fetchint, argint, argptr, sys_close}
use cs537_sp23_operating_sys.Syscall.Arguments.{argptr-bounds}
use cs537_sp23_operating_sys.Syscall.Holders.{uses, Match, sys_close-Counts}

-- The first argument, at 104, is 0, and the second, at 108, is 8; a text stands at 8.
abbrev caller : Caller
caller = record {
  sz = 4096;
  esp = 100;
  byte = λ a. if a == 108 then 8 else if a == 8 then 65 else 0;
}

second_block : argptr caller 1 50 ≡ some 8
unfolding argptr argint fetchint load
second_block = refl

argptr-bounds_example : 8 + 50 ≤ 4096
argptr-bounds_example = argptr-bounds caller 1 50 8 (omega arith) (omega arith) second_block

abbrev opened : File
opened = record { type = fd_inode; ref = 2; readable = 1; writable = 0; pipe = 0; ip = 77; off = 0 }

-- One descriptor here and one in another process.
abbrev open_files : Files
open_files = record { ofile = some 0 ∷ none ∷ []; ftable = opened ∷ [] }

abbrev elsewhere : ℕ → ℕ
elsewhere g = if g == 0 then 1 else 0

open_files-Match : Match elsewhere open_files
open_files-Match = record { counts = counts; known = known; small = λ g. ground arith }
  where
    counts : Counts (opened ∷ []) (λ g. uses (some 0 ∷ none ∷ []) g + elsewhere g)
    counts zero f h = ground arith
    counts (suc i) f h = cc

    known : (fd f : ℕ) → get_elem? open_files.ofile fd ≡ some (some f) → f < 1
    known zero f h = ground arith
    known (suc zero) f h = cc
    known (suc (suc fd)) f h = cc

sys_close-Counts_example :
    (r : Bool) × (s' : Files) × (c : Closing) × (sys_close caller open_files ≡ ok (r, s', c))
    × Counts s'.ftable (λ g. uses s'.ofile g + elsewhere g)
sys_close-Counts_example = sys_close-Counts elsewhere caller open_files open_files-Match
