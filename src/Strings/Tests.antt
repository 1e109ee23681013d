-- ===== src/Strings/Tests.antt =====
-- The routines of string.c on small memories, and their theorems there.
use cs537_sp23_operating_sys.Common.{
  Memory, [], arith, if◌then◌else◌, in_range, negsuc, refl, ◌+◌, ◌-◌, ◌==◌, ◌∷◌, ◌≡◌,
}
use cs537_sp23_operating_sys.Strings.{memmove, strncmp}
use cs537_sp23_operating_sys.Strings.Moves.{memmove_lem}
use cs537_sp23_operating_sys.Strings.Text.{CString}

-- "abc" at 10 and "abd" at 20, zeros elsewhere.
abbrev texts : Memory
texts a =
    if in_range 10 2 a
    then a + 87
    else if a == 12
    then 99
    else if in_range 20 2 a
    then a + 77
    else if a == 22
    then 100
    else 0

abc : CString texts 10 (97 ∷ 98 ∷ 99 ∷ [])
abc = omega arith

abd : CString texts 20 (97 ∷ 98 ∷ 100 ∷ [])
abd = omega arith

memmove_lem_example :
    memmove texts 11 10 3 12 ≡ (if in_range 11 3 12 then texts (10 + (12 - 11)) else texts 12)
memmove_lem_example = memmove_lem texts 11 10 3 12

strncmp_differs : strncmp texts 10 20 9 ≡ negsuc 0
unfolding strncmp
strncmp_differs = refl
