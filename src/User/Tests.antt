-- ===== src/User/Tests.antt =====
-- Runs of the user library, and its theorems at concrete memories.
use cs537_sp23_operating_sys.Common.{
  ℕ, List, Memory, [], arith, if◌then◌else◌, refl, some, true, ◌==◌, ◌^◌, ◌∷◌, ◌≡◌,
}
use cs537_sp23_operating_sys.Strings.Text.{CString}
use cs537_sp23_operating_sys.User.{atoi, printint, buf_digits}
use cs537_sp23_operating_sys.User.Numbers.{atoi-printint}

-- "42" at 1000, and NULs.
abbrev page : Memory
page a = if a == 1000 then 52 else if a == 1001 then 50 else 0

page-CString : CString page 1000 (52 ∷ 50 ∷ [])
page-CString = (refl, omega arith, omega arith, (refl, omega arith, omega arith, refl))

prints : printint 42 10 true ≡ 52 ∷ 50 ∷ []
unfolding printint buf_digits
prints = refl

least_int : printint (2 ^ 31) 10 true ≡ 45 ∷ 50 ∷ 49 ∷ 52 ∷ 55 ∷ 52 ∷ 56 ∷ 51 ∷ 54 ∷ 52 ∷ 56 ∷ []
unfolding printint buf_digits
least_int = refl

atoi-printint_example : atoi 3 page 1000 ≡ some 42
atoi-printint_example =
    atoi-printint 3 page 1000 42 (omega arith) (rw prints page-CString) (rw prints (omega arith))

abbrev fifty_two : List ℕ
fifty_two = 52 ∷ 50 ∷ []

-- "%d"
abbrev percent_d : List ℕ
percent_d = 37 ∷ 100 ∷ []
