-- ===== src/Console/Tests.antt =====
-- Runs of the console: a line is typed, with an erased character, and then read.
use cs537_sp23_operating_sys.Common.{ℕ, List, [], arith, false, refl, ◌++◌, ◌∷◌, ◌-◌, ◌^◌, ◌≡◌}
use cs537_sp23_operating_sys.Console.{Input, key, consoleintr, read_from}
use cs537_sp23_operating_sys.User.{printf}
use cs537_sp23_operating_sys.Console.Print.{NoChar, capitals, cprintf, cprintf-printf}
use cs537_sp23_operating_sys.Console.Typing.{Shows, consoleintr-Shows}
use cs537_sp23_operating_sys.Console.Reading.{Reads, read_from-Reads}

abbrev idle : Input
idle = record { buf = λ i. 0; r = 0; w = 0; e = 0 }

idle-Shows : Shows idle [] []
idle-Shows = record {
  word = omega arith;
  w_at = refl;
  e_at = refl;
  fits = omega arith;
  bytes = refl;
}

-- `l`, `x`, backspace, `s`, carriage return
abbrev keys : List ℕ
keys = 108 ∷ 120 ∷ 8 ∷ 115 ∷ 13 ∷ []

consoleintr-Shows_example : (more rest : List ℕ) × Shows (consoleintr keys idle) ([] ++ more) rest
consoleintr-Shows_example = consoleintr-Shows keys idle [] [] idle-Shows

after-Shows : Shows (consoleintr keys idle) (108 ∷ 115 ∷ 10 ∷ []) []
unfolding consoleintr key
after-Shows = record {
  word = omega arith;
  w_at = refl;
  e_at = refl;
  fits = omega arith;
  bytes = refl;
}

read_from-Reads_example :
    Reads 5 [] (108 ∷ 115 ∷ 10 ∷ []) [] (read_from false 5 [] (consoleintr keys idle))
read_from-Reads_example =
    read_from-Reads false 5 [] (consoleintr keys idle) (108 ∷ 115 ∷ 10 ∷ []) [] after-Shows

-- `%d=%x`
abbrev format : List ℕ
format = 37 ∷ 100 ∷ 61 ∷ 37 ∷ 120 ∷ []

format-NoChar : NoChar format
unfolding NoChar
format-NoChar = ((λ e. omega arith), ((λ e. omega arith), tt))

cprintf-printf_example :
    capitals (cprintf (λ a. []) format (λ i. 2 ^ 32 - 90))
    ≡ capitals (printf (λ a. []) format (λ i. 2 ^ 32 - 90))
cprintf-printf_example = cprintf-printf (λ a. []) format (λ i. 2 ^ 32 - 90) format-NoChar
