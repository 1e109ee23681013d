-- ===== src/Fortune/Texts.antt =====
-- The fortunes of a file and what is printed of them.
pub mod Lines
pub mod Numbers
use cs537_sp23_operating_sys.Common.{
  ℕ, Bool, List, Option, [], false, get_or, if◌then◌else◌, leb, length, ltb, negsuc, none, not, pos,
  same_text, some, suc, true, update, zero, ℤ, ◌&&◌, ◌++◌, ◌+◌, ◌-◌, ◌==◌, ◌∷◌, text_of,
}
use cs537_sp23_operating_sys.Fortune.{
  Exit, usage, error, past_array, prints, Printed, fortune, no_such_fortune, invalid_flags,
  invalid_number, no_fortunes, is_above,
}
use cs537_sp23_operating_sys.Fortune.Options.{
  Call, Chosen, nothing_chosen, fails, goes_on, find_invalid, handle_options,
}

-- A line of at most `n` bytes, with its newline, and the rest.
pub line : ℕ → List ℕ → List ℕ × List ℕ
line zero cs = ([], cs)
line (suc n) [] = ([], [])
line (suc n) (c ∷ cs) = elim (c == 10) [
  | true ↦ (c ∷ [], cs)
  | false ↦ (c ∷ (line n cs).0, (line n cs).1)
]

-- fgets into an array of `size` bytes: none at the end of the file.
abbrev pub fgets : ℕ → List ℕ → Option (List ℕ × List ℕ)
fgets size [] = none
fgets size (c ∷ cs) = some (line (size - 1) (c ∷ cs))

-- The number of fortunes begun, the text of the last one, and the fortunes before it.
pub record Reading : Type 0 where
  pub cnt : ℕ
  pub temp : List ℕ
  pub fortunes : ℕ → List ℕ

-- A line of `%`.
abbrev pub is_percent : List ℕ → Bool
is_percent buffer = (get_or buffer 0 0 == 37) && (get_or buffer 1 0 == 10)

-- The end of a fortune.
abbrev pub next_fortune : Reading → Reading
next_fortune r =
    if r.cnt == 0
    then record r { cnt = 1 }
    else record { cnt = r.cnt + 1; temp = []; fortunes = update r.fortunes (r.cnt - 1) r.temp }

-- The loop over the lines, with fuel: none if a fortune is longer than the array `temp`.
pub read_lines : ℕ → ℕ → ℕ → List ℕ → Reading → Option Reading
read_lines zero f_cnt f_max_size input r = none
read_lines (suc n) f_cnt f_max_size input r = elim (fgets f_max_size input) [
  | none ↦ some r
  | some (buffer, rest) ↦ elim (ltb f_cnt r.cnt) [
    | true ↦ some r
    | false ↦ elim (is_percent buffer) [
      | true ↦ read_lines n f_cnt f_max_size rest (next_fortune r)
      | false ↦ elim (ltb (length r.temp + length (text_of buffer)) f_max_size) [
        | true ↦ read_lines n f_cnt f_max_size rest (record r { temp = r.temp ++ text_of buffer })
        | false ↦ none
      ]
    ]
  ]
]

-- The fortunes of the text behind the two numbers.
pub read_fortunes : ℕ → ℕ → (ℕ → List ℕ) → List ℕ → Option (ℕ → List ℕ)
read_fortunes f_cnt f_max_size fresh input =
    elim (read_lines (length input + 1) f_cnt f_max_size input
      (record { cnt = 0; temp = []; fortunes = fresh })) [
        | none ↦ none
        | some r ↦ some (update r.fortunes (f_cnt - 1) r.temp)
      ]

-- The size of the arrays: at least 3.
abbrev pub array_size : ℤ → ℕ
array_size (pos m) = if ltb (m + 1) 3 then 3 else m + 1
array_size (negsuc m) = 3

-- The second line: the array keeps the first one at the end of the file.
abbrev pub second_line : List ℕ × List ℕ → List ℕ × List ℕ
second_line first = elim (fgets 20 (first.1)) [ none ↦ (first.0, []) | some l ↦ l ]

abbrev pub is_reached : Option ℕ → ℕ → Bool
is_reached none optind = false
is_reached (some i) optind = leb i optind

-- What a number of the batch prints.
pub print_number : ℕ → (ℕ → List ℕ) → ℤ → Printed
print_number f_cnt fortunes (pos zero) = no_such_fortune
print_number f_cnt fortunes (pos (suc k)) =
    if ltb f_cnt (suc k) then no_such_fortune else fortune (fortunes k)
print_number f_cnt fortunes (negsuc k) = no_such_fortune

module _ (atoi : List ℕ → ℤ) where
  -- The loop over the batch, by the bytes left.
  pub print_batch : ℕ → ℕ → (ℕ → List ℕ) → List ℕ → List Printed
  print_batch zero f_cnt fortunes input = []
  print_batch (suc n) f_cnt fortunes input = elim (fgets 20 input) [
    | none ↦ []
    | some (buffer, rest) ↦
        print_number f_cnt fortunes (atoi buffer) ∷ print_batch n f_cnt fortunes rest
  ]

  -- `fresh` is what the memory for the fortunes held before.
  module _ (fresh : ℕ → List ℕ) where
    -- The program behind its options; a count below 1 makes it write in front of the array of fortunes.
    pub tell : Chosen → List ℕ → Exit
    tell s file =
        let first = line 19 file in
        if is_above s.n (atoi (first.0))
        then error invalid_number
        else let second = second_line first in
          elim (atoi (first.0)) [
            | negsuc k ↦ past_array
            | pos zero ↦ past_array
            | pos (suc k) ↦
                elim (read_fortunes (suc k) (array_size (atoi (second.0))) fresh (second.1)) [
                  | none ↦ past_array
                  | some fortunes ↦
                      if s.is_n
                      then prints s.op (print_number (suc k) fortunes s.n ∷ [])
                      else elim (s.bp) [
                        | none ↦ past_array
                        | some batch ↦
                            prints s.op (print_batch (length batch) (suc k) fortunes batch)
                      ]
                ]
          ]

    -- `main` with the arguments behind the name of the program; `calls` are the results of getopt, `optind` is
    -- what it leaves, and `last_arg` the last argument in the order that it leaves.
    pub main :
        (List ℕ → Option (List ℕ)) → (List ℕ → Bool) → List (List ℕ) → List Call → ℕ → List ℕ → Exit
    main files writable args calls optind last_arg =
        let invalid_flag_idx = find_invalid args 1 in
        if ltb (length args) 4
        then usage
        else elim (handle_options files writable atoi invalid_flag_idx calls nothing_chosen) [
          | fails m ↦ error m
          | goes_on s ↦
              if is_reached invalid_flag_idx optind
              then error invalid_flags
              else if (length args == 5) && not (same_text last_arg (45 ∷ 102 ∷ []))
              then error invalid_flags
              else elim (s.fp) [ none ↦ error no_fortunes | some file ↦ tell s file ]
        ]
