-- ===== src/Fortune/Options.antt =====
-- The options of the fortune teller.
pub mod Choices
use cs537_sp23_operating_sys.Common.{
  ℕ, Bool, List, Option, [], false, get_or, if◌then◌else◌, ltb, negsuc, none, not, pos, some, true,
  ℤ, ◌%◌, ◌&&◌, ◌+◌, ◌==◌, ◌∷◌,
}
use cs537_sp23_operating_sys.Fortune.{
  Message, invalid_flags, cannot_open_fortunes, fortunes_empty, both_n_and_b, both_b_and_n,
  invalid_number, cannot_open_batch, batch_empty, is_above, no_fortunes,
}

-- A result of getopt, with the variables that it sets.
pub record Call : Type 0 where
  pub opt : ℕ
  pub optarg : List ℕ
  pub optopt : ℕ
  pub optind : ℕ

-- The variables of `main`: the files are their contents, and the output file is its name.
pub record Chosen : Type 0 where
  pub fp : Option (List ℕ)
  pub bp : Option (List ℕ)
  pub op : Option (List ℕ)
  pub n : ℤ
  pub is_n : Bool
  pub is_b : Bool

abbrev pub nothing_chosen : Chosen
nothing_chosen = record {
  fp = none;
  bp = none;
  op = none;
  n = negsuc 0;
  is_n = false;
  is_b = false;
}

-- An error, or what goes on.
pub data Result (A : Type 0) : Type 0 where
  fails : Message → Result A
  goes_on : A → Result A

-- The loop over the arguments from number `curr_idx` on: the first odd one that is not a flag.
pub find_invalid : List (List ℕ) → ℕ → Option ℕ
find_invalid [] curr_idx = none
find_invalid (arg ∷ args) curr_idx = elim ((curr_idx % 2 == 1) && not (get_or arg 0 0 == 45)) [
  | true ↦ some curr_idx
  | false ↦ find_invalid args (curr_idx + 1)
]

-- `c == EOF` for the first character in a `char`, which also a byte 255 is equal to.
abbrev pub starts_with_eof : List ℕ → Bool
starts_with_eof [] = true
starts_with_eof (c ∷ cs) = c == 255

-- Whether getopt is behind the argument that is not a flag; `f` is let pass.
abbrev pub is_late : Option ℕ → Call → Bool
is_late none c = false
is_late (some i) c = ltb i c.optind && not (c.opt == 102)

-- `files` are the files that can be read, `writable` tells which can be written.
module _ (files : List ℕ → Option (List ℕ)) (writable : List ℕ → Bool) (atoi : List ℕ → ℤ) where
  pub open_fortunes : List ℕ → Chosen → Result Chosen
  open_fortunes name s = elim (files name) [
    | none ↦ fails cannot_open_fortunes
    | some bytes ↦
        if starts_with_eof bytes
        then fails fortunes_empty
        else goes_on (record s { fp = some bytes })
  ]

  pub choose_number : List ℕ → Chosen → Result Chosen
  choose_number arg s =
      if s.is_b
      then fails both_n_and_b
      else if is_above (atoi arg) (pos 0)
      then goes_on (record s { is_n = true; n = atoi arg })
      else fails invalid_number

  pub open_batch : List ℕ → Chosen → Result Chosen
  open_batch name s = if s.is_n then fails both_b_and_n else elim (files name) [
    | none ↦ fails cannot_open_batch
    | some bytes ↦
        if starts_with_eof bytes
        then fails batch_empty
        else goes_on (record s { is_b = true; bp = some bytes })
  ]

  -- The case of an option without its argument.
  pub missing : ℕ → Chosen → Message
  missing optopt s =
      if (optopt == 98) && s.is_n
      then both_b_and_n
      else if (optopt == 110) && s.is_b
      then both_n_and_b
      else no_fortunes

  -- The body of the loop. The letters are f, n, b and o, and `:` and `?`.
  pub handle_option : Option ℕ → Call → Chosen → Result Chosen
  handle_option invalid_flag_idx c s =
      if is_late invalid_flag_idx c
      then fails invalid_flags
      else if c.opt == 102
      then open_fortunes c.optarg s
      else if c.opt == 110
      then choose_number c.optarg s
      else if c.opt == 98
      then open_batch c.optarg s
      else if c.opt == 111
      then goes_on (record s { op = if writable c.optarg then some c.optarg else none })
      else if c.opt == 58
      then fails (missing c.optopt s)
      else if c.opt == 63
      then fails invalid_flags
      else goes_on s

  pub handle_options : Option ℕ → List Call → Chosen → Result Chosen
  handle_options invalid_flag_idx [] s = goes_on s
  handle_options invalid_flag_idx (c ∷ cs) s = elim (handle_option invalid_flag_idx c s) [
    | fails m ↦ fails m
    | goes_on s' ↦ handle_options invalid_flag_idx cs s'
  ]
