-- ===== src/Fortune.antt =====
-- The fortune teller, P1_Fortune_Teller/badger_fortune.c. Files are lists of bytes, and what getopt and
-- atoi return are arguments.
pub mod Options
pub mod Texts
mod Tests
use cs537_sp23_operating_sys.Common.{ℕ, Bool, List, Option, false, ltb, negsuc, pos, true, ℤ}

-- The error messages.
pub data Message : Type 0 where
  invalid_flags : Message
  cannot_open_fortunes : Message
  fortunes_empty : Message
  both_n_and_b : Message
  both_b_and_n : Message
  invalid_number : Message
  cannot_open_batch : Message
  batch_empty : Message
  no_fortunes : Message

-- What a request prints: a fortune, or the message for a number that there is no fortune of.
pub data Printed : Type 0 where
  fortune : List ℕ → Printed
  no_such_fortune : Printed

-- How the program ends: the usage, an error, an access outside an array or through the null pointer, or the
-- texts that it prints, into the file of -o if there is one.
pub data Exit : Type 0 where
  usage : Exit
  error : Message → Exit
  past_array : Exit
  prints : Option (List ℕ) → List Printed → Exit

-- `a > b` on `int`.
abbrev pub is_above : ℤ → ℤ → Bool
is_above (pos a) (pos b) = ltb b a
is_above (pos a) (negsuc b) = true
is_above (negsuc a) (pos b) = false
is_above (negsuc a) (negsuc b) = ltb a b
