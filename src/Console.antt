-- ===== src/Console.antt =====
-- The console, P5_XV6_CoW_Fork/kernel/console.c: the keys typed, and what a reader gets; the child Print has
-- cprintf. The screen and the serial port are left out.
mod Typing
mod Reading
mod Print
mod Tests
use cs537_sp23_operating_sys.Common.{
  ℕ, update, Bool, List, [], false, if◌then◌else◌, leb, suc, true, zero, ◌%◌, ◌++◌, ◌+◌, ◌-◌, ◌==◌,
  ◌^◌, ◌||◌, ◌∷◌,
}

-- The struct `input`, without its lock.
pub record Input : Type 0 where
  pub buf : ℕ → ℕ
  pub r : ℕ
  pub w : ℕ
  pub e : ℕ

abbrev pub back_one : Input → Input
back_one s = record s { e = (s.e + 2 ^ 32 - 1) % 2 ^ 32 }

-- The loop of the key that kills a line, by the characters left to look at.
pub kill_line : ℕ → Input → Input
kill_line zero s = s
kill_line (suc n) s = elim ((s.e == s.w) || (s.buf ((s.e + 2 ^ 32 - 1) % 2 ^ 32 % 128) == 10)) [
  | true ↦ s
  | false ↦ kill_line n (back_one s)
]

-- The key as it is stored: a line feed for a carriage return.
abbrev pub stored : ℕ → ℕ
stored c = if c == 13 then 10 else c

abbrev pub put_key : ℕ → Input → Input
put_key c s = record s { buf = update s.buf (s.e % 128) c; e = (s.e + 1) % 2 ^ 32 }

-- Whether the character ends a line: a line feed, control-D, or the last place of the buffer.
abbrev pub ends_line : ℕ → Input → Bool
ends_line c s = (c == 10) || (c == 4) || (s.e == (s.r + 128) % 2 ^ 32)

-- One key.
pub key : ℕ → Input → Input
key c s =
    if c == 16
    then s
    else if c == 21
    then kill_line 128 s
    else if (c == 8) || (c == 127)
    then (if s.e == s.w then s else back_one s)
    else if c == 0
    then s
    else if leb 128 ((s.e + 2 ^ 32 - s.r) % 2 ^ 32)
    then s
    else let typed = put_key (stored c) s in
      if ends_line (stored c) typed then record typed { w = typed.e } else typed

-- The keys that `getc` gives before it has none.
pub consoleintr : List ℕ → Input → Input
consoleintr [] s = s
consoleintr (c ∷ keys) s = consoleintr keys (key c s)

-- What a call of `consoleread` comes to when it gives up the lock: the bytes that it has read, with a
-- return or a sleep, or the failure of a killed process.
pub data Read : Type 0 where
  finished : List ℕ → Input → Read
  asleep : List ℕ → Input → Read
  failed : Input → Read

-- The loop of `consoleread`, by the bytes wanted; `dst` has those read before.
pub read_from : Bool → ℕ → List ℕ → Input → Read
read_from killed zero dst s = finished dst s
read_from killed (suc n) dst s =
    let c = s.buf (s.r % 128) in
    let next = record s { r = (s.r + 1) % 2 ^ 32 } in
    elim (s.r == s.w) [
      | true ↦ if killed then failed s else asleep dst s
      | false ↦ elim (c == 4) [
        | true ↦ elim dst [ [] ↦ finished [] next | d ∷ ds ↦ finished (d ∷ ds) s ]
        | false ↦ elim (c == 10) [
          | true ↦ finished (dst ++ (c ∷ [])) next
          | false ↦ read_from killed n (dst ++ (c ∷ [])) next
        ]
      ]
    ]
