-- ===== src/Console/Reading.antt =====
-- What a reader gets of the finished lines.
use mathlib.Core.Path.{subst}
use cs537_sp23_operating_sys.Common.{
  ℕ, List, [], ap, arith, length, suc, sym, ◌%◌, ◌++◌, ◌+◌, ◌^◌, ◌∙◌, ◌∷◌, ◌≡◌, Bool, Bool-cases,
  append-nil, append_assoc, false, inl, inr, refl, true, zero, ◌==◌, ◌≢◌, ==→eq, not, ◌&&◌, ◌<◌,
}
use cs537_sp23_operating_sys.Console.{Input, Read, finished, asleep, failed, read_from}
use cs537_sp23_operating_sys.Console.Typing.{Shows, window}

-- No byte is a newline or a control-D.
pub is_text : List ℕ → Bool
is_text [] = true
is_text (c ∷ l) = not (c == 10) && not (c == 4) && is_text l

-- Where a call that wants `n` more bytes stops in `line`, with `out` read in all: behind the n-th byte; behind
-- the first newline; before a control-D that is not in front; behind one in front of everything. The last two
-- lists are what is given and what is left.
pub data Stops (n : ℕ) (line out : List ℕ) : List ℕ → List ℕ → Type 0 where
  enough :
      (given rest : List ℕ)
      → line ≡ given ++ rest
      → is_text given ≡ true
      → length given ≡ n
      → Stops n line out given rest
  newline :
      (text rest : List ℕ)
      → line ≡ text ++ (10 ∷ rest)
      → is_text text ≡ true
      → length text < n
      → Stops n line out (text ++ (10 ∷ [])) rest
  before_eof :
      (given rest : List ℕ)
      → line ≡ given ++ (4 ∷ rest)
      → is_text given ≡ true
      → length given < n
      → out ≢ []
      → Stops n line out given (4 ∷ rest)
  eof : (rest : List ℕ) → line ≡ 4 ∷ rest → 0 < n → out ≡ [] → Stops n line out [] rest

-- What the call with `dst` read before, which wants `n` more bytes, may come to, where the finished lines hold
-- `line`: it returns where it stops; or it sleeps, or fails, for all of `line` is less than it wants.
pub Reads : ℕ → List ℕ → List ℕ → List ℕ → Read → Type 0
Reads n dst line edit (finished out s') =
    (given rest : List ℕ) × (out ≡ dst ++ given) × Stops n line out given rest × Shows s' rest edit
Reads n dst line edit (asleep out s') =
    (out ≡ dst ++ line) × (is_text line ≡ true) × (length line < n) × Shows s' [] edit
Reads n dst line edit (failed s') = (is_text line ≡ true) × (length line < n) × Shows s' [] edit

-- The first byte of the finished lines, and what is left without it.
taken-Shows :
    (s : Input) (c : ℕ) (line edit : List ℕ)
    → Shows s (c ∷ line) edit
    → (s.buf (s.r % 128) ≡ c) × Shows (record s { r = (s.r + 1) % 2 ^ 32 }) line edit
taken-Shows s c line edit h =
    let e : suc (length line) + length edit ≡ suc (length line + length edit) = omega arith in
    let all_bytes : window s.buf s.r (suc (length line + length edit)) ≡ c ∷ (line ++ edit) =
      ap (window s.buf s.r) (sym e) ∙ h.bytes in
    (
      cc,
      record {
        word = omega arith;
        w_at = omega (arith, h.w_at, h.word);
        e_at = omega (arith, h.e_at, h.word);
        fits = omega (arith, h.fits);
        bytes = cc;
      },
    )

added_ne : (dst given : List ℕ) (b : ℕ) → (dst ++ (b ∷ [])) ++ given ≢ []
added_ne [] given b h = cc
added_ne (d ∷ dst) given b h = cc

text-cons :
    (b : ℕ) (l : List ℕ)
    → (b == 10) ≡ false
    → (b == 4) ≡ false
    → is_text l ≡ true
    → is_text (b ∷ l) ≡ true
unfolding is_text
text-cons b l feed no_eof rest = rw (feed, no_eof, rest) refl

-- A byte that is read before the rest.
Stops-cons :
    (n : ℕ) (line out : List ℕ) (b : ℕ) (given rest : List ℕ)
    → (b == 10) ≡ false
    → (b == 4) ≡ false
    → out ≢ []
    → Stops n line out given rest
    → Stops (suc n) (b ∷ line) out (b ∷ given) rest
Stops-cons n line out b _ _ feed no_eof some_out (enough given rest parts text size) =
    enough (b ∷ given) rest (ap (λ l. b ∷ l) parts) (text-cons b given feed no_eof text)
      (omega (arith, size))
Stops-cons n line out b _ _ feed no_eof some_out (newline text rest parts plain size) =
    newline (b ∷ text) rest (ap (λ l. b ∷ l) parts) (text-cons b text feed no_eof plain)
      (omega (arith, size))
Stops-cons n line out b _ _ feed no_eof some_out (before_eof given rest parts text size some') =
    before_eof (b ∷ given) rest (ap (λ l. b ∷ l) parts) (text-cons b given feed no_eof text)
      (omega (arith, size)) some'
Stops-cons n line out b _ _ feed no_eof some_out (eof rest parts size empty) =
    absurd (some_out empty)

Reads-cons :
    (n : ℕ) (dst : List ℕ) (b c : ℕ) (line edit : List ℕ) (result : Read)
    → b ≡ c
    → (b == 10) ≡ false
    → (b == 4) ≡ false
    → Reads n (dst ++ (b ∷ [])) line edit result
    → Reads (suc n) dst (c ∷ line) edit result
unfolding Reads
Reads-cons n dst b c line edit (finished out s') same feed no_eof
      (given, rest, outs, stops, shown) =
    (
      b ∷ given,
      rest,
      outs ∙ append_assoc dst (b ∷ []) given,
      subst (λ x. Stops (suc n) (x ∷ line) out (b ∷ given) rest) same
          (Stops-cons n line out b given rest feed no_eof (λ e. added_ne dst given b (sym outs ∙ e))
            stops),
      shown,
    )
Reads-cons n dst b c line edit (asleep out s') same feed no_eof (outs, text, size, shown) = (
  outs ∙ append_assoc dst (b ∷ []) line ∙ ap (λ x. dst ++ (x ∷ line)) same,
  ap (λ x. is_text (x ∷ line)) (sym same) ∙ text-cons b line feed no_eof text,
  omega (arith, size),
  shown,
)
Reads-cons n dst b c line edit (failed s') same feed no_eof (text, size, shown) = (
  ap (λ x. is_text (x ∷ line)) (sym same) ∙ text-cons b line feed no_eof text,
  omega (arith, size),
  shown,
)

read_from_eof :
    (killed : Bool) (n : ℕ) (dst : List ℕ) (s : Input) (c : ℕ) (line edit : List ℕ)
    → Shows s (c ∷ line) edit
    → (s.r == s.w) ≡ false
    → (s.buf (s.r % 128) == 4) ≡ true
    → Reads (suc n) dst (c ∷ line) edit (read_from killed (suc n) dst s)
unfolding read_from Reads is_text
read_from_eof killed n [] s c line edit h some_left is_eof =
    let (byte, shown) = taken-Shows s c line edit h in
    let control_d : c ≡ 4 = sym byte ∙ ==→eq (s.buf (s.r % 128)) 4 is_eof in
    rw (some_left, is_eof, read_from)
      ([], line, refl, eof line (ap (λ x. x ∷ line) control_d) (omega arith) refl, shown)
read_from_eof killed n (d ∷ ds) s c line edit h some_left is_eof =
    let (byte, shown) = taken-Shows s c line edit h in
    let control_d : c ≡ 4 = sym byte ∙ ==→eq (s.buf (s.r % 128)) 4 is_eof in
    rw (some_left, is_eof, read_from)
      (
        [],
        4 ∷ line,
        sym (append-nil (d ∷ ds)),
        before_eof [] line (ap (λ x. x ∷ line) control_d) refl (omega arith) cc,
        subst (λ x. Shows s (x ∷ line) edit) control_d h,
      )

-- A call of `consoleread` gives the reader the finished lines from their front: as many bytes as it wants, or
-- up to the first newline, with it, or up to the first control-D, if that comes earlier; a control-D is taken
-- away only where it is in front of everything read. It sleeps, or fails, only when it has read all of them
-- and they are less than it wants. What it has not read, and the line that is typed, are kept.
pub read_from-Reads :
    (killed : Bool) (n : ℕ) (dst : List ℕ) (s : Input) (line edit : List ℕ)
    → Shows s line edit
    → Reads n dst line edit (read_from killed n dst s)
unfolding read_from Reads is_text
read_from-Reads killed zero dst s line edit h =
    ([], line, sym (append-nil dst), enough [] line refl refl refl, h)
read_from-Reads killed (suc n) dst s [] edit h =
    let empty : (s.r == s.w) ≡ true = ground (arith, h.w_at, h.word) in
    elim (Bool-cases killed) [
      | inl dead ↦ rw (empty, dead, read_from) (refl, omega arith, h)
      | inr alive ↦ rw (empty, alive, read_from) (sym (append-nil dst), refl, omega arith, h)
    ]
read_from-Reads killed (suc n) dst s (c ∷ line) edit h =
    let b = s.buf (s.r % 128) in
    let some_left : (s.r == s.w) ≡ false = ground (arith, h.w_at, h.word, h.fits) in
    let (byte, shown) = taken-Shows s c line edit h in
    elim (Bool-cases (b == 4)) [
      | inl is_eof ↦ read_from_eof killed n dst s c line edit h some_left is_eof
      | inr text ↦ elim (Bool-cases (b == 10)) [
        | inl feed ↦
            let line_feed : b ≡ 10 = ==→eq b 10 feed in
            rw (some_left, text, feed, read_from)
              (
                10 ∷ [],
                line,
                ap (λ x. dst ++ (x ∷ [])) line_feed,
                newline [] line (ap (λ x. x ∷ line) (sym byte ∙ line_feed)) refl (omega arith),
                shown,
              )
        | inr letter ↦
            rw (some_left, text, letter, read_from)
              (Reads-cons n dst b c line edit _ byte letter text (
                read_from-Reads killed n (dst ++ (b ∷ [])) (record s { r = (s.r + 1) % 2 ^ 32 })
                  line edit shown))
      ]
    ]
