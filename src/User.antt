-- ===== src/User.antt =====
-- The library of user programs: P5_XV6_CoW_Fork/user/ulib.c and printf.c, over a memory of bytes.
-- A loop that runs to a NUL has fuel, and `none` if that runs out.
pub mod Texts
pub mod Numbers
pub mod Format
mod Tests
use cs537_sp23_operating_sys.Common.{
  ℕ, Bool, List, Memory, Option, [], ap, false, if◌then◌else◌, leb, ltb, none, not, rank, some,
  sub_ℕ, suc, true, update, zero, ℤ, ◌%◌, ◌&&◌, ◌*◌, ◌++◌, ◌+◌, ◌-◌, ◌/◌, ◌==◌, ◌^◌, ◌||◌, ◌∷◌,
}

pub strcpy : ℕ → Memory → ℕ → ℕ → Option Memory
strcpy zero m s t = none
strcpy (suc fuel) m s t =
    let m1 : Memory = update m s (m t) in
    elim (m t == 0) [ true ↦ some m1 | false ↦ strcpy fuel m1 (s + 1) (t + 1) ]

pub strcmp : ℕ → Memory → ℕ → ℕ → Option ℤ
strcmp zero m p q = none
strcmp (suc fuel) m p q = elim (not (m p == 0) && (m p == m q)) [
  | true ↦ strcmp fuel m (p + 1) (q + 1)
  | false ↦ some (sub_ℕ (m p % 256) (m q % 256))
]

-- The address of the character, or 0.
pub strchr : ℕ → Memory → ℕ → ℕ → Option ℕ
strchr zero m s c = none
strchr (suc fuel) m s c = elim (m s == 0) [
  | true ↦ some 0
  | false ↦ elim (m s == c) [ true ↦ some s | false ↦ strchr fuel m (s + 1) c ]
]

-- The loop of `gets` from index `i` on, with room for `n` bytes before the NUL; `read` gives one byte of
-- `input`, or none at its end. The memory, and the input that is left.
pub gets_from : ℕ → Memory → ℕ → ℕ → List ℕ → Memory × List ℕ
gets_from zero m buf i input = (update m (buf + i) 0, input)
gets_from (suc n) m buf i [] = (update m (buf + i) 0, [])
gets_from (suc n) m buf i (c ∷ input) =
    let m1 : Memory = update m (buf + i) c in
    if (c == 10) || (c == 13)
    then (update m1 (buf + (i + 1)) 0, input)
    else gets_from n m1 buf (i + 1) input

pub gets : Memory → ℕ → ℕ → List ℕ → Memory × List ℕ
gets m buf max input = gets_from (max - 1) m buf 0 input

-- `'0' <= *s && *s <= '9'`
abbrev pub is_digit : ℕ → Bool
is_digit c = leb 48 c && leb c 57

-- The loop of `atoi`, on `int`.
pub atoi_from : ℕ → Memory → ℕ → ℕ → Option ℕ
atoi_from zero m s n = none
atoi_from (suc fuel) m s n = elim (is_digit (m s)) [
  | true ↦ atoi_from fuel m (s + 1) ((n * 10 + m s + (2 ^ 32 - 48)) % 2 ^ 32)
  | false ↦ some n
]

abbrev pub atoi : ℕ → Memory → ℕ → Option ℕ
atoi fuel m s = atoi_from fuel m s 0

-- `while (n-- > 0) *dst++ = *src++`
pub memmove : Memory → ℕ → ℕ → ℕ → Memory
memmove m dst src zero = m
memmove m dst src (suc n) = memmove (update m dst (m src)) (dst + 1) (src + 1) n

-- `digits[d]`
abbrev pub digit : ℕ → ℕ
digit d = if ltb d 10 then 48 + d else 55 + d

-- The first loop of `printint`: the characters of `buf`, the last one first.
unfoldable pub buf_digits : ℕ → ℕ → ℕ → List ℕ → List ℕ
buf_digits zero x base buf = buf
buf_digits (suc fuel) x base buf =
    let more = buf_digits fuel (x / base) base (digit (x % base) ∷ buf) in
    if x / base == 0 then digit (x % base) ∷ buf else more

abbrev pub is_negative : ℕ → Bool
is_negative xx = ltb (rank xx) (rank 0)

-- The characters that `printint` writes, for the pattern `xx`: 32 rounds are enough from base 2 on.
unfoldable pub printint : ℕ → ℕ → Bool → List ℕ
printint xx base sgn =
    if sgn && is_negative xx
    then 45 ∷ buf_digits 32 ((2 ^ 32 - xx) % 2 ^ 32) base []
    else buf_digits 32 xx base []

-- The text behind the address of an argument: "(null)" at 0.
abbrev pub string_arg : (ℕ → List ℕ) → ℕ → List ℕ
string_arg text a = if a == 0 then 40 ∷ 110 ∷ 117 ∷ 108 ∷ 108 ∷ 41 ∷ [] else text a

-- What a character behind `%` writes, and how many arguments it takes.
abbrev pub directive : (ℕ → List ℕ) → ℕ → ℕ → List ℕ × Bool
directive text c arg =
    if c == 100
    then (printint arg 10 true, true)
    else if (c == 120) || (c == 112)
    then (printint arg 16 false, true)
    else if c == 115
    then (string_arg text arg, true)
    else if c == 99
    then (arg % 256 ∷ [], true)
    else if c == 37
    then (37 ∷ [], false)
    else (37 ∷ c ∷ [], false)

-- The loop of `printf`: `state` is whether a `%` came before, `ap` the arguments behind `fmt`, from the
-- stack, and `text a` the text at address `a`.
unfoldable pub printf_from : (ℕ → List ℕ) → Bool → List ℕ → (ℕ → ℕ) → List ℕ
printf_from text state [] ap = []
printf_from text false (c ∷ fmt) ap =
    if c == 37 then printf_from text true fmt ap else c ∷ printf_from text false fmt ap
printf_from text true (c ∷ fmt) ap =
    let (out, taken) = directive text c (ap 0) in
    out ++ printf_from text false fmt (if taken then (λ i. ap (i + 1)) else ap)

abbrev pub printf : (ℕ → List ℕ) → List ℕ → (ℕ → ℕ) → List ℕ
printf text fmt ap = printf_from text false fmt ap
