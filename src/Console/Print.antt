-- ===== src/Console/Print.antt =====
-- The printing of the kernel, cprintf of P5_XV6_CoW_Fork/kernel/console.c, against printf of the user library.
use mathlib.Core.Path.{subst}
use cs537_sp23_operating_sys.Common.{
  ℕ, List, leb, Bool, Bool-cases, [], ap, arith, false, if◌then◌else◌, inl, inr, ltb, refl, suc,
  true, zero, ◌%◌, ◌&&◌, ◌++◌, ◌+◌, ◌-◌, ◌/◌, ◌<◌, ◌==◌, ◌^◌, ◌||◌, ◌∙◌, ◌∷◌, ◌≡◌, ◌≢◌, sym,
}
use cs537_sp23_operating_sys.User.{
  digit, buf_digits, is_negative, printint, string_arg, directive, printf_from, printf,
}

abbrev pub small_digit : ℕ → ℕ
small_digit d = if ltb d 10 then 48 + d else 87 + d

-- The first loop of `printint`, the last character first.
pub small_digits : ℕ → ℕ → ℕ → List ℕ → List ℕ
small_digits zero x base buf = buf
small_digits (suc fuel) x base buf =
    let more = small_digits fuel (x / base) base (small_digit (x % base) ∷ buf) in
    if x / base == 0 then small_digit (x % base) ∷ buf else more

-- The kernel's `printint`, with its 32 rounds.
abbrev pub print_number : ℕ → ℕ → Bool → List ℕ
print_number xx base sign =
    let negative = sign && is_negative xx in
    let x = if negative then (2 ^ 32 - xx) % 2 ^ 32 else xx in
    let buf = small_digits 32 x base [] in if negative then 45 ∷ buf else buf

-- What a character behind `%` writes, and how many arguments it takes.
abbrev pub sequence : (ℕ → List ℕ) → ℕ → ℕ → List ℕ × Bool
sequence text c arg =
    if c == 100
    then (print_number arg 10 true, true)
    else if (c == 120) || (c == 112)
    then (print_number arg 16 false, true)
    else if c == 115
    then (string_arg text arg, true)
    else if c == 37
    then (37 ∷ [], false)
    else (37 ∷ c ∷ [], false)

pub cprintf : (ℕ → List ℕ) → List ℕ → (ℕ → ℕ) → List ℕ
cprintf text [] argp = []
cprintf text (c ∷ []) argp = if c == 37 then [] else c ∷ []
cprintf text (c ∷ d ∷ fmt) argp = elim (c == 37) [
  | true ↦
      (sequence text d (argp 0)).0
      ++ cprintf text fmt (if (sequence text d (argp 0)).1 then (λ i. argp (i + 1)) else argp)
  | false ↦ c ∷ cprintf text (d ∷ fmt) argp
]

-- Characters with the digits from 10 on as capital letters.
abbrev pub capital : ℕ → ℕ
capital c = if leb 97 c && leb c 102 then c - 32 else c

abbrev pub capitals : List ℕ → List ℕ
capitals [] = []
capitals (c ∷ cs) = capital c ∷ capitals cs

-- No `%c`, which only the user library knows.
unfoldable pub NoChar : List ℕ → Type 0
NoChar [] = Unit
NoChar (c ∷ []) = Unit
NoChar (c ∷ d ∷ fmt) = if c == 37 then (d ≢ 99) × NoChar fmt else NoChar (d ∷ fmt)

capitals-append : (xs ys : List ℕ) → capitals (xs ++ ys) ≡ capitals xs ++ capitals ys
capitals-append [] ys = refl
capitals-append (x ∷ xs) ys = ap (λ l. capital x ∷ l) (capitals-append xs ys)

digits_same :
    (fuel x base : ℕ) (small big : List ℕ)
    → ((y : ℕ) → y % base < 16)
    → capitals small ≡ capitals big
    → capitals (small_digits fuel x base small) ≡ capitals (buf_digits fuel x base big)
unfolding small_digits buf_digits
digits_same zero x base small big bound h = h
digits_same (suc fuel) x base small big bound h =
    let first : capital (small_digit (x % base)) ≡ capital (digit (x % base)) =
      ground (arith, bound x) in
    let next : capitals (small_digit (x % base) ∷ small) ≡ capitals (digit (x % base) ∷ big) =
      ap (λ c. c ∷ capitals small) first ∙ ap (λ l. capital (digit (x % base)) ∷ l) h in
    elim (Bool-cases (x / base == 0)) [
      | inl done ↦ rw (done, small_digits, buf_digits) next
      | inr more ↦
          rw (more, small_digits, buf_digits) (digits_same fuel (x / base) base _ _ bound next)
    ]

number_same :
    (xx base : ℕ) (sign : Bool)
    → ((y : ℕ) → y % base < 16)
    → capitals (print_number xx base sign) ≡ capitals (printint xx base sign)
unfolding printint
number_same xx base sign bound = elim (Bool-cases (sign && is_negative xx)) [
  | inl negative ↦
      rw (negative, printint)
        (ap (λ l. 45 ∷ l) (digits_same 32 ((2 ^ 32 - xx) % 2 ^ 32) base [] [] bound refl))
  | inr positive ↦ rw (positive, printint) (digits_same 32 xx base [] [] bound refl)
]

sequence_same :
    (text : ℕ → List ℕ) (c arg : ℕ)
    → c ≢ 99
    → (capitals (sequence text c arg).0 ≡ capitals (directive text c arg).0)
      × ((sequence text c arg).1 ≡ (directive text c arg).1)
sequence_same text c arg ne = elim (Bool-cases (c == 100)) [
  | inl decimal ↦ rw decimal (number_same arg 10 true (λ y. omega arith), refl)
  | inr e1 ↦ elim (Bool-cases ((c == 120) || (c == 112))) [
    | inl hex ↦ rw (e1, hex) (number_same arg 16 false (λ y. omega arith), refl)
    | inr e2 ↦ elim (Bool-cases (c == 115)) [
      | inl string ↦ rw (e1, e2, string) (refl, refl)
      | inr e3 ↦
          let e4 : (c == 99) ≡ false = ground (arith, ne) in
          elim (Bool-cases (c == 37)) [
            | inl percent ↦ rw (e1, e2, e3, e4, percent) (refl, refl)
            | inr e5 ↦ rw (e1, e2, e3, e4, e5) (refl, refl)
          ]
    ]
  ]
]

-- The arguments behind one that is taken.
abbrev pub behind : Bool → (ℕ → ℕ) → ℕ → ℕ
behind taken argp = if taken then (λ i. argp (i + 1)) else argp

cprintf_percent :
    (text : ℕ → List ℕ) (c d : ℕ) (fmt : List ℕ) (argp : ℕ → ℕ)
    → (c == 37) ≡ true
    → cprintf text (c ∷ d ∷ fmt) argp
      ≡ (sequence text d (argp 0)).0 ++ cprintf text fmt (behind (sequence text d (argp 0)).1 argp)
unfolding cprintf
cprintf_percent text c d fmt argp h = rw (h, cprintf) refl

printf_percent :
    (text : ℕ → List ℕ) (c d : ℕ) (fmt : List ℕ) (argp : ℕ → ℕ)
    → (c == 37) ≡ true
    → printf text (c ∷ d ∷ fmt) argp
      ≡ (directive text d (argp 0)).0 ++ printf text fmt (behind (directive text d (argp 0)).1 argp)
unfolding printf_from
printf_percent text c d fmt argp h = rw h refl

printf_plain :
    (text : ℕ → List ℕ) (c : ℕ) (fmt : List ℕ) (argp : ℕ → ℕ)
    → (c == 37) ≡ false
    → printf text (c ∷ fmt) argp ≡ c ∷ printf text fmt argp
unfolding printf_from
printf_plain text c fmt argp h = rw h refl

cprintf_plain :
    (text : ℕ → List ℕ) (c d : ℕ) (fmt : List ℕ) (argp : ℕ → ℕ)
    → (c == 37) ≡ false
    → cprintf text (c ∷ d ∷ fmt) argp ≡ c ∷ cprintf text (d ∷ fmt) argp
unfolding cprintf
cprintf_plain text c d fmt argp h = rw (h, cprintf) refl

-- On a format without `%c`, `cprintf` of the kernel writes what `printf` of the user library writes, up to
-- the case of the letters from a to f.
pub cprintf-printf :
    (text : ℕ → List ℕ) (fmt : List ℕ) (argp : ℕ → ℕ)
    → NoChar fmt
    → capitals (cprintf text fmt argp) ≡ capitals (printf text fmt argp)
unfolding cprintf printf_from NoChar
cprintf-printf text [] argp h = refl
cprintf-printf text (c ∷ []) argp h = elim (Bool-cases (c == 37)) [
  | inl percent ↦ rw (percent, printf_from) refl
  | inr plain ↦ rw (plain, printf_from) refl
]
cprintf-printf text (c ∷ d ∷ fmt) argp h = elim (Bool-cases (c == 37)) [
  | inl percent ↦
      let (no_c, rest) =
        subst (λ b. if b then (d ≢ 99) × NoChar fmt else NoChar (d ∷ fmt)) percent h in
      let (out, taken) = sequence_same text d (argp 0) no_c in
      let next = behind (sequence text d (argp 0)).1 argp in
      ap capitals (cprintf_percent text c d fmt argp percent)
      ∙ capitals-append (sequence text d (argp 0)).0 (cprintf text fmt next)
      ∙ ap (λ l. l ++ capitals (cprintf text fmt next)) out
      ∙ ap (λ l. capitals (directive text d (argp 0)).0 ++ l) (cprintf-printf text fmt next rest)
      ∙ ap
          (λ t.
            capitals (directive text d (argp 0)).0 ++ capitals (printf text fmt (behind t argp)))
          taken
      ∙ sym (capitals-append (directive text d (argp 0)).0 _)
      ∙ ap capitals (sym (printf_percent text c d fmt argp percent))
  | inr plain ↦
      let rest = subst (λ b. if b then (d ≢ 99) × NoChar fmt else NoChar (d ∷ fmt)) plain h in
      ap capitals (cprintf_plain text c d fmt argp plain)
      ∙ ap (λ l. capital c ∷ l) (cprintf-printf text (d ∷ fmt) argp rest)
      ∙ ap capitals (sym (printf_plain text c (d ∷ fmt) argp plain))
]
