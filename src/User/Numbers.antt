-- ===== src/User/Numbers.antt =====
-- Numbers in decimal: `printint` against `atoi`.
use cs537_sp23_operating_sys.Common.{
  ℕ, List, Bool-cases, Memory, [], arith, false, if◌then◌else◌, inl, inr, length, refl, some, suc,
  true, zero, ◌%◌, ◌*◌, ◌+◌, ◌-◌, ◌<◌, ◌^◌, ◌∷◌, ◌≡◌, Bool, ap, ◌&&◌, ◌/◌, ◌==◌, ◌∙◌, ◌≤◌,
}
use cs537_sp23_operating_sys.Strings.Text.{CString}
use cs537_sp23_operating_sys.User.{
  is_digit, digit, atoi_from, atoi, buf_digits, printint, is_negative,
}

-- The number that the digits at the front of a text spell behind `n`, modulo 2 ^ 32.
abbrev pub number : List ℕ → ℕ → ℕ
number [] n = n
number (c ∷ cs) n = if is_digit c then number cs ((n * 10 + c + (2 ^ 32 - 48)) % 2 ^ 32) else n

atoi_from-number :
    (fuel : ℕ) (m : Memory) (s n : ℕ) (xs : List ℕ)
    → CString m s xs
    → length xs < fuel
    → atoi_from fuel m s n ≡ some (number xs n)
unfolding atoi_from
atoi_from-number zero m s n xs text h = elim h [ ]
atoi_from-number (suc fuel) m s n [] text h = ground arith
atoi_from-number (suc fuel) m s n (x ∷ xs) text h = elim (Bool-cases (is_digit x)) [
  | inl yes_digit ↦
      let same : is_digit (m s) ≡ true = rw text.0 yes_digit in
      rw (same, text.0, yes_digit, atoi_from)
        (atoi_from-number fuel m (s + 1) _ xs text.3 (omega arith))
  | inr no_digit ↦
      let same : is_digit (m s) ≡ false = rw text.0 no_digit in rw (same, no_digit, atoi_from) refl
]

abbrev tens : ℕ → ℕ
tens zero = 1
tens (suc n) = tens n * 10

digit_read :
    (d n : ℕ) (out : List ℕ)
    → d < 10
    → n * 10 + d < 2 ^ 32
    → number (digit d ∷ out) n ≡ number out (n * 10 + d)
digit_read d n out h fits =
    let e : digit d ≡ 48 + d = ground arith in
    let yes_digit : is_digit (48 + d) ≡ true = ground arith in
    let v : (n * 10 + (48 + d) + (2 ^ 32 - 48)) % 2 ^ 32 ≡ n * 10 + d = omega arith in
    rw (e, yes_digit, v) refl

-- One round of the loop, as it is written.
pub buf_digits_step :
    (fuel x base : ℕ) (out : List ℕ)
    → buf_digits (suc fuel) x base out ≡ (
        if x / base == 0
        then digit (x % base) ∷ out
        else buf_digits fuel (x / base) base (digit (x % base) ∷ out))
unfolding buf_digits
buf_digits_step fuel x base out = refl

number-buf_digits :
    (fuel x : ℕ) (out : List ℕ)
    → x < tens fuel
    → x < 2 ^ 32
    → number (buf_digits (suc fuel) x 10 out) 0 ≡ number out x
number-buf_digits zero x out h fits =
    let e : x ≡ 0 = omega arith in
    rw (buf_digits_step 0 x 10 out, e) (digit_read 0 0 out (omega arith) (omega arith))
number-buf_digits (suc fuel) x out h fits = elim (Bool-cases (x / 10 == 0)) [
  | inl last ↦
      let v : 0 * 10 + x % 10 ≡ x = ground arith in
      rw (buf_digits_step (suc fuel) x 10 out, last)
        (digit_read (x % 10) 0 out (omega arith) (omega arith) ∙ ap (number out) v)
  | inr more ↦
      let v : x / 10 * 10 + x % 10 ≡ x = omega arith in
      let rest =
        number-buf_digits fuel (x / 10) (digit (x % 10) ∷ out) (omega arith) (omega arith) in
      rw (buf_digits_step (suc fuel) x 10 out, more)
        (rest ∙ (digit_read (x % 10) (x / 10) out (omega arith) (omega arith) ∙ ap (number out) v))
]

-- A text with the decimal digits of a number that is not negative, printed signed, is read back by `atoi`.
pub atoi-printint :
    (fuel : ℕ) (m : Memory) (s n : ℕ)
    → n < 2 ^ 31
    → CString m s (printint n 10 true)
    → length (printint n 10 true) < fuel
    → atoi fuel m s ≡ some n
unfolding printint
atoi-printint fuel m s n h text enough =
    let plain : is_negative n ≡ false = ground arith in
    let e : printint n 10 true ≡ buf_digits (suc 31) n 10 [] = rw (plain, printint) refl in
    atoi_from-number fuel m s 0 (printint n 10 true) text enough
    ∙ ap some (ap (λ xs. number xs 0) e ∙ number-buf_digits 31 n [] (omega arith) (omega arith))

length-buf_digits :
    (fuel x base : ℕ) (out : List ℕ) → length (buf_digits fuel x base out) ≤ fuel + length out
unfolding buf_digits
length-buf_digits zero x base out = omega arith
length-buf_digits (suc fuel) x base out =
    ground (arith, length-buf_digits fuel (x / base) base (digit (x % base) ∷ out))

-- Rounds that a number of at most `n + 1` digits does not need are not made.
buf_digits_rounds :
    (n fuel x : ℕ) (out : List ℕ)
    → x < tens (suc n)
    → n ≤ fuel
    → buf_digits (suc fuel) x 10 out ≡ buf_digits (suc n) x 10 out
buf_digits_rounds zero zero x out h le = refl
buf_digits_rounds zero (suc fuel) x out h le =
    let e : (x / 10 == 0) ≡ true = ground arith in
    rw (buf_digits_step (suc fuel) x 10 out, buf_digits_step 0 x 10 out, e) refl
buf_digits_rounds (suc n) zero x out h le = absurd (omega arith)
buf_digits_rounds (suc n) (suc fuel) x out h le = elim (Bool-cases (x / 10 == 0)) [
  | inl last ↦ rw (buf_digits_step (suc fuel) x 10 out, buf_digits_step (suc n) x 10 out, last) refl
  | inr more ↦
      rw (buf_digits_step (suc fuel) x 10 out, buf_digits_step (suc n) x 10 out, more)
        (buf_digits_rounds n fuel (x / 10) (digit (x % 10) ∷ out) (omega arith) (omega arith))
]

-- `printint` in decimal fills at most 11 of the 16 bytes of its `buf`, for any `int`, signed or not.
pub length-printint : (xx : ℕ) (sgn : Bool) → xx < 2 ^ 32 → length (printint xx 10 sgn) ≤ 11
unfolding printint
length-printint xx sgn h = elim (Bool-cases (sgn && is_negative xx)) [
  | inl minus ↦ rw minus (bounded ((2 ^ 32 - xx) % 2 ^ 32) (omega arith))
  | inr plus ↦ rw plus (omega (arith, bounded xx h))
]
  where
    bounded : (x : ℕ) → x < 2 ^ 32 → suc (length (buf_digits 32 x 10 [])) ≤ 11
    bounded x l =
        let e = buf_digits_rounds 9 31 x [] (omega arith) (omega arith) in
        rw e (omega (arith, length-buf_digits 10 x 10 []))
