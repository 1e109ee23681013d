-- ===== src/Runscan/Names/Numbers.antt =====
-- The numbers in the names of pictures and of details.
use cs537_sp23_operating_sys.Common.{
  ℕ, List, [], arith, Bool-cases, ap, append_assoc, drop, false, if◌then◌else◌, inl, inr, leb, ltb,
  refl, same_text, same_text→eq, suc, sym, true, zero, ◌%◌, ◌&&◌, ◌*◌, ◌++◌, ◌+◌, ◌-◌, ◌/◌, ◌<◌,
  ◌^◌, ◌∙◌, ◌∷◌, ◌≡◌, ◌≢◌,
}
use cs537_sp23_operating_sys.Runscan.Names.{decimal_from, picture_name, details_name}

-- The number at the front of a text, with `acc` read before.
value : ℕ → List ℕ → ℕ
value acc [] = acc
value acc (c ∷ cs) = if leb 48 c && leb c 57 then value (acc * 10 + (c - 48)) cs else acc

value-digit :
    (acc d m : ℕ) (cs : List ℕ) → d < 10 → acc * 10 + d ≡ m → value acc ((48 + d) ∷ cs) ≡ value m cs
unfolding value
value-digit acc d m cs small sum =
    let digit : (leb 48 (48 + d) && leb (48 + d) 57) ≡ true = ground arith in
    let back : 48 + d - 48 ≡ d = omega arith in rw (digit, back, sum, value) refl

value-decimal_from :
    (fuel n : ℕ) (rest : List ℕ)
    → n < 10 ^ fuel
    → value 0 (decimal_from fuel n ++ rest) ≡ value n rest
unfolding decimal_from
value-decimal_from zero n rest small =
    let none_left : n ≡ 0 = omega arith in ap (λ m. value m rest) (sym none_left)
value-decimal_from (suc fuel) n rest small = elim (Bool-cases (ltb n 10)) [
  | inl one ↦ rw (one, decimal_from) (value-digit 0 n n rest (ground arith) (omega arith))
  | inr more ↦
      let power : 10 ^ suc fuel ≡ 10 * 10 ^ fuel = omega arith in
      let shorter : n / 10 < 10 ^ fuel = omega (arith, power) in
      let whole : n / 10 * 10 + n % 10 ≡ n = omega arith in
      let last : List ℕ = (48 + n % 10) ∷ [] in
      let front : decimal_from (suc fuel) n ≡ decimal_from fuel (n / 10) ++ last =
        rw (more, decimal_from) refl in
      ap (λ l. value 0 (l ++ rest)) front
      ∙ ap (value 0) (append_assoc (decimal_from fuel (n / 10)) last rest)
      ∙ value-decimal_from fuel (n / 10) (last ++ rest) shorter
      ∙ value-digit (n / 10) (n % 10) n rest (omega arith) whole
]

-- The number in a name.
abbrev number_in : List ℕ → ℕ
number_in name = value 0 (drop 5 name)

number_in-picture_name : (i : ℕ) → i < 2 ^ 32 → number_in (picture_name i) ≡ i
unfolding picture_name value
number_in-picture_name i small = value-decimal_from 10 i _ (omega arith)

number_in-details_name : (i : ℕ) → i < 2 ^ 32 → number_in (details_name i) ≡ i
unfolding details_name value
number_in-details_name i small = value-decimal_from 10 i _ (omega arith)

differ :
    (a b : List ℕ) (i j : ℕ) → number_in a ≡ i → number_in b ≡ j → i ≢ j → same_text a b ≡ false
differ a b i j at_a at_b ne = elim (Bool-cases (same_text a b)) [
  | inl same ↦
      let e : a ≡ b = same_text→eq a b same in absurd (ne (sym at_a ∙ ap number_in e ∙ at_b))
  | inr other ↦ other
]

-- Neither file of inode `j` has the name.
abbrev pub IsAway : ℕ → List ℕ → Type 0
IsAway j other =
    (same_text (picture_name j) other ≡ false) × (same_text (details_name j) other ≡ false)

pub names_differ :
    (i j : ℕ)
    → i < 2 ^ 32
    → j < 2 ^ 32
    → j ≢ i
    → IsAway j (picture_name i) × IsAway j (details_name i)
names_differ i j small_i small_j ne =
    let p = picture_name in
    let d = details_name in
    let pi = number_in-picture_name i small_i in
    let di = number_in-details_name i small_i in
    let pj = number_in-picture_name j small_j in
    let dj = number_in-details_name j small_j in
    (
      (differ (p j) (p i) j i pj pi ne, differ (d j) (p i) j i dj pi ne),
      (differ (p j) (d i) j i pj di ne, differ (d j) (d i) j i dj di ne),
    )
