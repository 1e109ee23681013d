-- ===== src/Fortune/Texts/Numbers.antt =====
-- The fortune of a number: the program from its options to what it prints.
use cs537_sp23_operating_sys.Common.{
  ℕ, All, List, [], ap, arith, false, get_or, length, ltb, negsuc, pos, suc, true, ℤ, ◌++◌, ◌<◌,
  ◌==◌, ◌∷◌, ◌≡◌, refl, some, ◌∙◌,
}
use cs537_sp23_operating_sys.Fortune.{prints, fortune, is_above}
use cs537_sp23_operating_sys.Fortune.Options.{Chosen}
use cs537_sp23_operating_sys.Fortune.Texts.{
  line, read_fortunes, second_line, array_size, print_number, tell,
}
use cs537_sp23_operating_sys.Fortune.Texts.Lines.{
  Fits, joined, body, line_newline, fgets_newline, read_fortunes-body,
}

array_size_wide : (z : ℤ) → 2 < array_size z
array_size_wide (pos m) = ground arith
array_size_wide (negsuc m) = omega arith

-- The line of a number.
abbrev pub IsNumberLine : List ℕ → Type 0
IsNumberLine w = All (λ c. (c == 10) ≡ false × (c == 0) ≡ false) w × (length w < 19)

-- A file of fortunes: the lines of the two numbers, and the fortunes.
abbrev pub file_of : List ℕ → List ℕ → List (List (List ℕ)) → List ℕ
file_of w1 w2 ts = (w1 ++ (10 ∷ [])) ++ ((w2 ++ (10 ∷ [])) ++ body ts)

tell_steps :
    (atoi : List ℕ → ℤ) (fresh : ℕ → List ℕ) (s : Chosen) (file : List ℕ)
    (first second : List ℕ × List ℕ) (m : ℕ) (fortunes : ℕ → List ℕ)
    → line 19 file ≡ first
    → second_line first ≡ second
    → atoi (first.0) ≡ pos (suc m)
    → is_above s.n (pos (suc m)) ≡ false
    → read_fortunes (suc m) (array_size (atoi (second.0))) fresh (second.1) ≡ some fortunes
    → s.is_n ≡ true
    → tell atoi fresh s file ≡ prints s.op (print_number (suc m) fortunes s.n ∷ [])
unfolding tell
tell_steps atoi fresh s file first second m fortunes e1 e2 count inside run number =
    let count' : atoi (line 19 file).0 ≡ pos (suc m) =
      ap (λ (q : List ℕ × List ℕ). atoi q.0) e1 ∙ count in
    let e2' : second_line (line 19 file) ≡ second = ap second_line e1 ∙ e2 in
    let run' : read_fortunes (suc m) (array_size (atoi (second_line (line 19 file)).0)) fresh
          (second_line (line 19 file)).1
        ≡ some fortunes =
      ap (λ (q : List ℕ × List ℕ). read_fortunes (suc m) (array_size (atoi q.0)) fresh q.1) e2'
      ∙ run in
    rw (count', tell, inside, run', number) refl

-- With -n and a number of a fortune in a file whose first number is that of its fortunes and whose second one
-- is large enough for each of them, the program prints the fortune of that number.
pub tell-prints :
    (atoi : List ℕ → ℤ) (fresh : ℕ → List ℕ) (s : Chosen) (w1 w2 : List ℕ) (t : List (List ℕ))
    (ts : List (List (List ℕ))) (k : ℕ)
    → IsNumberLine w1
    → IsNumberLine w2
    → atoi (w1 ++ (10 ∷ [])) ≡ pos (length (t ∷ ts))
    → All (Fits (array_size (atoi (w2 ++ (10 ∷ []))))) (t ∷ ts)
    → s.is_n ≡ true
    → s.n ≡ pos (suc k)
    → k < length (t ∷ ts)
    → tell atoi fresh s (file_of w1 w2 (t ∷ ts))
      ≡ prints s.op (fortune (joined (get_or (t ∷ ts) k [])) ∷ [])
unfolding tell print_number
tell-prints atoi fresh s w1 w2 t ts k (plain1, short1) (plain2, short2) count fits number value
      inside =
    let size = array_size (atoi (w2 ++ (10 ∷ []))) in
    let rest = body (t ∷ ts) in
    let (fortunes, run, each) =
      read_fortunes-body size fresh t ts (array_size_wide (atoi (w2 ++ (10 ∷ [])))) fits in
    let first = line_newline 19 w1 ((w2 ++ (10 ∷ [])) ++ rest) plain1 short1 in
    let second = fgets_newline 20 w2 rest plain2 (omega arith) in
    let low : ltb (suc (length ts)) (suc k) ≡ false = ground arith in
    let second_eq : second_line (w1 ++ (10 ∷ []), (w2 ++ (10 ∷ [])) ++ rest)
        ≡ (w2 ++ (10 ∷ []), rest) =
      rw (second, second_line) refl in
    let above : is_above s.n (pos (suc (length ts))) ≡ false = rw value low in
    let told =
      tell_steps atoi fresh s (file_of w1 w2 (t ∷ ts)) (w1 ++ (10 ∷ []), (w2 ++ (10 ∷ [])) ++ rest)
        (w2 ++ (10 ∷ []), rest) (length ts) fortunes first second_eq count above run number in
    told
    ∙ ap (λ z. prints s.op (print_number (suc (length ts)) fortunes z ∷ [])) value
    ∙ rw (low, print_number) (ap (λ l. prints s.op (fortune l ∷ [])) (each k inside))
