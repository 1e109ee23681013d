-- ===== src/Fortune/Texts/Lines.antt =====
-- Files that are made of fortunes, read line by line.
use cs537_sp23_operating_sys.Common.{
  ℕ, ==→eq, All, Bool-cases, List, [], ap, append-nil, arith, false, inl, inr, length, refl, suc,
  sym, zero, ◌++◌, ◌+◌, ◌<◌, ◌==◌, ◌∷◌, ◌≡◌, ◌≢◌, ◌≤◌, text_of, append_assoc, get_or, length-append,
  ltb, some, true, update, update_ne, update_self, ◌-◌, ◌∙◌,
}
use cs537_sp23_operating_sys.Fortune.Texts.{
  line, fgets, Reading, is_percent, next_fortune, read_lines, read_fortunes,
}

-- A line without its newline, which an array of `size` bytes takes: neither newline nor zero byte in it, and
-- not the `%` between fortunes.
abbrev pub IsPlain : ℕ → List ℕ → Type 0
IsPlain size w =
    All (λ c. (c == 10) ≡ false × (c == 0) ≡ false) w × (length w + 1 < size) × (w ≢ 37 ∷ [])

-- The text of a fortune, by its lines.
unfoldable pub joined : List (List ℕ) → List ℕ
joined [] = []
joined (w ∷ ws) = (w ++ (10 ∷ [])) ++ joined ws

-- A fortune that the arrays of `size` bytes take.
abbrev pub Fits : ℕ → List (List ℕ) → Type 0
Fits size ws = All (IsPlain size) ws × (length (joined ws) < size)

-- The file behind its two numbers.
pub body : List (List (List ℕ)) → List ℕ
body [] = []
body (t ∷ ts) = 37 ∷ 10 ∷ (joined t ++ body ts)

pub line_newline :
    (n : ℕ) (w rest : List ℕ)
    → All (λ c. (c == 10) ≡ false × (c == 0) ≡ false) w
    → length w < n
    → line n ((w ++ (10 ∷ [])) ++ rest) ≡ (w ++ (10 ∷ []), rest)
unfolding line
line_newline zero w rest plain low = absurd (omega arith)
line_newline (suc n) [] rest plain low = refl
line_newline (suc n) (c ∷ w) rest ((other, some_byte), plain) low =
    rw (other, line, line_newline n w rest plain (omega arith)) refl

text_of_newline :
    (w : List ℕ)
    → All (λ c. (c == 10) ≡ false × (c == 0) ≡ false) w
    → text_of (w ++ (10 ∷ [])) ≡ w ++ (10 ∷ [])
text_of_newline [] plain = refl
text_of_newline (c ∷ w) ((other, some_byte), plain) = rw (some_byte, text_of_newline w plain) refl

no_percent :
    (w : List ℕ)
    → All (λ c. (c == 10) ≡ false × (c == 0) ≡ false) w
    → w ≢ 37 ∷ []
    → is_percent (w ++ (10 ∷ [])) ≡ false
no_percent [] plain ne = refl
no_percent (c ∷ []) plain ne = elim (Bool-cases (c == 37)) [
  | inl same ↦ absurd (ne (ap (λ x. x ∷ []) (==→eq c 37 same)))
  | inr other ↦ rw other refl
]
no_percent (c ∷ d ∷ w) (first, ((other, some_byte), plain)) ne = ground arith

pub fgets_newline :
    (size : ℕ) (w rest : List ℕ)
    → All (λ c. (c == 10) ≡ false × (c == 0) ≡ false) w
    → length w + 1 < size
    → fgets size ((w ++ (10 ∷ [])) ++ rest) ≡ some (w ++ (10 ∷ []), rest)
fgets_newline size [] rest plain low = ap some (line_newline (size - 1) [] rest plain (omega arith))
fgets_newline size (c ∷ w) rest plain low =
    ap some (line_newline (size - 1) (c ∷ w) rest plain (omega arith))

-- The lines of one fortune.
read_lines-joined :
    (fuel f_cnt size : ℕ) (ws : List (List ℕ)) (rest : List ℕ) (r : Reading)
    → All (IsPlain size) ws
    → length r.temp + length (joined ws) < size
    → r.cnt ≤ f_cnt
    → length (joined ws ++ rest) < fuel
    → (fuel' : ℕ) × (length rest < fuel')
      × (read_lines fuel f_cnt size (joined ws ++ rest) r
          ≡ read_lines fuel' f_cnt size rest (record r { temp = r.temp ++ joined ws }))
unfolding read_lines joined
read_lines-joined fuel f_cnt size [] rest r plain fits low enough = (
  fuel,
  enough,
  ap (λ t. read_lines fuel f_cnt size rest (record r { temp = t })) (sym (append-nil r.temp)),
)
read_lines-joined zero f_cnt size (w ∷ ws) rest r plain fits low enough = absurd (omega arith)
read_lines-joined (suc fuel) f_cnt size (w ∷ ws) rest r ((letters, short, ne), plain) fits low
      enough =
    let l = w ++ (10 ∷ []) in
    let same : (l ++ joined ws) ++ rest ≡ l ++ (joined ws ++ rest) =
      append_assoc l (joined ws) rest in
    let size_l = length-append w (10 ∷ []) in
    let size_all = length-append l (joined ws) in
    let size_rest = length-append l (joined ws ++ rest) in
    let size_same = ap length same in
    let size_temp = length-append r.temp l in
    let inside : ltb f_cnt r.cnt ≡ false = ground arith in
    let room : ltb (length r.temp + length l) size ≡ true = ground arith in
    let (fuel', more, run) =
      read_lines-joined fuel f_cnt size ws rest (record r { temp = r.temp ++ l }) plain
        (omega arith) low (omega arith) in
    let step : read_lines (suc fuel) f_cnt size (l ++ (joined ws ++ rest)) r
        ≡ read_lines fuel f_cnt size (joined ws ++ rest) (record r { temp = r.temp ++ l }) =
      rw
        (
          fgets_newline size w (joined ws ++ rest) letters short,
          read_lines,
          inside,
          no_percent w letters ne,
          text_of_newline w letters,
          room,
          text_of_newline w letters,
        )
        refl in
    (
      fuel',
      more,
      ap (λ t. read_lines (suc fuel) f_cnt size t r) same
          ∙ step
          ∙ run
          ∙ ap (λ t. read_lines fuel' f_cnt size rest (record r { temp = t }))
              (append_assoc r.temp l (joined ws)),
    )

line_percent :
    (size : ℕ) (rest : List ℕ) → 2 < size → line (size - 1) (37 ∷ 10 ∷ rest) ≡ (37 ∷ 10 ∷ [], rest)
unfolding line
line_percent (suc (suc (suc size))) rest wide =
    let e : suc (suc (suc size)) - 1 ≡ suc (suc size) = omega arith in
    ap (λ n. line n (37 ∷ 10 ∷ rest)) e
line_percent (suc (suc zero)) rest wide = absurd (omega arith)
line_percent (suc zero) rest wide = absurd (omega arith)
line_percent zero rest wide = absurd (omega arith)

read_lines_percent :
    (fuel f_cnt size : ℕ) (input rest : List ℕ) (r : Reading)
    → fgets size input ≡ some (37 ∷ 10 ∷ [], rest)
    → r.cnt ≤ f_cnt
    → read_lines (suc fuel) f_cnt size input r ≡ read_lines fuel f_cnt size rest (next_fortune r)
unfolding read_lines
read_lines_percent fuel f_cnt size input rest r h low =
    let inside : ltb f_cnt r.cnt ≡ false = ground arith in rw (h, read_lines, inside) refl

-- What the loop leaves, with the last fortune stored.
abbrev pub final : ℕ → Reading → ℕ → List ℕ
final f_cnt r = update r.fortunes (f_cnt - 1) r.temp

-- The fortunes behind one that is being read.
read_lines-body :
    (fuel f_cnt size : ℕ) (ts : List (List (List ℕ))) (r : Reading)
    → 2 < size
    → All (Fits size) ts
    → 0 < r.cnt
    → r.cnt + length ts ≡ f_cnt
    → length (body ts) < fuel
    → (r' : Reading) × (read_lines fuel f_cnt size (body ts) r ≡ some r')
      × ((i : ℕ) → i < r.cnt - 1 → final f_cnt r' i ≡ r.fortunes i)
      × (final f_cnt r' (r.cnt - 1) ≡ r.temp)
      × ((j : ℕ) → j < length ts → final f_cnt r' (r.cnt + j) ≡ joined (get_or ts j []))
unfolding read_lines body
read_lines-body zero f_cnt size ts r wide fits low count enough = absurd (omega arith)
read_lines-body (suc fuel) f_cnt size [] r wide fits low count enough = (
  r,
  refl,
  λ i before. update_ne r.fortunes (f_cnt - 1) i r.temp (λ e. absurd (omega arith)),
  ap (λ k. update r.fortunes (f_cnt - 1) r.temp k) (omega arith)
      ∙ update_self r.fortunes (f_cnt - 1) r.temp,
  λ j past. absurd (omega arith),
)
read_lines-body (suc fuel) f_cnt size (t ∷ ts) r wide ((plain, room), fits) low count enough =
    let begun : (r.cnt == 0) ≡ false = ground arith in
    let r1 : Reading = record {
      cnt = r.cnt + 1;
      temp = [];
      fortunes = update r.fortunes (r.cnt - 1) r.temp;
    } in
    let size_all = length-append (joined t) (body ts) in
    let (fuel', more, run) =
      read_lines-joined fuel f_cnt size t (body ts) r1 plain (omega arith) (omega arith)
        (omega arith) in
    let (r', runs, before, last, after) =
      read_lines-body fuel' f_cnt size ts (record r1 { temp = joined t }) wide fits (omega arith)
        (omega arith) more in
    let step : read_lines (suc fuel) f_cnt size (37 ∷ 10 ∷ (joined t ++ body ts)) r
        ≡ read_lines fuel f_cnt size (joined t ++ body ts) r1 =
      read_lines_percent fuel f_cnt size (37 ∷ 10 ∷ (joined t ++ body ts)) (joined t ++ body ts) r
        (ap some (line_percent size (joined t ++ body ts) wide)) (omega arith)
      ∙ ap (read_lines fuel f_cnt size (joined t ++ body ts)) (rw begun refl) in
    (
      r',
      step ∙ run ∙ runs,
      λ i low_i.
          before i (omega arith)
          ∙ update_ne r.fortunes (r.cnt - 1) i r.temp (λ e. absurd (omega arith)),
      before (r.cnt - 1) (omega arith) ∙ update_self r.fortunes (r.cnt - 1) r.temp,
      λ j inside_j. later r' j (joined t) last after inside_j refl,
    )
  where
    later :
        (r' : Reading) (j : ℕ) (text : List ℕ)
        → final f_cnt r' (r.cnt + 1 - 1) ≡ text
        → ((k : ℕ) → k < length ts → final f_cnt r' (r.cnt + 1 + k) ≡ joined (get_or ts k []))
        → j < suc (length ts)
        → text ≡ joined t
        → final f_cnt r' (r.cnt + j) ≡ joined (get_or (t ∷ ts) j [])
    later r' zero text last after inside same = ap (final f_cnt r') (omega arith) ∙ last ∙ same
    later r' (suc k) text last after inside same =
        ap (final f_cnt r') (omega arith) ∙ after k (omega arith)

-- Reading back the file that is made of some fortunes, at least one, whose texts and lines the arrays take:
-- every fortune is in its place.
pub read_fortunes-body :
    (size : ℕ) (fresh : ℕ → List ℕ) (t : List (List ℕ)) (ts : List (List (List ℕ)))
    → 2 < size
    → All (Fits size) (t ∷ ts)
    → (fortunes : ℕ → List ℕ) × (read_fortunes (length (t ∷ ts)) size fresh (body (t ∷ ts))
        ≡ some fortunes)
      × ((j : ℕ) → j < length (t ∷ ts) → fortunes j ≡ joined (get_or (t ∷ ts) j []))
unfolding read_fortunes read_lines body
read_fortunes-body size fresh t ts wide ((plain, room), fits) =
    let count = suc (length ts) in
    let input = joined t ++ body ts in
    let size_all = length-append (joined t) (body ts) in
    let start : Reading = record { cnt = 1; temp = []; fortunes = fresh } in
    let (fuel, more, run) =
      read_lines-joined (suc (suc (length input))) count size t (body ts) start plain (omega arith)
        (omega arith) (omega arith) in
    let (r', runs, before, last, after) =
      read_lines-body fuel count size ts (record start { temp = joined t }) wide fits (omega arith)
        (omega arith) more in
    let first : read_lines (suc (suc (suc (length input)))) count size (37 ∷ 10 ∷ input)
          (record { cnt = 0; temp = []; fortunes = fresh })
        ≡ read_lines (suc (suc (length input))) count size input start =
      read_lines_percent (suc (suc (length input))) count size (37 ∷ 10 ∷ input) input
        (record { cnt = 0; temp = []; fortunes = fresh }) (ap some (line_percent size input wide))
        (omega arith) in
    let fuel_eq : length (37 ∷ 10 ∷ input) + 1 ≡ suc (suc (suc (length input))) = omega arith in
    let whole =
      ap
        (λ n.
          read_lines n count size (37 ∷ 10 ∷ input)
            (record { cnt = 0; temp = []; fortunes = fresh }))
        fuel_eq
      ∙ first
      ∙ run
      ∙ runs in
    (
      final count r',
      rw (whole, read_fortunes) refl,
      λ j inside. all r' j (joined t) last after inside refl,
    )
  where
    all :
        (r' : Reading) (j : ℕ) (text : List ℕ)
        → final (suc (length ts)) r' 0 ≡ text
        → ((k : ℕ) → k < length ts → final (suc (length ts)) r' (1 + k) ≡ joined (get_or ts k []))
        → j < suc (length ts)
        → text ≡ joined t
        → final (suc (length ts)) r' j ≡ joined (get_or (t ∷ ts) j [])
    all r' zero text last after inside same = last ∙ same
    all r' (suc k) text last after inside same =
        ap (final (suc (length ts)) r') (omega arith) ∙ after k (omega arith)
