-- ===== src/Fs/Paths/Elements.antt =====
-- A path is followed by its elements, the parts between slashes.
use mathlib.Core.Path.{subst}
use cs537_sp23_operating_sys.Common.{
  ℕ, List, Bool-cases, [], ap, append-nil, append_assoc, arith, false, inl, inr, length, refl, sym,
  true, ◌++◌, ◌==◌, ◌∙◌, ◌∷◌, ◌≡◌, ◌≤◌, Option, none, some, ◌<◌, ◌≢◌, ◌⊎◌, Bool, suc, zero, ◌&&◌,
  Option-cases,
}
use cs537_sp23_operating_sys.Fs.{Run, panics, waits, returns, ◌>>=◌, Fs}
use cs537_sp23_operating_sys.Fs.Directories.{Name}
use cs537_sp23_operating_sys.Fs.Paths.{
  skip_slashes, first_part, copy_name, skipelem, Step, stop, next, visit, arrive, walk, resume,
}

abbrev pub flush : List ℕ → List (List ℕ)
flush [] = []
flush (c ∷ cs) = (c ∷ cs) ∷ []

-- The parts between slashes; `w` is the start of the first one.
pub elements_from : List ℕ → List ℕ → List (List ℕ)
elements_from w [] = flush w
elements_from w (c ∷ path) = elim (c == 47) [
  | true ↦ flush w ++ elements_from [] path
  | false ↦ elements_from (w ++ (c ∷ [])) path
]

abbrev pub elements : List ℕ → List (List ℕ)
elements path = elements_from [] path

elements_from_slash :
    (w : List ℕ) (c : ℕ) (path : List ℕ)
    → (c == 47) ≡ true
    → elements_from w (c ∷ path) ≡ flush w ++ elements path
unfolding elements_from
elements_from_slash w c path h = rw (h, elements_from) refl

elements_from_letter :
    (w : List ℕ) (c : ℕ) (path : List ℕ)
    → (c == 47) ≡ false
    → elements_from w (c ∷ path) ≡ elements_from (w ++ (c ∷ [])) path
unfolding elements_from
elements_from_letter w c path h = rw (h, elements_from) refl

elements-skip_slashes : (path : List ℕ) → elements (skip_slashes path) ≡ elements path
unfolding skip_slashes
elements-skip_slashes [] = refl
elements-skip_slashes (c ∷ path) = elim (Bool-cases (c == 47)) [
  | inl slash ↦
      let cut : skip_slashes (c ∷ path) ≡ skip_slashes path = rw (slash, skip_slashes) refl in
      ap elements cut ∙ elements-skip_slashes path ∙ sym (elements_from_slash [] c path slash)
  | inr letter ↦ rw (letter, skip_slashes) refl
]

elements_from-first_part :
    (w path : List ℕ)
    → elements_from w path ≡ flush (w ++ (first_part path).0) ++ elements (first_part path).1
unfolding first_part elements_from
elements_from-first_part w [] = ap flush (sym (append-nil w)) ∙ sym (append-nil (flush (w ++ [])))
elements_from-first_part w (c ∷ path) = elim (Bool-cases (c == 47)) [
  | inl slash ↦
      let whole : first_part (c ∷ path) ≡ ([], c ∷ path) = rw (slash, first_part) refl in
      elements_from_slash w c path slash
      ∙ ap (λ l. flush w ++ l) (sym (elements_from_slash [] c path slash))
      ∙ ap (λ v. flush v ++ elements (c ∷ path)) (sym (append-nil w))
      ∙ ap (λ (q : List ℕ × List ℕ). flush (w ++ q.0) ++ elements q.1) (sym whole)
  | inr letter ↦
      let rest = first_part path in
      let whole : first_part (c ∷ path) ≡ (c ∷ rest.0, rest.1) = rw (letter, first_part) refl in
      elements_from_letter w c path letter
      ∙ elements_from-first_part (w ++ (c ∷ [])) path
      ∙ ap (λ v. flush v ++ elements rest.1) (append_assoc w (c ∷ []) rest.0)
      ∙ ap (λ (q : List ℕ × List ℕ). flush (w ++ q.0) ++ elements q.1) (sym whole)
]

length-skip_slashes : (path : List ℕ) → length (skip_slashes path) ≤ length path
unfolding skip_slashes
length-skip_slashes [] = omega arith
length-skip_slashes (c ∷ path) = elim (Bool-cases (c == 47)) [
  | inl slash ↦ rw (slash, skip_slashes) (omega (arith, length-skip_slashes path))
  | inr letter ↦ rw (letter, skip_slashes) (omega arith)
]

length-first_part : (path : List ℕ) → length (first_part path).1 ≤ length path
unfolding first_part
length-first_part [] = omega arith
length-first_part (c ∷ path) = elim (Bool-cases (c == 47)) [
  | inl slash ↦ rw (slash, first_part) (omega arith)
  | inr letter ↦ rw (letter, first_part) (omega (arith, length-first_part path))
]

skip_slashes_start :
    (path : List ℕ) (c : ℕ) (rest : List ℕ) → skip_slashes path ≡ c ∷ rest → (c == 47) ≡ false
unfolding skip_slashes
skip_slashes_start [] c rest h = cc
skip_slashes_start (d ∷ path) c rest h = elim (Bool-cases (d == 47)) [
  | inl slash ↦
      let cut : skip_slashes (d ∷ path) ≡ skip_slashes path = rw (slash, skip_slashes) refl in
      skip_slashes_start path c rest (sym cut ∙ h)
  | inr letter ↦
      let kept : skip_slashes (d ∷ path) ≡ d ∷ path = rw (letter, skip_slashes) refl in
      let same : d ≡ c = cc in ap (λ x. x == 47) (sym same) ∙ letter
]

-- The element of a path in front, copied into the array `name`, and the path behind it: none only where there
-- is no element.
pub NextSpec : List ℕ → Name → Option (List ℕ × Name) → Type 0
NextSpec path name none = elements path ≡ []
NextSpec path name (some (rest, found)) =
    (e : List ℕ) × (e ≢ [])
    × (elements path ≡ e ∷ elements rest)
    × (found ≡ copy_name e name)
    × (skip_slashes rest ≡ rest)
    × (length rest < length path)

skip_slashes_twice : (path : List ℕ) → skip_slashes (skip_slashes path) ≡ skip_slashes path
unfolding skip_slashes
skip_slashes_twice [] = refl
skip_slashes_twice (c ∷ path) = elim (Bool-cases (c == 47)) [
  | inl slash ↦
      let cut : skip_slashes (c ∷ path) ≡ skip_slashes path = rw (slash, skip_slashes) refl in
      ap skip_slashes cut ∙ skip_slashes_twice path ∙ sym cut
  | inr letter ↦
      let kept : skip_slashes (c ∷ path) ≡ c ∷ path = rw (letter, skip_slashes) refl in
      ap skip_slashes kept
]

List-cases {ℓ} : {A : Type ℓ} (l : List A) → (l ≡ []) ⊎ ((d : A) × (ds : List A) × (l ≡ d ∷ ds))
List-cases [] = inl refl
List-cases (d ∷ ds) = inr (d, ds, refl)

elements_nil : elements [] ≡ []
unfolding elements_from
elements_nil = refl

pub skipelem-NextSpec : (path : List ℕ) (name : Name) → NextSpec path name (skipelem path name)
unfolding skipelem NextSpec first_part
skipelem-NextSpec path name = elim (List-cases (skip_slashes path)) [
  | inl none_left ↦
      let found : skipelem path name ≡ none = rw (none_left, skipelem) refl in
      subst (NextSpec path name) (sym found)
        (sym (elements-skip_slashes path) ∙ ap elements none_left ∙ elements_nil)
  | inr (c, rest, left) ↦
      let letter = skip_slashes_start path c rest left in
      let parts = first_part (c ∷ rest) in
      let tail = first_part rest in
      let cut : parts ≡ (c ∷ tail.0, tail.1) = rw (letter, first_part) refl in
      let found : skipelem path name ≡ some (skip_slashes parts.1, copy_name parts.0 name) =
        rw (left, skipelem) refl in
      let full : flush parts.0 ≡ parts.0 ∷ [] =
        subst (λ (q : List ℕ × List ℕ). flush q.0 ≡ q.0 ∷ []) (sym cut) refl in
      let some_name : parts.0 ≢ [] =
        subst (λ (q : List ℕ × List ℕ). q.0 ≢ []) (sym cut) (λ e. cc) in
      let shorter : length parts.1 ≤ length rest =
        subst (λ (q : List ℕ × List ℕ). length q.1 ≤ length rest) (sym cut)
          (length-first_part rest) in
      let size : length (c ∷ rest) ≤ length path =
        subst (λ l. length l ≤ length path) left (length-skip_slashes path) in
      subst (NextSpec path name) (sym found) (
        parts.0,
        some_name,
        sym (elements-skip_slashes path)
            ∙ ap elements left
            ∙ elements_from-first_part [] (c ∷ rest)
            ∙ ap (λ l. l ++ elements parts.1) full
            ∙ ap (λ l. parts.0 ∷ l) (sym (elements-skip_slashes parts.1)),
        refl,
        skip_slashes_twice parts.1,
        omega (arith, length-skip_slashes parts.1),
      )
]

is_nil : List (List ℕ) → Bool
is_nil [] = true
is_nil (e ∷ es) = false

started : (a : ℕ) (w path : List ℕ) → elements_from (a ∷ w) path ≢ []
unfolding elements_from
started a w [] h = cc
started a w (c ∷ path) h = elim (Bool-cases (c == 47)) [
  | inl slash ↦ let e = sym (elements_from_slash (a ∷ w) c path slash) ∙ h in cc
  | inr letter ↦
      started a (w ++ (c ∷ [])) path (sym (elements_from_letter (a ∷ w) c path letter) ∙ h)
]

not_empty : (c : ℕ) (path : List ℕ) → (length (c ∷ path) == 0) ≡ false
not_empty c path = ground arith

-- A path without a slash in front is empty exactly if it has no element.
no_more : (path : List ℕ) → skip_slashes path ≡ path → (length path == 0) ≡ is_nil (elements path)
unfolding is_nil elements_from
no_more [] h = refl
no_more (c ∷ path) h =
    let letter = skip_slashes_start (c ∷ path) c path h in
    let more : elements (c ∷ path) ≡ elements_from (c ∷ []) path =
      elements_from_letter [] c path letter in
    elim (List-cases (elements (c ∷ path))) [
      | inl nothing ↦ absurd (started c [] path (sym more ∙ nothing))
      | inr (d, ds, some_left) ↦ not_empty c path ∙ ap is_nil (sym some_left)
    ]

-- The loop of `namex` over the elements of a path.
pub follow : Bool → List (List ℕ) → Name → ℕ → Fs → Run (Option (ℕ × Name) × Fs)
follow parent [] name ip s = arrive parent name ip s
follow parent (e ∷ es) name ip s = visit (parent && is_nil es) (copy_name e name) ip s >>= λ v.
    resume (λ ip' t. follow parent es (copy_name e name) ip' t) v

bind-resume :
    (c : Run (Step × Fs)) (f g : ℕ → Fs → Run (Option (ℕ × Name) × Fs))
    → ((ip : ℕ) (t : Fs) → f ip t ≡ g ip t)
    → (c >>= λ v. resume f v) ≡ (c >>= λ v. resume g v)
bind-resume panics f g h = refl
bind-resume waits f g h = refl
bind-resume (returns (stop result, t)) f g h = refl
bind-resume (returns (next ip, t)) f g h = h ip t

-- `walk` comes to its end with fuel for the bytes of the path, and follows the elements of the path, one
-- directory for each.
pub walk-follow :
    (fuel : ℕ) (parent : Bool) (path : List ℕ) (name : Name) (ip : ℕ) (s : Fs)
    → length path < fuel
    → walk fuel parent path name ip s ≡ follow parent (elements path) name ip s
unfolding walk follow NextSpec
walk-follow zero parent path name ip s h = absurd (omega arith)
walk-follow (suc fuel) parent path name ip s h = elim (Option-cases (skipelem path name)) [
  | inl none_left ↦
      let no_element : NextSpec path name none =
        subst (NextSpec path name) none_left (skipelem-NextSpec path name) in
      let walked : walk (suc fuel) parent path name ip s ≡ arrive parent name ip s =
        rw (none_left, walk) refl in
      walked ∙ ap (λ es. follow parent es name ip s) (sym no_element)
  | inr ((rest, elem), found) ↦
      let (e, some_name, parts, copied, front, shorter) =
        subst (NextSpec path name) found (skipelem-NextSpec path name) in
      let walked : walk (suc fuel) parent path name ip s ≡ (
          visit (parent && (length rest == 0)) elem ip s >>= λ v.
          resume (λ ip' t. walk fuel parent rest elem ip' t) v) =
        rw (found, walk) refl in
      walked
      ∙ ap
          (λ b. visit (parent && b) elem ip s >>= λ v.
            resume (λ ip' t. walk fuel parent rest elem ip' t) v)
          (no_more rest front)
      ∙ ap
          (λ a. visit (parent && is_nil (elements rest)) a ip s >>= λ v.
            resume (λ ip' t. walk fuel parent rest a ip' t) v)
          copied
      ∙ bind-resume (visit (parent && is_nil (elements rest)) (copy_name e name) ip s)
          (λ ip' t. walk fuel parent rest (copy_name e name) ip' t)
          (λ ip' t. follow parent (elements rest) (copy_name e name) ip' t)
          (λ ip' t. walk-follow fuel parent rest (copy_name e name) ip' t (omega arith))
      ∙ ap (λ es. follow parent es name ip s) (sym parts)
]
