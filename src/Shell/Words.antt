-- ===== src/Shell/Words.antt =====
-- The white space of a command, and its words.
use cs537_sp23_operating_sys.Common.{
  ℕ, List, Bool, Bool-cases, [], ap, arith, false, inl, inr, length, not, refl, true, ◌&&◌, ◌++◌,
  ◌||◌, ◌∷◌, ◌≡◌, ◌≤◌, append-nil, sym, ◌∙◌, ◌⊎◌, if◌then◌else◌, none, some, ◌≢◌,
}
use cs537_sp23_operating_sys.Shell.{is_space, squeeze_from, strip, squeeze}

-- A word that has come to its end.
abbrev pub flush : List ℕ → List (List ℕ)
flush [] = []
flush (c ∷ cs) = (c ∷ cs) ∷ []

-- The words between white space; `w` is the start of the first one.
pub words_from : List ℕ → List ℕ → List (List ℕ)
words_from w [] = flush w
words_from w (c ∷ cs) = elim (is_space c) [
  | true ↦ flush w ++ words_from [] cs
  | false ↦ words_from (w ++ (c ∷ [])) cs
]

abbrev pub words : List ℕ → List (List ℕ)
words cs = words_from [] cs

List-cases : (l : List ℕ) → (l ≡ []) ⊎ ((d : ℕ) × (ds : List ℕ) × (l ≡ d ∷ ds))
List-cases [] = inl refl
List-cases (d ∷ ds) = inr (d, ds, refl)

words_from_space :
    (w : List ℕ) (c : ℕ) (cs : List ℕ)
    → is_space c ≡ true
    → words_from w (c ∷ cs) ≡ flush w ++ words_from [] cs
unfolding words_from
words_from_space w c cs h = rw (h, words_from) refl

words_from_letter :
    (w : List ℕ) (c : ℕ) (cs : List ℕ)
    → is_space c ≡ false
    → words_from w (c ∷ cs) ≡ words_from (w ++ (c ∷ [])) cs
unfolding words_from
words_from_letter w c cs h = rw (h, words_from) refl

-- White space at the end belongs to no word.
words_from_ends :
    (w : List ℕ) (c : ℕ) (cs : List ℕ)
    → ((v : List ℕ) → flush v ≡ words_from v cs)
    → words_from w (if is_space c then [] else c ∷ []) ≡ words_from w (c ∷ cs)
unfolding words_from
words_from_ends w c cs ends = elim (Bool-cases (is_space c)) [
  | inl space ↦
      let cut : (if is_space c then [] else c ∷ []) ≡ [] = rw space refl in
      ap (words_from w) cut
      ∙ sym (append-nil (flush w))
      ∙ ap (λ l. flush w ++ l) (ends [])
      ∙ sym (words_from_space w c cs space)
  | inr letter ↦
      let kept : (if is_space c then [] else c ∷ []) ≡ c ∷ [] = rw letter refl in
      ap (words_from w) kept
      ∙ words_from_letter w c [] letter
      ∙ ends (w ++ (c ∷ []))
      ∙ sym (words_from_letter w c cs letter)
]

words_from-cons :
    (w : List ℕ) (c : ℕ) (cs ds : List ℕ)
    → ((v : List ℕ) → words_from v cs ≡ words_from v ds)
    → words_from w (c ∷ cs) ≡ words_from w (c ∷ ds)
words_from-cons w c cs ds same = elim (Bool-cases (is_space c)) [
  | inl space ↦
      words_from_space w c cs space
      ∙ ap (λ l. flush w ++ l) (same [])
      ∙ sym (words_from_space w c ds space)
  | inr letter ↦
      words_from_letter w c cs letter ∙ same (w ++ (c ∷ [])) ∙ sym (words_from_letter w c ds letter)
]

words_from-strip : (w cs : List ℕ) → words_from w (strip cs) ≡ words_from w cs
unfolding strip words_from
words_from-strip w [] = refl
words_from-strip w (c ∷ cs) = elim (List-cases (strip cs)) [
  | inl none_left ↦
      let cut : strip (c ∷ cs) ≡ (if is_space c then [] else c ∷ []) = rw (none_left, strip) refl in
      ap (words_from w) cut
      ∙ words_from_ends w c cs (λ v. ap (words_from v) (sym none_left) ∙ words_from-strip v cs)
  | inr (d, ds, left) ↦
      let kept : strip (c ∷ cs) ≡ c ∷ strip cs = rw (left, strip) refl in
      ap (words_from w) kept ∙ words_from-cons w c (strip cs) cs (λ v. words_from-strip v cs)
]

words_from-squeeze_from :
    (prev all : Bool) (w cs : List ℕ)
    → (prev || all ≡ true → w ≡ [])
    → words_from w (squeeze_from prev all cs) ≡ words_from w cs
unfolding squeeze_from words_from
words_from-squeeze_from prev all w [] h = refl
words_from-squeeze_from prev all w (c ∷ cs) h =
    let next = squeeze_from true all cs in
    let rest = words_from-squeeze_from true all [] cs (λ e. refl) in
    elim (Bool-cases (is_space c)) [
      | inl space ↦ elim (Bool-cases (not all && not prev)) [
        | inl write ↦
            let eq : squeeze_from prev all (c ∷ cs) ≡ c ∷ next =
              rw (space, write, squeeze_from) refl in
            ap (words_from w) eq
            ∙ words_from_space w c next space
            ∙ ap (λ l. flush w ++ l) rest
            ∙ sym (words_from_space w c cs space)
        | inr skip ↦
            let eq : squeeze_from prev all (c ∷ cs) ≡ next = rw (space, skip, squeeze_from) refl in
            let start : w ≡ [] = h (ground arith) in
            ap (words_from w) eq
            ∙ ap (λ v. words_from v next) start
            ∙ rest
            ∙ ap (λ v. flush v ++ words_from [] cs) (sym start)
            ∙ sym (words_from_space w c cs space)
      ]
      | inr letter ↦
          let eq : squeeze_from prev all (c ∷ cs) ≡ c ∷ squeeze_from false false cs =
            rw (letter, squeeze_from) refl in
          ap (words_from w) eq
          ∙ words_from_letter w c (squeeze_from false false cs) letter
          ∙ words_from-squeeze_from false false (w ++ (c ∷ [])) cs (λ e. cc)
          ∙ sym (words_from_letter w c cs letter)
    ]

length-squeeze_from :
    (prev all : Bool) (cs : List ℕ) → length (squeeze_from prev all cs) ≤ length cs
unfolding squeeze_from
length-squeeze_from prev all [] = omega arith
length-squeeze_from prev all (c ∷ cs) = elim (Bool-cases (is_space c)) [
  | inl space ↦ rw (space, squeeze_from) (ground (arith, length-squeeze_from true all cs))
  | inr letter ↦ rw (letter, squeeze_from) (omega (arith, length-squeeze_from false false cs))
]

length-strip : (cs : List ℕ) → length (strip cs) ≤ length cs
unfolding strip
length-strip [] = omega arith
length-strip (c ∷ cs) = elim (List-cases (strip cs)) [
  | inl none_left ↦ rw (none_left, strip) (ground arith)
  | inr (d, ds, left) ↦
      let kept : strip (c ∷ cs) ≡ c ∷ strip cs = rw (left, strip) refl in
      rw kept (omega (arith, length-strip cs))
]

words_from_started : (a : ℕ) (w cs : List ℕ) → words_from (a ∷ w) cs ≢ []
unfolding words_from
words_from_started a w [] h = cc
words_from_started a w (c ∷ cs) h = elim (Bool-cases (is_space c)) [
  | inl space ↦ let e = sym (words_from_space (a ∷ w) c cs space) ∙ h in cc
  | inr letter ↦
      words_from_started a (w ++ (c ∷ [])) cs (sym (words_from_letter (a ∷ w) c cs letter) ∙ h)
]

append_empty : (w : List ℕ) (xs : List (List ℕ)) → flush w ++ xs ≡ [] → xs ≡ []
append_empty [] xs h = h
append_empty (a ∷ w) xs h = cc

added_started : (w : List ℕ) (c : ℕ) (cs : List ℕ) → words_from (w ++ (c ∷ [])) cs ≢ []
added_started [] c cs = words_from_started c [] cs
added_started (a ∷ w) c cs = words_from_started a (w ++ (c ∷ [])) cs

strip_no_words : (w cs : List ℕ) → words_from w cs ≡ [] → strip cs ≡ []
unfolding strip
strip_no_words w [] h = refl
strip_no_words w (c ∷ cs) h = elim (Bool-cases (is_space c)) [
  | inl space ↦
      let rest =
        strip_no_words [] cs (append_empty w _ (sym (words_from_space w c cs space) ∙ h)) in
      rw (rest, space, strip) refl
  | inr letter ↦ absurd (added_started w c cs (sym (words_from_letter w c cs letter) ∙ h))
]

no_words : words [] ≡ []
unfolding words_from
no_words = refl

-- White space stands only single and only between other bytes; `prev` tells that the text follows a white
-- space.
pub is_tight : Bool → List ℕ → Bool
is_tight prev [] = not prev
is_tight prev (c ∷ cs) = if is_space c then not prev && is_tight true cs else is_tight false cs

-- The same without the condition on the end.
is_spaced : Bool → List ℕ → Bool
is_spaced prev [] = true
is_spaced prev (c ∷ cs) = if is_space c then not prev && is_spaced true cs else is_spaced false cs

squeeze_from-spaced :
    (prev all : Bool) (cs : List ℕ) → is_spaced (prev || all) (squeeze_from prev all cs) ≡ true
unfolding squeeze_from is_spaced
squeeze_from-spaced prev all [] = refl
squeeze_from-spaced prev all (c ∷ cs) =
    let rest : is_spaced true (squeeze_from true all cs) ≡ true = squeeze_from-spaced true all cs in
    elim (Bool-cases (is_space c)) [
      | inl space ↦ elim (Bool-cases (not all && not prev)) [
        | inl write ↦
            let free : (prev || all) ≡ false = ground arith in
            rw (space, write, squeeze_from, free, is_spaced, space) rest
        | inr skip ↦
            let behind : (prev || all) ≡ true = ground arith in
            rw (space, skip, squeeze_from, behind) rest
      ]
      | inr letter ↦
          rw (letter, squeeze_from, is_spaced, letter) (squeeze_from-spaced false false cs)
    ]

strip-tight :
    (prev : Bool) (cs : List ℕ)
    → is_spaced prev cs ≡ true
    → strip cs ≢ []
    → is_tight prev (strip cs) ≡ true
unfolding strip is_tight is_spaced
strip-tight prev [] h some_left = absurd (some_left refl)
strip-tight prev (c ∷ cs) h some_left = elim (List-cases (strip cs)) [
  | inl none_left ↦
      let cut : strip (c ∷ cs) ≡ (if is_space c then [] else c ∷ []) = rw (none_left, strip) refl in
      elim (Bool-cases (is_space c)) [
        | inl space ↦ absurd (some_left (cut ∙ rw space refl))
        | inr letter ↦
            let one : strip (c ∷ cs) ≡ c ∷ [] = cut ∙ rw letter refl in
            rw (one, is_tight, letter) refl
      ]
  | inr (d, ds, left) ↦
      let kept : strip (c ∷ cs) ≡ c ∷ strip cs = rw (left, strip) refl in
      let more : strip cs ≢ [] = λ e. cc in
      elim (Bool-cases (is_space c)) [
        | inl space ↦
            let tail : is_spaced true cs ≡ true = ground (arith, h, space) in
            let free : prev ≡ false = ground (arith, h, space) in
            ap (is_tight prev) kept ∙ rw (is_tight, space, free) (strip-tight true cs tail more)
        | inr letter ↦
            let tail : is_spaced false cs ≡ true = ground (arith, h, letter) in
            ap (is_tight prev) kept ∙ rw (is_tight, letter) (strip-tight false cs tail more)
      ]
]

-- A command that has a word is squeezed to a text with the same words, in which white space stands only
-- between words and only one byte of it; the text is not longer than the command. Of any other command the
-- shell reads a byte in front of its copy.
pub squeeze_lem :
    (cmd : List ℕ)
    → ((words cmd ≡ []) × (squeeze cmd ≡ none))
      ⊎ ((t : List ℕ) × (squeeze cmd ≡ some t)
          × (words t ≡ words cmd)
          × (is_tight true t ≡ true)
          × (words cmd ≢ [])
          × (length t ≤ length cmd))
squeeze_lem cmd =
    let copied = squeeze_from false true cmd in
    let same : words (strip copied) ≡ words cmd =
      words_from-strip [] copied ∙ words_from-squeeze_from false true [] cmd (λ e. refl) in
    elim (List-cases (strip copied)) [
      | inl none_left ↦ inl (sym same ∙ ap words none_left ∙ no_words, rw (none_left, squeeze) refl)
      | inr (d, ds, left) ↦
          let some_word : words cmd ≢ [] = λ e.
            let gone = strip_no_words [] copied (sym (words_from-strip [] copied) ∙ same ∙ e) in
            cc in
          inr (
            strip copied,
            rw (left, squeeze) refl,
            same,
            strip-tight true copied (squeeze_from-spaced false true cmd) (λ e. cc),
            some_word,
            omega (arith, length-strip copied, length-squeeze_from false true cmd),
          )
    ]
