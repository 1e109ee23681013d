-- ===== src/User/Format.antt =====
-- `printf` on a text whose `%` are doubled.
use cs537_sp23_operating_sys.Common.{
  ℕ, List, ==→eq, Bool-cases, [], ap, if◌then◌else◌, inl, inr, refl, sym, ◌==◌, ◌∙◌, ◌∷◌, ◌≡◌,
}
use cs537_sp23_operating_sys.User.{printf_from, printf}

-- `s` with each `%` doubled.
abbrev pub quote : List ℕ → List ℕ
quote [] = []
quote (c ∷ s) = if c == 37 then 37 ∷ 37 ∷ quote s else c ∷ quote s

-- `printf` of a text with each `%` doubled prints the text, whatever the arguments are.
pub printf-quote : (text : ℕ → List ℕ) (s : List ℕ) (ap : ℕ → ℕ) → printf text (quote s) ap ≡ s
unfolding printf_from
printf-quote text [] args = refl
printf-quote text (c ∷ s) args = elim (Bool-cases (c == 37)) [
  | inl percent ↦
      rw percent
        (ap (λ xs. 37 ∷ xs) (printf-quote text s args) ∙ ap (λ x. x ∷ s) (sym (==→eq c 37 percent)))
  | inr other ↦ rw (other, other) (ap (λ xs. c ∷ xs) (printf-quote text s args))
]
