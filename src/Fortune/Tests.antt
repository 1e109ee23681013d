-- ===== src/Fortune/Tests.antt =====
-- Runs of the fortune teller.
use cs537_sp23_operating_sys.Common.{
  ℕ, All, List, [], arith, none, pos, refl, true, ℤ, ◌-◌, ◌∷◌, ◌≡◌,
}
use cs537_sp23_operating_sys.Fortune.{prints, fortune}
use cs537_sp23_operating_sys.Fortune.Options.{Call, Chosen, nothing_chosen, handle_options}
use cs537_sp23_operating_sys.Fortune.Options.Choices.{Settled, handle_options-Settled}
use cs537_sp23_operating_sys.Fortune.Texts.{tell}
use cs537_sp23_operating_sys.Fortune.Texts.Lines.{joined, Fits}
use cs537_sp23_operating_sys.Fortune.Texts.Numbers.{file_of, tell-prints}

-- The number of a text of one first_digit.
abbrev first_digit : List ℕ → ℤ
first_digit [] = pos 0
first_digit (c ∷ cs) = pos (c - 48)

-- Two fortunes: "hi" and "yo" in two lines, and "ok".
abbrev first : List (List ℕ)
first = (104 ∷ 105 ∷ []) ∷ (121 ∷ 111 ∷ []) ∷ []

abbrev second : List (List ℕ)
second = (111 ∷ 107 ∷ []) ∷ []

both-Fits : All (Fits 10) (first ∷ second ∷ [])
unfolding joined
both-Fits = (
  (
    (
      (((refl, refl), ((refl, refl), tt)), omega arith, λ e. cc),
      ((((refl, refl), ((refl, refl), tt)), omega arith, λ e. cc), tt),
    ),
    omega arith,
  ),
  ((((((refl, refl), ((refl, refl), tt)), omega arith, λ e. cc), tt), omega arith), tt),
)

abbrev asked : Chosen
asked = record nothing_chosen { is_n = true; n = pos 2 }

-- The numbers in front are 2 and 9.
tell-prints_example :
    tell first_digit (λ i. []) asked (file_of (50 ∷ []) (57 ∷ []) (first ∷ second ∷ []))
    ≡ prints none (fortune (joined second) ∷ [])
tell-prints_example =
    tell-prints first_digit (λ i. []) asked (50 ∷ []) (57 ∷ []) first (second ∷ []) 1
      (((refl, refl), tt), omega arith) (((refl, refl), tt), omega arith) refl both-Fits refl refl
      (omega arith)

abbrev number_option : Call
number_option = record { opt = 110; optarg = 50 ∷ []; optopt = 0; optind = 3 }

handle_options-Settled_example :
    Settled
      (handle_options (λ f. none) (λ f. true) first_digit none (number_option ∷ []) nothing_chosen)
handle_options-Settled_example =
    handle_options-Settled (λ f. none) (λ f. true) first_digit none (number_option ∷ [])
