-- ===== src/Shell/Pipelines.antt =====
-- The commands of a pipeline: the arguments between the bars, the file of the output, and the pipes.
use cs537_sp23_operating_sys.Common.{
  ℕ, List, All, Bool-cases, [], ap, append-nil, append_assoc, arith, false, inl, inr, length, refl,
  same_text, same_text→eq, sym, ◌++◌, ◌+◌, ◌∙◌, ◌∷◌, ◌≡◌,
}
use cs537_sp23_operating_sys.Shell.{bar, num_pipes, split_pipes}

-- Commands with a bar between any two.
abbrev pub join : List (List (List ℕ)) → List (List ℕ)
join [] = []
join (cmd ∷ []) = cmd
join (cmd ∷ next ∷ cmds) = cmd ++ (bar ∷ join (next ∷ cmds))

-- No argument is a bar.
abbrev pub NoBar : List (List ℕ) → Type 0
NoBar args = All (λ a. same_text a bar ≡ false) args

split_pipes-cons :
    (cmd args : List (List ℕ))
    → (first : List (List ℕ)) × (rest : List (List (List ℕ))) × (split_pipes cmd args
        ≡ first ∷ rest)
unfolding split_pipes
split_pipes-cons cmd [] = (cmd, [], refl)
split_pipes-cons cmd (a ∷ args) = elim (Bool-cases (same_text a bar)) [
  | inl is_bar ↦ (cmd, split_pipes [] args, rw (is_bar, split_pipes) refl)
  | inr other ↦
      let (first, rest, e) = split_pipes-cons (cmd ++ (a ∷ [])) args in
      (first, rest, rw (other, split_pipes) e)
]

join-split_pipes : (cmd args : List (List ℕ)) → join (split_pipes cmd args) ≡ cmd ++ args
unfolding split_pipes
join-split_pipes cmd [] = sym (append-nil cmd)
join-split_pipes cmd (a ∷ args) = elim (Bool-cases (same_text a bar)) [
  | inl is_bar ↦
      let split : split_pipes cmd (a ∷ args) ≡ cmd ∷ split_pipes [] args =
        rw (is_bar, split_pipes) refl in
      let (first, rest, e) = split_pipes-cons [] args in
      let more : join (cmd ∷ split_pipes [] args) ≡ cmd ++ (bar ∷ join (split_pipes [] args)) =
        rw e refl in
      ap join split
      ∙ more
      ∙ ap (λ l. cmd ++ (bar ∷ l)) (join-split_pipes [] args)
      ∙ ap (λ b. cmd ++ (b ∷ args)) (sym (same_text→eq a bar is_bar))
  | inr other ↦
      let split : split_pipes cmd (a ∷ args) ≡ split_pipes (cmd ++ (a ∷ [])) args =
        rw (other, split_pipes) refl in
      ap join split ∙ join-split_pipes (cmd ++ (a ∷ [])) args ∙ append_assoc cmd (a ∷ []) args
]

NoBar-append :
    (cmd : List (List ℕ)) (a : List ℕ)
    → NoBar cmd
    → same_text a bar ≡ false
    → NoBar (cmd ++ (a ∷ []))
NoBar-append [] a h h' = (h', tt)
NoBar-append (c ∷ cmd) a h h' = (h.0, NoBar-append cmd a h.1 h')

split_pipes-NoBar : (cmd args : List (List ℕ)) → NoBar cmd → All NoBar (split_pipes cmd args)
unfolding split_pipes
split_pipes-NoBar cmd [] h = (h, tt)
split_pipes-NoBar cmd (a ∷ args) h = elim (Bool-cases (same_text a bar)) [
  | inl is_bar ↦ rw (is_bar, split_pipes) (h, split_pipes-NoBar [] args tt)
  | inr other ↦
      rw (other, split_pipes)
        (split_pipes-NoBar (cmd ++ (a ∷ [])) args (NoBar-append cmd a h other))
]

pub length-split_pipes :
    (cmd args : List (List ℕ)) → length (split_pipes cmd args) ≡ num_pipes args + 1
unfolding split_pipes num_pipes
length-split_pipes cmd [] = refl
length-split_pipes cmd (a ∷ args) = elim (Bool-cases (same_text a bar)) [
  | inl is_bar ↦ rw (is_bar, split_pipes, num_pipes) (omega (arith, length-split_pipes [] args))
  | inr other ↦
      rw (other, split_pipes, num_pipes) (omega (arith, length-split_pipes (cmd ++ (a ∷ [])) args))
]

-- The arguments of a line are cut at the bars: with bars between them the commands are the arguments
-- again, no command has a bar, and there is one command more than pipes.
pub split_pipes_lem :
    (args : List (List ℕ))
    → (join (split_pipes [] args) ≡ args)
      × All NoBar (split_pipes [] args)
      × (length (split_pipes [] args) ≡ num_pipes args + 1)
split_pipes_lem args =
    (join-split_pipes [] args, split_pipes-NoBar [] args tt, length-split_pipes [] args)
