-- ===== src/Shell/Loop.antt =====
-- Commands with the prefix `loop`.
use cs537_sp23_operating_sys.Common.{
  ℕ, List, Bool, [], negsuc, pos, refl, suc, true, zero, ℤ, ◌++◌, ◌∷◌, ◌≡◌, ◌≢◌, ◌⊎◌, Bool-cases,
  arith, false, inl, inr, length, ltb, same_text, same_text→eq, ◌==◌,
}
use cs537_sp23_operating_sys.Shell.{
  Event, error_message, exit_name, loop_name, execute, repeat, run_command,
}

abbrev pub times : ℕ → List Event → List Event
times zero events = []
times (suc n) events = events ++ times n events

has_args : (args : List (List ℕ)) → args ≢ [] → (length args == 0) ≡ false
has_args [] h = absurd (h refl)
has_args (a ∷ args) h = ground arith

kept :
    (program : List ℕ) (args : List (List ℕ))
    → program ≡ exit_name
    → (program ≢ exit_name) ⊎ (args ≢ [])
    → args ≢ []
kept program args e (inl other) = absurd (other e)
kept program args e (inr more) = more

module _ (access : List ℕ → Bool) (piped forked : ℕ → Bool) where
  repeat-times :
      (n : ℕ) (args : List (List ℕ))
      → (execute access piped forked args).1 ≡ true
      → repeat access piped forked n args ≡ (times n (execute access piped forked args).0, true)
  unfolding repeat
  repeat-times zero args h = refl
  repeat-times (suc n) args h = let rest = repeat-times n args h in rw (h, rest, repeat) refl

  execute-goes_on :
      (program : List ℕ) (args : List (List ℕ))
      → (program ≢ exit_name) ⊎ (args ≢ [])
      → (execute access piped forked (program ∷ args)).1 ≡ true
  unfolding execute
  execute-goes_on program args h = elim (Bool-cases (same_text program exit_name)) [
    | inl exits ↦
        let more : (length args == 0) ≡ false =
          has_args args (kept program args (same_text→eq program exit_name exits) h) in
        rw (exits, more, execute) refl
    | inr other ↦ elim (Bool-cases (same_text program (99 ∷ 100 ∷ []))) [
      | inl cd ↦ rw (other, cd, execute) refl
      | inr no_cd ↦ elim (Bool-cases (same_text program (112 ∷ 119 ∷ 100 ∷ []))) [
        | inl pwd ↦ rw (other, no_cd, pwd, execute) refl
        | inr no_pwd ↦ rw (other, no_cd, no_pwd, execute) refl
      ]
    ]
  ]

  -- The runs of a command under a count.
  abbrev pub counted : ℤ → List (List ℕ) → List Event × Bool
  counted (pos zero) cmd = (error_message ∷ [], true)
  counted (pos (suc n)) cmd = (times (suc n) (execute access piped forked cmd).0, true)
  counted (negsuc n) cmd = ([], true)

  module _ (atoi : List ℕ → ℤ) where
    -- A command other than a plain `exit`, under `loop` with a count from 1 on, does that many times what
    -- one run of it does, if pipe and fork answer alike in all runs, and the shell goes on; under a count
    -- of 0 there is one error message, and under a negative count nothing happens.
    pub run_command_loop :
        (count : List ℕ) (program : List ℕ) (args : List (List ℕ))
        → (program ≢ exit_name) ⊎ (args ≢ [])
        → run_command access piped forked atoi (loop_name ∷ count ∷ program ∷ args)
          ≡ counted (atoi count) (program ∷ args)
    unfolding run_command
    run_command_loop count program args h =
        let enough : ltb (length (loop_name ∷ count ∷ program ∷ args)) 3 ≡ false = ground arith in
        rw enough (go (atoi count))
      where
        go :
            (z : ℤ)
            → elim z [
              | pos zero ↦ (error_message ∷ [], true)
              | pos (suc n) ↦ repeat access piped forked (suc n) (program ∷ args)
              | negsuc n ↦ ([], true)
            ]
              ≡ counted z (program ∷ args)
        go (pos zero) = refl
        go (pos (suc n)) = repeat-times (suc n) (program ∷ args) (execute-goes_on program args h)
        go (negsuc n) = refl
