-- ===== src/Shell/Tests.antt =====
-- Runs of the shell on concrete lines.
use cs537_sp23_operating_sys.Common.{
  ℕ, List, All, Option, [], get_elem?, length, none, pos, refl, some, true, ◌+◌, ◌∷◌, ◌≡◌, ◌≢◌, ◌≤◌,
  ◌⊎◌,
}
use cs537_sp23_operating_sys.Shell.{
  bar, greater, num_pipes, split_pipes, redirect_idx, redirect, launch_from, execute, repeat,
  squeeze, strip, squeeze_from, run_command, run_line, run_parts, run_part, copies, print_dir,
}
use cs537_sp23_operating_sys.Shell.Words.{words, is_tight, squeeze_lem}
use cs537_sp23_operating_sys.Shell.Pipelines.{join, NoBar, split_pipes_lem}
use cs537_sp23_operating_sys.Shell.Launch.{child, IsReady, launch_from_lem}

abbrev ls : List ℕ
ls = 108 ∷ 115 ∷ []

abbrev cat : List ℕ
cat = 99 ∷ 97 ∷ 116 ∷ []

abbrev out_file : List ℕ
out_file = 102 ∷ []

abbrev pwd : List ℕ
pwd = 112 ∷ 119 ∷ 100 ∷ []

-- `ls | cat > f`
abbrev pipeline : List (List ℕ)
pipeline = ls ∷ bar ∷ cat ∷ greater ∷ out_file ∷ []

abbrev spaced : List ℕ
spaced = 32 ∷ 108 ∷ 115 ∷ 32 ∷ 9 ∷ 102 ∷ 32 ∷ []

squeezed : squeeze spaced ≡ some (108 ∷ 115 ∷ 32 ∷ 102 ∷ [])
unfolding squeeze_from strip
squeezed = refl

squeeze_lem_example :
    ((words spaced ≡ []) × (squeeze spaced ≡ none))
    ⊎ ((t : List ℕ) × (squeeze spaced ≡ some t)
        × (words t ≡ words spaced)
        × (is_tight true t ≡ true)
        × (words spaced ≢ [])
        × (length t ≤ length spaced))
squeeze_lem_example = squeeze_lem spaced

split_pipes_lem_example :
    (join (split_pipes [] pipeline) ≡ pipeline)
    × All NoBar (split_pipes [] pipeline)
    × (length (split_pipes [] pipeline) ≡ num_pipes pipeline + 1)
split_pipes_lem_example = split_pipes_lem pipeline

all-IsReady : All (IsReady (λ name. true) (λ i. true) (λ i. true)) (split_pipes [] pipeline)
unfolding split_pipes redirect redirect_idx
all-IsReady = (
  (ls ∷ [], none, ((λ e. cc), refl, refl)),
  ((cat ∷ [], some out_file, ((λ e. cc), refl, refl)), tt),
)

launch_from_lem_example :
    (length (
        launch_from
          (λ name. true)
          (λ i. true)
          (λ i. true)
          (num_pipes pipeline)
          0
          (split_pipes [] pipeline))
      ≡ num_pipes pipeline + 1)
    × ((j : ℕ) (cmd args : List (List ℕ)) (file : Option (List ℕ))
        → get_elem? (split_pipes [] pipeline) j ≡ some cmd
        → redirect cmd ≡ some (args, file)
        → get_elem?
            (launch_from
              (λ name. true)
              (λ i. true)
              (λ i. true)
              (num_pipes pipeline)
              0
              (split_pipes [] pipeline))
            j
          ≡ some (child (num_pipes pipeline) j args file))
launch_from_lem_example =
    launch_from_lem (λ name. true) (λ i. true) (λ i. true) (λ i. refl) (λ i. refl) pipeline
      all-IsReady

pwd_line :
    run_line
      (λ name. true)
      (λ i. true)
      (λ i. true)
      (λ t. pos 1)
      (λ separators t. t ∷ [])
      (λ t. some t)
      pwd
    ≡ (print_dir ∷ [], true)
unfolding run_line run_parts run_part run_command repeat execute squeeze_from strip copies
pwd_line = refl
