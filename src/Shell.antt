-- ===== src/Shell.antt =====
-- The shell, P3_Unix_Shell/smash.c: what it does with a line, as the events it causes, in their order. Texts
-- are lists of bytes. Out of memory is an outcome of `strdup`; memory that is only freed is left out.
mod Words
mod Pipelines
mod Launch
mod Loop
mod Tests
use cs537_sp23_operating_sys.Common.{
  ℕ, Bool, List, Option, [], drop, false, get_or, if◌then◌else◌, length, ltb, negsuc, none, not,
  pos, same_text, some, suc, take, true, zero, ℤ, ◌&&◌, ◌++◌, ◌+◌, ◌-◌, ◌==◌, ◌||◌, ◌∷◌,
}

-- What the shell does: an error message, a `chdir` or a `getcwd` with its report, the end of the shell,
-- a child process with its arguments, the file of its output, and the pipes of its input and output, or a
-- read outside an array or of a variable that was never set.
pub data Event : Type 0 where
  error_message : Event
  change_dir : List ℕ → Event
  print_dir : Event
  end_shell : Event
  launch : List (List ℕ) → Option (List ℕ) → Option ℕ → Option ℕ → Event
  wild : Event

abbrev pub is_space : ℕ → Bool
is_space c = (c == 32) || (c == 9) || (c == 10)

-- The loop that copies a command without repeated white space: the bytes that it writes.
pub squeeze_from : Bool → Bool → List ℕ → List ℕ
squeeze_from prev_is_space all_space [] = []
squeeze_from prev_is_space all_space (c ∷ cs) = elim (is_space c) [
  | true ↦
      let rest = squeeze_from true all_space cs in
      if not all_space && not prev_is_space then c ∷ rest else rest
  | false ↦ c ∷ squeeze_from false false cs
]

-- A text without the white space at its end.
pub strip : List ℕ → List ℕ
strip [] = []
strip (c ∷ cs) = elim (strip cs) [
  | [] ↦ if is_space c then [] else c ∷ []
  | d ∷ rest ↦ c ∷ d ∷ rest
]

-- A command without superfluous white space; none is the read of `cmd[-1]`.
abbrev pub squeeze : List ℕ → Option (List ℕ)
squeeze cmd_string = elim (strip (squeeze_from false true cmd_string)) [
  | [] ↦ none
  | c ∷ cs ↦ some (c ∷ cs)
]

abbrev pub bar : List ℕ
bar = 124 ∷ []

abbrev pub greater : List ℕ
greater = 62 ∷ []

abbrev pub exit_name : List ℕ
exit_name = 101 ∷ 120 ∷ 105 ∷ 116 ∷ []

abbrev pub loop_name : List ℕ
loop_name = 108 ∷ 111 ∷ 111 ∷ 112 ∷ []

-- The number of arguments `|`.
pub num_pipes : List (List ℕ) → ℕ
num_pipes [] = 0
num_pipes (a ∷ args) = (if same_text a bar then 1 else 0) + num_pipes args

-- The commands between the arguments `|`; `pipe_cmd` is the one being filled.
pub split_pipes : List (List ℕ) → List (List ℕ) → List (List (List ℕ))
split_pipes pipe_cmd [] = pipe_cmd ∷ []
split_pipes pipe_cmd (a ∷ args) = elim (same_text a bar) [
  | true ↦ pipe_cmd ∷ split_pipes [] args
  | false ↦ split_pipes (pipe_cmd ++ (a ∷ [])) args
]

-- The place of the first `>`, from place `i` on.
pub redirect_idx : ℕ → List (List ℕ) → Option ℕ
redirect_idx i [] = none
redirect_idx i (a ∷ args) =
    let rest = redirect_idx (i + 1) args in if same_text a greater then some i else rest

-- The arguments and the file of the output; none is the error.
pub redirect : List (List ℕ) → Option (List (List ℕ) × Option (List ℕ))
redirect args = elim (redirect_idx 0 args) [
  | none ↦ some (args, none)
  | some i ↦
      if not (i + 2 == length args) || (i == 0) || same_text (get_or args (i + 1) []) greater
      then none
      else some (take i args, some (get_or args (i + 1) []))
]

-- The pipe that a child writes: the one behind it, unless it is the last one, or has a file, which takes the
-- place of the pipe.
abbrev pub output_pipe : ℕ → ℕ → Option (List ℕ) → Option ℕ
output_pipe pipes idx (some file) = none
output_pipe pipes idx none = if idx == pipes then none else some idx

-- `access` tells whether a file exists, `piped i` and `forked i` whether the call of `pipe` for pipe `i` and
-- of `fork` for command `i` of a pipeline succeeds.
module _ (access : List ℕ → Bool) (piped forked : ℕ → Bool) where
  -- The loop that makes the pipes, with `n` of them left from `i` on: its errors.
  pub make_pipes : ℕ → ℕ → List Event
  make_pipes zero i = []
  make_pipes (suc n) i =
      if piped i then make_pipes n (i + 1) else error_message ∷ make_pipes n (i + 1)

  -- A child whose pipe was not made duplicates a descriptor that was never set.
  abbrev pub has_pipes : ℕ → ℕ → Bool
  has_pipes pipes idx = ((idx == pipes) || piped idx) && ((idx == 0) || piped (idx - 1))

  -- The loop that starts the commands of a pipeline, from command `idx` on.
  pub launch_from : ℕ → ℕ → List (List (List ℕ)) → List Event
  launch_from pipes idx [] = []
  launch_from pipes idx ([] ∷ cmds) = wild ∷ []
  launch_from pipes idx ((program ∷ args) ∷ cmds) = elim (access program) [
    | false ↦ error_message ∷ []
    | true ↦ elim (redirect (program ∷ args)) [
      | none ↦ error_message ∷ []
      | some (appended, file) ↦
          (if not (forked idx)
            then error_message
            else if not (has_pipes pipes idx)
            then wild
            else launch appended file (if idx == 0 then none else some (idx - 1))
                (output_pipe pipes idx file))
          ∷ launch_from pipes (idx + 1) cmds
    ]
  ]

  -- One run of a command, and whether the shell goes on.
  pub execute : List (List ℕ) → List Event × Bool
  execute [] = (wild ∷ [], true)
  execute (program ∷ args) =
      if same_text program exit_name
      then (if length args == 0 then (end_shell ∷ [], false) else (error_message ∷ [], true))
      else if same_text program (99 ∷ 100 ∷ [])
      then ((if length args == 1 then change_dir (get_or args 0 []) else error_message) ∷ [], true)
      else if same_text program (112 ∷ 119 ∷ 100 ∷ [])
      then ((if length args == 0 then print_dir else error_message) ∷ [], true)
      else (
        make_pipes (num_pipes (program ∷ args)) 0
            ++ launch_from (num_pipes (program ∷ args)) 0 (split_pipes [] (program ∷ args)),
        true,
      )

  -- The loop over the runs of a command, by the runs left.
  pub repeat : ℕ → List (List ℕ) → List Event × Bool
  repeat zero args = ([], true)
  repeat (suc n) args = elim ((execute args).1) [
    | false ↦ ((execute args).0, false)
    | true ↦ ((execute args).0 ++ (repeat n args).0, (repeat n args).1)
  ]

  -- `atoi` is that of the C library.
  module _ (atoi : List ℕ → ℤ) where
    -- The runs of a command with its prefix `loop`.
    pub run_command : List (List ℕ) → List Event × Bool
    run_command args =
        if same_text (get_or args 0 []) loop_name
        then if ltb (length args) 3
          then (error_message ∷ [], true)
          else elim (atoi (get_or args 1 [])) [
            | pos zero ↦ (error_message ∷ [], true)
            | pos (suc n) ↦ repeat (suc n) (drop 2 args)
            | negsuc n ↦ ([], true)
          ]
        else repeat 1 args

    -- `strtok` gives the parts of a text between separators, and `strdup` a copy of a text, or none.
    module _ (strtok : List ℕ → List ℕ → List (List ℕ)) (strdup : List ℕ → Option (List ℕ)) where
      pub copies : List (List ℕ) → Option (List (List ℕ))
      copies [] = some []
      copies (t ∷ tokens) = elim (strdup t) [
        | none ↦ none
        | some copy ↦ elim (copies tokens) [ none ↦ none | some rest ↦ some (copy ∷ rest) ]
      ]

      abbrev pub parts : List ℕ → List ℕ → Option (List (List ℕ))
      parts separators line = elim (strdup line) [
        | none ↦ none
        | some l ↦ copies (strtok separators line)
      ]

      abbrev pub lexer : List ℕ → Option (List (List ℕ))
      lexer line = parts (32 ∷ 9 ∷ 10 ∷ []) line

      abbrev pub split_cmds : List ℕ → Option (List (List ℕ))
      split_cmds line = parts (59 ∷ []) line

      -- The body of the loop over the commands of a line.
      pub run_part : List ℕ → List Event × Bool
      run_part cmd_string = elim (squeeze cmd_string) [
        | none ↦ (wild ∷ [], true)
        | some cmd ↦ elim (lexer cmd) [
          | none ↦ (error_message ∷ [], true)
          | some args ↦ run_command args
        ]
      ]

      pub run_parts : List (List ℕ) → List Event × Bool
      run_parts [] = ([], true)
      run_parts (cmd_string ∷ cmds) = elim ((run_part cmd_string).1) [
        | false ↦ ((run_part cmd_string).0, false)
        | true ↦ ((run_part cmd_string).0 ++ (run_parts cmds).0, (run_parts cmds).1)
      ]

      -- What the shell does with a line, and whether it reads another.
      pub run_line : List ℕ → List Event × Bool
      run_line line = elim (split_cmds line) [
        | none ↦ (error_message ∷ [], true)
        | some cmds ↦ run_parts cmds
      ]
