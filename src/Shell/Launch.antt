-- ===== src/Shell/Launch.antt =====
-- The redirection of a command, and the children that a pipeline starts.
use cs537_sp23_operating_sys.Common.{
  ℕ, List, All, Bool, Option, [], ap, arith, false, get_elem?, get_or, if◌then◌else◌, length, none,
  refl, same_text, some, suc, take, true, ◌++◌, ◌+◌, ◌-◌, ◌==◌, ◌∙◌, ◌∷◌, ◌≡◌, ◌≢◌, Bool-cases, inl,
  inr, length-append, not, sym, zero, ◌||◌,
}
use cs537_sp23_operating_sys.Shell.{
  Event, output_pipe, has_pipes, launch, greater, num_pipes, split_pipes, redirect_idx, redirect,
  launch_from,
}
use cs537_sp23_operating_sys.Shell.Pipelines.{length-split_pipes}

-- No argument is `>`.
abbrev pub NoGreater : List (List ℕ) → Type 0
NoGreater args = All (λ a. same_text a greater ≡ false) args

-- What a command comes to whose first `>` stands between `args` and `rest`.
abbrev pub redirected : List (List ℕ) → List (List ℕ) → Option (List (List ℕ) × Option (List ℕ))
redirected [] rest = none
redirected (a ∷ args) (f ∷ []) = if same_text f greater then none else some (a ∷ args, some f)
redirected (a ∷ args) rest = none

redirect_idx-plain : (i : ℕ) (args : List (List ℕ)) → NoGreater args → redirect_idx i args ≡ none
unfolding redirect_idx
redirect_idx-plain i [] h = refl
redirect_idx-plain i (a ∷ args) h =
    let plain = h.0 in rw plain (redirect_idx-plain (i + 1) args h.1)

redirect_idx-found :
    (i : ℕ) (args rest : List (List ℕ))
    → NoGreater args
    → redirect_idx i (args ++ (greater ∷ rest)) ≡ some (i + length args)
unfolding redirect_idx
redirect_idx-found i [] rest h = ap some (omega arith)
redirect_idx-found i (a ∷ args) rest h =
    let plain = h.0 in rw plain (redirect_idx-found (i + 1) args rest h.1 ∙ ap some (omega arith))

take-split : (args rest : List (List ℕ)) → take (length args) (args ++ rest) ≡ args
take-split [] rest = refl
take-split (a ∷ args) rest = ap (λ l. a ∷ l) (take-split args rest)

get_or-split :
    (args : List (List ℕ)) (b f : List ℕ) → get_or (args ++ (b ∷ f ∷ [])) (length args + 1) [] ≡ f
get_or-split [] b f = refl
get_or-split (a ∷ args) b f =
    let e : suc (length args) + 1 ≡ suc (length args + 1) = omega arith in
    rw e (get_or-split args b f)

-- The test of `redirect` at the first `>`.
abbrev refused : List (List ℕ) → List (List ℕ) → Bool
refused args rest =
    let whole = args ++ (greater ∷ rest) in
    not (length args + 2 == length whole)
    || (length args == 0)
    || same_text (get_or whole (length args + 1) []) greater

redirect-refused :
    (args rest : List (List ℕ))
    → NoGreater args
    → refused args rest ≡ true
    → redirect (args ++ (greater ∷ rest)) ≡ none
unfolding redirect
redirect-refused args rest h bad =
    let cut : redirect_idx 0 (args ++ (greater ∷ rest)) ≡ some (length args) =
      redirect_idx-found 0 args rest h ∙ ap some (omega arith) in
    rw (cut, bad, redirect) refl

redirect-accepted :
    (args : List (List ℕ)) (f : List ℕ)
    → NoGreater args
    → refused args (f ∷ []) ≡ false
    → redirect (args ++ (greater ∷ f ∷ [])) ≡ some (args, some f)
unfolding redirect
redirect-accepted args f h good =
    let cut : redirect_idx 0 (args ++ (greater ∷ f ∷ [])) ≡ some (length args) =
      redirect_idx-found 0 args (f ∷ []) h ∙ ap some (omega arith) in
    rw (cut, good, take-split args (greater ∷ f ∷ []), get_or-split args greater f, redirect) refl

redirect-redirected :
    (args rest : List (List ℕ))
    → NoGreater args
    → redirect (args ++ (greater ∷ rest)) ≡ redirected args rest
redirect-redirected [] rest h = redirect-refused [] rest h (ground arith)
redirect-redirected (a ∷ args) [] h =
    redirect-refused (a ∷ args) [] h (ground (arith, length-append args (greater ∷ [])))
redirect-redirected (a ∷ args) (f ∷ []) h =
    let behind = get_or-split (a ∷ args) greater f in
    let size : length (args ++ (greater ∷ f ∷ [])) ≡ length args + 2 =
      omega (arith, length-append args (greater ∷ f ∷ [])) in
    elim (Bool-cases (same_text f greater)) [
      | inl twice ↦
          redirect-refused (a ∷ args) (f ∷ []) h (rw behind (ground (arith, size))) ∙ rw twice refl
      | inr good ↦
          redirect-accepted (a ∷ args) f h (rw behind (ground (arith, size))) ∙ rw good refl
    ]
redirect-redirected (a ∷ args) (f ∷ g ∷ rest) h =
    redirect-refused (a ∷ args) (f ∷ g ∷ rest) h
      (ground (arith, length-append args (greater ∷ f ∷ g ∷ rest)))

-- Without a `>` a command has all its arguments and no file; with one, the argument behind it is the
-- file, provided that it is the last one, is no `>` itself, and that something stands in front of the `>`;
-- all else is the error.
pub redirect_lem :
    (args rest : List (List ℕ))
    → NoGreater args
    → (redirect args ≡ some (args, none))
      × (redirect (args ++ (greater ∷ rest)) ≡ redirected args rest)
unfolding redirect
redirect_lem args rest h =
    let plain = redirect_idx-plain 0 args h in
    (rw (plain, redirect) refl, redirect-redirected args rest h)

-- Child `j`: its pipes are numbered from 0. It writes its file, if it has one.
abbrev pub child : ℕ → ℕ → List (List ℕ) → Option (List ℕ) → Event
child pipes j args file =
    launch args file (if j == 0 then none else some (j - 1))
      (elim file [ none ↦ if j == pipes then none else some j | some f ↦ none ])

module _ (access : List ℕ → Bool) (piped forked : ℕ → Bool) where
  -- A command that can be started, with the arguments and the file that `redirect` gives.
  abbrev pub Ready : List (List ℕ) → List (List ℕ) → Option (List ℕ) → Type 0
  Ready cmd args file =
      (cmd ≢ []) × (access (get_or cmd 0 []) ≡ true) × (redirect cmd ≡ some (args, file))

  abbrev pub IsReady : List (List ℕ) → Type 0
  IsReady cmd = (args : List (List ℕ)) × (file : Option (List ℕ)) × Ready cmd args file

  module _ (all_piped : (i : ℕ) → piped i ≡ true) (all_forked : (i : ℕ) → forked i ≡ true) where
    launch_from-cons :
        (pipes idx : ℕ) (cmd : List (List ℕ)) (cmds : List (List (List ℕ))) (args : List (List ℕ))
        (file : Option (List ℕ))
        → Ready cmd args file
        → launch_from access piped forked pipes idx (cmd ∷ cmds)
          ≡ child pipes idx args file ∷ launch_from access piped forked pipes (idx + 1) cmds
    unfolding launch_from
    launch_from-cons pipes idx [] cmds args file h = absurd (h.0 refl)
    launch_from-cons pipes idx (program ∷ rest) cmds args file h =
        let found = h.1 in
        let parts = h.2 in
        let starts = all_forked idx in
        let plugged : has_pipes access piped forked pipes idx ≡ true =
          ground (arith, all_piped idx, all_piped (idx - 1)) in
        rw (found, parts, starts, plugged, launch_from) (same_pipes file)
      where
        same_pipes :
            (f : Option (List ℕ))
            → launch args f (if idx == 0 then none else some (idx - 1)) (output_pipe pipes idx f)
                ∷ launch_from access piped forked pipes (idx + 1) cmds
              ≡ child pipes idx args f ∷ launch_from access piped forked pipes (idx + 1) cmds
        same_pipes none = refl
        same_pipes (some f) = refl

    launch_from-get :
        (pipes idx j : ℕ) (cmds : List (List (List ℕ))) (args : List (List ℕ))
        (file : Option (List ℕ)) (cmd : List (List ℕ))
        → All IsReady cmds
        → get_elem? cmds j ≡ some cmd
        → redirect cmd ≡ some (args, file)
        → get_elem? (launch_from access piped forked pipes idx cmds) j
          ≡ some (child pipes (idx + j) args file)
    launch_from-get pipes idx j [] args file cmd ready there parts = cc
    launch_from-get pipes idx zero (c ∷ cmds) args file cmd ready there parts =
        let same : c ≡ cmd = cc in
        let here : idx + zero ≡ idx = omega arith in
        let (a, f, first) = ready.0 in
        let begin =
          launch_from-cons pipes idx c cmds args file
            (first.0, first.1, ap redirect same ∙ parts) in
        ap (λ l. get_elem? l zero) begin ∙ ap (λ i. some (child pipes i args file)) (sym here)
    launch_from-get pipes idx (suc j) (c ∷ cmds) args file cmd ready there parts =
        let next : idx + 1 + j ≡ idx + suc j = omega arith in
        let (a, f, first) = ready.0 in
        ap (λ l. get_elem? l (suc j)) (launch_from-cons pipes idx c cmds a f first)
        ∙ launch_from-get pipes (idx + 1) j cmds args file cmd ready.1 there parts
        ∙ ap (λ i. some (child pipes i args file)) next

    length-launch_from :
        (pipes idx : ℕ) (cmds : List (List (List ℕ)))
        → All IsReady cmds
        → length (launch_from access piped forked pipes idx cmds) ≡ length cmds
    unfolding launch_from
    length-launch_from pipes idx [] ready = refl
    length-launch_from pipes idx (c ∷ cmds) ready =
        let (a, f, first) = ready.0 in
        ap length (launch_from-cons pipes idx c cmds a f first)
        ∙ ap suc (length-launch_from pipes (idx + 1) cmds ready.1)

    -- Where every command of a pipeline can be started and all calls of `pipe` and `fork` succeed, there is
    -- one child more than pipes, and child `j` has the arguments and the file of command `j`, reads the pipe
    -- before it unless it is the first one, and writes its file, or else the pipe behind it unless it is the
    -- last one.
    pub launch_from_lem :
        (words : List (List ℕ))
        → All IsReady (split_pipes [] words)
        → (length (launch_from access piped forked (num_pipes words) 0 (split_pipes [] words))
            ≡ num_pipes words + 1)
          × ((j : ℕ) (cmd args : List (List ℕ)) (file : Option (List ℕ))
              → get_elem? (split_pipes [] words) j ≡ some cmd
              → redirect cmd ≡ some (args, file)
              → get_elem?
                  (launch_from access piped forked (num_pipes words) 0 (split_pipes [] words))
                  j
                ≡ some (child (num_pipes words) j args file))
    launch_from_lem words ready = (
      length-launch_from (num_pipes words) 0 _ ready ∙ length-split_pipes [] words,
      λ j cmd args file there parts.
          launch_from-get (num_pipes words) 0 j _ args file cmd ready there parts
          ∙ ap (λ i. some (child (num_pipes words) i args file)) (omega arith),
    )
