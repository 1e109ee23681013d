-- ===== src/Proc/Lifecycle/Exit.antt =====
-- `exit`: what becomes of the children and of the processes that wait.
use native.Mathlib.Decide.{ℕ_discrete, dec_lt}
use cs537_sp23_operating_sys.Common.{
  ℕ, List, Option, [], ap, arith, get_elem?, get_elem?-eq-get_or, get_or, if◌then◌else◌, length,
  length-set, none, refl, set, some, suc, zero, ◌<◌, ◌==◌, ◌∙◌, ◌∷◌, ◌≡◌, in_range, ◌+◌, ◌≤◌,
  Bool-cases, get_elem?-set_ne, get_elem?-set_self, get_or-set_self, get_or_of_get_elem?, inl, inr,
  sym, ◌≢◌, false, true,
}
use cs537_sp23_operating_sys.Proc.{
  zombie, sleeping, runnable, same_state, Proc, Ptable, wake, wakeup1,
}
use cs537_sp23_operating_sys.Proc.Lifecycle.{
  empty_proc, proc_at, exit_table, parent_chan, adopt, reparent, is_child,
}
use cs537_sp23_operating_sys.Proc.Wakeup.{map_proc, get_elem?-wakeup1, length-wakeup1}

-- The parent that slot `j` names, if there is such a slot.
abbrev pub parent_of : Option Proc → Option (Option ℕ)
parent_of none = none
parent_of (some p) = some p.parent

abbrev pub parent_at : List Proc → ℕ → Option (Option ℕ)
parent_at ps j = parent_of (get_elem? ps j)

-- `me` is replaced by `init`.
abbrev pub replaced : ℕ → ℕ → Option (Option ℕ) → Option (Option ℕ)
replaced me init none = none
replaced me init (some none) = some none
replaced me init (some (some q)) = some (some (if q == me then init else q))

parent_at-wakeup1 :
    (chan : ℕ) (ps : List Proc) (j : ℕ) → parent_at (wakeup1 chan ps) j ≡ parent_at ps j
parent_at-wakeup1 chan ps j = ap parent_of (get_elem?-wakeup1 chan ps j) ∙ go (get_elem? ps j)
  where
    go : (o : Option Proc) → parent_of (map_proc (wake chan) o) ≡ parent_of o
    go none = refl
    go (some p) = ground arith

parent_at-none : (ps : List Proc) (j : ℕ) → length ps ≤ j → parent_at ps j ≡ none
parent_at-none [] j h = refl
parent_at-none (x ∷ xs) zero h = absurd (omega arith)
parent_at-none (x ∷ xs) (suc j) h = parent_at-none xs j (omega arith)

parent_at-set :
    (ps : List Proc) (i j : ℕ) (p : Proc)
    → i < length ps
    → parent_at (set ps i p) j ≡ (if i == j then some p.parent else parent_at ps j)
parent_at-set [] i j p h = elim h [ ]
parent_at-set (x ∷ xs) zero zero p h = refl
parent_at-set (x ∷ xs) zero (suc j) p h = ground arith
parent_at-set (x ∷ xs) (suc i) zero p h = ground arith
parent_at-set (x ∷ xs) (suc i) (suc j) p h = ground (arith, parent_at-set xs i j p (omega arith))

-- Slot `j` holds a runnable process.
abbrev pub Runs : ℕ → List Proc → Type 0
Runs j ps = (p : Proc) × (get_elem? ps j ≡ some p) × (p.state ≡ runnable)

Runs-wakeup1 : (chan j : ℕ) (ps : List Proc) → Runs j ps → Runs j (wakeup1 chan ps)
Runs-wakeup1 chan j ps (p, there, e) =
    (wake chan p, get_elem?-wakeup1 chan ps j ∙ ap (map_proc (wake chan)) there, ground arith)

Runs-woken :
    (chan j : ℕ) (ps : List Proc) (p : Proc)
    → get_elem? ps j ≡ some p
    → p.state ≡ sleeping
    → p.chan ≡ chan
    → Runs j (wakeup1 chan ps)
Runs-woken chan j ps p there e c =
    (wake chan p, get_elem?-wakeup1 chan ps j ∙ ap (map_proc (wake chan)) there, ground arith)

Runs-set :
    (j i : ℕ) (ps : List Proc) (p : Proc)
    → p.state ≡ (get_or ps i empty_proc).state
    → Runs j ps
    → Runs j (set ps i p)
Runs-set j i ps p same (q, there, e) = elim (ℕ_discrete i j) [
  | yes eq ↦ (
    p,
    rw eq (get_elem?-set_self ps j p q there),
    same ∙ (rw (eq, get_or_of_get_elem? ps j q empty_proc there) e),
  )
  | no ne ↦ (q, get_elem?-set_ne ps i j p ne ∙ there, e)
]

module _ (proc_addr : ℕ → ℕ) (me init : ℕ) where
  length-adopt : (i : ℕ) (ps : List Proc) → length (adopt proc_addr i me init ps) ≡ length ps
  unfolding adopt
  length-adopt i ps =
      let p = get_or ps i empty_proc in
      let adopted = set ps i (record p { parent = some init }) in
      ground (
        arith,
        length-wakeup1 (proc_addr init) adopted,
        length-set ps i (record p { parent = some init }),
      )

  parent_at-adopt :
      (i j : ℕ) (ps : List Proc)
      → i < length ps
      → parent_at (adopt proc_addr i me init ps) j
        ≡ (if i == j then replaced me init (parent_at ps j) else parent_at ps j)
  unfolding adopt
  parent_at-adopt i j ps h =
      let p = get_or ps i empty_proc in
      let p' = record p { parent = some init } in
      ground (
        arith,
        parent_at-wakeup1 (proc_addr init) (set ps i p') j,
        parent_at-set ps i j p' h,
        get_elem?-eq-get_or ps i empty_proc h,
      )

  length-reparent :
      (n i : ℕ) (ps : List Proc) → length (reparent proc_addr n i me init ps) ≡ length ps
  unfolding reparent
  length-reparent zero i ps = refl
  length-reparent (suc n) i ps = length-reparent n (i + 1) _ ∙ length-adopt i ps

  parent_at-reparent :
      (n i j : ℕ) (ps : List Proc)
      → i + n ≤ length ps
      → parent_at (reparent proc_addr n i me init ps) j
        ≡ (if in_range i n j then replaced me init (parent_at ps j) else parent_at ps j)
  unfolding reparent
  parent_at-reparent zero i j ps h = ground arith
  parent_at-reparent (suc n) i j ps h = ground (
    arith,
    parent_at-reparent n (i + 1) j (adopt proc_addr i me init ps)
        (omega (arith, length-adopt i ps)),
    parent_at-adopt i j ps (omega arith),
  )

  Runs-adopt : (i j : ℕ) (ps : List Proc) → Runs j ps → Runs j (adopt proc_addr i me init ps)
  unfolding adopt
  Runs-adopt i j ps r = elim (Bool-cases (is_child me p)) [
    | inl child ↦ elim (Bool-cases (same_state p.state zombie)) [
      | inl dead ↦ rw (child, dead) (Runs-wakeup1 (proc_addr init) j adopted kept)
      | inr alive ↦ rw (child, alive) kept
    ]
    | inr other ↦ rw other r
  ]
    where
      p : Proc
      p = get_or ps i empty_proc

      adopted : List Proc
      adopted = set ps i (record p { parent = some init })

      kept : Runs j adopted
      kept = Runs-set j i ps (record p { parent = some init }) refl r

  Runs-reparent :
      (n i j : ℕ) (ps : List Proc) → Runs j ps → Runs j (reparent proc_addr n i me init ps)
  unfolding reparent
  Runs-reparent zero i j ps r = r
  Runs-reparent (suc n) i j ps r = Runs-reparent n (i + 1) j _ (Runs-adopt i j ps r)

module _ (proc_addr : ℕ → ℕ) (me : ℕ) (t : Ptable) (valid : me < length t.procs) where
  abbrev woken : List Proc
  woken = wakeup1 (parent_chan proc_addr (proc_at t me).parent) t.procs

  abbrev adopted : List Proc
  adopted = reparent proc_addr (length t.procs) 0 me t.initproc woken

  abbrev buried : Proc
  buried = record (get_or adopted me empty_proc) { state = zombie }

  length-adopted : length adopted ≡ length t.procs
  length-adopted =
      length-reparent proc_addr me t.initproc (length t.procs) 0 woken ∙ length-wakeup1 _ t.procs

  inside : {j : ℕ} → j < length t.procs → in_range 0 (length t.procs) j ≡ true
  inside h = ground arith

  out_of_it : {j : ℕ} → ¬ (j < length t.procs) → in_range 0 (length t.procs) j ≡ false
  out_of_it h = ground arith

  nothing : {j : ℕ} → ¬ (j < length t.procs) → parent_at t.procs j ≡ none
  nothing {j} h = parent_at-none t.procs j (omega arith)

  parent_at-adopted : (j : ℕ) → parent_at adopted j ≡ replaced me t.initproc (parent_at t.procs j)
  parent_at-adopted j = elim (dec_lt j (length t.procs)) [
    | yes below ↦
        step ∙ (rw (inside below) (ap (replaced me t.initproc) (parent_at-wakeup1 _ t.procs j)))
    | no above ↦
        step
        ∙ (rw (out_of_it above) (
            parent_at-wakeup1 _ t.procs j
            ∙ (nothing above ∙ sym (ap (replaced me t.initproc) (nothing above)))))
  ]
    where
      step : parent_at adopted j ≡ (
          if in_range 0 (length t.procs) j
          then replaced me t.initproc (parent_at woken j)
          else parent_at woken j)
      step =
          parent_at-reparent proc_addr me t.initproc (length t.procs) 0 j woken
            (omega (arith, length-wakeup1 (parent_chan proc_addr (proc_at t me).parent) t.procs))

  same_parent :
      (j : ℕ) → (if me == j then some buried.parent else parent_at adopted j) ≡ parent_at adopted j
  same_parent j =
      ground (arith, get_elem?-eq-get_or adopted me empty_proc (omega (arith, length-adopted)))

  -- After `exit`: each process whose parent was the one that exits has the first process for its
  -- parent and no other parent changes, the process is a zombie, and its entry of pstat is free.
  pub exit_table-adopts :
      ((j : ℕ)
        → parent_at (exit_table proc_addr me t).procs j
          ≡ replaced me t.initproc (parent_at t.procs j))
      × ((proc_at (exit_table proc_addr me t) me).state ≡ zombie)
      × ((exit_table proc_addr me t).pstat.inuse t.curr_pstat_idx ≡ 0)
  unfolding exit_table
  exit_table-adopts = (
    λ j.
        parent_at-set adopted me j buried (omega (arith, length-adopted))
        ∙ (same_parent j ∙ parent_at-adopted j),
    ap (λ (p : Proc). p.state)
        (get_or-set_self adopted me buried empty_proc (omega (arith, length-adopted))),
    ground arith,
  )

  -- A parent that sleeps in `wait` is runnable after its child's `exit`.
  pub exit_table-wakes :
      (w : ℕ) (p : Proc)
      → (proc_at t me).parent ≡ some w
      → w ≢ me
      → get_elem? t.procs w ≡ some p
      → p.state ≡ sleeping
      → p.chan ≡ proc_addr w
      → Runs w (exit_table proc_addr me t).procs
  unfolding exit_table
  exit_table-wakes w p mine ne there asleep chan =
      let first : Runs w woken =
        Runs-woken _ w t.procs p there asleep (chan ∙ sym (ap (parent_chan proc_addr) mine)) in
      let (q, q_there, q_runs) =
        Runs-reparent proc_addr me t.initproc (length t.procs) 0 w woken first in
      (q, get_elem?-set_ne adopted me w buried (λ e. ne (sym e)) ∙ q_there, q_runs)
