-- ===== src/Proc/Select.antt =====
-- The scheduler's choice, by the pass values.
use mathlib.Core.Path.{subst}
use native.Mathlib.Decide.{ℕ_discrete}
use cs537_sp23_operating_sys.Common.{
  ℕ, List, Option, [], arith, get_elem?, if◌then◌else◌, none, rank, some, suc, zero, ◌+◌, ◌<◌, ◌∷◌,
  ◌≡◌, ◌≤◌, ==→eq, Bool-cases, ap, inl, inr, leb, refl, true, ◌&&◌, ◌==◌, ◌∙◌, ◌⊎◌,
}
use cs537_sp23_operating_sys.Proc.{
  ProcState, unused, embryo, sleeping, running, zombie, runnable, same_state, Proc, Pstat, Ptable,
  Pick, consider, scan_pstat, scan_procs, select,
}

-- A runnable process with an entry of pstat that holds its pid.
pub record Candidate (s : Pstat) (procs : List Proc) (slot idx : ℕ) : Type 0 where
  pub proc : Proc
  pub there : get_elem? procs slot ≡ some proc
  pub ready : proc.state ≡ runnable
  pub entry : idx < 64
  pub own : s.pids idx ≡ proc.pid

-- The value found so far is not above `v`.
abbrev AtMost : Option Pick → ℕ → Type 0
AtMost none v = ⊥
AtMost (some b) v = rank b.value ≤ rank v

AtMost-consider :
    (s : Pstat) (slot pid i v : ℕ) (best : Option Pick)
    → AtMost best v
    → AtMost (consider s slot pid i best) v
AtMost-consider s slot pid i v none h = absurd h
AtMost-consider s slot pid i v (some b) h = ground arith

AtMost-here :
    (s : Pstat) (slot pid i : ℕ) (best : Option Pick)
    → s.pids i ≡ pid
    → AtMost (consider s slot pid i best) (s.pass i)
AtMost-here s slot pid i none e = ground arith
AtMost-here s slot pid i (some b) e = ground arith

AtMost-scan_pstat :
    (n : ℕ) (s : Pstat) (slot pid i v : ℕ) (best : Option Pick)
    → AtMost best v
    → AtMost (scan_pstat n s slot pid i best) v
unfolding scan_pstat
AtMost-scan_pstat zero s slot pid i v best h = h
AtMost-scan_pstat (suc n) s slot pid i v best h =
    AtMost-scan_pstat n s slot pid (i + 1) v _ (AtMost-consider s slot pid i v best h)

AtMost-seen :
    (n : ℕ) (s : Pstat) (slot pid i j : ℕ) (best : Option Pick)
    → i ≤ j
    → j < i + n
    → s.pids j ≡ pid
    → AtMost (scan_pstat n s slot pid i best) (s.pass j)
unfolding scan_pstat
AtMost-seen zero s slot pid i j best l u e = absurd (omega arith)
AtMost-seen (suc n) s slot pid i j best l u e = elim (ℕ_discrete i j) [
  | yes same ↦ AtMost-scan_pstat n s slot pid (i + 1) (s.pass j) _ (
      subst (λ k. AtMost (consider s slot pid i best) (s.pass k)) same
        (AtMost-here s slot pid i best (rw same e)))
  | no ne ↦ AtMost-seen n s slot pid (i + 1) j _ (omega arith) (omega arith) e
]

scan_next : Pstat → ℕ → Proc → Option Pick → Option Pick
scan_next s slot p best =
    if same_state p.state runnable then scan_pstat 64 s slot p.pid 0 best else best

AtMost-scan_next :
    (s : Pstat) (slot v : ℕ) (p : Proc) (best : Option Pick)
    → AtMost best v
    → AtMost (scan_next s slot p best) v
unfolding scan_next
AtMost-scan_next s slot v p best h = elim (Bool-cases (same_state p.state runnable)) [
  | inl go ↦ rw go (AtMost-scan_pstat 64 s slot p.pid 0 v best h)
  | inr skip ↦ rw skip h
]

AtMost-scan_procs :
    (ps : List Proc) (s : Pstat) (slot v : ℕ) (best : Option Pick)
    → AtMost best v
    → AtMost (scan_procs ps s slot best) v
unfolding scan_procs scan_next
AtMost-scan_procs [] s slot v best h = h
AtMost-scan_procs (p ∷ ps) s slot v best h =
    AtMost-scan_procs ps s (slot + 1) v _ (AtMost-scan_next s slot v p best h)

-- The scan's result is at most the value of every candidate.
AtMost-candidates :
    (ps : List Proc) (s : Pstat) (slot k idx : ℕ) (best : Option Pick)
    → Candidate s ps k idx
    → AtMost (scan_procs ps s slot best) (s.pass idx)
unfolding scan_procs
AtMost-candidates [] s slot k idx best c = cc c.there
AtMost-candidates (p ∷ ps) s slot zero idx best c =
    let same : p ≡ c.proc = ground (arith, c.there) in
    let go : same_state p.state runnable ≡ true = rw (same, c.ready) in
    rw go (
      AtMost-scan_procs ps s (slot + 1) (s.pass idx) _
        (AtMost-seen 64 s slot p.pid 0 idx best (omega arith) c.entry (rw same c.own)))
AtMost-candidates (p ∷ ps) s slot (suc k) idx best c =
    AtMost-candidates ps s (slot + 1) k idx _
      (record { proc = c.proc; there = c.there; ready = c.ready; entry = c.entry; own = c.own })

-- What was found is a candidate, with its pass value.
record Found (s : Pstat) (procs : List Proc) (b : Pick) : Type 0 where
  candidate : Candidate s procs b.slot b.idx
  value : b.value ≡ s.pass b.idx

runnable_of : (x : ProcState) → same_state x runnable ≡ true → x ≡ runnable
runnable_of runnable h = refl
runnable_of unused h = cc
runnable_of embryo h = cc
runnable_of sleeping h = cc
runnable_of running h = cc
runnable_of zombie h = cc

plus_suc : (a k : ℕ) → a + 1 + k ≡ a + suc k
plus_suc a k = omega arith

plus_zero : (a : ℕ) → a ≡ a + 0
plus_zero a = omega arith

module _ (s : Pstat) (procs : List Proc) where
  abbrev IsFound : Option Pick → Type 0
  IsFound none = Unit
  IsFound (some b) = Found s procs b

  here :
      (p : Proc) (slot i : ℕ)
      → get_elem? procs slot ≡ some p
      → p.state ≡ runnable
      → i < 64
      → s.pids i ≡ p.pid
      → Found s procs (record { slot = slot; idx = i; value = s.pass i })
  here p slot i there ready h own = record {
    candidate = record { proc = p; there = there; ready = ready; entry = h; own = own };
    value = refl;
  }

  IsFound-consider :
      (p : Proc) (slot i : ℕ) (best : Option Pick)
      → get_elem? procs slot ≡ some p
      → p.state ≡ runnable
      → i < 64
      → IsFound best
      → IsFound (consider s slot p.pid i best)
  IsFound-consider p slot i none there ready h f = elim (Bool-cases (s.pids i == p.pid)) [
    | inl e ↦ rw e (here p slot i there ready h (==→eq (s.pids i) p.pid e))
    | inr e ↦ rw e tt
  ]
  IsFound-consider p slot i (some b) there ready h f =
      elim (Bool-cases (s.pids i == p.pid && leb (rank (s.pass i)) (rank b.value))) [
        | inl e ↦ rw e (here p slot i there ready h (ground arith))
        | inr e ↦ rw e f
      ]

  IsFound-scan_pstat :
      (n : ℕ) (p : Proc) (slot i : ℕ) (best : Option Pick)
      → get_elem? procs slot ≡ some p
      → p.state ≡ runnable
      → i + n ≤ 64
      → IsFound best
      → IsFound (scan_pstat n s slot p.pid i best)
  unfolding scan_pstat
  IsFound-scan_pstat zero p slot i best there ready h f = f
  IsFound-scan_pstat (suc n) p slot i best there ready h f =
      IsFound-scan_pstat n p slot (i + 1) _ there ready (omega arith)
        (IsFound-consider p slot i best there ready (omega arith) f)

  IsFound-scan_procs :
      (ps : List Proc) (slot : ℕ) (best : Option Pick)
      → ((k : ℕ) → get_elem? procs (slot + k) ≡ get_elem? ps k)
      → IsFound best
      → IsFound (scan_procs ps s slot best)
  unfolding scan_procs
  IsFound-scan_procs [] slot best same f = f
  IsFound-scan_procs (p ∷ ps) slot best same f =
      let rest = λ (k : ℕ). (ap (get_elem? procs) (plus_suc slot k) ∙ same (suc k)) in
      let first : get_elem? procs slot ≡ some p = ap (get_elem? procs) (plus_zero slot) ∙ same 0 in
      elim (Bool-cases (same_state p.state runnable)) [
        | inl go ↦ rw go (
            IsFound-scan_procs ps (slot + 1) _ rest
              (IsFound-scan_pstat 64 p slot 0 best first (runnable_of p.state go) (omega arith) f))
        | inr skip ↦ rw skip (IsFound-scan_procs ps (slot + 1) best rest f)
      ]

-- The scheduler's choice is a runnable process with its own entry of pstat, and its pass value is the
-- least among all such processes and entries; it finds none only if there is none.
pub select_lem :
    (t : Ptable)
    → ((select t ≡ none) × ((slot idx : ℕ) → ¬ Candidate t.pstat t.procs slot idx))
      ⊎ ((b : Pick) × (select t ≡ some b)
          × Candidate t.pstat t.procs b.slot b.idx
          × ((slot idx : ℕ)
              → Candidate t.pstat t.procs slot idx
              → rank (t.pstat.pass b.idx) ≤ rank (t.pstat.pass idx)))
unfolding select
select_lem t = go (select t) refl
  where
    found : IsFound t.pstat t.procs (select t)
    found =
        IsFound-scan_procs t.pstat t.procs t.procs 0 none
          (λ k. ap (get_elem? t.procs) (omega arith)) tt

    least :
        (slot idx : ℕ) → Candidate t.pstat t.procs slot idx → AtMost (select t) (t.pstat.pass idx)
    least slot idx c = AtMost-candidates t.procs t.pstat 0 slot idx none c

    go :
        (r : Option Pick)
        → select t ≡ r
        → ((select t ≡ none) × ((slot idx : ℕ) → ¬ Candidate t.pstat t.procs slot idx))
          ⊎ ((b : Pick) × (select t ≡ some b)
              × Candidate t.pstat t.procs b.slot b.idx
              × ((slot idx : ℕ)
                  → Candidate t.pstat t.procs slot idx
                  → rank (t.pstat.pass b.idx) ≤ rank (t.pstat.pass idx)))
    go none e = inl (e, λ slot idx c. (rw e at (least slot idx c)))
    go (some b) e =
        let f : Found t.pstat t.procs b = (rw e at found) in
        inr (b, e, f.candidate, λ slot idx c. (rw (e, f.value) at (least slot idx c)))
