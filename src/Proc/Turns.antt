-- ===== src/Proc/Turns.antt =====
-- One round of the scheduler: which process runs.
use native.Mathlib.Decide.{ℕ_discrete}
use cs537_sp23_operating_sys.Common.{
  ℕ, false, get_elem?, get_elem?-set_ne, get_elem?-set_self, inl, inr, refl, some, sym, true, ◌∙◌,
  ◌≡◌, ◌≢◌, ◌⊎◌, set,
}
use cs537_sp23_operating_sys.Proc.{Ptable, Proc, Pick, schedule, switch_to, running, runnable}
use cs537_sp23_operating_sys.Proc.Select.{Candidate, select_lem}

abbrev pub NoneRuns : Ptable → Type 0
NoneRuns t = (i : ℕ) (p : Proc) → get_elem? t.procs i ≡ some p → p.state ≢ running

-- Slot `k`, that was runnable, runs and is the current one, and no other runs.
pub record OnlyRuns (t t' : Ptable) (k : ℕ) : Type 0 where
  pub before : Proc
  pub ready : (get_elem? t.procs k ≡ some before) × (before.state ≡ runnable)
  pub runs : get_elem? t'.procs k ≡ some (record before { state = running })
  pub current : t'.current ≡ some k
  pub entry : t'.pstat.pids t'.curr_pstat_idx ≡ before.pid
  pub alone : (i : ℕ) (p : Proc) → get_elem? t'.procs i ≡ some p → p.state ≡ running → i ≡ k

switch_to-procs :
    (b : Pick) (t : Ptable) (p : Proc)
    → get_elem? t.procs b.slot ≡ some p
    → (switch_to b t).procs ≡ set t.procs b.slot (record p { state = running })
switch_to-procs b t p there = rw (there, switch_to) refl

-- When no process runs, a round of the scheduler starts exactly one runnable process, which is then the
-- current one, with its entry of pstat; or it changes nothing, and no runnable process has an entry.
pub schedule-OnlyRuns :
    (t : Ptable)
    → NoneRuns t
    → ((schedule t ≡ (t, false)) × ((slot idx : ℕ) → ¬ Candidate t.pstat t.procs slot idx))
      ⊎ ((t' : Ptable) × (k : ℕ) × (schedule t ≡ (t', true)) × OnlyRuns t t' k)
unfolding schedule
schedule-OnlyRuns t idle = elim (select_lem t) [
  | inl (e, nobody) ↦ inl (rw (e, schedule) refl, nobody)
  | inr (b, e, c, least) ↦
      let there = c.there in
      let started : Proc = record (c.proc) { state = running } in
      inr (
        switch_to b t,
        b.slot,
        rw (e, schedule) refl,
        record {
          before = c.proc;
          ready = (c.there, c.ready);
          runs =
              rw (switch_to-procs b t c.proc there)
                (get_elem?-set_self t.procs b.slot started c.proc there);
          current = refl;
          entry = c.own;
          alone = rw (switch_to-procs b t c.proc there) (λ i p at_i run.
              elim (ℕ_discrete i b.slot) [
                | yes same ↦ same
                | no ne ↦ absurd (
                    idle i p
                      (sym (get_elem?-set_ne t.procs b.slot i started (λ x. ne (sym x))) ∙ at_i)
                      run)
              ]);
        },
      )
]
