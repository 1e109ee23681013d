-- ===== src/Proc/Tests.antt =====
-- Runs of the scheduler and the life of processes, and the theorems at a concrete table.
use cs537_sp23_operating_sys.Common.{
  ℕ, arith, none, some, Option, [], get_elem?, if◌then◌else◌, ltb, ok, rank, refl, ℤ, ◌+◌, ◌-◌, ◌∷◌,
  ◌≡◌, ◌≤◌, ◌⊎◌, false, suc, true, zero, ◌≢◌,
}
use cs537_sp23_operating_sys.Proc.{
  schedule, Proc, Pstat, Ptable, Pick, select, wakeup, sleep_start, sleep_end, sleeping, zombie,
  runnable, running,
}
use cs537_sp23_operating_sys.Proc.Lifecycle.Fork.{ForkSpec, CanPay, fork-ForkSpec}
use cs537_sp23_operating_sys.Proc.Turns.{NoneRuns, OnlyRuns, schedule-OnlyRuns}
use cs537_sp23_operating_sys.Proc.Select.{Candidate, select_lem}
use cs537_sp23_operating_sys.Proc.Wakeup.{wakeup-sleep_start}
use cs537_sp23_operating_sys.Proc.Lifecycle.{
  allocproc, dup_files, find_unused, fork, Resources, empty_proc, exit_table, wait_round,
}
use cs537_sp23_operating_sys.Proc.Lifecycle.Exit.{Runs, exit_table-wakes}
use cs537_sp23_operating_sys.Proc.Lifecycle.Wait.{WaitSpec, wait_round-WaitSpec}

-- The first process, its sleeping child 1, and child 2 of that, a zombie.
abbrev first : Proc
first = record empty_proc { state = runnable; pid = 1 }

abbrev second : Proc
second = record empty_proc { state = sleeping; pid = 2; parent = some 0; chan = 1001 }

abbrev third : Proc
third = record empty_proc { state = running; pid = 3; parent = some 1 }

abbrev fourth : Proc
fourth = record empty_proc { state = zombie; pid = 4; parent = some 2 }

abbrev stats : Pstat
stats = record {
  inuse = λ i. if ltb i 3 then 1 else 0;
  tickets = λ i. 1;
  strides = λ i. 16384;
  pass = λ i. 16384;
  pids = λ i. i + 1;
  ticks = λ i. 0;
}

abbrev family : Ptable
family = record {
  procs = first ∷ second ∷ third ∷ fourth ∷ [];
  pstat = stats;
  curr_pstat_idx = 2;
  nextpid = 5;
  initproc = 0;
  current = some 2;
}

abbrev address : ℕ → ℕ
address i = 1000 + i

-- Pages that are always to be had.
abbrev plenty : Resources
plenty = record {
  R = ℕ;
  kalloc = λ r. (4096, r + 1);
  kfree = λ a r. ok (r - 1);
  copyuvm = λ a b r. ok (8192, r + b);
  freevm = λ a r. ok (r - 1);
  filedup = λ f r. ok r;
  fileclose = λ f r. ok r;
  idup = λ a r. r;
  iput = λ a r. ok r;
}

select_lem_example :
    ((select family ≡ none) × ((slot idx : ℕ) → ¬ Candidate family.pstat family.procs slot idx))
    ⊎ ((b : Pick) × (select family ≡ some b)
        × Candidate family.pstat family.procs b.slot b.idx
        × ((slot idx : ℕ)
            → Candidate family.pstat family.procs slot idx
            → rank (family.pstat.pass b.idx) ≤ rank (family.pstat.pass idx)))
select_lem_example = select_lem family

-- The third process asleep, and the table later, when the second one runs.
abbrev fallen_asleep : Ptable
fallen_asleep = record family {
  procs = first ∷ second ∷ (record third { chan = 1002; state = sleeping }) ∷ fourth ∷ [];
}

abbrev later : Ptable
later = record family {
  procs =
      first
      ∷ (record second { state = running; chan = 0 })
      ∷ (record third { chan = 1002; state = sleeping })
      ∷ fourth
      ∷ [];
}

fell_asleep : sleep_start 2 1002 family ≡ ok fallen_asleep
unfolding sleep_start
fell_asleep = refl

wakeup-sleep_start_example :
    (get_elem? (wakeup 1002 later).procs 2 ≡ some (record third { chan = 1002; state = runnable }))
    × (t2 : Ptable) × (sleep_end 2 (wakeup 1002 later) ≡ ok t2)
    × (get_elem? t2.procs 2 ≡ some (record third { chan = 0; state = runnable }))
    × ((i : ℕ) → i ≢ 2 → get_elem? t2.procs i ≡ get_elem? (wakeup 1002 later).procs i)
wakeup-sleep_start_example =
    wakeup-sleep_start 2 1002 family fallen_asleep later third refl fell_asleep refl

exit_table-wakes_example : Runs 1 (exit_table address 2 family).procs
exit_table-wakes_example =
    exit_table-wakes address 2 family (omega arith) 1 second refl (omega arith) refl refl refl

wait_round-WaitSpec_example :
    (out : Option ℤ) × (t' : Ptable) × (r' : ℕ) × (wait_round plenty address 2 family 9
      ≡ ok (out, t', r'))
    × WaitSpec plenty address 2 family 9 out t'
wait_round-WaitSpec_example =
    wait_round-WaitSpec plenty address 2 family 9 (omega arith) (λ k e. (8, 7, refl, refl))

-- The caller in slot 0, an unused slot and no one who runs.
abbrev roomy : Ptable
roomy = record family { procs = first ∷ empty_proc ∷ second ∷ []; curr_pstat_idx = 0 }

roomy_pays :
    (k : ℕ)
    → (allocproc plenty roomy 3).0 ≡ some k
    → CanPay plenty 0 roomy k (allocproc plenty roomy 3).1 (allocproc plenty roomy 3).2
unfolding allocproc find_unused dup_files
roomy_pays k e = (8192, 4, 4, refl, refl)

fork-ForkSpec_example :
    (out : ℤ) × (t' : Ptable) × (r' : ℕ) × (fork plenty 0 roomy 3 ≡ ok (out, t', r'))
    × ForkSpec plenty 0 roomy out t'
fork-ForkSpec_example = fork-ForkSpec plenty 0 roomy 3 roomy_pays

roomy-NoneRuns : NoneRuns roomy
roomy-NoneRuns zero p e = ground arith
roomy-NoneRuns (suc zero) p e = ground arith
roomy-NoneRuns (suc (suc zero)) p e = ground arith
roomy-NoneRuns (suc (suc (suc i))) p e = cc

schedule-OnlyRuns_example :
    ((schedule roomy ≡ (roomy, false))
      × ((slot idx : ℕ) → ¬ Candidate roomy.pstat roomy.procs slot idx))
    ⊎ ((t' : Ptable) × (k : ℕ) × (schedule roomy ≡ (t', true)) × OnlyRuns roomy t' k)
schedule-OnlyRuns_example = schedule-OnlyRuns roomy roomy-NoneRuns
