-- ===== src/Proc/Lifecycle.antt =====
-- Creation and end of processes: allocproc, fork, exit and wait of
-- P4_XV6_Stride_Scheduling/kernel/proc.c.
pub mod Exit
pub mod Wait
pub mod Alloc
pub mod Fork
use cs537_sp23_operating_sys.Common.{
  ℕ, Bool, List, Option, Outcome, [], false, get_or, if◌then◌else◌, length, negsuc, none, not, ok,
  panic, pos, replicate, set, some, suc, true, update, zero, ℤ, ◌%◌, ◌+◌, ◌==◌, ◌>>=◌, ◌^◌, ◌||◌,
  ◌∷◌,
}
use cs537_sp23_operating_sys.Proc.{
  unused, embryo, runnable, zombie, same_state, Proc, Pstat, Ptable, wakeup1, sleep_start,
}

-- What these routines ask of the allocator, the page tables and the files. A page or a page table at
-- address 0 is a failure.
pub record Resources : Type 1 where
  pub R : Type 0
  pub kalloc : R → ℕ × R
  pub kfree : ℕ → R → Outcome R
  pub copyuvm : ℕ → ℕ → R → Outcome (ℕ × R)
  pub freevm : ℕ → R → Outcome R
  pub filedup : ℕ → R → Outcome R
  pub fileclose : ℕ → R → Outcome R
  pub idup : ℕ → R → R
  pub iput : ℕ → R → Outcome R

-- The files of a child: those of the parent, and where it has none what the slot held.
abbrev pub inherit : List ℕ → List ℕ → List ℕ
inherit [] olds = []
inherit (f ∷ fs) [] = f ∷ fs
inherit (f ∷ fs) (old ∷ olds) = (if f == 0 then old else f) ∷ inherit fs olds

-- The first unused slot.
unfoldable pub find_unused : List Proc → ℕ → Option ℕ
find_unused [] i = none
find_unused (p ∷ ps) i = if same_state p.state unused then some i else find_unused ps (i + 1)

abbrev pub empty_proc : Proc
empty_proc = record {
  sz = 0;
  pgdir = 0;
  kstack = 0;
  state = unused;
  pid = 0;
  parent = none;
  chan = 0;
  killed = 0;
  ofile = [];
  cwd = 0;
  name = [];
}

abbrev pub proc_at : Ptable → ℕ → Proc
proc_at t i = get_or t.procs i empty_proc

abbrev pub put_proc : Ptable → ℕ → Proc → Ptable
put_proc t i p = record t { procs = set t.procs i p }

-- The slot becomes an embryo with the next pid.
abbrev pub claim_slot : Ptable → ℕ → Ptable
claim_slot t i = record t {
  procs = set t.procs i (record (proc_at t i) { state = embryo; pid = t.nextpid });
  nextpid = (t.nextpid + 1) % 2 ^ 32;
}

-- The entry of pstat that `fork` takes: the first that is not in use behind the current one, by the
-- number of rounds left and the value of the loop's `i`.
pub find_entry : ℕ → ℕ → Pstat → ℕ → Option ℕ
find_entry zero i s cur = none
find_entry (suc n) i s cur =
    let rest = find_entry n (i + 1) s cur in
    if s.inuse ((cur + i) % 64) == 0 then some ((cur + i) % 64) else rest

-- The new process inherits tickets and stride, and starts with one stride of pass.
abbrev pub start_entry : Pstat → ℕ → ℕ → ℕ → Pstat
start_entry s cur idx pid = record {
  inuse = update s.inuse idx 1;
  tickets = update s.tickets idx (s.tickets cur);
  strides = update s.strides idx (s.strides cur);
  pass = update s.pass idx (s.strides cur);
  pids = update s.pids idx pid;
  ticks = update s.ticks idx 0;
}

abbrev pub is_child : ℕ → Proc → Bool
is_child me p = elim p.parent [ none ↦ false | some q ↦ q == me ]

-- What the scan of `wait` has seen: a zombie child in this slot, or whether there are children.
pub data Scan : Type 0 where
  reap : ℕ → Scan
  seen : Bool → Scan

pub wait_scan : List Proc → ℕ → ℕ → Bool → Scan
wait_scan [] me i havekids = seen havekids
wait_scan (p ∷ ps) me i havekids =
    if is_child me p
    then if same_state p.state zombie then reap i else wait_scan ps me (i + 1) true
    else wait_scan ps me (i + 1) havekids

-- `proc_addr i` is the address of slot `i`, the channel on which that process waits for children.
module _ (proc_addr : ℕ → ℕ) where
  abbrev pub parent_chan : Option ℕ → ℕ
  parent_chan none = 0
  parent_chan (some q) = proc_addr q

  -- The body of the loop of `exit` over the table.
  pub adopt : ℕ → ℕ → ℕ → List Proc → List Proc
  adopt i me init ps =
      let p = get_or ps i empty_proc in
      let adopted = set ps i (record p { parent = some init }) in
      if is_child me p
      then if same_state p.state zombie then wakeup1 (proc_addr init) adopted else adopted
      else ps

  -- The loop, with `n` slots left from `i` on.
  pub reparent : ℕ → ℕ → ℕ → ℕ → List Proc → List Proc
  reparent zero i me init ps = ps
  reparent (suc n) i me init ps = reparent n (i + 1) me init (adopt i me init ps)

  -- `exit` from the lock on: the process table when the scheduler takes over.
  pub exit_table : ℕ → Ptable → Ptable
  exit_table me t =
      let woken = wakeup1 (parent_chan (proc_at t me).parent) t.procs in
      let adopted = reparent (length t.procs) 0 me t.initproc woken in
      record t {
        procs = set adopted me (record (get_or adopted me empty_proc) { state = zombie });
        pstat = record (t.pstat) { inuse = update t.pstat.inuse t.curr_pstat_idx 0 };
      }

module _ (K : Resources) where
  open K use {R, kalloc, kfree, copyuvm, freevm, filedup, fileclose, idup, iput}

  -- The slot, if there is one, with the table and the resources.
  unfoldable pub allocproc : Ptable → R → Option ℕ × Ptable × R
  unfolding find_unused
  allocproc t r = elim (find_unused t.procs 0) [
    | none ↦ (none, t, r)
    | some i ↦
        let t1 = claim_slot t i in
        let (stack, r1) = kalloc r in
        if stack == 0
        then (none, put_proc t1 i (record (proc_at t1 i) { kstack = 0; state = unused }), r1)
        else (some i, put_proc t1 i (record (proc_at t1 i) { kstack = stack }), r1)
  ]

  -- The open files of the parent, 0 for none.
  unfoldable pub dup_files : List ℕ → R → Outcome R
  dup_files [] r = ok r
  dup_files (f ∷ fs) r = if f == 0 then dup_files fs r else (filedup f r >>= λ r1. dup_files fs r1)

  close_files : List ℕ → R → Outcome R
  close_files [] r = ok r
  close_files (f ∷ fs) r =
      if f == 0 then close_files fs r else (fileclose f r >>= λ r1. close_files fs r1)

  -- The entry of pstat for the child, if one is free.
  abbrev add_entry : Ptable → ℕ → Ptable
  add_entry t pid = elim (find_entry 63 1 t.pstat t.curr_pstat_idx) [
    | none ↦ t
    | some idx ↦ record t { pstat = start_entry t.pstat t.curr_pstat_idx idx pid }
  ]

  -- The pid of the child, or -1. The trap frame, with which the child returns 0, is not modelled.
  pub fork : ℕ → Ptable → R → Outcome (ℤ × Ptable × R)
  fork me t r =
      let (slot, t1, r1) = allocproc t r in
      elim slot [
        | none ↦ ok (negsuc 0, t1, r1)
        | some np ↦ do
          let p = proc_at t1 me
          (dir, r2) ← copyuvm p.pgdir p.sz r1
          if dir == 0
              then (do
                r3 ← kfree (proc_at t1 np).kstack r2
                ok (
                  negsuc 0,
                  put_proc t1 np (record (proc_at t1 np) { pgdir = 0; kstack = 0; state = unused }),
                  r3,
                ))
              else (do
                r3 ← dup_files p.ofile r2
                let child = record (proc_at t1 np) {
                  pgdir = dir;
                  sz = p.sz;
                  parent = some me;
                  ofile = inherit p.ofile (proc_at t1 np).ofile;
                  cwd = p.cwd;
                  name = p.name;
                  state = runnable;
                }
                ok (pos child.pid, add_entry (put_proc t1 np child) child.pid, idup p.cwd r3))
      ]

  -- `exit` up to the scheduler.
  pub exit : (ℕ → ℕ) → ℕ → Ptable → R → Outcome (Ptable × R)
  exit proc_addr me t r = if me == t.initproc then panic else (do
    let p = proc_at t me
    r1 ← close_files p.ofile r
    let closed = put_proc t me (record p { ofile = replicate 16 0; cwd = 0 })
    r2 ← iput p.cwd r1
    ok (exit_table proc_addr me closed, r2))

  -- What `wait` does behind its scan.
  pub after_scan : (ℕ → ℕ) → ℕ → Ptable → R → Scan → Outcome (Option ℤ × Ptable × R)
  after_scan proc_addr me t r (reap i) = do
    let p = proc_at t i
    r1 ← kfree p.kstack r
    r2 ← freevm p.pgdir r1
    ok (
      some (pos p.pid),
      put_proc t i
          (record p { kstack = 0; state = unused; pid = 0; parent = none; name = []; killed = 0 }),
      r2,
    )
  after_scan proc_addr me t r (seen havekids) =
      if not havekids || not ((proc_at t me).killed == 0)
      then ok (some (negsuc 0), t, r)
      else (do t1 ← sleep_start me (proc_addr me) t; ok (none, t1, r))

  -- One round of `wait`: it returns a pid or -1, or sleeps.
  pub wait_round : (ℕ → ℕ) → ℕ → Ptable → R → Outcome (Option ℤ × Ptable × R)
  wait_round proc_addr me t r = after_scan proc_addr me t r (wait_scan t.procs me 0 false)
