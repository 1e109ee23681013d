-- ===== src/Proc.antt =====
-- Processes and their stride scheduler: P4_XV6_Stride_Scheduling/kernel/proc.c and proc.h.
-- Every routine below runs with ptable.lock held, or is cut where it gives the lock up.
pub mod Lifecycle
pub mod Wakeup
pub mod Select
pub mod Tickets
pub mod Turns
mod Tests
use cs537_sp23_operating_sys.Common.{
  ℕ, Bool, List, Option, Outcome, [], false, get_elem?, if◌then◌else◌, leb, negsuc, none, ok, panic,
  pos, rank, set, some, suc, true, update, zero, ℤ, ◌%◌, ◌&&◌, ◌+◌, ◌/◌, ◌==◌, ◌^◌, ◌∷◌, ltb,
}

pub data ProcState : Type 0 where
  unused embryo sleeping runnable running zombie : ProcState

abbrev pub same_state : ProcState → ProcState → Bool
same_state unused unused = true
same_state embryo embryo = true
same_state sleeping sleeping = true
same_state runnable runnable = true
same_state running running = true
same_state zombie zombie = true
same_state _ _ = false

-- `struct proc`. A pointer to a process is its slot in the table, an address 0 is NULL, and `name` is
-- the text before its NUL.
pub record Proc : Type 0 where
  pub sz : ℕ
  pub pgdir : ℕ
  pub kstack : ℕ
  pub state : ProcState
  pub pid : ℕ
  pub parent : Option ℕ
  pub chan : ℕ
  pub killed : ℕ
  pub ofile : List ℕ
  pub cwd : ℕ
  pub name : List ℕ

-- `struct pstat`: six arrays of NPROC entries.
pub record Pstat : Type 0 where
  pub inuse : ℕ → ℕ
  pub tickets : ℕ → ℕ
  pub strides : ℕ → ℕ
  pub pass : ℕ → ℕ
  pub pids : ℕ → ℕ
  pub ticks : ℕ → ℕ

-- `ptable` with the variables beside it: `curr_pstat_idx`, `nextpid`, `initproc` and `proc`.
pub record Ptable : Type 0 where
  pub procs : List Proc
  pub pstat : Pstat
  pub curr_pstat_idx : ℕ
  pub nextpid : ℕ
  pub initproc : ℕ
  pub current : Option ℕ

abbrev pub nproc : ℕ
nproc = 64

abbrev pub max_stride : ℕ
max_stride = 2 ^ 14

-- A process that `wakeup1` looks at.
abbrev pub wake : ℕ → Proc → Proc
wake chan p =
    if same_state p.state sleeping && (p.chan == chan) then record p { state = runnable } else p

pub wakeup1 : ℕ → List Proc → List Proc
wakeup1 chan [] = []
wakeup1 chan (p ∷ ps) = wake chan p ∷ wakeup1 chan ps

pub wakeup : ℕ → Ptable → Ptable
wakeup chan t = record t { procs = wakeup1 chan t.procs }

abbrev pub mark_killed : Proc → Proc
mark_killed p = record p {
  killed = 1;
  state = if same_state p.state sleeping then runnable else p.state;
}

-- The loop of `kill`: the table after the first match, or none.
pub kill_in : ℕ → List Proc → Option (List Proc)
kill_in pid [] = none
kill_in pid (p ∷ ps) =
    if p.pid == pid
    then some (mark_killed p ∷ ps)
    else elim (kill_in pid ps) [ none ↦ none | some qs ↦ some (p ∷ qs) ]

-- The result and the table.
pub kill : ℕ → Ptable → ℤ × Ptable
kill pid t = elim (kill_in pid t.procs) [
  | none ↦ (negsuc 0, t)
  | some ps ↦ (pos 0, record t { procs = ps })
]

-- The part of `yield` before `sched`.
pub yield_start : ℕ → Ptable → Outcome Ptable
yield_start me t = elim (get_elem? t.procs me) [
  | none ↦ panic
  | some p ↦ ok (record t { procs = set t.procs me (record p { state = runnable }) })
]

-- `sleep` up to `sched`, and what it does when it is scheduled again.
pub sleep_start : ℕ → ℕ → Ptable → Outcome Ptable
sleep_start me chan t = elim (get_elem? t.procs me) [
  | none ↦ panic
  | some p ↦ ok (record t { procs = set t.procs me (record p { chan = chan; state = sleeping }) })
]

pub sleep_end : ℕ → Ptable → Outcome Ptable
sleep_end me t = elim (get_elem? t.procs me) [
  | none ↦ panic
  | some p ↦ ok (record t { procs = set t.procs me (record p { chan = 0 }) })
]

-- The candidate of the scheduler's scan: `minp`, `nxt_pstat_idx` and `min_pass_value`.
pub record Pick : Type 0 where
  pub slot : ℕ
  pub idx : ℕ
  pub value : ℕ

-- One entry of pstat for a runnable process.
abbrev pub consider : Pstat → ℕ → ℕ → ℕ → Option Pick → Option Pick
consider s slot pid i none =
    if s.pids i == pid then some (record { slot = slot; idx = i; value = s.pass i }) else none
consider s slot pid i (some b) =
    if s.pids i == pid && leb (rank (s.pass i)) (rank b.value)
    then some (record { slot = slot; idx = i; value = s.pass i })
    else some b

-- The inner loop, with `n` rounds left from entry `i` on.
pub scan_pstat : ℕ → Pstat → ℕ → ℕ → ℕ → Option Pick → Option Pick
scan_pstat zero s slot pid i best = best
scan_pstat (suc n) s slot pid i best = scan_pstat n s slot pid (i + 1) (consider s slot pid i best)

-- The outer loop, from slot `slot` on.
pub scan_procs : List Proc → Pstat → ℕ → Option Pick → Option Pick
scan_procs [] s slot best = best
scan_procs (p ∷ ps) s slot best =
    scan_procs ps s (slot + 1)
      (if same_state p.state runnable then scan_pstat 64 s slot p.pid 0 best else best)

pub select : Ptable → Option Pick
select t = scan_procs t.procs t.pstat 0 none

-- The process that ran is charged, and the chosen one becomes current and runs.
abbrev pub switch_to : Pick → Ptable → Ptable
switch_to b t = record t {
  procs = elim (get_elem? t.procs b.slot) [
    | none ↦ t.procs
    | some p ↦ set t.procs b.slot (record p { state = running })
  ];
  pstat = record (t.pstat) {
    pass =
        update t.pstat.pass t.curr_pstat_idx
          ((t.pstat.pass t.curr_pstat_idx + t.pstat.strides t.curr_pstat_idx) % 2 ^ 32);
    ticks = update t.pstat.ticks t.curr_pstat_idx ((t.pstat.ticks t.curr_pstat_idx + 1) % 2 ^ 32);
  };
  curr_pstat_idx = b.idx;
  current = some b.slot;
}

-- One round of `scheduler` up to `swtch`: the table, and whether a process was started.
pub schedule : Ptable → Ptable × Bool
unfolding select
schedule t = elim (select t) [ none ↦ (t, false) | some b ↦ (switch_to b t, true) ]

-- `none` is the division by zero; `number` is not negative.
pub settickets : ℕ → Ptable → Option (ℤ × Ptable)
settickets number t =
    if number == 0
    then none
    else some (
      pos 0,
      record t {
        pstat = record (t.pstat) {
          tickets = update t.pstat.tickets t.curr_pstat_idx number;
          strides = update t.pstat.strides t.curr_pstat_idx (max_stride / number);
        };
      },
    )

-- The system call on the pattern that `argint` fetched, or on its failure.
pub sys_settickets : Option ℕ → Ptable → Option (ℤ × Ptable)
sys_settickets none t = some (negsuc 0, t)
sys_settickets (some number) t =
    if ltb (rank number) (rank 1) then some (negsuc 0, t) else settickets number t

-- `pstat_ptr` is NULL or a place for the copy.
pub getpinfo : Bool → Ptable → ℤ × Option Pstat
getpinfo is_null t = if is_null then (negsuc 0, none) else (pos 0, some t.pstat)
