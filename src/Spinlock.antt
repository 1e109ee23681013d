-- ===== src/Spinlock.antt =====
-- Spin locks: P5_XV6_CoW_Fork/kernel/spinlock.c, for one lock that any number of processors take and give
-- back in any order of their steps. Each read, write or exchange of `locked` and `cpu` is a step, and so are
-- pushcli and popcli, which touch the processor's own state only. The call stacks that are recorded for
-- debugging are not modelled.
pub mod Exclusion
mod Tests
use cs537_sp23_operating_sys.Common.{
  ℕ, Bool, List, Option, Outcome, [], false, if◌then◌else◌, ltb, none, not, ok, panic, rank, some,
  update, ◌%◌, ◌&&◌, ◌+◌, ◌-◌, ◌==◌, ◌>>=◌, ◌^◌, ◌∷◌,
}

-- `struct cpu` as far as pushcli and popcli use it, with the interrupt flag of the processor.
pub record Cpu : Type 0 where
  pub ncli : ℕ
  pub intena : Bool
  pub interrupts : Bool

-- `struct spinlock`: the processor that holds it, or none for a null `cpu`.
pub record Lock : Type 0 where
  pub locked : ℕ
  pub owner : Option ℕ

abbrev pub initlock : Lock
initlock = record { locked = 0; owner = none }

abbrev pub pushcli : Cpu → Cpu
pushcli c = record {
  ncli = (c.ncli + 1) % 2 ^ 32;
  intena = if c.ncli == 0 then c.interrupts else c.intena;
  interrupts = false;
}

abbrev pub popcli : Cpu → Outcome Cpu
popcli c =
    let n = (c.ncli + (2 ^ 32 - 1)) % 2 ^ 32 in
    if c.interrupts
    then panic
    else if ltb (rank n) (rank 0)
    then panic
    else ok (record c { ncli = n; interrupts = (n == 0) && c.intena })

abbrev pub owned_by : ℕ → Option ℕ → Bool
owned_by me none = false
owned_by me (some c) = c == me

-- Where a processor stands, by what it does next. In `acquire`: pushcli (outside), the two reads of `holding`
-- (testing, asking), the exchange (spinning), the write of `cpu` (won). In `release`: the two reads of
-- `holding` (inside, checking), the write of `cpu` (clearing), the exchange (leaving), popcli (freed).
pub data Place : Type 0 where
  outside testing asking spinning won inside checking clearing leaving freed : Place

pub record System : Type 0 where
  pub lock : Lock
  pub place : ℕ → Place
  pub cpus : ℕ → Cpu

-- The processor goes on to a place, and touches nothing else.
abbrev pub move : ℕ → Place → System → System
move me p s = record s { place = update s.place me p }

-- The next step of processor `me` through `acquire` and `release`.
pub advance : ℕ → Place → System → Outcome System
advance me outside s =
    ok (record s {
      place = update s.place me testing;
      cpus = update s.cpus me (pushcli (s.cpus me));
    })
advance me testing s = ok (move me (if s.lock.locked == 0 then spinning else asking) s)
advance me asking s = if owned_by me s.lock.owner then panic else ok (move me spinning s)
advance me spinning s = ok (record s {
  lock = record (s.lock) { locked = 1 };
  place = update s.place me (if s.lock.locked == 0 then won else spinning);
})
advance me won s =
    ok (record s { lock = record (s.lock) { owner = some me }; place = update s.place me inside })
advance me inside s = if s.lock.locked == 0 then panic else ok (move me checking s)
advance me checking s = if owned_by me s.lock.owner then ok (move me clearing s) else panic
advance me clearing s =
    ok (record s { lock = record (s.lock) { owner = none }; place = update s.place me leaving })
advance me leaving s =
    ok (record s { lock = record (s.lock) { locked = 0 }; place = update s.place me freed })
advance me freed s = popcli (s.cpus me) >>= λ c.
    ok (record s { place = update s.place me outside; cpus = update s.cpus me c })

abbrev pub step : ℕ → System → Outcome System
step me s = advance me (s.place me) s

-- A run, by the processors that make its steps.
pub run : List ℕ → System → Outcome System
run [] s = ok s
run (me ∷ schedule) s = step me s >>= run schedule

-- All processors are outside, and none has turned its interrupts off by pushcli.
abbrev pub start : (ℕ → Bool) → System
start flags = record {
  lock = initlock;
  place = λ c. outside;
  cpus = λ c. record { ncli = 0; intena = false; interrupts = flags c };
}
