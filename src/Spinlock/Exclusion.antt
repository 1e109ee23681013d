-- ===== src/Spinlock/Exclusion.antt =====
-- Who has the lock, over all runs of several processors.
use native.Mathlib.Decide.{ℕ_discrete}
use mathlib.Core.Path.{subst}
use cs537_sp23_operating_sys.Common.{
  ℕ, Bool, Option, eq→==, false, if◌then◌else◌, ne→==, none, some, true, update, ◌≡◌, ◌≢◌,
  Bool-cases, ap, arith, inl, inr, refl, sym, ◌==◌, ◌∙◌, ok, update_ne, update_self, List, [], ◌∷◌,
}
use cs537_sp23_operating_sys.Spinlock.{
  Cpu, Lock, System, Place, outside, testing, asking, spinning, won, inside, checking, clearing,
  leaving, freed, move, owned_by, pushcli, popcli, advance, run, start,
}

-- From the exchange that gives the lock to the one that takes it back.
abbrev pub critical : Place → Bool
critical outside = false
critical testing = false
critical asking = false
critical spinning = false
critical won = true
critical inside = true
critical checking = true
critical clearing = true
critical leaving = true
critical freed = false

-- Where the processor with the lock is its `cpu`.
abbrev pub is_owner : Place → Bool
is_owner inside = true
is_owner checking = true
is_owner clearing = true
is_owner _ = false

-- Who has the lock.
abbrev pub Held : Lock → (ℕ → Place) → Option ℕ → Type 0
Held lk place none = (lk.locked ≡ 0) × (lk.owner ≡ none) × ((c : ℕ) → critical (place c) ≡ false)
Held lk place (some h) =
    (lk.locked ≡ 1)
    × (critical (place h) ≡ true)
    × (lk.owner ≡ (if is_owner (place h) then some h else none))
    × ((c : ℕ) → c ≢ h → critical (place c) ≡ false)

-- From pushcli to popcli a processor has its interrupts off, once.
abbrev pub Masked : Place → Cpu → Type 0
Masked outside c = c.ncli ≡ 0
Masked _ c = (c.ncli ≡ 1) × (c.interrupts ≡ false)

pub record IsValid (s : System) : Type 0 where
  pub holder : Option ℕ
  pub held : Held s.lock s.place holder
  pub masked : (c : ℕ) → Masked (s.place c) (s.cpus c)

Masked-update :
    (s : System) (me : ℕ) (p : Place) (c : Cpu)
    → ((i : ℕ) → Masked (s.place i) (s.cpus i))
    → Masked p c
    → (i : ℕ) → Masked (update s.place me p i) (update s.cpus me c i)
Masked-update s me p c all new i = elim (ℕ_discrete me i) [
  | yes same ↦ rw (eq→== me i same) new
  | no ne ↦ rw (ne→== me i ne) (all i)
]

Masked-place :
    (s : System) (me : ℕ) (p : Place)
    → ((i : ℕ) → Masked (s.place i) (s.cpus i))
    → Masked p (s.cpus me)
    → (i : ℕ) → Masked (update s.place me p i) (s.cpus i)
Masked-place s me p all new i = elim (ℕ_discrete me i) [
  | yes same ↦ rw (eq→== me i same) (rw same at new)
  | no ne ↦ rw (ne→== me i ne) (all i)
]

module _ (lk : Lock) (place : ℕ → Place) (me : ℕ) where
  not_owned :
      (holder : Option ℕ)
      → Held lk place holder
      → critical (place me) ≡ false
      → owned_by me lk.owner ≡ false
  not_owned none (free, owner, nobody) out = rw owner refl
  not_owned (some h) (locked, busy, owner, others) out = elim (ℕ_discrete h me) [
    | yes same ↦ absurd (cc (busy, out, ap place same))
    | no ne ↦ elim (Bool-cases (is_owner (place h))) [
      | inl here ↦
          let owns : lk.owner ≡ some h = owner ∙ rw here refl in
          let other : (h == me) ≡ false = ne→== h me ne in rw owns other
      | inr gone ↦ let owns : lk.owner ≡ none = owner ∙ rw gone refl in rw owns refl
    ]
  ]

  Held-mine :
      (holder : Option ℕ)
      → Held lk place holder
      → critical (place me) ≡ true
      → Held lk place (some me)
  Held-mine none (free, owner, nobody) busy = absurd (cc (nobody me, busy))
  Held-mine (some h) held busy = elim (ℕ_discrete me h) [
    | yes same ↦ subst (λ x. Held lk place (some x)) (sym same) held
    | no ne ↦ absurd (cc (held.3 me ne, busy))
  ]

  critical-update :
      (p : Place) (c : ℕ)
      → (me ≢ c → critical (place c) ≡ false)
      → critical p ≡ false
      → critical (update place me p c) ≡ false
  critical-update p c other here = elim (ℕ_discrete me c) [
    | yes same ↦ rw (eq→== me c same) here
    | no ne ↦ rw (ne→== me c ne) (other ne)
  ]

  -- A step of a processor outside that keeps it there.
  Held-outside :
      (holder : Option ℕ) (p : Place)
      → Held lk place holder
      → critical (place me) ≡ false
      → critical p ≡ false
      → Held lk (update place me p) holder
  Held-outside none p (free, owner, nobody) out still =
      (free, owner, λ c. critical-update p c (λ _. nobody c) still)
  Held-outside (some h) p (locked, busy, owner, others) out still =
      let ne : me ≢ h = λ e. cc (busy, out, ap place e) in
      let same : update place me p h ≡ place h = update_ne place me h p ne in
      (locked, rw same busy, rw same owner, λ c d. critical-update p c (λ _. others c d) still)

  -- A step of the processor that has the lock, or gets it.
  Held-step :
      (lk' : Lock) (p : Place)
      → ((c : ℕ) → c ≢ me → critical (place c) ≡ false)
      → critical p ≡ true
      → lk'.locked ≡ 1
      → lk'.owner ≡ (if is_owner p then some me else none)
      → Held lk' (update place me p) (some me)
  Held-step lk' p others busy locked owner =
      let here : update place me p me ≡ p = update_self place me p in
      (
        locked,
        rw here busy,
        rw here owner,
        λ c ne. ap critical (update_ne place me c p (λ e. ne (sym e))) ∙ others c ne,
      )

abbrev exchanged : ℕ → System → System
exchanged me s = record s {
  lock = record (s.lock) { locked = 1 };
  place = update s.place me (if s.lock.locked == 0 then won else spinning);
}

spinning-IsValid :
    (me : ℕ) (s : System) (holder : Option ℕ)
    → Held s.lock s.place holder
    → critical (s.place me) ≡ false
    → ((c : ℕ) → Masked (s.place c) (s.cpus c))
    → Masked won (s.cpus me)
    → IsValid (exchanged me s)
spinning-IsValid me s none (locked, owner, nobody) out masked quiet =
    let free : (s.lock.locked == 0) ≡ true = ground arith in
    record {
      holder = some me;
      held = rw free (
          Held-step s.lock s.place me (record (s.lock) { locked = 1 }) won (λ c ne. nobody c) refl
            refl owner);
      masked = rw free (Masked-place s me won masked quiet);
    }
spinning-IsValid me s (some h) (locked, busy, owner, others) out masked quiet =
    let taken : (s.lock.locked == 0) ≡ false = ground arith in
    let kept =
      Held-outside s.lock s.place me (some h) spinning (locked, busy, owner, others) out refl in
    record {
      holder = some h;
      held = rw taken (refl, kept.1, kept.2, kept.3);
      masked = rw taken (Masked-place s me spinning masked quiet);
    }

-- A move of a processor without the lock.
move-outside :
    (me : ℕ) (p q : Place) (s : System)
    → s.place me ≡ p
    → critical p ≡ false
    → critical q ≡ false
    → Masked q (s.cpus me)
    → IsValid s
    → IsValid (move me q s)
move-outside me p q s stands from to quiet valid =
    let out : critical (s.place me) ≡ false = rw stands from in
    record {
      holder = valid.holder;
      held = Held-outside s.lock s.place me valid.holder q valid.held out to;
      masked = Masked-place s me q valid.masked quiet;
    }

-- The lock, seen by the processor that has it.
mine_at :
    (me : ℕ) (p : Place) (s : System)
    → s.place me ≡ p
    → critical p ≡ true
    → IsValid s
    → (s.lock.locked ≡ 1)
      × (s.lock.owner ≡ (if is_owner p then some me else none))
      × ((c : ℕ) → c ≢ me → critical (s.place c) ≡ false)
mine_at me p s stands from valid =
    let busy : critical (s.place me) ≡ true = rw stands from in
    let mine = Held-mine s.lock s.place me valid.holder valid.held busy in
    (mine.0, mine.2 ∙ rw stands refl, mine.3)

-- A step of the processor with the lock which keeps it.
keep-IsValid :
    (me : ℕ) (p q : Place) (owner : Option ℕ) (s : System)
    → s.place me ≡ p
    → critical p ≡ true
    → critical q ≡ true
    → owner ≡ (if is_owner q then some me else none)
    → Masked q (s.cpus me)
    → IsValid s
    → IsValid (record s { lock = record (s.lock) { owner = owner }; place = update s.place me q })
keep-IsValid me p q owner s stands from to owns quiet valid =
    let (locked, before, others) = mine_at me p s stands from valid in
    record {
      holder = some me;
      held =
          Held-step s.lock s.place me (record (s.lock) { owner = owner }) q others to locked owns;
      masked = Masked-place s me q valid.masked quiet;
    }

-- The exchange of `release`.
leaving-IsValid :
    (me : ℕ) (s : System)
    → s.place me ≡ leaving
    → Masked freed (s.cpus me)
    → IsValid s
    → IsValid (record s { lock = record (s.lock) { locked = 0 }; place = update s.place me freed })
leaving-IsValid me s stands quiet valid =
    let (locked, owner, others) = mine_at me leaving s stands refl valid in
    record {
      holder = none;
      held = (
        refl,
        owner,
        λ c. critical-update s.lock s.place me freed c (λ ne. others c (λ e. ne (sym e))) refl,
      );
      masked = Masked-place s me freed valid.masked quiet;
    }

-- A pushcli or popcli.
cli-IsValid :
    (me : ℕ) (p q : Place) (c : Cpu) (s : System)
    → s.place me ≡ p
    → critical p ≡ false
    → critical q ≡ false
    → Masked q c
    → IsValid s
    → IsValid (record s { place = update s.place me q; cpus = update s.cpus me c })
cli-IsValid me p q c s stands from to quiet valid =
    let out : critical (s.place me) ≡ false = rw stands from in
    record {
      holder = valid.holder;
      held = Held-outside s.lock s.place me valid.holder q valid.held out to;
      masked = Masked-update s me q c valid.masked quiet;
    }

testing-IsValid :
    (me : ℕ) (s : System) (free : Bool)
    → s.place me ≡ testing
    → Masked testing (s.cpus me)
    → IsValid s
    → IsValid (move me (if free then spinning else asking) s)
testing-IsValid me s true stands quiet valid =
    move-outside me testing spinning s stands refl refl quiet valid
testing-IsValid me s false stands quiet valid =
    move-outside me testing asking s stands refl refl quiet valid

-- One step of a processor from its place.
advance-IsValid :
    (me : ℕ) (p : Place) (s : System)
    → s.place me ≡ p
    → IsValid s
    → (s' : System) × (advance me p s ≡ ok s') × IsValid s'
unfolding advance
advance-IsValid me outside s stands valid =
    let quiet : Masked outside (s.cpus me) = rw stands at (valid.masked me) in
    (
      _,
      refl,
      cli-IsValid me outside testing (pushcli (s.cpus me)) s stands refl refl
          (ground (arith, quiet), refl) valid,
    )
advance-IsValid me testing s stands valid =
    let quiet : Masked testing (s.cpus me) = rw stands at (valid.masked me) in
    (_, refl, testing-IsValid me s (s.lock.locked == 0) stands quiet valid)
advance-IsValid me asking s stands valid =
    let quiet : Masked asking (s.cpus me) = rw stands at (valid.masked me) in
    let out : critical (s.place me) ≡ false = rw stands refl in
    let free = not_owned s.lock s.place me valid.holder valid.held out in
    (
      move me spinning s,
      rw free refl,
      move-outside me asking spinning s stands refl refl quiet valid,
    )
advance-IsValid me spinning s stands valid =
    let out : critical (s.place me) ≡ false = rw stands refl in
    let quiet : Masked spinning (s.cpus me) = rw stands at (valid.masked me) in
    (exchanged me s, refl, spinning-IsValid me s valid.holder valid.held out valid.masked quiet)
advance-IsValid me won s stands valid =
    let quiet : Masked won (s.cpus me) = rw stands at (valid.masked me) in
    (_, refl, keep-IsValid me won inside (some me) s stands refl refl refl quiet valid)
advance-IsValid me inside s stands valid =
    let quiet : Masked inside (s.cpus me) = rw stands at (valid.masked me) in
    let (locked, owner, others) = mine_at me inside s stands refl valid in
    (
      move me checking s,
      rw locked refl,
      keep-IsValid me inside checking s.lock.owner s stands refl refl owner quiet valid,
    )
advance-IsValid me checking s stands valid =
    let quiet : Masked checking (s.cpus me) = rw stands at (valid.masked me) in
    let (locked, owner, others) = mine_at me checking s stands refl valid in
    let self = eq→== me me refl in
    (
      move me clearing s,
      rw (owner, self) refl,
      keep-IsValid me checking clearing s.lock.owner s stands refl refl owner quiet valid,
    )
advance-IsValid me clearing s stands valid =
    let quiet : Masked clearing (s.cpus me) = rw stands at (valid.masked me) in
    (_, refl, keep-IsValid me clearing leaving none s stands refl refl refl quiet valid)
advance-IsValid me leaving s stands valid =
    let quiet : Masked leaving (s.cpus me) = rw stands at (valid.masked me) in
    (_, refl, leaving-IsValid me s stands quiet valid)
advance-IsValid me freed s stands valid =
    let quiet : Masked freed (s.cpus me) = rw stands at (valid.masked me) in
    let once = quiet.0 in
    let off = quiet.1 in
    let back : Cpu = record (s.cpus me) { ncli = 0; interrupts = (s.cpus me).intena } in
    let popped : popcli (s.cpus me) ≡ ok back = rw (once, off) refl in
    (
      record s { place = update s.place me outside; cpus = update s.cpus me back },
      rw popped refl,
      cli-IsValid me freed outside back s stands refl refl refl valid,
    )

run-IsValid :
    (schedule : List ℕ) (s : System)
    → IsValid s
    → (s' : System) × (run schedule s ≡ ok s') × IsValid s'
unfolding run
run-IsValid [] s valid = (s, refl, valid)
run-IsValid (me ∷ schedule) s valid =
    let (s1, e, valid1) = advance-IsValid me (s.place me) s refl valid in
    let (s2, e2, valid2) = run-IsValid schedule s1 valid1 in (s2, rw (e, run) e2, valid2)

alone :
    (s : System) (holder : Option ℕ) (a b : ℕ)
    → Held s.lock s.place holder
    → critical (s.place a) ≡ true
    → critical (s.place b) ≡ true
    → a ≡ b
alone s holder a b held busy_a busy_b = elim (ℕ_discrete b a) [
  | yes same ↦ sym same
  | no ne ↦
      let mine = Held-mine s.lock s.place a holder held busy_a in absurd (cc (mine.3 b ne, busy_b))
]

-- Any number of processors, making their steps in any order from the start: no `acquire`, `release` or
-- `popcli` panics, no two processors are between the exchange that takes the lock and the one that gives it
-- back, and each that is past its pushcli and not yet past its popcli has its interrupts off.
pub run-exclusion :
    (schedule : List ℕ) (flags : ℕ → Bool)
    → (s : System) × (run schedule (start flags) ≡ ok s)
      × ((a b : ℕ) → critical (s.place a) ≡ true → critical (s.place b) ≡ true → a ≡ b)
      × ((c : ℕ) → Masked (s.place c) (s.cpus c))
run-exclusion schedule flags =
    let first : IsValid (start flags) = record {
      holder = none;
      held = (refl, refl, λ c. refl);
      masked = λ c. refl;
    } in
    let (s, e, valid) = run-IsValid schedule (start flags) first in
    (s, e, (λ a b. alone s valid.holder a b valid.held), valid.masked)
