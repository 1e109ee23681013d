-- ===== src/Proc/Lifecycle/Wait.antt =====
-- `wait`: when it returns a child, when it fails, and when it sleeps.
use cs537_sp23_operating_sys.Common.{
  ℕ, Bool, Bool-cases, List, Option, [], arith, false, get_elem?, inl, inr, negsuc, none, ok, pos,
  refl, some, suc, true, zero, ℤ, ◌+◌, ◌∷◌, ◌≡◌, ◌≢◌, ◌⊎◌, Outcome, ap, get_elem?-eq-get_or,
  get_or_of_get_elem?, length, ◌<◌, ◌==◌, ◌∙◌, set,
}
use cs537_sp23_operating_sys.Proc.{
  unused, zombie, same_state, ProcState, embryo, sleeping, running, runnable, Proc, Ptable,
  sleep_start,
}
use cs537_sp23_operating_sys.Proc.Lifecycle.{
  Resources, empty_proc, proc_at, put_proc, is_child, Scan, reap, seen, wait_scan, after_scan,
  wait_round,
}

abbrev pub NoZombieChild : List Proc → ℕ → Type 0
NoZombieChild ps me =
    (j : ℕ) (p : Proc) → get_elem? ps j ≡ some p → is_child me p ≡ true → p.state ≢ zombie

abbrev pub NoChild : List Proc → ℕ → Type 0
NoChild ps me = (j : ℕ) (p : Proc) → get_elem? ps j ≡ some p → is_child me p ≡ false

abbrev pub HasChild : List Proc → ℕ → Type 0
HasChild ps me = (j : ℕ) × (p : Proc) × (get_elem? ps j ≡ some p) × (is_child me p ≡ true)

-- What the scan has found from slot `i` on.
abbrev ScanSpec : List Proc → ℕ → ℕ → Bool → Scan → Type 0
ScanSpec ps me i havekids (reap k) =
    (j : ℕ) × (p : Proc) × (k ≡ i + j)
    × (get_elem? ps j ≡ some p)
    × (is_child me p ≡ true)
    × (p.state ≡ zombie)
ScanSpec ps me i havekids (seen true) = NoZombieChild ps me × ((havekids ≡ true) ⊎ HasChild ps me)
ScanSpec ps me i havekids (seen false) = NoChild ps me × (havekids ≡ false)

zombie_of : (x : ProcState) → same_state x zombie ≡ true → x ≡ zombie
zombie_of zombie h = refl
zombie_of unused h = cc
zombie_of embryo h = cc
zombie_of sleeping h = cc
zombie_of running h = cc
zombie_of runnable h = cc

not_zombie : (x : ProcState) → same_state x zombie ≡ false → x ≢ zombie
not_zombie x h e = let t : same_state x zombie ≡ true = rw e in cc

module _ (me : ℕ) (p : Proc) (ps : List Proc) (i : ℕ) where
  -- A slot with no child is passed over.
  ScanSpec-other :
      (havekids : Bool) (r : Scan)
      → is_child me p ≡ false
      → ScanSpec ps me (i + 1) havekids r
      → ScanSpec (p ∷ ps) me i havekids r
  ScanSpec-other havekids (reap k) no_child (j, q, e, a, b, c) = (suc j, q, omega arith, a, b, c)
  ScanSpec-other havekids (seen true) no_child (a, b) = (none_here, has b)
    where
      none_here : NoZombieChild (p ∷ ps) me
      none_here zero q e c = absurd (ground arith)
      none_here (suc j) q e c = a j q e c

      has : (havekids ≡ true) ⊎ HasChild ps me → (havekids ≡ true) ⊎ HasChild (p ∷ ps) me
      has (inl e) = inl e
      has (inr (j, q, e, c)) = inr (suc j, q, e, c)
  ScanSpec-other havekids (seen false) no_child (a, b) = (none_here, b)
    where
      none_here : NoChild (p ∷ ps) me
      none_here zero q e = ground arith
      none_here (suc j) q e = a j q e

  -- A child that is no zombie is noted.
  ScanSpec-child :
      (havekids : Bool) (r : Scan)
      → is_child me p ≡ true
      → (alive : p.state ≢ zombie) → ScanSpec ps me (i + 1) true r
      → ScanSpec (p ∷ ps) me i havekids r
  ScanSpec-child havekids (reap k) child alive (j, q, e, a, b, c) = (suc j, q, omega arith, a, b, c)
  ScanSpec-child havekids (seen true) child alive (a, b) = (none_here, inr (0, p, refl, child))
    where
      none_here : NoZombieChild (p ∷ ps) me
      none_here zero q e c = λ z. alive (ground arith)
      none_here (suc j) q e c = a j q e c
  ScanSpec-child havekids (seen false) child alive (a, b) = absurd (ground (arith, b))

wait_scan-ScanSpec :
    (ps : List Proc) (me i : ℕ) (havekids : Bool)
    → ScanSpec ps me i havekids (wait_scan ps me i havekids)
unfolding wait_scan
wait_scan-ScanSpec [] me i true = ((λ j p e. cc), inl refl)
wait_scan-ScanSpec [] me i false = ((λ j p e. cc), refl)
wait_scan-ScanSpec (p ∷ ps) me i havekids = elim (Bool-cases (is_child me p)) [
  | inl child ↦ elim (Bool-cases (same_state p.state zombie)) [
    | inl dead ↦ rw (child, dead) (0, p, omega arith, refl, child, zombie_of p.state dead)
    | inr alive ↦
        rw (child, alive)
          (ScanSpec-child me p ps i havekids _ child (not_zombie p.state alive)
            (wait_scan-ScanSpec ps me (i + 1) true))
  ]
  | inr other ↦
      rw other
        (ScanSpec-other me p ps i havekids _ other (wait_scan-ScanSpec ps me (i + 1) havekids))
]

sleep_start_lem :
    (me chan : ℕ) (t : Ptable) (p : Proc)
    → get_elem? t.procs me ≡ some p
    → sleep_start me chan t
      ≡ ok (record t { procs = set t.procs me (record p { chan = chan; state = sleeping }) })
unfolding sleep_start
sleep_start_lem me chan t p e = rw (e, sleep_start) refl

-- The slot of a process that was waited for.
abbrev pub reaped : Proc → Proc
reaped p = record p { kstack = 0; state = unused; pid = 0; parent = none; name = []; killed = 0 }

module _ (K : Resources) (proc_addr : ℕ → ℕ) (me : ℕ) (t : Ptable) (r : K.R) where
  -- What a round of `wait` that does not panic has done.
  abbrev pub WaitSpec : Option ℤ → Ptable → Type 0
  WaitSpec (some (pos pid)) t' =
      (k : ℕ) × (p : Proc) × (get_elem? t.procs k ≡ some p)
      × (is_child me p ≡ true)
      × (p.state ≡ zombie)
      × (pid ≡ p.pid)
      × (t' ≡ put_proc t k (reaped p))
  WaitSpec (some (negsuc n)) t' =
      (n ≡ 0)
      × (t' ≡ t)
      × NoZombieChild t.procs me
      × (NoChild t.procs me ⊎ ((proc_at t me).killed ≢ 0))
  WaitSpec none t' =
      NoZombieChild t.procs me
      × HasChild t.procs me
      × ((proc_at t me).killed ≡ 0)
      × (sleep_start me (proc_addr me) t ≡ ok t')

  abbrev WaitDone : Outcome (Option ℤ × Ptable × K.R) → Type 0
  WaitDone o =
      (out : Option ℤ) × (t' : Ptable) × (r' : K.R) × (o ≡ ok (out, t', r')) × WaitSpec out t'

  module _ (valid : me < length t.procs)
      (frees : (k : ℕ)
        → wait_scan t.procs me 0 false ≡ reap k
        → (r1 r2 : K.R) × (K.kfree (proc_at t k).kstack r ≡ ok r1)
          × (K.freevm (proc_at t k).pgdir r1 ≡ ok r2)) where
    after_scan-WaitSpec :
        (s : Scan)
        → wait_scan t.procs me 0 false ≡ s
        → ScanSpec t.procs me 0 false s
        → WaitDone (after_scan K proc_addr me t r s)
    unfolding after_scan
    after_scan-WaitSpec (reap k) found (j, p, e, there, child, dead) =
        let (r1, r2, e1, e2) = frees k found in
        let k_eq : k ≡ j = omega arith in
        let at_k : get_elem? t.procs k ≡ some p = ap (get_elem? t.procs) k_eq ∙ there in
        let same : proc_at t k ≡ p = get_or_of_get_elem? t.procs k p empty_proc at_k in
        (
          some (pos (proc_at t k).pid),
          put_proc t k (reaped (proc_at t k)),
          r2,
          rw (e1, e2),
          (
            k,
            p,
            at_k,
            child,
            dead,
            ap (λ (q : Proc). q.pid) same,
            ap (λ (q : Proc). put_proc t k (reaped q)) same,
          ),
        )
    after_scan-WaitSpec (seen false) found (a, b) = (
      some (negsuc 0),
      t,
      r,
      refl,
      (refl, refl, (λ j p e c. absurd (ground (arith, a j p e))), inl a),
    )
    after_scan-WaitSpec (seen true) found (a, b) = elim (Bool-cases ((proc_at t me).killed == 0)) [
      | inl alive ↦
          let there = get_elem?-eq-get_or t.procs me empty_proc valid in
          let slept = sleep_start_lem me (proc_addr me) t (proc_at t me) there in
          let children : HasChild t.procs me = has_child b in
          (none, _, r, rw (alive, slept) refl, (a, children, ground arith, slept))
      | inr killed ↦ (some (negsuc 0), t, r, rw killed, (refl, refl, a, inr (ground arith)))
    ]
      where
        has_child : (false ≡ true) ⊎ HasChild t.procs me → HasChild t.procs me
        has_child (inl e) = absurd (ground arith)
        has_child (inr c) = c

    -- A round of `wait` by a process of the table comes to an end or to a sleep, if kfree of the kernel stack
    -- of the zombie that the scan found, if it found one, and then freevm of its page table do not panic. It
    -- returns a pid only of a zombie child, whose slot it frees; it fails only without children or when the
    -- caller is killed, with no zombie child; and it sleeps only with children none of which is a zombie.
    pub wait_round-WaitSpec :
        (out : Option ℤ) × (t' : Ptable) × (r' : K.R) × (wait_round K proc_addr me t r
          ≡ ok (out, t', r'))
        × WaitSpec out t'
    unfolding wait_round
    wait_round-WaitSpec = after_scan-WaitSpec _ refl (wait_scan-ScanSpec t.procs me 0 false)
