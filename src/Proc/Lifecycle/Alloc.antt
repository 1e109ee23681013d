-- ===== src/Proc/Lifecycle/Alloc.antt =====
-- `allocproc`: the slot and the pid of a new process.

use cs537_sp23_operating_sys.Common.{
  ℕ, List, arith, Bool-cases, Option, [], get_elem?, inl, inr, none, refl, some, suc, true, ◌%◌,
  ◌+◌, ◌^◌, ◌∷◌, ◌≡◌, ◌≢◌, ◌⊎◌, ap, get_elem?-set_ne, get_elem?-set_self, get_or_of_get_elem?, set,
  sym, ◌==◌, ◌∙◌,
}
use cs537_sp23_operating_sys.Proc.{
  zombie, embryo, sleeping, running, Proc, Ptable, unused, runnable, same_state, ProcState, embryo,
}
use cs537_sp23_operating_sys.Proc.Lifecycle.{
  Resources, empty_proc, proc_at, put_proc, find_unused, allocproc, claim_slot,
}

unused_of : (x : ProcState) → same_state x unused ≡ true → x ≡ unused
unused_of unused h = refl
unused_of zombie h = cc
unused_of embryo h = cc
unused_of sleeping h = cc
unused_of running h = cc
unused_of runnable h = cc

-- The slot that `find_unused` finds from slot `i` on.
abbrev UnusedSpec : List Proc → ℕ → Option ℕ → Type 0
UnusedSpec ps i none = Unit
UnusedSpec ps i (some k) =
    (j : ℕ) × (p : Proc) × (k ≡ i + j) × (get_elem? ps j ≡ some p) × (p.state ≡ unused)

UnusedSpec-cons :
    (p : Proc) (ps : List Proc) (i : ℕ) (k : Option ℕ)
    → UnusedSpec ps (i + 1) k
    → UnusedSpec (p ∷ ps) i k
UnusedSpec-cons p ps i none h = tt
UnusedSpec-cons p ps i (some k) (j, q, e, there, free) = (suc j, q, omega arith, there, free)

find_unused-UnusedSpec : (ps : List Proc) (i : ℕ) → UnusedSpec ps i (find_unused ps i)
unfolding find_unused
find_unused-UnusedSpec [] i = tt
find_unused-UnusedSpec (p ∷ ps) i = elim (Bool-cases (same_state p.state unused)) [
  | inl free ↦ rw free (0, p, omega arith, refl, unused_of p.state free)
  | inr used ↦ rw used (UnusedSpec-cons p ps i _ (find_unused-UnusedSpec ps (i + 1)))
]

-- A table that differs from `t` in an unused slot only.
pub record Differs (t t' : Ptable) (k : ℕ) : Type 0 where
  pub old : Proc
  pub there : get_elem? t.procs k ≡ some old
  pub free : old.state ≡ unused
  pub others : (j : ℕ) → j ≢ k → get_elem? t'.procs j ≡ get_elem? t.procs j
  pub pids : t'.nextpid ≡ (t.nextpid + 1) % 2 ^ 32

Differs-claim :
    (t : Ptable) (k : ℕ) (p q : Proc)
    → get_elem? t.procs k ≡ some p
    → p.state ≡ unused
    → Differs t (put_proc (claim_slot t k) k q) k
      × (get_elem? (put_proc (claim_slot t k) k q).procs k ≡ some q)
Differs-claim t k p q there free =
    let x : Proc = record (proc_at t k) { state = embryo; pid = t.nextpid } in
    let claimed : get_elem? (set t.procs k x) k ≡ some x = get_elem?-set_self t.procs k x p there in
    (
      record {
        old = p;
        there = there;
        free = free;
        others = λ j ne.
            get_elem?-set_ne (set t.procs k x) k j q (λ e. ne (sym e))
            ∙ get_elem?-set_ne t.procs k j x (λ e. ne (sym e));
        pids = refl;
      },
      get_elem?-set_self (set t.procs k x) k q x claimed,
    )

pid_claimed :
    (t : Ptable) (k : ℕ) (p : Proc)
    → get_elem? t.procs k ≡ some p
    → proc_at (claim_slot t k) k ≡ record (proc_at t k) { state = embryo; pid = t.nextpid }
pid_claimed t k p there =
    let x : Proc = record (proc_at t k) { state = embryo; pid = t.nextpid } in
    get_or_of_get_elem? (set t.procs k x) k x empty_proc (get_elem?-set_self t.procs k x p there)

module _ (K : Resources) where
  abbrev pub AllocDone : Ptable → Option ℕ → Ptable → Type 0
  AllocDone t none t' =
      (t' ≡ t)
      ⊎ ((k : ℕ) × (p : Proc) × Differs t t' k
          × (get_elem? t'.procs k ≡ some p)
          × (p.state ≡ unused))
  AllocDone t (some k) t' =
      (p : Proc) × Differs t t' k
      × (get_elem? t'.procs k ≡ some p)
      × (p.state ≡ embryo)
      × (p.pid ≡ t.nextpid)
      × (p.kstack ≢ 0)

  -- `allocproc` gives out an unused slot as an embryo with the next pid and a stack, or leaves the table
  -- with the same slots in use: it found no slot, or gave the slot back without a stack.
  pub allocproc-AllocDone :
      (t : Ptable) (r : K.R) → AllocDone t (allocproc K t r).0 (allocproc K t r).1
  unfolding allocproc
  allocproc-AllocDone t r = go (find_unused t.procs 0) refl (find_unused-UnusedSpec t.procs 0)
    where
      go :
          (s : Option ℕ)
          → find_unused t.procs 0 ≡ s
          → UnusedSpec t.procs 0 s
          → AllocDone t (allocproc K t r).0 (allocproc K t r).1
      go none e u = rw (e, allocproc) (inl refl)
      go (some k) e (j, p, k_eq, there, free) =
          let k_is : k ≡ j = omega arith in
          let at_k : get_elem? t.procs k ≡ some p = ap (get_elem? t.procs) k_is ∙ there in
          let c = pid_claimed t k p at_k in
          elim (Bool-cases ((K.kalloc r).0 == 0)) [
            | inl no_page ↦
                let back : Proc = record (proc_at (claim_slot t k) k) {
                  kstack = 0;
                  state = unused;
                } in
                let d = Differs-claim t k p back at_k free in
                rw (e, allocproc, no_page) (inr (k, back, d.0, d.1, refl))
            | inr page ↦
                let made : Proc = record (proc_at (claim_slot t k) k) { kstack = (K.kalloc r).0 } in
                let d = Differs-claim t k p made at_k free in
                rw (e, allocproc, page)
                  (
                    made,
                    d.0,
                    d.1,
                    ap (λ (q : Proc). q.state) c,
                    ap (λ (q : Proc). q.pid) c,
                    ground arith,
                  )
          ]
