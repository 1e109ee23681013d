-- ===== src/Proc/Lifecycle/Fork.antt =====
-- `fork`: the slot and the pid of a child, and what a failure leaves behind.

use cs537_sp23_operating_sys.Common.{
  ℕ, List, Bool-cases, Option, get_elem?, inl, inr, none, refl, some, ◌≡◌, ◌⊎◌, ap,
  get_elem?-set_ne, get_elem?-set_self, get_or_of_get_elem?, sym, ◌==◌, ◌∙◌, Option-cases, Outcome,
  negsuc, ok, pos, ℤ, if◌then◌else◌,
}
use cs537_sp23_operating_sys.Proc.{Proc, Ptable, unused, runnable}
use cs537_sp23_operating_sys.Proc.Lifecycle.{
  Resources, empty_proc, proc_at, put_proc, allocproc, add_entry, dup_files, fork, find_entry,
  inherit,
}
use cs537_sp23_operating_sys.Proc.Lifecycle.Alloc.{Differs, AllocDone, allocproc-AllocDone}

module _ (K : Resources) (me : ℕ) (t : Ptable) where
  -- What `fork` by the process in slot `me` has done.
  abbrev pub ForkSpec : ℤ → Ptable → Type 0
  ForkSpec (pos pid) t' =
      (pid ≡ t.nextpid)
      × ((k : ℕ) × (child : Proc) × Differs t t' k
          × (get_elem? t'.procs k ≡ some child)
          × (child.pid ≡ pid)
          × (child.parent ≡ some me)
          × (child.state ≡ runnable))
  ForkSpec (negsuc n) t' =
      (n ≡ 0)
      × ((t' ≡ t)
          ⊎ ((k : ℕ) × (p : Proc) × Differs t t' k
              × (get_elem? t'.procs k ≡ some p)
              × (p.state ≡ unused)))

  abbrev ForkDone : Outcome (ℤ × Ptable × K.R) → Type 0
  ForkDone o = (out : ℤ) × (t' : Ptable) × (r' : K.R) × (o ≡ ok (out, t', r')) × ForkSpec out t'

  Differs-put :
      (t1 : Ptable) (k : ℕ) (p q : Proc)
      → Differs t t1 k
      → get_elem? t1.procs k ≡ some p
      → Differs t (put_proc t1 k q) k × (get_elem? (put_proc t1 k q).procs k ≡ some q)
  Differs-put t1 k p q d there = (
    record {
      old = d.old;
      there = d.there;
      free = d.free;
      others = λ j ne. get_elem?-set_ne t1.procs k j q (λ e. ne (sym e)) ∙ d.others j ne;
      pids = d.pids;
    },
    get_elem?-set_self t1.procs k q p there,
  )

  add_entry-procs :
      (t1 : Ptable) (pid : ℕ)
      → ((add_entry K t1 pid).procs ≡ t1.procs) × ((add_entry K t1 pid).nextpid ≡ t1.nextpid)
  add_entry-procs t1 pid = elim (Option-cases (find_entry 63 1 t1.pstat t1.curr_pstat_idx)) [
    | inl e ↦ rw (e, add_entry) (refl, refl)
    | inr (i, e) ↦ rw (e, add_entry) (refl, refl)
  ]

  Differs-add_entry :
      (t1 : Ptable) (k pid : ℕ) (q : Proc)
      → Differs t t1 k
      → get_elem? t1.procs k ≡ some q
      → Differs t (add_entry K t1 pid) k × (get_elem? (add_entry K t1 pid).procs k ≡ some q)
  Differs-add_entry t1 k pid q d there =
      let (same, next) = add_entry-procs t1 pid in
      (
        record {
          old = d.old;
          there = d.there;
          free = d.free;
          others = λ j ne. ap (λ (ps : List Proc). get_elem? ps j) same ∙ d.others j ne;
          pids = next ∙ d.pids;
        },
        ap (λ (ps : List Proc). get_elem? ps k) same ∙ there,
      )

  -- What `fork` asks for once a slot is allocated does not panic: copyuvm of the caller's page table, and
  -- then kfree of the new kernel stack if that gave none, or else filedup of each open file in turn.
  abbrev pub CanPay : ℕ → Ptable → K.R → Type 0
  CanPay k t1 r1 =
      (dir : ℕ) × (r2 r3 : K.R) × (K.copyuvm (proc_at t1 me).pgdir (proc_at t1 me).sz r1
        ≡ ok (dir, r2))
      × ((if dir == 0
            then K.kfree (proc_at t1 k).kstack r2
            else dup_files K (proc_at t1 me).ofile r2)
          ≡ ok r3)

  module _ (r : K.R)
      (pays : (k : ℕ)
        → (allocproc K t r).0 ≡ some k
        → CanPay k (allocproc K t r).1 (allocproc K t r).2) where
    -- `fork` returns, if copyuvm of the caller's page table and then kfree of the new kernel stack, where the
    -- copy failed, or filedup of the caller's files, where it did not, do not panic. A pid is the next one, of
    -- a new runnable child of the caller in a slot that was unused, and all other slots are as before; on -1
    -- the table is as before, or one unused slot is again unused.
    pub fork-ForkSpec :
        (out : ℤ) × (t' : Ptable) × (r' : K.R) × (fork K me t r ≡ ok (out, t', r'))
        × ForkSpec out t'
    unfolding fork
    fork-ForkSpec = go (allocproc K t r).0 refl (allocproc-AllocDone K t r)
      where
        go :
            (s : Option ℕ)
            → (allocproc K t r).0 ≡ s
            → AllocDone K t s (allocproc K t r).1
            → ForkDone (fork K me t r)
        go none e a =
            (negsuc 0, (allocproc K t r).1, (allocproc K t r).2, rw (e, fork) refl, (refl, a))
        go (some k) e (p, d, there, embryo_there, pid, stack) =
            let t1 = (allocproc K t r).1 in
            let r1 = (allocproc K t r).2 in
            let parent = proc_at t1 me in
            let (dir, r2, r3, e2, e3) = pays k e in
            elim (Bool-cases (dir == 0)) [
              | inl no_copy ↦
                  let freed : K.kfree (proc_at t1 k).kstack r2 ≡ ok r3 = rw no_copy at e3 in
                  let back : Proc = record (proc_at t1 k) {
                    pgdir = 0;
                    kstack = 0;
                    state = unused;
                  } in
                  let f = Differs-put t1 k p back d there in
                  (
                    negsuc 0,
                    put_proc t1 k back,
                    r3,
                    rw (e, fork, e2, no_copy, freed) refl,
                    (refl, inr (k, back, f.0, f.1, refl)),
                  )
              | inr copied ↦
                  let dupped : dup_files K parent.ofile r2 ≡ ok r3 = rw copied at e3 in
                  let child : Proc = record (proc_at t1 k) {
                    pgdir = dir;
                    sz = parent.sz;
                    parent = some me;
                    ofile = inherit parent.ofile (proc_at t1 k).ofile;
                    cwd = parent.cwd;
                    name = parent.name;
                    state = runnable;
                  } in
                  let same : proc_at t1 k ≡ p = get_or_of_get_elem? t1.procs k p empty_proc there in
                  let f = Differs-put t1 k p child d there in
                  let g = Differs-add_entry (put_proc t1 k child) k child.pid child f.0 f.1 in
                  (
                    pos child.pid,
                    add_entry K (put_proc t1 k child) child.pid,
                    K.idup parent.cwd r3,
                    rw (e, fork, e2, copied, dupped) refl,
                    (ap (λ (q : Proc). q.pid) same ∙ pid, (k, child, g.0, g.1, refl, refl, refl)),
                  )
            ]
