-- ===== src/Vm/Space.antt =====
-- The user part of an address space, grown, shrunk, copied and freed: the routines of
-- P5_XV6_CoW_Fork/kernel/vm.c that call `kfree`.
use cs537_sp23_operating_sys.Common.{
  ℕ, Bool, Outcome, false, if◌then◌else◌, leb, load, ltb, not, ok, panic, suc, true, zero, ◌&&◌,
  ◌*◌, ◌+◌, ◌-◌, ◌/◌, ◌==◌, ◌>>=◌, ◌||◌,
}
use cs537_sp23_operating_sys.Kmem.{Kmem, page_round_up, kfree, kalloc, inc_ref_cnt}
use cs537_sp23_operating_sys.Vm.{
  pte_addr, pte_flags, present, write_protect, usertop, put_word, zero_page, copy_page, walkpgdir,
  mappages, setupkvm,
}

-- `kernel_end` is the linker's symbol `end`.
module _ (kernel_end : ℕ) where
  -- The loop of `deallocuvm`, by the pages left.
  pub dealloc_from : ℕ → ℕ → ℕ → Kmem → Outcome Kmem
  dealloc_from zero pgdir a k = ok k
  dealloc_from (suc n) pgdir a k =
      let pte = (walkpgdir pgdir a false k).0 in
      let w = load k.byte pte in
      elim (not (pte == 0) && present w) [
        | true ↦
            if pte_addr w == 0
            then panic
            else (kfree kernel_end (pte_addr w) k >>= λ k1.
                dealloc_from n pgdir (a + 4096) (put_word pte 0 k1))
        | false ↦ dealloc_from n pgdir (a + 4096) k
      ]

  -- The pages from `a` on that start below `b`.
  abbrev pub pages_below : ℕ → ℕ → ℕ
  pages_below a b = (b - a + 4095) / 4096

  pub deallocuvm : ℕ → ℕ → ℕ → Kmem → Outcome (ℕ × Kmem)
  deallocuvm pgdir oldsz newsz k =
      if leb oldsz newsz
      then ok (oldsz, k)
      else (dealloc_from (pages_below (page_round_up newsz) oldsz) pgdir (page_round_up newsz) k
          >>= λ k1. ok (newsz, k1))

  -- The loop of `freevm` over the directory, by the entries left.
  pub free_tables : ℕ → ℕ → ℕ → Kmem → Outcome Kmem
  free_tables zero pgdir i k = ok k
  free_tables (suc n) pgdir i k =
      let w = load k.byte (pgdir + 4 * i) in
      elim (present w) [
        | true ↦ kfree kernel_end (pte_addr w) k >>= λ k1. free_tables n pgdir (i + 1) k1
        | false ↦ free_tables n pgdir (i + 1) k
      ]

  pub freevm : ℕ → Kmem → Outcome Kmem
  freevm pgdir k = if pgdir == 0 then panic else do
    r ← deallocuvm pgdir usertop 0 k
    k1 ← free_tables 1024 pgdir 0 r.1
    kfree kernel_end pgdir k1

  -- The loop of `allocuvm`, by the pages left; the result of `mappages` is not looked at.
  pub alloc_from : ℕ → ℕ → ℕ → ℕ → ℕ → Kmem → Outcome (ℕ × Kmem)
  alloc_from zero pgdir a oldsz newsz k = ok (newsz, k)
  alloc_from (suc n) pgdir a oldsz newsz k =
      let (mem, k1) = kalloc k in
      elim (mem == 0) [
        | true ↦ deallocuvm pgdir newsz oldsz k1 >>= λ r. ok (0, r.1)
        | false ↦ mappages pgdir a 4096 mem 6 (zero_page mem k1) >>= λ r.
            alloc_from n pgdir (a + 4096) oldsz newsz r.1
      ]

  pub allocuvm : ℕ → ℕ → ℕ → Kmem → Outcome (ℕ × Kmem)
  allocuvm pgdir oldsz newsz k =
      if ltb usertop newsz
      then ok (0, k)
      else if ltb newsz oldsz
      then ok (oldsz, k)
      else alloc_from (pages_below (page_round_up oldsz) newsz) pgdir (page_round_up oldsz) oldsz
          newsz k

  -- The body of the loop of `copyuvm`: false is the jump to `bad`.
  pub dup_page : ℕ → ℕ → ℕ → Kmem → Outcome (Bool × Kmem)
  dup_page pgdir d i k =
      let pte = (walkpgdir pgdir i false k).0 in
      let w = load k.byte pte in
      if pte == 0 || not (present w)
      then panic
      else let (mem, k1) = kalloc k in
        if mem == 0
        then ok (false, k1)
        else mappages d i 4096 mem (pte_flags w) (copy_page mem (pte_addr w) k1)

  -- The body of the loop of `cowuvm`.
  unfoldable pub cow_page : ℕ → ℕ → ℕ → Kmem → Outcome (Bool × Kmem)
  cow_page pgdir d i k =
      let pte = (walkpgdir pgdir i false k).0 in
      let w = load k.byte pte in
      if pte == 0 || not (present w)
      then panic
      else let k1 = put_word pte (write_protect w) k in
        let w1 = load k1.byte pte in
        (mappages d i 4096 (pte_addr w1) (pte_flags w1) k1 >>= λ r.
        ok (r.0, if r.0 then inc_ref_cnt (pte_addr (load r.1.byte pte)) r.1 else r.1))

  -- Either loop, by the pages left.
  pub each_page : (ℕ → Kmem → Outcome (Bool × Kmem)) → ℕ → ℕ → Kmem → Outcome (Bool × Kmem)
  each_page body zero i k = ok (true, k)
  each_page body (suc n) i k =
      body i k >>= λ r. elim (r.0) [ true ↦ each_page body n (i + 4096) r.1 | false ↦ ok r ]

  -- What both do around their loops: the directory of the child, or 0 with everything freed.
  abbrev new_directory : (ℕ → ℕ → Kmem → Outcome (Bool × Kmem)) → ℕ → ℕ → Kmem → Outcome (ℕ × Kmem)
  new_directory body data_start sz k = setupkvm data_start k >>= λ s.
      if s.0 == 0
      then ok s
      else (each_page (body s.0) (pages_below 0 sz) 0 s.1 >>= λ r.
          if r.0 then ok (s.0, r.1) else (freevm s.0 r.1 >>= λ k1. ok (0, k1)))

  pub copyuvm : ℕ → ℕ → ℕ → Kmem → Outcome (ℕ × Kmem)
  copyuvm data_start pgdir sz k = new_directory (λ d. dup_page pgdir d) data_start sz k

  pub cowuvm : ℕ → ℕ → ℕ → Kmem → Outcome (ℕ × Kmem)
  cowuvm data_start pgdir sz k = new_directory (λ d. cow_page pgdir d) data_start sz k
