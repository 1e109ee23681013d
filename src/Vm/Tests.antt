-- ===== src/Vm/Tests.antt =====
-- A parent and a child that share a page, and the theorems there.
use cs537_sp23_operating_sys.Common.{
  ℕ, load, store, [], arith, false, if◌then◌else◌, inl, ok, refl, true, ◌+◌, ◌==◌, ◌∷◌, ◌≡◌,
}
use cs537_sp23_operating_sys.Kmem.{Kmem}
use cs537_sp23_operating_sys.Kmem.Inv.{IsValid}
use cs537_sp23_operating_sys.Vm.{pte_addr, walkpgdir, handled, pgfltintr}
use cs537_sp23_operating_sys.Vm.Space.{cow_page}
use cs537_sp23_operating_sys.Vm.CopyOnWrite.{Split, pgfltintr-Split}
use cs537_sp23_operating_sys.Vm.Share.{Shared, cow_page-Shared}

-- The parent's directory is at 0x200000 and the child's at 0x203000; the first page of the parent is
-- 0x202000, with the given flags.
abbrev tables : ℕ → ℕ → ℕ
tables flags =
    store (store (store (λ a. 0) 0x200000 0x201007) 0x201000 (0x202000 + flags)) 0x203000 0x204007

-- One free page, and `n` references to the parent's page.
abbrev booted : ℕ → ℕ → Kmem
booted flags n = record {
  freelist = 0x300000;
  next = λ p. 0;
  free_pages = 1;
  ref_cnt = λ q. if q == 0x202 then n else 0;
  byte = tables flags;
}

booted-IsValid : IsValid 0x100000 (0x300000 ∷ []) (booted 5 2)
booted-IsValid = record {
  chain = (refl, omega arith, refl);
  distinct = (refl, tt);
  counted = refl;
  unused = λ p h. ground arith;
  usable = λ p h. ground arith;
}

entry_protected : (walkpgdir 0x200000 0 false (booted 5 2)).0 ≡ 0x201000
unfolding walkpgdir load store
entry_protected = refl

word_protected : load (tables 5) 0x201000 ≡ 0x202005
unfolding load store
word_protected = refl

pgfltintr-Split_example :
    let k : Kmem = booted 5 2 in
    let pte = (walkpgdir 0x200000 0 false k).0 in
    (k' : Kmem) × (pgfltintr 0x200000 0 k ≡ handled k')
    × Split k k' pte (pte_addr (load k.byte pte)) 0x300000
    × IsValid 0x100000 [] k'
pgfltintr-Split_example =
    pgfltintr-Split 0x100000 0x200000 0 0x300000 [] (booted 5 2) booted-IsValid
      (rw entry_protected (omega arith)) (rw (entry_protected, word_protected) refl)
      (rw (entry_protected, word_protected) refl)
      (rw (entry_protected, word_protected) (omega arith))
      (rw (entry_protected, word_protected) (omega arith)) (rw entry_protected (inl (omega arith)))

entry_open : (walkpgdir 0x200000 0 false (booted 7 1)).0 ≡ 0x201000
unfolding walkpgdir load store
entry_open = refl

word_open : load (tables 7) 0x201000 ≡ 0x202007
unfolding load store
word_open = refl

child_table : load (tables 7) 0x203000 ≡ 0x204007
unfolding load store
child_table = refl

child_entry : load (tables 7) 0x204000 ≡ 0
unfolding load store
child_entry = refl

cow_page-Shared_example :
    let k : Kmem = booted 7 1 in
    let pte = (walkpgdir 0x200000 0 false k).0 in
    (k' : Kmem) × (cow_page 0x100000 0x200000 0x203000 0 k ≡ ok (true, k'))
    × Shared k k' pte (pte_addr (load k.byte 0x203000) + 0)
cow_page-Shared_example =
    cow_page-Shared 0x100000 0x200000 0x203000 0 (booted 7 1) (omega arith) (omega arith)
      (rw entry_open (omega arith)) (rw (entry_open, word_open) (omega arith))
      (rw (entry_open, word_open) refl) (rw child_table refl) (rw child_table (omega arith))
      (rw (child_table, child_entry) refl) (rw entry_open (inl (omega arith)))
      (rw (entry_open, child_table) (inl (omega arith)))
