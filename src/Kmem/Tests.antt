-- ===== src/Kmem/Tests.antt =====
-- Runs of the page allocator, and its theorems at concrete states.
use cs537_sp23_operating_sys.Common.{[], arith, if◌then◌else◌, ok, refl, ◌==◌, ◌∷◌, ◌≡◌}
use cs537_sp23_operating_sys.Kmem.{Kmem, push_page, kfree, kalloc}
use cs537_sp23_operating_sys.Kmem.Inv.{IsValid, kfree-IsValid, kalloc-IsValid, KallocResult}

-- One page is free, another has one reference and a third has two.
abbrev some_kmem : Kmem
some_kmem = record {
  freelist = 0x200000;
  next = λ p. 0;
  free_pages = 1;
  ref_cnt = λ q. if q == 0x300 then 1 else if q == 0x400 then 2 else 0;
  byte = λ a. 0;
}

some_kmem-IsValid : IsValid 0x100000 (0x200000 ∷ []) some_kmem
some_kmem-IsValid = record {
  chain = (refl, omega arith, refl);
  distinct = (refl, tt);
  counted = refl;
  unused = λ p h. ground arith;
  usable = λ p h. ground arith;
}

abbrev zeroed : Kmem
zeroed = record { freelist = 0; next = λ p. 0; free_pages = 7; ref_cnt = λ q. 0; byte = λ a. 0 }

abbrev freed : Kmem
freed = push_page 0x100000 0x300000 some_kmem

frees_once : kfree 0x100000 0x300000 some_kmem ≡ ok freed
unfolding kfree
frees_once = refl

kfree-IsValid_example : IsValid 0x100000 (0x300000 ∷ 0x200000 ∷ []) freed
kfree-IsValid_example =
    kfree-IsValid 0x100000 0x300000 (0x200000 ∷ []) some_kmem some_kmem-IsValid freed (omega arith)
      frees_once

kalloc-IsValid_example : KallocResult 0x100000 (0x200000 ∷ []) some_kmem (kalloc some_kmem)
kalloc-IsValid_example = kalloc-IsValid 0x100000 (0x200000 ∷ []) some_kmem some_kmem-IsValid
