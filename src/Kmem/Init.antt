-- ===== src/Kmem/Init.antt =====
-- `kinit`: which pages are free after the boot.
use cs537_sp23_operating_sys.Common.{
  ℕ, List, [], arith, false, has, leb, length, ok, suc, true, zero, ◌%◌, ◌*◌, ◌+◌, ◌-◌, ◌/◌, ◌<◌,
  ◌∷◌, ◌≡◌, ◌≤◌, refl,
}
use cs537_sp23_operating_sys.Kmem.{
  Kmem, bad_page, push_page, kfree_init, kinit_from, kinit, page_round_up,
}
use cs537_sp23_operating_sys.Kmem.Inv.{IsValid, push_page-IsValid}

-- The list after `n` pages from `p` on were put in front of `pages`, one by one.
abbrev pub free_from : ℕ → ℕ → List ℕ → List ℕ
free_from zero p pages = pages
free_from (suc n) p pages = free_from n (p + 4096) (p ∷ pages)

pub length-free_from : (n p : ℕ) (pages : List ℕ) → length (free_from n p pages) ≡ n + length pages
length-free_from zero p pages = omega arith
length-free_from (suc n) p pages = omega (arith, length-free_from n (p + 4096) (p ∷ pages))

kfree_init-ok :
    (kernel_end p : ℕ) (k : Kmem)
    → bad_page kernel_end p ≡ false
    → kfree_init kernel_end p k ≡ ok (push_page kernel_end p k)
unfolding kfree_init
kfree_init-ok kernel_end p k good = rw good

-- The loop has fuel enough for the `n` pages that are left, and frees each of them.
kinit_from-IsValid :
    (kernel_end n fuel p : ℕ) (pages : List ℕ) (k : Kmem)
    → 0 < kernel_end
    → kernel_end ≤ p
    → p % 4096 ≡ 0
    → n * 4096 + p ≡ 0x1000000
    → n < fuel
    → IsValid kernel_end pages k
    → ((q : ℕ) → has q pages ≡ true → q < p)
    → (k' : Kmem) × (kinit_from kernel_end fuel p k ≡ ok k')
      × IsValid kernel_end (free_from n p pages) k'
unfolding kinit_from
kinit_from-IsValid kernel_end n zero p pages k nonzero low al sz f valid below =
    absurd (omega arith)
kinit_from-IsValid kernel_end zero (suc fuel) p pages k nonzero low al sz f valid below =
    let last : leb (p + 4096) 0x1000000 ≡ false = ground arith in (k, rw (last, kinit_from), valid)
kinit_from-IsValid kernel_end (suc n) (suc fuel) p pages k nonzero low al sz f valid below =
    let good : bad_page kernel_end p ≡ false = ground arith in
    let more : leb (p + 4096) 0x1000000 ≡ true = ground arith in
    rw (more, kinit_from, kfree_init-ok kernel_end p k good)
      (kinit_from-IsValid kernel_end n fuel (p + 4096) (p ∷ pages) (push_page kernel_end p k)
        nonzero (omega arith) (omega arith) (omega arith) (omega arith)
        (push_page-IsValid kernel_end p pages k valid good nonzero (ground (arith, below p)))
        (λ q h. ground (arith, below q)))

-- The number of whole pages between the end of the kernel and PHYSTOP.
abbrev pub boot_pages : ℕ → ℕ
boot_pages kernel_end = (0x1000000 - page_round_up kernel_end) / 4096

-- From an allocator with an empty list, with the end of the kernel above 0 and at most PHYSTOP,
-- `kinit` does not panic, and leaves a consistent one: every whole page from the rounded end of the
-- kernel up to PHYSTOP is on the free list, and the counter is their number.
pub kinit-IsValid :
    (kernel_end : ℕ) (k : Kmem)
    → 0 < kernel_end
    → kernel_end ≤ 0x1000000
    → k.freelist ≡ 0
    → (k' : Kmem) × (kinit kernel_end k ≡ ok k')
      × IsValid kernel_end (free_from (boot_pages kernel_end) (page_round_up kernel_end) []) k'
      × (k'.free_pages ≡ boot_pages kernel_end)
unfolding kinit
kinit-IsValid kernel_end k nonzero high empty =
    let (k', e, valid) =
      kinit_from-IsValid kernel_end (boot_pages kernel_end) 4097 (page_round_up kernel_end) []
        (record k { free_pages = 0 }) nonzero (omega arith) (omega arith) (omega arith)
        (omega arith) start (λ q h. cc) in
    let e2 : k'.free_pages ≡ boot_pages kernel_end = omega (
      arith,
      valid.counted,
      length-free_from (boot_pages kernel_end) (page_round_up kernel_end) [],
    ) in
    (k', e, valid, e2)
  where
    start : IsValid kernel_end [] (record k { free_pages = 0 })
    start = record {
      chain = empty;
      distinct = tt;
      counted = refl;
      unused = λ p h. cc;
      usable = λ p h. cc;
    }
