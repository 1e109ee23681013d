-- ===== src/Kmem.antt =====
-- Physical page allocator with reference counts: P5_XV6_CoW_Fork/kernel/kalloc.c.
pub mod Init
pub mod Inv
pub mod Frame
pub mod Sharing
mod Tests
use cs537_sp23_operating_sys.Strings.{memset}
use cs537_sp23_operating_sys.Common.{
  ℕ, zero, suc, ◌+◌, ◌-◌, ◌*◌, ◌/◌, ◌%◌, ◌^◌, Bool, true, false, ◌||◌, ◌&&◌, not, ◌==◌, ltb, leb,
  if◌then◌else◌, Outcome, ok, panic, ◌>>=◌, Memory, update, in_range,
}

-- `kmem`. `next p` is the field of the `struct run` that a free page holds at its address `p`, and
-- `byte` is physical memory; the pointer 0 is NULL.
pub record Kmem : Type 0 where
  pub freelist : ℕ
  pub next : ℕ → ℕ
  pub free_pages : ℕ
  pub ref_cnt : ℕ → ℕ
  pub byte : Memory

-- `PGROUNDUP`, on `uint`.
abbrev pub page_round_up : ℕ → ℕ
page_round_up a = (a + 4095) % 2 ^ 32 / 4096 * 4096

-- `kernel_end` is the linker's symbol `end`.
module _ (kernel_end : ℕ) where
  abbrev pub bad_page : ℕ → Bool
  bad_page v = not (v % 4096 == 0) || (ltb v kernel_end || leb 0x1000000 v)

  -- The page is filled with junk and put at the front of the list.
  abbrev pub push_page : ℕ → Kmem → Kmem
  push_page v k = record k {
    freelist = v;
    next = update k.next v k.freelist;
    free_pages = (k.free_pages + 1) % 2 ^ 32;
    ref_cnt = update k.ref_cnt (v / 4096) 0;
    byte = memset k.byte v 1 4096;
  }

  pub kfree_init : ℕ → Kmem → Outcome Kmem
  kfree_init v k = if bad_page v then panic else ok (push_page v k)

  -- `(int) ref_cnt` is negative from 2 ^ 31 on, and a negative count panics.
  pub kfree : ℕ → Kmem → Outcome Kmem
  kfree v k =
      if bad_page v
      then panic
      else if ltb 1 (k.ref_cnt (v / 4096)) && ltb (k.ref_cnt (v / 4096)) 0x80000000
      then ok (record k { ref_cnt = update k.ref_cnt (v / 4096) (k.ref_cnt (v / 4096) - 1) })
      else if k.ref_cnt (v / 4096) == 1
      then ok (push_page v k)
      else panic

  -- The loop of `kinit` over the pages from `p` on: one round for each page that ends by PHYSTOP.
  kinit_from : ℕ → ℕ → Kmem → Outcome Kmem
  kinit_from zero p k = ok k
  kinit_from (suc fuel) p k = elim (leb (p + 4096) 0x1000000) [
    | true ↦ kfree_init p k >>= λ k'. kinit_from fuel (p + 4096) k'
    | false ↦ ok k
  ]

  pub kinit : Kmem → Outcome Kmem
  unfolding kinit_from kfree_init
  kinit k = kinit_from 4097 (page_round_up kernel_end) (record k { free_pages = 0 })

-- The page, or 0 if there is none.
pub kalloc : Kmem → ℕ × Kmem
kalloc k = if k.freelist == 0 then (0, k) else (
  k.freelist,
  record k {
    freelist = k.next k.freelist;
    free_pages = (k.free_pages + (2 ^ 32 - 1)) % 2 ^ 32;
    ref_cnt = update k.ref_cnt (k.freelist / 4096) 1;
  },
)

pub get_free_pages_count : Kmem → ℕ
get_free_pages_count k = k.free_pages

pub inc_ref_cnt : ℕ → Kmem → Kmem
inc_ref_cnt r k = record k {
  ref_cnt = update k.ref_cnt (r / 4096) ((k.ref_cnt (r / 4096) + 1) % 2 ^ 32);
}

pub dec_ref_cnt : ℕ → Kmem → Kmem
dec_ref_cnt r k = record k {
  ref_cnt = update k.ref_cnt (r / 4096) ((k.ref_cnt (r / 4096) + (2 ^ 32 - 1)) % 2 ^ 32);
}

-- The result is an `int`, given by its bits.
pub get_ref_cnt : ℕ → Kmem → ℕ
get_ref_cnt r k = k.ref_cnt (r / 4096)
