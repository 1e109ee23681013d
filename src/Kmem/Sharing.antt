-- ===== src/Kmem/Sharing.antt =====
-- Pages with several references: how `inc_ref_cnt`, `dec_ref_cnt` and `kfree` work together.
use cs537_sp23_operating_sys.Common.{
  ℕ, List, Outcome, arith, eq→==, false, ne→==, ok, suc, zero, ◌%◌, ◌+◌, ◌/◌, ◌<◌, ◌>>=◌, ◌^◌, ◌∷◌,
  ◌≡◌,
}
use cs537_sp23_operating_sys.Kmem.{
  Kmem, bad_page, push_page, kfree, inc_ref_cnt, dec_ref_cnt, get_ref_cnt,
}
use cs537_sp23_operating_sys.Kmem.Inv.{IsValid, drop_reference, kfree-IsValid}

module _ (kernel_end v : ℕ) where
  -- `n` owners give the page up, one after the other.
  pub kfree_times : ℕ → Kmem → Outcome Kmem
  kfree_times zero k = ok k
  kfree_times (suc n) k = kfree kernel_end v k >>= kfree_times n

  kfree-shared :
      (k : Kmem)
      → bad_page kernel_end v ≡ false
      → 1 < k.ref_cnt (v / 4096)
      → k.ref_cnt (v / 4096) < 2 ^ 31
      → kfree kernel_end v k ≡ ok (drop_reference v k)
  unfolding kfree
  kfree-shared k good more small = ground arith

  kfree-last :
      (k : Kmem)
      → bad_page kernel_end v ≡ false
      → k.ref_cnt (v / 4096) ≡ 1
      → kfree kernel_end v k ≡ ok (push_page kernel_end v k)
  unfolding kfree
  kfree-last k good one = ground arith

  -- On a consistent allocator a page of it with `c` references, `1 ≤ c < 2 ^ 31`, survives its
  -- first `c - 1` frees, and the last one puts it at the front of the free list: no free panics,
  -- and the allocator stays consistent.
  pub kfree_times-IsValid :
      (n : ℕ) (pages : List ℕ) (k : Kmem)
      → 0 < kernel_end
      → bad_page kernel_end v ≡ false
      → IsValid kernel_end pages k
      → k.ref_cnt (v / 4096) ≡ suc n
      → suc n < 2 ^ 31
      → (k' : Kmem) × (kfree_times (suc n) k ≡ ok k') × IsValid kernel_end (v ∷ pages) k'
  unfolding kfree_times
  kfree_times-IsValid zero pages k h good valid e small =
      let last = kfree-last k good e in
      (
        push_page kernel_end v k,
        rw last,
        (rw (eq→== (k.ref_cnt (v / 4096)) 1 e) at
            (kfree-IsValid kernel_end v pages k valid (push_page kernel_end v k) h last)),
      )
  kfree_times-IsValid (suc n) pages k h good valid e small =
      let shared = kfree-shared k good (omega arith) (omega arith) in
      let k1 : Kmem = drop_reference v k in
      let valid1 =
        (rw (ne→== (k.ref_cnt (v / 4096)) 1 (omega arith)) at
          (kfree-IsValid kernel_end v pages k valid k1 h shared)) in
      rw shared (kfree_times-IsValid n pages k1 h good valid1 (ground arith) (omega arith))

-- A reference that is taken and given back leaves every count as before, if the count of the page
-- is below 2 ^ 32; in between the count is one more, modulo 2 ^ 32.
pub dec_ref_cnt-inc_ref_cnt :
    (v : ℕ) (k : Kmem)
    → k.ref_cnt (v / 4096) < 2 ^ 32
    → ((q : ℕ) → (dec_ref_cnt v (inc_ref_cnt v k)).ref_cnt q ≡ k.ref_cnt q)
      × (get_ref_cnt v (inc_ref_cnt v k) ≡ (k.ref_cnt (v / 4096) + 1) % 2 ^ 32)
unfolding dec_ref_cnt inc_ref_cnt get_ref_cnt
dec_ref_cnt-inc_ref_cnt v k word = (λ q. ground arith, ground arith)
