-- ===== src/Kmem/Frame.antt =====
-- What the routines of the allocator leave alone, and free lists in a memory that changes elsewhere.
use cs537_sp23_operating_sys.Common.{ℕ, List, arith, refl, ◌%◌, ◌+◌, ◌-◌, ◌/◌, ◌<◌, ◌^◌, ◌≡◌, ◌≢◌}
use cs537_sp23_operating_sys.Kmem.{Kmem, inc_ref_cnt, kalloc, dec_ref_cnt, get_ref_cnt}
use cs537_sp23_operating_sys.Kmem.Inv.{IsValid, drop_reference-IsValid}

pub kalloc-byte : (k : Kmem) → (kalloc k).1.byte ≡ k.byte
unfolding kalloc
kalloc-byte k = ground arith

pub dec_ref_cnt-byte : (v : ℕ) (k : Kmem) → (dec_ref_cnt v k).byte ≡ k.byte
unfolding dec_ref_cnt
dec_ref_cnt-byte v k = refl

pub get_ref_cnt_lem : (v : ℕ) (k : Kmem) → get_ref_cnt v k ≡ k.ref_cnt (v / 4096)
unfolding get_ref_cnt
get_ref_cnt_lem v k = refl

pub dec_ref_cnt-count :
    (v : ℕ) (k : Kmem)
    → 0 < k.ref_cnt (v / 4096)
    → k.ref_cnt (v / 4096) < 2 ^ 32
    → ((dec_ref_cnt v k).ref_cnt (v / 4096) + 1 ≡ k.ref_cnt (v / 4096))
      × ((q : ℕ) → q ≢ v / 4096 → (dec_ref_cnt v k).ref_cnt q ≡ k.ref_cnt q)
unfolding dec_ref_cnt
dec_ref_cnt-count v k low high = (ground arith, λ q ne. ground arith)

-- The invariant says nothing of the contents of pages.
pub IsValid-byte :
    (kernel_end : ℕ) (pages : List ℕ) (k : Kmem) (b : ℕ → ℕ)
    → IsValid kernel_end pages k
    → IsValid kernel_end pages (record k { byte = b })
IsValid-byte kernel_end pages k b v = record {
  chain = v.chain;
  distinct = v.distinct;
  counted = v.counted;
  unused = v.unused;
  usable = v.usable;
}

pub dec_ref_cnt-IsValid :
    (kernel_end v : ℕ) (pages : List ℕ) (k : Kmem)
    → IsValid kernel_end pages k
    → 1 < k.ref_cnt (v / 4096)
    → k.ref_cnt (v / 4096) < 2 ^ 32
    → IsValid kernel_end pages (dec_ref_cnt v k)
unfolding dec_ref_cnt
dec_ref_cnt-IsValid kernel_end v pages k valid more word =
    let e : (k.ref_cnt (v / 4096) + (2 ^ 32 - 1)) % 2 ^ 32 ≡ k.ref_cnt (v / 4096) - 1 =
      omega arith in
    rw e (drop_reference-IsValid kernel_end v pages k valid more)

pub inc_ref_cnt-byte : (v : ℕ) (k : Kmem) → (inc_ref_cnt v k).byte ≡ k.byte
unfolding inc_ref_cnt
inc_ref_cnt-byte v k = refl

pub inc_ref_cnt-count :
    (v : ℕ) (k : Kmem)
    → ((inc_ref_cnt v k).ref_cnt (v / 4096) ≡ (k.ref_cnt (v / 4096) + 1) % 2 ^ 32)
      × ((q : ℕ) → q ≢ v / 4096 → (inc_ref_cnt v k).ref_cnt q ≡ k.ref_cnt q)
unfolding inc_ref_cnt
inc_ref_cnt-count v k = (ground arith, λ q ne. ground arith)
