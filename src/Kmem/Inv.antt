-- ===== src/Kmem/Inv.antt =====
-- What the free list, the counter of free pages and the reference counts say of one another.
use cs537_sp23_operating_sys.Common.{
  ℕ, ◌+◌, ◌-◌, ◌/◌, ◌%◌, ◌^◌, ◌<◌, ◌≤◌, ◌↔◌, true, false, ◌≡◌, ◌≢◌, refl, List, [], ◌∷◌, length,
  has, Distinct, update, ◌==◌, if◌then◌else◌, ok, panic, arith, update_ne, update_self, eq→==,
  ne→==, ◌⊎◌, inl, inr,
}
use cs537_sp23_operating_sys.Kmem.{Kmem, bad_page, push_page, kfree, kalloc}

-- From `p` the `next` pointers lead through `pages` to NULL.
abbrev pub Chain : (ℕ → ℕ) → ℕ → List ℕ → Type 0
Chain next p [] = p ≡ 0
Chain next p (a ∷ pages) = (p ≡ a) × (a ≢ 0) × Chain next (next a) pages

-- `pages` are the free pages, in the order of the list.
pub record IsValid (kernel_end : ℕ) (pages : List ℕ) (k : Kmem) : Type 0 where
  pub chain : Chain k.next k.freelist pages
  pub distinct : Distinct pages
  pub counted : k.free_pages ≡ length pages % 2 ^ 32
  pub unused : (p : ℕ) → has p pages ≡ true → k.ref_cnt (p / 4096) ≡ 0
  pub usable : (p : ℕ) → has p pages ≡ true → bad_page kernel_end p ≡ false

-- A write to the `next` field of a page outside the list leaves the list.
pub Chain-update :
    (next : ℕ → ℕ) (v w p : ℕ) (pages : List ℕ)
    → has v pages ≡ false
    → Chain next p pages
    → Chain (update next v w) p pages
Chain-update next v w p [] out c = c
Chain-update next v w p (a ∷ pages) out c =
    let same : update next v w a ≡ next a = update_ne next v a w (ground arith) in
    (c.0, c.1, rw same (Chain-update next v w (next a) pages (ground arith) c.2))

-- Two usable pages with one page number are one page.
pub eq_of_page_number :
    (kernel_end p v : ℕ)
    → bad_page kernel_end p ≡ false
    → bad_page kernel_end v ≡ false
    → p / 4096 ≡ v / 4096
    → p ≡ v
eq_of_page_number kernel_end p v hp hv e = ground arith

-- One reference less.
abbrev pub drop_reference : ℕ → Kmem → Kmem
drop_reference v k = record k { ref_cnt = update k.ref_cnt (v / 4096) (k.ref_cnt (v / 4096) - 1) }

-- What a call of `kfree` that returns has done.
pub kfree_cases :
    (kernel_end v : ℕ) (k k' : Kmem)
    → kfree kernel_end v k ≡ ok k'
    → ((bad_page kernel_end v ≡ false)
        × (k.ref_cnt (v / 4096) ≡ 1)
        × (k' ≡ push_page kernel_end v k))
      ⊎ ((bad_page kernel_end v ≡ false)
          × (1 < k.ref_cnt (v / 4096))
          × (k.ref_cnt (v / 4096) < 2 ^ 31)
          × (k' ≡ drop_reference v k))
unfolding kfree
kfree_cases kernel_end v k k' h = ground arith

module _ (kernel_end v : ℕ) (pages : List ℕ) (k : Kmem) (valid : IsValid kernel_end pages k) where
  open valid use {chain, distinct, counted, unused, usable}

  -- A page whose count is not 0 is not free.
  pub not-mem_of_counted : k.ref_cnt (v / 4096) ≢ 0 → has v pages ≡ false
  not-mem_of_counted h = ground (arith, unused v)

  pub push_page-IsValid :
      bad_page kernel_end v ≡ false
      → 0 < kernel_end
      → has v pages ≡ false
      → IsValid kernel_end (v ∷ pages) (push_page kernel_end v k)
  push_page-IsValid good nonzero out = record {
    chain = (
      refl,
      ground arith,
      rw (update_self k.next v k.freelist)
          (Chain-update k.next v k.freelist k.freelist pages out chain),
    );
    distinct = (out, distinct);
    counted = ground arith;
    unused = λ p h. ground (arith, unused p);
    usable = λ p h. ground (arith, usable p);
  }

  pub drop_reference-IsValid :
      1 < k.ref_cnt (v / 4096) → IsValid kernel_end pages (drop_reference v k)
  drop_reference-IsValid more = record {
    chain = chain;
    distinct = distinct;
    counted = counted;
    unused = λ p h. ground (arith, unused p);
    usable = usable;
  }

  -- A call of `kfree` on a consistent allocator that does not panic leaves it consistent: a shared
  -- page stays allocated, and a page with one reference joins the front of the free list.
  pub kfree-IsValid :
      (k' : Kmem)
      → 0 < kernel_end
      → kfree kernel_end v k ≡ ok k'
      → IsValid kernel_end (if k.ref_cnt (v / 4096) == 1 then v ∷ pages else pages) k'
  kfree-IsValid k' nonzero h = elim (kfree_cases kernel_end v k k' h) [
    | inl (good, one, e) ↦
        rw (eq→== (k.ref_cnt (v / 4096)) 1 one, e)
          (push_page-IsValid good nonzero (not-mem_of_counted (ground arith)))
    | inr (good, more, small, e) ↦
        rw (ne→== (k.ref_cnt (v / 4096)) 1 (omega arith), e) (drop_reference-IsValid more)
  ]

-- The page has one reference, other counts are as before, and the rest of the list is free.
pub record Taken (kernel_end p : ℕ) (pages : List ℕ) (k : Kmem) (r : ℕ × Kmem) : Type 0 where
  pub page : r.0 ≡ p
  pub one : r.1.ref_cnt (p / 4096) ≡ 1
  pub others : (q : ℕ) → q ≢ p / 4096 → r.1.ref_cnt q ≡ k.ref_cnt q
  pub valid : IsValid kernel_end pages r.1

abbrev pub KallocResult : ℕ → List ℕ → Kmem → ℕ × Kmem → Type 0
KallocResult kernel_end [] k r = r ≡ (0, k)
KallocResult kernel_end (p ∷ pages) k r = Taken kernel_end p pages k r

kalloc_empty : (k : Kmem) → k.freelist ≡ 0 → kalloc k ≡ (0, k)
unfolding kalloc
kalloc_empty k e = ground arith

-- The front page `p` leaves the list.
abbrev take_page : ℕ → Kmem → Kmem
take_page p k = record k {
  freelist = k.next p;
  free_pages = (k.free_pages + (2 ^ 32 - 1)) % 2 ^ 32;
  ref_cnt = update k.ref_cnt (p / 4096) 1;
}

kalloc_front : (p : ℕ) (k : Kmem) → k.freelist ≡ p → p ≢ 0 → kalloc k ≡ (p, take_page p k)
unfolding kalloc
kalloc_front p k e h = ground arith

module _ (kernel_end p : ℕ) (pages : List ℕ) (k : Kmem)
    (valid : IsValid kernel_end (p ∷ pages) k) where
  take_page-IsValid : IsValid kernel_end pages (take_page p k)
  take_page-IsValid = record {
    chain = valid.chain.2;
    distinct = valid.distinct.1;
    counted = ground (arith, valid.counted);
    unused = λ q h. ground (arith, valid.unused q, q_ne q h, valid.distinct);
    usable = λ q h. valid.usable q (ground arith);
  }
    where
      q_ne : (q : ℕ) → has q pages ≡ true → p / 4096 ≢ q / 4096
      q_ne q h e = ground (
        arith,
        valid.distinct,
        eq_of_page_number kernel_end p q (valid.usable p (ground arith))
            (valid.usable q (ground arith)) e,
      )

-- On a consistent allocator `kalloc` with an empty list returns NULL and changes nothing; otherwise
-- it returns the first free page, which then has one reference, changes no other count, and leaves
-- a consistent allocator with the rest of the list free.
pub kalloc-IsValid :
    (kernel_end : ℕ) (pages : List ℕ) (k : Kmem)
    → IsValid kernel_end pages k
    → KallocResult kernel_end pages k (kalloc k)
kalloc-IsValid kernel_end [] k valid = kalloc_empty k valid.chain
kalloc-IsValid kernel_end (p ∷ pages) k valid =
    rw (kalloc_front p k valid.chain.0 valid.chain.1) (record {
      page = refl;
      one = update_self k.ref_cnt (p / 4096) 1;
      others = λ q h. ground arith;
      valid = take_page-IsValid kernel_end p pages k valid;
    })

-- On a consistent allocator, if `kfree` of a page with one reference does not panic, the page is
-- the next that `kalloc` returns, and the head of the free list, the counter and all reference
-- counts are then what they were before the free.
pub kalloc-kfree :
    (kernel_end v : ℕ) (pages : List ℕ) (k k' : Kmem)
    → 0 < kernel_end
    → IsValid kernel_end pages k
    → k.ref_cnt (v / 4096) ≡ 1
    → kfree kernel_end v k ≡ ok k'
    → let (r, k2) = kalloc k' in
      (r ≡ v)
      × (k2.freelist ≡ k.freelist)
      × (k2.free_pages ≡ k.free_pages)
      × ((q : ℕ) → k2.ref_cnt q ≡ k.ref_cnt q)
kalloc-kfree kernel_end v pages k k' nonzero valid one h = elim (kfree_cases kernel_end v k k' h) [
  | inl (good, one', e) ↦
      rw (e, kalloc_front v (push_page kernel_end v k) refl (ground arith))
        (refl, update_self k.next v k.freelist, ground (arith, valid.counted), λ q. ground arith)
  | inr (good, more, small, e) ↦ absurd (omega arith)
]

-- `kfree` panics exactly on an address that is no page of the allocator, on a page with no
-- reference, and on one whose count is 2 ^ 31 or more.
pub kfree-panic :
    (kernel_end v : ℕ) (k : Kmem)
    → (kfree kernel_end v k ≡ panic) ↔ (
        (bad_page kernel_end v ≡ true)
        ⊎ ((k.ref_cnt (v / 4096) ≡ 0) ⊎ (2 ^ 31 ≤ k.ref_cnt (v / 4096))))
unfolding kfree
kfree-panic kernel_end v k = ground arith
