-- ===== src/Vm/CopyOnWrite.antt =====
-- The page fault of a write to a page that is shared copy-on-write.
use Prim.Native.Nat.{bit_or}
use cs537_sp23_operating_sys.Common.{
  ℕ, List, bit_or_two, bit_or_page, arith, false, load, true, ◌%◌, ◌*◌, ◌+◌, ◌-◌, ◌/◌, ◌<◌, ◌^◌,
  ◌∙◌, ◌∷◌, ◌≡◌, ◌≢◌, ◌≤◌, ◌⊎◌, if◌then◌else◌, in_range, refl, ap, has, load-store, ne→==,
  store_other, sym, ltb, rank,
}
use cs537_sp23_operating_sys.Strings.Moves.{memmove_lem}
use cs537_sp23_operating_sys.Kmem.{Kmem, kalloc, dec_ref_cnt}
use cs537_sp23_operating_sys.Kmem.Inv.{IsValid, kalloc-IsValid, Taken}
use cs537_sp23_operating_sys.Kmem.Frame.{
  kalloc-byte, dec_ref_cnt-byte, get_ref_cnt_lem, dec_ref_cnt-count, IsValid-byte,
  dec_ref_cnt-IsValid,
}
use cs537_sp23_operating_sys.Vm.{
  present, writable, user, pte_addr, pte_flags, put_word, copy_page, walkpgdir, handled, pgfltintr,
}

-- Two ranges of memory that do not meet.
abbrev pub Apart : ℕ → ℕ → ℕ → ℕ → Type 0
Apart a n b m = (a + n ≤ b) ⊎ (b + m ≤ a)

-- The entry at `pte` mapped the shared page `pa`; now it maps `mem`, a copy of its own.
pub record Split (k k' : Kmem) (pte pa mem : ℕ) : Type 0 where
  pub maps : pte_addr (load k'.byte pte) ≡ mem
  pub may_write : (present (load k'.byte pte) ≡ true) × (writable (load k'.byte pte) ≡ true)
  pub same_mode : user (load k'.byte pte) ≡ user (load k.byte pte)
  pub copied : (i : ℕ) → i < 4096 → k'.byte (mem + i) ≡ k.byte (pa + i)
  pub kept : (a : ℕ) → Apart a 1 mem 4096 → Apart a 1 pte 4 → k'.byte a ≡ k.byte a
  pub shared : k'.ref_cnt (pa / 4096) + 1 ≡ k.ref_cnt (pa / 4096)
  pub owned : k'.ref_cnt (mem / 4096) ≡ 1
  pub counts : (q : ℕ) → q ≢ pa / 4096 → q ≢ mem / 4096 → k'.ref_cnt q ≡ k.ref_cnt q

-- The entry that the handler writes.
new_entry :
    (mem w : ℕ)
    → mem % 4096 ≡ 0
    → bit_or (bit_or (pte_addr mem) (pte_flags w)) 2 ≡ mem + (w % 4096 - w / 2 % 2 * 2 + 2)
new_entry mem w aligned =
    let e : pte_addr mem ≡ mem = omega arith in
    let first : bit_or (pte_addr mem) (pte_flags w) ≡ mem + w % 4096 =
      bit_or_page (pte_addr mem) (pte_flags w) (omega arith) (omega arith) ∙ omega arith in
    rw first (bit_or_two (mem + w % 4096) ∙ omega arith)

module _ (kernel_end pgdir va : ℕ) (p : ℕ) (pages : List ℕ) (k : Kmem) where
  abbrev pte : ℕ
  pte = (walkpgdir pgdir va false k).0

  abbrev entry : ℕ
  entry = load k.byte pte

  abbrev page : ℕ
  page = pte_addr entry

  module _ (valid : IsValid kernel_end (p ∷ pages) k) (there : pte ≢ 0)
      (mapped : present entry ≡ true) (protected : writable entry ≡ false)
      (many : 1 < k.ref_cnt (page / 4096)) (word : k.ref_cnt (page / 4096) < 2 ^ 31)
      (apart : Apart pte 4 p 4096) where
    abbrev k1 : Kmem
    k1 = (kalloc k).1

    abbrev copied_state : Kmem
    copied_state = copy_page p page k1

    abbrev w' : ℕ
    w' = bit_or (bit_or (pte_addr p) (pte_flags entry)) 2

    abbrev after : Kmem
    after = put_word pte w' (dec_ref_cnt page copied_state)

    taken : Taken kernel_end p pages k (kalloc k)
    taken = kalloc-IsValid kernel_end (p ∷ pages) k valid

    good_page : (p % 4096 ≡ 0) × (p < 0x1000000) × (p ≢ 0)
    good_page =
        let front : has p (p ∷ pages) ≡ true = ground arith in
        let usable = valid.usable p front in
        (ground (arith, usable), ground (arith, usable), valid.chain.1)

    other_page : page / 4096 ≢ p / 4096
    other_page e =
        let front : has p (p ∷ pages) ≡ true = ground arith in
        let none_yet = valid.unused p front in let same = ap k.ref_cnt e in absurd (omega arith)

    bytes :
        (a : ℕ)
        → copied_state.byte a ≡ (if in_range p 4096 a then k.byte (page + (a - p)) else k.byte a)
    bytes a = memmove_lem k1.byte p page 4096 a ∙ rw (kalloc-byte k) refl

    -- The comparison of the code, between numbers of type `int`.
    more_than_one : ltb (rank 1) (rank (k.ref_cnt (page / 4096))) ≡ true
    more_than_one = ground arith

    fault_handled : pgfltintr pgdir va k ≡ handled after
    unfolding pgfltintr
    fault_handled =
        rw
          (
            ne→== pte 0 there,
            protected,
            mapped,
            get_ref_cnt_lem page k,
            more_than_one,
            taken.page,
            ne→== p 0 good_page.2,
          )
          refl

    Split-after : Split k after pte page p
    Split-after =
        let aligned = good_page.0 in
        let low = good_page.1 in
        let w_eq = new_entry p entry aligned in
        let same_word : load after.byte pte ≡ w' =
          load-store (dec_ref_cnt page copied_state).byte pte w' (rw w_eq (omega arith)) in
        let counts =
          dec_ref_cnt-count page copied_state (omega (arith, taken.others (page / 4096) other_page))
            (omega (arith, taken.others (page / 4096) other_page)) in
        record {
          maps = rw (same_word, w_eq) (omega arith);
          may_write = (rw (same_word, w_eq) (ground arith), rw (same_word, w_eq) (ground arith));
          same_mode = rw (same_word, w_eq) (ground arith);
          copied = λ i l.
              store_other (dec_ref_cnt page copied_state).byte pte w' (p + i) (ground arith)
              ∙ (ap (λ (m : ℕ → ℕ). m (p + i)) (dec_ref_cnt-byte page copied_state)
                  ∙ (bytes (p + i) ∙ ground arith));
          kept = λ a h1 h2.
              store_other (dec_ref_cnt page copied_state).byte pte w' a (ground arith)
              ∙ (ap (λ (m : ℕ → ℕ). m a) (dec_ref_cnt-byte page copied_state)
                  ∙ (bytes a ∙ ground arith));
          shared = counts.0 ∙ taken.others (page / 4096) other_page;
          owned = counts.1 (p / 4096) (λ e. other_page (sym e)) ∙ taken.one;
          counts = λ q h1 h2. counts.1 q h1 ∙ taken.others q h2;
        }

    -- A write fault on a present page that is protected and has more than one reference and fewer than
    -- 2 ^ 31, where the free list is consistent and starts with a page `p` apart from the entry, is handled:
    -- the entry maps `p` writable, in the same mode, with the contents of the page that was shared; all memory
    -- but that page and the entry is as before; the shared page has one reference less, the copy has one,
    -- and the allocator stays consistent.
    pub pgfltintr-Split :
        (k' : Kmem) × (pgfltintr pgdir va k ≡ handled k')
        × Split k k' pte page p
        × IsValid kernel_end pages k'
    pgfltintr-Split = (
      after,
      fault_handled,
      Split-after,
      IsValid-byte kernel_end pages (dec_ref_cnt page copied_state) _ (
          dec_ref_cnt-IsValid kernel_end page pages copied_state
            (IsValid-byte kernel_end pages k1 _ taken.valid)
            (omega (arith, taken.others (page / 4096) other_page))
            (omega (arith, taken.others (page / 4096) other_page))),
    )
