-- ===== src/Vm/Share.antt =====
-- One page of `cowuvm`: the entries of parent and child, and the references to the page.
use Prim.Native.Nat.{bit_or}
use cs537_sp23_operating_sys.Common.{
  ℕ, bit_or_one, bit_or_page, Bool, arith, false, load, load-store, load-store_ne, ne→==, ok, refl,
  store_other, sym, true, ◌%◌, ◌*◌, ◌+◌, ◌/◌, ◌<◌, ◌^◌, ◌∙◌, ◌≡◌, ◌≢◌, suc, zero, ◌==◌,
}
use cs537_sp23_operating_sys.Kmem.{Kmem, inc_ref_cnt}
use cs537_sp23_operating_sys.Kmem.Frame.{inc_ref_cnt-byte, inc_ref_cnt-count}
use cs537_sp23_operating_sys.Vm.{
  present, writable, pte_addr, pte_flags, pdx, ptx, pages_of, write_protect, put_word, walkpgdir,
  map_from, mappages,
}
use cs537_sp23_operating_sys.Vm.Space.{cow_page}
use cs537_sp23_operating_sys.Vm.CopyOnWrite.{Apart}

-- Where the table of `va` is there, the walk makes nothing.
pub walkpgdir_there :
    (pgdir va : ℕ) (create : Bool) (k : Kmem)
    → present (load k.byte (pgdir + 4 * pdx va)) ≡ true
    → walkpgdir pgdir va create k ≡ (pte_addr (load k.byte (pgdir + 4 * pdx va)) + 4 * ptx va, k)
unfolding walkpgdir
walkpgdir_there pgdir va create k h = rw h refl

map_from_one :
    (pgdir va pa perm pte : ℕ) (k : Kmem)
    → walkpgdir pgdir va true k ≡ (pte, k)
    → pte ≢ 0
    → present (load k.byte pte) ≡ false
    → map_from (suc zero) pgdir va pa perm k ≡ ok (true, put_word pte (bit_or (bit_or pa perm) 1) k)
unfolding map_from
map_from_one pgdir va pa perm pte k walk some_pte free =
    let found : ((walkpgdir pgdir va true k).0 == 0) ≡ false = rw walk (ne→== pte 0 some_pte) in
    let unused : present (load (walkpgdir pgdir va true k).1.byte (walkpgdir pgdir va true k).0)
        ≡ false =
      rw walk free in
    rw (found, unused, map_from) (rw walk refl)

-- Mapping one page whose table is there and whose entry is free writes that entry.
pub mappages_one :
    (pgdir va pa perm pte : ℕ) (k : Kmem)
    → va % 4096 ≡ 0
    → va < 2 ^ 32
    → walkpgdir pgdir va true k ≡ (pte, k)
    → pte ≢ 0
    → present (load k.byte pte) ≡ false
    → mappages pgdir va 4096 pa perm k ≡ ok (true, put_word pte (bit_or (bit_or pa perm) 1) k)
unfolding mappages
mappages_one pgdir va pa perm pte k aligned low walk some_pte free =
    let one : pages_of va 4096 ≡ 1 = omega arith in
    let down : va / 4096 * 4096 ≡ va = omega arith in
    rw (one, down) (map_from_one pgdir va pa perm pte k walk some_pte free)

-- Both entries map the page with the mode that the parent's had, but write-protected.
pub record Shared (k k' : Kmem) (pte child : ℕ) : Type 0 where
  pub parent : load k'.byte pte ≡ write_protect (load k.byte pte)
  pub same : load k'.byte child ≡ load k'.byte pte
  pub protected : writable (load k'.byte pte) ≡ false
  pub mapped :
      (present (load k'.byte pte) ≡ true)
      × (pte_addr (load k'.byte pte) ≡ pte_addr (load k.byte pte))
  pub counted :
      k'.ref_cnt (pte_addr (load k.byte pte) / 4096)
      ≡ (k.ref_cnt (pte_addr (load k.byte pte) / 4096) + 1) % 2 ^ 32
  pub others : (q : ℕ) → q ≢ pte_addr (load k.byte pte) / 4096 → k'.ref_cnt q ≡ k.ref_cnt q
  pub kept : (a : ℕ) → Apart a 1 pte 4 → Apart a 1 child 4 → k'.byte a ≡ k.byte a

module _ (kernel_end pgdir d i : ℕ) (k : Kmem) where
  abbrev pte : ℕ
  pte = (walkpgdir pgdir i false k).0

  abbrev w : ℕ
  w = load k.byte pte

  abbrev table : ℕ
  table = d + 4 * pdx i

  abbrev child : ℕ
  child = pte_addr (load k.byte table) + 4 * ptx i

  module _ (aligned : i % 4096 ≡ 0) (low : i < 2 ^ 32) (there : pte ≢ 0) (word : w < 2 ^ 32)
      (mapped : present w ≡ true) (child_table : present (load k.byte table) ≡ true)
      (child_entry : child ≢ 0) (free : present (load k.byte child) ≡ false)
      (apart_table : Apart pte 4 table 4) (apart : Apart pte 4 child 4) where
    abbrev k1 : Kmem
    k1 = put_word pte (write_protect w) k

    abbrev new_entry : ℕ
    new_entry = bit_or (bit_or (pte_addr (write_protect w)) (pte_flags (write_protect w))) 1

    abbrev k2 : Kmem
    k2 = put_word child new_entry k1

    abbrev after : Kmem
    after = inc_ref_cnt (pte_addr w) k2

    entry_eq : new_entry ≡ write_protect w
    entry_eq =
        bit_or_one _
        ∙ (rw
            (bit_or_page (pte_addr (write_protect w)) (pte_flags (write_protect w)) (omega arith)
              (omega arith))
            (ground arith))

    parent_word : load k1.byte pte ≡ write_protect w
    parent_word = load-store k.byte pte (write_protect w) (omega arith)

    parent_word2 : load k2.byte pte ≡ write_protect w
    parent_word2 = load-store_ne k1.byte child pte new_entry (ground arith) ∙ parent_word

    child_word : load k2.byte child ≡ write_protect w
    child_word = load-store k1.byte child new_entry (rw entry_eq (omega arith)) ∙ entry_eq

    walk : walkpgdir d i true k1 ≡ (child, k1)
    walk =
        let same : load k1.byte table ≡ load k.byte table =
          load-store_ne k.byte pte table (write_protect w) (ground arith) in
        walkpgdir_there d i true k1 (rw same child_table) ∙ rw same refl

    still_free : present (load k1.byte child) ≡ false
    still_free = rw (load-store_ne k.byte pte child (write_protect w) (ground arith)) free

    cow_done : cow_page kernel_end pgdir d i k ≡ ok (true, after)
    unfolding cow_page
    cow_done =
        let mapped_child =
          mappages_one d i (pte_addr (write_protect w)) (pte_flags (write_protect w)) child k1
            aligned low walk child_entry still_free in
        let addr_same : pte_addr (write_protect w) ≡ pte_addr w = omega arith in
        rw (ne→== pte 0 there, mapped, parent_word, mapped_child, parent_word2, addr_same) refl

    after-byte : after.byte ≡ k2.byte
    after-byte = inc_ref_cnt-byte (pte_addr w) k2

    -- `cow_page` on a present page of the parent, where the child's table is there and its entry free,
    -- succeeds: both entries then hold the parent's old one with writing forbidden, the page has one
    -- reference more, modulo 2 ^ 32, and all other counts and bytes are as before.
    pub cow_page-Shared :
        (k' : Kmem) × (cow_page kernel_end pgdir d i k ≡ ok (true, k')) × Shared k k' pte child
    cow_page-Shared =
        let counts = inc_ref_cnt-count (pte_addr w) k2 in
        (
          after,
          cow_done,
          record {
            parent = rw after-byte parent_word2;
            same = rw after-byte (child_word ∙ sym parent_word2);
            protected = rw (after-byte, parent_word2) (ground arith);
            mapped = (
              rw (after-byte, parent_word2) (ground arith),
              rw (after-byte, parent_word2) (omega arith),
            );
            counted = counts.0;
            others = counts.1;
            kept = λ a h1 h2. rw after-byte (
                store_other k1.byte child new_entry a (ground arith)
                ∙ store_other k.byte pte (write_protect w) a (ground arith));
          },
        )
