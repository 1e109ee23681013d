-- ===== src/Vm.antt =====
-- Page tables and copy-on-write: P5_XV6_CoW_Fork/kernel/vm.c. The state is that of the page allocator,
-- whose memory holds the tables; reloading cr3 changes nothing in it.
pub mod Space
pub mod CopyOnWrite
pub mod Share
mod Tests
use Prim.Native.Nat.{bit_or, ◌-◌, ◌-◌, ◌-◌, ◌-◌}
use cs537_sp23_operating_sys.Common.{
  ℕ, Bool, List, Option, Outcome, [], false, if◌then◌else◌, leb, load, ltb, none, not, ok, panic,
  some, store, suc, true, zero, ◌%◌, ◌&&◌, ◌*◌, ◌+◌, ◌-◌, ◌/◌, ◌==◌, ◌>>=◌, ◌^◌, ◌||◌, ◌∷◌, rank,
}
use cs537_sp23_operating_sys.Strings.{memset, memmove}
use cs537_sp23_operating_sys.Kmem.{
  Kmem, page_round_up, kfree, kalloc, inc_ref_cnt, dec_ref_cnt, get_ref_cnt,
}

-- The macros of mmu.h.
abbrev pub pdx : ℕ → ℕ
pdx va = va / 2 ^ 22 % 1024

abbrev pub ptx : ℕ → ℕ
ptx va = va / 4096 % 1024

abbrev pub page_round_down : ℕ → ℕ
page_round_down a = a / 4096 * 4096

abbrev pub pte_addr : ℕ → ℕ
pte_addr w = w / 4096 * 4096

abbrev pub pte_flags : ℕ → ℕ
pte_flags w = w % 4096

-- PTE_P, PTE_W and PTE_U of an entry.
abbrev pub present : ℕ → Bool
present w = w % 2 == 1

abbrev pub writable : ℕ → Bool
writable w = w / 2 % 2 == 1

abbrev pub user : ℕ → Bool
user w = w / 4 % 2 == 1

-- `w & ~PTE_W`
abbrev pub write_protect : ℕ → ℕ
write_protect w = w - w / 2 % 2 * 2

abbrev pub usertop : ℕ
usertop = 0xA0000

abbrev pub put_word : ℕ → ℕ → Kmem → Kmem
put_word a w k = record k { byte = store k.byte a w }

abbrev pub zero_page : ℕ → Kmem → Kmem
zero_page p k = record k { byte = memset k.byte p 0 4096 }

abbrev pub copy_page : ℕ → ℕ → Kmem → Kmem
copy_page dst src k = record k { byte = memmove k.byte dst src 4096 }

-- The address of the entry for `va`, or 0; a missing table is made if `create` is set.
pub walkpgdir : ℕ → ℕ → Bool → Kmem → ℕ × Kmem
walkpgdir pgdir va create k =
    let pde = pgdir + 4 * pdx va in
    if present (load k.byte pde)
    then (pte_addr (load k.byte pde) + 4 * ptx va, k)
    else if not create
    then (0, k)
    else let (pgtab, k1) = kalloc k in
      if pgtab == 0 then (0, k1) else (
        pgtab + 4 * ptx va,
        put_word pde (bit_or (bit_or (bit_or pgtab 1) 2) 4) (zero_page pgtab k1),
      )

-- The loop of `mappages`, by the pages left: false is the failure.
pub map_from : ℕ → ℕ → ℕ → ℕ → ℕ → Kmem → Outcome (Bool × Kmem)
map_from zero pgdir a pa perm k = ok (true, k)
map_from (suc n) pgdir a pa perm k =
    let (pte, k1) = walkpgdir pgdir a true k in
    elim (pte == 0) [
      | true ↦ ok (false, k1)
      | false ↦ elim (present (load k1.byte pte)) [
        | true ↦ panic
        | false ↦
            map_from n pgdir ((a + 4096) % 2 ^ 32) ((pa + 4096) % 2 ^ 32) perm
              (put_word pte (bit_or (bit_or pa perm) 1) k1)
      ]
    ]

-- The pages from that of `la` to that of `la + size - 1`, on `uint`.
abbrev pub pages_of : ℕ → ℕ → ℕ
pages_of la size =
    (page_round_down ((la + size + (2 ^ 32 - 1)) % 2 ^ 32) + 2 ^ 32 - page_round_down la)
      % 2 ^ 32
      / 4096
    + 1

pub mappages : ℕ → ℕ → ℕ → ℕ → ℕ → Kmem → Outcome (Bool × Kmem)
mappages pgdir la size pa perm k = map_from (pages_of la size) pgdir (page_round_down la) pa perm k

-- An entry of `kmap`.
pub record Kmap : Type 0 where
  pub start : ℕ
  pub stop : ℕ
  pub perm : ℕ

-- `data` is the linker's symbol for the start of the kernel's data.
abbrev pub kmap : ℕ → List Kmap
kmap data_start =
    record { start = usertop; stop = 0x100000; perm = 2 }
    ∷ record { start = 0x100000; stop = data_start; perm = 0 }
    ∷ record { start = data_start; stop = 0x1000000; perm = 2 }
    ∷ record { start = 0xFE000000; stop = 0; perm = 2 }
    ∷ []

pub map_kernel : List Kmap → ℕ → Kmem → Outcome (Bool × Kmem)
map_kernel [] pgdir k = ok (true, k)
map_kernel (e ∷ es) pgdir k =
    mappages pgdir e.start ((e.stop + 2 ^ 32 - e.start) % 2 ^ 32) e.start e.perm k >>= λ r.
    elim (r.0) [ true ↦ map_kernel es pgdir r.1 | false ↦ ok (false, r.1) ]

-- The directory, or 0.
pub setupkvm : ℕ → Kmem → Outcome (ℕ × Kmem)
setupkvm data_start k =
    let (pgdir, k1) = kalloc k in
    if pgdir == 0
    then ok (0, k1)
    else (map_kernel (kmap data_start) pgdir (zero_page pgdir k1) >>= λ r.
        ok (if r.0 then pgdir else 0, r.1))

-- `kalloc` may fail, and then address 0 is cleared and written as a page: `none`.
pub inituvm : ℕ → ℕ → ℕ → Kmem → Outcome (Option Kmem)
inituvm pgdir init sz k =
    if leb 4096 sz
    then panic
    else let (mem, k1) = kalloc k in
      if mem == 0
      then ok none
      else (mappages pgdir 0 4096 mem 6 (zero_page mem k1) >>= λ r.
          ok (some (record (r.1) { byte = memmove r.1.byte mem init sz })))

-- The address behind `uva`, or 0; `none` is a read through the entry that `walkpgdir` did not find.
pub uva2ka : ℕ → ℕ → Kmem → Option ℕ
uva2ka pgdir uva k =
    let pte = (walkpgdir pgdir uva false k).0 in
    let w = load k.byte pte in
    if pte == 0 then none else some (if present w && user w then pte_addr w else 0)

-- The loop of `copyout`; a round moves at least one of the `len` bytes, and `fuel` is at least `len`.
pub copyout_from : ℕ → ℕ → ℕ → ℕ → ℕ → Kmem → Option (Bool × Kmem)
copyout_from zero pgdir va buf len k = some (true, k)
copyout_from (suc fuel) pgdir va buf len k = elim (len == 0) [
  | true ↦ some (true, k)
  | false ↦
      let va0 = page_round_down va in
      let n = if ltb len (4096 - (va - va0)) then len else 4096 - (va - va0) in
      elim (uva2ka pgdir va0 k) [
        | none ↦ none
        | some pa0 ↦ elim (pa0 == 0) [
          | true ↦ some (false, k)
          | false ↦
              copyout_from fuel pgdir (va0 + 4096) (buf + n) (len - n)
                (record k { byte = memmove k.byte (pa0 + (va - va0)) buf n })
        ]
      ]
]

abbrev pub copyout : ℕ → ℕ → ℕ → ℕ → Kmem → Option (Bool × Kmem)
copyout pgdir va p len k = copyout_from len pgdir va p len k

-- What a page fault comes to; `wild` is a copy to address 0, where `kalloc` had no page.
pub data Fault : Type 0 where
  handled : Kmem → Fault
  invalid : Fault
  wild : Fault

-- `va` is the address in cr2.
pub pgfltintr : ℕ → ℕ → Kmem → Fault
pgfltintr pgdir va k =
    let pte = (walkpgdir pgdir va false k).0 in
    let w = load k.byte pte in
    let pa = pte_addr w in
    let (mem, k1) = kalloc k in
    if pte == 0
    then invalid
    else if writable w || not (present w)
    then handled k
    else if not (ltb (rank 1) (rank (get_ref_cnt pa k)))
    then handled (put_word pte (bit_or w 2) k)
    else if mem == 0
    then wild
    else handled (
        put_word pte (bit_or (bit_or (pte_addr mem) (pte_flags w)) 2)
          (dec_ref_cnt pa (copy_page mem pa k1)))
