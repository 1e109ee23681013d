-- ===== src/Bio/Once.antt =====
-- The buffers of a block, and what bget returns.
use mathlib.Core.Path.{subst}
use cs537_sp23_operating_sys.Common.{
  ℕ, update, has, Outcome, ok, ==→eq, Bool, Bool-cases, List, [], ap, arith, false, inl, inr,
  minus_one, refl, sym, true, ◌==◌, ◌∙◌, ◌∷◌, ◌≡◌, ◌≢◌, length, panic, ◌≤◌, update_self, update_ne,
  suc, zero, ◌+◌, ◌<◌, ◌⊎◌,
}
use cs537_sp23_operating_sys.Bio.{
  binit, binit_from, link_front, Buf, Bcache, nbuf, Bget, got, sleeps, holds, is_idle, bget,
}
use cs537_sp23_operating_sys.Bio.Ring.{IsRing}
use cs537_sp23_operating_sys.Bio.Lookup.{first_of, turn, has-turn, bget_list, bget_lem, locked_as}

first_of-none :
    (test : ℕ → Bool) (l : List ℕ) (y : ℕ)
    → has nbuf l ≡ false
    → first_of test l ≡ nbuf
    → has y l ≡ true
    → test y ≡ false
first_of-none test [] y out none_found there = cc
first_of-none test (b ∷ l) y out none_found there = elim (Bool-cases (test b)) [
  | inl found ↦
      let e : first_of test (b ∷ l) ≡ b = rw found refl in ground (arith, out, e, none_found)
  | inr passed ↦
      let e : first_of test (b ∷ l) ≡ first_of test l = rw passed refl in
      elim (Bool-cases (y == b)) [
        | inl here ↦ ap test (==→eq y b here) ∙ passed
        | inr later ↦
            first_of-none test l y (ground (arith, out)) (sym e ∙ none_found)
              (ground (arith, there, later))
      ]
]

-- Two buffers of the ring with the same block are one buffer. The device -1 marks a buffer without a block.
pub record IsOnce (c : Bcache) (l : List ℕ) : Type 0 where
  pub one :
      (x y : ℕ)
      → has x l ≡ true
      → has y l ≡ true
      → (c.buf x).dev ≢ minus_one
      → (c.buf x).dev ≡ (c.buf y).dev
      → (c.buf x).sector ≡ (c.buf y).sector
      → x ≡ y

-- The result of a round with a buffer: the buffer was not locked and is locked now. It held the block before
-- and has its flags as before; or the block was in no buffer, and the buffer takes it, neither valid nor
-- dirty. All other buffers are as before, the ring is kept, and no block is in two buffers.
pub record GotSpec (dev sector : ℕ) (l : List ℕ) (c : Bcache) (b : ℕ) (c' : Bcache) : Type 0 where
  pub ring : IsRing c' l
  pub once : IsOnce c' l
  pub was_idle : (c.buf b).busy ≡ false
  pub in_ring : has b l ≡ true
  pub content :
      ((holds dev sector c b ≡ true) × (c'.buf b ≡ record (c.buf b) { busy = true }))
      ⊎ (((y : ℕ) → has y l ≡ true → holds dev sector c y ≡ false)
          × (c'.buf b
              ≡ record { busy = true; valid = false; dirty = false; dev = dev; sector = sector }))
  pub others : (x : ℕ) → b ≢ x → c'.buf x ≡ c.buf x

first_of-found :
    (test : ℕ → Bool) (l : List ℕ) (b : ℕ) → first_of test l ≡ b → b ≢ nbuf → test b ≡ true
first_of-found test [] b e ne = absurd (ne (sym e))
first_of-found test (a ∷ l) b e ne = elim (Bool-cases (test a)) [
  | inl found ↦ let same : a ≡ b = sym (rw found refl) ∙ e in ap test (sym same) ∙ found
  | inr passed ↦ first_of-found test l b (sym (rw passed refl) ∙ e) ne
]

first_of-has :
    (test : ℕ → Bool) (l : List ℕ) (b : ℕ) → first_of test l ≡ b → b ≢ nbuf → has b l ≡ true
first_of-has test [] b e ne = absurd (ne (sym e))
first_of-has test (a ∷ l) b e ne = elim (Bool-cases (test a)) [
  | inl found ↦ let same : a ≡ b = sym (rw found refl) ∙ e in ground (arith, same)
  | inr passed ↦
      let later = first_of-has test l b (sym (rw passed refl) ∙ e) ne in ground (arith, later)
]

changed : (b z : ℕ) (u : Buf) (buf : ℕ → Buf) → (b == z) ≡ true → update buf b u z ≡ u
changed b z u buf h = rw h refl

unchanged : (b z : ℕ) (u : Buf) (buf : ℕ → Buf) → (b == z) ≡ false → update buf b u z ≡ buf z
unchanged b z u buf h = rw h refl

-- A change of a buffer that keeps a field of it keeps that field everywhere.
kept :
    (field : Buf → ℕ) (b z : ℕ) (u : Buf) (buf : ℕ → Buf)
    → field u ≡ field (buf b)
    → field (update buf b u z) ≡ field (buf z)
kept field b z u buf e = elim (Bool-cases (b == z)) [
  | inl same ↦ ap field (changed b z u buf same) ∙ e ∙ ap (λ i. field (buf i)) (==→eq b z same)
  | inr other ↦ ap field (unchanged b z u buf other)
]

-- A locked buffer that keeps its block.
IsOnce-locked :
    (b : ℕ) (c : Bcache) (l : List ℕ)
    → IsOnce c l
    → IsOnce (locked_as b (record (c.buf b) { busy = true }) c) l
IsOnce-locked b c l h = record {
  one = λ x y hx hy some_block devs sectors.
      let u = record (c.buf b) { busy = true } in
      h.one x y hx hy (λ e. some_block (kept (λ v. v.dev) b x u c.buf refl ∙ e))
        (sym (kept (λ v. v.dev) b x u c.buf refl) ∙ devs ∙ kept (λ v. v.dev) b y u c.buf refl)
        (sym (kept (λ v. v.sector) b x u c.buf refl)
          ∙ sectors
          ∙ kept (λ v. v.sector) b y u c.buf refl);
}

-- A buffer that takes a block which no buffer has.
IsOnce-taken :
    (b dev sector : ℕ) (c : Bcache) (l : List ℕ)
    → ((y : ℕ) → has y l ≡ true → holds dev sector c y ≡ false)
    → IsOnce c l
    → IsOnce
        (locked_as b
          (record { busy = true; valid = false; dirty = false; dev = dev; sector = sector })
          c)
        l
IsOnce-taken b dev sector c l absent h = record {
  one = λ x y hx hy some_block devs sectors.
      let u : Buf = record {
        busy = true;
        valid = false;
        dirty = false;
        dev = dev;
        sector = sector;
      } in
      elim (Bool-cases (b == x)) [
        | inl at_x ↦ elim (Bool-cases (b == y)) [
          | inl at_y ↦ sym (==→eq b x at_x) ∙ ==→eq b y at_y
          | inr off_y ↦
              let from_x = changed b x u c.buf at_x in
              let from_y = unchanged b y u c.buf off_y in
              let same_dev : dev ≡ (c.buf y).dev =
                sym (ap (λ v. v.dev) from_x) ∙ devs ∙ ap (λ v. v.dev) from_y in
              let same_sector : sector ≡ (c.buf y).sector =
                sym (ap (λ v. v.sector) from_x) ∙ sectors ∙ ap (λ v. v.sector) from_y in
              ground (arith, absent y hy, same_dev, same_sector)
        ]
        | inr off_x ↦
            let from_x = unchanged b x u c.buf off_x in
            elim (Bool-cases (b == y)) [
              | inl at_y ↦
                  let from_y = changed b y u c.buf at_y in
                  let same_dev : (c.buf x).dev ≡ dev =
                    sym (ap (λ v. v.dev) from_x) ∙ devs ∙ ap (λ v. v.dev) from_y in
                  let same_sector : (c.buf x).sector ≡ sector =
                    sym (ap (λ v. v.sector) from_x) ∙ sectors ∙ ap (λ v. v.sector) from_y in
                  ground (arith, absent x hx, same_dev, same_sector)
              | inr off_y ↦
                  let from_y = unchanged b y u c.buf off_y in
                  h.one x y hx hy (λ e. some_block (ap (λ v. v.dev) from_x ∙ e))
                    (sym (ap (λ v. v.dev) from_x) ∙ devs ∙ ap (λ v. v.dev) from_y)
                    (sym (ap (λ v. v.sector) from_x) ∙ sectors ∙ ap (λ v. v.sector) from_y)
            ]
      ];
}

-- The three results of a round of `bget`: a sleep on the locked buffer of the block, a buffer, or the panic
-- where all buffers are locked.
pub data Round (dev sector : ℕ) (l : List ℕ) (c : Bcache) : Outcome Bget → Type 0 where
  in_use :
      (b : ℕ)
      → (c.buf b).busy ≡ true
      → holds dev sector c b ≡ true
      → Round dev sector l c (ok (sleeps b))
  taken : (b : ℕ) (c' : Bcache) → GotSpec dev sector l c b c' → Round dev sector l c (ok (got b c'))
  full : ((y : ℕ) → has y l ≡ true → (c.buf y).busy ≡ true) → Round dev sector l c panic

bget_list-Round :
    (dev sector : ℕ) (l : List ℕ) (c : Bcache)
    → IsRing c l
    → IsOnce c l
    → Round dev sector l c (bget_list dev sector l c)
bget_list-Round dev sector l c ring once =
    let b = first_of (holds dev sector c) l in
    let f = first_of (is_idle c) (turn l []) in
    elim (Bool-cases (b == nbuf)) [
      | inr cached ↦
          let block : holds dev sector c b ≡ true =
            first_of-found (holds dev sector c) l b refl (λ e. ground (arith, cached, e)) in
          elim (Bool-cases (c.buf b).busy) [
            | inl locked ↦ rw (cached, locked, bget_list) (in_use b locked block)
            | inr idle ↦
                rw (cached, idle, bget_list)
                  (taken b _ (record {
                    ring = record { chain = ring.chain; apart = ring.apart };
                    once = IsOnce-locked b c l once;
                    was_idle = idle;
                    in_ring =
                        first_of-has (holds dev sector c) l b refl (λ e. ground (arith, cached, e));
                    content = inl (block, update_self c.buf b (record (c.buf b) { busy = true }));
                    others = λ x ne. update_ne c.buf b x (record (c.buf b) { busy = true }) ne;
                  }))
          ]
      | inl none_cached ↦
          let absent = first_of-none (holds dev sector c) l in
          elim (Bool-cases (f == nbuf)) [
            | inr free ↦
                let u : Buf = record {
                  busy = true;
                  valid = false;
                  dirty = false;
                  dev = dev;
                  sector = sector;
                } in
                let absent_all : (y : ℕ) → has y l ≡ true → holds dev sector c y ≡ false =
                  λ y i. absent y ring.apart.0 (==→eq b nbuf none_cached) i in
                let idle_free =
                  first_of-found (is_idle c) (turn l []) f refl (λ e. ground (arith, free, e)) in
                let found_free =
                  first_of-has (is_idle c) (turn l []) f refl (λ e. ground (arith, free, e)) in
                rw (none_cached, free, bget_list)
                  (taken f _ (record {
                    ring = record { chain = ring.chain; apart = ring.apart };
                    once = IsOnce-taken f dev sector c l absent_all once;
                    was_idle = ground (arith, idle_free);
                    in_ring = ground (arith, found_free, has-turn f l []);
                    content = inr (absent_all, update_self c.buf f u);
                    others = λ x ne. update_ne c.buf f x u ne;
                  }))
            | inl all_locked ↦
                rw (none_cached, all_locked, bget_list)
                  (full (λ y i.
                    let not_idle =
                      first_of-none (is_idle c) (turn l []) y
                        (ground (arith, has-turn nbuf l [], ring.apart.0)) (==→eq f nbuf all_locked)
                        (ground (arith, has-turn y l [], i)) in
                    ground (arith, not_idle)))
          ]
    ]

-- In a ring of at most as many buffers as there are, in which no block is in two buffers, `bget` sleeps on the
-- locked buffer of the block, or panics where all buffers are locked, or returns a buffer of the ring that
-- was not locked and is locked now: the one that holds the block, as it was, or, where no buffer holds it,
-- one that takes the block, neither valid nor dirty. Then the other buffers are as before, and the ring and
-- the one place of each block are kept.
pub bget-Round :
    (dev sector : ℕ) (l : List ℕ) (c : Bcache)
    → IsRing c l
    → length l ≤ nbuf
    → IsOnce c l
    → Round dev sector l c (bget dev sector c)
bget-Round dev sector l c ring size once =
    subst (Round dev sector l c) (sym (bget_lem dev sector l c ring size))
      (bget_list-Round dev sector l c ring once)

binit_from-dev :
    (n b x : ℕ) (c : Bcache)
    → ((c.buf x).dev ≡ minus_one) ⊎ ((b ≤ x) × (x < b + n))
    → ((binit_from n b c).buf x).dev ≡ minus_one
unfolding binit_from link_front
binit_from-dev zero b x c (inl h) = h
binit_from-dev zero b x c (inr h) = absurd (omega (arith, h.0, h.1))
binit_from-dev (suc n) b x c h =
    let u = record (c.buf b) { dev = minus_one } in
    let next = link_front b (record c { buf = update c.buf b u }) in
    binit_from-dev n (b + 1) x next (elim (Bool-cases (b == x)) [
      | inl here ↦ inl (ap (λ v. v.dev) (changed b x u c.buf here))
      | inr other ↦ elim h [
        | inl done ↦ inl (ap (λ v. v.dev) (unchanged b x u c.buf other) ∙ done)
        | inr range ↦ inr (ground (arith, range.0, other), ground (arith, range.1))
      ]
    ])

abbrev pub all_buffers : List ℕ
all_buffers = 9 ∷ 8 ∷ 7 ∷ 6 ∷ 5 ∷ 4 ∷ 3 ∷ 2 ∷ 1 ∷ 0 ∷ []

has-all_buffers : (x : ℕ) → has x all_buffers ≡ true → x < nbuf
has-all_buffers x h = ground arith

-- After the start no buffer has a block.
pub binit-IsOnce : (c : Bcache) → IsOnce (binit c) all_buffers
unfolding binit
binit-IsOnce c = record {
  one = λ x y hx hy some_block devs sectors.
      absurd (some_block (binit_from-dev nbuf 0 x _ (inr (omega arith, has-all_buffers x hx))));
}
