-- ===== src/Bio/Ring.antt =====
-- The ring of the buffer cache as a list, the most recently used buffer first: binit, brelse and bget.
use mathlib.Core.Path.{subst}
use cs537_sp23_operating_sys.Common.{
  ℕ, update, has, Distinct, ok, List, [], arith, false, refl, update_ne, ◌++◌, ◌∷◌, ◌≡◌, Bool-cases,
  if◌then◌else◌, inl, inr, panic, sym, ◌==◌, ◌⊎◌,
}
use cs537_sp23_operating_sys.Bio.{Bcache, nbuf, link_front, unlink, binit, binit_from, brelse}
use cs537_sp23_operating_sys.Bio.Links.{Chain, Chain-unlink, Chain-insert, has-append}

pub record IsRing (c : Bcache) (l : List ℕ) : Type 0 where
  pub chain : Chain c.next c.prev nbuf l nbuf
  pub apart : Distinct (nbuf ∷ l)

Chain-split :
    (next prev : ℕ → ℕ) (a : ℕ) (l1 : List ℕ) (b : ℕ) (l2 : List ℕ) (z : ℕ)
    → Chain next prev a (l1 ++ (b ∷ l2)) z
    → Chain next prev a l1 b × Chain next prev b l2 z
Chain-split next prev a [] b l2 z h = ((h.0, h.1), h.2)
Chain-split next prev a (e ∷ l1) b l2 z h =
    let rest = Chain-split next prev e l1 b l2 z h.2 in ((h.0, h.1, rest.0), rest.1)

Distinct-split :
    (l1 : List ℕ) (b : ℕ) (l2 : List ℕ)
    → Distinct (l1 ++ (b ∷ l2))
    → (has b (l1 ++ l2) ≡ false) × Distinct (l1 ++ l2)
Distinct-split [] b l2 h = (h.0, h.1)
Distinct-split (e ∷ l1) b l2 h =
    let rest = Distinct-split l1 b l2 h.1 in
    let first = h.0 in
    (
      ground (arith, rest.0, first, has-append e l1 (b ∷ l2)),
      (ground (arith, first, has-append e l1 (b ∷ l2), has-append e l1 l2), rest.1),
    )

link_front-IsRing :
    (b : ℕ) (c : Bcache) (l : List ℕ)
    → has b (nbuf ∷ l) ≡ false
    → IsRing c l
    → IsRing (link_front b c) (b ∷ l)
unfolding link_front
link_front-IsRing b c l nb ring =
    let same : update c.next b (c.next nbuf) nbuf ≡ c.next nbuf =
      update_ne c.next b nbuf (c.next nbuf) (λ e. ground (arith, nb, e)) in
    record {
      chain =
          subst
            (λ f.
              Chain (update (update c.next b (c.next nbuf)) nbuf b)
                (update (update c.prev b nbuf) f b) nbuf (b ∷ l) nbuf)
            (sym same) (Chain-insert c.next c.prev nbuf l b nb ring.apart ring.chain);
      apart = (ground (arith, nb, ring.apart.0), (ground (arith, nb), ring.apart.1));
    }

unlink-IsRing :
    (b : ℕ) (c : Bcache) (l1 l2 : List ℕ)
    → IsRing c (l1 ++ (b ∷ l2))
    → IsRing (unlink b c) (l1 ++ l2)
unfolding unlink
unlink-IsRing b c l1 l2 ring =
    let same : update c.prev (c.next b) (c.prev b) b ≡ c.prev b = ground arith in
    let parts = Chain-split c.next c.prev nbuf l1 b l2 nbuf ring.chain in
    let fresh = Distinct-split l1 b l2 ring.apart.1 in
    record {
      chain =
          subst
            (λ p.
              Chain (update c.next p (c.next b)) (update c.prev (c.next b) (c.prev b)) nbuf
                (l1 ++ l2) nbuf)
            (sym same)
            (Chain-unlink c.next c.prev nbuf l1 b l2 nbuf ring.apart ring.apart.0 parts.0 parts.1);
      apart = (
        ground (arith, ring.apart.0, has-append nbuf l1 (b ∷ l2), has-append nbuf l1 l2),
        fresh.1,
      );
    }

-- After the start the ring has every buffer, the last one in front.
pub binit-IsRing : (c : Bcache) → IsRing (binit c) (9 ∷ 8 ∷ 7 ∷ 6 ∷ 5 ∷ 4 ∷ 3 ∷ 2 ∷ 1 ∷ 0 ∷ [])
unfolding binit binit_from link_front
binit-IsRing c = record {
  chain = (
    refl,
    refl,
    (
      refl,
      refl,
      (
        refl,
        refl,
        (
          refl,
          refl,
          (
            refl,
            refl,
            (refl, refl, (refl, refl, (refl, refl, (refl, refl, (refl, refl, (refl, refl)))))),
          ),
        ),
      ),
    ),
  );
  apart =
      (refl, (refl, (refl, (refl, (refl, (refl, (refl, (refl, (refl, (refl, (refl, tt)))))))))));
}

-- The release of a buffer of the ring that is locked moves it to the front of the ring, leaves the order of the others, and
-- changes no buffer but for its lock; a buffer that is not locked is a panic.
pub brelse-IsRing :
    (b : ℕ) (c : Bcache) (l1 l2 : List ℕ)
    → IsRing c (l1 ++ (b ∷ l2))
    → (((c.buf b).busy ≡ false) × (brelse b c ≡ panic))
      ⊎ ((c' : Bcache) × (brelse b c ≡ ok c')
          × IsRing c' (b ∷ (l1 ++ l2))
          × ((x : ℕ) → c'.buf x ≡ (if b == x then record (c.buf b) { busy = false } else c.buf x)))
unfolding brelse link_front unlink
brelse-IsRing b c l1 l2 ring =
    let fresh = Distinct-split l1 b l2 ring.apart.1 in
    let outside : has b (nbuf ∷ (l1 ++ l2)) ≡ false =
      ground (arith, fresh.0, ring.apart.0, has-append nbuf l1 (b ∷ l2)) in
    let moved =
      link_front-IsRing b (unlink b c) (l1 ++ l2) outside (unlink-IsRing b c l1 l2 ring) in
    elim (Bool-cases (c.buf b).busy) [
      | inl locked ↦ inr (
        record (link_front b (unlink b c)) {
          buf = update c.buf b (record (c.buf b) { busy = false });
        },
        rw (locked, brelse) refl,
        record { chain = moved.chain; apart = moved.apart },
        λ x. refl,
      )
      | inr idle ↦ inl (idle, rw idle refl)
    ]
