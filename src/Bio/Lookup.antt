-- ===== src/Bio/Lookup.antt =====
-- The two walks of bget as searches in the list of the ring.
use cs537_sp23_operating_sys.Common.{
  ℕ, update, has, Outcome, ok, Bool, Bool-cases, List, [], ap, arith, false, if◌then◌else◌, inl,
  inr, length, not, panic, refl, suc, true, zero, ◌+◌, ◌<◌, ◌==◌, ◌||◌, ◌∙◌, ◌∷◌, ◌≡◌, ◌≤◌,
}
use cs537_sp23_operating_sys.Bio.{Buf, Bcache, nbuf, find, Bget, got, sleeps, holds, is_idle, bget}
use cs537_sp23_operating_sys.Bio.Links.{Chain}
use cs537_sp23_operating_sys.Bio.Ring.{IsRing}

-- The first element of the list that passes the test, or `nbuf`.
abbrev pub first_of : (ℕ → Bool) → List ℕ → ℕ
first_of test [] = nbuf
first_of test (b ∷ l) = if test b then b else first_of test l

-- A list turned around, in front of another.
abbrev pub turn : List ℕ → List ℕ → List ℕ
turn [] acc = acc
turn (b ∷ l) acc = turn l (b ∷ acc)

find_lem :
    (test : ℕ → Bool) (link other : ℕ → ℕ) (n a : ℕ) (l : List ℕ)
    → Chain link other a l nbuf
    → has nbuf l ≡ false
    → length l < n
    → find test link n (link a) ≡ first_of test l
unfolding find
find_lem test link other zero a l h out fuel = absurd (omega arith)
find_lem test link other (suc n) a [] h out fuel =
    let e : (link a == nbuf) ≡ true = ground (arith, h.0) in rw (e, find) h.0
find_lem test link other (suc n) a (b ∷ l) h out fuel =
    let first : link a ≡ b = h.0 in
    let inside : (b == nbuf) ≡ false = ground (arith, out) in
    let rest = find_lem test link other n b l h.2 (ground (arith, out)) (omega arith) in
    ap (find test link (suc n)) first ∙ elim (Bool-cases (test b)) [
      | inl found ↦ rw (inside, found, find) refl
      | inr passed ↦ rw (inside, passed, find) rest
    ]

-- A path walked the other way.
Chain-turn :
    (next prev : ℕ → ℕ) (a : ℕ) (l : List ℕ) (z : ℕ) (acc : List ℕ) (w : ℕ)
    → Chain next prev a l z
    → Chain prev next a acc w
    → Chain prev next z (turn l (a ∷ acc)) w
Chain-turn next prev a [] z acc w h k = (h.1, h.0, k)
Chain-turn next prev a (b ∷ l) z acc w h k =
    Chain-turn next prev b l z (a ∷ acc) w h.2 (h.1, h.0, k)

Chain-back :
    (next prev : ℕ → ℕ) (a : ℕ) (l : List ℕ) (z : ℕ)
    → Chain next prev a l z
    → Chain prev next z (turn l []) a
Chain-back next prev a [] z h = (h.1, h.0)
Chain-back next prev a (b ∷ l) z h = Chain-turn next prev b l z [] a h.2 (h.1, h.0)

pub has-turn : (x : ℕ) (l acc : List ℕ) → has x (turn l acc) ≡ has x l || has x acc
has-turn x [] acc = refl
has-turn x (b ∷ l) acc = ground (arith, has-turn x l (b ∷ acc))

length-turn : (l acc : List ℕ) → length (turn l acc) ≡ length l + length acc
length-turn [] acc = omega arith
length-turn (b ∷ l) acc = omega (arith, length-turn l (b ∷ acc))

abbrev pub locked_as : ℕ → Buf → Bcache → Bcache
locked_as b x c = record c { buf = update c.buf b x }

-- `bget` on the list of the ring.
abbrev pub bget_list : ℕ → ℕ → List ℕ → Bcache → Outcome Bget
bget_list dev sector l c =
    let b = first_of (holds dev sector c) l in
    let f = first_of (is_idle c) (turn l []) in
    if not (b == nbuf)
    then if (c.buf b).busy
      then ok (sleeps b)
      else ok (got b (locked_as b (record (c.buf b) { busy = true }) c))
    else if not (f == nbuf)
    then ok (
        got f (
          locked_as f
            (record { busy = true; valid = false; dirty = false; dev = dev; sector = sector }) c))
    else panic

-- On a ring of at most as many buffers as there are, the walks of `bget` end, and it finds the first
-- buffer of the list that holds the block, and takes the last one that is not locked if there is none.
pub bget_lem :
    (dev sector : ℕ) (l : List ℕ) (c : Bcache)
    → IsRing c l
    → length l ≤ nbuf
    → bget dev sector c ≡ bget_list dev sector l c
unfolding bget
bget_lem dev sector l c ring size =
    let out = ring.apart.0 in
    let cached =
      find_lem (holds dev sector c) c.next c.prev (nbuf + 1) nbuf l ring.chain out (omega arith) in
    let fresh =
      find_lem (is_idle c) c.prev c.next (nbuf + 1) nbuf (turn l [])
        (Chain-back c.next c.prev nbuf l nbuf ring.chain) (ground (arith, has-turn nbuf l [], out))
        (omega (arith, length-turn l [])) in
    rw (cached, fresh, bget) refl
