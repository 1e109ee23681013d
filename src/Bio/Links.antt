-- ===== src/Bio/Links.antt =====
-- Doubly linked paths: what updates elsewhere, the removal of a node and an insertion do to them.
use cs537_sp23_operating_sys.Common.{
  ℕ, update, has, Distinct, List, [], arith, inl, inr, true, ◌∙◌, ◌∷◌, ◌≡◌, ◌⊎◌, false, refl, ◌++◌,
  ◌||◌, ap, sym, update_ne, ◌≢◌,
}

-- From `a` along `next` through `l` to `z`, and back along `prev`.
abbrev pub Chain : (ℕ → ℕ) → (ℕ → ℕ) → ℕ → List ℕ → ℕ → Type 0
Chain next prev a [] z = (next a ≡ z) × (prev z ≡ a)
Chain next prev a (b ∷ l) z = (next a ≡ b) × (prev b ≡ a) × Chain next prev b l z

pub Chain-frame :
    (next prev next' prev' : ℕ → ℕ) (a : ℕ) (l : List ℕ) (z : ℕ)
    → ((x : ℕ) → has x (a ∷ l) ≡ true → next' x ≡ next x)
    → ((x : ℕ) → has x l ≡ true → prev' x ≡ prev x)
    → prev' z ≡ prev z
    → Chain next prev a l z
    → Chain next' prev' a l z
Chain-frame next prev next' prev' a [] z n p e h = (n a (ground arith) ∙ h.0, e ∙ h.1)
Chain-frame next prev next' prev' a (b ∷ l) z n p e h = (
  n a (ground arith) ∙ h.0,
  p b (ground arith) ∙ h.1,
  Chain-frame next prev next' prev' b l z (λ x i. n x (ground arith)) (λ x i. p x (ground arith)) e
      h.2,
)

-- The node before the end.
pub Chain-last :
    (next prev : ℕ → ℕ) (a : ℕ) (l : List ℕ) (z : ℕ)
    → Chain next prev a l z
    → has (prev z) (a ∷ l) ≡ true
Chain-last next prev a [] z h = ground (arith, h.1)
Chain-last next prev a (b ∷ l) z h = ground (arith, Chain-last next prev b l z h.2)

-- The node behind the start.
pub Chain-first :
    (next prev : ℕ → ℕ) (a : ℕ) (l : List ℕ) (z : ℕ)
    → Chain next prev a l z
    → (next a ≡ z) ⊎ (has (next a) l ≡ true)
Chain-first next prev a [] z h = inl h.0
Chain-first next prev a (b ∷ l) z h = inr (ground (arith, h.0))

pub has-append : (x : ℕ) (l1 l2 : List ℕ) → has x (l1 ++ l2) ≡ has x l1 || has x l2
has-append x [] l2 = refl
has-append x (b ∷ l1) l2 = ground (arith, has-append x l1 l2)

has-ne : (x y : ℕ) (l : List ℕ) → has x l ≡ true → has y l ≡ false → y ≢ x
has-ne x y l h h' e = let same : has x l ≡ has y l = ap (λ n. has n l) (sym e) in cc

has_left : (x : ℕ) (l1 l2 : List ℕ) → has x l1 ≡ true → has x (l1 ++ l2) ≡ true
has_left x l1 l2 h = ground (arith, has-append x l1 l2, h)

has_right : (x : ℕ) (l1 l2 : List ℕ) → has x l2 ≡ true → has x (l1 ++ l2) ≡ true
has_right x l1 l2 h = ground (arith, has-append x l1 l2, h)

-- Without node `b`, the path goes on from `l1` to `l2`.
pub Chain-unlink :
    (next prev : ℕ → ℕ) (a : ℕ) (l1 : List ℕ) (b : ℕ) (l2 : List ℕ) (z : ℕ)
    → Distinct (a ∷ (l1 ++ (b ∷ l2)))
    → has z (l1 ++ (b ∷ l2)) ≡ false
    → Chain next prev a l1 b
    → Chain next prev b l2 z
    → Chain (update next (prev b) (next b)) (update prev (next b) (prev b)) a (l1 ++ l2) z
Chain-unlink next prev a [] b [] z d nz h k =
    (ground (arith, h.0, h.1, k.0, k.1), ground (arith, h.0, h.1, k.0, k.1))
Chain-unlink next prev a [] b (c ∷ l2) z d nz h k =
    let apart : has a (c ∷ l2) ≡ false = ground (arith, d.0) in
    let before : prev b ≡ a = h.1 in
    let behind : next b ≡ c = k.0 in
    (
      ground (arith, before, behind),
      ground (arith, before, behind),
      Chain-frame next prev (update next (prev b) (next b)) (update prev (next b) (prev b)) c l2 z
          (λ x i.
            update_ne next (prev b) x (next b) (λ q. has-ne x a (c ∷ l2) i apart (sym before ∙ q)))
          (λ x i.
            update_ne prev (next b) x (prev b)
              (λ q. has-ne x c l2 i (ground (arith, d.1.1.0)) (sym behind ∙ q)))
          (update_ne prev (next b) z (prev b) (λ q. ground (arith, nz, q, behind))) k.2,
    )
Chain-unlink next prev a (e ∷ l1) b l2 z d nz h k =
    let rest = l1 ++ (b ∷ l2) in
    let inside = has_left (prev b) (e ∷ l1) (b ∷ l2) (Chain-last next prev e l1 b h.2) in
    (
      update_ne next (prev b) a (next b) (λ q. has-ne (prev b) a (e ∷ rest) inside d.0 (sym q))
          ∙ h.0,
      update_ne prev (next b) e (prev b) (λ q. elim (Chain-first next prev b l2 z k) [
        | inl ends ↦ ground (arith, nz, q, ends)
        | inr more ↦
            has-ne (next b) e rest (has_right (next b) l1 (b ∷ l2) (ground (arith, more))) d.1.0
              (sym q)
      ])
          ∙ h.1,
      Chain-unlink next prev e l1 b l2 z d.1 (ground (arith, nz)) h.2 k,
    )

-- A new node behind the head of a ring.
pub Chain-insert :
    (next prev : ℕ → ℕ) (h : ℕ) (l : List ℕ) (b : ℕ)
    → has b (h ∷ l) ≡ false
    → Distinct (h ∷ l)
    → Chain next prev h l h
    → Chain (update (update next b (next h)) h b) (update (update prev b h) (next h) b) h (b ∷ l) h
Chain-insert next prev h [] b nb d k = (
  ground (arith, k.0, nb),
  ground (arith, k.0, nb),
  (ground (arith, k.0, nb), ground (arith, k.0, nb)),
)
Chain-insert next prev h (c ∷ l) b nb d k =
    let behind : next h ≡ c = k.0 in
    let new : has b (c ∷ l) ≡ false = ground (arith, nb) in
    (
      ground (arith, behind),
      ground (arith, behind, nb),
      (
        ground (arith, behind, nb),
        ground (arith, behind),
        Chain-frame next prev (update (update next b (next h)) h b)
            (update (update prev b h) (next h) b) c l h
            (λ x i.
              update_ne (update next b (next h)) h x b (has-ne x h (c ∷ l) i d.0)
              ∙ update_ne next b x (next h) (has-ne x b (c ∷ l) i new))
            (λ x i.
              update_ne (update prev b h) (next h) x b (λ q. has-ne x c l i d.1.0 (sym behind ∙ q))
              ∙ update_ne prev b x h (has-ne x b l i (ground (arith, new))))
            (update_ne (update prev b h) (next h) h b (λ q. ground (arith, d.0, q, behind))
              ∙ update_ne prev b h h (λ q. ground (arith, nb, q)))
            k.2,
      ),
    )
