-- ===== src/Fs/Inodes/Refs.antt =====
-- The cache of inodes: one slot for an inode, and the counts of the slots against their holders.
use native.Mathlib.Decide.{ℕ_discrete}
use mathlib.Core.Path.{subst}
use cs537_sp23_operating_sys.Common.{
  ℕ, All, Bool-cases, List, ap, arith, false, get_elem?, get_elem?-set_ne, get_elem?-set_self, inl,
  inr, none, refl, set, some, sym, true, update, ◌+◌, ◌∙◌, ◌≡◌, ◌≢◌, ◌⊎◌, ◌-◌, ◌<◌, ◌^◌,
}
use cs537_sp23_operating_sys.Fs.{Inode, Fs, returns, panics}
use cs537_sp23_operating_sys.Fs.Inodes.Scan.{is_for, PlaceSpec, iget_from-PlaceSpec, Clear-at}
use cs537_sp23_operating_sys.Fs.Inodes.{
  change, is_held, Place, cached, empty, full, iget_from, taken_by, one_more, idup, iget,
}

-- `h i` holders have slot `i`.
abbrev pub Counts : List Inode → (ℕ → ℕ) → Type 0
Counts xs h = (i : ℕ) (x : Inode) → get_elem? xs i ≡ some x → x.ref ≡ h i

-- No two slots are in use for one inode.
abbrev pub AtMostOne : List Inode → Type 0
AtMostOne xs =
    (dev inum i j : ℕ) (x y : Inode)
    → get_elem? xs i ≡ some x
    → get_elem? xs j ≡ some y
    → is_for dev inum x ≡ true
    → is_for dev inum y ≡ true
    → i ≡ j

change_at :
    (k : ℕ) (f : Inode → Inode) (xs : List Inode) (x : Inode)
    → get_elem? xs k ≡ some x
    → change k f xs ≡ set xs k (f x)
change_at k f xs x there = rw (there, change) refl

Counts-set :
    (xs : List Inode) (h : ℕ → ℕ) (i n : ℕ) (x y : Inode)
    → Counts xs h
    → get_elem? xs i ≡ some x
    → y.ref ≡ n
    → Counts (set xs i y) (update h i n)
Counts-set xs h i n x y c there e j g eq = elim (ℕ_discrete i j) [
  | yes same ↦ ground (arith, get_elem?-set_self xs i y x there)
  | no ne ↦ ground (arith, get_elem?-set_ne xs i j y ne, c j g)
]

AtMostOne-set :
    (xs : List Inode) (k : ℕ) (x y : Inode)
    → AtMostOne xs
    → get_elem? xs k ≡ some x
    → ((dev inum j : ℕ) (z : Inode)
        → j ≢ k
        → get_elem? xs j ≡ some z
        → is_for dev inum z ≡ true
        → is_for dev inum y ≡ false)
    → AtMostOne (set xs k y)
AtMostOne-set xs k x y one there apart dev inum i j a b at_i at_j fa fb =
    let self = get_elem?-set_self xs k y x there in
    elim (ℕ_discrete k i) [
      | yes ki ↦ elim (ℕ_discrete k j) [
        | yes kj ↦ sym ki ∙ kj
        | no nj ↦
            let old_j = sym (get_elem?-set_ne xs k j y nj) ∙ at_j in
            let clash = apart dev inum j b (λ e. nj (sym e)) old_j fb in
            let y_is : some y ≡ some a = sym self ∙ ap (get_elem? (set xs k y)) ki ∙ at_i in
            let same : y ≡ a = cc in let e = sym clash ∙ ap (is_for dev inum) same ∙ fa in cc
      ]
      | no ni ↦
          let old_i = sym (get_elem?-set_ne xs k i y ni) ∙ at_i in
          elim (ℕ_discrete k j) [
            | yes kj ↦
                let clash = apart dev inum i a (λ e. ni (sym e)) old_i fa in
                let y_is : some y ≡ some b = sym self ∙ ap (get_elem? (set xs k y)) kj ∙ at_j in
                let same : y ≡ b = cc in let e = sym clash ∙ ap (is_for dev inum) same ∙ fb in cc
            | no nj ↦
                let old_j = sym (get_elem?-set_ne xs k j y nj) ∙ at_j in
                one dev inum i j a b old_i old_j fa fb
          ]
    ]

one_more-is_for :
    (dev inum : ℕ) (x : Inode)
    → x.ref < 2 ^ 31 - 1
    → is_for dev inum x ≡ true
    → is_for dev inum (one_more x) ≡ true
one_more-is_for dev inum x low mine = ground arith

is_for_before :
    (dev inum : ℕ) (x : Inode)
    → is_held x ≡ true
    → is_for dev inum (one_more x) ≡ true
    → is_for dev inum x ≡ true
is_for_before dev inum x held mine = ground arith

taken_by-is_for : (dev inum : ℕ) (x : Inode) → is_for dev inum (taken_by dev inum x) ≡ true
taken_by-is_for dev inum x = ground arith

taken_by_same :
    (dev inum d n : ℕ) (x : Inode)
    → is_for d n (taken_by dev inum x) ≡ true
    → (d ≡ dev) × (n ≡ inum)
taken_by_same dev inum d n x mine = (ground arith, ground arith)

-- What a successful `iget` has done, with the slot `k` that it gives out.
pub Given : ℕ → ℕ → Fs → (ℕ → ℕ) → ℕ → Fs → Type 0
Given dev inum s h k s' =
    ((y : Inode) × (get_elem? s'.inodes k ≡ some y) × (is_for dev inum y ≡ true))
    × Counts s'.inodes (update h k (h k + 1))
    × AtMostOne s'.inodes
    × (s'.disk ≡ s.disk)

Given-set :
    (dev inum k : ℕ) (s : Fs) (h : ℕ → ℕ) (x y : Inode)
    → Counts s.inodes h
    → AtMostOne s.inodes
    → get_elem? s.inodes k ≡ some x
    → y.ref ≡ h k + 1
    → is_for dev inum y ≡ true
    → ((d n j : ℕ) (z : Inode)
        → j ≢ k
        → get_elem? s.inodes j ≡ some z
        → is_for d n z ≡ true
        → is_for d n y ≡ false)
    → Given dev inum s h k (record s { inodes = set s.inodes k y })
unfolding Given
Given-set dev inum k s h x y c one there ref mine apart = (
  (y, get_elem?-set_self s.inodes k y x there, mine),
  Counts-set s.inodes h k (h k + 1) x y c there ref,
  AtMostOne-set s.inodes k x y one there apart,
  refl,
)

-- `iget` on a cache where no inode has two slots and every count is the number of the holders: it gives out
-- a slot for the inode, with one holder more, and the cache is as before in both respects; or it panics,
-- and then every slot has a holder.
pub iget-Given :
    (dev inum : ℕ) (s : Fs) (h : ℕ → ℕ)
    → Counts s.inodes h
    → AtMostOne s.inodes
    → ((k : ℕ) → h k < 2 ^ 31 - 1)
    → ((k : ℕ) × (s' : Fs) × (iget dev inum s ≡ returns (k, s')) × Given dev inum s h k s')
      ⊎ ((iget dev inum s ≡ panics) × All (λ (x : Inode). x.ref ≢ 0) s.inodes)
unfolding iget PlaceSpec
iget-Given dev inum s h c one low =
    go (iget_from s.inodes 0 none dev inum) refl (iget_from-PlaceSpec s.inodes 0 none dev inum)
  where
    go :
        (found : Place)
        → iget_from s.inodes 0 none dev inum ≡ found
        → PlaceSpec s.inodes 0 none dev inum found
        → ((k : ℕ) × (s' : Fs) × (iget dev inum s ≡ returns (k, s')) × Given dev inum s h k s')
          ⊎ ((iget dev inum s ≡ panics) × All (λ (x : Inode). x.ref ≢ 0) s.inodes)
    go (cached k) eq (j, x, at, there, mine) =
        let at_k : get_elem? s.inodes k ≡ some x = ap (get_elem? s.inodes) (omega arith) ∙ there in
        let ref = c k x at_k in
        let held : is_held x ≡ true = ground arith in
        inl (
          k,
          record s { inodes = set s.inodes k (one_more x) },
          rw (eq, iget, change_at k one_more s.inodes x at_k) refl,
          Given-set dev inum k s h x (one_more x) c one at_k (omega (arith, low k))
              (one_more-is_for dev inum x (omega (arith, low k)) mine)
              (λ d n i z ne at_i zd. elim (Bool-cases (is_for d n (one_more x))) [
                | inl now ↦
                    absurd (ne (one d n i k z x at_i at_k zd (is_for_before d n x held now)))
                | inr other ↦ other
              ]),
        )
    go (empty k) eq (clear, inl taken) = cc
    go (empty k) eq (clear, inr (j, x, at, there, free)) =
        let at_k : get_elem? s.inodes k ≡ some x = ap (get_elem? s.inodes) (omega arith) ∙ there in
        let ref = c k x at_k in
        let y : Inode = taken_by dev inum x in
        inl (
          k,
          record s { inodes = set s.inodes k y },
          rw (eq, iget, change_at k (taken_by dev inum) s.inodes x at_k) refl,
          Given-set dev inum k s h x y c one at_k (omega arith) (taken_by-is_for dev inum x)
              (λ d n i z ne at_i zd. elim (Bool-cases (is_for d n y)) [
                | inl now ↦
                    let (e, f) = taken_by_same dev inum d n x now in
                    let clash = Clear-at dev inum s.inodes i z clear at_i in
                    let both : is_for dev inum z ≡ is_for d n z = cc in
                    let wrong = sym clash ∙ both ∙ zd in cc
                | inr other ↦ other
              ]),
        )
    go full eq (all, nothing) = inr (rw (eq, iget) refl, all)

-- `idup` on an inode that has a holder counts one more, and changes nothing else.
pub idup-Given :
    (dev inum k : ℕ) (s : Fs) (h : ℕ → ℕ) (x : Inode)
    → Counts s.inodes h
    → AtMostOne s.inodes
    → get_elem? s.inodes k ≡ some x
    → is_for dev inum x ≡ true
    → h k < 2 ^ 31 - 1
    → Given dev inum s h k (idup k s)
unfolding idup
idup-Given dev inum k s h x c one there mine low =
    let ref = c k x there in
    let held : is_held x ≡ true = ground arith in
    let done : idup k s ≡ record s { inodes = set s.inodes k (one_more x) } =
      rw (idup, change_at k one_more s.inodes x there) refl in
    subst (Given dev inum s h k) (sym done) (
      Given-set dev inum k s h x (one_more x) c one there (omega arith)
        (one_more-is_for dev inum x (omega arith) mine)
        (λ d n i z ne at_i zd. elim (Bool-cases (is_for d n (one_more x))) [
          | inl now ↦ absurd (ne (one d n i k z x at_i there zd (is_for_before d n x held now)))
          | inr other ↦ other
        ]))
