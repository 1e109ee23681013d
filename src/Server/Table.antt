-- ===== src/Server/Table.antt =====
-- The table of the server as a finite map from client ids to entries.
use cs537_sp23_operating_sys.Common.{
  ℕ, All, Bool-cases, List, Option, [], arith, get_or, if◌then◌else◌, inl, inr, length, minus_one,
  none, refl, set, some, suc, zero, ◌+◌, ◌<◌, ◌==◌, ◌∷◌, ◌≡◌, ◌≢◌, ◌⊎◌, sym, ◌∙◌,
}
use cs537_sp23_operating_sys.Server.{Entry, Found, existing, fresh, full, search, blank}

-- The entry of the client: the first with its id that stands before all unused ones.
unfoldable pub find : List Entry → ℕ → Option Entry
find [] id = none
find (e ∷ es) id =
    if e.client_id == minus_one then none else if e.client_id == id then some e else find es id

-- From the first unused entry on all are blank.
abbrev pub Packed : List Entry → Type 0
Packed [] = Unit
Packed (e ∷ es) =
    (e.client_id ≡ minus_one → (e ≡ blank) × All (λ (d : Entry). d ≡ blank) es) × Packed es

find-unused : (es : List Entry) (id : ℕ) → All (λ (d : Entry). d ≡ blank) es → find es id ≡ none
unfolding find
find-unused [] id h = refl
find-unused (e ∷ es) id h = ground arith

-- Where the client belongs: entry `j` is its own or blank, and those before are other clients'.
abbrev pub Slot : List Entry → ℕ → ℕ → Type 0
Slot [] id j = ⊥
Slot (x ∷ es) id zero = (x.client_id ≡ id) ⊎ (x ≡ blank)
Slot (x ∷ es) id (suc j) = (x.client_id ≢ minus_one) × (x.client_id ≢ id) × Slot es id j

-- What the search has found.
abbrev pub FoundSpec : List Entry → ℕ → ℕ → Found → Type 0
FoundSpec es id k (existing i) =
    (j : ℕ) × (i ≡ k + j)
    × Slot es id j
    × (find es id ≡ some (get_or es j blank))
    × ((get_or es j blank).client_id ≡ id)
FoundSpec es id k (fresh i) =
    (j : ℕ) × (i ≡ k + j) × Slot es id j × (find es id ≡ none) × (get_or es j blank ≡ blank)
FoundSpec es id k full = (find es id ≡ none) × All (λ (d : Entry). d.client_id ≢ minus_one) es

FoundSpec-cons :
    (e : Entry) (es : List Entry) (id k : ℕ) (f : Found)
    → e.client_id ≢ minus_one
    → e.client_id ≢ id
    → FoundSpec es id (k + 1) f
    → FoundSpec (e ∷ es) id k f
unfolding find
FoundSpec-cons e es id k (existing i) u d (j, a, b, c, g) =
    (suc j, omega arith, (u, d, b), ground arith, g)
FoundSpec-cons e es id k (fresh i) u d (j, a, b, c, g) =
    (suc j, omega arith, (u, d, b), ground arith, g)
FoundSpec-cons e es id k full u d h = (ground arith, (u, h.1))

-- `serve`'s search finds the entry of the client, or else the first unused one, or else nothing in a
-- table with no unused entry.
pub search-FoundSpec :
    (es : List Entry) (id k : ℕ) → id ≢ minus_one → Packed es → FoundSpec es id k (search es id k)
unfolding search find
search-FoundSpec [] id k h p = (refl, tt)
search-FoundSpec (e ∷ es) id k h p = elim (Bool-cases (e.client_id == minus_one)) [
  | inl unused ↦
      rw unused
        (zero, omega arith, inr (p.0 (ground arith)).0, ground arith, (p.0 (ground arith)).0)
  | inr used ↦ elim (Bool-cases (e.client_id == id)) [
    | inl mine ↦ rw (used, mine) (zero, omega arith, inl (ground arith), ground arith, ground arith)
    | inr other ↦
        rw (used, other)
          (FoundSpec-cons e es id k _ (ground arith) (ground arith)
            (search-FoundSpec es id (k + 1) h p.1))
  ]
]

-- Writing the client's entry changes the map at its id only.
pub find-set :
    (es : List Entry) (id j id' : ℕ) (e' : Entry)
    → id ≢ minus_one
    → Packed es
    → Slot es id j
    → e'.client_id ≡ id
    → find (set es j e') id' ≡ (if id' == id then some e' else find es id')
unfolding find
find-set [] id j id' e' h p s e = absurd s
find-set (x ∷ es) id zero id' e' h p s e = ground (arith, find-unused es id')
find-set (x ∷ es) id (suc j) id' e' h p s e = ground (arith, find-set es id j id' e' h p.1 s.2 e)

pub Packed-set :
    (es : List Entry) (id j : ℕ) (e' : Entry)
    → id ≢ minus_one
    → Packed es
    → Slot es id j
    → e'.client_id ≡ id
    → Packed (set es j e')
Packed-set [] id j e' h p s e = absurd s
Packed-set (x ∷ es) id zero e' h p s e = (λ u. absurd (h (sym e ∙ u)), p.1)
Packed-set (x ∷ es) id (suc j) e' h p s e = (λ u. absurd (s.0 u), Packed-set es id j e' h p.1 s.2 e)

pub Slot-length : (es : List Entry) (id j : ℕ) → Slot es id j → j < length es
Slot-length [] id j s = absurd s
Slot-length (x ∷ es) id zero s = omega arith
Slot-length (x ∷ es) id (suc j) s = omega (arith, Slot-length es id j s.2)

-- A slot stays one when the client takes it.
pub Slot-set :
    (es : List Entry) (id j : ℕ) (e' : Entry)
    → Slot es id j
    → e'.client_id ≡ id
    → Slot (set es j e') id j
Slot-set [] id j e' s e = absurd s
Slot-set (x ∷ es) id zero e' s e = inl e
Slot-set (x ∷ es) id (suc j) e' s e = (s.0, s.1, Slot-set es id j e' s.2 e)

-- A table of other clients only.
pub search-full :
    (es : List Entry) (id i : ℕ)
    → All (λ (d : Entry). d.client_id ≢ minus_one) es
    → find es id ≡ none
    → search es id i ≡ full
unfolding search find
search-full [] id i used h = refl
search-full (e ∷ es) id i used h = ground (arith, search-full es id (i + 1))
