-- ===== src/Server/Store.antt =====
-- The data of the server: `get` and `put`, and the keys they accept.
use cs537_sp23_operating_sys.Common.{
  ℕ, List, arith, none, some, length, ◌<◌, ◌^◌, ◌↔◌, ◌≡◌, ◌≢◌, [], get_elem?, get_elem?-eq-get_or,
  get_elem?-set_ne, get_elem?-set_self, get_or, ltb, refl, set, suc, sym, zero, ◌∷◌, ◌≤◌,
}
use cs537_sp23_operating_sys.Server.{get, put, bad_key}

get_elem?-above : (xs : List ℕ) (i : ℕ) → length xs ≤ i → get_elem? xs i ≡ none
get_elem?-above [] i h = refl
get_elem?-above (x ∷ xs) zero h = absurd (omega arith)
get_elem?-above (x ∷ xs) (suc i) h = get_elem?-above xs i (omega arith)

get_elem?-below : (xs : List ℕ) (i : ℕ) → get_elem? xs i ≡ none → length xs ≤ i
get_elem?-below [] i h = omega arith
get_elem?-below (x ∷ xs) zero h = cc
get_elem?-below (x ∷ xs) (suc i) h = let r = get_elem?-below xs i h in omega arith

bad_key_lem : (key : ℕ) → key < 2 ^ 32 → bad_key key ≡ ltb 1024 key
bad_key_lem key h = ground arith

-- On a store of NUMKEYS values, `get` and `put` step outside the array for exactly one `int`, the key
-- NUMKEYS itself; for the others they return.
pub get-none :
    (key value : ℕ) (store : List ℕ)
    → key < 2 ^ 32
    → length store ≡ 1024
    → (get key store ≡ none ↔ key ≡ 1024) × (put key value store ≡ none ↔ key ≡ 1024)
unfolding get put
get-none key value store h l =
    ground (arith, bad_key_lem key h, get_elem?-above store key, get_elem?-below store key)

-- On a store of NUMKEYS values, `put` of a key below NUMKEYS returns 0; `get` of the key then returns the
-- value, and of any other key what it returned before.
pub get-put :
    (key value : ℕ) (store : List ℕ)
    → key < 1024
    → length store ≡ 1024
    → (store' : List ℕ) × (put key value store ≡ some (0, store'))
      × (get key store' ≡ some value)
      × ((k : ℕ) → k ≢ key → get k store' ≡ get k store)
unfolding get put
get-put key value store h l = (
  set store key value,
  ground (arith, bad_key_lem key (omega arith)),
  ground (
    arith,
    bad_key_lem key (omega arith),
    get_elem?-set_self store key value (get_or store key 0)
        (get_elem?-eq-get_or store key 0 (omega arith)),
  ),
  λ k ne. ground (arith, get_elem?-set_ne store key k value (λ e. ne (sym e))),
)
