-- ===== src/Pipe/Fifo.antt =====
-- A pipe as a queue of bytes, for any values of its wrapping counters.
use cs537_sp23_operating_sys.Common.{
  ℕ, List, [], ap, arith, false, length, refl, suc, update, zero, ◌%◌, ◌++◌, ◌+◌, ◌-◌, ◌<◌, ◌^◌,
  ◌∷◌, ◌≡◌, ◌≤◌, Bool, Bool-cases, append-nil, append_assoc, drop, if◌then◌else◌, inl, inr, take,
  true, ◌==◌, ◌||◌, ◌≢◌, ◌⊎◌,
}
use cs537_sp23_operating_sys.Pipe.{
  Pipe, pipewrite, Writing, finished, failed, asleep, put, is_full, is_drained, copy, piperead,
  Reading, got, read_failed, read_asleep, advance,
}

-- How many bytes the pipe holds.
abbrev pub count : Pipe → ℕ
count p = (p.nwrite + (2 ^ 32 - p.nread)) % 2 ^ 32

pub record IsValid (p : Pipe) : Type 0 where
  pub read_word : p.nread < 2 ^ 32
  pub write_word : p.nwrite < 2 ^ 32
  pub fits : count p ≤ 512

-- The `n` bytes from counter `r` on.
abbrev pub window : (ℕ → ℕ) → ℕ → ℕ → List ℕ
window buf r zero = []
window buf r (suc n) = buf (r % 512) ∷ window buf ((r + 1) % 2 ^ 32) n

abbrev pub contents : Pipe → List ℕ
contents p = window p.buf p.nread (count p)

pub length-window : (buf : ℕ → ℕ) (r n : ℕ) → length (window buf r n) ≡ n
length-window buf r zero = refl
length-window buf r (suc n) = ap suc (length-window buf ((r + 1) % 2 ^ 32) n)

-- A write behind the window adds the byte at its end.
window-update :
    (buf : ℕ → ℕ) (r n i x : ℕ)
    → n < 512
    → r < 2 ^ 32
    → i ≡ (r + n) % 512
    → window (update buf i x) r (suc n) ≡ window buf r n ++ (x ∷ [])
window-update buf r zero i x small word e = ground arith
window-update buf r (suc n) i x small word e =
    ground (arith, window-update buf ((r + 1) % 2 ^ 32) n i x)

-- The byte goes to the end of the queue.
pub contents-put :
    (p : Pipe) (x : ℕ)
    → IsValid p
    → is_full p ≡ false
    → (contents (put p x) ≡ contents p ++ (x ∷ []))
      × IsValid (put p x)
      × (count (put p x) ≡ suc (count p))
contents-put p x valid room =
    let more : count (put p x) ≡ suc (count p) = ground (arith, valid.fits) in
    (
      rw more (
          window-update p.buf p.nread (count p) (p.nwrite % 512) x
            (ground (arith, valid.fits, valid.read_word, valid.write_word)) valid.read_word
            (ground (arith, valid.write_word, valid.read_word))),
      ground (arith, valid.fits, valid.write_word, valid.read_word),
      more,
    )

abbrev pub room : Pipe → ℕ
room p = 512 - count p

-- What a call of `pipewrite` with the bytes `xs` has done when it gives up the lock: in each case the bytes
-- that fit have been added; it returns success only with all of them added, and fails or sleeps only
-- with the pipe full and bytes left.
abbrev pub Written : Bool → Pipe → List ℕ → Writing → Type 0
Written killed p xs (finished p') =
    (length xs ≤ room p) × (contents p' ≡ contents p ++ take (room p) xs) × IsValid p'
Written killed p xs (failed p') =
    (room p < length xs)
    × ((p.readopen ≡ 0) ⊎ (killed ≡ true))
    × (contents p' ≡ contents p ++ take (room p) xs)
    × IsValid p'
Written killed p xs (asleep p' rest) =
    (room p < length xs)
    × (p.readopen ≢ 0)
    × (killed ≡ false)
    × (contents p' ≡ contents p ++ take (room p) xs)
    × (rest ≡ drop (room p) xs)
    × IsValid p'

take-cons : (n x : ℕ) (xs : List ℕ) → 0 < n → take n (x ∷ xs) ≡ x ∷ take (n - 1) xs
take-cons zero x xs h = elim h [ ]
take-cons (suc n) x xs h = ap (λ k. x ∷ take k xs) (omega arith)

drop-cons : (n x : ℕ) (xs : List ℕ) → 0 < n → drop n (x ∷ xs) ≡ drop (n - 1) xs
drop-cons zero x xs h = elim h [ ]
drop-cons (suc n) x xs h = ap (λ k. drop k xs) (omega arith)

take-nil : (n : ℕ) → take {A = ℕ} n [] ≡ []
take-nil zero = refl
take-nil (suc n) = refl

take_none : (n : ℕ) (xs : List ℕ) → n ≡ 0 → take n xs ≡ []
take_none zero xs h = refl
take_none (suc n) xs h = absurd (omega arith)

drop_none : (n : ℕ) (xs : List ℕ) → n ≡ 0 → drop n xs ≡ xs
drop_none zero xs h = refl
drop_none (suc n) xs h = absurd (omega arith)

module _ (killed : Bool) (p : Pipe) (x : ℕ) (xs : List ℕ) (valid : IsValid p)
    (free : is_full p ≡ false) where
  -- One more byte before the rest of the call.
  Written-put : (r : Writing) → Written killed (put p x) xs r → Written killed p (x ∷ xs) r
  Written-put (finished p') w = ground (
    arith,
    contents-put p x valid free,
    take-cons (room p) x xs,
    append_assoc (contents p) (x ∷ []) (take (room p - 1) xs),
    valid.fits,
    w,
  )
  Written-put (failed p') w = ground (
    arith,
    contents-put p x valid free,
    take-cons (room p) x xs,
    append_assoc (contents p) (x ∷ []) (take (room p - 1) xs),
    valid.fits,
    w,
  )
  Written-put (asleep p' rest) w = ground (
    arith,
    contents-put p x valid free,
    take-cons (room p) x xs,
    drop-cons (room p) x xs,
    append_assoc (contents p) (x ∷ []) (take (room p - 1) xs),
    valid.fits,
    w,
  )

full-room : (p : Pipe) → IsValid p → is_full p ≡ true → room p ≡ 0
full-room p valid full = ground (arith, valid.fits, valid.read_word, valid.write_word)

-- Where the pipe is full and bytes are left, nothing is added.
Written-full :
    (killed : Bool) (p : Pipe) (x : ℕ) (xs : List ℕ)
    → IsValid p
    → is_full p ≡ true
    → Written killed p (x ∷ xs) (if p.readopen == 0 || killed then failed p else asleep p (x ∷ xs))
Written-full killed p x xs valid full = elim (Bool-cases (p.readopen == 0 || killed)) [
  | inl e ↦
      rw e (
        ground
          (arith, full-room p valid full, take_none (room p) (x ∷ xs), append-nil (contents p)))
  | inr e ↦ rw e (
      ground (
        arith,
        full-room p valid full,
        take_none (room p) (x ∷ xs),
        drop_none (room p) (x ∷ xs),
        append-nil (contents p),
      ))
]

-- `pipewrite` on a consistent pipe behaves as `Written` says on every path, and always comes to an end or
-- to a sleep.
pub pipewrite-Written :
    (killed : Bool) (p : Pipe) (xs : List ℕ)
    → IsValid p
    → Written killed p xs (pipewrite killed p xs)
unfolding pipewrite
pipewrite-Written killed p [] valid = ground (arith, take-nil (room p), append-nil (contents p))
pipewrite-Written killed p (x ∷ xs) valid = elim (Bool-cases (is_full p)) [
  | inl full ↦ rw (full, pipewrite) (Written-full killed p x xs valid full)
  | inr free ↦
      rw (free, pipewrite)
        (Written-put killed p x xs valid free _
          (pipewrite-Written killed (put p x) xs (contents-put p x valid free).1))
]

contents_drained : (p : Pipe) → IsValid p → is_drained p ≡ true → contents p ≡ []
contents_drained p valid e =
    let none : count p ≡ 0 = ground (arith, valid.read_word, valid.write_word) in rw none

-- Reading a byte takes it from the front of the queue.
contents-advance :
    (p : Pipe)
    → IsValid p
    → is_drained p ≡ false
    → (contents p ≡ p.buf (p.nread % 512) ∷ contents (advance p)) × IsValid (advance p)
contents-advance p valid more =
    let less : count p ≡ suc (count (advance p)) =
      ground (arith, valid.read_word, valid.write_word, valid.fits) in
    (rw less, ground (arith, valid.read_word, valid.write_word, valid.fits))

-- The copying loop takes the first `n` bytes of the queue, or all of them, and leaves the others.
copy_lem :
    (p : Pipe) (n : ℕ)
    → IsValid p
    → ((copy p n).0 ≡ take n (contents p))
      × (contents (copy p n).1 ≡ drop n (contents p))
      × IsValid (copy p n).1
unfolding copy
copy_lem p zero valid = (refl, refl, valid)
copy_lem p (suc n) valid = elim (Bool-cases (is_drained p)) [
  | inl empty ↦ rw empty (
      let nil : contents p ≡ [] = contents_drained p valid empty in
      ground (arith, valid.fits, valid.read_word, valid.write_word))
  | inr more ↦
      rw more
        (let next = contents-advance p valid more in ground (arith, copy_lem (advance p) n next.1))
]

-- What a call of `piperead` for `n` bytes has done when it gives up the lock.
abbrev pub ReadSpec : Bool → Pipe → ℕ → Reading → Type 0
ReadSpec killed p n (got xs p') =
    ((contents p ≢ []) ⊎ (p.writeopen ≡ 0))
    × (xs ≡ take n (contents p))
    × (contents p' ≡ drop n (contents p))
    × IsValid p'
ReadSpec killed p n read_failed = (contents p ≡ []) × (p.writeopen ≢ 0) × (killed ≡ true)
ReadSpec killed p n read_asleep = (contents p ≡ []) × (p.writeopen ≢ 0) × (killed ≡ false)

-- On a consistent pipe `piperead` returns the first `n` bytes of the queue, or all of them, and
-- leaves the others; it sleeps, or fails if the process is killed, only on an empty pipe that is
-- open for writing.
pub piperead_lem :
    (killed : Bool) (p : Pipe) (n : ℕ) → IsValid p → ReadSpec killed p n (piperead killed p n)
unfolding piperead
piperead_lem killed p n valid = elim (Bool-cases (is_drained p)) [
  | inl empty ↦ ground (arith, contents_drained p valid empty, copy_lem p n valid)
  | inr more ↦
      rw more (let next = contents-advance p valid more in ground (arith, copy_lem p n valid))
]
