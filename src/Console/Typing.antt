-- ===== src/Console/Typing.antt =====
-- What is typed: the finished lines and the line that is being edited.
use mathlib.Core.Path.{subst}
use cs537_sp23_operating_sys.Common.{
  ℕ, update, List, [], ap, append-nil, append_assoc, arith, false, leb, length, length-append, suc,
  sym, zero, ◌%◌, ◌++◌, ◌+◌, ◌-◌, ◌<◌, ◌^◌, ◌∙◌, ◌∷◌, ◌≡◌, ◌≤◌, Bool-cases, if◌then◌else◌, inl, inr,
  refl, take, ◌==◌, ◌||◌, length-take,
}
use cs537_sp23_operating_sys.Console.{
  Input, put_key, ends_line, kill_line, back_one, key, consoleintr, stored,
}

-- The `n` bytes from counter `r` on.
abbrev pub window : (ℕ → ℕ) → ℕ → ℕ → List ℕ
window buf r zero = []
window buf r (suc n) = buf (r % 128) ∷ window buf ((r + 1) % 2 ^ 32) n

window-update :
    (buf : ℕ → ℕ) (r n i x : ℕ)
    → n < 128
    → r < 2 ^ 32
    → i ≡ (r + n) % 128
    → window (update buf i x) r (suc n) ≡ window buf r n ++ (x ∷ [])
window-update buf r zero i x small word e = ground arith
window-update buf r (suc n) i x small word e =
    ground (arith, window-update buf ((r + 1) % 2 ^ 32) n i x)

-- The counters and the buffer hold the text `line` of finished lines and the text `edit` of the line that is
-- being typed.
pub record Shows (s : Input) (line edit : List ℕ) : Type 0 where
  pub word : s.r < 2 ^ 32
  pub w_at : s.w ≡ (s.r + length line) % 2 ^ 32
  pub e_at : s.e ≡ (s.r + length line + length edit) % 2 ^ 32
  pub fits : length line + length edit ≤ 128
  pub bytes : window s.buf s.r (length line + length edit) ≡ line ++ edit

put_key-Shows :
    (c : ℕ) (s : Input) (line edit : List ℕ)
    → Shows s line edit
    → leb 128 ((s.e + 2 ^ 32 - s.r) % 2 ^ 32) ≡ false
    → Shows (put_key c s) line (edit ++ (c ∷ []))
put_key-Shows c s line edit h room =
    let more = length-append edit (c ∷ []) in
    let small : length line + length edit < 128 = ground (arith, h.e_at, h.word, h.fits, room) in
    let total : length line + length (edit ++ (c ∷ [])) ≡ suc (length line + length edit) =
      omega (arith, more) in
    record {
      word = h.word;
      w_at = h.w_at;
      e_at = omega (arith, h.e_at, more, h.word, small);
      fits = omega (arith, more, small);
      bytes =
          ap (window (update s.buf (s.e % 128) c) s.r) total
          ∙ window-update s.buf s.r (length line + length edit) (s.e % 128) c small h.word
              (omega (arith, h.e_at, h.word, small))
          ∙ ap (λ l. l ++ (c ∷ [])) h.bytes
          ∙ append_assoc line edit (c ∷ []);
    }

-- The end of a line finishes all that has been typed.
commit-Shows :
    (s : Input) (line edit : List ℕ)
    → Shows s line edit
    → Shows (record s { w = s.e }) (line ++ edit) []
commit-Shows s line edit h =
    let both = length-append line edit in
    record {
      word = h.word;
      w_at = omega (arith, h.e_at, both);
      e_at = omega (arith, h.e_at, both);
      fits = omega (arith, h.fits, both);
      bytes =
          ap (window s.buf s.r) (omega (arith, both)) ∙ h.bytes ∙ sym (append-nil (line ++ edit));
    }

window-take : (buf : ℕ → ℕ) (r n m : ℕ) → n ≤ m → window buf r n ≡ take n (window buf r m)
window-take buf r zero m h = refl
window-take buf r (suc n) zero h = absurd (omega arith)
window-take buf r (suc n) (suc m) h =
    ap (λ l. buf (r % 128) ∷ l) (window-take buf ((r + 1) % 2 ^ 32) n m (omega arith))

take-line :
    (line edit : List ℕ) (k : ℕ) → take (length line + k) (line ++ edit) ≡ line ++ take k edit
take-line [] edit k = ap (λ n. take n edit) (omega arith)
take-line (c ∷ line) edit k =
    let e : suc (length line) + k ≡ suc (length line + k) = omega arith in
    rw e (ap (λ l. c ∷ l) (take-line line edit k))

-- The erasure of the last character typed.
back_one-Shows :
    (s : Input) (line edit : List ℕ)
    → Shows s line edit
    → (s.e == s.w) ≡ false
    → Shows (back_one s) line (take (length edit - 1) edit)
back_one-Shows s line edit h more =
    let some_typed : 0 < length edit = ground (arith, h.e_at, h.w_at, more) in
    let size = length-take (length edit - 1) edit (omega arith) in
    record {
      word = h.word;
      w_at = h.w_at;
      e_at = omega (arith, h.e_at, size, some_typed);
      fits = omega (arith, h.fits, size);
      bytes =
          ap (λ n. window s.buf s.r (length line + n)) size
          ∙ window-take s.buf s.r (length line + (length edit - 1)) (length line + length edit)
              (omega arith)
          ∙ ap (take (length line + (length edit - 1))) h.bytes
          ∙ take-line line edit (length edit - 1);
    }

kill_line-Shows :
    (n : ℕ) (s : Input) (line edit : List ℕ)
    → Shows s line edit
    → (rest : List ℕ) × Shows (kill_line n s) line rest
unfolding kill_line
kill_line-Shows zero s line edit h = (edit, h)
kill_line-Shows (suc n) s line edit h =
    elim (Bool-cases ((s.e == s.w) || (s.buf ((s.e + 2 ^ 32 - 1) % 2 ^ 32 % 128) == 10))) [
      | inl stop ↦ (edit, rw (stop, kill_line) h)
      | inr go_on ↦
          let (rest, shown) =
            kill_line-Shows n (back_one s) line _
              (back_one-Shows s line edit h (ground (arith, go_on))) in
          (rest, rw (go_on, kill_line) shown)
    ]

-- A key that is stored.
typed-Shows :
    (c : ℕ) (s : Input) (line edit : List ℕ)
    → Shows s line edit
    → leb 128 ((s.e + 2 ^ 32 - s.r) % 2 ^ 32) ≡ false
    → (more rest : List ℕ) × Shows
        (if ends_line c (put_key c s)
          then record (put_key c s) { w = (put_key c s).e }
          else put_key c s)
        (line ++ more)
        rest
typed-Shows c s line edit h room =
    let typed = put_key-Shows c s line edit h room in
    elim (Bool-cases (ends_line c (put_key c s))) [
      | inl ends ↦
          (edit ++ (c ∷ []), [], rw ends (commit-Shows (put_key c s) line (edit ++ (c ∷ [])) typed))
      | inr goes_on ↦ ([], edit ++ (c ∷ []), rw (goes_on, append-nil line) typed)
    ]

key-Shows :
    (c : ℕ) (s : Input) (line edit : List ℕ)
    → Shows s line edit
    → (more rest : List ℕ) × Shows (key c s) (line ++ more) rest
unfolding key
key-Shows c s line edit h =
    let same : Shows s (line ++ []) edit = rw (append-nil line) h in
    elim (Bool-cases (c == 16)) [
      | inl listing ↦ ([], edit, rw (listing, key) same)
      | inr not_listing ↦ elim (Bool-cases (c == 21)) [
        | inl kill ↦
            let (rest, shown) = kill_line-Shows 128 s line edit h in
            ([], rest, rw (not_listing, kill, append-nil line, key) shown)
        | inr not_kill ↦ elim (Bool-cases ((c == 8) || (c == 127))) [
          | inl erase ↦ elim (Bool-cases (s.e == s.w)) [
            | inl empty ↦ ([], edit, rw (not_listing, not_kill, erase, empty, key) same)
            | inr some_left ↦ (
              [],
              take (length edit - 1) edit,
              rw (not_listing, not_kill, erase, some_left, append-nil line, key)
                  (back_one-Shows s line edit h some_left),
            )
          ]
          | inr letter ↦ elim (Bool-cases (c == 0)) [
            | inl nul ↦ ([], edit, rw (not_listing, not_kill, letter, nul, key) same)
            | inr good ↦ elim (Bool-cases (leb 128 ((s.e + 2 ^ 32 - s.r) % 2 ^ 32))) [
              | inl full ↦ ([], edit, rw (not_listing, not_kill, letter, good, full, key) same)
              | inr room ↦
                  let (more, rest, shown) = typed-Shows (stored c) s line edit h room in
                  (more, rest, rw (not_listing, not_kill, letter, good, room, key) shown)
            ]
          ]
        ]
      ]
    ]

-- Whatever keys are typed, the finished lines that are not yet read are kept, in their order, and the
-- keys only add to them.
pub consoleintr-Shows :
    (keys : List ℕ) (s : Input) (line edit : List ℕ)
    → Shows s line edit
    → (more rest : List ℕ) × Shows (consoleintr keys s) (line ++ more) rest
unfolding consoleintr
consoleintr-Shows [] s line edit h = ([], edit, rw (append-nil line) h)
consoleintr-Shows (c ∷ keys) s line edit h =
    let (first, typed, shown) = key-Shows c s line edit h in
    let (more, rest, all_shown) = consoleintr-Shows keys (key c s) (line ++ first) typed shown in
    (
      first ++ more,
      rest,
      subst (λ l. Shows (consoleintr keys (key c s)) l rest) (append_assoc line first more)
          all_shown,
    )
