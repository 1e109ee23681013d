-- ===== src/Fortune/Options/Choices.antt =====
-- What the options come to: a number or a batch.
use cs537_sp23_operating_sys.Common.{
  ℕ, Bool, Bool-cases, List, Option, Option-cases, false, inl, inr, pos, refl, some, true, ℤ, ◌&&◌,
  ◌≡◌, [], ◌==◌, ◌∷◌,
}
use cs537_sp23_operating_sys.Fortune.{is_above}
use cs537_sp23_operating_sys.Fortune.Options.{
  Chosen, nothing_chosen, fails, goes_on, Call, Result, open_fortunes, choose_number, open_batch,
  is_late, handle_option, handle_options, starts_with_eof,
}

-- Not both modes; the number of the number mode is above 0, and the batch mode has its file.
pub record IsConsistent (s : Chosen) : Type 0 where
  pub one_mode : (s.is_n && s.is_b) ≡ false
  pub number : s.is_n ≡ true → is_above s.n (pos 0) ≡ true
  pub batch : s.is_b ≡ true → (bytes : List ℕ) × (s.bp ≡ some bytes)

-- An error, or choices that are consistent.
abbrev pub Settled : Result Chosen → Type 0
Settled (fails m) = Unit
Settled (goes_on s) = IsConsistent s

open_fortunes-Settled :
    (files : List ℕ → Option (List ℕ)) (writable : List ℕ → Bool) (atoi : List ℕ → ℤ)
    (name : List ℕ) (s : Chosen)
    → IsConsistent s
    → Settled (open_fortunes files writable atoi name s)
unfolding open_fortunes
open_fortunes-Settled files writable atoi name s c = elim (Option-cases (files name)) [
  | inl nothing ↦ rw (nothing, open_fortunes) tt
  | inr (bytes, there) ↦ elim (Bool-cases (starts_with_eof bytes)) [
    | inl ends ↦ rw (there, open_fortunes, ends) tt
    | inr goes ↦
        rw (there, open_fortunes, goes)
          (record { one_mode = c.one_mode; number = c.number; batch = c.batch })
  ]
]

choose_number-Settled :
    (files : List ℕ → Option (List ℕ)) (writable : List ℕ → Bool) (atoi : List ℕ → ℤ) (arg : List ℕ)
    (s : Chosen)
    → IsConsistent s
    → Settled (choose_number files writable atoi arg s)
unfolding choose_number
choose_number-Settled files writable atoi arg s c = elim (Bool-cases (s.is_b)) [
  | inl batch ↦ rw (batch, choose_number) tt
  | inr no_batch ↦ elim (Bool-cases (is_above (atoi arg) (pos 0))) [
    | inr low ↦ rw (no_batch, choose_number, low) tt
    | inl above ↦
        rw (no_batch, choose_number, above)
          (record { one_mode = refl; number = λ h. above; batch = λ h. cc })
  ]
]

open_batch-Settled :
    (files : List ℕ → Option (List ℕ)) (writable : List ℕ → Bool) (atoi : List ℕ → ℤ)
    (name : List ℕ) (s : Chosen)
    → IsConsistent s
    → Settled (open_batch files writable atoi name s)
unfolding open_batch
open_batch-Settled files writable atoi name s c = elim (Bool-cases (s.is_n)) [
  | inl number ↦ rw (number, open_batch) tt
  | inr no_number ↦ elim (Option-cases (files name)) [
    | inl nothing ↦ rw (no_number, open_batch, nothing) tt
    | inr (bytes, there) ↦ elim (Bool-cases (starts_with_eof bytes)) [
      | inl ends ↦ rw (no_number, open_batch, there, ends) tt
      | inr goes ↦
          rw (no_number, open_batch, there, goes)
            (record { one_mode = rw no_number refl; number = c.number; batch = λ h. (bytes, refl) })
    ]
  ]
]

handle_option-Settled :
    (files : List ℕ → Option (List ℕ)) (writable : List ℕ → Bool) (atoi : List ℕ → ℤ)
    (invalid_flag_idx : Option ℕ) (c : Call) (s : Chosen)
    → IsConsistent s
    → Settled (handle_option files writable atoi invalid_flag_idx c s)
unfolding handle_option
handle_option-Settled files writable atoi invalid_flag_idx c s fine =
    elim (Bool-cases (is_late invalid_flag_idx c)) [
      | inl late ↦ rw (late, handle_option) tt
      | inr early ↦ elim (Bool-cases (c.opt == 102)) [
        | inl f ↦
            rw (early, handle_option, f) (open_fortunes-Settled files writable atoi c.optarg s fine)
        | inr not_f ↦ elim (Bool-cases (c.opt == 110)) [
          | inl n ↦
              rw (early, handle_option, not_f, n)
                (choose_number-Settled files writable atoi c.optarg s fine)
          | inr not_n ↦ elim (Bool-cases (c.opt == 98)) [
            | inl b ↦
                rw (early, handle_option, not_f, not_n, b)
                  (open_batch-Settled files writable atoi c.optarg s fine)
            | inr not_b ↦ elim (Bool-cases (c.opt == 111)) [
              | inl o ↦
                  rw (early, handle_option, not_f, not_n, not_b, o)
                    (record { one_mode = fine.one_mode; number = fine.number; batch = fine.batch })
              | inr not_o ↦ elim (Bool-cases (c.opt == 58)) [
                | inl colon ↦ rw (early, handle_option, not_f, not_n, not_b, not_o, colon) tt
                | inr no_colon ↦ elim (Bool-cases (c.opt == 63)) [
                  | inl question ↦
                      rw (early, handle_option, not_f, not_n, not_b, not_o, no_colon, question) tt
                  | inr other ↦
                      rw (early, handle_option, not_f, not_n, not_b, not_o, no_colon, other) fine
                ]
              ]
            ]
          ]
        ]
      ]
    ]

rest-Settled :
    (files : List ℕ → Option (List ℕ)) (writable : List ℕ → Bool) (atoi : List ℕ → ℤ)
    (invalid_flag_idx : Option ℕ) (c : Call) (cs : List Call) (s : Chosen) (r : Result Chosen)
    → handle_option files writable atoi invalid_flag_idx c s ≡ r
    → Settled r
    → ((s' : Chosen)
        → IsConsistent s'
        → Settled (handle_options files writable atoi invalid_flag_idx cs s'))
    → Settled (handle_options files writable atoi invalid_flag_idx (c ∷ cs) s)
unfolding handle_options
rest-Settled files writable atoi invalid_flag_idx c cs s (fails m) eq settled rest =
    rw (eq, handle_options) tt
rest-Settled files writable atoi invalid_flag_idx c cs s (goes_on s') eq settled rest =
    rw (eq, handle_options) (rest s' settled)

-- Whatever getopt returns: the loop over the options ends in an error, or not both modes are chosen, the number
-- of the number mode is above 0, and the batch mode has its file.
pub handle_options-Settled :
    (files : List ℕ → Option (List ℕ)) (writable : List ℕ → Bool) (atoi : List ℕ → ℤ)
    (invalid_flag_idx : Option ℕ) (calls : List Call)
    → Settled (handle_options files writable atoi invalid_flag_idx calls nothing_chosen)
unfolding handle_options
handle_options-Settled files writable atoi invalid_flag_idx calls =
    from calls nothing_chosen (record { one_mode = refl; number = λ h. cc; batch = λ h. cc })
  where
    from :
        (calls : List Call) (s : Chosen)
        → IsConsistent s
        → Settled (handle_options files writable atoi invalid_flag_idx calls s)
    from [] s fine = fine
    from (c ∷ cs) s fine =
        rest-Settled files writable atoi invalid_flag_idx c cs s
          (handle_option files writable atoi invalid_flag_idx c s) refl
          (handle_option-Settled files writable atoi invalid_flag_idx c s fine) (from cs)
