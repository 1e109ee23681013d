-- ===== src/Runscan/Names/Removal.antt =====
-- The removal of the pictures that the directory does not name.
use native.Mathlib.Decide.{ℕ_discrete}
use cs537_sp23_operating_sys.Common.{
  ℕ, Bool, Bool-cases, List, Memory, [], ap, arith, false, inl, inr, none, refl, same_text, some,
  suc, sym, true, update, zero, ◌+◌, ◌<◌, ◌∙◌, ◌∷◌, ◌≡◌, ◌≤◌, not, ◌&&◌, ◌^◌,
}
use cs537_sp23_operating_sys.Runscan.Names.Numbers.{IsAway, names_differ}
use cs537_sp23_operating_sys.Runscan.Names.{
  Directory, file_at, remove_file, picture_name, details_name, Output, names_picture, name_entries,
  remove_rest,
}
use cs537_sp23_operating_sys.Runscan.Names.Files.{
  file_at-remove_file, file_at-remove_file_ne, same_text-false, file_at-remove_file-none,
}
use cs537_sp23_operating_sys.Runscan.Names.Copies.{
  entries, HasPictures, AreNames, IsAlone, Unmarks, is_link, is_named, Named, name_all-Named,
  name_entries-name_all,
}

-- What none of the pictures left over is called is not removed.
remove_rest_away :
    (n k : ℕ) (o : Output) (other : List ℕ)
    → ((j : ℕ) → j < k + n → o.inode_is_jpg j ≡ true → IsAway j other)
    → file_at other (remove_rest n k o).dir ≡ file_at other o.dir
unfolding remove_rest
remove_rest_away zero k o other away = refl
remove_rest_away (suc n) k o other away = elim (Bool-cases (o.inode_is_jpg k)) [
  | inr named ↦
      rw (named, remove_rest)
        (remove_rest_away n (k + 1) o other (λ j low m. away j (omega (arith, low)) m))
  | inl left_over ↦
      let here = away k (omega arith) left_over in
      let d1 = remove_file (picture_name k) o.dir in
      rw (left_over, remove_rest)
        (remove_rest_away n (k + 1) (record o { dir = remove_file (details_name k) d1 }) other
            (λ j low m. away j (omega (arith, low)) m)
          ∙ file_at-remove_file_ne (details_name k) other d1
              (same_text-false (details_name k) other here.1)
          ∙ file_at-remove_file_ne (picture_name k) other o.dir
              (same_text-false (picture_name k) other here.0))
]

remove_rest-none :
    (n k : ℕ) (o : Output) (other : List ℕ)
    → file_at other o.dir ≡ none
    → file_at other (remove_rest n k o).dir ≡ none
unfolding remove_rest
remove_rest-none zero k o other gone = gone
remove_rest-none (suc n) k o other gone = elim (Bool-cases (o.inode_is_jpg k)) [
  | inr named ↦ rw (named, remove_rest) (remove_rest-none n (k + 1) o other gone)
  | inl left_over ↦
      let d1 = remove_file (picture_name k) o.dir in
      rw (left_over, remove_rest)
        (remove_rest-none n (k + 1) (record o { dir = remove_file (details_name k) d1 }) other
          (file_at-remove_file-none (details_name k) other d1
            (file_at-remove_file-none (picture_name k) other o.dir gone)))
]

-- The pictures that are left over are removed.
remove_rest-removes :
    (n k i : ℕ) (o : Output)
    → k ≤ i
    → i < k + n
    → o.inode_is_jpg i ≡ true
    → (file_at (picture_name i) (remove_rest n k o).dir ≡ none)
      × (file_at (details_name i) (remove_rest n k o).dir ≡ none)
unfolding remove_rest
remove_rest-removes zero k i o low high marked = absurd (omega arith)
remove_rest-removes (suc n) k i o low high marked = elim (ℕ_discrete k i) [
  | yes same ↦
      let here : o.inode_is_jpg k ≡ true = ap o.inode_is_jpg same ∙ marked in
      let d1 = remove_file (picture_name k) o.dir in
      let o1 : Output = record o { dir = remove_file (details_name k) d1 } in
      let first : file_at (picture_name i) o1.dir ≡ none =
        file_at-remove_file-none (details_name k) (picture_name i) d1 (
          ap (λ j. file_at (picture_name j) d1) (sym same)
          ∙ file_at-remove_file (picture_name k) o.dir) in
      let second : file_at (details_name i) o1.dir ≡ none =
        ap (λ j. file_at (details_name j) o1.dir) (sym same)
        ∙ file_at-remove_file (details_name k) d1 in
      rw (here, remove_rest)
        (
          remove_rest-none n (k + 1) o1 (picture_name i) first,
          remove_rest-none n (k + 1) o1 (details_name i) second,
        )
  | no other ↦ elim (Bool-cases (o.inode_is_jpg k)) [
    | inr named ↦
        rw (named, remove_rest)
          (remove_rest-removes n (k + 1) i o (omega arith) (omega arith) marked)
    | inl left_over ↦
        rw (left_over, remove_rest)
          (remove_rest-removes n (k + 1) i
            (record o { dir = remove_file (details_name k) (remove_file (picture_name k) o.dir) })
            (omega arith) (omega arith) marked)
  ]
]

Named-remove_rest :
    (limit n k : ℕ) (bytes : ℕ → List ℕ) (es : List (ℕ × List ℕ)) (old marked : ℕ → Bool)
    (o : Output)
    → ((j : ℕ) → marked j ≡ true → old j ≡ true)
    → AreNames limit old es
    → Named limit bytes es marked o.dir
    → Named limit bytes es marked (remove_rest n k o).dir
unfolding AreNames Named
Named-remove_rest limit n k bytes [] old marked o was names named = tt
Named-remove_rest limit n k bytes ((i, name) ∷ es) old marked o was (apart, names) named =
    elim (Bool-cases (names_picture limit i name (record { inode_is_jpg = marked; dir = o.dir }))) [
      | inr skipped ↦
          rw skipped
            (Named-remove_rest limit n k bytes es old marked o was names (rw skipped at named))
      | inl copied ↦
          let (here, rest) = rw copied at named in
          let here_old : old i ≡ true = was i (ground arith) in
          let link : is_link limit old (i, name) ≡ true = ground arith in
          let away = (apart link).0 in
          rw copied (
            remove_rest_away n k o name (λ j low m. away j) ∙ here,
            Named-remove_rest limit n k bytes es old (update marked i false) o
                (λ j m. was j (ground arith)) names rest,
          )
    ]

is_named-low : (limit j : ℕ) (es : List (ℕ × List ℕ)) → is_named limit j es ≡ true → j ≤ limit
unfolding is_named
is_named-low limit j [] h = cc
is_named-low limit j ((i, name) ∷ es) h = elim (Bool-cases (is_named limit j es)) [
  | inl later ↦ is_named-low limit j es later
  | inr not_later ↦ ground (arith, h, not_later)
]

-- The names of pictures and details are none of the names of pictures.
IsAlone-away :
    (limit : ℕ) (marked : ℕ → Bool) (other : List ℕ) (es : List (ℕ × List ℕ))
    → AreNames limit marked es
    → ((name : List ℕ) → ((j : ℕ) → IsAway j name) → same_text other name ≡ false)
    → IsAlone limit marked other es
unfolding AreNames
IsAlone-away limit marked other [] names own = tt
IsAlone-away limit marked other ((i, name) ∷ es) (apart, names) own =
    ((λ link. own name (apart link).0), IsAlone-away limit marked other es names own)

-- The output `o` at the start of the second phase, the marks of `o'` and the directory `dir` at its end.
pub record Recovered (limit : ℕ) (bytes : ℕ → List ℕ) (es : List (ℕ × List ℕ)) (o o' : Output)
    (dir : Directory) : Type 0 where
  pub named : Named limit bytes es o.inode_is_jpg dir
  pub marks : (i : ℕ) → o'.inode_is_jpg i ≡ o.inode_is_jpg i && not (is_named limit i es)
  pub kept :
      (i : ℕ)
      → o.inode_is_jpg i ≡ true
      → is_named limit i es ≡ true
      → (file_at (picture_name i) dir ≡ some (bytes i))
        × (file_at (details_name i) dir ≡ file_at (details_name i) o.dir)
  pub removed :
      (i : ℕ)
      → i < limit
      → o.inode_is_jpg i ≡ true
      → is_named limit i es ≡ false
      → (file_at (picture_name i) dir ≡ none) × (file_at (details_name i) dir ≡ none)

-- What the removal keeps of a picture that has a name.
kept_files :
    (limit i : ℕ) (es : List (ℕ × List ℕ)) (o o' : Output)
    → limit < 2 ^ 32
    → Unmarks limit es o o'
    → is_named limit i es ≡ true
    → (file_at (picture_name i) (remove_rest limit 0 o').dir ≡ file_at (picture_name i) o'.dir)
      × (file_at (details_name i) (remove_rest limit 0 o').dir ≡ file_at (details_name i) o'.dir)
kept_files limit i es o o' small marks named =
    let low = is_named-low limit i es named in
    let gone : o'.inode_is_jpg i ≡ false = ground (arith, marks i, named) in
    let away = λ (j : ℕ) (below : j < 0 + limit) (m : o'.inode_is_jpg j ≡ true).
      names_differ i j (omega (arith, low, small)) (omega (arith, below, small))
        (λ e. absurd (cc (ap o'.inode_is_jpg e, gone, m))) in
    (
      remove_rest_away limit 0 o' (picture_name i) (λ j below m. (away j below m).0),
      remove_rest_away limit 0 o' (details_name i) (λ j below m. (away j below m).1),
    )

-- The second phase with "top_secret", where every picture that is marked is there under its own name, and where
-- the entries of the directory that name pictures have names that are different, and none of them that of a
-- picture or of details; there are fewer than 2 ^ 32 inodes. The copies are made without a failure, and the
-- marks of the pictures that have a name are taken back. After the removal, the first entry of each picture is
-- a file with the bytes of that picture; the pictures that have a name are still there under their own names,
-- with their details as before; and the pictures of numbers below the limit that have none, and their details,
-- are gone.
pub name_entries-Named :
    (disk : Memory) (block_size beyond limit b : ℕ) (bytes : ℕ → List ℕ) (o : Output)
    → limit < 2 ^ 32
    → HasPictures o.inode_is_jpg bytes o.dir
    → AreNames limit o.inode_is_jpg (entries disk block_size beyond block_size b 24)
    → (o' : Output) × (name_entries disk block_size beyond true block_size limit b 24 o ≡ some o')
      × Recovered limit bytes
          (entries disk block_size beyond block_size b 24)
          o
          o'
          (remove_rest limit 0 o').dir
name_entries-Named disk block_size beyond limit b bytes o small pictures names =
    let es = entries disk block_size beyond block_size b 24 in
    let (o', run, named, marks, kept) =
      name_all-Named limit o.inode_is_jpg bytes es o (λ j m. m) pictures names in
    (
      o',
      name_entries-name_all disk block_size beyond block_size limit b 24 o ∙ run,
      record {
        named =
            Named-remove_rest limit limit 0 bytes es o.inode_is_jpg o.inode_is_jpg o' (λ j m. m)
              names named;
        marks = marks;
        kept = λ i marked is_there.
            let files = kept_files limit i es o o' small marks is_there in
            (
              files.0
                  ∙ kept (picture_name i) (
                      IsAlone-away limit o.inode_is_jpg (picture_name i) es names
                        (λ name away. (away i).0))
                  ∙ pictures i marked,
              files.1
                  ∙ kept (details_name i) (
                      IsAlone-away limit o.inode_is_jpg (details_name i) es names
                        (λ name away. (away i).1)),
            );
        removed = λ i low marked left_over.
            remove_rest-removes limit 0 i o' (omega arith) (omega (arith, low))
              (ground (arith, marks i, marked, left_over));
      },
    )
