-- ===== src/Runscan/Names/Files.antt =====
-- The output directory as a map from names to contents.
use cs537_sp23_operating_sys.Common.{
  ℕ, Bool-cases, List, [], ap, false, inl, inr, none, refl, same_text, same_text_self, same_text→eq,
  some, sym, true, ◌∙◌, ◌∷◌, ◌≡◌,
}
use cs537_sp23_operating_sys.Runscan.Names.{Directory, file_at, put_file, remove_file}

pub file_at-put_file :
    (name bytes : List ℕ) (dir : Directory) → file_at name (put_file name bytes dir) ≡ some bytes
unfolding file_at put_file
file_at-put_file name bytes [] = rw (same_text_self name, file_at) refl
file_at-put_file name bytes ((n, old) ∷ dir) = elim (Bool-cases (same_text name n)) [
  | inl same ↦ rw (same, put_file, file_at, same) refl
  | inr other ↦ rw (other, put_file, file_at, other) (file_at-put_file name bytes dir)
]

pub file_at-put_file_ne :
    (name other bytes : List ℕ) (dir : Directory)
    → same_text other name ≡ false
    → file_at other (put_file name bytes dir) ≡ file_at other dir
unfolding file_at put_file
file_at-put_file_ne name other bytes [] ne = rw (ne, file_at) refl
file_at-put_file_ne name other bytes ((n, old) ∷ dir) ne = elim (Bool-cases (same_text name n)) [
  | inl same ↦
      let e : name ≡ n = same_text→eq name n same in
      let ne' : same_text other n ≡ false = ap (same_text other) (sym e) ∙ ne in
      rw (same, put_file, file_at, ne') refl
  | inr different ↦ elim (Bool-cases (same_text other n)) [
    | inl here ↦ rw (different, put_file, file_at, here) refl
    | inr on ↦ rw (different, put_file, file_at, on) (file_at-put_file_ne name other bytes dir ne)
  ]
]

pub file_at-remove_file :
    (name : List ℕ) (dir : Directory) → file_at name (remove_file name dir) ≡ none
unfolding file_at remove_file
file_at-remove_file name [] = refl
file_at-remove_file name ((n, old) ∷ dir) = elim (Bool-cases (same_text name n)) [
  | inl same ↦ rw (same, remove_file) (file_at-remove_file name dir)
  | inr other ↦ rw (other, remove_file, file_at, other) (file_at-remove_file name dir)
]

pub file_at-remove_file_ne :
    (name other : List ℕ) (dir : Directory)
    → same_text other name ≡ false
    → file_at other (remove_file name dir) ≡ file_at other dir
unfolding file_at remove_file
file_at-remove_file_ne name other [] ne = refl
file_at-remove_file_ne name other ((n, old) ∷ dir) ne = elim (Bool-cases (same_text name n)) [
  | inl same ↦
      let e : name ≡ n = same_text→eq name n same in
      let ne' : same_text other n ≡ false = ap (same_text other) (sym e) ∙ ne in
      rw (same, remove_file, file_at, ne') (file_at-remove_file_ne name other dir ne)
  | inr different ↦ elim (Bool-cases (same_text other n)) [
    | inl here ↦ rw (different, remove_file, file_at, here) refl
    | inr on ↦ rw (different, remove_file, file_at, on) (file_at-remove_file_ne name other dir ne)
  ]
]

pub same_text-false : (s t : List ℕ) → same_text s t ≡ false → same_text t s ≡ false
same_text-false s t h = elim (Bool-cases (same_text t s)) [
  | inl same ↦
      let e : t ≡ s = same_text→eq t s same in
      let whole : same_text s t ≡ true = ap (same_text s) e ∙ same_text_self s in cc
  | inr other ↦ other
]

pub file_at-remove_file-none :
    (name other : List ℕ) (dir : Directory)
    → file_at other dir ≡ none
    → file_at other (remove_file name dir) ≡ none
file_at-remove_file-none name other dir gone = elim (Bool-cases (same_text other name)) [
  | inl same ↦
      let e : other ≡ name = same_text→eq other name same in
      ap (λ n. file_at n (remove_file name dir)) e ∙ file_at-remove_file name dir
  | inr different ↦ file_at-remove_file_ne name other dir different ∙ gone
]
