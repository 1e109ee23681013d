-- ===== src/Psort/Merge.antt =====
-- The loops of `merge` against the merge of two lists.
use native.Mathlib.Decide.{dec_lt}
use cs537_sp23_operating_sys.Common.{
  ℕ, List, [], arith, false, refl, suc, true, update, ◌++◌, ◌+◌, ◌-◌, ◌<◌, ◌∷◌, ◌≡◌, ◌≤◌, ap,
  append_assoc, if◌then◌else◌, in_range, sym, zero, ◌∙◌, Bool-cases, append-nil, inl, inr, ltb,
  ◌&&◌, ◌⊎◌,
}
use cs537_sp23_operating_sys.Psort.{
  KeyIndex, Array, Cursor, take_left, take_right, key_le, both, drain_left, drain_right, copy_back,
  fill, merge,
}
use cs537_sp23_operating_sys.Psort.MergeLists.{
  merge_lists-nil_left, merge_lists, merge_lists-nil, merge_lists-le, merge_lists-gt,
}
use cs537_sp23_operating_sys.Psort.Slices.{slice, slice-cons, slice-nil, slice-eq, slice-update}

copy_back_lem :
    (n i : ℕ) (keys temp : Array) (a : ℕ)
    → copy_back n i keys temp a ≡ (if in_range i n a then temp a else keys a)
unfolding copy_back
copy_back_lem zero i keys temp a = ground arith
copy_back_lem (suc n) i keys temp a =
    ground (arith, copy_back_lem n (i + 1) (update keys i (temp i)) temp a)

-- One round of the first loop.
both-stop :
    (fuel mid end : ℕ) (c : Cursor)
    → (ltb c.i mid && ltb c.j end) ≡ false
    → both (suc fuel) mid end c ≡ c
unfolding both
both-stop fuel mid end c e = rw (e, both)

both-left :
    (fuel mid end : ℕ) (c : Cursor)
    → (ltb c.i mid && ltb c.j end) ≡ true
    → key_le (c.keys c.i) (c.keys c.j) ≡ true
    → both (suc fuel) mid end c ≡ both fuel mid end (take_left c)
unfolding both
both-left fuel mid end c e le = rw (e, both) (rw le)

both-right :
    (fuel mid end : ℕ) (c : Cursor)
    → (ltb c.i mid && ltb c.j end) ≡ true
    → key_le (c.keys c.i) (c.keys c.j) ≡ false
    → both (suc fuel) mid end c ≡ both fuel mid end (take_right c)
unfolding both
both-right fuel mid end c e gt = rw (e, both) (rw gt)

module _ (start mid end : ℕ) (keys : Array) (goal : List KeyIndex) where
  -- What has been merged, and what is still to be merged.
  abbrev out : Cursor → List KeyIndex
  out c = slice c.temp start (c.k - start)

  abbrev rest : Cursor → List KeyIndex
  rest c = merge_lists (slice keys c.i (mid - c.i)) (slice keys c.j (end - c.j))

  record Inv (c : Cursor) : Type 0 where
    same : (p : ℕ) → c.keys p ≡ keys p
    whole : out c ++ rest c ≡ goal
    above : start ≤ c.k
    left : c.i ≤ mid
    right : c.j ≤ end
    balance : c.k + mid ≡ c.i + c.j

  out-put :
      (c : Cursor) (x : KeyIndex)
      → start ≤ c.k
      → slice (update c.temp c.k x) start (c.k + 1 - start) ≡ out c ++ (x ∷ [])
  out-put c x h =
      let e : c.k + 1 - start ≡ suc (c.k - start) = omega arith in
      rw e (slice-update c.temp start (c.k - start) c.k x (omega arith))

  rest-left :
      (i j : ℕ)
      → i < mid
      → (j < end → key_le (keys i) (keys j) ≡ true)
      → merge_lists (slice keys i (mid - i)) (slice keys j (end - j))
        ≡ keys i ∷ merge_lists (slice keys (i + 1) (mid - (i + 1))) (slice keys j (end - j))
  rest-left i j h le = elim (dec_lt j end) [
    | yes more ↦
        rw (slice-cons keys i mid h, slice-cons keys j end more)
          (merge_lists-le (keys i) (keys j) (slice keys (i + 1) (mid - (i + 1)))
            (slice keys (j + 1) (end - (j + 1))) (le more))
    | no done ↦
        rw (slice-cons keys i mid h, slice-nil keys j end (omega arith))
          (merge_lists-nil (keys i ∷ slice keys (i + 1) (mid - (i + 1)))
            ∙ sym (ap (λ zs. keys i ∷ zs) (merge_lists-nil (slice keys (i + 1) (mid - (i + 1))))))
  ]

  rest-right :
      (i j : ℕ)
      → j < end
      → (i < mid → key_le (keys i) (keys j) ≡ false)
      → merge_lists (slice keys i (mid - i)) (slice keys j (end - j))
        ≡ keys j ∷ merge_lists (slice keys i (mid - i)) (slice keys (j + 1) (end - (j + 1)))
  rest-right i j h gt = elim (dec_lt i mid) [
    | yes more ↦
        rw (slice-cons keys i mid more, slice-cons keys j end h)
          (merge_lists-gt (keys i) (keys j) (slice keys (i + 1) (mid - (i + 1)))
            (slice keys (j + 1) (end - (j + 1))) (gt more))
    | no done ↦
        rw (slice-cons keys j end h, slice-nil keys i mid (omega arith))
          (merge_lists-nil_left (keys j ∷ slice keys (j + 1) (end - (j + 1)))
            ∙ sym (
                ap (λ zs. keys j ∷ zs) (merge_lists-nil_left (slice keys (j + 1) (end - (j + 1))))))
  ]

  -- One entry moves from the front of what is left to the end of what is done.
  whole-put :
      (c : Cursor) (x : KeyIndex) (more : List KeyIndex)
      → start ≤ c.k
      → rest c ≡ x ∷ more
      → out c ++ rest c ≡ goal
      → slice (update c.temp c.k x) start (c.k + 1 - start) ++ more ≡ goal
  whole-put c x more h e whole = rw (out-put c x h, append_assoc (out c) (x ∷ []) more, ← e) whole

  take_left-Inv :
      (c : Cursor)
      → Inv c
      → c.i < mid
      → (c.j < end → key_le (keys c.i) (keys c.j) ≡ true)
      → Inv (take_left c)
  take_left-Inv c inv h le = record {
    same = inv.same;
    whole =
        rw (inv.same c.i) (whole-put c (keys c.i) _ inv.above (rest-left c.i c.j h le) inv.whole);
    above = omega arith;
    left = omega arith;
    right = inv.right;
    balance = omega arith;
  }

  take_right-Inv :
      (c : Cursor)
      → Inv c
      → c.j < end
      → (c.i < mid → key_le (keys c.i) (keys c.j) ≡ false)
      → Inv (take_right c)
  take_right-Inv c inv h gt = record {
    same = inv.same;
    whole =
        rw (inv.same c.j) (whole-put c (keys c.j) _ inv.above (rest-right c.i c.j h gt) inv.whole);
    above = omega arith;
    left = inv.left;
    right = omega arith;
    balance = omega arith;
  }

  both-Inv :
      (fuel : ℕ) (c : Cursor)
      → Inv c
      → mid - c.i + (end - c.j) ≤ fuel
      → Inv (both fuel mid end c) × ((both fuel mid end c).i < mid → end ≤ (both fuel mid end c).j)
  unfolding both
  both-Inv zero c inv h = (inv, λ l. omega arith)
  both-Inv (suc fuel) c inv h = elim (Bool-cases (ltb c.i mid && ltb c.j end)) [
    | inl go ↦ elim (Bool-cases (key_le (c.keys c.i) (c.keys c.j))) [
      | inl le ↦ rw (both-left fuel mid end c go le) (
          both-Inv fuel (take_left c)
            (take_left-Inv c inv (ground arith) (λ _. rw (inv.same c.i, inv.same c.j) at le))
            (ground arith))
      | inr gt ↦ rw (both-right fuel mid end c go gt) (
          both-Inv fuel (take_right c)
            (take_right-Inv c inv (ground arith) (λ _. rw (inv.same c.i, inv.same c.j) at gt))
            (ground arith))
    ]
    | inr stop ↦ rw (both-stop fuel mid end c stop) (inv, λ l. ground arith)
  ]

  drain_left-Inv :
      (n : ℕ) (c : Cursor)
      → Inv c
      → n ≡ mid - c.i
      → (c.i < mid → end ≤ c.j)
      → Inv (drain_left n c) × ((drain_left n c).i ≡ mid)
  unfolding drain_left
  drain_left-Inv zero c inv h stop = (inv, omega arith)
  drain_left-Inv (suc n) c inv h stop =
      drain_left-Inv n (take_left c)
        (take_left-Inv c inv (omega arith) (λ l. absurd (omega (arith, stop (omega arith)))))
        (omega arith) (λ l. stop (omega arith))

  drain_right-Inv :
      (n : ℕ) (c : Cursor)
      → Inv c
      → n ≡ end - c.j
      → c.i ≡ mid
      → Inv (drain_right n c) × ((drain_right n c).i ≡ mid) × ((drain_right n c).j ≡ end)
  unfolding drain_right
  drain_right-Inv zero c inv h all = (inv, all, omega arith)
  drain_right-Inv (suc n) c inv h all =
      drain_right-Inv n (take_right c)
        (take_right-Inv c inv (omega arith) (λ l. absurd (omega arith))) (omega arith) all

  -- When both ranges are used up, `temp` holds the goal.
  Inv-goal : (c : Cursor) → Inv c → c.i ≡ mid → c.j ≡ end → slice c.temp start (end - start) ≡ goal
  Inv-goal c inv a b =
      let k_end : c.k ≡ end = omega arith in
      let nothing : rest c ≡ [] =
        rw (slice-nil keys c.i mid (omega arith), slice-nil keys c.j end (omega arith))
          (merge_lists-nil []) in
      rw (← k_end) (sym (append-nil (out c)) ∙ (rw nothing at inv.whole))

abbrev merge_goal : ℕ → ℕ → ℕ → Array → List KeyIndex
merge_goal start mid end keys =
    merge_lists (slice keys start (mid - start)) (slice keys mid (end - mid))

fill_lem :
    (start mid end : ℕ) (keys temp : Array)
    → start ≤ mid
    → mid ≤ end
    → (slice (fill start mid end keys temp).temp start (end - start)
        ≡ merge_goal start mid end keys)
      × ((p : ℕ) → (fill start mid end keys temp).keys p ≡ keys p)
fill_lem start mid end keys temp h1 h2 =
    let c0 : Cursor = record { i = start; j = mid; k = start; keys = keys; temp = temp } in
    let first : Inv start mid end keys (merge_goal start mid end keys) c0 = record {
      same = λ p. refl;
      whole = rw (slice-nil temp start start (omega arith));
      above = omega arith;
      left = h1;
      right = h2;
      balance = omega arith;
    } in
    let b =
      both-Inv start mid end keys (merge_goal start mid end keys) (end - start) c0 first
        (omega arith) in
    let c1 = both (end - start) mid end c0 in
    let l =
      drain_left-Inv start mid end keys (merge_goal start mid end keys) (mid - c1.i) c1 b.0 refl
        b.1 in
    let c2 = drain_left (mid - c1.i) c1 in
    let r =
      drain_right-Inv start mid end keys (merge_goal start mid end keys) (end - c2.j) c2 l.0 refl
        l.1 in
    (
      Inv-goal start mid end keys (merge_goal start mid end keys) (fill start mid end keys temp) r.0
          r.1 r.2,
      r.0.same,
    )

-- For `start ≤ mid ≤ end`, `merge` of the ranges from `start` to `mid` and from `mid` to `end`
-- leaves in `keys` the merge of the two, and changes no entry outside them.
pub merge_lem :
    (start mid end : ℕ) (keys temp : Array)
    → start ≤ mid
    → mid ≤ end
    → (slice (merge start mid end keys temp).0 start (end - start)
        ≡ merge_lists (slice keys start (mid - start)) (slice keys mid (end - mid)))
      × ((p : ℕ) → (p < start) ⊎ (end ≤ p) → (merge start mid end keys temp).0 p ≡ keys p)
unfolding merge
merge_lem start mid end keys temp h1 h2 =
    let f = fill_lem start mid end keys temp h1 h2 in
    let c = fill start mid end keys temp in
    (
      slice-eq _ c.temp start (end - start)
            (λ p l u. copy_back_lem (end - start) start c.keys c.temp p ∙ ground arith)
          ∙ f.0,
      λ p o. copy_back_lem (end - start) start c.keys c.temp p ∙ ground (arith, f.1 p),
    )
