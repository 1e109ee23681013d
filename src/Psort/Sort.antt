-- ===== src/Psort/Sort.antt =====
-- `merge_sort` on a range of the array.
use mathlib.Core.List.{Perm}
use mathlib.Core.List.Perm
use cs537_sp23_operating_sys.Common.{
  ℕ, Bool-cases, arith, false, inl, inr, ltb, refl, suc, true, zero, ◌++◌, ◌+◌, ◌-◌, ◌/◌, ◌<◌, ◌≡◌,
  ◌≤◌, ◌⊎◌,
}
use cs537_sp23_operating_sys.Psort.{Array, merge, merge_sort}
use cs537_sp23_operating_sys.Psort.MergeLists.{IsSorted, merge_lists-IsSorted, merge_lists-perm}
use cs537_sp23_operating_sys.Psort.Slices.{slice, slice-eq, slice-append}
use cs537_sp23_operating_sys.Psort.Merge.{merge_lem}

-- `r` is `keys` with the range from `start` to `end` sorted.
pub record SortedOf (start end : ℕ) (keys r : Array) : Type 0 where
  pub sorted : IsSorted (slice r start (end - start))
  pub perm : Perm (slice r start (end - start)) (slice keys start (end - start))
  pub outside : (p : ℕ) → (p < start) ⊎ (end ≤ p) → r p ≡ keys p

pub slice-split :
    (a : Array) (start mid end : ℕ)
    → start ≤ mid
    → mid ≤ end
    → slice a start (end - start) ≡ slice a start (mid - start) ++ slice a mid (end - mid)
slice-split a start mid end h1 h2 =
    let e : end - start ≡ mid - start + (end - mid) = omega arith in
    let e' : start + (mid - start) ≡ mid = omega arith in
    rw e (rw e' at (slice-append a start (mid - start) (end - mid)))

-- Merging two sorted neighbours.
pub merge-SortedOf :
    (start mid end : ℕ) (keys temp : Array)
    → start ≤ mid
    → mid ≤ end
    → IsSorted (slice keys start (mid - start))
    → IsSorted (slice keys mid (end - mid))
    → SortedOf start end keys (merge start mid end keys temp).0
merge-SortedOf start mid end keys temp h1 h2 a b =
    let m = merge_lem start mid end keys temp h1 h2 in
    record {
      sorted = rw m.0 (merge_lists-IsSorted _ _ a b);
      perm = rw (m.0, slice-split keys start mid end h1 h2) (merge_lists-perm _ _);
      outside = m.1;
    }

-- Sorting the right range keeps the left one.
left_kept :
    (start mid end : ℕ) (k1 k2 : Array)
    → SortedOf mid end k1 k2
    → slice k2 start (mid - start) ≡ slice k1 start (mid - start)
left_kept start mid end k1 k2 s =
    slice-eq k2 k1 start (mid - start) (λ p l u. s.outside p (inl (omega arith)))

-- Two steps, each of which sorts a range inside the one range, and a last that sorts it all.
sorted_in_parts :
    (start mid end : ℕ) (keys k1 k2 k3 : Array)
    → start ≤ mid
    → mid ≤ end
    → SortedOf start mid keys k1
    → SortedOf mid end k1 k2
    → SortedOf start end k2 k3
    → SortedOf start end keys k3
sorted_in_parts start mid end keys k1 k2 k3 h1 h2 s1 s2 s3 = record {
  sorted = s3.sorted;
  perm = Perm.trans s3.perm (
      rw
        (
          slice-split k2 start mid end h1 h2,
          slice-split keys start mid end h1 h2,
          left_kept start mid end k1 k2 s2,
        )
        (Perm.append s1.perm (rw right_kept at s2.perm)));
  outside = λ p o. ground (arith, s1.outside p, s2.outside p, s3.outside p);
}
  where
    right_kept : slice k1 mid (end - mid) ≡ slice keys mid (end - mid)
    right_kept = slice-eq k1 keys mid (end - mid) (λ p l u. s1.outside p (inr (omega arith)))

short-IsSorted : (a : Array) (start n : ℕ) → n < 2 → IsSorted (slice a start n)
short-IsSorted a start zero h = tt
short-IsSorted a start (suc zero) h = (tt, tt)
short-IsSorted a start (suc (suc n)) h = absurd (omega arith)

merge_sort-short :
    (fuel start end : ℕ) (keys temp : Array)
    → ltb (end - start) 2 ≡ true
    → merge_sort (suc fuel) start end keys temp ≡ (keys, temp)
unfolding merge_sort
merge_sort-short fuel start end keys temp e = rw (e, merge_sort)

merge_sort-long :
    (fuel start end : ℕ) (keys temp : Array)
    → ltb (end - start) 2 ≡ false
    → let mid = start + (end - start) / 2 in
      let left = merge_sort fuel start mid keys temp in
      let right = merge_sort fuel mid end left.0 left.1 in
      merge_sort (suc fuel) start end keys temp ≡ merge start mid end right.0 right.1
unfolding merge_sort
merge_sort-long fuel start end keys temp e = rw (e, merge_sort)

-- With fuel above the length of the range `merge_sort` sorts the range by key, as a permutation of
-- its entries, and leaves all entries outside it alone.
pub merge_sort-SortedOf :
    (fuel start end : ℕ) (keys temp : Array)
    → start ≤ end
    → end - start < fuel
    → SortedOf start end keys (merge_sort fuel start end keys temp).0
merge_sort-SortedOf zero start end keys temp h f = absurd (omega arith)
merge_sort-SortedOf (suc fuel) start end keys temp h f = elim (Bool-cases (ltb (end - start) 2)) [
  | inl short ↦ rw (merge_sort-short fuel start end keys temp short) (record {
    sorted = short-IsSorted keys start (end - start) (ground arith);
    perm = Perm.refl _;
    outside = λ p o. refl;
  })
  | inr long ↦
      let mid = start + (end - start) / 2 in
      let big : 2 ≤ end - start = ground arith in
      let left = merge_sort fuel start mid keys temp in
      let s1 = merge_sort-SortedOf fuel start mid keys temp (omega arith) (omega arith) in
      let right = merge_sort fuel mid end left.0 left.1 in
      let s2 = merge_sort-SortedOf fuel mid end left.0 left.1 (omega arith) (omega arith) in
      rw (merge_sort-long fuel start end keys temp long) (
        sorted_in_parts start mid end keys left.0 right.0 _ (omega arith) (omega arith) s1 s2 (
          merge-SortedOf start mid end right.0 right.1 (omega arith) (omega arith)
            (rw (← left_kept start mid end left.0 right.0 s2) at s1.sorted) s2.sorted))
]
