-- ===== src/Psort/Threads.antt =====
-- The ranges of the threads, and the whole of `main`'s sort.
use mathlib.Core.List.{Perm}
use mathlib.Core.List.Perm
use cs537_sp23_operating_sys.Common.{
  ℕ, List, arith, inl, inr, refl, suc, zero, ◌+◌, ◌-◌, ◌/◌, ◌<◌, ◌∙◌, ◌≡◌, ◌≤◌,
}
use cs537_sp23_operating_sys.Psort.{
  KeyIndex, Array, merge, merge_sort, first_of_thread, end_of_thread, sort_threads, merge_threads,
  sort_records,
}
use cs537_sp23_operating_sys.Psort.MergeLists.{IsSorted}
use cs537_sp23_operating_sys.Psort.Slices.{slice, slice-eq}
use cs537_sp23_operating_sys.Psort.Sort.{SortedOf, slice-split, merge-SortedOf, merge_sort-SortedOf}

module _ (n threads : ℕ) where
  abbrev low : ℕ → ℕ
  low t = first_of_thread n threads t

  abbrev high : ℕ → ℕ
  high t = end_of_thread n threads t

  low-suc : (t : ℕ) → low (t + 1) ≡ low t + n / threads
  low-suc t = omega arith

  low-le : (t : ℕ) → t ≤ threads → low t ≤ n
  low-le t h = grind arith

  -- The ranges follow one another from 0 to `n`: no two threads share an entry, and none is left out.
  pub range_facts :
      (t : ℕ)
      → t < threads
      → (low t ≤ high t)
        × (high t ≤ n)
        × (suc t < threads → high t ≡ low (t + 1))
        × (suc t ≡ threads → high t ≡ n)
  range_facts t h = (
    ground (arith, low-le t (omega arith), low-suc t),
    ground (arith, low-le (t + 1) (omega arith)),
    λ l. ground arith,
    λ e. ground arith,
  )

  -- The ranges of `left` threads from `t` on are sorted, each for itself.
  abbrev AllSorted : ℕ → ℕ → Array → Type 0
  AllSorted zero t a = Unit
  AllSorted (suc left) t a = IsSorted (slice a (low t) (high t - low t)) × AllSorted left (t + 1) a

  AllSorted-keep :
      (left t : ℕ) (a b : Array)
      → t + left ≡ threads
      → ((p : ℕ) → low t ≤ p → a p ≡ b p)
      → AllSorted left t b
      → AllSorted left t a
  AllSorted-keep zero t a b e same s = tt
  AllSorted-keep (suc left) t a b e same s = (
    rw (slice-eq a b (low t) (high t - low t) (λ p l u. same p l)) s.0,
    AllSorted-keep left (t + 1) a b (omega arith) (λ p l. same p (omega (arith, low-suc t))) s.1,
  )

  abbrev whole : Array → List KeyIndex
  whole a = slice a 0 (n - 0)

  SortedOf-whole :
      (start end : ℕ) (keys r : Array)
      → start ≤ end
      → end ≤ n
      → SortedOf start end keys r
      → Perm (whole r) (whole keys)
  SortedOf-whole start end keys r h1 h2 s =
      rw
        (
          slice-split r 0 end n (omega arith) h2,
          slice-split keys 0 end n (omega arith) h2,
          slice-split r 0 start end (omega arith) h1,
          slice-split keys 0 start end (omega arith) h1,
          slice-eq r keys 0 (start - 0) (λ p l u. s.outside p (inl (omega arith))),
          slice-eq r keys end (n - end) (λ p l u. s.outside p (inr (omega arith))),
        )
        (Perm.append (Perm.append (Perm.refl _) s.perm) (Perm.refl _))

  -- What the threads from `t` on have done.
  record ThreadsDone (left t : ℕ) (keys r : Array) : Type 0 where
    sorted : AllSorted left t r
    perm : Perm (whole r) (whole keys)
    outside : (p : ℕ) → p < low t → r p ≡ keys p

  -- Later threads leave the range of an earlier one alone.
  range_kept :
      (left t : ℕ) (done r : Array) (temp : Array)
      → t + suc left ≡ threads
      → ThreadsDone left (t + 1) done (sort_threads left n threads (t + 1) done temp).0
      → (p : ℕ) → p < high t
      → (sort_threads left n threads (t + 1) done temp).0 p ≡ done p
  unfolding sort_threads
  range_kept zero t done r temp e d p h = refl
  range_kept (suc left) t done r temp e d p h =
      d.outside p (omega (arith, (range_facts t (omega arith)).2 (omega arith)))

  sort_threads-ThreadsDone :
      (left t : ℕ) (keys temp : Array)
      → t + left ≡ threads
      → ThreadsDone left t keys (sort_threads left n threads t keys temp).0
  unfolding sort_threads
  sort_threads-ThreadsDone zero t keys temp e = record {
    sorted = tt;
    perm = Perm.refl _;
    outside = λ p h. refl;
  }
  sort_threads-ThreadsDone (suc left) t keys temp e =
      let range = range_facts t (omega arith) in
      let done = merge_sort (n + 1) (low t) (high t) keys temp in
      let s : SortedOf (low t) (high t) keys done.0 =
        merge_sort-SortedOf (n + 1) (low t) (high t) keys temp range.0 (omega arith) in
      let d = sort_threads-ThreadsDone left (t + 1) done.0 done.1 (omega arith) in
      let kept = range_kept left t done.0 keys done.1 e d in
      record {
        sorted = (
          rw (slice-eq _ done.0 (low t) (high t - low t) (λ p l u. kept p (omega arith))) s.sorted,
          d.sorted,
        );
        perm = Perm.trans d.perm (SortedOf-whole (low t) (high t) keys done.0 range.0 range.1 s);
        outside = λ p h. kept p (omega arith) ∙ s.outside p (inl h);
      }

  -- So are the ranges of later threads after a merge of all before them.
  AllSorted-after :
      (left t : ℕ) (r keys : Array)
      → t + suc left ≡ threads
      → SortedOf 0 (high t) keys r
      → AllSorted left (t + 1) keys
      → AllSorted left (t + 1) r
  AllSorted-after zero t r keys e o a = tt
  AllSorted-after (suc left) t r keys e o a =
      AllSorted-keep (suc left) (t + 1) r keys (omega arith)
        (λ p l. o.outside p (inr (omega (arith, (range_facts t (omega arith)).2 (omega arith))))) a

  -- The final merges from thread `t` on, when the entries before `m` are sorted.
  merge_threads_lem :
      (left t m : ℕ) (keys temp : Array)
      → t + left ≡ threads
      → (t < threads → m ≡ low t)
      → (t ≡ threads → m ≡ n)
      → AllSorted left t keys
      → IsSorted (slice keys 0 (m - 0))
      → IsSorted (whole (merge_threads left n threads t keys temp).0)
        × Perm (whole (merge_threads left n threads t keys temp).0) (whole keys)
  unfolding merge_threads
  merge_threads_lem zero t m keys temp e f1 f2 a s =
      let last : m ≡ n = f2 (omega arith) in (rw last at s, Perm.refl _)
  merge_threads_lem (suc left) t m keys temp e f1 f2 a s =
      let range = range_facts t (omega arith) in
      let first : m ≡ low t = f1 (omega arith) in
      let done = merge 0 (low t) (high t) keys temp in
      let o : SortedOf 0 (high t) keys done.0 =
        merge-SortedOf 0 (low t) (high t) keys temp (omega arith) range.0 (rw first at s) a.0 in
      let rest =
        merge_threads_lem left (t + 1) (high t) done.0 done.1 (omega arith)
          (λ l. range.2 (omega arith)) (λ l. range.3 (omega arith))
          (AllSorted-after left t done.0 keys e o a.1) o.sorted in
      (rest.0, Perm.trans rest.1 (SortedOf-whole 0 (high t) keys done.0 (omega arith) range.1 o))

-- For any number of threads from 1 on, `main` sorts the `n` keys: the result is in the order of the keys
-- and a permutation of the input.
pub sort_records-IsSorted :
    (n threads : ℕ) (keys temp : Array)
    → 0 < threads
    → IsSorted (slice (sort_records n threads keys temp).0 0 n)
      × Perm (slice (sort_records n threads keys temp).0 0 n) (slice keys 0 n)
unfolding sort_records
sort_records-IsSorted n threads keys temp h =
    let d = sort_threads-ThreadsDone n threads threads 0 keys temp (omega arith) in
    let sorted = sort_threads threads n threads 0 keys temp in
    let m =
      merge_threads_lem n threads threads 0 0 sorted.0 sorted.1 (omega arith) (λ l. omega arith)
        (λ l. omega arith) d.sorted tt in
    let e : n - 0 ≡ n = omega arith in (rw e at m.0, rw e at (Perm.trans m.1 d.perm))
