-- ===== src/Psort.antt =====
-- Parallel merge sort of records by their keys: P6_Parallel_Sort/psort.c.
pub mod MergeLists
pub mod Slices
pub mod Merge
pub mod Sort
pub mod Threads
mod Tests
use cs537_sp23_operating_sys.Common.{
  ℕ, Bool, false, if◌then◌else◌, leb, ltb, suc, true, update, zero, ◌%◌, ◌&&◌, ◌*◌, ◌+◌, ◌-◌, ◌/◌,
  ◌==◌, ◌^◌, rank,
}

-- `key` is the bit pattern of an `int`; `index` points to the record of 100 bytes.
pub record KeyIndex : Type 0 where
  pub key : ℕ
  pub index : ℕ

-- `keys` and `temp`.
abbrev pub Array : Type 0
Array = ℕ → KeyIndex

-- The local variables of `merge` with the two arrays.
pub record Cursor : Type 0 where
  pub i : ℕ
  pub j : ℕ
  pub k : ℕ
  pub keys : Array
  pub temp : Array

-- `temp[k++] = keys[i++]` and `temp[k++] = keys[j++]`.
abbrev pub take_left : Cursor → Cursor
take_left c = record c { i = c.i + 1; k = c.k + 1; temp = update c.temp c.k (c.keys c.i) }

abbrev pub take_right : Cursor → Cursor
take_right c = record c { j = c.j + 1; k = c.k + 1; temp = update c.temp c.k (c.keys c.j) }

abbrev pub key_le : KeyIndex → KeyIndex → Bool
key_le a b = leb (rank a.key) (rank b.key)

-- The first loop of `merge`.
both : ℕ → ℕ → ℕ → Cursor → Cursor
both zero mid end c = c
both (suc fuel) mid end c = elim (ltb c.i mid && ltb c.j end) [
  | true ↦
      both fuel mid end (if key_le (c.keys c.i) (c.keys c.j) then take_left c else take_right c)
  | false ↦ c
]

-- The second and the third, by the number of rounds left.
drain_left : ℕ → Cursor → Cursor
drain_left zero c = c
drain_left (suc n) c = drain_left n (take_left c)

drain_right : ℕ → Cursor → Cursor
drain_right zero c = c
drain_right (suc n) c = drain_right n (take_right c)

-- The last loop copies `temp` back, from index `i` on.
copy_back : ℕ → ℕ → Array → Array → Array
copy_back zero i keys temp = keys
copy_back (suc n) i keys temp = copy_back n (i + 1) (update keys i (temp i)) temp

-- The three loops that fill `temp`.
abbrev fill : ℕ → ℕ → ℕ → Array → Array → Cursor
fill start mid end keys temp =
    let c1 =
      both (end - start) mid end
        (record { i = start; j = mid; k = start; keys = keys; temp = temp }) in
    let c2 = drain_left (mid - c1.i) c1 in drain_right (end - c2.j) c2

-- `keys` and `temp` after the call.
pub merge : ℕ → ℕ → ℕ → Array → Array → Array × Array
unfolding both drain_left drain_right copy_back
merge start mid end keys temp =
    let c = fill start mid end keys temp in (copy_back (end - start) start c.keys c.temp, c.temp)

-- `fuel` bounds the depth of the recursion.
pub merge_sort : ℕ → ℕ → ℕ → Array → Array → Array × Array
merge_sort zero start end keys temp = (keys, temp)
merge_sort (suc fuel) start end keys temp = elim (ltb (end - start) 2) [
  | true ↦ (keys, temp)
  | false ↦
      let mid = start + (end - start) / 2 in
      let left = merge_sort fuel start mid keys temp in
      let right = merge_sort fuel mid end left.0 left.1 in merge start mid end right.0 right.1
]

-- `params[t].start` and `params[t].end` for `n` records and `threads` threads.
abbrev pub first_of_thread : ℕ → ℕ → ℕ → ℕ
first_of_thread n threads t = t * (n / threads)

abbrev pub end_of_thread : ℕ → ℕ → ℕ → ℕ
end_of_thread n threads t = if t == threads - 1 then n else (t + 1) * (n / threads)

-- The threads from `t` on, one after the other: they work on disjoint ranges of both arrays.
sort_threads : ℕ → ℕ → ℕ → ℕ → Array → Array → Array × Array
sort_threads zero n threads t keys temp = (keys, temp)
sort_threads (suc left) n threads t keys temp =
    let done =
      merge_sort (n + 1) (first_of_thread n threads t) (end_of_thread n threads t) keys temp in
    sort_threads left n threads (t + 1) done.0 done.1

-- The final merges, from thread `t` on.
merge_threads : ℕ → ℕ → ℕ → ℕ → Array → Array → Array × Array
merge_threads zero n threads t keys temp = (keys, temp)
merge_threads (suc left) n threads t keys temp =
    let done = merge 0 (first_of_thread n threads t) (end_of_thread n threads t) keys temp in
    merge_threads left n threads (t + 1) done.0 done.1

-- What `main` does with the arrays between reading the input and writing the output.
pub sort_records : ℕ → ℕ → Array → Array → Array × Array
unfolding sort_threads merge_threads
sort_records n threads keys temp =
    let sorted = sort_threads threads n threads 0 keys temp in
    merge_threads threads n threads 0 sorted.0 sorted.1
