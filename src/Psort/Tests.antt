-- ===== src/Psort/Tests.antt =====
-- Runs of the sort, and its theorems at concrete arrays.
use mathlib.Core.List.{Perm}
use cs537_sp23_operating_sys.Common.{arith, if◌then◌else◌, ltb, ◌*◌, ◌-◌, ◌^◌}
use cs537_sp23_operating_sys.Psort.{Array, sort_records}
use cs537_sp23_operating_sys.Psort.MergeLists.{IsSorted}
use cs537_sp23_operating_sys.Psort.Slices.{slice}
use cs537_sp23_operating_sys.Psort.Threads.{sort_records-IsSorted}

-- Falling keys, the last two of them negative.
abbrev falling : Array
falling = λ p. record { key = if ltb p 3 then 9 - p else 2 ^ 32 - p; index = 100 * p }

abbrev nothing : Array
nothing = λ p. record { key = 0; index = 0 }

sort_records-IsSorted_example :
    IsSorted (slice (sort_records 5 2 falling nothing).0 0 5)
    × Perm (slice (sort_records 5 2 falling nothing).0 0 5) (slice falling 0 5)
sort_records-IsSorted_example = sort_records-IsSorted 5 2 falling nothing (omega arith)
