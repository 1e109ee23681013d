-- ===== src/Bio/Tests.antt =====
-- Runs of the cache from its start.
use cs537_sp23_operating_sys.Common.{
  ℕ, ok, [], arith, false, if◌then◌else◌, panic, ◌==◌, ◌∷◌, ◌≡◌, ◌⊎◌,
}
use cs537_sp23_operating_sys.Bio.{Bcache, binit, bget, brelse}
use cs537_sp23_operating_sys.Bio.Ring.{IsRing, binit-IsRing, brelse-IsRing}
use cs537_sp23_operating_sys.Bio.Once.{Round, bget-Round, binit-IsOnce, all_buffers}

abbrev nothing_yet : Bcache
nothing_yet = record {
  buf = λ b. record { busy = b == 7; valid = false; dirty = false; dev = 0; sector = 0 };
  prev = λ b. 0;
  next = λ b. 0;
}

brelse-IsRing_example :
    ((((binit nothing_yet).buf 7).busy ≡ false) × (brelse 7 (binit nothing_yet) ≡ panic))
    ⊎ ((c' : Bcache) × (brelse 7 (binit nothing_yet) ≡ ok c')
        × IsRing c' (7 ∷ 9 ∷ 8 ∷ 6 ∷ 5 ∷ 4 ∷ 3 ∷ 2 ∷ 1 ∷ 0 ∷ [])
        × ((x : ℕ)
            → c'.buf x ≡ (
                if 7 == x
                then record ((binit nothing_yet).buf 7) { busy = false }
                else (binit nothing_yet).buf x)))
brelse-IsRing_example =
    brelse-IsRing 7 (binit nothing_yet) (9 ∷ 8 ∷ []) (6 ∷ 5 ∷ 4 ∷ 3 ∷ 2 ∷ 1 ∷ 0 ∷ [])
      (binit-IsRing nothing_yet)

bget-Round_example : Round 1 5 all_buffers (binit nothing_yet) (bget 1 5 (binit nothing_yet))
bget-Round_example =
    bget-Round 1 5 all_buffers (binit nothing_yet) (binit-IsRing nothing_yet) (omega arith)
      (binit-IsOnce nothing_yet)
