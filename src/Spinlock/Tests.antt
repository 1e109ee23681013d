-- ===== src/Spinlock/Tests.antt =====
-- Two processors that compete for the lock.
use cs537_sp23_operating_sys.Common.{ℕ, List, [], ok, true, ◌∷◌, ◌≡◌}
use cs537_sp23_operating_sys.Spinlock.{System, run, start}
use cs537_sp23_operating_sys.Spinlock.Exclusion.{critical, Masked, run-exclusion}

-- Processor 0 takes the lock while 1 spins, and gives it back; then 1 gets it.
abbrev schedule : List ℕ
schedule = 0 ∷ 1 ∷ 0 ∷ 0 ∷ 1 ∷ 1 ∷ 1 ∷ 0 ∷ 0 ∷ 0 ∷ 0 ∷ 1 ∷ 0 ∷ 1 ∷ 0 ∷ 1 ∷ []

run-exclusion_example :
    (s : System) × (run schedule (start (λ c. true)) ≡ ok s)
    × ((a b : ℕ) → critical (s.place a) ≡ true → critical (s.place b) ≡ true → a ≡ b)
    × ((c : ℕ) → Masked (s.place c) (s.cpus c))
run-exclusion_example = run-exclusion schedule (λ c. true)
