-- ===== src/Pipe/Tests.antt =====
-- Runs of a pipe whose counters are about to wrap, and the theorems there.
use cs537_sp23_operating_sys.Common.{List, [], arith, false, refl, ◌-◌, ◌^◌, ◌∷◌, ◌≡◌}
use cs537_sp23_operating_sys.Pipe.{Pipe, opened, piperead, got}
use cs537_sp23_operating_sys.Pipe.Fifo.{IsValid}
use cs537_sp23_operating_sys.Pipe.History.{
  Event, write, read, close, Run, run, IsFifo, opened-IsFifo, run-IsFifo,
}

-- Two bytes, 0 and 0, on both sides of the wrap.
abbrev wrapping : Pipe
wrapping = record { buf = λ i. 0; nread = 2 ^ 32 - 1; nwrite = 1; readopen = 1; writeopen = 1 }

wrapping-IsValid : IsValid wrapping
wrapping-IsValid = omega arith

-- A read of one byte across the wrap leaves the other at counter 0.
read_wraps : piperead false wrapping 1 ≡ got (0 ∷ []) (record wrapping { nread = 0 })
unfolding piperead
read_wraps = refl

abbrev fresh : Run
fresh = record { pipe = opened (λ i. 9); sent = []; received = [] }

abbrev script : List Event
script = write false (1 ∷ 2 ∷ 3 ∷ []) ∷ read false 2 ∷ close 1 ∷ read false 5 ∷ []

run-IsFifo_example : IsFifo (run fresh script)
run-IsFifo_example = run-IsFifo fresh script (opened-IsFifo (λ i. 9))
