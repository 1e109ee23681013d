-- ===== src/Pipe.antt =====
-- Pipes between processes: P5_XV6_CoW_Fork/kernel/pipe.c.
pub mod Fifo
pub mod History
mod Tests
use cs537_sp23_operating_sys.Common.{
  ℕ, Bool, List, [], false, if◌then◌else◌, not, suc, true, update, zero, ◌%◌, ◌&&◌, ◌+◌, ◌==◌, ◌^◌,
  ◌||◌, ◌∷◌,
}

-- `struct pipe` without its lock, which every routine below holds between two sleeps.
pub record Pipe : Type 0 where
  pub buf : ℕ → ℕ
  pub nread : ℕ
  pub nwrite : ℕ
  pub readopen : ℕ
  pub writeopen : ℕ

-- What `wakeup` and `sleep` are called with: the addresses of the two counters.
pub data Channel : Type 0 where
  readers writers : Channel

-- `pipealloc`, once it has its page.
abbrev pub opened : (ℕ → ℕ) → Pipe
opened junk = record { buf = junk; nread = 0; nwrite = 0; readopen = 1; writeopen = 1 }

-- The pipe, whom the call woke, and whether the page of the pipe is freed.
pub pipeclose : Pipe → ℕ → Pipe × Channel × Bool
pipeclose p writable =
    let p' = if writable == 0 then record p { readopen = 0 } else record p { writeopen = 0 } in
    (p', if writable == 0 then writers else readers, p'.readopen == 0 && p'.writeopen == 0)

-- Where a call of `pipewrite` stands when it gives up the lock. It returns `n` or -1, or sleeps on
-- `nwrite` with the bytes that are left, and goes on with these when it is woken.
pub data Writing : Type 0 where
  finished : Pipe → Writing
  failed : Pipe → Writing
  asleep : Pipe → List ℕ → Writing

-- A call that finishes or goes to sleep wakes the readers first.
pub wakes : Writing → List Channel
wakes (finished p) = readers ∷ []
wakes (failed p) = []
wakes (asleep p xs) = readers ∷ []

abbrev pub is_full : Pipe → Bool
is_full p = p.nwrite == (p.nread + 512) % 2 ^ 32

abbrev pub put : Pipe → ℕ → Pipe
put p x = record p { buf = update p.buf (p.nwrite % 512) x; nwrite = (p.nwrite + 1) % 2 ^ 32 }

-- `killed` is `proc->killed`. The list is the bytes that are left to write.
pub pipewrite : Bool → Pipe → List ℕ → Writing
pipewrite killed p [] = finished p
pipewrite killed p (x ∷ xs) = elim (is_full p) [
  | true ↦ if p.readopen == 0 || killed then failed p else asleep p (x ∷ xs)
  | false ↦ pipewrite killed (put p x) xs
]

-- Where a call of `piperead` stands: it returns the bytes or -1, or sleeps on `nread`.
pub data Reading : Type 0 where
  got : List ℕ → Pipe → Reading
  read_failed : Reading
  read_asleep : Reading

abbrev pub is_drained : Pipe → Bool
is_drained p = p.nread == p.nwrite

abbrev pub advance : Pipe → Pipe
advance p = record p { nread = (p.nread + 1) % 2 ^ 32 }

-- The copying loop, with room for `n` bytes left.
copy : Pipe → ℕ → List ℕ × Pipe
copy p zero = ([], p)
copy p (suc n) =
    let rest = copy (advance p) n in
    if is_drained p then ([], p) else (p.buf (p.nread % 512) ∷ rest.0, rest.1)

pub piperead : Bool → Pipe → ℕ → Reading
unfolding copy
piperead killed p n =
    if is_drained p && not (p.writeopen == 0)
    then if killed then read_failed else read_asleep
    else let r = copy p n in got r.0 r.1
