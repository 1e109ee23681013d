-- ===== src/Bio.antt =====
-- The buffer cache, P5_XV6_CoW_Fork/kernel/bio.c: the ring of buffers in order of use. The data of a buffer and
-- the disk (iderw) are left out.
mod Links
mod Ring
mod Lookup
mod Once
mod Tests
use cs537_sp23_operating_sys.Common.{
  ℕ, update, Bool, Outcome, false, if◌then◌else◌, minus_one, not, ok, panic, suc, true, zero, ◌&&◌,
  ◌+◌, ◌==◌, ◌||◌,
}

-- `flags` by its bits.
pub record Buf : Type 0 where
  pub busy : Bool
  pub valid : Bool
  pub dirty : Bool
  pub dev : ℕ
  pub sector : ℕ

-- A pointer to a buffer is its index in `buf`; the pointer to `head` is `nbuf`.
pub record Bcache : Type 0 where
  pub buf : ℕ → Buf
  pub prev : ℕ → ℕ
  pub next : ℕ → ℕ

abbrev pub nbuf : ℕ
nbuf = 10

-- The buffer goes behind the head of the ring: four assignments, in their order.
pub link_front : ℕ → Bcache → Bcache
link_front b c =
    let next1 = update c.next b (c.next nbuf) in
    let prev1 = update c.prev b nbuf in
    record c { prev = update prev1 (next1 nbuf) b; next = update next1 nbuf b }

pub unlink : ℕ → Bcache → Bcache
unlink b c =
    let prev1 = update c.prev (c.next b) (c.prev b) in
    record c { prev = prev1; next = update c.next (prev1 b) (c.next b) }

abbrev set_buf : ℕ → Buf → Bcache → Bcache
set_buf b x c = record c { buf = update c.buf b x }

-- The loop of `binit` from buffer `b` on, by the buffers left.
pub binit_from : ℕ → ℕ → Bcache → Bcache
binit_from zero b c = c
binit_from (suc n) b c =
    binit_from n (b + 1) (link_front b (set_buf b (record (c.buf b) { dev = minus_one }) c))

pub binit : Bcache → Bcache
binit c =
    binit_from nbuf 0 (record c { prev = update c.prev nbuf nbuf; next = update c.next nbuf nbuf })

-- A walk along `link` to the first buffer that passes the test, with fuel: the buffer, or the head.
pub find : (ℕ → Bool) → (ℕ → ℕ) → ℕ → ℕ → ℕ
find test link zero b = b
find test link (suc n) b = elim ((b == nbuf) || test b) [
  | true ↦ b
  | false ↦ find test link n (link b)
]

-- What a round of `bget` comes to: a buffer, locked, or a sleep until a buffer is released.
pub data Bget : Type 0 where
  got : ℕ → Bcache → Bget
  sleeps : ℕ → Bget

abbrev pub holds : ℕ → ℕ → Bcache → ℕ → Bool
holds dev sector c b = ((c.buf b).dev == dev) && ((c.buf b).sector == sector)

abbrev pub is_idle : Bcache → ℕ → Bool
is_idle c b = not (c.buf b).busy

-- From `loop` to a return, a sleep or the panic.
pub bget : ℕ → ℕ → Bcache → Outcome Bget
bget dev sector c =
    let b = find (holds dev sector c) c.next (nbuf + 1) (c.next nbuf) in
    let f = find (is_idle c) c.prev (nbuf + 1) (c.prev nbuf) in
    if not (b == nbuf)
    then if (c.buf b).busy
      then ok (sleeps b)
      else ok (got b (set_buf b (record (c.buf b) { busy = true }) c))
    else if not (f == nbuf)
    then ok (
        got f (
          set_buf f
            (record { busy = true; valid = false; dirty = false; dev = dev; sector = sector }) c))
    else panic

-- The release of a buffer; the processes that sleep on it are woken.
pub brelse : ℕ → Bcache → Outcome Bcache
brelse b c =
    if not (c.buf b).busy
    then panic
    else let moved = link_front b (unlink b c) in
      ok (set_buf b (record (moved.buf b) { busy = false }) moved)
