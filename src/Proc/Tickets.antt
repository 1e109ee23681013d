-- ===== src/Proc/Tickets.antt =====
-- The system call that sets the tickets of a process.
use native.Mathlib.Decide.{dec_lt}
use cs537_sp23_operating_sys.Common.{
  ℕ, arith, false, inl, inr, ltb, lt→ltb, negsuc, pos, rank, refl, some, ◌*◌, ◌+◌, ◌<◌, ◌==◌, ◌^◌,
  ◌≡◌, ◌≢◌, ◌≤◌, ◌⊎◌, update, ◌/◌,
}
use cs537_sp23_operating_sys.Proc.{Ptable, settickets, sys_settickets, max_stride}

-- The tickets of the current entry are `n` and its stride is 2 ^ 14 / n; all else is as before.
pub record Ticketed (n : ℕ) (t t' : Ptable) : Type 0 where
  pub tickets : t'.pstat.tickets t.curr_pstat_idx ≡ n
  pub below : t'.pstat.strides t.curr_pstat_idx * n ≤ 2 ^ 14
  pub above : 2 ^ 14 < (t'.pstat.strides t.curr_pstat_idx + 1) * n
  pub others :
      (i : ℕ)
      → i ≢ t.curr_pstat_idx
      → (t'.pstat.tickets i ≡ t.pstat.tickets i) × (t'.pstat.strides i ≡ t.pstat.strides i)
  pub procs : t'.procs ≡ t.procs

abbrev with_tickets : ℕ → Ptable → Ptable
with_tickets n t = record t {
  pstat = record (t.pstat) {
    tickets = update t.pstat.tickets t.curr_pstat_idx n;
    strides = update t.pstat.strides t.curr_pstat_idx (max_stride / n);
  };
}

-- `sys_settickets` never divides by zero: it refuses an `int` that is not positive and changes nothing, and
-- takes every positive one, with the stride rounded down.
pub sys_settickets_lem :
    (n : ℕ) (t : Ptable)
    → n < 2 ^ 32
    → (((n ≡ 0) ⊎ (2 ^ 31 ≤ n)) × (sys_settickets (some n) t ≡ some (negsuc 0, t)))
      ⊎ ((0 < n)
          × (n < 2 ^ 31)
          × (t' : Ptable) × (sys_settickets (some n) t ≡ some (pos 0, t'))
          × Ticketed n t t')
unfolding sys_settickets settickets
sys_settickets_lem n t h = elim (dec_lt (rank n) (rank 1)) [
  | yes small ↦ inl (ground arith, rw (lt→ltb (rank n) (rank 1) small) refl)
  | no large ↦
      let taken : ltb (rank n) (rank 1) ≡ false = ground arith in
      let n_pos : 0 < n = ground arith in
      let n_not : (n == 0) ≡ false = ground arith in
      inr (
        n_pos,
        ground arith,
        with_tickets n t,
        rw (taken, n_not, sys_settickets, settickets) refl,
        record {
          tickets = ground arith;
          below = ground arith;
          above = ground arith;
          others = λ i ne. (ground arith, ground arith);
          procs = refl;
        },
      )
]
