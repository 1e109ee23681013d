-- ===== src/Proc/Wakeup.antt =====
-- Sleep, wakeup and kill: which processes change, and how.
use mathlib.Core.Path.{subst}
use cs537_sp23_operating_sys.Common.{
  ℕ, List, Option, [], ap, arith, get_elem?, get_elem?-set_self, length, none, ok, refl, set, some,
  suc, zero, ◌<◌, ◌∙◌, ◌∷◌, ◌≡◌, ◌≢◌, ==→eq, Bool-cases, inl, inr, negsuc, pos, ◌==◌, ◌⊎◌,
  get_elem?-set_ne, sym,
}
use cs537_sp23_operating_sys.Proc.{
  sleeping, runnable, Proc, Ptable, wake, wakeup1, wakeup, kill_in, kill, mark_killed, sleep_start,
  sleep_end,
}

abbrev pub map_proc : (Proc → Proc) → Option Proc → Option Proc
map_proc f none = none
map_proc f (some p) = some (f p)

-- `wakeup1` makes each process that sleeps on the channel runnable, and leaves all others as they are.
pub get_elem?-wakeup1 :
    (chan : ℕ) (ps : List Proc) (i : ℕ)
    → get_elem? (wakeup1 chan ps) i ≡ map_proc (wake chan) (get_elem? ps i)
unfolding wakeup1
get_elem?-wakeup1 chan [] i = refl
get_elem?-wakeup1 chan (p ∷ ps) zero = refl
get_elem?-wakeup1 chan (p ∷ ps) (suc i) = get_elem?-wakeup1 chan ps i

pub length-wakeup1 : (chan : ℕ) (ps : List Proc) → length (wakeup1 chan ps) ≡ length ps
unfolding wakeup1
length-wakeup1 chan [] = refl
length-wakeup1 chan (p ∷ ps) = ap suc (length-wakeup1 chan ps)

-- A process that `sleep` put to sleep on a channel, and that is still so in some later table, is runnable
-- after a `wakeup` of the channel in that table, with its channel still set; the rest of `sleep` then clears
-- the channel and touches no other slot.
pub wakeup-sleep_start :
    (me chan : ℕ) (t t1 later : Ptable) (p : Proc)
    → get_elem? t.procs me ≡ some p
    → sleep_start me chan t ≡ ok t1
    → get_elem? later.procs me ≡ get_elem? t1.procs me
    → (get_elem? (wakeup chan later).procs me ≡ some (record p { chan = chan; state = runnable }))
      × (t2 : Ptable) × (sleep_end me (wakeup chan later) ≡ ok t2)
      × (get_elem? t2.procs me ≡ some (record p { chan = 0; state = runnable }))
      × ((i : ℕ) → i ≢ me → get_elem? t2.procs i ≡ get_elem? (wakeup chan later).procs i)
unfolding sleep_start sleep_end wakeup
wakeup-sleep_start me chan t t1 later p there start still =
    let asleep : Proc = record p { chan = chan; state = sleeping } in
    let awake : Proc = record p { chan = chan; state = runnable } in
    let first : Ptable = record t { procs = set t.procs me asleep } in
    let begun : sleep_start me chan t ≡ ok first = rw (there, sleep_start) in
    let same : first ≡ t1 = cc (begun, start) in
    let slept : get_elem? later.procs me ≡ some asleep =
      still
      ∙ ap (λ (x : Ptable). get_elem? x.procs me) (sym same)
      ∙ get_elem?-set_self t.procs me asleep p there in
    let woken : get_elem? (wakeup1 chan later.procs) me ≡ some awake =
      get_elem?-wakeup1 chan later.procs me ∙ (ap (map_proc (wake chan)) slept ∙ ground arith) in
    (
      woken,
      record later { procs = set (wakeup1 chan later.procs) me (record awake { chan = 0 }) },
      rw (woken, sleep_end),
      get_elem?-set_self (wakeup1 chan later.procs) me (record awake { chan = 0 }) awake woken,
      λ i ne.
          get_elem?-set_ne (wakeup1 chan later.procs) me i (record awake { chan = 0 })
            (λ e. ne (sym e)),
    )

-- What the loop of `kill` returns: the table with the first match changed, or nothing without a match.
abbrev pub KillSpec : ℕ → List Proc → Option (List Proc) → Type 0
KillSpec pid ps none = (i : ℕ) (p : Proc) → get_elem? ps i ≡ some p → p.pid ≢ pid
KillSpec pid ps (some qs) =
    (k : ℕ) × (p : Proc) × (get_elem? ps k ≡ some p)
    × (p.pid ≡ pid)
    × (get_elem? qs k ≡ some (mark_killed p))
    × ((i : ℕ) → i ≢ k → get_elem? qs i ≡ get_elem? ps i)
    × ((i : ℕ) (q : Proc) → i < k → get_elem? ps i ≡ some q → q.pid ≢ pid)

abbrev put_front : Proc → Option (List Proc) → Option (List Proc)
put_front p none = none
put_front p (some qs) = some (p ∷ qs)

KillSpec-cons :
    (pid : ℕ) (p : Proc) (ps : List Proc) (r : Option (List Proc))
    → p.pid ≢ pid
    → KillSpec pid ps r
    → KillSpec pid (p ∷ ps) (put_front p r)
KillSpec-cons pid p ps none ne none_has = go
  where
    go : (i : ℕ) (q : Proc) → get_elem? (p ∷ ps) i ≡ some q → q.pid ≢ pid
    go zero q e = ground arith
    go (suc i) q e = none_has i q e
KillSpec-cons pid p ps (some qs) ne (k, q, there, own, changed, others, first) =
    (suc k, q, there, own, changed, kept, before)
  where
    kept : (i : ℕ) → i ≢ suc k → get_elem? (p ∷ qs) i ≡ get_elem? (p ∷ ps) i
    kept zero h = refl
    kept (suc i) h = others i (λ e. h (ap suc e))

    before : (i : ℕ) (x : Proc) → i < suc k → get_elem? (p ∷ ps) i ≡ some x → x.pid ≢ pid
    before zero x l e = ground arith
    before (suc i) x l e = first i x (omega arith) e

kill_in-KillSpec : (pid : ℕ) (ps : List Proc) → KillSpec pid ps (kill_in pid ps)
unfolding kill_in
kill_in-KillSpec pid [] = λ i p e. cc
kill_in-KillSpec pid (p ∷ ps) = elim (Bool-cases (p.pid == pid)) [
  | inl e ↦ rw e (zero, p, refl, ==→eq p.pid pid e, refl, kept, λ i q l. absurd (omega arith))
  | inr e ↦ rw e (
      subst (KillSpec pid (p ∷ ps)) (same (kill_in pid ps))
        (KillSpec-cons pid p ps (kill_in pid ps) (ground arith) (kill_in-KillSpec pid ps)))
]
  where
    kept : (i : ℕ) → i ≢ 0 → get_elem? (mark_killed p ∷ ps) i ≡ get_elem? (p ∷ ps) i
    kept zero h = absurd (h refl)
    kept (suc i) h = refl

    same :
        (r : Option (List Proc)) → put_front p r ≡ elim r [ none ↦ none | some qs ↦ some (p ∷ qs) ]
    same none = refl
    same (some qs) = refl

-- `kill` returns 0 exactly if some process has the pid; then the first such process is marked killed, and
-- runnable if it slept, and no other process changes. Otherwise it returns -1 and changes nothing.
pub kill-KillSpec :
    (pid : ℕ) (t : Ptable)
    → ((kill pid t ≡ (negsuc 0, t)) × KillSpec pid t.procs none)
      ⊎ ((qs : List Proc) × (kill pid t ≡ (pos 0, record t { procs = qs }))
          × KillSpec pid t.procs (some qs))
unfolding kill
kill-KillSpec pid t = go (kill_in pid t.procs) refl (kill_in-KillSpec pid t.procs)
  where
    go :
        (r : Option (List Proc))
        → kill_in pid t.procs ≡ r
        → KillSpec pid t.procs r
        → ((kill pid t ≡ (negsuc 0, t)) × KillSpec pid t.procs none)
          ⊎ ((qs : List Proc) × (kill pid t ≡ (pos 0, record t { procs = qs }))
              × KillSpec pid t.procs (some qs))
    go none e spec = inl (rw (e, kill), spec)
    go (some qs) e spec = inr (qs, rw (e, kill), spec)
