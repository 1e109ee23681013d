-- ===== src/Pipe/History.antt =====
-- Every run of a pipe, with any number of writers and readers whose calls sleep and go on.
use cs537_sp23_operating_sys.Common.{
  ℕ, Bool, List, [], append_assoc, arith, refl, sym, take, take-append-drop, ◌++◌, ◌∷◌, ◌≡◌, ap,
  ◌∙◌,
}
use cs537_sp23_operating_sys.Pipe.{
  Pipe, opened, pipeclose, pipewrite, Writing, finished, failed, asleep, piperead, Reading, got,
  read_failed, read_asleep,
}
use cs537_sp23_operating_sys.Pipe.Fifo.{
  IsValid, contents, room, pipewrite-Written, Written, piperead_lem, ReadSpec,
}

-- What a process does with the pipe: it writes, or goes on writing, these bytes; it reads; it closes
-- its end.
pub data Event : Type 0 where
  write : Bool → List ℕ → Event
  read : Bool → ℕ → Event
  close : ℕ → Event

-- The pipe, the bytes that writers have put in so far, and those that readers were given.
pub record Run : Type 0 where
  pub pipe : Pipe
  pub sent : List ℕ
  pub received : List ℕ

abbrev pub after_write : Writing → Pipe
after_write (finished p) = p
after_write (failed p) = p
after_write (asleep p rest) = p

abbrev pub after_read : Pipe → Reading → Pipe
after_read p (got xs p') = p'
after_read p read_failed = p
after_read p read_asleep = p

abbrev pub bytes_read : Reading → List ℕ
bytes_read (got xs p') = xs
bytes_read read_failed = []
bytes_read read_asleep = []

-- A call of `pipewrite` puts in as many of its bytes as there is room for.
pub step : Run → Event → Run
step r (write killed xs) = record {
  pipe = after_write (pipewrite killed r.pipe xs);
  sent = r.sent ++ take (room r.pipe) xs;
  received = r.received;
}
step r (read killed n) = record {
  pipe = after_read r.pipe (piperead killed r.pipe n);
  sent = r.sent;
  received = r.received ++ bytes_read (piperead killed r.pipe n);
}
step r (close writable) = record r { pipe = (pipeclose r.pipe writable).0 }

pub run : Run → List Event → Run
run r [] = r
run r (e ∷ es) = run (step r e) es

-- No byte is lost, added or put out of order.
pub record IsFifo (r : Run) : Type 0 where
  pub valid : IsValid r.pipe
  pub split : r.sent ≡ r.received ++ contents r.pipe

after_write_lem :
    (killed : Bool) (p : Pipe) (xs : List ℕ) (w : Writing)
    → Written killed p xs w
    → (contents (after_write w) ≡ contents p ++ take (room p) xs) × IsValid (after_write w)
after_write_lem killed p xs (finished p') w = (w.1, w.2)
after_write_lem killed p xs (failed p') w = (w.2, w.3)
after_write_lem killed p xs (asleep p' rest) w = (w.3, w.5)

after_read_lem :
    (killed : Bool) (p : Pipe) (n : ℕ) (r : Reading)
    → IsValid p
    → ReadSpec killed p n r
    → (contents p ≡ bytes_read r ++ contents (after_read p r)) × IsValid (after_read p r)
after_read_lem killed p n (got xs p') valid s =
    (rw (s.1, s.2) (sym (take-append-drop n (contents p))), s.3)
after_read_lem killed p n read_failed valid s = (refl, valid)
after_read_lem killed p n read_asleep valid s = (refl, valid)

step-IsFifo : (r : Run) (e : Event) → IsFifo r → IsFifo (step r e)
unfolding step pipeclose
step-IsFifo r (write killed xs) h =
    let w = after_write_lem killed r.pipe xs _ (pipewrite-Written killed r.pipe xs h.valid) in
    record {
      valid = w.1;
      split = rw (h.split, w.0) (append_assoc r.received (contents r.pipe) (take (room r.pipe) xs));
    }
step-IsFifo r (read killed n) h =
    let w = after_read_lem killed r.pipe n _ h.valid (piperead_lem killed r.pipe n h.valid) in
    record {
      valid = w.1;
      split =
          h.split
          ∙ (ap (λ (ys : List ℕ). r.received ++ ys) w.0
              ∙ sym (
                  append_assoc r.received (bytes_read (piperead killed r.pipe n))
                    (contents (after_read r.pipe (piperead killed r.pipe n)))));
    }
step-IsFifo r (close writable) h = ground arith

-- From a run in which this holds, after any sequence of writes, reads and closes, interrupted or
-- not, the bytes put in are those given out followed by those in the pipe, in order, and the pipe
-- is consistent.
pub run-IsFifo : (r : Run) (es : List Event) → IsFifo r → IsFifo (run r es)
unfolding run
run-IsFifo r [] h = h
run-IsFifo r (e ∷ es) h = run-IsFifo (step r e) es (step-IsFifo r e h)

-- A new pipe holds nothing.
pub opened-IsFifo :
    (junk : ℕ → ℕ) → IsFifo (record { pipe = opened junk; sent = []; received = [] })
opened-IsFifo junk = ground arith
