-- ===== src/Server/Retry.antt =====
-- A client that repeats its request, while other clients go on.
use cs537_sp23_operating_sys.Common.{
  ℕ, List, Option, arith, get_or, inl, inr, minus_one, none, rank, refl, set, some, sym, ◌<◌, ◌∙◌,
  ◌≡◌, ◌≢◌,
}
use cs537_sp23_operating_sys.Server.{
  Entry, Request, Feedback, Server, Thread, ended, blank, execute, executed, answer, serve, wake_up,
}
use cs537_sp23_operating_sys.Server.Table.{find, Packed, find-set, Packed-set}
use cs537_sp23_operating_sys.Server.Once.{
  Holds, Holds-find, Holds-set, serve_enters, handle-repeated, handle-old, handle-execute,
  serve-Kept,
}

-- In a packed table, a request of a client other than -1 with the sequence number of the client's
-- entry is answered from the entry, and changes nothing.
pub serve-repeated :
    (req : Request) (s : Server) (e : Entry)
    → req.client_id ≢ minus_one
    → Packed s.table
    → find s.table req.client_id ≡ some e
    → e.seq_num ≡ req.seq_number
    → serve req s ≡ some (s, some (answer e req), ended)
serve-repeated req s e h p found same = elim (serve_enters req s h p) [
  | inl (fails, b, c) ↦ absurd (ground arith)
  | inr (s1, j, e1, en, eq) ↦
      let e_eq : e1 ≡ e = ground (arith, en.from) in
      let s_eq : s1 ≡ s = ground (arith, en.from) in
      ground (arith, en.holds.entry, handle-repeated j req s1 (ground (arith, en.holds.entry)))
]

-- In a packed table, a request of a client other than -1 that is older than the client's entry gets
-- no answer, and changes nothing.
pub serve-old :
    (req : Request) (s : Server) (e : Entry)
    → req.client_id ≢ minus_one
    → Packed s.table
    → find s.table req.client_id ≡ some e
    → rank req.seq_number < rank e.seq_num
    → serve req s ≡ some (s, none, ended)
serve-old req s e h p found old = elim (serve_enters req s h p) [
  | inl (fails, b, c) ↦ absurd (ground arith)
  | inr (s1, j, e1, en, eq) ↦
      let e_eq : e1 ≡ e = ground (arith, en.from) in
      let s_eq : s1 ≡ s = ground (arith, en.from) in
      ground (arith, en.holds.entry, handle-old j req s1 (ground (arith, en.holds.entry)))
]

-- The sequence number that a request is compared with; an unused entry has -1.
abbrev pub stored_seq : Option Entry → ℕ
stored_seq none = minus_one
stored_seq (some e) = e.seq_num

-- What a new `get` or `put` has done.
pub record ExecutedOnce (req : Request) (s s1 : Server) (v : ℕ) (store : List ℕ) : Type 0 where
  pub no_answer : serve req s ≡ some (s1, none, ended)
  pub stored : s1.datastore ≡ store
  pub packed : Packed s1.table
  pub entry : Entry
  pub has_entry : find s1.table req.client_id ≡ some entry
  pub recorded : (entry.seq_num ≡ req.seq_number) × (entry.done ≡ 1) × (entry.result ≡ v)

serve-executes :
    (req : Request) (s : Server) (v : ℕ) (store : List ℕ)
    → req.client_id ≢ minus_one
    → Packed s.table
    → serve req s ≢ none
    → rank (stored_seq (find s.table req.client_id)) < rank req.seq_number
    → req.opcode ≢ 0
    → execute req s.datastore ≡ some (v, store)
    → (s1 : Server) × ExecutedOnce req s s1 v store
serve-executes req s v store h p works new op run = elim (serve_enters req s h p) [
  | inl (fails, b, c) ↦ absurd (works fails)
  | inr (s1, j, e, en, eq) ↦
      let seq : rank e.seq_num < rank req.seq_number = ground (arith, en.from) in
      let done : Entry = executed e req v in
      let written = Holds-set s1.table req.client_id j e done h en.holds en.holds.mine in
      (
        record { table = set s1.table j done; datastore = store },
        record {
          no_answer = ground (
            arith,
            en.holds.entry,
            en.store,
            handle-execute j req s1 (ground (arith, en.holds.entry))
                (ground (arith, en.holds.entry)) op,
          );
          stored = refl;
          packed = written.packed;
          entry = done;
          has_entry = Holds-find (set s1.table j done) req.client_id j done h written;
          recorded = (refl, refl, refl);
        },
      )
]

-- A step of the server that is not for the client `id`: another client's request, or the end of another
-- client's idling.
pub data Other (id : ℕ) (s : Server) : Server → Type 0 where
  served :
      {s' : Server} (req : Request) (r : Option Feedback) (t : Thread)
      → req.client_id ≢ id
      → req.client_id ≢ minus_one
      → serve req s ≡ some (s', r, t)
      → Other id s s'
  woken :
      (i other : ℕ) (e : Entry)
      → other ≢ id
      → other ≢ minus_one
      → Holds s.table other i e
      → Other id s (wake_up i s)

pub data Others (id : ℕ) (s : Server) : Server → Type 0 where
  here : Others id s s
  next : {s1 s2 : Server} → Others id s s1 → Other id s1 s2 → Others id s s2

wake_up-find :
    (id i other : ℕ) (e : Entry) (s : Server)
    → other ≢ id
    → other ≢ minus_one
    → Holds s.table other i e
    → (find (wake_up i s).table id ≡ find s.table id) × Packed (wake_up i s).table
unfolding wake_up
wake_up-find id i other e s ne h holds =
    let woke : Entry = record (get_or s.table i blank) { done = 1 } in
    let mine : woke.client_id ≡ other = ground (arith, holds.entry, holds.mine) in
    (
      ground (arith, find-set s.table other i id woke h holds.packed holds.slot mine),
      Packed-set s.table other i woke h holds.packed holds.slot mine,
    )

Others-find :
    {id : ℕ} {s s' : Server}
    → Packed s.table
    → Others id s s'
    → (find s'.table id ≡ find s.table id) × Packed s'.table
Others-find p here = (refl, p)
Others-find {id} p (next {s1} {s2} steps (served req r t ne h eq)) =
    let before = Others-find p steps in
    let kept = serve-Kept req s1 s2 r t h before.1 eq in
    (kept.others id (λ e. ne (sym e)) ∙ before.0, kept.packed)
Others-find {id} p (next {s1} steps (woken i other e ne h holds)) =
    let before = Others-find p steps in
    let kept = wake_up-find id i other e s1 ne h holds in (kept.0 ∙ before.0, kept.1)

-- In a packed table, a `get` or `put` of a client other than -1 that is newer than the client's
-- entry, finds a place in the table and stays inside the data is executed and gets no answer; when
-- the client repeats it after any steps for other clients, the answer carries the result of that
-- one execution, and the repetition changes nothing.
pub retry-answer :
    (req : Request) (s : Server) (v : ℕ) (store : List ℕ)
    → req.client_id ≢ minus_one
    → Packed s.table
    → serve req s ≢ none
    → rank (stored_seq (find s.table req.client_id)) < rank req.seq_number
    → req.opcode ≢ 0
    → execute req s.datastore ≡ some (v, store)
    → (s1 : Server) × (serve req s ≡ some (s1, none, ended))
      × (s1.datastore ≡ store)
      × ((s2 : Server)
          → Others req.client_id s1 s2
          → serve req s2
            ≡ some (
              s2,
              some (record {
                client_id = req.client_id;
                seq_number = req.seq_number;
                ack = 0;
                return_val = v;
              }),
              ended,
            ))
retry-answer req s v store h p works new op run =
    let (s1, x) = serve-executes req s v store h p works new op run in
    (
      s1,
      x.no_answer,
      x.stored,
      λ s2 steps.
          let after = Others-find x.packed steps in
          let again =
            serve-repeated req s2 x.entry h after.1 (after.0 ∙ x.has_entry) x.recorded.0 in
          ground (arith, again, x.recorded),
    )
