-- ===== src/Server/Once.antt =====
-- A request and its repetition: the entry of the client in the table.
use native.Mathlib.Decide.{dec_lt, ℕ_discrete}
use cs537_sp23_operating_sys.Common.{
  ℕ, All, List, get_or, if◌then◌else◌, inl, inr, minus_one, none, refl, some, ◌==◌, ◌≡◌, ◌≢◌, ◌⊎◌,
  Option, arith, get_or-set_self, rank, set, ◌≤◌, ◌<◌, eq→==, false, ltb, lt→ltb, ne→==, set-get_or,
  sym, ◌∙◌,
}
use cs537_sp23_operating_sys.Server.{
  Entry, Request, Feedback, Server, Thread, ended, idling, Found, existing, fresh, full, search,
  blank, execute, idle_entry, executed, complete, answer, handle, serve,
}
use cs537_sp23_operating_sys.Server.Table.{
  find, Packed, Slot, FoundSpec, search-FoundSpec, find-set, Packed-set, Slot-set, Slot-length,
}

-- The client has entry `j` of the table, which holds `e`.
pub record Holds (table : List Entry) (id j : ℕ) (e : Entry) : Type 0 where
  pub packed : Packed table
  pub slot : Slot table id j
  pub entry : get_or table j blank ≡ e
  pub mine : e.client_id ≡ id

-- A state in which the client has its entry, and otherwise that of `s`.
pub record Entered (s : Server) (id : ℕ) (s1 : Server) (j : ℕ) (e : Entry) : Type 0 where
  pub holds : Holds s1.table id j e
  pub store : s1.datastore ≡ s.datastore
  pub map : (id' : ℕ) → find s1.table id' ≡ (if id' == id then some e else find s.table id')
  pub from :
      ((find s.table id ≡ some e) × (s1 ≡ s))
      ⊎ ((find s.table id ≡ none) × (e ≡ record blank { client_id = id }))

enter_existing :
    (s : Server) (id j : ℕ)
    → Packed s.table
    → Slot s.table id j
    → find s.table id ≡ some (get_or s.table j blank)
    → (get_or s.table j blank).client_id ≡ id
    → Entered s id s j (get_or s.table j blank)
enter_existing s id j p b c g = record {
  holds = record { packed = p; slot = b; entry = refl; mine = g };
  store = refl;
  map = λ id'. ground arith;
  from = inl (c, refl);
}

-- The client takes the unused entry `j`.
abbrev claim : Server → ℕ → ℕ → Server
claim s id j = record s {
  table = set s.table j (record (get_or s.table j blank) { client_id = id });
}

enter_fresh :
    (s : Server) (id j : ℕ)
    → id ≢ minus_one
    → Packed s.table
    → Slot s.table id j
    → find s.table id ≡ none
    → get_or s.table j blank ≡ blank
    → Entered s id (claim s id j) j (record (get_or s.table j blank) { client_id = id })
enter_fresh s id j h p b c g = record {
  holds = record {
    packed = Packed-set s.table id j e h p b refl;
    slot = Slot-set s.table id j e b refl;
    entry = get_or-set_self s.table j e blank (Slot-length s.table id j b);
    mine = refl;
  };
  store = refl;
  map = λ id'. find-set s.table id j id' e h p b refl;
  from = inr (c, rw g);
}
  where
    e : Entry
    e = record (get_or s.table j blank) { client_id = id }

-- The search of `serve`: it fails on a full table without the client, and else leads to its entry.
pub serve_enters :
    (req : Request) (s : Server)
    → req.client_id ≢ minus_one
    → Packed s.table
    → (serve req s ≡ none)
        × (find s.table req.client_id ≡ none)
        × All (λ (d : Entry). d.client_id ≢ minus_one) s.table
      ⊎ ((s1 : Server) × (j : ℕ) × (e : Entry) × Entered s req.client_id s1 j e
          × (serve req s ≡ handle j req s1))
unfolding serve
serve_enters req s h p =
    go (search s.table req.client_id 0) refl (search-FoundSpec s.table req.client_id 0 h p)
  where
    go :
        (f : Found)
        → search s.table req.client_id 0 ≡ f
        → FoundSpec s.table req.client_id 0 f
        → (serve req s ≡ none)
            × (find s.table req.client_id ≡ none)
            × All (λ (d : Entry). d.client_id ≢ minus_one) s.table
          ⊎ ((s1 : Server) × (j : ℕ) × (e : Entry) × Entered s req.client_id s1 j e
              × (serve req s ≡ handle j req s1))
    go (existing i) e (j, a, b, c, g) =
        let i_eq : i ≡ j = omega arith in
        inr (
          s,
          j,
          get_or s.table j blank,
          enter_existing s req.client_id j p b c g,
          rw (e, serve, i_eq),
        )
    go (fresh i) e (j, a, b, c, g) =
        let i_eq : i ≡ j = omega arith in
        inr (_, j, _, enter_fresh s req.client_id j h p b c g, rw (e, serve, i_eq))
    go full e (a, b) = inl (rw (e, serve), a, b)

module _ (j : ℕ) (req : Request) (s : Server) where
  abbrev pub current : Entry
  current = get_or s.table j blank

  pub handle-old :
      rank req.seq_number < rank current.seq_num → handle j req s ≡ some (s, none, ended)
  unfolding handle
  handle-old h = rw (lt→ltb (rank req.seq_number) (rank current.seq_num) h)

  pub handle-repeated :
      current.seq_num ≡ req.seq_number → handle j req s ≡ some (s, some (answer current req), ended)
  unfolding handle
  handle-repeated h =
      let not_old : ltb (rank req.seq_number) (rank current.seq_num) ≡ false = ground arith in
      rw (not_old, eq→== current.seq_num req.seq_number h)

  handle-idle :
      rank current.seq_num ≤ rank req.seq_number
      → current.seq_num ≢ req.seq_number
      → req.opcode ≡ 0
      → handle j req s
        ≡ some (record s { table = set s.table j (idle_entry current req) }, none, idling j)
  unfolding handle
  handle-idle h ne op =
      let not_old : ltb (rank req.seq_number) (rank current.seq_num) ≡ false = ground arith in
      rw (not_old, ne→== current.seq_num req.seq_number ne, eq→== req.opcode 0 op)

  pub handle-execute :
      rank current.seq_num ≤ rank req.seq_number
      → current.seq_num ≢ req.seq_number
      → req.opcode ≢ 0
      → handle j req s ≡ complete s.table j current req (execute req s.datastore)
  unfolding handle
  handle-execute h ne op =
      let not_old : ltb (rank req.seq_number) (rank current.seq_num) ≡ false = ground arith in
      rw (not_old, ne→== current.seq_num req.seq_number ne, ne→== req.opcode 0 op)

  -- What a call that returns leaves in entry `j`: it is the same client's, with no lower sequence number.
  record Handled (s' : Server) : Type 0 where
    last : Entry
    table : s'.table ≡ set s.table j last
    mine : last.client_id ≡ current.client_id
    grows : rank current.seq_num ≤ rank last.seq_num

  Handled-same : (s' : Server) → s' ≡ s → Handled s'
  Handled-same s' e = record {
    last = current;
    table = rw e (sym (set-get_or s.table j blank));
    mine = refl;
    grows = omega arith;
  }

  Handled-executed :
      (x : Option (ℕ × List ℕ)) (s' : Server) (r : Option Feedback) (t : Thread)
      → rank current.seq_num ≤ rank req.seq_number
      → complete s.table j current req x ≡ some (s', r, t)
      → Handled s'
  Handled-executed none s' r t le h = cc
  Handled-executed (some (v, store)) s' r t le h = record {
    last = executed current req v;
    table = ground arith;
    mine = refl;
    grows = le;
  }

  handle-Handled :
      (s' : Server) (r : Option Feedback) (t : Thread)
      → handle j req s ≡ some (s', r, t)
      → Handled s'
  handle-Handled s' r t h = elim (dec_lt (rank req.seq_number) (rank current.seq_num)) [
    | yes old ↦ Handled-same s' (ground (arith, handle-old old))
    | no new ↦ elim (ℕ_discrete current.seq_num req.seq_number) [
      | yes same ↦ Handled-same s' (ground (arith, handle-repeated same))
      | no ne ↦ elim (ℕ_discrete req.opcode 0) [
        | yes op ↦ record {
          last = idle_entry current req;
          table = ground (arith, handle-idle (omega arith) ne op);
          mine = refl;
          grows = omega arith;
        }
        | no op ↦
            Handled-executed (execute req s.datastore) s' r t (omega arith)
              (sym (handle-execute (omega arith) ne op) ∙ h)
      ]
    ]
  ]

pub Holds-find :
    (table : List Entry) (id j : ℕ) (e : Entry)
    → id ≢ minus_one
    → Holds table id j e
    → find table id ≡ some e
Holds-find table id j e h holds =
    ground (
      arith,
      find-set table id j id e h holds.packed holds.slot holds.mine,
      set-get_or table j blank,
    )

pub Holds-set :
    (table : List Entry) (id j : ℕ) (e e' : Entry)
    → id ≢ minus_one
    → Holds table id j e
    → e'.client_id ≡ id
    → Holds (set table j e') id j e'
Holds-set table id j e e' h holds mine = record {
  packed = Packed-set table id j e' h holds.packed holds.slot mine;
  slot = Slot-set table id j e' holds.slot mine;
  entry = get_or-set_self table j e' blank (Slot-length table id j holds.slot);
  mine = mine;
}

-- A call of `serve` that returns leaves the client with an entry whose sequence number has not
-- fallen, and the entries of all other clients as they were.
pub record Kept (id : ℕ) (s s' : Server) : Type 0 where
  pub packed : Packed s'.table
  pub last : Entry
  pub has_entry : find s'.table id ≡ some last
  pub others : (id' : ℕ) → id' ≢ id → find s'.table id' ≡ find s.table id'
  pub grows : (e : Entry) → find s.table id ≡ some e → rank e.seq_num ≤ rank last.seq_num

Kept-after :
    (req : Request) (s s1 s' : Server) (j : ℕ) (e : Entry)
    → req.client_id ≢ minus_one
    → Entered s req.client_id s1 j e
    → Handled j req s1 s'
    → Kept req.client_id s s'
Kept-after req s s1 s' j e h en hd =
    let id = req.client_id in
    let mine : hd.last.client_id ≡ id = ground (arith, hd.mine, en.holds.entry, en.holds.mine) in
    let written = Holds-set s1.table id j e hd.last h en.holds mine in
    let lookups =
      λ (id' : ℕ). find-set s1.table id j id' hd.last h en.holds.packed en.holds.slot mine in
    record {
      packed = rw hd.table written.packed;
      last = hd.last;
      has_entry = rw hd.table (Holds-find (set s1.table j hd.last) id j hd.last h written);
      others = λ id' ne. ground (arith, hd.table, lookups id', en.map id');
      grows = λ e0 found. ground (arith, hd.grows, en.holds.entry, en.from);
    }

-- A call of `serve` that returns, on a packed table for a client other than -1: the table stays
-- packed, only the entry of the client changes, and its sequence number does not fall.
pub serve-Kept :
    (req : Request) (s s' : Server) (r : Option Feedback) (t : Thread)
    → req.client_id ≢ minus_one
    → Packed s.table
    → serve req s ≡ some (s', r, t)
    → Kept req.client_id s s'
serve-Kept req s s' r t h p eq = elim (serve_enters req s h p) [
  | inl (fails, b, c) ↦ absurd (ground arith)
  | inr (s1, j, e, en, same) ↦
      Kept-after req s s1 s' j e h en (handle-Handled j req s1 s' r t (sym same ∙ eq))
]
