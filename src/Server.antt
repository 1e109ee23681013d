-- ===== src/Server.antt =====
-- Request server over UDP: P8_Distributed_Systems/server.c and server_functions.c.
pub mod Table
pub mod Once
pub mod Retry
pub mod Store
pub mod Full
mod Tests
use cs537_sp23_operating_sys.Common.{
  ℕ, Bool, List, Option, [], get_elem?, get_or, if◌then◌else◌, length, ltb, minus_one, none, rank,
  replicate, set, some, ◌+◌, ◌==◌, ◌||◌, ◌∷◌,
}

-- An `int` is its 32-bit pattern.
pub record Entry : Type 0 where
  pub client_id : ℕ
  pub seq_num : ℕ
  pub done : ℕ
  pub result : ℕ

-- `client_request_t`
pub record Request : Type 0 where
  pub opcode : ℕ
  pub client_id : ℕ
  pub seq_number : ℕ
  pub time : ℕ
  pub key : ℕ
  pub value : ℕ

-- `server_feedback_t`
pub record Feedback : Type 0 where
  pub client_id : ℕ
  pub seq_number : ℕ
  pub ack : ℕ
  pub return_val : ℕ

pub record Server : Type 0 where
  pub table : List Entry
  pub datastore : List ℕ

abbrev pub numkeys : ℕ
numkeys = 1024

abbrev pub blank : Entry
blank = record { client_id = minus_one; seq_num = minus_one; done = 0; result = minus_one }

-- The tables at the start of `main`.
pub init : Server
init = record { table = replicate 100 blank; datastore = replicate numkeys 0 }

-- `key > NUMKEYS || key < 0`, on signed numbers.
abbrev pub bad_key : ℕ → Bool
bad_key key = ltb (rank numkeys) (rank key) || ltb (rank key) (rank 0)

-- `none` is an access outside the array.
pub get : ℕ → List ℕ → Option ℕ
get key store = if bad_key key then some minus_one else get_elem? store key

unfoldable pub put : ℕ → ℕ → List ℕ → Option (ℕ × List ℕ)
put key value store =
    if bad_key key
    then some (minus_one, store)
    else if ltb key (length store)
    then some (0, set store key value)
    else none

-- Where the search of the table ends.
pub data Found : Type 0 where
  existing : ℕ → Found
  fresh : ℕ → Found
  full : Found

unfoldable pub search : List Entry → ℕ → ℕ → Found
search [] id i = full
search (e ∷ es) id i =
    if e.client_id == minus_one
    then fresh i
    else if e.client_id == id
    then existing i
    else search es id (i + 1)

-- What the thread does next: it has ended, or it sleeps in `idle` with its index into the table.
pub data Thread : Type 0 where
  ended : Thread
  idling : ℕ → Thread

abbrev pub Served : Type 0
Served = Server × Option Feedback × Thread

-- `get` or `put`: the result and the new data.
unfoldable pub execute : Request → List ℕ → Option (ℕ × List ℕ)
unfolding get put
execute req store =
    if req.opcode == 1
    then elim (get req.key store) [ none ↦ none | some v ↦ some (v, store) ]
    else put req.key req.value store

-- The answer to a repeated request.
abbrev pub answer : Entry → Request → Feedback
answer e req = record {
  client_id = req.client_id;
  seq_number = req.seq_number;
  ack = if e.done == 0 then 1 else 0;
  return_val = if e.done == 0 then minus_one else e.result;
}

-- A new request clears `done` and sets the sequence number; the end of `get` or `put` sets the rest.
abbrev pub idle_entry : Entry → Request → Entry
idle_entry e req = record e { done = 0; seq_num = req.seq_number }

abbrev pub executed : Entry → Request → ℕ → Entry
executed e req v = record (idle_entry e req) { done = 1; result = v }

abbrev pub complete : List Entry → ℕ → Entry → Request → Option (ℕ × List ℕ) → Option Served
complete table i e req none = none
complete table i e req (some (v, store)) =
    some (record { table = set table i (executed e req v); datastore = store }, none, ended)

-- `serve` once it has its entry `i`, up to its end or to the sleep in `idle`.
unfoldable pub handle : ℕ → Request → Server → Option Served
handle i req s =
    let e = get_or s.table i blank in
    if ltb (rank req.seq_number) (rank e.seq_num)
    then some (s, none, ended)
    else if e.seq_num == req.seq_number
    then some (s, some (answer e req), ended)
    else if req.opcode == 0
    then some (record s { table = set s.table i (idle_entry e req) }, none, idling i)
    else complete s.table i e req (execute req s.datastore)

-- `none` is an access outside the table or the data: a full table leaves the index at -1.
unfoldable pub serve : Request → Server → Option Served
serve req s = elim (search s.table req.client_id 0) [
  | existing i ↦ handle i req s
  | fresh i ↦ handle i req (record s {
    table = set s.table i (record (get_or s.table i blank) { client_id = req.client_id });
  })
  | full ↦ none
]

-- The end of the sleep.
pub wake_up : ℕ → Server → Server
wake_up i s = record s { table = set s.table i (record (get_or s.table i blank) { done = 1 }) }
