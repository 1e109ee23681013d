-- ===== src/Server/Tests.antt =====
-- Runs of the server, and its theorems at concrete tables.
use cs537_sp23_operating_sys.Common.{
  ℕ, List, arith, none, some, [], length, length-replicate, refl, replicate, ◌↔◌, ◌∷◌, ◌≡◌, ◌≢◌,
}
use cs537_sp23_operating_sys.Server.{
  search, handle, execute, get, put, Entry, Request, Server, ended, serve, blank, execute, put, get,
}
use cs537_sp23_operating_sys.Server.Table.{find, Packed}
use cs537_sp23_operating_sys.Server.Retry.{retry-answer, Others}
use cs537_sp23_operating_sys.Server.Store.{get-none}

abbrev put_request : Request
put_request = record { opcode = 2; client_id = 7; seq_number = 1; time = 0; key = 0; value = 9 }

abbrev old_request : Request
old_request = record put_request { seq_number = 0 }

-- One unused entry and one value.
abbrev small : Server
small = record { table = blank ∷ []; datastore = 5 ∷ [] }

abbrev done_entry : Entry
done_entry = record { client_id = 7; seq_num = 1; done = 1; result = 0 }

abbrev served_once : Server
served_once = record { table = done_entry ∷ []; datastore = 9 ∷ [] }

small-Packed : Packed (blank ∷ [])
small-Packed = ((λ e. (refl, tt)), tt)

done-Packed : Packed (done_entry ∷ [])
done-Packed = ((λ e. absurd (ground arith)), tt)

first_served : serve put_request small ≡ some (served_once, none, ended)
unfolding serve search handle execute put
first_served = refl

works : serve put_request small ≢ none
works e = cc (first_served, e)

finds_done : find (done_entry ∷ []) 7 ≡ some done_entry
unfolding find
finds_done = refl

finds_none : find (blank ∷ []) 7 ≡ none
unfolding find
finds_none = refl

finds_none_full : find (done_entry ∷ []) 8 ≡ none
unfolding find
finds_none_full = refl

executes : execute put_request (5 ∷ []) ≡ some (0, 9 ∷ [])
unfolding execute put
executes = refl

retry-answer_example :
    (s1 : Server) × (serve put_request small ≡ some (s1, none, ended))
    × (s1.datastore ≡ 9 ∷ [])
    × ((s2 : Server)
        → Others 7 s1 s2
        → serve put_request s2
          ≡ some
              (s2, some (record { client_id = 7; seq_number = 1; ack = 0; return_val = 0 }), ended))
retry-answer_example =
    retry-answer put_request small 0 (9 ∷ []) (omega arith) small-Packed works
      (ground (arith, finds_none)) (omega arith) executes

zeros : List ℕ
zeros = replicate 1024 0

length-zeros : length zeros ≡ 1024
unfolding zeros
length-zeros = let z : ℕ = 0 in length-replicate 1024 z

get-none_example :
    let key : ℕ = 1024 in
    (get 1024 zeros ≡ none ↔ key ≡ 1024) × (put 1024 3 zeros ≡ none ↔ key ≡ 1024)
get-none_example = get-none 1024 3 zeros (omega arith) length-zeros
