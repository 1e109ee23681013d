-- ===== src/Server/Full.antt =====
-- A table with no unused entry.
use cs537_sp23_operating_sys.Common.{none, All, minus_one, ◌≡◌, ◌≢◌}
use cs537_sp23_operating_sys.Server.{Entry, Request, Server, serve}
use cs537_sp23_operating_sys.Server.Table.{search-full, find}

-- The request of a client that has no entry in a table without an unused one makes `serve` step outside
-- the table.
pub serve-full :
    (req : Request) (s : Server)
    → All (λ (d : Entry). d.client_id ≢ minus_one) s.table
    → find s.table req.client_id ≡ none
    → serve req s ≡ none
unfolding serve
serve-full req s used h = rw (search-full s.table req.client_id 0 used h, serve)
