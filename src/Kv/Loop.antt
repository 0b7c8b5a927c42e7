-- ===== src/Kv/Loop.antt =====
-- The loop of examples/src/kv_server.c over what its connections send, and the map from keys to values
-- that it is meant to be.
pub mod Book
pub mod Refines
use quiet_lwip.Prelude.{
  ℕ, zero, suc, List, [], ◌∷◌, ◌++◌, Option, none, some, Bool, true, false, ◌&&◌, ◌==◌, take,
  replicate, if◌then◌else◌, Outcome, done, blocked, fault, ◌>>=◌,
}
use quiet_lwip.Kv.{Library, key_value_init, empty_slot}
use quiet_lwip.Kv.Requests.{
  recv_ping_str, send_ping_str, send_add_str, get_notfound, Server, request, buf_len,
}
use quiet_lwip.Kv.Requests.Blocks.{padded, add_of, get_of}

-- The server with its connection, the results of `accept` to come, the connections that it has closed,
-- and what it has written to which connection, in order. A connection is what `accept` returned, none
-- for -1.
pub record Serving : Type 0 where
  pub server : Server
  pub conn_fd : Option ℕ
  pub waiting : List (Option ℕ)
  pub closed : List (Option ℕ)
  pub written : List (Option ℕ × List ℕ)

-- The server at its start, with its first connection.
abbrev pub start_serving : Option ℕ → List (Option ℕ) → Serving
start_serving fd waiting = record {
  server = record { kv = key_value_init; buf = replicate buf_len 0; temp = empty_slot };
  conn_fd = fd;
  waiting = waiting;
  closed = [];
  written = [];
}

-- An answer is written, if there is one.
abbrev pub answered : Option ℕ → List ℕ → List (Option ℕ × List ℕ)
answered fd [] = []
answered fd (b ∷ bs) = (fd, b ∷ bs) ∷ []

-- A round of the loop: what `read` returns, none where it fails. At the end of a connection the next one
-- is accepted.
unfoldable pub loop_round : Library → Option (List ℕ) → Serving → Outcome Serving
unfolding request
loop_round lib (some []) s = elim s.waiting [
  | [] ↦ blocked
  | fd ∷ fds ↦
      done (record s { conn_fd = fd; waiting = fds; closed = s.closed ++ (s.conn_fd ∷ []) })
]
loop_round lib r s = do
  q ← request lib r s.server
  done (record s { server = q.0; written = s.written ++ answered s.conn_fd q.1 })

-- The loop, over the results of its calls of `read`.
unfoldable pub loop : Library → List (Option (List ℕ)) → Serving → Outcome Serving
unfolding loop_round
loop lib [] s = done s
loop lib (r ∷ rs) s = do t ← loop_round lib r s; loop lib rs t

-- What a client does.
pub data Event : Type 0 where
  adds : List ℕ → List ℕ → Event  -- `ADD:key=value`
  gets : List ℕ → Event  -- `GET:key`
  pings : Event  -- `PING`
  leaves : Event  -- the connection ends

-- What `read` returns for it.
abbrev pub read_of : Event → Option (List ℕ)
read_of (adds key value) = some (add_of key value)
read_of (gets key) = some (get_of key)
read_of pings = some recv_ping_str
read_of leaves = some []

abbrev pub equal_keys : List ℕ → List ℕ → Bool
equal_keys [] [] = true
equal_keys (a ∷ xs) (b ∷ ys) = a == b && equal_keys xs ys
equal_keys _ _ = false

-- The specification of the store: what has been added, the latest first. A key is its 32 bytes, and of
-- a value 31 bytes count.
abbrev pub Book : Type 0
Book = List (List ℕ × List ℕ)

unfoldable pub lookup : List ℕ → Book → Option (List ℕ)
lookup key [] = none
lookup key (entry ∷ book) =
    let rest = lookup key book in if equal_keys key entry.0 then some entry.1 else rest

abbrev pub told : Option (List ℕ) → List ℕ
told none = get_notfound
told (some value) = value

-- The specification of the loop: the answers to the events, each with the connection that gets it.
unfoldable pub answers : List Event → Book → Option ℕ → List (Option ℕ) → List (Option ℕ × List ℕ)
answers [] book fd waiting = []
answers (adds key value ∷ es) book fd waiting =
    (fd, send_add_str) ∷ answers es ((padded key, take 31 (padded value)) ∷ book) fd waiting
answers (gets key ∷ es) book fd waiting =
    (fd, told (lookup (padded key) book)) ∷ answers es book fd waiting
answers (pings ∷ es) book fd waiting = (fd, send_ping_str) ∷ answers es book fd waiting
answers (leaves ∷ es) book fd [] = []
answers (leaves ∷ es) book fd (next ∷ waiting) = answers es book next waiting
