-- ===== src/Proxy/Socks/Tests.antt =====
-- The SOCKS server of examples/src/proxy_server.c with concrete clients.
use quiet_lwip.Prelude.{
  Ensures, ℕ, ◌+◌, ◌*◌, ◌/◌, ◌≤◌, ◌<◌, ◌≡◌, ◌++◌, refl, inr, List, [], ◌∷◌, Option, none, some,
  Bool, true, arith, length, replicate, length-replicate, done, zero, suc,
}
use quiet_lwip.Proxy.Session.{Address, Session}
use quiet_lwip.Proxy.Session.Memory.{AllBytes}
use quiet_lwip.Proxy.Socks.{serve, decimal, port_text, c_string, socks_request_connect_domainname}
use quiet_lwip.Proxy.Socks.Rounds.{Greets}
use quiet_lwip.Proxy.Crossbar.{Crossbar, IsSlots, items}
use quiet_lwip.Proxy.Server.{Link, MainThread, server_round, server_loop}
use quiet_lwip.Proxy.Server.Settled.{IsReady, needed}
use quiet_lwip.Proxy.Server.Clients.{Served, server_loop_lem}
use quiet_lwip.Proxy.Server.Handover.{
  HasRoom, Relayed, server_round_ipv4, server_round_domainname, server_round_refused,
}
use quiet_lwip.Proxy.Socks.Port.{port_text_lem}
use quiet_lwip.Proxy.Socks.Sockets.{Owns, request_domainname-Owns}

-- A client that does not authenticate, and the rest of what it sends.
abbrev client : List (Option (List ℕ)) → Session
client rest = record {
  buf = replicate 512 0;
  reads = some (5 ∷ 2 ∷ []) ∷ some (2 ∷ 0 ∷ []) ∷ rest;
  writes = some 2 ∷ some 10 ∷ [];
  sent = [];
  sockets = some 7 ∷ [];
  opened = [];
  connected = [];
}

abbrev loopback : Address
loopback = record { host = 127 ∷ 0 ∷ 0 ∷ 1 ∷ []; port = 0 ∷ 80 ∷ [] }

abbrev own : Address
own = record { host = 10 ∷ 0 ∷ 0 ∷ 2 ∷ []; port = 200 ∷ 7 ∷ [] }

abbrev accepts_all : Address → Bool
accepts_all a = true

-- Every name of two bytes has one address.
abbrev hosts : List ℕ → List ℕ → Option (List Address)
hosts (a ∷ b ∷ []) port = some (loopback ∷ [])
hosts _ port = none

abbrev own_name : ℕ → Option Address
own_name fd = some own

abbrev by_address : List (Option (List ℕ))
by_address = some (5 ∷ 1 ∷ 0 ∷ 1 ∷ []) ∷ some (127 ∷ 0 ∷ 0 ∷ 1 ∷ 0 ∷ 80 ∷ []) ∷ []

abbrev by_name : List (Option (List ℕ))
by_name = some (5 ∷ 1 ∷ 0 ∷ 3 ∷ []) ∷ some (2 ∷ []) ∷ some (b'h' ∷ b'i' ∷ 0 ∷ 80 ∷ []) ∷ []

zeros-AllBytes : (n : ℕ) → AllBytes (replicate n 0)
zeros-AllBytes zero = tt
zeros-AllBytes (suc n) = (omega arith, zeros-AllBytes n)

client-Greets : (rest : List (Option (List ℕ))) → Greets (client rest) (2 ∷ 0 ∷ []) rest []
client-Greets rest = record {
  size = length-replicate {A = ℕ} 512 0;
  few = omega arith;
  offered = refl;
  reads = refl;
  writes = refl;
}

own-AllBytes : (fd : ℕ) (a : Address) → own_name fd ≡ some a → AllBytes a.host × AllBytes a.port
own-AllBytes fd a e = ground arith

-- The main thread with empty crossbars.
abbrev empty : Crossbar Link
empty = record {
  for_reading = record { entries = replicate 256 (0, 0); used = 0 };
  for_writing = record { entries = replicate 256 ((0, 0), 0); used = 0 };
}

abbrev proxy : List (Option (List ℕ)) → MainThread
proxy rest = record {
  client_crossbar = empty;
  remote_crossbar = empty;
  closed = [];
  session = client rest;
}

empty-IsSlots : IsSlots {A = Link} (record { entries = replicate 256 (0, 0); used = 0 })
empty-IsSlots = (length-replicate {A = Link} 256 (0, 0), omega arith)

proxy-HasRoom : (rest : List (Option (List ℕ))) → HasRoom (proxy rest)
proxy-HasRoom rest = record {
  client = empty-IsSlots;
  client_room = omega arith;
  remote = empty-IsSlots;
  remote_room = omega arith;
}

server_round_ipv4_example :
    Ensures
      (server_round accepts_all hosts own_name (some 3) (proxy by_address))
      (Relayed accepts_all hosts own_name (proxy by_address) 3 7 loopback own)
server_round_ipv4_example =
    server_round_ipv4 accepts_all hosts own_name (proxy by_address) 3 (2 ∷ 0 ∷ []) [] [] [] 0 127 0
      0 1 0 80 7 own (proxy-HasRoom by_address) (client-Greets by_address) refl refl refl

server_round_domainname_example :
    Ensures
      (server_round accepts_all hosts own_name (some 3) (proxy by_name))
      (Relayed accepts_all hosts own_name (proxy by_name) 3 7 loopback own)
unfolding c_string
server_round_domainname_example =
    server_round_domainname accepts_all hosts own_name (proxy by_name) 3 (2 ∷ 0 ∷ [])
      (b'h' ∷ b'i' ∷ []) [] [] [] 0 0 80 7 loopback own [] (proxy-HasRoom by_name)
      (client-Greets by_name) (omega arith) refl refl refl refl

-- A client that asks for an IPv6 address.
abbrev by_ipv6 : List (Option (List ℕ))
by_ipv6 = some (5 ∷ 1 ∷ 0 ∷ 4 ∷ []) ∷ []

server_round_refused_example :
    (t : Session) × (last : List ℕ) × (server_round accepts_all hosts own_name
        (some 3)
        (proxy by_ipv6)
      ≡ done (record (proxy by_ipv6) { closed = 3 ∷ []; session = t }))
    × (t.sent ≡ ([] ++ (5 ∷ 0 ∷ [])) ++ (5 ∷ 1 ∷ 0 ∷ 1 ∷ 0 ∷ 0 ∷ 0 ∷ 0 ∷ last))
    × (length last ≡ 2)
    × (t.opened ≡ [])
    × (t.connected ≡ [])
server_round_refused_example =
    server_round_refused accepts_all hosts own_name (proxy by_ipv6) 3 (2 ∷ 0 ∷ []) [] [] 1 0 4
      (client-Greets by_ipv6) (inr (omega arith, omega arith))

request_domainname-Owns_example :
    Owns [] (socks_request_connect_domainname accepts_all hosts own_name (client by_name))
request_domainname-Owns_example =
    request_domainname-Owns accepts_all hosts own_name (client by_name)

-- A port of five digits loses its last one: 8080 is passed on whole, 50000 as 5000.
port_text_8080 : port_text 31 144 ≡ b'8' ∷ b'0' ∷ b'8' ∷ b'0' ∷ []
unfolding port_text decimal
port_text_8080 = refl

port_text_50000 : port_text 195 80 ≡ b'5' ∷ b'0' ∷ b'0' ∷ b'0' ∷ []
unfolding port_text decimal
port_text_50000 = refl

port_text_lem_example :
    ((195 * 256 + 80 < 10_000) → port_text 195 80 ≡ decimal 5 (195 * 256 + 80))
    × ((10_000 ≤ 195 * 256 + 80) → port_text 195 80 ≡ decimal 5 ((195 * 256 + 80) / 10))
port_text_lem_example = port_text_lem 195 80 (omega arith) (omega arith)

-- `accept` fails, then two clients come: one asks for a name, and the other one says nothing.
abbrev accepts : List (Option ℕ)
accepts = none ∷ some 3 ∷ some 4 ∷ []

abbrev two_clients : Session
two_clients = record (client []) {
  reads = some (5 ∷ 2 ∷ []) ∷ some (2 ∷ 0 ∷ []) ∷ (by_name ++ replicate 24 none);
  writes = some 2 ∷ some 10 ∷ replicate 24 none;
  sockets = some 7 ∷ replicate 24 none;
}

abbrev at_start : MainThread
at_start = record (proxy []) { session = two_clients }

hosts-few :
    (name port : List ℕ) (found : List Address) → hosts name port ≡ some found → length found ≤ 1
hosts-few [] port found e = absurd cc
hosts-few (a ∷ []) port found e = absurd cc
hosts-few (a ∷ b ∷ []) port found e = ground arith
hosts-few (a ∷ b ∷ c ∷ name) port found e = absurd cc

at_start-IsReady : IsReady 8 3 at_start
unfolding needed
at_start-IsReady = record {
  session = record {
    size = length-replicate {A = ℕ} 512 0;
    content = zeros-AllBytes 512;
    reads = omega arith;
  };
  stock = record { reads = omega arith; writes = omega arith; sockets = omega arith };
  client = empty-IsSlots;
  client_room = omega arith;
  remote = empty-IsSlots;
  remote_room = omega arith;
}

server_loop_lem_example :
    Ensures
      (server_loop accepts_all hosts own_name accepts at_start)
      (Served accepts_all hosts own_name own-AllBytes 1 hosts-few 0 (3 ∷ 4 ∷ []) at_start)
server_loop_lem_example =
    server_loop_lem accepts_all hosts own_name own-AllBytes 1 hosts-few accepts at_start
      at_start-IsReady

server_loop_runs :
    Ensures
      (server_loop accepts_all hosts own_name accepts at_start)
      λ q. (q.closed ≡ 4 ∷ []) × (items q.client_crossbar.for_reading ≡ (7, 3) ∷ [])
unfolding server_loop serve
server_loop_runs = (refl, refl)
