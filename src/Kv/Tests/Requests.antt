-- ===== src/Kv/Tests/Requests.antt =====
-- Requests to examples/src/kv_server.c, with the C library of the tests of the store.
use quiet_lwip.Prelude.{ℕ, map, ◌≡◌, refl, List, [], ◌∷◌, replicate, some, Ensures, arith, blocked}
use quiet_lwip.Kv.{key_value_init, empty_slot, memcmp}
use quiet_lwip.Kv.Store.{key_value_init-IsValid}
use quiet_lwip.Kv.Tests.{simple_library, simple-Documented}
use quiet_lwip.Kv.Requests.{by_command, Server, request, send_ping_str, send_add_str, get_notfound}
use quiet_lwip.Kv.Requests.Blocks.{add_of, get_of}
use quiet_lwip.Kv.Client.{send_request, client_run}
use quiet_lwip.Kv.Client.Session.{client_get-client_add}
use quiet_lwip.Kv.Loop.{
  loop_round, Event, adds, gets, pings, leaves, read_of, start_serving, loop, answers, lookup,
}
use quiet_lwip.Kv.Loop.Refines.{shown, loop_refines}

abbrev server : Server
server = record { kv = key_value_init; buf = replicate 4096 0; temp = empty_slot }

-- "a", "b"
abbrev a : List ℕ
a = 97 ∷ []

abbrev b : List ℕ
b = 98 ∷ []

abbrev long_value : List ℕ
long_value = replicate 33 98

-- A client pings, adds a value and leaves; the next one asks for it and for another key.
abbrev events : List Event
events = pings ∷ adds a b ∷ leaves ∷ gets a ∷ gets b ∷ []

events_lem :
    answers events [] (some 3) (some 4 ∷ [])
    ≡ (some 3, send_ping_str)
      ∷ (some 3, send_add_str)
      ∷ (some 4, 98 ∷ replicate 30 0)
      ∷ (some 4, get_notfound)
      ∷ []
unfolding answers lookup
events_lem = refl

loop_refines_example :
    Ensures
      (loop simple_library (map read_of events) (start_serving (some 3) (some 4 ∷ [])))
      (λ t. shown t.written ≡ answers events [] (some 3) (some 4 ∷ []))
loop_refines_example =
    loop_refines simple_library simple-Documented events (some 3) (some 4 ∷ [])
      (
        tt,
        (
          ((omega arith, tt), omega arith, omega arith, omega arith),
          (tt, (omega arith, (omega arith, tt))),
        ),
      )
      (omega arith)

client_get-client_add_example :
    Ensures
      (client_run simple_library (add_of a b) (start_serving (some 3) (some 4 ∷ some 5 ∷ [])))
      λ r. (r.1 ≡ send_add_str) × Ensures (client_run simple_library (get_of a) r.0) λ q. q.1 ≡ b
unfolding key_value_init
client_get-client_add_example =
    client_get-client_add simple_library simple-Documented
      (start_serving (some 3) (some 4 ∷ some 5 ∷ [])) a b key_value_init-IsValid (omega arith, tt)
      (omega arith) (omega arith) (omega arith) (omega arith, tt) (omega arith)

-- A request that the server does not know is not answered, and the client waits for ever.
unknown_request : client_run simple_library a (start_serving (some 3) []) ≡ blocked
unfolding client_run send_request loop_round request by_command memcmp
unknown_request = refl
