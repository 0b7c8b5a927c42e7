-- ===== src/Proxy/Relays.antt =====
-- The two relay threads of the proxy together: `relay` and `relay_conn_close` of examples/src/relay.c,
-- run by the two threads that `main` of examples/src/proxy_server.c starts with two crossbars between
-- them, while `main` goes on to hand over connections. A connection is a number, in the order of
-- `relay_conn_create`.
pub mod Tokens
pub mod Sound
pub mod Invariant
pub mod Safety
pub mod Directions
pub mod Races
mod Tests
use quiet_lwip.Prelude.{
  ℕ, suc, ◌+◌, ◌%◌, ◌≡◌, List, [], ◌∷◌, Option, Bool, if◌then◌else◌, ◌==◌, Outcome, done, blocked,
  fault, ◌>>=◌, replicate,
}
use quiet_lwip.Proxy.Connection.{Closing, relay_conn_close}
use quiet_lwip.Proxy.Crossbar.{
  Slots, Crossbar, Worker, num_relays, crossbar_init, crossbar_add_for_reading,
  crossbar_add_for_writing,
}
use quiet_lwip.Proxy.Relay.{Result, Effect, to_writing, to_reading, end_reading, end_writing}
use quiet_lwip.Proxy.Relay.Round.{Round, Ready, relay_round}

-- `close_count` of a connection, and whether it has been destroyed, after some calls of
-- `relay_conn_close`, the last one first.
unfoldable pub closing_of : ℕ → List ℕ → Closing
closing_of conn [] = record { close_count = 0; destroyed = 0 }
closing_of conn (c ∷ calls) =
    let before = closing_of conn calls in if c == conn then relay_conn_close before else before

-- Both threads, each with what its last round left: its arrays, its incoming crossbar, and the effects
-- on the other thread's crossbar that it has not come to yet. `between` is a connection that `main` has
-- put into the one crossbar and not yet into the other, and `closed` the calls of `relay_conn_close`.
pub record Relays : Type 0 where
  pub client : Round ℕ
  pub remote : Round ℕ
  pub between : List ℕ
  pub closed : List ℕ

-- The arrays are not set at the start.
abbrev pub fresh_slots : {A : Type 0} → A → Slots A
fresh_slots garbage = record { entries = replicate num_relays garbage; used = 0 }

-- A thread that has just been started, and its crossbar after `crossbar_init`.
abbrev pub fresh_thread : Round ℕ
fresh_thread = record {
  worker = record { relay_read = fresh_slots 0; relay_write = fresh_slots (0, 0) };
  incoming =
      crossbar_init (record { for_reading = fresh_slots 0; for_writing = fresh_slots (0, 0) });
  effects = [];
}

abbrev pub start_relays : Relays
start_relays = record { client = fresh_thread; remote = fresh_thread; between = []; closed = [] }

-- An effect takes place: on the crossbar that is the thread's outgoing one, or on the calls of
-- `relay_conn_close`.
unfoldable pub carry_out : Effect ℕ → Crossbar ℕ → List ℕ → Outcome (Crossbar ℕ × List ℕ)
unfolding crossbar_add_for_reading crossbar_add_for_writing
carry_out (to_writing conn n) outgoing closed = do
  c ← crossbar_add_for_writing conn n outgoing
  done (c, closed)
carry_out (to_reading conn) outgoing closed = do
  c ← crossbar_add_for_reading conn outgoing
  done (c, closed)
carry_out (end_reading conn) outgoing closed = done (outgoing, conn ∷ closed)
carry_out (end_writing conn) outgoing closed = done (outgoing, conn ∷ closed)

-- The agents of the two threads, and which of a connection's two buffers a thread reads into, and writes
-- from.
abbrev pub agent_lwip : ℕ
agent_lwip = 0

abbrev pub agent_native : ℕ
agent_native = 1

unfoldable pub relay_conn_read_buf : ℕ → ℕ
relay_conn_read_buf agent = agent

unfoldable pub relay_conn_write_buf : ℕ → ℕ
relay_conn_write_buf agent = (agent + 1) % 2

-- What a thread's functions return in a round: `select`, and `read` and `write` for every connection.
pub record Calls : Type 0 where
  pub select : ℕ → List ℕ → List ℕ → Option Ready
  pub reads : ℕ → Result
  pub writes : ℕ → Result

-- `fd_setsize`, the descriptors of a connection for either agent, and the error numbers that mean that
-- a call would block.
pub record Platform : Type 0 where
  pub fd_setsize : ℕ
  pub lwip_fd : ℕ → ℕ
  pub native_fd : ℕ → ℕ
  pub would_block : ℕ → Bool

-- A thread with no effects left goes through a round.
unfoldable pub thread_round : Platform → (ℕ → ℕ) → Calls → Round ℕ → Outcome (Round ℕ)
unfolding relay_round
thread_round sys fd_of calls t = elim t.effects [
  | [] ↦
      relay_round sys.fd_setsize fd_of calls.select sys.would_block calls.reads calls.writes
        t.worker t.incoming
  | e ∷ es ↦ blocked
]

-- A thread with effects left comes to the first of them.
unfoldable pub thread_effect :
    Round ℕ → Crossbar ℕ → List ℕ → Outcome (Round ℕ × Crossbar ℕ × List ℕ)
unfolding carry_out
thread_effect t outgoing closed = elim t.effects [
  | [] ↦ blocked
  | e ∷ es ↦ (do r ← carry_out e outgoing closed; done (record t { effects = es }, r.0, r.1))
]

-- Who moves. Either thread goes through a round, or comes to its next effect, or `main` puts a
-- connection into the second crossbar.
pub data Move : Type 0 where
  client_round : Calls → Move
  remote_round : Calls → Move
  client_effect : Move
  remote_effect : Move
  hand_to_remote : Move

unfoldable pub move : Platform → Move → Relays → Outcome Relays
unfolding thread_round thread_effect crossbar_add_for_reading
move sys (client_round calls) s = do
  t ← thread_round sys sys.lwip_fd calls s.client
  done (record s { client = t })
move sys (remote_round calls) s = do
  t ← thread_round sys sys.native_fd calls s.remote
  done (record s { remote = t })
move sys client_effect s = do
  r ← thread_effect s.client s.remote.incoming s.closed
  done (record s { client = r.0; remote = record (s.remote) { incoming = r.1 }; closed = r.2 })
move sys remote_effect s = do
  r ← thread_effect s.remote s.client.incoming s.closed
  done (record s { remote = r.0; client = record (s.client) { incoming = r.1 }; closed = r.2 })
move sys hand_to_remote s = elim s.between [
  | [] ↦ blocked
  | conn ∷ conns ↦ (do
    c ← crossbar_add_for_reading conn s.remote.incoming
    done (record s { remote = record (s.remote) { incoming = c }; between = conns }))
]

-- `main`, done with the last connection, creates another one and puts it into the first crossbar.
unfoldable pub hand_to_client : ℕ → Relays → Outcome Relays
unfolding crossbar_add_for_reading
hand_to_client conn s = elim s.between [
  | [] ↦ (do
    c ← crossbar_add_for_reading conn s.client.incoming
    done (record s { client = record (s.client) { incoming = c }; between = conn ∷ [] }))
  | c ∷ cs ↦ blocked
]

-- What the threads and `main` come to, in any order, when `main` has created a number of connections.
pub data Reach (sys : Platform) : ℕ → Relays → Type 0 where
  started : Reach sys 0 start_relays
  handed :
      {n : ℕ} {s t : Relays} → Reach sys n s → hand_to_client n s ≡ done t → Reach sys (suc n) t
  moved : {n : ℕ} {s t : Relays} (m : Move) → Reach sys n s → move sys m s ≡ done t → Reach sys n t
