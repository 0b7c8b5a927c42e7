-- ===== src/Proxy/Relay/Round.antt =====
-- A whole round of `relay` in examples/src/relay.c: the work of the crossbar is taken up, the sets for
-- `select` are built, and the two loops run.
use quiet_lwip.Prelude.{
  ℕ, ◌+◌, List, [], ◌∷◌, ◌++◌, map, Option, none, some, Bool, ◌&&◌, ltb, ◌==◌, if◌then◌else◌,
  Outcome, done, blocked, fault, ◌>>=◌,
}
use quiet_lwip.Proxy.Crossbar.{Crossbar, Worker, items, take_work}
use quiet_lwip.Proxy.Relay.{Result, Effect, sweep_slots, read_verdict, write_verdict}
use quiet_lwip.Proxy.Relay.Owners.{entry_conn}

-- A loop that builds a set: the greatest descriptor so far, and the set. FD_SET of a descriptor of
-- FD_SETSIZE or more is undefined.
unfoldable pub fd_loop : ℕ → List ℕ → ℕ → Outcome (ℕ × List ℕ)
fd_loop fd_setsize [] max_fd = done (max_fd, [])
fd_loop fd_setsize (fd ∷ fds) max_fd =
    let rest = fd_loop fd_setsize fds (if ltb max_fd fd then fd else max_fd) in
    if ltb fd fd_setsize then (do r ← rest; done (r.0, fd ∷ r.1)) else fault

-- What a round leaves: the thread's arrays, its crossbar, and its effects in order.
pub record Round (Conn : Type 0) : Type 0 where
  pub worker : Worker Conn
  pub incoming : Crossbar Conn
  pub effects : List (Effect Conn)

-- The descriptors that `select` finds ready for reading and for writing.
abbrev pub Ready : Type 0
Ready = (ℕ → Bool) × (ℕ → Bool)

-- `fd_of` is `relay_conn_fd` for the thread's own agent; `select` is given the number of descriptors and the two
-- sets, and none is an error or the timeout; `reads` and `writes` are what `read` and `write` return.
module _ {Conn : Type 0} (fd_setsize : ℕ) (fd_of : Conn → ℕ)
    (select : ℕ → List ℕ → List ℕ → Option Ready) (would_block : ℕ → Bool)
    (reads writes : Conn → Result) where
  -- The two loops, after `select`.
  unfoldable pub serve_ready : Ready → Worker Conn → Crossbar Conn → Outcome (Round Conn)
  unfolding sweep_slots read_verdict write_verdict
  serve_ready ready w incoming = do
    r ← sweep_slots (read_verdict would_block (λ c. ready.0 (fd_of c)) reads) w.relay_read
    s ← sweep_slots (write_verdict would_block (λ c. ready.1 (fd_of c)) writes) w.relay_write
    done (record {
      worker = record { relay_read = r.0; relay_write = s.0 };
      incoming = incoming;
      effects = r.1 ++ s.1;
    })

  -- `select`, with sets of the descriptors in the thread's arrays.
  unfoldable pub select_and_serve : Worker Conn → Crossbar Conn → Outcome (Round Conn)
  unfolding fd_loop serve_ready
  select_and_serve w incoming = do
    r ← fd_loop fd_setsize (map fd_of (items w.relay_read)) 0
    s ← fd_loop fd_setsize (map (λ e. fd_of (entry_conn e)) (items w.relay_write)) r.0
    elim (select (s.0 + 1) r.1 s.1) [
      | none ↦ done (record { worker = w; incoming = incoming; effects = [] })
      | some ready ↦ serve_ready ready w incoming
    ]

  -- A round; with no connection at all the thread waits for its crossbar.
  unfoldable pub relay_round : Worker Conn → Crossbar Conn → Outcome (Round Conn)
  unfolding take_work select_and_serve
  relay_round w incoming =
      if (w.relay_read.used == 0 && w.relay_write.used == 0)
        && (incoming.for_writing.used == 0 && incoming.for_reading.used == 0)
      then blocked
      else (do t ← take_work w incoming; select_and_serve t.0 t.1)
