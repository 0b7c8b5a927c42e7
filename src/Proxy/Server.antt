-- ===== src/Proxy/Server.antt =====
-- A round of the main loop of examples/src/proxy_server.c as a whole: a connection is accepted, served,
-- and closed or handed over to the two relay threads. A connection is its socket of the host and its
-- socket of lwIP, as `relay_conn_create` takes them.
pub mod Handover
pub mod Settled
pub mod Clients
use quiet_lwip.Prelude.{
  ℕ, List, [], ◌∷◌, Option, none, some, Bool, Outcome, done, blocked, fault, ◌>>=◌,
}
use quiet_lwip.Proxy.Crossbar.{Crossbar, crossbar_add_for_reading}
use quiet_lwip.Proxy.Session.{Address, Session}
use quiet_lwip.Proxy.Socks.{serve}

abbrev pub Link : Type 0
Link = ℕ × ℕ

-- What the main thread has between two rounds: the crossbars, the sockets of lwIP that it has closed, and
-- the last conversation.
pub record MainThread : Type 0 where
  pub client_crossbar : Crossbar Link
  pub remote_crossbar : Crossbar Link
  pub closed : List ℕ
  pub session : Session

-- `relay_conn_create`, and the two calls of `crossbar_add_for_reading`.
unfoldable pub hand_over : Link → MainThread → Outcome MainThread
unfolding crossbar_add_for_reading
hand_over conn p = do
  client ← crossbar_add_for_reading conn p.client_crossbar
  remote ← crossbar_add_for_reading conn p.remote_crossbar
  done (record p { client_crossbar = client; remote_crossbar = remote })

module _ (connects : Address → Bool) (getaddrinfo : List ℕ → List ℕ → Option (List Address))
    (getsockname : ℕ → Option Address) where
  -- A round, with the result of `accept` and what its socket will do in the session.
  unfoldable pub server_round : Option ℕ → MainThread → Outcome MainThread
  unfolding serve hand_over
  server_round none p = done p
  server_round (some conn_fd) p = elim (serve connects getaddrinfo getsockname p.session) [
    | done (none, t) ↦ done (record p { closed = conn_fd ∷ p.closed; session = t })
    | done (some remote_fd, t) ↦ hand_over (remote_fd, conn_fd) (record p { session = t })
    | blocked ↦ blocked
    | fault ↦ fault
  ]

  -- The loop, over the results of its calls of `accept`.
  unfoldable pub server_loop : List (Option ℕ) → MainThread → Outcome MainThread
  unfolding server_round
  server_loop [] p = done p
  server_loop (a ∷ accepts) p = do q ← server_round a p; server_loop accepts q
