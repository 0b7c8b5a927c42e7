-- ===== src/Proxy/Server/Clients.antt =====
-- The main loop of examples/src/proxy_server.c over any number of clients, whatever they do.
use mathlib.Core.List.{Perm}
use mathlib.Core.List.Perm
use quiet_lwip.Prelude.{
  ℕ, suc, ◌+◌, ◌≤◌, ◌≡◌, sym, subst, append-nil, List, [], ◌∷◌, length, Option, none, some, Bool,
  Outcome, done, blocked, fault, Ensures, Ensures-bind, Ensures-map, arith,
}
use quiet_lwip.Proxy.Crossbar.{items}
use quiet_lwip.Proxy.Session.{Address, Session}
use quiet_lwip.Proxy.Session.Memory.{AllBytes, IsSafe, NoFault, Any}
use quiet_lwip.Proxy.Socks.{serve}
use quiet_lwip.Proxy.Socks.Memory.{serve-NoFault}
use quiet_lwip.Proxy.Session.Supply.{Stock, Stock-le, Left}
use quiet_lwip.Proxy.Socks.Supply.{serve-Costs}
use quiet_lwip.Proxy.Server.{MainThread, hand_over, server_round, server_loop}
use quiet_lwip.Proxy.Server.Handover.{hand_over_lem}
use quiet_lwip.Proxy.Server.Settled.{
  accepted, accepted_first, needed, IsReady, Settles, Settles-nil, Settles-append, used_after,
}

module _ (connects : Address → Bool) (getaddrinfo : List ℕ → List ℕ → Option (List Address))
    (getsockname : ℕ → Option Address)
    (names : (fd : ℕ) (a : Address) → getsockname fd ≡ some a → AllBytes a.host × AllBytes a.port)
    (most : ℕ)
    (few : (name port : List ℕ) (found : List Address)
      → getaddrinfo name port ≡ some found
      → length found ≤ most) where
  -- A connection that has been served.
  abbrev pub Served : ℕ → List ℕ → MainThread → MainThread → Type 0
  Served more fds p q = IsReady (7 + most) more q × Settles fds p q

  round_lem :
      (a : Option ℕ) (more : ℕ) (p : MainThread)
      → IsReady (7 + most) (suc more) p
      → Ensures
          (server_round connects getaddrinfo getsockname a p)
          (Served more (accepted (a ∷ [])) p)
  unfolding server_round needed
  round_lem none more p v = (
    record {
      session = v.session;
      stock = Stock-le (omega arith) v.stock;
      client = v.client;
      client_room = omega (arith, v.client_room);
      remote = v.remote;
      remote_room = omega (arith, v.remote_room);
    },
    Settles-nil p,
  )
  round_lem (some fd) more p v =
      by_serve (serve connects getaddrinfo getsockname p.session)
        (serve-NoFault connects getaddrinfo getsockname names p.session v.session)
        (serve-Costs connects getaddrinfo getsockname most few p.session (needed (7 + most) more)
          v.stock)
    where
      by_serve :
          (m : Outcome (Option ℕ × Session))
          → NoFault Any m
          → Left (needed (7 + most) more) m
          → Ensures
              (elim m [
                | done (none, t) ↦ done (record p { closed = fd ∷ p.closed; session = t })
                | done (some remote_fd, t) ↦ hand_over (remote_fd, fd) (record p { session = t })
                | blocked ↦ blocked
                | fault ↦ fault
              ])
              (Served more (fd ∷ []) p)
      by_serve (done (none, t)) h left = (
        record {
          session = h;
          stock = left;
          client = v.client;
          client_room = omega (arith, v.client_room);
          remote = v.remote;
          remote_room = omega (arith, v.remote_room);
        },
        record {
          handed = [];
          client = sym (append-nil (items p.client_crossbar.for_reading));
          remote = sym (append-nil (items p.remote_crossbar.for_reading));
          settled = Perm.refl (fd ∷ p.closed);
        },
      )
      by_serve (done (some remote_fd, t)) h left =
          Ensures-map (hand_over (remote_fd, fd) (record p { session = t })) _ _
            (hand_over_lem (remote_fd, fd) (record p { session = t })
              (record {
                client = v.client;
                client_room = omega (arith, v.client_room);
                remote = v.remote;
                remote_room = omega (arith, v.remote_room);
              }))
            λ q g. (
              record {
                session = subst IsSafe (sym g.2) h.1;
                stock = subst (Stock (needed (7 + most) more)) (sym g.2) left;
                client = g.0.1;
                client_room = omega (
                  arith,
                  v.client_room,
                  used_after p.client_crossbar.for_reading q.client_crossbar.for_reading
                      (remote_fd, fd) v.client g.0.1 g.0.0,
                );
                remote = g.1.1;
                remote_room = omega (
                  arith,
                  v.remote_room,
                  used_after p.remote_crossbar.for_reading q.remote_crossbar.for_reading
                      (remote_fd, fd) v.remote g.1.1 g.1.0,
                );
              },
              record {
                handed = (remote_fd, fd) ∷ [];
                client = g.0.0;
                remote = g.1.0;
                settled =
                    subst (λ l. Perm (fd ∷ l) (fd ∷ p.closed)) (sym g.3)
                      (Perm.refl (fd ∷ p.closed));
              },
            )
      by_serve blocked h left = absurd left
      by_serve fault h left = absurd h

  -- Whatever any number of clients send, in whatever pieces, and whatever the sockets return, the main
  -- loop goes through all of them and reads and writes nothing outside its buffer and the crossbars: every
  -- connection that was accepted has then been closed or handed over, once, both relay threads have the
  -- same ones in the same order, behind those that they had, and the buffer is whole. `getsockname` gives
  -- bytes, a name has at most so many addresses, the crossbars have room for as many connections as are
  -- accepted, and for each of them `lwip_read`, `lwip_write` and `socket` have seven results more to
  -- come than a name has addresses.
  pub server_loop_lem :
      (accepts : List (Option ℕ)) (p : MainThread)
      → IsReady (7 + most) (length accepts) p
      → Ensures
          (server_loop connects getaddrinfo getsockname accepts p)
          (Served 0 (accepted accepts) p)
  unfolding server_loop
  server_loop_lem [] p v = (v, Settles-nil p)
  server_loop_lem (a ∷ accepts) p v =
      Ensures-bind (server_round connects getaddrinfo getsockname a p)
        (server_loop connects getaddrinfo getsockname accepts) _ _
        (round_lem a (length accepts) p v)
        λ q h.
          Ensures-map (server_loop connects getaddrinfo getsockname accepts q) _ _
            (server_loop_lem accepts q h.0)
            λ r k. (
              k.0,
              subst (λ fds. Settles fds p r) (accepted_first a accepts)
                  (Settles-append (accepted (a ∷ [])) (accepted accepts) p q r h.1 k.1),
            )
