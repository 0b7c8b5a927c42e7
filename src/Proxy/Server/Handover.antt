-- ===== src/Proxy/Server/Handover.antt =====
-- What a client of examples/src/proxy_server.c gets: a connection in the hands of both relay threads.
use quiet_lwip.Prelude.{
  ℕ, ◌<◌, ◌≡◌, ◌≢◌, ◌⊎◌, length, refl, ap, ◌∙◌, List, [], ◌∷◌, ◌++◌, Option, some, Bool, true, done,
  Ensures, Ensures-bind, Ensures-map,
}
use quiet_lwip.Proxy.Crossbar.{
  Crossbar, IsSlots, items, crossbar_add_for_reading_lem, num_relays, crossbar_add_for_reading,
}
use quiet_lwip.Proxy.Session.{Address, Session}
use quiet_lwip.Proxy.Socks.{c_string, port_text}
use quiet_lwip.Proxy.Socks.Replies.{success_reply}
use quiet_lwip.Proxy.Socks.Rounds.{Greets, Connects, serve_ipv4, serve_domainname, serve_refused}
use quiet_lwip.Proxy.Server.{Link, MainThread, hand_over, server_round}

-- The crossbar has the connection behind those that it had for reading, and is sound.
abbrev pub Gains : Link → Crossbar Link → Crossbar Link → Type 0
Gains conn c d = (items d.for_reading ≡ items c.for_reading ++ (conn ∷ [])) × IsSlots d.for_reading

add-Gains :
    (conn : Link) (c : Crossbar Link)
    → IsSlots c.for_reading
    → c.for_reading.used < num_relays
    → Ensures (crossbar_add_for_reading conn c) (Gains conn c)
add-Gains conn c v room =
    Ensures-map (crossbar_add_for_reading conn c) _ (Gains conn c)
      (crossbar_add_for_reading_lem c conn v room) λ d h. (h.0, h.1)

-- There is room for one more connection in both crossbars.
pub record HasRoom (p : MainThread) : Type 0 where
  pub client : IsSlots p.client_crossbar.for_reading
  pub client_room : p.client_crossbar.for_reading.used < num_relays
  pub remote : IsSlots p.remote_crossbar.for_reading
  pub remote_room : p.remote_crossbar.for_reading.used < num_relays

pub hand_over_lem :
    (conn : Link) (p : MainThread)
    → HasRoom p
    → Ensures (hand_over conn p) λ q.
      Gains conn p.client_crossbar q.client_crossbar
      × Gains conn p.remote_crossbar q.remote_crossbar
      × (q.session ≡ p.session)
      × (q.closed ≡ p.closed)
unfolding hand_over
hand_over_lem conn p h =
    Ensures-bind (crossbar_add_for_reading conn p.client_crossbar) _ (Gains conn p.client_crossbar)
      _ (add-Gains conn p.client_crossbar h.client h.client_room)
      λ client g.
        Ensures-bind (crossbar_add_for_reading conn p.remote_crossbar) _
          (Gains conn p.remote_crossbar) _ (add-Gains conn p.remote_crossbar h.remote h.remote_room)
          λ remote k. (g, k, refl, refl)

module _ (connects : Address → Bool) (getaddrinfo : List ℕ → List ℕ → Option (List Address))
    (getsockname : ℕ → Option Address) where
  -- The client is connected to its target and told so, and both relay threads get the connection.
  pub record Relayed (p : MainThread) (conn_fd fd : ℕ) (target own : Address) (q : MainThread)
      : Type 0 where
    pub client : Gains (fd, conn_fd) p.client_crossbar q.client_crossbar
    pub remote : Gains (fd, conn_fd) p.remote_crossbar q.remote_crossbar
    pub peer : q.session.connected ≡ (fd, target) ∷ p.session.connected
    pub answers : q.session.sent ≡ (p.session.sent ++ (5 ∷ 0 ∷ [])) ++ success_reply own
    pub open_still : q.closed ≡ p.closed

  connected-Relayed :
      (p : MainThread) (conn_fd fd : ℕ) (target own : Address)
      → HasRoom p
      → Connects connects getaddrinfo getsockname p.session fd target own
      → Ensures
          (server_round connects getaddrinfo getsockname (some conn_fd) p)
          (Relayed p conn_fd fd target own)
  unfolding server_round
  connected-Relayed p conn_fd fd target own h c =
      rw (c.ran, server_round)
        (Ensures-map (hand_over (fd, conn_fd) (record p { session = c.after })) _
          (Relayed p conn_fd fd target own)
          (hand_over_lem (fd, conn_fd) (record p { session = c.after })
            (record {
              client = h.client;
              client_room = h.client_room;
              remote = h.remote;
              remote_room = h.remote_room;
            }))
          λ q g. record {
            client = g.0;
            remote = g.1;
            peer = ap (λ s. s.connected) g.2 ∙ c.peer;
            answers = ap (λ s. s.sent) g.2 ∙ c.answers;
            open_still = g.3;
          })

  -- A client that greets and asks for four bytes of address and two of port, every read and write being
  -- whole, is connected to exactly that address and port, if it accepts, and told so, with the address and
  -- port of the own socket turned round; and the connection then waits, behind those that did before, in
  -- both crossbars, if each of them has room.
  pub server_round_ipv4 :
      (p : MainThread) (conn_fd : ℕ) (methods : List ℕ) (rs : List (Option (List ℕ)))
      (ws fds : List (Option ℕ)) (rsv a b c d port_high port_low fd : ℕ) (own : Address)
      → HasRoom p
      → Greets p.session methods
          (some (5 ∷ 1 ∷ rsv ∷ 1 ∷ []) ∷ some (a ∷ b ∷ c ∷ d ∷ port_high ∷ port_low ∷ []) ∷ rs)
          ws
      → p.session.sockets ≡ some fd ∷ fds
      → connects (record { host = a ∷ b ∷ c ∷ d ∷ []; port = port_high ∷ port_low ∷ [] }) ≡ true
      → getsockname fd ≡ some own
      → Ensures (server_round connects getaddrinfo getsockname (some conn_fd) p) (
          Relayed p conn_fd fd
            (record { host = a ∷ b ∷ c ∷ d ∷ []; port = port_high ∷ port_low ∷ [] })
            own)
  server_round_ipv4 p conn_fd methods rs ws fds rsv a b c d port_high port_low fd own h g sockets
        accepted name =
      connected-Relayed p conn_fd fd
        (record { host = a ∷ b ∷ c ∷ d ∷ []; port = port_high ∷ port_low ∷ [] }) own h
        (serve_ipv4 connects getaddrinfo getsockname p.session methods rs ws fds rsv a b c d
          port_high port_low fd own g sockets accepted name)

  -- A client that greets and asks for a name and a port, every read and write being whole, is connected to
  -- the first address of that name for the text of that port, if it accepts, and told so, with the address
  -- and port of the own socket turned round; and the connection then waits, behind those that did before,
  -- in both crossbars, if each of them has room.
  pub server_round_domainname :
      (p : MainThread) (conn_fd : ℕ) (methods name : List ℕ) (rs : List (Option (List ℕ)))
      (ws fds : List (Option ℕ)) (rsv port_high port_low fd : ℕ) (target own : Address)
      (others : List Address)
      → HasRoom p
      → Greets p.session methods
          (some (5 ∷ 1 ∷ rsv ∷ 3 ∷ [])
            ∷ some (length name ∷ [])
            ∷ some (name ++ (port_high ∷ port_low ∷ []))
            ∷ rs)
          ws
      → length name < 256
      → getaddrinfo (c_string name) (port_text port_high port_low) ≡ some (target ∷ others)
      → p.session.sockets ≡ some fd ∷ fds
      → connects target ≡ true
      → getsockname fd ≡ some own
      → Ensures
          (server_round connects getaddrinfo getsockname (some conn_fd) p)
          (Relayed p conn_fd fd target own)
  server_round_domainname p conn_fd methods name rs ws fds rsv port_high port_low fd target own
        others h g few found sockets accepted own_name =
      connected-Relayed p conn_fd fd target own h (
        serve_domainname connects getaddrinfo getsockname p.session methods name rs ws fds rsv
          port_high port_low fd target own others g few found sockets accepted own_name)

  -- A client that greets and asks for another command than CONNECT, or for another kind of address than
  -- IPv4 and a name, every read and write being whole, is refused: its connection is closed and in neither
  -- crossbar, no socket of the host is opened or connected, and the answer has the code of a failure and
  -- ends in two more bytes.
  pub server_round_refused :
      (p : MainThread) (conn_fd : ℕ) (methods : List ℕ) (rs : List (Option (List ℕ)))
      (ws : List (Option ℕ)) (command rsv kind : ℕ)
      → Greets p.session methods (some (5 ∷ command ∷ rsv ∷ kind ∷ []) ∷ rs) ws
      → (command ≢ 1) ⊎ ((kind ≢ 1) × (kind ≢ 3))
      → (t : Session) × (last : List ℕ) × (server_round connects getaddrinfo getsockname
            (some conn_fd)
            p
          ≡ done (record p { closed = conn_fd ∷ p.closed; session = t }))
        × (t.sent ≡ (p.session.sent ++ (5 ∷ 0 ∷ [])) ++ (5 ∷ 1 ∷ 0 ∷ 1 ∷ 0 ∷ 0 ∷ 0 ∷ 0 ∷ last))
        × (length last ≡ 2)
        × (t.opened ≡ p.session.opened)
        × (t.connected ≡ p.session.connected)
  unfolding server_round
  server_round_refused p conn_fd methods rs ws command rsv kind g bad =
      let (t, last, ran, answer, two, opened, connected) =
        serve_refused connects getaddrinfo getsockname p.session methods rs ws command rsv kind g
          bad in
      (t, last, rw (ran, server_round) refl, answer, two, opened, connected)
