-- ===== src/Proxy/Socks/Rounds.antt =====
-- Whole rounds of the main loop of examples/src/proxy_server.c.
use quiet_lwip.Prelude.{
  ℕ, ◌<◌, ◌≡◌, refl, ap, ◌≢◌, ◌⊎◌, inl, inr, List, [], ◌∷◌, ◌++◌, Option, none, some, Bool, true,
  false, length, length-take, length-drop, take, drop, ◌==◌, done, arith,
}
use quiet_lwip.Proxy.Session.{Address, Session, M, ◌>>=◌, ◌>>◌, guard, byte, read, received}
use quiet_lwip.Proxy.Session.Steps.{step, byte-at, read-full, length-received}
use quiet_lwip.Proxy.Socks.{
  socks_auth, socks_auth_reply, has_byte, port_text, c_string, by_type, socks_request,
  socks_request_reply, after_request, serve,
}
use quiet_lwip.Proxy.Socks.Greeting.{auth_reply_lem}
use quiet_lwip.Proxy.Socks.Targets.{request_ipv4, request_domainname}
use quiet_lwip.Proxy.Socks.Replies.{success_reply, failure_reply, success_lem, failure_lem}

-- A client that greets with some methods, one of which is to do without authentication, and goes on.
-- Every read delivers what it asks for.
pub record Greets (s : Session) (methods : List ℕ) (rs : List (Option (List ℕ)))
    (ws : List (Option ℕ)) : Type 0 where
  pub size : length s.buf ≡ 512
  pub few : length methods < 256
  pub offered : has_byte 0 methods ≡ true
  pub reads : s.reads ≡ some (5 ∷ length methods ∷ []) ∷ some methods ∷ rs
  pub writes : s.writes ≡ some 2 ∷ some 10 ∷ ws

module _ (connects : Address → Bool) (getaddrinfo : List ℕ → List ℕ → Option (List Address))
    (getsockname : ℕ → Option Address) where
  -- The client is connected and told so: the round ends with the socket, which is connected to the
  -- target, and with two answers.
  pub record Connects (s : Session) (fd : ℕ) (target own : Address) : Type 0 where
    pub after : Session
    pub ran : serve connects getaddrinfo getsockname s ≡ done (some fd, after)
    pub peer : after.connected ≡ (fd, target) ∷ s.connected
    pub answers : after.sent ≡ (s.sent ++ (5 ∷ 0 ∷ [])) ++ success_reply own
    pub sockets : after.opened ≡ fd ∷ s.opened
    pub size : length after.buf ≡ 512

  -- The round after the greeting and the request.
  served :
      (s t u : Session) (fd : ℕ) (target own : Address) (ws : List (Option ℕ))
      → (socks_auth >> socks_auth_reply) s ≡ done (some tt, t)
      → socks_request connects getaddrinfo getsockname t ≡ done (some fd, u)
      → getsockname fd ≡ some own
      → length u.buf ≡ 512
      → u.writes ≡ some 10 ∷ ws
      → u.sent ≡ s.sent ++ (5 ∷ 0 ∷ [])
      → u.connected ≡ (fd, target) ∷ s.connected
      → u.opened ≡ fd ∷ s.opened
      → Connects s fd target own
  unfolding serve after_request socks_request_reply
  served s t u fd target own ws greeted requested name size writes sent peer opened =
      let (b, len, replied) = success_lem u size ws writes own in
      record {
        after = record u { buf = b; writes = ws; sent = u.sent ++ success_reply own };
        ran = ground (arith, greeted, requested, name, replied);
        peer = peer;
        answers = ap (λ l. l ++ success_reply own) sent;
        sockets = opened;
        size = len;
      }

  -- A client that greets and asks for four bytes of address and two of port, every read and write
  -- being whole, is connected to exactly that address and port, if it accepts, and is told so,
  -- with the address and port of the own socket turned round.
  pub serve_ipv4 :
      (s : Session) (methods : List ℕ) (rs : List (Option (List ℕ))) (ws fds : List (Option ℕ))
      (rsv a b c d p q fd : ℕ) (own : Address)
      → Greets s methods (some (5 ∷ 1 ∷ rsv ∷ 1 ∷ []) ∷ some (a ∷ b ∷ c ∷ d ∷ p ∷ q ∷ []) ∷ rs) ws
      → s.sockets ≡ some fd ∷ fds
      → connects (record { host = a ∷ b ∷ c ∷ d ∷ []; port = p ∷ q ∷ [] }) ≡ true
      → getsockname fd ≡ some own
      → Connects s fd (record { host = a ∷ b ∷ c ∷ d ∷ []; port = p ∷ q ∷ [] }) own
  serve_ipv4 s methods rs ws fds rsv a b c d p q fd own g sockets accepted name =
      let (buf, size, greeted) =
        auth_reply_lem s methods
          (some (5 ∷ 1 ∷ rsv ∷ 1 ∷ []) ∷ some (a ∷ b ∷ c ∷ d ∷ p ∷ q ∷ []) ∷ rs) (some 10 ∷ ws)
          g.size g.few g.offered g.reads g.writes in
      let (buf', size', requested) =
        request_ipv4 connects getaddrinfo getsockname _ size rs fd fds sockets rsv a b c d p q refl
          accepted in
      served s _ _ fd (record { host = a ∷ b ∷ c ∷ d ∷ []; port = p ∷ q ∷ [] }) own ws greeted
        requested name size' refl refl refl refl

  -- A client that greets and asks for a name and a port, every read and write being whole, is
  -- connected to the first address of that name for the text of that port, if it accepts, and is
  -- told so, with the address and port of the own socket turned round.
  pub serve_domainname :
      (s : Session) (methods name : List ℕ) (rs : List (Option (List ℕ))) (ws fds : List (Option ℕ))
      (rsv p q fd : ℕ) (target own : Address) (others : List Address)
      → Greets s methods
          (some (5 ∷ 1 ∷ rsv ∷ 3 ∷ []) ∷ some (length name ∷ []) ∷ some (name ++ (p ∷ q ∷ [])) ∷ rs)
          ws
      → length name < 256
      → getaddrinfo (c_string name) (port_text p q) ≡ some (target ∷ others)
      → s.sockets ≡ some fd ∷ fds
      → connects target ≡ true
      → getsockname fd ≡ some own
      → Connects s fd target own
  serve_domainname s methods name rs ws fds rsv p q fd target own others g few found sockets
        accepted own_name =
      let (buf, size, greeted) =
        auth_reply_lem s methods
          (some (5 ∷ 1 ∷ rsv ∷ 3 ∷ []) ∷ some (length name ∷ []) ∷ some (name ++ (p ∷ q ∷ [])) ∷ rs)
          (some 10 ∷ ws) g.size g.few g.offered g.reads g.writes in
      let (buf', size', requested) =
        request_domainname connects getaddrinfo getsockname _ size rs fd fds sockets rsv name few p
          q target others refl found accepted in
      served s _ _ fd target own ws greeted requested own_name size' refl refl refl refl

  guarded :
      (b : Bool) (m : M ℕ) (t : Session) → m t ≡ done (none, t) → (guard b >> m) t ≡ done (none, t)
  guarded true m t e = e
  guarded false m t e = refl

  -- A request of another command, or of another kind of address, fails.
  refused :
      (s : Session) (rs : List (Option (List ℕ))) (command rsv kind : ℕ)
      → length s.buf ≡ 512
      → s.reads ≡ some (5 ∷ command ∷ rsv ∷ kind ∷ []) ∷ rs
      → (command ≢ 1) ⊎ ((kind ≢ 1) × (kind ≢ 3))
      → socks_request connects getaddrinfo getsockname s
        ≡ done (none, received (5 ∷ command ∷ rsv ∷ kind ∷ []) (record s { reads = rs }))
  unfolding socks_request
  refused s rs command rsv kind size reads bad =
      let t = received (5 ∷ command ∷ rsv ∷ kind ∷ []) (record s { reads = rs }) in
      let len =
        length-received (5 ∷ command ∷ rsv ∷ kind ∷ []) (record s { reads = rs }) size
          (omega arith) in
      step (read 4 4) _ s
        (read-full 4 4 s (5 ∷ command ∷ rsv ∷ kind ∷ []) rs size reads (omega arith) (omega arith)
          (omega arith))
        (step (byte 0) _ t (byte-at 0 t len (omega arith)) (
          step (byte 1) _ t (byte-at 1 t len (omega arith))
            (by_command t (byte-at 3 t len (omega arith)) bad)))
    where
      by_kind :
          (t : Session)
          → (kind ≢ 1) × (kind ≢ 3)
          → by_type connects getaddrinfo getsockname kind t ≡ done (none, t)
      by_kind t others = ground (arith, others.0, others.1)

      by_command :
          (t : Session)
          → byte 3 t ≡ done (some kind, t)
          → (command ≢ 1) ⊎ ((kind ≢ 1) × (kind ≢ 3))
          → (guard (command == 1) >> (byte 3 >>= λ k. by_type connects getaddrinfo getsockname k)) t
            ≡ done (none, t)
      by_command t third bad = elim (bad) [
        | inl other ↦ ground (arith, other)
        | inr others ↦ guarded (command == 1) _ t (step (byte 3) _ t third (by_kind t others))
      ]

  -- A client that greets and asks for another command than CONNECT, or for another kind of address
  -- than IPv4 and a name, every read and write being whole, is refused: the connection is closed,
  -- no socket of the host is opened or connected, and the answer has the code of a failure and
  -- ends in two more bytes.
  pub serve_refused :
      (s : Session) (methods : List ℕ) (rs : List (Option (List ℕ))) (ws : List (Option ℕ))
      (command rsv kind : ℕ)
      → Greets s methods (some (5 ∷ command ∷ rsv ∷ kind ∷ []) ∷ rs) ws
      → (command ≢ 1) ⊎ ((kind ≢ 1) × (kind ≢ 3))
      → (t : Session) × (last : List ℕ) × (serve connects getaddrinfo getsockname s
          ≡ done (none, t))
        × (t.sent ≡ (s.sent ++ (5 ∷ 0 ∷ [])) ++ (5 ∷ 1 ∷ 0 ∷ 1 ∷ 0 ∷ 0 ∷ 0 ∷ 0 ∷ last))
        × (length last ≡ 2)
        × (t.opened ≡ s.opened)
        × (t.connected ≡ s.connected)
  unfolding serve after_request
  serve_refused s methods rs ws command rsv kind g bad =
      let (buf, size, greeted) =
        auth_reply_lem s methods (some (5 ∷ command ∷ rsv ∷ kind ∷ []) ∷ rs) (some 10 ∷ ws) g.size
          g.few g.offered g.reads g.writes in
      let u = received (5 ∷ command ∷ rsv ∷ kind ∷ []) (record s {
        buf = buf;
        reads = rs;
        writes = some 10 ∷ ws;
        sent = s.sent ++ (5 ∷ 0 ∷ []);
      }) in
      let len =
        length-received (5 ∷ command ∷ rsv ∷ kind ∷ []) (record s { buf = buf }) size
          (omega arith) in
      let asked =
        refused
          (record s {
            buf = buf;
            reads = some (5 ∷ command ∷ rsv ∷ kind ∷ []) ∷ rs;
            writes = some 10 ∷ ws;
            sent = s.sent ++ (5 ∷ 0 ∷ []);
          })
          rs command rsv kind size refl bad in
      let (b, len', replied) = failure_lem u len ws refl in
      (
        record u { buf = b; writes = ws; sent = u.sent ++ failure_reply u len ws refl },
        take 2 (drop 8 u.buf),
        ground (arith, greeted, asked, replied),
        refl,
        omega (arith, length-take 2 (drop 8 u.buf), length-drop 8 u.buf),
        refl,
        refl,
      )
