-- ===== src/Proxy/Socks/Memory.antt =====
-- The SOCKS handlers of examples/src/proxy_server.c and their buffer of 512 bytes.
use quiet_lwip.Prelude.{
  ℕ, ◌+◌, ◌<◌, ◌≡◌, refl, List, [], ◌∷◌, Option, none, some, Bool, get_or, ◌==◌, if_elim, Outcome,
  done, blocked, fault, arith,
}
use quiet_lwip.Proxy.Session.{
  Address, Session, ◌>>◌, fail, guard, byte, store, bytes, read, write, socket, close,
}
use quiet_lwip.Proxy.Session.Memory.{
  AllBytes, IsSafe, NoFault, Safe, Any, bound, bind-Safe, get_or-lt, byte-Safe, store-Safe,
  bytes-Safe, read-Safe, write-Safe, socket-Safe, guard-Safe, store_all-Safe,
}
use quiet_lwip.Proxy.Socks.{
  socks_auth, socks_auth_reply, has_byte, port_text, c_string, connect, socks_request_connect_ipv4,
  try_each, resolved, socks_request_connect_domainname, by_type, socks_request, reply_head,
  reply_address, clear_host, clear_half, socks_request_reply, socks_request_reply_failed,
  after_request, serve,
}

socks_auth-Safe : Safe Any socks_auth
unfolding socks_auth
socks_auth-Safe = bind-Safe Any Any (read 2 2) _ (read-Safe 2 2 (omega arith)) λ _ _.
    bind-Safe (λ b. b < 256) Any (byte 0) _ (byte-Safe 0 (omega arith))
      λ version _. bind-Safe Any Any (guard (version == 5)) _ (guard-Safe (version == 5)) λ _ _.
        bind-Safe (λ b. b < 256) Any (byte 1) _ (byte-Safe 1 (omega arith))
          λ n lt. bind-Safe Any Any (read n n) _ (read-Safe n n (omega arith)) λ _ _.
            bind-Safe Any Any (bytes 0 n) _ (bytes-Safe 0 n (omega arith))
              λ methods _. guard-Safe (has_byte 0 methods)

socks_auth_reply-Safe : Safe Any socks_auth_reply
unfolding socks_auth_reply
socks_auth_reply-Safe =
    store_all-Safe ((0, 5) ∷ (1, 0) ∷ []) (write 2) (omega arith) (write-Safe 2 (omega arith))

reply_head-Safe : (code : ℕ) → code < 256 → Safe Any (reply_head code)
unfolding reply_head
reply_head-Safe code lt =
    store_all-Safe ((0, 5) ∷ (1, code) ∷ (2, 0) ∷ []) (store 3 1) (omega arith)
      (store-Safe 3 1 (omega arith) (omega arith))

reply_address-Safe : (a : Address) → AllBytes a.host → AllBytes a.port → Safe Any (reply_address a)
unfolding reply_address
reply_address-Safe a h p =
    store_all-Safe
      ((4, get_or a.host 3 0)
        ∷ (5, get_or a.host 2 0)
        ∷ (6, get_or a.host 1 0)
        ∷ (7, get_or a.host 0 0)
        ∷ (8, get_or a.port 1 0)
        ∷ [])
      (store 9 (get_or a.port 0 0))
      (omega (
        arith,
        get_or-lt a.host 3 h,
        get_or-lt a.host 2 h,
        get_or-lt a.host 1 h,
        get_or-lt a.host 0 h,
        get_or-lt a.port 1 p,
      ))
      (store-Safe 9 (get_or a.port 0 0) (omega arith) (get_or-lt a.port 0 p))

clear_host-Safe : Safe Any clear_host
unfolding clear_host
clear_host-Safe =
    store_all-Safe ((4, 0) ∷ (5, 0) ∷ (6, 0) ∷ []) (store 7 0) (omega arith)
      (store-Safe 7 0 (omega arith) (omega arith))

clear_half-Safe : Safe Any clear_half
unfolding clear_half
clear_half-Safe =
    store_all-Safe ((10, 0) ∷ []) (store 11 0) (omega arith)
      (store-Safe 11 0 (omega arith) (omega arith))

socks_request_reply_failed-Safe : Safe Any socks_request_reply_failed
unfolding socks_request_reply_failed
socks_request_reply_failed-Safe =
    bind-Safe Any Any (reply_head 1) _ (reply_head-Safe 1 (omega arith)) λ _ _.
      bind-Safe Any Any clear_host _ clear_host-Safe
        λ _ _. bind-Safe Any Any clear_half _ clear_half-Safe λ _ _. write-Safe 10 (omega arith)

module _ (connects : Address → Bool) (getaddrinfo : List ℕ → List ℕ → Option (List Address))
    (getsockname : ℕ → Option Address) where
  connect-Safe : (fd : ℕ) (a : Address) → Safe Any (connect connects getaddrinfo getsockname fd a)
  unfolding connect
  connect-Safe fd a s v = ground arith

  ipv4-Safe : Safe Any (socks_request_connect_ipv4 connects getaddrinfo getsockname)
  unfolding socks_request_connect_ipv4
  ipv4-Safe = bind-Safe Any Any socket _ socket-Safe λ fd _.
      bind-Safe Any Any (read 6 6) _ (read-Safe 6 6 (omega arith)) λ _ _.
        bind-Safe Any Any (bytes 0 4) _ (bytes-Safe 0 4 (omega arith)) λ host _.
          bind-Safe Any Any (bytes 4 2) _ (bytes-Safe 4 2 (omega arith)) λ port _.
            bind-Safe Any Any (connect connects getaddrinfo getsockname fd _) _
              (connect-Safe fd (record { host = host; port = port })) λ _ _ s v. (tt, v)

  try_each-Safe : (rest : List Address) → Safe Any (try_each connects getaddrinfo getsockname rest)
  unfolding try_each socket connect close
  try_each-Safe [] s v = v
  try_each-Safe (a ∷ rest) s v = by_sockets s.sockets (try_each-Safe rest)
    where
      by_sockets :
          (fs : List (Option ℕ))
          → Safe Any (try_each connects getaddrinfo getsockname rest)
          → NoFault Any
              (try_each connects getaddrinfo getsockname (a ∷ rest) (record s { sockets = fs }))
      by_sockets [] later = tt
      by_sockets (none ∷ fs) later =
          later (record s { sockets = fs })
            (record { size = v.size; content = v.content; reads = v.reads })
      by_sockets (some fd ∷ fs) later =
          let t = record s { sockets = fs; opened = fd ∷ s.opened } in
          ground (arith, later (close fd (record s { sockets = fs; opened = fd ∷ s.opened })))

  resolved-Safe :
      (r : Option (List Address)) → Safe Any (resolved connects getaddrinfo getsockname r)
  unfolding resolved
  resolved-Safe none s v = v
  resolved-Safe (some results) s v = try_each-Safe results s v

  domainname-Safe : Safe Any (socks_request_connect_domainname connects getaddrinfo getsockname)
  unfolding socks_request_connect_domainname
  domainname-Safe = bind-Safe Any Any (read 1 1) _ (read-Safe 1 1 (omega arith)) λ _ _.
      bind-Safe (λ b. b < 256) Any (byte 0) _ (byte-Safe 0 (omega arith))
        λ len lt.
          bind-Safe Any Any (read (len + 2) len) _ (read-Safe (len + 2) len (omega arith)) λ _ _.
            bind-Safe Any Any (bytes 0 len) _ (bytes-Safe 0 len (omega arith)) λ name _.
              bind-Safe (λ b. b < 256) Any (byte len) _ (byte-Safe len (omega arith))
                λ high _.
                  bind-Safe (λ b. b < 256) Any (byte (len + 1)) _
                    (byte-Safe (len + 1) (omega arith))
                    λ low _. resolved-Safe (getaddrinfo (c_string name) (port_text high low))

  by_type-Safe : (t : ℕ) → Safe Any (by_type connects getaddrinfo getsockname t)
  unfolding by_type
  by_type-Safe t =
      if_elim (Safe Any) (t == 1) (λ _. ipv4-Safe)
        λ _. if_elim (Safe Any) (t == 3) (λ _. domainname-Safe) λ _ s v. v

  socks_request-Safe : Safe Any (socks_request connects getaddrinfo getsockname)
  unfolding socks_request
  socks_request-Safe = bind-Safe Any Any (read 4 4) _ (read-Safe 4 4 (omega arith)) λ _ _.
      bind-Safe (λ b. b < 256) Any (byte 0) _ (byte-Safe 0 (omega arith))
        λ version _. bind-Safe Any Any (guard (version == 5)) _ (guard-Safe (version == 5)) λ _ _.
          bind-Safe (λ b. b < 256) Any (byte 1) _ (byte-Safe 1 (omega arith))
            λ command _.
              bind-Safe Any Any (guard (command == 1)) _ (guard-Safe (command == 1)) λ _ _.
                bind-Safe (λ b. b < 256) Any (byte 3) _ (byte-Safe 3 (omega arith))
                  λ t _. by_type-Safe t

  after-Safe :
      (m : Outcome (Option ℕ × Session)) (k : Option ℕ → Session → Outcome (Option ℕ × Session))
      → NoFault Any m
      → ((r : Option ℕ) (t : Session) → IsSafe t → NoFault Any (k r t))
      → NoFault Any (elim m [ done (r, t) ↦ k r t | blocked ↦ blocked | fault ↦ fault ])
  after-Safe (done (some fd, t)) k h next = next (some fd) t h.1
  after-Safe (done (none, t)) k h next = next none t h
  after-Safe blocked k h next = tt
  after-Safe fault k h next = absurd h

  module _
      (names : (fd : ℕ) (a : Address)
        → getsockname fd ≡ some a
        → AllBytes a.host × AllBytes a.port) where
    reply-Safe : (fd : ℕ) → Safe Any (socks_request_reply connects getaddrinfo getsockname fd)
    unfolding socks_request_reply
    reply-Safe fd = by_name (getsockname fd) (names fd)
      where
        by_name :
            (r : Option Address)
            → ((a : Address) → r ≡ some a → AllBytes a.host × AllBytes a.port)
            → Safe {A = Unit {0}} Any
                (elim r [ none ↦ fail | some a ↦ (do reply_head 0; reply_address a; write 10) ])
        by_name none h = λ s v. v
        by_name (some a) h =
            bind-Safe Any Any (reply_head 0) _ (reply_head-Safe 0 (omega arith)) λ _ _.
              bind-Safe Any Any (reply_address a) _ (reply_address-Safe a (h a refl).0 (h a refl).1)
                λ _ _. write-Safe 10 (omega arith)

    after_request-Safe :
        (r : Option ℕ)
        → (s : Session) → IsSafe s
        → NoFault Any (after_request connects getaddrinfo getsockname r s)
    unfolding after_request
    after_request-Safe none s v =
        failed (socks_request_reply_failed s) (socks_request_reply_failed-Safe s v)
      where
        failed :
            (m : Outcome (Option (Unit {0}) × Session))
            → NoFault Any m
            → NoFault {A = ℕ} Any
                (elim m [ done (_, t) ↦ done (none, t) | blocked ↦ blocked | fault ↦ fault ])
        failed (done (none, t)) h = h
        failed (done (some _, t)) h = h.1
        failed blocked h = tt
        failed fault h = absurd h
    after_request-Safe (some fd) s v =
        replied (socks_request_reply connects getaddrinfo getsockname fd s) (reply-Safe fd s v)
      where
        replied :
            (m : Outcome (Option (Unit {0}) × Session))
            → NoFault Any m
            → NoFault {A = ℕ} Any (elim m [
              | done (none, t) ↦ done (none, t)
              | done (some _, t) ↦ done (some fd, t)
              | blocked ↦ blocked
              | fault ↦ fault
            ])
        replied (done (none, t)) h = h
        replied (done (some _, t)) h = h
        replied blocked h = tt
        replied fault h = absurd h

    -- Whatever bytes the client sends, in whatever pieces, and whatever the sockets return, a
    -- round of the main loop never reads or writes outside the buffer of 512 bytes, and leaves it
    -- whole for the next client, where `getsockname` gives bytes.
    pub serve-NoFault :
        (s : Session) → IsSafe s → NoFault Any (serve connects getaddrinfo getsockname s)
    unfolding serve
    serve-NoFault s v =
        bound Any Any ((socks_auth >> socks_auth_reply) s)
          (λ _ t. elim (socks_request connects getaddrinfo getsockname t) [
            | done (fd, u) ↦ after_request connects getaddrinfo getsockname fd u
            | blocked ↦ blocked
            | fault ↦ fault
          ])
          (bind-Safe Any Any socks_auth (λ _. socks_auth_reply) socks_auth-Safe
            (λ _ _. socks_auth_reply-Safe) s v)
          λ _ _ t w.
            after-Safe (socks_request connects getaddrinfo getsockname t)
              (after_request connects getaddrinfo getsockname) (socks_request-Safe t w)
              after_request-Safe
