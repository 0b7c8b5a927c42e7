-- ===== src/Proxy/Socks/Targets.antt =====
-- What a client of examples/src/proxy_server.c asks for is what the server connects to.
use quiet_lwip.Prelude.{
  ℕ, ◌+◌, ◌<◌, ◌≡◌, refl, ap, ◌∙◌, List, [], ◌∷◌, ◌++◌, append_assoc, Option, some, Bool, true,
  length, length-append, take, drop, take-append_length, get_or, get_or-append, done, arith,
}
use quiet_lwip.Proxy.Session.{Address, Session, byte, bytes, read, socket, received}
use quiet_lwip.Proxy.Session.Steps.{step, byte-at, bytes-at, read-full, length-received}
use quiet_lwip.Proxy.Socks.{
  port_text, c_string, connect, socks_request_connect_ipv4, try_each, resolved,
  socks_request_connect_domainname, by_type, socks_request,
}

module _ (connects : Address → Bool) (getaddrinfo : List ℕ → List ℕ → Option (List Address))
    (getsockname : ℕ → Option Address) (s : Session) (size : length s.buf ≡ 512)
    (rs : List (Option (List ℕ))) (fd : ℕ) (fds : List (Option ℕ))
    (sockets : s.sockets ≡ some fd ∷ fds) (rsv : ℕ) where
  -- A connection to an address of four bytes and a port of two.
  module _ (a b c d p q : ℕ)
      (reads : s.reads ≡ some (5 ∷ 1 ∷ rsv ∷ 1 ∷ []) ∷ some (a ∷ b ∷ c ∷ d ∷ p ∷ q ∷ []) ∷ rs)
      (accepted : connects (record { host = a ∷ b ∷ c ∷ d ∷ []; port = p ∷ q ∷ [] }) ≡ true) where
    abbrev target : Address
    target = record { host = a ∷ b ∷ c ∷ d ∷ []; port = p ∷ q ∷ [] }

    abbrev requested : Session
    requested =
        received (5 ∷ 1 ∷ rsv ∷ 1 ∷ [])
          (record s { reads = some (a ∷ b ∷ c ∷ d ∷ p ∷ q ∷ []) ∷ rs })

    requested_size : length requested.buf ≡ 512
    requested_size =
        length-received (5 ∷ 1 ∷ rsv ∷ 1 ∷ [])
          (record s { reads = some (a ∷ b ∷ c ∷ d ∷ p ∷ q ∷ []) ∷ rs }) size (omega arith)

    abbrev with_socket : Session
    with_socket = record requested { sockets = fds; opened = fd ∷ s.opened }

    abbrev addressed : Session
    addressed = received (a ∷ b ∷ c ∷ d ∷ p ∷ q ∷ []) (record with_socket { reads = rs })

    addressed_size : length addressed.buf ≡ 512
    addressed_size =
        length-received (a ∷ b ∷ c ∷ d ∷ p ∷ q ∷ []) (record with_socket { reads = rs })
          requested_size (omega arith)

    socket_lem : socket requested ≡ done (some fd, with_socket)
    unfolding socket
    socket_lem = rw sockets refl

    connect_lem :
        connect connects getaddrinfo getsockname fd target addressed
        ≡ done (some tt, record addressed { connected = (fd, target) ∷ s.connected })
    unfolding connect
    connect_lem = rw accepted refl

    request_ipv4_lem :
        socks_request connects getaddrinfo getsockname s
        ≡ done (some fd, record addressed { connected = (fd, target) ∷ s.connected })
    unfolding socks_request by_type socks_request_connect_ipv4
    request_ipv4_lem =
        step (read 4 4) _ s
          (read-full 4 4 s (5 ∷ 1 ∷ rsv ∷ 1 ∷ []) (some (a ∷ b ∷ c ∷ d ∷ p ∷ q ∷ []) ∷ rs) size
            reads (omega arith) (omega arith) (omega arith))
          (step (byte 0) _ requested (byte-at 0 requested requested_size (omega arith)) (
            step (byte 1) _ requested (byte-at 1 requested requested_size (omega arith)) (
              step (byte 3) _ requested (byte-at 3 requested requested_size (omega arith)) (
                step socket _ requested socket_lem (
                  step (read 6 6) _ with_socket
                    (read-full 6 6 with_socket (a ∷ b ∷ c ∷ d ∷ p ∷ q ∷ []) rs requested_size refl
                      (omega arith) (omega arith) (omega arith))
                    (step (bytes 0 4) _ addressed
                      (bytes-at 0 4 addressed addressed_size (omega arith))
                      (step (bytes 4 2) _ addressed
                        (bytes-at 4 2 addressed addressed_size (omega arith))
                        (step (connect connects getaddrinfo getsockname fd target) _ addressed
                          connect_lem refl))))))))

    pub request_ipv4 :
        (buf : List ℕ) × (length buf ≡ 512)
        × (socks_request connects getaddrinfo getsockname s
            ≡ done (
              some fd,
              record s {
                buf = buf;
                reads = rs;
                sockets = fds;
                opened = fd ∷ s.opened;
                connected = (fd, target) ∷ s.connected;
              },
            ))
    request_ipv4 = (addressed.buf, addressed_size, request_ipv4_lem)

  -- A connection to a name of at most 255 bytes and a port of two.
  module _ (name : List ℕ) (few : length name < 256) (p q : ℕ) (target : Address)
      (others : List Address)
      (reads : s.reads
        ≡ some (5 ∷ 1 ∷ rsv ∷ 3 ∷ []) ∷ some (length name ∷ []) ∷ some (name ++ (p ∷ q ∷ [])) ∷ rs)
      (found : getaddrinfo (c_string name) (port_text p q) ≡ some (target ∷ others))
      (accepted : connects target ≡ true) where
    abbrev asked : Session
    asked =
        received (5 ∷ 1 ∷ rsv ∷ 3 ∷ [])
          (record s { reads = some (length name ∷ []) ∷ some (name ++ (p ∷ q ∷ [])) ∷ rs })

    asked_size : length asked.buf ≡ 512
    asked_size =
        length-received (5 ∷ 1 ∷ rsv ∷ 3 ∷ [])
          (record s { reads = some (length name ∷ []) ∷ some (name ++ (p ∷ q ∷ [])) ∷ rs }) size
          (omega arith)

    abbrev counted : Session
    counted =
        received (length name ∷ []) (record asked { reads = some (name ++ (p ∷ q ∷ [])) ∷ rs })

    counted_size : length counted.buf ≡ 512
    counted_size =
        length-received (length name ∷ [])
          (record asked { reads = some (name ++ (p ∷ q ∷ [])) ∷ rs }) asked_size (omega arith)

    abbrev named : Session
    named = received (name ++ (p ∷ q ∷ [])) (record counted { reads = rs })

    name_size : length (name ++ (p ∷ q ∷ [])) ≡ length name + 2
    name_size = length-append name (p ∷ q ∷ [])

    named_size : length named.buf ≡ 512
    named_size =
        length-received (name ++ (p ∷ q ∷ [])) (record counted { reads = rs }) counted_size
          (omega (arith, name_size))

    named_bytes : named.buf ≡ name ++ (p ∷ q ∷ drop (length (name ++ (p ∷ q ∷ []))) counted.buf)
    named_bytes = append_assoc name (p ∷ q ∷ []) (drop (length (name ++ (p ∷ q ∷ []))) counted.buf)

    high_byte : byte (length name) named ≡ done (some p, named)
    high_byte =
        byte-at (length name) named named_size (omega arith)
        ∙ ap (λ b. done (some b, named))
            (ap (λ xs. get_or xs (length name) 0) named_bytes
              ∙ get_or-append name (p ∷ q ∷ drop (length (name ++ (p ∷ q ∷ []))) counted.buf)
                  (length name) 0 0 (omega arith))

    low_byte : byte (length name + 1) named ≡ done (some q, named)
    low_byte =
        byte-at (length name + 1) named named_size (omega arith)
        ∙ ap (λ b. done (some b, named))
            (ap (λ xs. get_or xs (length name + 1) 0) named_bytes
              ∙ get_or-append name (p ∷ q ∷ drop (length (name ++ (p ∷ q ∷ []))) counted.buf)
                  (length name + 1) 1 0 (omega arith))

    whole_name : bytes 0 (length name) named ≡ done (some name, named)
    whole_name =
        bytes-at 0 (length name) named named_size (omega arith)
        ∙ ap (λ b. done (some b, named))
            (ap (λ xs. take (length name) xs) named_bytes
              ∙ take-append_length name (p ∷ q ∷ drop (length (name ++ (p ∷ q ∷ []))) counted.buf)
                  (length name) refl)

    abbrev name_connected : Session
    name_connected = record named {
      sockets = fds;
      opened = fd ∷ s.opened;
      connected = (fd, target) ∷ s.connected;
    }

    first_address :
        resolved connects getaddrinfo getsockname (some (target ∷ others)) named
        ≡ done (some fd, name_connected)
    unfolding resolved try_each socket connect
    first_address = ground (arith, sockets, accepted)

    request_domainname_lem :
        socks_request connects getaddrinfo getsockname s ≡ done (some fd, name_connected)
    unfolding socks_request by_type socks_request_connect_domainname
    request_domainname_lem =
        step (read 4 4) _ s
          (read-full 4 4 s (5 ∷ 1 ∷ rsv ∷ 3 ∷ [])
            (some (length name ∷ []) ∷ some (name ++ (p ∷ q ∷ [])) ∷ rs) size reads (omega arith)
            (omega arith) (omega arith))
          (step (byte 0) _ asked (byte-at 0 asked asked_size (omega arith)) (
            step (byte 1) _ asked (byte-at 1 asked asked_size (omega arith)) (
              step (byte 3) _ asked (byte-at 3 asked asked_size (omega arith)) (
                step (read 1 1) _ asked
                  (read-full 1 1 asked (length name ∷ []) (some (name ++ (p ∷ q ∷ [])) ∷ rs)
                    asked_size refl (omega arith) (omega arith) (omega arith))
                  (step (byte 0) _ counted (byte-at 0 counted counted_size (omega arith)) (
                    step (read (length name + 2) (length name)) _ counted
                      (read-full (length name + 2) (length name) counted (name ++ (p ∷ q ∷ [])) rs
                        counted_size refl name_size (omega arith) (omega arith))
                      (step (bytes 0 (length name)) _ named whole_name (
                        step (byte (length name)) _ named high_byte (
                          step (byte (length name + 1)) _ named low_byte (
                            ap (λ r. resolved connects getaddrinfo getsockname r named) found
                            ∙ first_address))))))))))

    pub request_domainname :
        (buf : List ℕ) × (length buf ≡ 512)
        × (socks_request connects getaddrinfo getsockname s
            ≡ done (
              some fd,
              record s {
                buf = buf;
                reads = rs;
                sockets = fds;
                opened = fd ∷ s.opened;
                connected = (fd, target) ∷ s.connected;
              },
            ))
    request_domainname = (named.buf, named_size, request_domainname_lem)
