-- ===== src/Proxy/Socks/Supply.antt =====
-- How many results of the sockets a round of examples/src/proxy_server.c uses, so that it comes to its
-- end.
use quiet_lwip.Prelude.{
  ℕ, ◌+◌, ◌≤◌, ◌≡◌, List, [], ◌∷◌, length, Option, none, some, Bool, ◌==◌, if_elim, Option-cases,
  inl, inr, Outcome, done, blocked, fault, arith,
}
use quiet_lwip.Proxy.Session.{
  Address, Session, M, ◌>>◌, guard, byte, store, bytes, read, socket, close,
}
use quiet_lwip.Proxy.Socks.{
  socks_auth, socks_auth_reply, has_byte, reply_head, reply_address, clear_host, clear_half,
  socks_request_reply_failed, connect, socks_request_connect_ipv4, try_each, resolved,
  socks_request_connect_domainname, by_type, socks_request, socks_request_reply, after_request,
  serve, port_text, c_string,
}
use quiet_lwip.Proxy.Session.Supply.{
  Stock, Stock-le, Left, Costs, Costs-le, bind-Costs, after_free, after_one, guard-Costs,
  byte-Costs, store-Costs, bytes-Costs, read-Costs, write-Costs, socket-Costs,
}

connect-Costs :
    (connects : Address → Bool) (getaddrinfo : List ℕ → List ℕ → Option (List Address))
    (getsockname : ℕ → Option Address) (fd : ℕ) (a : Address)
    → Costs 0 (connect connects getaddrinfo getsockname fd a)
unfolding connect
connect-Costs connects getaddrinfo getsockname fd a s k stock = ground arith

socks_auth-Costs : Costs 2 socks_auth
unfolding socks_auth
socks_auth-Costs = after_one 1 (read 2 2) _ (read-Costs 2 2) λ _.
    after_free 1 (byte 0) _ (byte-Costs 0) λ version.
      after_free 1 (guard (version == 5)) _ (guard-Costs (version == 5)) λ _.
        after_free 1 (byte 1) _ (byte-Costs 1) λ n. after_one 0 (read n n) _ (read-Costs n n) λ _.
          after_free 0 (bytes 0 n) _ (bytes-Costs 0 n) λ methods. guard-Costs (has_byte 0 methods)

store_then : {A : Type 0} (n i v : ℕ) (m : M A) → Costs n m → Costs n (store i v >> m)
store_then n i v m h = after_free n (store i v) (λ _. m) (store-Costs i v) (λ _. h)

socks_auth_reply-Costs : Costs 1 socks_auth_reply
unfolding socks_auth_reply
socks_auth_reply-Costs = store_then 1 0 5 _ (store_then 1 1 0 _ (write-Costs 2))

reply_head-Costs : (code : ℕ) → Costs 0 (reply_head code)
unfolding reply_head
reply_head-Costs code =
    store_then 0 0 5 _ (store_then 0 1 code _ (store_then 0 2 0 _ (store-Costs 3 1)))

reply_address-Costs : (a : Address) → Costs 0 (reply_address a)
unfolding reply_address
reply_address-Costs a = store_then 0 4 _ _ (
    store_then 0 5 _ _
      (store_then 0 6 _ _ (store_then 0 7 _ _ (store_then 0 8 _ _ (store-Costs 9 _)))))

failed-Costs : Costs 1 socks_request_reply_failed
unfolding socks_request_reply_failed clear_host clear_half
failed-Costs = after_free 1 (reply_head 1) _ (reply_head-Costs 1) λ _.
    after_free 1 clear_host _
      (store_then 0 4 0 _ (store_then 0 5 0 _ (store_then 0 6 0 _ (store-Costs 7 0))))
      λ _. after_free 1 clear_half _ (store_then 0 10 0 _ (store-Costs 11 0)) λ _. write-Costs 10

-- A name has no more than so many addresses.
module _ (connects : Address → Bool) (getaddrinfo : List ℕ → List ℕ → Option (List Address))
    (getsockname : ℕ → Option Address) (most : ℕ)
    (few : (name port : List ℕ) (found : List Address)
      → getaddrinfo name port ≡ some found
      → length found ≤ most) where
  ipv4-Costs : Costs 2 (socks_request_connect_ipv4 connects getaddrinfo getsockname)
  unfolding socks_request_connect_ipv4
  ipv4-Costs = after_one 1 socket _ socket-Costs λ fd.
      after_one 0 (read 6 6) _ (read-Costs 6 6) λ _.
        after_free 0 (bytes 0 4) _ (bytes-Costs 0 4) λ host.
          after_free 0 (bytes 4 2) _ (bytes-Costs 4 2) λ port.
            after_free 0 (connect connects getaddrinfo getsockname fd _) _
              (connect-Costs connects getaddrinfo getsockname fd
                (record { host = host; port = port }))
              λ _ s k stock. Stock-le (omega arith) stock

  try_each-Costs :
      (found : List Address)
      → Costs (length found) (try_each connects getaddrinfo getsockname found)
  unfolding try_each socket connect close
  try_each-Costs [] s k stock = Stock-le (omega arith) stock
  try_each-Costs (a ∷ rest) s k stock = by_sockets s.sockets stock.sockets (try_each-Costs rest)
    where
      by_sockets :
          (fs : List (Option ℕ))
          → length (a ∷ rest) + k ≤ length fs
          → Costs (length rest) (try_each connects getaddrinfo getsockname rest)
          → Left k
              (try_each connects getaddrinfo getsockname (a ∷ rest) (record s { sockets = fs }))
      by_sockets [] le later = absurd (omega arith)
      by_sockets (none ∷ fs) le later =
          later (record s { sockets = fs }) k
            (record {
              reads = omega (arith, stock.reads);
              writes = omega (arith, stock.writes);
              sockets = omega arith;
            })
      by_sockets (some fd ∷ fs) le later =
          let t = record s { sockets = fs; opened = fd ∷ s.opened } in
          ground (arith, later (close fd (record s { sockets = fs; opened = fd ∷ s.opened })) k)

  resolved-Costs :
      (name port : List ℕ)
      → Costs most (resolved connects getaddrinfo getsockname (getaddrinfo name port))
  unfolding resolved
  resolved-Costs name port = elim (Option-cases (getaddrinfo name port)) [
    | inl e ↦ rw (e, resolved) (λ s k stock. Stock-le (omega arith) stock)
    | inr (found, e) ↦
        rw (e, resolved)
          (Costs-le (try_each connects getaddrinfo getsockname found) (few name port found e)
            (try_each-Costs found))
  ]

  domainname-Costs :
      Costs (1 + (1 + most)) (socks_request_connect_domainname connects getaddrinfo getsockname)
  unfolding socks_request_connect_domainname
  domainname-Costs = after_one (1 + most) (read 1 1) _ (read-Costs 1 1) λ _.
      after_free (1 + most) (byte 0) _ (byte-Costs 0) λ len.
        after_one most (read (len + 2) len) _ (read-Costs (len + 2) len) λ _.
          after_free most (bytes 0 len) _ (bytes-Costs 0 len) λ name.
            after_free most (byte len) _ (byte-Costs len) λ high.
              after_free most (byte (len + 1)) _ (byte-Costs (len + 1))
                λ low. resolved-Costs (c_string name) (port_text high low)

  by_type-Costs : (t : ℕ) → Costs (2 + most) (by_type connects getaddrinfo getsockname t)
  unfolding by_type
  by_type-Costs t =
      if_elim (Costs (2 + most)) (t == 1)
        (λ _.
          Costs-le (socks_request_connect_ipv4 connects getaddrinfo getsockname) (omega arith)
            ipv4-Costs)
        λ _.
          if_elim (Costs (2 + most)) (t == 3)
            (λ _.
              Costs-le (socks_request_connect_domainname connects getaddrinfo getsockname)
                (omega arith) domainname-Costs)
            λ _ s k stock. Stock-le (omega arith) stock

  socks_request-Costs : Costs (1 + (2 + most)) (socks_request connects getaddrinfo getsockname)
  unfolding socks_request
  socks_request-Costs = after_one (2 + most) (read 4 4) _ (read-Costs 4 4) λ _.
      after_free (2 + most) (byte 0) _ (byte-Costs 0) λ version.
        after_free (2 + most) (guard (version == 5)) _ (guard-Costs (version == 5)) λ _.
          after_free (2 + most) (byte 1) _ (byte-Costs 1) λ command.
            after_free (2 + most) (guard (command == 1)) _ (guard-Costs (command == 1))
              λ _. after_free (2 + most) (byte 3) _ (byte-Costs 3) λ t. by_type-Costs t

  reply-Costs : (fd : ℕ) → Costs 1 (socks_request_reply connects getaddrinfo getsockname fd)
  unfolding socks_request_reply
  reply-Costs fd = elim (Option-cases (getsockname fd)) [
    | inl e ↦ rw (e, socks_request_reply) (λ s k stock. Stock-le (omega arith) stock)
    | inr (a, e) ↦
        rw (e, socks_request_reply)
          (after_free 1 (reply_head 0) _ (reply_head-Costs 0)
            λ _. after_free 1 (reply_address a) _ (reply_address-Costs a) λ _. write-Costs 10)
  ]

  after_request-Costs :
      (fd : Option ℕ) (s : Session) (k : ℕ)
      → Stock (1 + k) s
      → Left k (after_request connects getaddrinfo getsockname fd s)
  unfolding after_request
  after_request-Costs none s k stock = told (socks_request_reply_failed s) (failed-Costs s k stock)
    where
      told :
          (m : Outcome (Option (Unit {0}) × Session))
          → Left k m
          → Left {A = ℕ} k
              (elim m [ done (_, t) ↦ done (none, t) | blocked ↦ blocked | fault ↦ fault ])
      told (done (r, t)) h = h
      told blocked h = absurd h
      told fault h = tt
  after_request-Costs (some fd) s k stock =
      told (socks_request_reply connects getaddrinfo getsockname fd s) (reply-Costs fd s k stock)
    where
      told :
          (m : Outcome (Option (Unit {0}) × Session))
          → Left k m
          → Left {A = ℕ} k (elim m [
            | done (none, t) ↦ done (none, t)
            | done (some _, t) ↦ done (some fd, t)
            | blocked ↦ blocked
            | fault ↦ fault
          ])
      told (done (none, t)) h = h
      told (done (some _, t)) h = h
      told blocked h = absurd h
      told fault h = tt

  requested :
      (m : Outcome (Option ℕ × Session)) (k : ℕ)
      → Left (1 + k) m
      → Left k (elim m [
        | done (fd, u) ↦ after_request connects getaddrinfo getsockname fd u
        | blocked ↦ blocked
        | fault ↦ fault
      ])
  requested (done (fd, u)) k h = after_request-Costs fd u k h
  requested blocked k h = absurd h
  requested fault k h = tt

  -- A round of the main loop with a client comes to its end, where for each of `lwip_read`, `lwip_write`
  -- and `socket` there are seven more results to come than a name has addresses at most.
  pub serve-Costs : Costs (7 + most) (serve connects getaddrinfo getsockname)
  unfolding serve
  serve-Costs s k stock = greeted ((socks_auth >> socks_auth_reply) s) (
      bind-Costs 2 1 socks_auth (λ _. socks_auth_reply) socks_auth-Costs
        (λ _. socks_auth_reply-Costs) s (1 + (2 + most) + (1 + k)) (Stock-le (omega arith) stock))
    where
      greeted :
          (m : Outcome (Option (Unit {0}) × Session))
          → Left (1 + (2 + most) + (1 + k)) m
          → Left {A = ℕ} k (elim m [
            | done (none, t) ↦ done (none, t)
            | done (some _, t) ↦ elim (socks_request connects getaddrinfo getsockname t) [
              | done (fd, u) ↦ after_request connects getaddrinfo getsockname fd u
              | blocked ↦ blocked
              | fault ↦ fault
            ]
            | blocked ↦ blocked
            | fault ↦ fault
          ])
      greeted (done (none, t)) h = Stock-le (omega arith) h
      greeted (done (some _, t)) h =
          requested (socks_request connects getaddrinfo getsockname t) k
            (socks_request-Costs t (1 + k) h)
      greeted blocked h = absurd h
      greeted fault h = tt
