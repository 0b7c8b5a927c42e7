-- ===== src/Proxy/Socks.antt =====
-- The SOCKS handlers of examples/src/proxy_server.c, and what its main loop does with one client.
pub mod Memory
pub mod Supply
pub mod Greeting
pub mod Targets
pub mod Replies
pub mod Rounds
pub mod Port
pub mod Sockets
mod Tests
use quiet_lwip.Prelude.{
  ℕ, zero, suc, ◌+◌, ◌*◌, ◌/◌, ◌%◌, ◌≡◌, List, [], ◌∷◌, ◌++◌, Option, none, some, Bool, true, false,
  take, get_or, ltb, ◌==◌, if◌then◌else◌, Outcome, done, blocked, fault,
}
use quiet_lwip.Proxy.Session.{
  Address, Session, M, ◌>>=◌, ◌>>◌, return, fail, guard, byte, store, bytes, read, write, socket,
  close,
}

abbrev pub socks_version : ℕ
socks_version = 5

abbrev pub socks_auth_noauth : ℕ
socks_auth_noauth = 0

abbrev pub socks_cmd_connect : ℕ
socks_cmd_connect = 1

abbrev pub socks_addr_ipv4 : ℕ
socks_addr_ipv4 = 1

abbrev pub socks_addr_domainname : ℕ
socks_addr_domainname = 3

abbrev pub socks_conn_succeeded : ℕ
socks_conn_succeeded = 0

abbrev pub socks_conn_failed : ℕ
socks_conn_failed = 1

-- Does a byte stand in the list?
abbrev pub has_byte : ℕ → List ℕ → Bool
has_byte b [] = false
has_byte b (x ∷ xs) = let rest = has_byte b xs in if x == b then true else rest

unfoldable pub socks_auth : M (Unit {0})
unfolding read byte bytes
socks_auth = do
  read 2 2
  version ← byte 0
  guard (version == socks_version)
  nmethods ← byte 1
  read nmethods nmethods
  methods ← bytes 0 nmethods
  guard (has_byte socks_auth_noauth methods)

unfoldable pub socks_auth_reply : M (Unit {0})
unfolding store write
socks_auth_reply = do store 0 socks_version; store 1 socks_auth_noauth; write 2

-- The text of a number in decimal, for numbers of `fuel` digits at most.
unfoldable pub decimal : ℕ → ℕ → List ℕ
decimal zero n = []
decimal (suc fuel) n =
    let rest = decimal fuel (n / 10) in
    if ltb n 10 then (b'0' + n) ∷ [] else rest ++ ((b'0' + n % 10) ∷ [])

-- `snprintf(port_s, 5, "%d", ntohs(remote_port))` writes four characters and a zero byte at most. A
-- `uint16_t` has five digits at most.
unfoldable pub port_text : ℕ → ℕ → List ℕ
unfolding decimal
port_text high low = take 4 (decimal 5 (high * 256 + low))

-- A block of bytes read as a string: up to its first zero byte.
unfoldable pub c_string : List ℕ → List ℕ
c_string [] = []
c_string (c ∷ cs) = let rest = c_string cs in if c == 0 then [] else c ∷ rest

unfoldable pub reply_head : ℕ → M (Unit {0})
unfolding store
reply_head code = do store 0 socks_version; store 1 code; store 2 0; store 3 socks_addr_ipv4

-- `htonl` and `htons` turn round, on a little-endian machine, what `getsockname` gave in the order of
-- the network.
unfoldable pub reply_address : Address → M (Unit {0})
unfolding store
reply_address a = do
  store 4 (get_or a.host 3 0)
  store 5 (get_or a.host 2 0)
  store 6 (get_or a.host 1 0)
  store 7 (get_or a.host 0 0)
  store 8 (get_or a.port 1 0)
  store 9 (get_or a.port 0 0)

-- `buf32[1] = 0`
unfoldable pub clear_host : M (Unit {0})
unfolding store
clear_host = do store 4 0; store 5 0; store 6 0; store 7 0

-- `buf16[5] = 0`
unfoldable pub clear_half : M (Unit {0})
unfolding store
clear_half = do store 10 0; store 11 0

unfoldable pub socks_request_reply_failed : M (Unit {0})
unfolding reply_head clear_host clear_half write
socks_request_reply_failed = do reply_head socks_conn_failed; clear_host; clear_half; write 10

-- `connects` says which addresses accept a connection; `getaddrinfo` resolves a name and a service,
-- or fails; `getsockname` gives the local address of a socket, or fails.
module _ (connects : Address → Bool) (getaddrinfo : List ℕ → List ℕ → Option (List Address))
    (getsockname : ℕ → Option Address) where
  unfoldable pub connect : ℕ → Address → M (Unit {0})
  connect fd a s =
      if connects a
      then done (some tt, record s { connected = (fd, a) ∷ s.connected })
      else done (none, s)

  unfoldable pub socks_request_connect_ipv4 : M ℕ
  unfolding socket read bytes connect
  socks_request_connect_ipv4 = do
    remote_fd ← socket
    read 6 6
    host ← bytes 0 4
    port ← bytes 4 2
    connect remote_fd (record { host = host; port = port })
    return remote_fd

  -- The loop over the addresses of a name.
  unfoldable pub try_each : List Address → M ℕ
  unfolding socket connect close
  try_each [] s = done (none, s)
  try_each (a ∷ rest) s = elim (socket s) [
    | blocked ↦ blocked
    | fault ↦ fault
    | done (none, t) ↦ try_each rest t
    | done (some fd, t) ↦ elim (connect fd a t) [
      | blocked ↦ blocked
      | fault ↦ fault
      | done (some _, u) ↦ done (some fd, u)
      | done (none, u) ↦ try_each rest (close fd u)
    ]
  ]

  abbrev resolved : Option (List Address) → M ℕ
  unfolding try_each
  resolved none = fail
  resolved (some results) = try_each results

  unfoldable pub socks_request_connect_domainname : M ℕ
  unfolding read byte bytes port_text c_string resolved
  socks_request_connect_domainname = do
    read 1 1
    len ← byte 0
    read (len + 2) len
    domainname ← bytes 0 len
    high ← byte len
    low ← byte (len + 1)
    resolved (getaddrinfo (c_string domainname) (port_text high low))

  abbrev by_type : ℕ → M ℕ
  unfolding socks_request_connect_ipv4 socks_request_connect_domainname
  by_type t =
      if t == socks_addr_ipv4
      then socks_request_connect_ipv4
      else if t == socks_addr_domainname
      then socks_request_connect_domainname
      else fail

  unfoldable pub socks_request : M ℕ
  unfolding read byte by_type
  socks_request = do
    read 4 4
    version ← byte 0
    guard (version == socks_version)
    command ← byte 1
    guard (command == socks_cmd_connect)
    address_type ← byte 3
    by_type address_type

  unfoldable pub socks_request_reply : ℕ → M (Unit {0})
  unfolding reply_head reply_address write
  socks_request_reply remote_fd = elim (getsockname remote_fd) [
    | none ↦ fail
    | some a ↦ (do reply_head socks_conn_succeeded; reply_address a; write 10)
  ]

  -- The end of a round of the main loop: the connection is closed, or handed to the relay together
  -- with a socket of the host.
  unfoldable pub after_request : Option ℕ → Session → Outcome (Option ℕ × Session)
  unfolding socks_request_reply socks_request_reply_failed
  after_request none s = elim (socks_request_reply_failed s) [
    | done (_, t) ↦ done (none, t)
    | blocked ↦ blocked
    | fault ↦ fault
  ]
  after_request (some fd) s = elim (socks_request_reply fd s) [
    | done (none, t) ↦ done (none, t)
    | done (some _, t) ↦ done (some fd, t)
    | blocked ↦ blocked
    | fault ↦ fault
  ]

  -- A round of the main loop after `accept`: none where it closes the connection.
  unfoldable pub serve : Session → Outcome (Option ℕ × Session)
  unfolding socks_auth socks_auth_reply socks_request after_request
  serve s = elim ((socks_auth >> socks_auth_reply) s) [
    | done (none, t) ↦ done (none, t)
    | done (some _, t) ↦ elim (socks_request t) [
      | done (fd, u) ↦ after_request fd u
      | blocked ↦ blocked
      | fault ↦ fault
    ]
    | blocked ↦ blocked
    | fault ↦ fault
  ]
