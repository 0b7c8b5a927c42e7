-- ===== src/Programs/Listening.antt =====
-- The sockets that the programs of examples/src open at their start, and a round of the loop of
-- examples/src/proxy_client.c. What the socket library returns is a parameter.
use quiet_lwip.Prelude.{
  ℕ, ◌≡◌, ◌↔◌, List, [], ◌∷◌, Option, none, some, Bool, true, false, ◌&&◌, ◌==◌, if◌then◌else◌,
  arith,
}

-- The results of the calls, true where one does not fail.
pub record Calls : Type 0 where
  pub socket : Option ℕ
  pub setsockopt : Bool
  pub bind : Bool
  pub listen : Bool
  pub connect : Bool

-- The descriptor that is returned, none for -1, and the descriptors that are open.
abbrev pub Opened : Type 0
Opened = Option ℕ × List ℕ

abbrev pub closed : ℕ → List ℕ → List ℕ
closed fd [] = []
closed fd (x ∷ xs) = let rest = closed fd xs in if x == fd then xs else x ∷ rest

-- `bind` and what follows, with the socket open.
abbrev pub bind_and_listen : Calls → ℕ → List ℕ → Opened
bind_and_listen r fd opened =
    if r.bind then if r.listen then (some fd, opened) else (none, opened) else (none, opened)

-- `open_recv` of the two servers on streams
unfoldable pub open_recv : Calls → List ℕ → Opened
open_recv r opened = elim (r.socket) [
  | none ↦ (none, opened)
  | some fd ↦ bind_and_listen r fd (fd ∷ opened)
]

-- `open_recv` of examples/src/proxy_client.c, which reuses the address.
unfoldable pub open_recv_reuse : Calls → List ℕ → Opened
open_recv_reuse r opened = elim (r.socket) [
  | none ↦ (none, opened)
  | some fd ↦
      if r.setsockopt then bind_and_listen r fd (fd ∷ opened) else (none, closed fd (fd ∷ opened))
]

-- `open_recv` of the two discovery programs
unfoldable pub open_recv_datagram : Calls → List ℕ → Opened
open_recv_datagram r opened = elim (r.socket) [
  | none ↦ (none, opened)
  | some fd ↦ if r.bind then (some fd, fd ∷ opened) else (none, fd ∷ opened)
]

-- `open_send` of examples/src/discovery_client.c
unfoldable pub open_send_broadcast : Calls → List ℕ → Opened
open_send_broadcast r opened = elim (r.socket) [
  | none ↦ (none, opened)
  | some fd ↦ if r.setsockopt then (some fd, fd ∷ opened) else (none, fd ∷ opened)
]

-- `open_send` of examples/src/proxy_client.c and examples/src/kv_client.c: a connection that fails is
-- reported on the terminal only.
unfoldable pub open_send : Calls → List ℕ → Opened
open_send r opened = elim (r.socket) [
  | none ↦ (none, opened)
  | some fd ↦ if r.connect then (some fd, fd ∷ opened) else (some fd, fd ∷ opened)
]

-- A round of the loop of examples/src/proxy_client.c: what `accept` gives; the pair that is handed to the
-- relay, if one is; the sockets that are open.
unfoldable pub client_round : Option ℕ → Calls → List ℕ → Option (ℕ × ℕ) × List ℕ
unfolding open_send
client_round none r opened = (none, opened)
client_round (some conn_fd) r opened =
    let (remote, then_open) = open_send r (conn_fd ∷ opened) in
    elim remote [
      | none ↦ (none, closed conn_fd then_open)
      | some remote_fd ↦ (some (conn_fd, remote_fd), then_open)
    ]

-- A server gets the socket that it listens on exactly if all three calls succeed. If one of the two after
-- `socket` fails, the socket stays open; `open_recv` of the client closes it where it cannot set the
-- option, and only there.
pub open_recv_lem :
    (r : Calls) (opened : List ℕ) (fd : ℕ)
    → r.socket ≡ some fd
    → ((open_recv r opened ≡ (some fd, fd ∷ opened)) ↔ ((r.bind && r.listen) ≡ true))
      × ((r.bind && r.listen) ≡ false → open_recv r opened ≡ (none, fd ∷ opened))
      × (r.setsockopt ≡ false → open_recv_reuse r opened ≡ (none, opened))
      × (r.setsockopt ≡ true → open_recv_reuse r opened ≡ open_recv r opened)
unfolding open_recv open_recv_reuse
open_recv_lem r opened fd e = (
  ((λ q. ground (arith, e, q)), λ q. ground (arith, e, q)),
  (λ q. ground (arith, e, q)),
  (λ q. ground (arith, e, q)),
  λ q. ground (arith, e, q),
)

-- The proxy client hands a connection over to the relay, or closes it: the second exactly where no socket
-- could be made. Whether the connection to the proxy succeeded makes no difference.
pub client_round_lem :
    (conn_fd : ℕ) (r : Calls) (opened : List ℕ)
    → (r.socket ≡ none → client_round (some conn_fd) r opened ≡ (none, opened))
      × ((fd : ℕ)
          → r.socket ≡ some fd
          → client_round (some conn_fd) r opened ≡ (some (conn_fd, fd), fd ∷ conn_fd ∷ opened))
unfolding client_round open_send
client_round_lem conn_fd r opened = ((λ q. ground (arith, q)), λ fd q. ground (arith, q))
