-- ===== src/Programs/Exchange.antt =====
-- examples/src/discovery_client.c and examples/src/discovery_server.c with one another: a datagram to all
-- stations of the network, and the answers. The network is a parameter.
use quiet_lwip.Prelude.{
  ℕ, ◌+◌, ◌-◌, ◌*◌, ◌/◌, ◌^◌, ◌≡◌, refl, sym, ap, List, [], ◌∷◌, ◌++◌, map, Option, none, some,
  Bool, true, if◌then◌else◌, replicate, Outcome, done, blocked, ◌>>=◌,
}
use quiet_lwip.Programs.Discovery.{recv_str, send_str, round, round_lem}

-- A datagram of UDP. The port of its sender plays no part.
pub record Datagram : Type 0 where
  pub to_addr : ℕ
  pub to_port : ℕ
  pub from_addr : ℕ
  pub bytes : List ℕ

abbrev pub server_port : ℕ
server_port = 3_333

abbrev pub client_port : ℕ
client_port = 3_334

-- `send_packet` of the client, with the text "MARCO".
abbrev pub send_to_all : ℕ → Datagram
send_to_all from_addr = record {
  to_addr = 0xc0a800ff;
  to_port = server_port;
  from_addr = from_addr;
  bytes = recv_str;
}

-- A server: its address, its buffer, and the sender of its last datagram (`recv_from`).
pub record Station : Type 0 where
  pub addr : ℕ
  pub buf : List ℕ
  pub recv_from : ℕ

-- `send_packet` of the server
abbrev pub send_answer : Station → Option (List ℕ) → List Datagram
send_answer s none = []
send_answer s (some text) =
    record { to_addr = s.recv_from; to_port = client_port; from_addr = s.addr; bytes = text } ∷ []

-- A round of the server, with what `recvfrom` gives: none where it fails, which leaves `recv_from` as it
-- was. The result is the server afterwards, and what it sends.
unfoldable pub serve_datagram : Option Datagram → Station → Outcome (Station × List Datagram)
unfolding round
serve_datagram none s = do r ← round none s.buf; done (record s { buf = r.0 }, send_answer s r.1)
serve_datagram (some d) s = do
  r ← round (some d.bytes) s.buf
  done (
    record s { buf = r.0; recv_from = d.from_addr },
    send_answer (record s { recv_from = d.from_addr }) r.1,
  )

-- The stations get a datagram, one after the other, and answer; `reaches` says whether a datagram comes
-- to the socket with an address and a port.
module _ (reaches : ℕ → ℕ → Datagram → Bool) where
  unfoldable pub all_answers : Datagram → List Station → Outcome (List Datagram)
  unfolding serve_datagram
  all_answers d [] = done []
  all_answers d (s ∷ stations) =
      let rest = all_answers d stations in
      if reaches s.addr server_port d
      then (do r ← serve_datagram (some d) s; later ← rest; done (r.1 ++ later))
      else rest

  -- The first datagram that comes to the client's socket: it waits until there is one.
  unfoldable pub receive : ℕ → List Datagram → Outcome Datagram
  receive addr [] = blocked
  receive addr (d ∷ ds) =
      let rest = receive addr ds in if reaches addr client_port d then done d else rest

  -- The client from `send_packet` to the answer, with who has sent it.
  unfoldable pub discover : ℕ → List Station → Outcome (ℕ × List ℕ)
  unfolding all_answers receive
  discover addr stations = do
    answers ← all_answers (send_to_all addr) stations
    d ← receive addr answers
    done (d.from_addr, d.bytes)

-- The address for all stations of the network of an address, with a netmask of ones and then zeros.
abbrev pub broadcast_of : ℕ → ℕ → ℕ
broadcast_of netmask addr = let size = 2 ^ 32 - netmask in addr / size * size + (size - 1)

-- A datagram comes to the socket with its address and port, and to those with its port on every station
-- of the network whose address for all it has.
pub record Delivers (netmask : ℕ) (reaches : ℕ → ℕ → Datagram → Bool) : Type 0 where
  pub to_one :
      (addr port : ℕ) (d : Datagram)
      → d.to_addr ≡ addr
      → d.to_port ≡ port
      → reaches addr port d ≡ true
  pub to_all :
      (addr port : ℕ) (d : Datagram)
      → d.to_addr ≡ broadcast_of netmask addr
      → d.to_port ≡ port
      → reaches addr port d ≡ true

-- The stations are in the network of the address that the client sends to.
abbrev pub AllNear : List Station → Type 0
AllNear [] = Unit
AllNear (s ∷ stations) = (broadcast_of 0xffffff00 s.addr ≡ 0xc0a800ff) × AllNear stations

-- What a station answers to the client at an address.
abbrev pub polo : ℕ → Station → Datagram
polo client_addr s = record {
  to_addr = client_addr;
  to_port = client_port;
  from_addr = s.addr;
  bytes = send_str;
}

abbrev answered : ℕ → Station → Station
answered addr s = record s { buf = send_str ++ replicate 4_092 0; recv_from = addr }

serve_datagram_lem :
    (addr : ℕ) (s : Station)
    → serve_datagram (some (send_to_all addr)) s ≡ done (answered addr s, polo addr s ∷ [])
unfolding serve_datagram
serve_datagram_lem addr s =
    ap
      (λ m. m >>= λ r.
        done (
          record s { buf = r.0; recv_from = addr },
          send_answer (record s { recv_from = addr }) r.1,
        ))
      ((round_lem s.buf).0 recv_str (0 ∷ []) refl)

answers_first :
    (b : Bool) (m : Outcome (Station × List Datagram)) (n : Outcome (List Datagram)) (t : Station)
    (xs ys : List Datagram)
    → b ≡ true
    → m ≡ done (t, xs)
    → n ≡ done ys
    → (if b then (do r ← m; later ← n; done (r.1 ++ later)) else n) ≡ done (xs ++ ys)
answers_first b m n t xs ys e f g = rw (e, f, g) refl

module _ (reaches : ℕ → ℕ → Datagram → Bool) (net : Delivers 0xffffff00 reaches) where
  all_answers_lem :
      (addr : ℕ) (stations : List Station)
      → AllNear stations
      → all_answers reaches (send_to_all addr) stations ≡ done (map (polo addr) stations)
  unfolding all_answers serve_datagram
  all_answers_lem addr [] near = refl
  all_answers_lem addr (s ∷ stations) near =
      answers_first (reaches s.addr server_port (send_to_all addr))
        (serve_datagram (some (send_to_all addr)) s)
        (all_answers reaches (send_to_all addr) stations) (answered addr s) (polo addr s ∷ [])
        (map (polo addr) stations)
        (net.to_all s.addr server_port (send_to_all addr) (sym near.0) refl)
        (serve_datagram_lem addr s) (all_answers_lem addr stations near.1)

  -- A client finds every server that is in the network 192.168.0.0 with it: it gets the answer POLO of the
  -- first one, whatever the servers have received before, and all of them answer to its address and to the
  -- port that it listens on. The network delivers datagrams to an address and those to all.
  pub discover_lem :
      (addr : ℕ) (s : Station) (stations : List Station)
      → AllNear (s ∷ stations)
      → (all_answers reaches (send_to_all addr) (s ∷ stations)
          ≡ done (map (polo addr) (s ∷ stations)))
        × (discover reaches addr (s ∷ stations) ≡ done (s.addr, send_str))
  unfolding discover receive
  discover_lem addr s stations near =
      let answers = all_answers_lem addr (s ∷ stations) near in
      let here = net.to_one addr client_port (polo addr s) refl refl in
      (answers, rw (answers, discover, receive, here) refl)
