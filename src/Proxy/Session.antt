-- ===== src/Proxy/Session.antt =====
-- The conversation of examples/src/proxy_server.c with one client: what the sockets return, in order,
-- the buffer that every handler shares, and the sockets of the host that are open.
pub mod Memory
pub mod Supply
pub mod Steps
use quiet_lwip.Prelude.{
  ℕ, ◌+◌, List, [], ◌∷◌, ◌++◌, Option, none, some, Bool, true, false, length, take, drop, set,
  get_or, ltb, leb, ◌==◌, if◌then◌else◌, Outcome, done, blocked, fault,
}

-- A socket address: the bytes of the address and of the port, in the order of the network.
pub record Address : Type 0 where
  pub host : List ℕ
  pub port : List ℕ

pub record Session : Type 0 where
  pub buf : List ℕ
  pub reads : List (Option (List ℕ))  -- results of `lwip_read`; none is -1
  pub writes : List (Option ℕ)  -- results of `lwip_write`
  pub sent : List ℕ  -- the bytes that the client has been sent
  pub sockets : List (Option ℕ)  -- results of `socket`
  pub opened : List ℕ  -- the sockets of the host that are open
  pub connected : List (ℕ × Address)  -- those that are connected, and to what, latest first

-- A handler: its result and the session afterwards. The result none is -1, after which the rest of a
-- `do` block is not run.
abbrev pub M {ℓ} : Type ℓ → Type ℓ
M A = Session → Outcome (Option A × Session)

infixl 5 ◌>>=◌ ◌>>◌
abbrev pub ◌>>=◌ {ℓ κ} : {A : Type ℓ} {B : Type κ} → M A → (A → M B) → M B
◌>>=◌ m f s = elim (m s) [
  | done (some a, s') ↦ f a s'
  | done (none, s') ↦ done (none, s')
  | blocked ↦ blocked
  | fault ↦ fault
]

abbrev pub ◌>>◌ {ℓ} : {B : Type ℓ} → M (Unit {0}) → M B → M B
m >> k = m >>= λ _. k

abbrev pub return {ℓ} : {A : Type ℓ} → A → M A
return a s = done (some a, s)

abbrev pub fail {ℓ} : {A : Type ℓ} → M A
fail s = done (none, s)

abbrev pub guard : Bool → M (Unit {0})
guard true = return tt
guard false = fail

-- `buf[i]` and `buf[i] = v`
unfoldable pub byte : ℕ → M ℕ
byte i s = if ltb i (length s.buf) then done (some (get_or s.buf i 0), s) else fault

unfoldable pub store : ℕ → ℕ → M (Unit {0})
store i v s =
    if ltb i (length s.buf) then done (some tt, record s { buf = set s.buf i v }) else fault

-- The `n` bytes from `buf + i`.
unfoldable pub bytes : ℕ → ℕ → M (List ℕ)
bytes i n s = if leb (i + n) (length s.buf) then done (some (take n (drop i s.buf)), s) else fault

-- The bytes that a read of `n` delivers, at the front of the buffer.
abbrev pub received : List ℕ → Session → Session
received got s = record s { buf = got ++ drop (length got) s.buf }

-- `nread = lwip_read(socket_fd, buf, n)`, and -1 if `nread < least`. A read returns `n` bytes at most.
unfoldable pub read : ℕ → ℕ → M (Unit {0})
read n least s = elim (s.reads) [
  | [] ↦ blocked
  | none ∷ rs ↦ done (none, record s { reads = rs })
  | some got ∷ rs ↦
      (if leb (length (take n got)) (length s.buf)
        then done (
          if ltb (length (take n got)) least then none else some tt,
          received (take n got) (record s { reads = rs }),
        )
        else fault)
]

-- `nwritten = lwip_write(client_fd, buf, n)`, and -1 if `nwritten < n`.
unfoldable pub write : ℕ → M (Unit {0})
write n s = elim (s.writes) [
  | [] ↦ blocked
  | none ∷ ws ↦ done (none, record s { writes = ws })
  | some k ∷ ws ↦
      (if leb n (length s.buf)
        then done (
          if ltb k n then none else some tt,
          record s { writes = ws; sent = s.sent ++ take k (take n s.buf) },
        )
        else fault)
]

-- `socket`, and -1 if it fails.
unfoldable pub socket : M ℕ
socket s = elim (s.sockets) [
  | [] ↦ blocked
  | none ∷ fs ↦ done (none, record s { sockets = fs })
  | some fd ∷ fs ↦ done (some fd, record s { sockets = fs; opened = fd ∷ s.opened })
]

-- `close` of a socket of the host.
abbrev pub remove : ℕ → List ℕ → List ℕ
remove fd [] = []
remove fd (x ∷ xs) = if x == fd then xs else x ∷ remove fd xs

unfoldable pub close : ℕ → Session → Session
close fd s = record s { opened = remove fd s.opened }
