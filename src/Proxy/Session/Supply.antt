-- ===== src/Proxy/Session/Supply.antt =====
-- How many results of the sockets each step of a conversation in examples/src/proxy_server.c uses.
use quiet_lwip.Prelude.{
  ℕ, ◌+◌, ◌≤◌, length, Option, none, some, Bool, true, false, Outcome, done, blocked, fault, arith,
}
use quiet_lwip.Proxy.Session.{Session, M, ◌>>=◌, guard, byte, store, bytes, read, write, socket}

-- There are as many results of `lwip_read`, `lwip_write` and `socket` to come.
pub record Stock (n : ℕ) (s : Session) : Type 0 where
  pub reads : n ≤ length s.reads
  pub writes : n ≤ length s.writes
  pub sockets : n ≤ length s.sockets

-- A run does not wait, and leaves as many results to come.
abbrev pub Left {ℓ} : {A : Type ℓ} → ℕ → Outcome (Option A × Session) → Type 0
Left k (done (r, t)) = Stock k t
Left k blocked = ⊥
Left k fault = Unit

-- A handler uses no more than so many results of each.
abbrev pub Costs {ℓ} : {A : Type ℓ} → ℕ → M A → Type 0
Costs n m = (s : Session) (k : ℕ) → Stock (n + k) s → Left k (m s)

pub Stock-le : {m n : ℕ} {s : Session} → m ≤ n → Stock n s → Stock m s
Stock-le le h = record {
  reads = omega (arith, h.reads);
  writes = omega (arith, h.writes);
  sockets = omega (arith, h.sockets);
}

pub Costs-le {ℓ} : {A : Type ℓ} {m n : ℕ} (f : M A) → m ≤ n → Costs m f → Costs n f
Costs-le f le h s k stock = h s k (Stock-le (omega arith) stock)

pub bind-Costs {ℓ κ} :
    {A : Type ℓ} {B : Type κ} (a b : ℕ) (m : M A) (f : A → M B)
    → Costs a m
    → ((x : A) → Costs b (f x))
    → Costs (a + b) (m >>= f)
bind-Costs {A = A} {B = B} a b m f h next s k stock =
    goes_on (m s) (h s (b + k) (Stock-le (omega arith) stock))
  where
    goes_on :
        (r : Outcome (Option A × Session))
        → Left (b + k) r
        → Left k (elim r [
          | done (some x, t) ↦ f x t
          | done (none, t) ↦ done (none, t)
          | blocked ↦ blocked
          | fault ↦ fault
        ])
    goes_on (done (some x, t)) left = next x t k left
    goes_on (done (none, t)) left = Stock-le (omega arith) left
    goes_on blocked left = absurd left
    goes_on fault left = tt

-- A step that uses no result, and one that uses one.
pub after_free {ℓ κ} :
    {A : Type ℓ} {B : Type κ} (n : ℕ) (m : M A) (f : A → M B)
    → Costs 0 m
    → ((x : A) → Costs n (f x))
    → Costs n (m >>= f)
after_free n m f h next = Costs-le (m >>= f) (omega arith) (bind-Costs 0 n m f h next)

pub after_one {ℓ κ} :
    {A : Type ℓ} {B : Type κ} (n : ℕ) (m : M A) (f : A → M B)
    → Costs 1 m
    → ((x : A) → Costs n (f x))
    → Costs (1 + n) (m >>= f)
after_one n m f h next = bind-Costs 1 n m f h next

pub guard-Costs : (b : Bool) → Costs 0 (guard b)
guard-Costs true s k stock = Stock-le (omega arith) stock
guard-Costs false s k stock = Stock-le (omega arith) stock

pub byte-Costs : (i : ℕ) → Costs 0 (byte i)
unfolding byte
byte-Costs i s k stock = ground arith

pub store-Costs : (i v : ℕ) → Costs 0 (store i v)
unfolding store
store-Costs i v s k stock = ground arith

pub bytes-Costs : (i n : ℕ) → Costs 0 (bytes i n)
unfolding bytes
bytes-Costs i n s k stock = ground arith

pub read-Costs : (n least : ℕ) → Costs 1 (read n least)
unfolding read
read-Costs n least s k stock = ground arith

pub write-Costs : (n : ℕ) → Costs 1 (write n)
unfolding write
write-Costs n s k stock = ground arith

pub socket-Costs : Costs 1 socket
unfolding socket
socket-Costs s k stock = ground arith
