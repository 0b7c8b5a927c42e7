-- ===== src/Proxy/Session/Memory.antt =====
-- The buffer of a conversation of examples/src/proxy_server.c: what each step on it needs and keeps.
use quiet_lwip.Prelude.{
  ℕ, zero, suc, ◌+◌, ◌≤◌, ◌<◌, ◌≡◌, List, [], ◌∷◌, ◌++◌, Option, none, some, Bool, true, false,
  length, length-append, length-set, length-take, length-drop, take, drop, set, get_or, Outcome,
  done, blocked, fault, arith,
}
use quiet_lwip.Proxy.Session.{
  Session, M, ◌>>=◌, ◌>>◌, guard, byte, store, bytes, read, write, socket,
}

abbrev pub AllBytes : List ℕ → Type 0
AllBytes [] = Unit
AllBytes (b ∷ bs) = (b < 256) × AllBytes bs

-- What `lwip_read` delivers are bytes.
abbrev pub AllReads : List (Option (List ℕ)) → Type 0
AllReads [] = Unit
AllReads (none ∷ rs) = AllReads rs
AllReads (some got ∷ rs) = AllBytes got × AllReads rs

-- The buffer has its 512 bytes, and what is read are bytes.
pub record IsSafe (s : Session) : Type 0 where
  pub size : length s.buf ≡ 512
  pub content : AllBytes s.buf
  pub reads : AllReads s.reads

-- A run does not fault, leaves the session safe, and has a good result, if it has one.
abbrev pub NoFault {ℓ} : {A : Type ℓ} → (A → Type 0) → Outcome (Option A × Session) → Type 0
NoFault Q (done (some a, t)) = Q a × IsSafe t
NoFault Q (done (none, t)) = IsSafe t
NoFault Q blocked = Unit
NoFault Q fault = ⊥

abbrev pub Safe {ℓ} : {A : Type ℓ} → (A → Type 0) → M A → Type 0
Safe Q m = (s : Session) → IsSafe s → NoFault Q (m s)

abbrev pub Any {ℓ} : {A : Type ℓ} → A → Type 0
Any a = Unit

pub bound {ℓ κ} :
    {A : Type ℓ} {B : Type κ} (Q : A → Type 0) (R : B → Type 0) (m : Outcome (Option A × Session))
    (f : A → M B)
    → NoFault Q m
    → ((a : A) → Q a → Safe R (f a))
    → NoFault R (elim m [
      | done (some a, s') ↦ f a s'
      | done (none, s') ↦ done (none, s')
      | blocked ↦ blocked
      | fault ↦ fault
    ])
bound Q R (done (some a, t)) f h k = k a h.0 t h.1
bound Q R (done (none, t)) f h k = h
bound Q R blocked f h k = tt
bound Q R fault f h k = absurd h

pub bind-Safe {ℓ κ} :
    {A : Type ℓ} {B : Type κ} (Q : A → Type 0) (R : B → Type 0) (m : M A) (f : A → M B)
    → Safe Q m
    → ((a : A) → Q a → Safe R (f a))
    → Safe R (m >>= f)
bind-Safe Q R m f h k s v = bound Q R (m s) f (h s v) k

pub get_or-lt : (xs : List ℕ) (i : ℕ) → AllBytes xs → get_or xs i 0 < 256
get_or-lt [] i h = omega arith
get_or-lt (x ∷ xs) zero h = h.0
get_or-lt (x ∷ xs) (suc i) h = get_or-lt xs i h.1

set-AllBytes : (xs : List ℕ) (i v : ℕ) → AllBytes xs → v < 256 → AllBytes (set xs i v)
set-AllBytes [] i v h lt = tt
set-AllBytes (x ∷ xs) zero v h lt = (lt, h.1)
set-AllBytes (x ∷ xs) (suc i) v h lt = (h.0, set-AllBytes xs i v h.1 lt)

take-AllBytes : (n : ℕ) (xs : List ℕ) → AllBytes xs → AllBytes (take n xs)
take-AllBytes zero xs h = tt
take-AllBytes (suc n) [] h = tt
take-AllBytes (suc n) (x ∷ xs) h = (h.0, take-AllBytes n xs h.1)

drop-AllBytes : (n : ℕ) (xs : List ℕ) → AllBytes xs → AllBytes (drop n xs)
drop-AllBytes zero xs h = h
drop-AllBytes (suc n) [] h = tt
drop-AllBytes (suc n) (x ∷ xs) h = drop-AllBytes n xs h.1

append-AllBytes : (xs ys : List ℕ) → AllBytes xs → AllBytes ys → AllBytes (xs ++ ys)
append-AllBytes [] ys h k = k
append-AllBytes (x ∷ xs) ys h k = (h.0, append-AllBytes xs ys h.1 k)

pub byte-Safe : (i : ℕ) → i < 512 → Safe (λ b. b < 256) (byte i)
unfolding byte
byte-Safe i h s v = ground (arith, get_or-lt s.buf i v.content)

pub store-Safe : (i b : ℕ) → i < 512 → b < 256 → Safe Any (store i b)
unfolding store
store-Safe i b h lt s v = ground (arith, set-AllBytes s.buf i b v.content, length-set s.buf i b)

pub bytes-Safe : (i n : ℕ) → i + n ≤ 512 → Safe Any (bytes i n)
unfolding bytes
bytes-Safe i n h s v = ground arith

pub read-Safe : (n least : ℕ) → n ≤ 512 → Safe Any (read n least)
unfolding read
read-Safe n least h s v = by_reads s.reads v.reads
  where
    by_reads :
        (rs : List (Option (List ℕ)))
        → AllReads rs
        → NoFault Any (read n least (record s { reads = rs }))
    by_reads [] w = tt
    by_reads (none ∷ rs) w = record { size = v.size; content = v.content; reads = w }
    by_reads (some got ∷ rs) w = ground (
      arith,
      length-take n got,
      length-append (take n got) (drop (length (take n got)) s.buf),
      length-drop (length (take n got)) s.buf,
      append-AllBytes (take n got) (drop (length (take n got)) s.buf),
      take-AllBytes n got,
      drop-AllBytes (length (take n got)) s.buf,
    )

pub write-Safe : (n : ℕ) → n ≤ 512 → Safe Any (write n)
unfolding write
write-Safe n h s v = ground arith

pub socket-Safe : Safe Any socket
unfolding socket
socket-Safe s v = ground arith

pub guard-Safe : (b : Bool) → Safe Any (guard b)
guard-Safe true s v = (tt, v)
guard-Safe false s v = v

-- Writing bytes one after the other.
abbrev pub store_all : List (ℕ × ℕ) → M (Unit {0}) → M (Unit {0})
store_all [] last = last
store_all ((i, b) ∷ rest) last = store i b >> store_all rest last

abbrev pub AllFit : List (ℕ × ℕ) → Type 0
AllFit [] = Unit
AllFit ((i, b) ∷ rest) = (i < 512) × (b < 256) × AllFit rest

pub store_all-Safe :
    (rest : List (ℕ × ℕ)) (last : M (Unit {0}))
    → AllFit rest
    → Safe Any last
    → Safe Any (store_all rest last)
store_all-Safe [] last h k = k
store_all-Safe ((i, b) ∷ rest) last h k =
    bind-Safe Any Any (store i b) (λ _. store_all rest last) (store-Safe i b h.0 h.1)
      λ _ _. store_all-Safe rest last h.2 k
