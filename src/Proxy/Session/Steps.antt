-- ===== src/Proxy/Session/Steps.antt =====
-- The steps of a conversation of examples/src/proxy_server.c where the sockets do all that is asked.
use quiet_lwip.Prelude.{
  sym, drop-set_before, ℕ, suc, ◌+◌, ◌≤◌, ◌<◌, ◌≡◌, ap, ◌∙◌, List, [], ◌∷◌, ◌++◌, append_assoc,
  Option, none, some, Bool, true, length, length-append, length-set, length-take, length-drop, take,
  drop, set, take-append_length, take_all, take-set, get_or, Outcome, done, blocked, fault, arith,
}
use native.Mathlib.Nat.{add-zero}
use quiet_lwip.Proxy.Session.{
  Session, M, ◌>>=◌, ◌>>◌, guard, byte, store, bytes, read, write, received,
}

-- A step that has a result, and what follows.
pub step {ℓ κ} :
    {A : Type ℓ} {B : Type κ} (m : M A) (f : A → M B) (s : Session) {t : Session} {a : A}
    {r : Outcome (Option B × Session)}
    → m s ≡ done (some a, t)
    → f a t ≡ r
    → (m >>= f) s ≡ r
step m f s e rest =
    ap
      (λ o. elim o [
        | done (some a, s') ↦ f a s'
        | done (none, s') ↦ done (none, s')
        | blocked ↦ blocked
        | fault ↦ fault
      ])
      e
    ∙ rest

pub byte-at :
    (i : ℕ) (s : Session)
    → length s.buf ≡ 512
    → i < 512
    → byte i s ≡ done (some (get_or s.buf i 0), s)
unfolding byte
byte-at i s size lt = ground arith

pub bytes-at :
    (i n : ℕ) (s : Session)
    → length s.buf ≡ 512
    → i + n ≤ 512
    → bytes i n s ≡ done (some (take n (drop i s.buf)), s)
unfolding bytes
bytes-at i n s size fits = ground arith

pub store-at :
    (i v : ℕ) (s : Session)
    → length s.buf ≡ 512
    → i < 512
    → store i v s ≡ done (some tt, record s { buf = set s.buf i v })
unfolding store
store-at i v s size lt = ground arith

pub write-full :
    (n : ℕ) (s : Session) (ws : List (Option ℕ))
    → length s.buf ≡ 512
    → n ≤ 512
    → s.writes ≡ some n ∷ ws
    → write n s ≡ done (some tt, record s { writes = ws; sent = s.sent ++ take n (take n s.buf) })
unfolding write
write-full n s ws size fits e = ground arith

pub take-take : (n : ℕ) (xs : List ℕ) → take n (take n xs) ≡ take n xs
take-take n xs = take_all n (take n xs) (omega (arith, length-take n xs))

-- Bytes stored one behind the other.
abbrev pub stores : ℕ → ℕ → List ℕ → M (Unit {0})
stores i v [] = store i v
stores i v (w ∷ vs) = store i v >> stores (suc i) w vs

-- The session with another buffer.
abbrev pub with_buf : List ℕ → Session → Session
with_buf b s = record s { buf = b }

pub stores_lem :
    (i v : ℕ) (vs : List ℕ) (s : Session)
    → length s.buf ≡ 512
    → i + length vs < 512
    → (b : List ℕ) × (length b ≡ 512)
      × (take (suc (i + length vs)) b ≡ take i s.buf ++ (v ∷ vs))
      × (drop (suc (i + length vs)) b ≡ drop (suc (i + length vs)) s.buf)
      × (stores i v vs s ≡ done (some tt, with_buf b s))
stores_lem i v [] s size fits = (
  set s.buf i v,
  length-set s.buf i v ∙ size,
  rw (add-zero i) (take-set s.buf i v (omega arith)),
  drop-set_before s.buf (suc (i + 0)) i v (omega arith),
  store-at i v s size (omega arith),
)
stores_lem i v (w ∷ vs) s size fits =
    let t = with_buf (set s.buf i v) s in
    let (b, len, front, behind, ran) =
      stores_lem (suc i) w vs (with_buf (set s.buf i v) s) (length-set s.buf i v ∙ size)
        (omega arith) in
    (
      b,
      len,
      ap (λ n. take n b) more
          ∙ front
          ∙ ap (λ l. l ++ (w ∷ vs)) (take-set s.buf i v (omega arith))
          ∙ append_assoc (take i s.buf) (v ∷ []) (w ∷ vs),
      ap (λ n. drop n b) more
          ∙ behind
          ∙ drop-set_before s.buf (suc (suc i + length vs)) i v (omega arith)
          ∙ ap (λ n. drop n s.buf) (sym more),
      step (store i v) (λ _. stores (suc i) w vs) s (store-at i v s size (omega arith)) ran,
    )
  where
    more : suc (i + length (w ∷ vs)) ≡ suc (suc i + length vs)
    more = omega arith

pub guard-true : (b : Bool) (s : Session) → b ≡ true → guard b s ≡ done (some tt, s)
guard-true b s e = rw e

-- A read that delivers all that it asks for.
pub read-full :
    (n least : ℕ) (s : Session) (got : List ℕ) (rs : List (Option (List ℕ)))
    → length s.buf ≡ 512
    → s.reads ≡ some got ∷ rs
    → length got ≡ n
    → n ≤ 512
    → least ≤ n
    → read n least s ≡ done (some tt, received got (record s { reads = rs }))
unfolding read
read-full n least s got rs size e len fits enough = ground (arith, take_all n got)

pub length-received :
    (got : List ℕ) (s : Session)
    → length s.buf ≡ 512
    → length got ≤ 512
    → length (received got s).buf ≡ 512
length-received got s size fits =
    omega (arith, length-append got (drop (length got) s.buf), length-drop (length got) s.buf)

pub bytes-received :
    (got : List ℕ) (s : Session)
    → length s.buf ≡ 512
    → length got ≤ 512
    → bytes 0 (length got) (received got s) ≡ done (some got, received got s)
unfolding bytes
bytes-received got s size fits =
    ground
      (arith, length-received got s, take-append_length got (drop (length got) s.buf) (length got))
