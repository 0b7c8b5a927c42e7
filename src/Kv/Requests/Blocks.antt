-- ===== src/Kv/Requests/Blocks.antt =====
-- The blocks of 32 bytes into which examples/src/kv_server.c copies keys and values.
use quiet_lwip.Prelude.{
  ℕ, zero, suc, ◌+◌, ◌-◌, ◌≤◌, ◌<◌, min, ◌≡◌, ◌≢◌, refl, ◌∙◌, List, [], ◌∷◌, ◌++◌, some, length,
  length-append, length-drop, length-replicate, drop, drop-drop, drop-append_length,
  take-append_length, replicate, Outcome, done, fault, ◌>>=◌, arith,
}
use quiet_lwip.Kv.{Pair, KeyValue, Library, memcpy, key_value_add}
use quiet_lwip.Kv.Requests.{
  recv_add_str, send_add_str, add_delim, recv_get_str, Server, minus, copy, delim, answering,
  add_request, answer_get, get_request,
}

-- The bytes, and zeros behind them, in a block of 32.
abbrev pub padded : List ℕ → List ℕ
padded bs = bs ++ drop (length bs) (replicate 32 0)

-- The bytes have no delimiter.
abbrev pub Plain : List ℕ → Type 0
Plain [] = Unit
Plain (b ∷ bs) = (b ≢ add_delim) × Plain bs

pub delim-Plain :
    (key rest : List ℕ) (n : ℕ)
    → Plain key
    → length key < n
    → delim n (key ++ (add_delim ∷ rest)) ≡ some (length key)
unfolding delim
delim-Plain [] rest zero plain lt = absurd (omega arith)
delim-Plain [] rest (suc n) plain lt = refl
delim-Plain (b ∷ bs) rest zero plain lt = absurd (omega arith)
delim-Plain (b ∷ bs) rest (suc n) plain lt =
    let later = delim-Plain bs rest n plain.1 (omega arith) in ground (arith, plain.0, later)

pub copy-append :
    (bs rest : List ℕ) → length bs ≤ 32 → copy (length bs) (bs ++ rest) ≡ done (padded bs)
unfolding copy memcpy
copy-append bs rest few = ground (arith, take-append_length bs rest (length bs))

pub length-padded : (bs : List ℕ) → length bs ≤ 32 → length (padded bs) ≡ 32
length-padded bs few = omega (
  arith,
  length-append bs (drop (length bs) (replicate 32 0)),
  length-drop {A = ℕ} (length bs) (replicate 32 0),
  length-replicate {A = ℕ} 32 0,
)

pub drop-padded : (bs : List ℕ) → length bs ≤ 31 → drop 31 (padded bs) ≡ 0 ∷ []
drop-padded bs few =
    drop-append_length bs (drop (length bs) (replicate 32 0)) 31 (31 - length bs) (omega arith)
    ∙ drop-drop (length bs) (31 - length bs) 31 (replicate 32 0) (omega arith)

-- The pair that an ADD of a key and a value stores.
abbrev pub pair_of : List ℕ → List ℕ → Pair
pair_of key value = record { key = padded key; value = padded value }

abbrev pub add_of : List ℕ → List ℕ → List ℕ
add_of key value = recv_add_str ++ (key ++ (add_delim ∷ value))

abbrev pub get_of : List ℕ → List ℕ
get_of key = recv_get_str ++ key

-- The server once a pair is stored.
abbrev pub stored : Pair → KeyValue → Outcome (Server × List ℕ)
stored pair kv = done (record { kv = kv; buf = answering send_add_str; temp = pair }, send_add_str)

pub add_request_found :
    (lib : Library) (n i : ℕ) (s : Server) (k v : List ℕ)
    → delim (min (minus (minus n 4) 1) 32) (drop 4 s.buf) ≡ some i
    → copy i (drop 4 s.buf) ≡ done k
    → copy (minus n (4 + i + 1)) (drop (4 + i + 1) s.buf) ≡ done v
    → add_request lib n s ≡ (
        key_value_add lib (record { key = k; value = v }) s.kv
        >>= stored (record { key = k; value = v }))
unfolding add_request
add_request_found lib n i s k v found key value = rw (found, key, value, add_request) refl

pub add_request_overrun :
    (lib : Library) (n i : ℕ) (s : Server) (k : List ℕ)
    → delim (min (minus (minus n 4) 1) 32) (drop 4 s.buf) ≡ some i
    → copy i (drop 4 s.buf) ≡ done k
    → copy (minus n (4 + i + 1)) (drop (4 + i + 1) s.buf) ≡ fault
    → add_request lib n s ≡ fault
unfolding add_request
add_request_overrun lib n i s k found key value = rw (found, key, value, add_request) refl

pub get_request_found :
    (lib : Library) (n : ℕ) (s : Server) (k : List ℕ)
    → copy (minus n 4) (drop 4 s.buf) ≡ done k
    → get_request lib n s ≡ answer_get lib (record (s.temp) { key = k }) s
unfolding get_request
get_request_found lib n s k copied = rw (copied, get_request) refl

pub copy-fault : (n : ℕ) (bs : List ℕ) → 32 < n → copy n bs ≡ fault
unfolding copy
copy-fault n bs long = ground arith
