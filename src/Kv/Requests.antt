-- ===== src/Kv/Requests.antt =====
-- The requests to examples/src/kv_server.c: one round of its loop. A block is its bytes.
pub mod Blocks
pub mod Answers
use quiet_lwip.Prelude.{
  ℕ, zero, suc, ◌+◌, ◌-◌, ◌*◌, ◌^◌, ◌%◌, min, List, [], ◌∷◌, ◌++◌, Option, none, some, map_some,
  Bool, true, false, length, take, drop, replicate, get_elem?, leb, ◌==◌, if◌then◌else◌, Outcome,
  done, fault, ◌>>=◌,
}
use quiet_lwip.Kv.{
  Pair, KeyValue, Library, memcmp, memcpy, key_len, value_len, key_value_find, key_value_add,
}
use quiet_lwip.Kv.Values.{is_eq}

abbrev pub recv_ping_str : List ℕ
recv_ping_str = b'P' ∷ b'I' ∷ b'N' ∷ b'G' ∷ []

abbrev pub send_ping_str : List ℕ
send_ping_str = b'P' ∷ b'O' ∷ b'N' ∷ b'G' ∷ []

abbrev pub recv_add_str : List ℕ
recv_add_str = b'A' ∷ b'D' ∷ b'D' ∷ b':' ∷ []

abbrev pub send_add_str : List ℕ
send_add_str = b'A' ∷ b'D' ∷ b'D' ∷ b'E' ∷ b'D' ∷ []

abbrev pub add_delim : ℕ
add_delim = b'='

abbrev pub recv_get_str : List ℕ
recv_get_str = b'G' ∷ b'E' ∷ b'T' ∷ b':' ∷ []

-- " ** NOT FOUND **"
abbrev pub get_notfound : List ℕ
get_notfound =
    b' ' ∷ b'*' ∷ b'*' ∷ b' ' ∷ b'N' ∷ b'O' ∷ b'T' ∷ b' ' ∷ b'F' ∷ b'O' ∷ b'U' ∷ b'N' ∷ b'D' ∷ b' '
    ∷ b'*' ∷ b'*' ∷ []

abbrev pub buf_len : ℕ
buf_len = 4_096

-- The store, the buffer, and `temp_kv`.
pub record Server : Type 0 where
  pub kv : KeyValue
  pub buf : List ℕ
  pub temp : Pair

-- `memcmp(buf, str, strlen(str)) == 0`
abbrev pub starts_with : List ℕ → List ℕ → Bool
unfolding memcmp
starts_with str buf = is_eq (memcmp (take (length str) buf) str)

-- A difference of two `size_t`s.
abbrev pub minus : ℕ → ℕ → ℕ
minus a b = (a + (2 ^ 64 - b)) % 2 ^ 64

-- `memset` of a block of 32 bytes and then `memcpy` of `n` bytes to it, which it must have room for.
unfoldable pub copy : ℕ → List ℕ → Outcome (List ℕ)
unfolding memcpy
copy n from = if leb n 32 then done (memcpy n (replicate 32 0) from) else fault

-- Where the delimiter stands among the first `n` bytes.
unfoldable pub delim : ℕ → List ℕ → Option ℕ
delim zero bs = none
delim (suc n) [] = none
delim (suc n) (b ∷ bs) =
    let rest = delim n bs in if b == add_delim then some 0 else map_some suc rest

-- `memset` of the buffer and then `memcpy` of an answer to its front.
abbrev pub answering : List ℕ → List ℕ
answering str = str ++ replicate (buf_len - length str) 0

module _ (lib : Library) where
  -- An ADD of `recv_len` bytes: the answer is empty where there is no delimiter.
  unfoldable pub add_request : ℕ → Server → Outcome (Server × List ℕ)
  unfolding delim copy key_value_add
  add_request recv_len s = elim (delim (min (minus (minus recv_len 4) 1) key_len) (drop 4 s.buf)) [
    | none ↦ done (s, [])
    | some i ↦ (do
      key ← copy i (drop 4 s.buf)
      value ← copy (minus recv_len (4 + i + 1)) (drop (4 + i + 1) s.buf)
      kv ← key_value_add lib (record { key = key; value = value }) s.kv
      done (
        record {
          kv = kv;
          buf = answering send_add_str;
          temp = record { key = key; value = value };
        },
        send_add_str,
      ))
  ]

  -- The answer to a GET, once the key stands in `temp_kv`.
  unfoldable pub answer_get : Pair → Server → Outcome (Server × List ℕ)
  unfolding key_value_find
  answer_get temp s = elim (key_value_find lib temp s.kv) [
    | none ↦ done (record s { temp = temp }, get_notfound)
    | some i ↦ elim (get_elem? s.kv.kv i) [
      | none ↦ fault
      | some p ↦ done (record s { temp = temp }, take value_len p.value)
    ]
  ]

  unfoldable pub get_request : ℕ → Server → Outcome (Server × List ℕ)
  unfolding copy answer_get
  get_request recv_len s = do
    key ← copy (minus recv_len 4) (drop 4 s.buf)
    answer_get (record (s.temp) { key = key }) s

  unfoldable pub by_command : ℕ → Server → Outcome (Server × List ℕ)
  unfolding add_request get_request
  by_command recv_len s =
      if starts_with recv_ping_str s.buf
      then done (record s { buf = answering send_ping_str }, send_ping_str)
      else if starts_with recv_add_str s.buf
      then add_request recv_len s
      else if starts_with recv_get_str s.buf
      then get_request recv_len s
      else done (s, [])

  -- A round: what `read` returns, none where it fails and [] where the client has closed. After a
  -- failure the round goes on with the old buffer and a length of -1.
  unfoldable pub request : Option (List ℕ) → Server → Outcome (Server × List ℕ)
  unfolding by_command
  request none s = by_command (2 ^ 64 - 1) s
  request (some []) s = done (s, [])
  request (some (b ∷ bs)) s =
      by_command (length (b ∷ bs)) (record s { buf = (b ∷ bs) ++ drop (length (b ∷ bs)) s.buf })
