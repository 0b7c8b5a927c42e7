-- ===== src/Kv/Client.antt =====
-- examples/src/kv_client.c after its start, with the server of examples/src/kv_server.c at the other end
-- of its connection: a write and a read are whole.
pub mod Session
use quiet_lwip.Prelude.{
  ℕ, List, [], ◌∷◌, Option, none, some, length, take, drop, leb, ◌==◌, if◌then◌else◌, Outcome, done,
  blocked, fault, ◌>>=◌,
}
use quiet_lwip.Kv.{Library}
use quiet_lwip.Kv.Requests.{buf_len}
use quiet_lwip.Kv.Loop.{Serving, loop_round}

-- `memcpy(buf, request, strlen(request))`: the length is not tested. Nothing is read from an empty
-- request.
unfoldable pub send_request : List ℕ → Outcome (List ℕ)
send_request [] = blocked
send_request (b ∷ bs) = if leb (length (b ∷ bs)) buf_len then done (b ∷ bs) else fault

-- `printf("%.*s\n", recv_len, buf)`, up to the line's end: at most `recv_len` bytes, and up to the first
-- zero byte.
unfoldable pub printed : List ℕ → List ℕ
printed [] = []
printed (b ∷ bs) = let rest = printed bs in if b == 0 then [] else b ∷ rest

-- What the server writes in a round.
abbrev pub new_answers : Serving → Serving → List (Option ℕ × List ℕ)
new_answers s t = drop (length s.written) t.written

-- The read of the answer, which waits if there is none, and the end of the connection.
unfoldable pub read_answer :
    Library → List (Option ℕ × List ℕ) → Serving → Outcome (Serving × List ℕ)
unfolding loop_round printed
read_answer lib [] t = blocked
read_answer lib (answer ∷ others) t = do
  u ← loop_round lib (some []) t
  done (u, printed (take buf_len answer.1))

-- A client with a request, and the round of the server that it causes.
unfoldable pub client_run : Library → List ℕ → Serving → Outcome (Serving × List ℕ)
unfolding send_request loop_round read_answer
client_run lib text s = do
  sent ← send_request text
  t ← loop_round lib (some sent) s
  read_answer lib (new_answers s t) t
