-- ===== src/Proxy/Relay.antt =====
-- The two loops of `relay` in examples/src/relay.c over a thread's connections, after `select`. They go
-- through an array and, in place, write the entries that stay back to its front.
pub mod Sweep
pub mod Owners
pub mod Round
pub mod Conserved
pub mod Arrays
pub mod Totals
pub mod Flows
use quiet_lwip.Prelude.{
  ℕ, zero, suc, ◌+◌, ◌-◌, ◌≤◌, ◌<◌, ◌≡◌, refl, List, [], ◌∷◌, ◌++◌, Option, none, some, Bool, true,
  false, ltb, get_elem?, set, if◌then◌else◌, Outcome, done, fault, ◌>>=◌, ◌⊎◌, inl, inr,
}
use quiet_lwip.Proxy.Crossbar.{Slots}

-- What a loop finds for an entry: it stays, perhaps with another value, or it leaves with some effect.
pub data Verdict (A B : Type 0) : Type 0 where
  stays : A → Verdict A B
  leaves : B → Verdict A B

-- The loop with index `i` and `rounds` rounds to go; `kept` entries have been written back. The result
-- is the array, the number of entries kept, and the effects, in order.
unfoldable pub sweep :
    {A B : Type 0} → (A → Verdict A B) → ℕ → ℕ → ℕ → List A → Outcome (List A × ℕ × List B)
sweep verdict zero i kept entries = done (entries, kept, [])
sweep verdict (suc rounds) i kept entries = elim (get_elem? entries i) [
  | none ↦ fault
  | some a ↦ elim (verdict a) [
    | stays b ↦ sweep verdict rounds (suc i) (suc kept) (set entries kept b)
    | leaves e ↦ (do
      rest ← sweep verdict rounds (suc i) kept entries
      done (rest.0, rest.1, e ∷ rest.2))
  ]
]

-- The whole loop over an array.
unfoldable pub sweep_slots :
    {A B : Type 0} → (A → Verdict A B) → Slots A → Outcome (Slots A × List B)
sweep_slots verdict s = do
  r ← sweep verdict s.used 0 0 s.entries
  done (record { entries = r.0; used = r.1 }, r.2)

-- What `read` or `write` returns: a count, or -1 with the value of `get_errno()`.
pub data Result : Type 0 where
  count : ℕ → Result
  failed : ℕ → Result

-- What the loops do with a connection that leaves.
pub data Effect (Conn : Type 0) : Type 0 where
  to_writing : Conn → ℕ → Effect Conn  -- `crossbar_add_for_writing(outgoing, ...)`
  to_reading : Conn → Effect Conn  -- `crossbar_add_for_reading(outgoing, ...)`
  end_reading : Conn → Effect Conn  -- `other_shutdown(..., SHUT_WR)`, then `relay_conn_close`
  end_writing : Conn → Effect Conn  -- `other_shutdown(..., SHUT_RD)`, then `relay_conn_close`

-- `ready` is FD_ISSET on the set that `select` left; `result` is what `read` or `write` returns on the
-- connection; `would_block` says which error numbers are EAGAIN or EWOULDBLOCK.
module _ {Conn : Type 0} (would_block : ℕ → Bool) (ready : Conn → Bool)
    (result : Conn → Result) where
  -- The body of the loop over `relay_read`.
  unfoldable pub read_verdict : Conn → Verdict Conn (Effect Conn)
  read_verdict conn =
      if ready conn
      then elim (result conn) [
        | count n ↦ elim n [
          | zero ↦ leaves (end_reading conn)
          | suc m ↦ leaves (to_writing conn (suc m))
        ]
        | failed errno ↦ if would_block errno then stays conn else leaves (end_reading conn)
      ]
      else stays conn

  -- The body of the loop over `relay_write` and `write_len`.
  unfoldable pub write_verdict : Conn × ℕ → Verdict (Conn × ℕ) (Effect Conn)
  write_verdict (conn, len) =
      if ready conn
      then elim (result conn) [
        | count n ↦ elim n [
          | zero ↦ leaves (end_writing conn)
          | suc m ↦ if ltb (suc m) len then stays (conn, len - suc m) else leaves (to_reading conn)
        ]
        | failed errno ↦ if would_block errno then stays (conn, len) else leaves (end_writing conn)
      ]
      else stays (conn, len)
