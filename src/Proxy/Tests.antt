-- ===== src/Proxy/Tests.antt =====
-- The theorems on the relay at concrete inputs; connections are numbers.
use quiet_lwip.Prelude.{
  ℕ, ◌%◌, List, Option, some, false, ◌≡◌, refl, [], ◌∷◌, ◌++◌, Bool, arith, replicate, ◌==◌,
  Ensures,
}
use quiet_lwip.Proxy.Connection.{
  Conn, Reach, initial, later, step_inward, step_outward, relay_conn_close, adopts_read, reads_some,
  reads_end,
}
use quiet_lwip.Proxy.Connection.Safety.{bytes_in_order}
use quiet_lwip.Proxy.Crossbar.{
  Slots, Crossbar, Worker, items, IsSlots, crossbar_add_for_reading, crossbar_add_for_reading_lem,
}
use quiet_lwip.Proxy.Relay.{Result, count}
use quiet_lwip.Proxy.Relay.Round.{Ready}

-- Five bytes were read for the inward direction, and the outward one has come to its end.
open_conn : (c : Conn) × Reach c
unfolding relay_conn_close
open_conn = (
  _,
  later
      (later
        (later (later initial (step_inward _ _ _ (adopts_read _ refl)))
          (step_inward _ _ _ (reads_some _ (1 ∷ 2 ∷ 3 ∷ 4 ∷ 5 ∷ []) refl (cc))))
        (step_outward _ _ _ (adopts_read _ refl)))
      (step_outward _ _ _ (reads_end _ refl)),
)

bytes_in_order_example :
    (open_conn.0.inward.taken ≡ open_conn.0.inward.given ++ open_conn.0.inward.pending)
    × (open_conn.0.outward.taken ≡ open_conn.0.outward.given ++ open_conn.0.outward.pending)
bytes_in_order_example = bytes_in_order open_conn.1

abbrev two_queued : Slots ℕ
two_queued = record { entries = 4 ∷ 5 ∷ replicate 254 0; used = 2 }

abbrev one_waiting : Slots (ℕ × ℕ)
one_waiting = record { entries = (6, 10) ∷ replicate 255 (0, 0); used = 1 }

abbrev crossbar : Crossbar ℕ
crossbar = record { for_reading = two_queued; for_writing = one_waiting }

abbrev worker : Worker ℕ
worker = record { relay_read = two_queued; relay_write = one_waiting }

crossbar_add_for_reading_lem_example : Ensures (crossbar_add_for_reading 7 crossbar) (λ d.
    (items d.for_reading ≡ 4 ∷ 5 ∷ 7 ∷ []) × IsSlots d.for_reading × (d.for_writing ≡ one_waiting))
crossbar_add_for_reading_lem_example =
    crossbar_add_for_reading_lem crossbar 7 (refl, omega arith) (omega arith)

-- Connection 4 is ready and has three bytes.
abbrev ready : ℕ → Bool
ready c = c == 4

abbrev three_bytes : ℕ → Result
three_bytes c = count 3

-- `select` finds connection 4.
abbrev selected : ℕ → List ℕ → List ℕ → Option Ready
selected n reads writes = some (ready, λ fd. false)

abbrev fd : ℕ → ℕ
fd c = c % 1_024
