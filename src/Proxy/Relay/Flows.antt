-- ===== src/Proxy/Relay/Flows.antt =====
-- The two directions of the connections of a relay thread of examples/src/relay.c through a whole round.
use quiet_lwip.Prelude.{
  ℕ, ◌+◌, ◌≤◌, ◌<◌, ◌≡◌, sym, ap, subst, List, [], map, Option, none, some, Bool, done, Ensures,
  Ensures-bind, Ensures-map, Ensures-both, arith,
}
use quiet_lwip.Proxy.Crossbar.{
  Crossbar, Worker, items, num_relays, take_work, take_work_lem, take_work-IsSlots,
}
use quiet_lwip.Proxy.Relay.{Result, sweep_slots, read_verdict, write_verdict}
use quiet_lwip.Proxy.Relay.Owners.{entry_conn}
use quiet_lwip.Proxy.Relay.Round.{fd_loop, Round, Ready, serve_ready, select_and_serve, relay_round}
use quiet_lwip.Proxy.Relay.Conserved.{fd_loop_lem, relay_round_busy}
use quiet_lwip.Proxy.Relay.Arrays.{IsWorker, IsCrossbar}
use quiet_lwip.Proxy.Relay.Totals.{
  total, total-append, read_effect, write_effect, entry, read_loop_total, write_loop_total,
}

module _ {Conn : Type 0} (w : Conn → ℕ) (fd_setsize : ℕ) (fd_of : Conn → ℕ)
    (select : ℕ → List ℕ → List ℕ → Option Ready) (would_block : ℕ → Bool)
    (reads writes : Conn → Result) where
  -- A round with these weights in the thread's arrays at first.
  abbrev Flows : ℕ → ℕ → Round Conn → Type 0
  Flows m n r =
      (total w (items r.worker.relay_read) + total (read_effect w) r.effects ≡ m)
      × (total (entry w) (items r.worker.relay_write) + total (write_effect w) r.effects ≡ n)

  serve_ready-Flows :
      (ready : Ready) (u : Worker Conn) (incoming : Crossbar Conn)
      → IsWorker u
      → Ensures
          (serve_ready fd_setsize fd_of select would_block reads writes ready u incoming)
          (Flows (total w (items u.relay_read)) (total (entry w) (items u.relay_write)))
  unfolding serve_ready
  serve_ready-Flows ready u incoming v =
      Ensures-bind
        (sweep_slots (read_verdict would_block (λ c. ready.0 (fd_of c)) reads) u.relay_read) _ _ _
        (read_loop_total w would_block (λ c. ready.0 (fd_of c)) reads u.relay_read v.reading)
        λ r h.
          Ensures-bind
            (sweep_slots (write_verdict would_block (λ c. ready.1 (fd_of c)) writes) u.relay_write)
            _ _ _
            (write_loop_total w would_block (λ c. ready.1 (fd_of c)) writes u.relay_write v.writing)
            λ s k. (
              omega (arith, h.0, k.1, total-append (read_effect w) r.1 s.1),
              omega (arith, h.1, k.0, total-append (write_effect w) r.1 s.1),
            )

  select_and_serve-Flows :
      (u : Worker Conn) (incoming : Crossbar Conn)
      → ((c : Conn) → fd_of c < fd_setsize)
      → IsWorker u
      → Ensures
          (select_and_serve fd_setsize fd_of select would_block reads writes u incoming)
          (Flows (total w (items u.relay_read)) (total (entry w) (items u.relay_write)))
  unfolding select_and_serve total
  select_and_serve-Flows u incoming below v =
      Ensures-bind (fd_loop fd_setsize (map fd_of (items u.relay_read)) 0) _ _ _
        (fd_loop_lem fd_setsize fd_of (items u.relay_read) 0 below)
        λ r h.
          Ensures-bind
            (fd_loop fd_setsize (map (λ e. fd_of (entry_conn e)) (items u.relay_write)) r.0) _ _ _
            (fd_loop_lem fd_setsize (λ e. fd_of (entry_conn e)) (items u.relay_write) r.0
              (λ e. below (entry_conn e)))
            λ s k. by_select (select (s.0 + 1) r.1 s.1)
    where
      by_select :
          (found : Option Ready)
          → Ensures
              (elim found [
                | none ↦ done (record { worker = u; incoming = incoming; effects = [] })
                | some ready ↦
                    serve_ready fd_setsize fd_of select would_block reads writes ready u incoming
              ])
              (Flows (total w (items u.relay_read)) (total (entry w) (items u.relay_write)))
      by_select none = (omega arith, omega arith)
      by_select (some ready) = serve_ready-Flows ready u incoming v

  -- A round keeps what the thread reads from and what it writes to, those that waited for it included.
  pub relay_round-Flows :
      (u : Worker Conn) (incoming : Crossbar Conn)
      → ((c : Conn) → fd_of c < fd_setsize)
      → IsWorker u
      → IsCrossbar incoming
      → u.relay_read.used + incoming.for_reading.used ≤ num_relays
      → u.relay_write.used + incoming.for_writing.used ≤ num_relays
      → 0
        < u.relay_read.used + u.relay_write.used + incoming.for_writing.used
          + incoming.for_reading.used
      → Ensures (relay_round fd_setsize fd_of select would_block reads writes u incoming) (
          Flows
            (total w (items u.relay_read) + total w (items incoming.for_reading))
            (total (entry w) (items u.relay_write) + total (entry w) (items incoming.for_writing)))
  relay_round-Flows u incoming below v x room₁ room₂ busy =
      subst
        (λ m. Ensures m (
          Flows (total w (items u.relay_read) + total w (items incoming.for_reading))
            (total (entry w) (items u.relay_write) + total (entry w) (items incoming.for_writing))))
        (sym (relay_round_busy fd_setsize fd_of select would_block reads writes u incoming busy))
        (Ensures-bind (take_work u incoming)
          (λ t. select_and_serve fd_setsize fd_of select would_block reads writes t.0 t.1) _ _
          (Ensures-both (take_work u incoming) _ _
            (take_work_lem u incoming v.reading v.writing x.reading x.writing room₁ room₂)
            (take_work-IsSlots u incoming v.reading v.writing x.reading x.writing room₁ room₂))
          λ t h.
            Ensures-map (select_and_serve fd_setsize fd_of select would_block reads writes t.0 t.1)
              _ _
              (select_and_serve-Flows t.0 t.1 below (record { reading = h.1.0; writing = h.1.1 }))
              λ r k. (
                omega (
                  arith,
                  k.0,
                  ap (total w) h.0.0,
                  total-append w (items u.relay_read) (items incoming.for_reading),
                ),
                omega (
                  arith,
                  k.1,
                  ap (total (entry w)) h.0.1,
                  total-append (entry w) (items u.relay_write) (items incoming.for_writing),
                ),
              ))
