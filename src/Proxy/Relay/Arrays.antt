-- ===== src/Proxy/Relay/Arrays.antt =====
-- The arrays of a relay thread of examples/src/relay.c, and its crossbar, after a round.
use quiet_lwip.Prelude.{
  ℕ, ◌+◌, ◌≤◌, ◌<◌, ◌≡◌, refl, List, [], map, subst, sym, Option, none, some, Bool, done, Ensures,
  Ensures-bind,
}
use quiet_lwip.Proxy.Crossbar.{
  Crossbar, Worker, items, IsSlots, num_relays, crossbar_init, take_work, append_all,
  append_all_lem,
}
use quiet_lwip.Proxy.Relay.{Result, sweep_slots, read_verdict, write_verdict}
use quiet_lwip.Proxy.Relay.Owners.{entry_conn}
use quiet_lwip.Proxy.Relay.Sweep.{sweep_slots_lem}
use quiet_lwip.Proxy.Relay.Round.{fd_loop, Round, Ready, serve_ready, select_and_serve, relay_round}
use quiet_lwip.Proxy.Relay.Conserved.{fd_loop_lem, relay_round_busy}

-- The arrays of a thread are sound.
pub record IsWorker {Conn : Type 0} (w : Worker Conn) : Type 0 where
  pub reading : IsSlots w.relay_read
  pub writing : IsSlots w.relay_write

pub record IsCrossbar {Conn : Type 0} (c : Crossbar Conn) : Type 0 where
  pub reading : IsSlots c.for_reading
  pub writing : IsSlots c.for_writing

-- After a round the arrays are sound, and the crossbar is the one given.
abbrev pub Leaves : {Conn : Type 0} → Crossbar Conn → Round Conn → Type 0
Leaves incoming r = IsWorker r.worker × (r.incoming ≡ incoming)

-- Taking up the work is to empty the crossbar.
take_work-crossbar_init :
    {Conn : Type 0} (w : Worker Conn) (incoming : Crossbar Conn)
    → IsWorker w
    → IsCrossbar incoming
    → w.relay_read.used + incoming.for_reading.used ≤ num_relays
    → w.relay_write.used + incoming.for_writing.used ≤ num_relays
    → Ensures (take_work w incoming) λ r. IsWorker r.0 × (r.1 ≡ crossbar_init incoming)
unfolding take_work crossbar_init
take_work-crossbar_init w incoming v u room₁ room₂ =
    Ensures-bind (append_all incoming.for_reading w.relay_read) _ _ _
      (append_all_lem incoming.for_reading w.relay_read u.reading v.reading room₁)
      λ r h.
        Ensures-bind (append_all incoming.for_writing w.relay_write) _ _ _
          (append_all_lem incoming.for_writing w.relay_write u.writing v.writing room₂)
          λ s k. (record { reading = h.1; writing = k.1 }, refl)

module _ {Conn : Type 0} (fd_setsize : ℕ) (fd_of : Conn → ℕ)
    (select : ℕ → List ℕ → List ℕ → Option Ready) (would_block : ℕ → Bool)
    (reads writes : Conn → Result) where
  serve_ready-Leaves :
      (ready : Ready) (w : Worker Conn) (incoming : Crossbar Conn)
      → IsWorker w
      → Ensures
          (serve_ready fd_setsize fd_of select would_block reads writes ready w incoming)
          (Leaves incoming)
  unfolding serve_ready
  serve_ready-Leaves ready w incoming v =
      Ensures-bind
        (sweep_slots (read_verdict would_block (λ c. ready.0 (fd_of c)) reads) w.relay_read) _ _ _
        (sweep_slots_lem (read_verdict would_block (λ c. ready.0 (fd_of c)) reads) w.relay_read
          v.reading)
        λ r h.
          Ensures-bind
            (sweep_slots (write_verdict would_block (λ c. ready.1 (fd_of c)) writes) w.relay_write)
            _ _ _
            (sweep_slots_lem (write_verdict would_block (λ c. ready.1 (fd_of c)) writes)
              w.relay_write v.writing)
            λ s k. (record { reading = h.2; writing = k.2 }, refl)

  select_and_serve-Leaves :
      (w : Worker Conn) (incoming : Crossbar Conn)
      → ((c : Conn) → fd_of c < fd_setsize)
      → IsWorker w
      → Ensures
          (select_and_serve fd_setsize fd_of select would_block reads writes w incoming)
          (Leaves incoming)
  unfolding select_and_serve
  select_and_serve-Leaves w incoming below v =
      Ensures-bind (fd_loop fd_setsize (map fd_of (items w.relay_read)) 0) _ _ _
        (fd_loop_lem fd_setsize fd_of (items w.relay_read) 0 below)
        λ r h.
          Ensures-bind
            (fd_loop fd_setsize (map (λ e. fd_of (entry_conn e)) (items w.relay_write)) r.0) _ _ _
            (fd_loop_lem fd_setsize (λ e. fd_of (entry_conn e)) (items w.relay_write) r.0
              (λ e. below (entry_conn e)))
            λ s k. by_select (select (s.0 + 1) r.1 s.1)
    where
      by_select :
          (found : Option Ready)
          → Ensures
              (elim found [
                | none ↦ done (record { worker = w; incoming = incoming; effects = [] })
                | some ready ↦
                    serve_ready fd_setsize fd_of select would_block reads writes ready w incoming
              ])
              (Leaves incoming)
      by_select none = (v, refl)
      by_select (some ready) = serve_ready-Leaves ready w incoming v

  -- A round leaves sound arrays and an empty crossbar.
  pub relay_round-Leaves :
      (w : Worker Conn) (incoming : Crossbar Conn)
      → ((c : Conn) → fd_of c < fd_setsize)
      → IsWorker w
      → IsCrossbar incoming
      → w.relay_read.used + incoming.for_reading.used ≤ num_relays
      → w.relay_write.used + incoming.for_writing.used ≤ num_relays
      → 0
        < w.relay_read.used + w.relay_write.used + incoming.for_writing.used
          + incoming.for_reading.used
      → Ensures
          (relay_round fd_setsize fd_of select would_block reads writes w incoming)
          (Leaves (crossbar_init incoming))
  relay_round-Leaves w incoming below v u room₁ room₂ busy =
      subst (λ m. Ensures m (Leaves (crossbar_init incoming)))
        (sym (relay_round_busy fd_setsize fd_of select would_block reads writes w incoming busy))
        (Ensures-bind (take_work w incoming)
          (λ t. select_and_serve fd_setsize fd_of select would_block reads writes t.0 t.1) _ _
          (take_work-crossbar_init w incoming v u room₁ room₂)
          λ t h.
            subst
              (λ c.
                Ensures (select_and_serve fd_setsize fd_of select would_block reads writes t.0 t.1)
                  (Leaves c))
              h.1 (select_and_serve-Leaves t.0 t.1 below h.0))
