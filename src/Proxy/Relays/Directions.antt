-- ===== src/Proxy/Relays/Directions.antt =====
-- What each move of the relay threads of examples/src/relay.c does to the two directions of a connection.
use quiet_lwip.Prelude.{
  ℕ, ◌+◌, ◌≤◌, ◌<◌, ◌≡◌, ap, List, [], ◌∷◌, Ensures, Ensures-bind, Ensures-map, Ensures-both, arith,
}
use quiet_lwip.Proxy.Crossbar.{
  Crossbar, items, num_relays, crossbar_init, append, append_lem, crossbar_add_for_reading,
  crossbar_add_for_writing,
}
use quiet_lwip.Proxy.Relay.{Effect, to_writing, to_reading, end_reading, end_writing}
use quiet_lwip.Proxy.Relay.Round.{Round, relay_round}
use quiet_lwip.Proxy.Relay.Conserved.{conns, queued}
use quiet_lwip.Proxy.Relay.Arrays.{IsCrossbar, relay_round-Leaves}
use quiet_lwip.Proxy.Relay.Totals.{
  total, total-append, read_effect, write_effect, entry, reading, writing,
}
use quiet_lwip.Proxy.Relay.Flows.{relay_round-Flows}
use quiet_lwip.Proxy.Relays.{Platform, Calls, carry_out, thread_round, thread_effect}
use quiet_lwip.Proxy.Relays.Tokens.{weigh, every, used-conns, used-queued}
use quiet_lwip.Proxy.Relays.Sound.{IsThread}

-- What a crossbar has more of, for reading and for writing, at most.
abbrev pub Adds : (ℕ → ℕ) → ℕ → ℕ → Crossbar ℕ → Crossbar ℕ → Type 0
Adds w m n c d =
    (total w (items d.for_reading) ≤ total w (items c.for_reading) + m)
    × (total (entry w) (items d.for_writing) ≤ total (entry w) (items c.for_writing) + n)

module _ (w : ℕ → ℕ) (conn : ℕ) (c : Crossbar ℕ) (v : IsCrossbar c)
    (room : weigh every (queued c) < num_relays) where
  pub add_for_reading-Adds : Ensures (crossbar_add_for_reading conn c) (Adds w (w conn) 0 c)
  unfolding crossbar_add_for_reading total
  add_for_reading-Adds =
      Ensures-bind (append conn c.for_reading) _ _ _
        (append_lem conn c.for_reading v.reading (omega (arith, used-queued c v.reading v.writing)))
        λ s h. (
          omega (arith, ap (total w) h.0, total-append w (items c.for_reading) (conn ∷ [])),
          omega arith,
        )

  add_for_writing-Adds : (n : ℕ) → Ensures (crossbar_add_for_writing conn n c) (Adds w 0 (w conn) c)
  unfolding crossbar_add_for_writing total
  add_for_writing-Adds n =
      Ensures-bind (append (conn, n) c.for_writing) _ _ _
        (append_lem (conn, n) c.for_writing v.writing
          (omega (arith, used-queued c v.reading v.writing)))
        λ s h. (
          omega arith,
          omega (
            arith,
            ap (total (entry w)) h.0,
            total-append (entry w) (items c.for_writing) ((conn, n) ∷ []),
          ),
        )

carry_out-Adds :
    (w : ℕ → ℕ) (e : Effect ℕ) (outgoing : Crossbar ℕ) (closed : List ℕ)
    → IsCrossbar outgoing
    → weigh every (queued outgoing) < num_relays
    → Ensures
        (carry_out e outgoing closed)
        λ r. Adds w (write_effect w e) (read_effect w e) outgoing r.0
unfolding carry_out
carry_out-Adds w (to_writing conn n) outgoing closed v room =
    Ensures-bind (crossbar_add_for_writing conn n outgoing) _ _ _
      (add_for_writing-Adds w conn outgoing v room n) λ c h. h
carry_out-Adds w (to_reading conn) outgoing closed v room =
    Ensures-bind (crossbar_add_for_reading conn outgoing) _ _ _
      (add_for_reading-Adds w conn outgoing v room) λ c h. h
carry_out-Adds w (end_reading conn) outgoing closed v room = (omega arith, omega arith)
carry_out-Adds w (end_writing conn) outgoing closed v room = (omega arith, omega arith)

-- A thread that comes to its next effect gives up what the other thread gets, or nobody.
pub thread_effect-Adds :
    (w : ℕ → ℕ) (t : Round ℕ) (e : Effect ℕ) (es : List (Effect ℕ)) (outgoing : Crossbar ℕ)
    (closed : List ℕ)
    → t.effects ≡ e ∷ es
    → IsCrossbar outgoing
    → weigh every (queued outgoing) < num_relays
    → Ensures (thread_effect t outgoing closed) λ r.
      (reading w r.0 + read_effect w e ≡ reading w t)
      × (writing w r.0 + write_effect w e ≡ writing w t)
      × Adds w (write_effect w e) (read_effect w e) outgoing r.1
unfolding thread_effect total
thread_effect-Adds w t e es outgoing closed eq v room =
    rw (eq, thread_effect)
      (Ensures-bind (carry_out e outgoing closed) _ _ _ (carry_out-Adds w e outgoing closed v room)
        λ r h. (
          omega (arith, ap (total (read_effect w)) eq),
          omega (arith, ap (total (write_effect w)) eq),
          h,
        ))

-- A round keeps what the thread reads from, and what it writes to.
pub thread_round_directions :
    (w : ℕ → ℕ) (sys : Platform) (fd_of : ℕ → ℕ) (calls : Calls) (t : Round ℕ)
    → ((c : ℕ) → fd_of c < sys.fd_setsize)
    → t.effects ≡ []
    → IsThread t
    → weigh every (conns t.worker) + weigh every (queued t.incoming) ≤ num_relays
    → 0 < weigh every (conns t.worker) + weigh every (queued t.incoming)
    → Ensures
        (thread_round sys fd_of calls t)
        λ r. (reading w r ≡ reading w t) × (writing w r ≡ writing w t)
unfolding thread_round total crossbar_init
thread_round_directions w sys fd_of calls t below none v room busy =
    let worker_used = used-conns t.worker v.worker.reading v.worker.writing in
    let queue_used = used-queued t.incoming v.incoming.reading v.incoming.writing in
    rw (none, thread_round)
      (Ensures-map
        (relay_round sys.fd_setsize fd_of calls.select sys.would_block calls.reads calls.writes
          t.worker t.incoming)
        _ _
        (Ensures-both
          (relay_round sys.fd_setsize fd_of calls.select sys.would_block calls.reads calls.writes
            t.worker t.incoming)
          _ _
          (relay_round-Flows w sys.fd_setsize fd_of calls.select sys.would_block calls.reads
            calls.writes t.worker t.incoming below v.worker v.incoming (omega arith) (omega arith)
            (omega arith))
          (relay_round-Leaves sys.fd_setsize fd_of calls.select sys.would_block calls.reads
            calls.writes t.worker t.incoming below v.worker v.incoming (omega arith) (omega arith)
            (omega arith)))
        λ r h. (
          omega (
            arith,
            h.0.0,
            ap (λ c. total w (items c.for_reading)) h.1.1,
            ap (total (read_effect w)) none,
          ),
          omega (
            arith,
            h.0.1,
            ap (λ c. total (entry w) (items c.for_writing)) h.1.1,
            ap (total (write_effect w)) none,
          ),
        ))
