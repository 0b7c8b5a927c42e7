-- ===== src/Proxy/Relays/Races.antt =====
-- The two buffers of a connection in the hands of the two relay threads of examples/src/relay.c.
use quiet_lwip.Prelude.{
  ℕ, suc, ◌+◌, ◌≤◌, ◌<◌, dec_lt, ◌≡◌, inl, inr, ap, [], ◌==◌, if◌then◌else◌, Ensures, Ensures-bind,
  arith,
}
use quiet_lwip.Proxy.Crossbar.{crossbar_add_for_reading, crossbar_init}
use quiet_lwip.Proxy.Relay.Round.{Round}
use quiet_lwip.Proxy.Relay.Totals.{total, reading, writing}
use quiet_lwip.Proxy.Relays.{
  Platform, Relays, Move, client_round, remote_round, client_effect, remote_effect, hand_to_remote,
  move, hand_to_client, thread_round, thread_effect, Reach, started, handed, moved, start_relays,
  agent_lwip, agent_native, relay_conn_read_buf, relay_conn_write_buf,
}
use quiet_lwip.Proxy.Relays.Tokens.{
  weigh, weigh_below, every, only, weigh_below-every, weigh_below-only, weigh_below-only_above,
}
use quiet_lwip.Proxy.Relays.Directions.{
  Adds, add_for_reading-Adds, thread_effect-Adds, thread_round_directions,
}
use quiet_lwip.Proxy.Relays.Invariant.{
  Fits, CanMove, CanMove-cases, hand_cases, Inv, Reach-Inv, Ensures-done, held-le, remote_room,
  client_room, between_room,
}

-- In how many places a thread has a connection to use the buffer: in its arrays, in its crossbar, and in
-- the effects that it has not come to.
unfoldable pub used_by : ℕ → ℕ → (ℕ → ℕ) → Round ℕ → ℕ
unfolding relay_conn_read_buf relay_conn_write_buf
used_by agent buf w t =
    (if relay_conn_read_buf agent == buf then reading w t else 0)
    + (if relay_conn_write_buf agent == buf then writing w t else 0)

unfoldable pub users : ℕ → ℕ → Relays → ℕ
unfolding used_by
users buf conn s =
    used_by agent_lwip buf (only conn) s.client + used_by agent_native buf (only conn) s.remote

-- The client thread reads what the remote thread writes, and the other way round.
record Directed (w : ℕ → ℕ) (n : ℕ) (s : Relays) : Type 0 where
  there : reading w s.client + writing w s.remote ≤ weigh_below w n
  back : reading w s.remote + writing w s.client + weigh w s.between ≤ weigh_below w n

module _ (w : ℕ → ℕ) (sys : Platform) (fits : Fits sys) (n : ℕ) (few : n ≤ 128) (s : Relays)
    (v : Inv n s) (d : Directed w n s) where
  move-Directed : (m : Move) → CanMove m s → Ensures (move sys m s) (Directed w n)
  unfolding move weigh total
  move-Directed (client_round calls) can =
      Ensures-bind (thread_round sys sys.lwip_fd calls s.client) _ _ _
        (thread_round_directions w sys sys.lwip_fd calls s.client fits.lwip can.0 v.client
          (omega (arith, held-le n few s v)) can.1)
        λ t h. record { there = omega (arith, h.0, d.there); back = omega (arith, h.1, d.back) }
  move-Directed (remote_round calls) can =
      Ensures-bind (thread_round sys sys.native_fd calls s.remote) _ _ _
        (thread_round_directions w sys sys.native_fd calls s.remote fits.native can.0 v.remote
          (omega (arith, held-le n few s v)) can.1)
        λ t h. record { there = omega (arith, h.1, d.there); back = omega (arith, h.0, d.back) }
  move-Directed client_effect (e, es, eq) =
      Ensures-bind (thread_effect s.client s.remote.incoming s.closed) _ _ _
        (thread_effect-Adds w s.client e es s.remote.incoming s.closed eq v.remote.incoming
          (remote_room n few s v e es eq))
        λ r h. record {
          there = omega (arith, h.0, h.2.1, d.there);
          back = omega (arith, h.1, h.2.0, d.back);
        }
  move-Directed remote_effect (e, es, eq) =
      Ensures-bind (thread_effect s.remote s.client.incoming s.closed) _ _ _
        (thread_effect-Adds w s.remote e es s.client.incoming s.closed eq v.client.incoming
          (client_room n few s v e es eq))
        λ r h. record {
          there = omega (arith, h.1, h.2.0, d.there);
          back = omega (arith, h.0, h.2.1, d.back);
        }
  move-Directed hand_to_remote (conn, rest, eq) =
      rw (eq, move)
        (Ensures-bind (crossbar_add_for_reading conn s.remote.incoming) _
          (Adds w (w conn) 0 s.remote.incoming) _
          (add_for_reading-Adds w conn s.remote.incoming v.remote.incoming
            (between_room n few s v conn rest eq))
          λ c h. record {
            there = omega (arith, h.1, d.there);
            back = omega (arith, h.0, d.back, ap (weigh w) eq);
          })

hand_to_client-Directed :
    (w : ℕ → ℕ) (n : ℕ) (few : n < 128) (s : Relays)
    → Inv n s
    → Directed w n s
    → s.between ≡ []
    → Ensures (hand_to_client n s) (Directed w (suc n))
unfolding hand_to_client weigh weigh_below
hand_to_client-Directed w n few s v d eq =
    rw (eq, hand_to_client)
      (Ensures-bind (crossbar_add_for_reading n s.client.incoming) _
        (Adds w (w n) 0 s.client.incoming) _
        (add_for_reading-Adds w n s.client.incoming v.client.incoming
          (omega (arith, v.conserved every, weigh_below-every n)))
        λ c h. record {
          there = omega (arith, h.0, d.there);
          back = omega (arith, h.1, d.back, ap (weigh w) eq);
        })

start-Directed : (w : ℕ → ℕ) → Directed w 0 start_relays
unfolding weigh weigh_below total crossbar_init
start-Directed w = record { there = omega arith; back = omega arith }

Reach-Directed :
    {sys : Platform}
    → Fits sys
    → (w : ℕ → ℕ) {n : ℕ} {s : Relays} → Reach sys n s
    → n ≤ 128
    → Directed w n s
Reach-Directed fits w started few = start-Directed w
Reach-Directed fits w (handed {n} {s} {t} r e) few = elim (hand_cases n s) [
  | inl empty ↦
      Ensures-done (Directed w (suc n))
        (hand_to_client-Directed w n (omega arith) s (Reach-Inv fits r (omega arith))
          (Reach-Directed fits w r (omega arith)) empty)
        e
  | inr waits ↦ absurd (cc (waits, e))
]
Reach-Directed {sys} fits w (moved {n} {s} {t} m r e) few =
    let v = Reach-Inv fits r few in
    elim (CanMove-cases sys fits n few s v m) [
      | inl can ↦
          Ensures-done (Directed w n)
            (move-Directed w sys fits n few s v (Reach-Directed fits w r few) m can) e
      | inr waits ↦ absurd (cc (waits, e))
    ]

weigh_below-only-le : (conn n : ℕ) → weigh_below (only conn) n ≤ 1
weigh_below-only-le conn n = elim (dec_lt conn n) [
  | yes known ↦ omega (arith, weigh_below-only conn n known)
  | no unknown ↦ omega (arith, weigh_below-only_above conn n (omega arith))
]

both_buffers :
    (buf a b c d : ℕ)
    → buf < 2
    → a + d ≤ 1
    → b + c ≤ 1
    → (if 0 == buf then a else 0)
        + (if 1 == buf then b else 0)
        + ((if 1 == buf then c else 0) + (if 0 == buf then d else 0))
      ≤ 1
both_buffers buf a b c d two there back = ground arith

-- Neither buffer of a connection is ever used by both threads: however the threads and `main` interleave, as
-- long as `main` has created at most 128 connections, and their descriptors are below FD_SETSIZE, one
-- place at most has the connection to read into the buffer or to write from it.
pub buffer_has_one_user :
    {sys : Platform} (fits : Fits sys) {n : ℕ} {s : Relays}
    → Reach sys n s
    → n ≤ 128
    → (buf conn : ℕ) → buf < 2
    → users buf conn s ≤ 1
unfolding users used_by relay_conn_read_buf relay_conn_write_buf
buffer_has_one_user fits {n} {s} r few buf conn two =
    let d = Reach-Directed fits (only conn) r few in
    let once = weigh_below-only-le conn n in
    both_buffers buf (reading (only conn) s.client) (writing (only conn) s.client)
      (reading (only conn) s.remote) (writing (only conn) s.remote) two
      (omega (arith, d.there, once)) (omega (arith, d.back, once))
