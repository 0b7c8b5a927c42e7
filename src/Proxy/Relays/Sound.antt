-- ===== src/Proxy/Relays/Sound.antt =====
-- What each move of the relay threads of examples/src/relay.c does to the arrays and to the connections.
use mathlib.Core.List.{map-append}
use quiet_lwip.Prelude.{
  ℕ, ◌+◌, ◌≤◌, ◌<◌, ◌≡◌, refl, sym, ap, subst, ◌∙◌, List, [], ◌∷◌, ◌++◌, map, Ensures, Ensures-bind,
  Ensures-map, Ensures-both, arith,
}
use quiet_lwip.Proxy.Crossbar.{
  Crossbar, items, num_relays, crossbar_init, append, append_lem, crossbar_add_for_reading,
  crossbar_add_for_writing,
}
use quiet_lwip.Proxy.Relay.{Effect, to_writing, to_reading, end_reading, end_writing}
use quiet_lwip.Proxy.Relay.Round.{Round, relay_round}
use quiet_lwip.Proxy.Relay.Owners.{effect_conn, entry_conn, self_conn}
use quiet_lwip.Proxy.Relay.Conserved.{conns, queued, relay_round-Conserves}
use quiet_lwip.Proxy.Relay.Arrays.{IsWorker, IsCrossbar, relay_round-Leaves}
use quiet_lwip.Proxy.Relays.{Platform, Calls, carry_out, thread_round, thread_effect}
use quiet_lwip.Proxy.Relays.Tokens.{
  weigh, weigh-append, weigh-Perm, held, every, used-conns, used-queued,
}

-- The arrays of a thread and of its crossbar are sound.
pub record IsThread (t : Round ℕ) : Type 0 where
  pub worker : IsWorker t.worker
  pub incoming : IsCrossbar t.incoming

-- The crossbar has one connection more.
abbrev pub Grows : ℕ → Crossbar ℕ → Crossbar ℕ → Type 0
Grows conn c d = IsCrossbar d × ((w : ℕ → ℕ) → weigh w (queued d) ≡ w conn + weigh w (queued c))

weigh_append_one :
    {A : Type 0} (w : ℕ → ℕ) (f : A → ℕ) (xs : List A) (a : A)
    → weigh w (map f (xs ++ (a ∷ []))) ≡ w (f a) + weigh w (map f xs)
unfolding weigh
weigh_append_one w f xs a =
    ap (weigh w) (map-append f xs (a ∷ [])) ∙ (weigh-append w (map f xs) (f a ∷ []) ∙ omega arith)

module _ (conn : ℕ) (c : Crossbar ℕ) (v : IsCrossbar c) where
  pub add_for_reading-Grows :
      weigh every (queued c) < num_relays → Ensures (crossbar_add_for_reading conn c) (Grows conn c)
  unfolding crossbar_add_for_reading
  add_for_reading-Grows room =
      Ensures-bind (append conn c.for_reading) _ _ _
        (append_lem conn c.for_reading v.reading (omega (arith, used-queued c v.reading v.writing)))
        λ s h. (
          record { reading = h.1; writing = v.writing },
          λ w. omega (
            arith,
            ap (λ l. weigh w (map self_conn l)) h.0,
            weigh_append_one w self_conn (items c.for_reading) conn,
            weigh-append w (map self_conn (items s)) (map entry_conn (items c.for_writing)),
            weigh-append w (map self_conn (items c.for_reading))
                (map entry_conn (items c.for_writing)),
          ),
        )

  pub add_for_writing-Grows :
      (n : ℕ)
      → weigh every (queued c) < num_relays
      → Ensures (crossbar_add_for_writing conn n c) (Grows conn c)
  unfolding crossbar_add_for_writing
  add_for_writing-Grows n room =
      Ensures-bind (append (conn, n) c.for_writing) _ _ _
        (append_lem (conn, n) c.for_writing v.writing
          (omega (arith, used-queued c v.reading v.writing)))
        λ s h. (
          record { reading = v.reading; writing = h.1 },
          λ w. omega (
            arith,
            ap (λ l. weigh w (map entry_conn l)) h.0,
            weigh_append_one w entry_conn (items c.for_writing) (conn, n),
            weigh-append w (map self_conn (items c.for_reading)) (map entry_conn (items s)),
            weigh-append w (map self_conn (items c.for_reading))
                (map entry_conn (items c.for_writing)),
          ),
        )

-- The connection of an effect is in the outgoing crossbar afterwards, or has been closed.
carry_out_lem :
    (e : Effect ℕ) (outgoing : Crossbar ℕ) (closed : List ℕ)
    → IsCrossbar outgoing
    → weigh every (queued outgoing) < num_relays
    → Ensures (carry_out e outgoing closed) λ r.
      IsCrossbar r.0
      × ((w : ℕ → ℕ)
          → weigh w (queued r.0) + weigh w r.1
            ≡ w (effect_conn e) + weigh w (queued outgoing) + weigh w closed)
unfolding carry_out weigh
carry_out_lem (to_writing conn n) outgoing closed v room =
    Ensures-bind (crossbar_add_for_writing conn n outgoing) _ (Grows conn outgoing) _
      (add_for_writing-Grows conn outgoing v n room) λ c h. (h.0, λ w. omega (arith, h.1 w))
carry_out_lem (to_reading conn) outgoing closed v room =
    Ensures-bind (crossbar_add_for_reading conn outgoing) _ (Grows conn outgoing) _
      (add_for_reading-Grows conn outgoing v room) λ c h. (h.0, λ w. omega (arith, h.1 w))
carry_out_lem (end_reading conn) outgoing closed v room = (v, λ w. omega arith)
carry_out_lem (end_writing conn) outgoing closed v room = (v, λ w. omega arith)

-- A thread comes to its next effect.
pub thread_effect_lem :
    (t : Round ℕ) (e : Effect ℕ) (es : List (Effect ℕ)) (outgoing : Crossbar ℕ) (closed : List ℕ)
    → t.effects ≡ e ∷ es
    → IsThread t
    → IsCrossbar outgoing
    → weigh every (queued outgoing) < num_relays
    → Ensures (thread_effect t outgoing closed) λ r.
      IsThread r.0
      × IsCrossbar r.1
      × ((w : ℕ → ℕ)
          → held w r.0 + weigh w (queued r.1) + weigh w r.2
            ≡ held w t + weigh w (queued outgoing) + weigh w closed)
      × (r.0.incoming ≡ t.incoming)
unfolding thread_effect weigh
thread_effect_lem t e es outgoing closed eq v u room =
    rw (eq, thread_effect)
      (Ensures-bind (carry_out e outgoing closed) _ _ _ (carry_out_lem e outgoing closed u room)
        λ r h. (
          record { worker = v.worker; incoming = v.incoming },
          h.0,
          λ w. omega (arith, h.1 w, ap (λ l. weigh w (map effect_conn l)) eq),
          refl,
        ))

-- A round of a thread.
pub thread_round_lem :
    (sys : Platform) (fd_of : ℕ → ℕ) (calls : Calls) (t : Round ℕ)
    → ((c : ℕ) → fd_of c < sys.fd_setsize)
    → t.effects ≡ []
    → IsThread t
    → weigh every (conns t.worker) + weigh every (queued t.incoming) ≤ num_relays
    → 0 < weigh every (conns t.worker) + weigh every (queued t.incoming)
    → Ensures (thread_round sys fd_of calls t) λ r. IsThread r × ((w : ℕ → ℕ) → held w r ≡ held w t)
unfolding thread_round weigh crossbar_init
thread_round_lem sys fd_of calls t below none v room busy =
    let worker_used = used-conns t.worker v.worker.reading v.worker.writing in
    let queue_used = used-queued t.incoming v.incoming.reading v.incoming.writing in
    rw (none, thread_round)
      (Ensures-map
        (relay_round sys.fd_setsize fd_of calls.select sys.would_block calls.reads calls.writes
          t.worker t.incoming)
        _ _
        (Ensures-both
          (relay_round sys.fd_setsize fd_of calls.select sys.would_block calls.reads calls.writes
            t.worker t.incoming)
          _ _
          (relay_round-Conserves sys.fd_setsize fd_of calls.select sys.would_block calls.reads
            calls.writes t.worker t.incoming below v.worker.reading v.worker.writing
            v.incoming.reading v.incoming.writing (omega arith) (omega arith) (omega arith))
          (relay_round-Leaves sys.fd_setsize fd_of calls.select sys.would_block calls.reads
            calls.writes t.worker t.incoming below v.worker v.incoming (omega arith) (omega arith)
            (omega arith)))
        λ r h. (
          record {
            worker = h.1.0;
            incoming = subst IsCrossbar (sym h.1.1) (record {
              reading = (v.incoming.reading.0, omega arith);
              writing = (v.incoming.writing.0, omega arith);
            });
          },
          λ w. omega (
            arith,
            weigh-Perm w h.0,
            weigh-append w (conns r.worker) (map effect_conn r.effects),
            weigh-append w (conns t.worker) (queued t.incoming),
            ap (λ c. weigh w (queued c)) h.1.1,
            ap (λ l. weigh w (map effect_conn l)) none,
          ),
        ))
