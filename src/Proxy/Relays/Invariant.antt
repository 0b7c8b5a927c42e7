-- ===== src/Proxy/Relays/Invariant.antt =====
-- The invariant of the relay threads of examples/src/relay.c and of `main` of
-- examples/src/proxy_server.c: no array has more connections than there are, and none is lost.
use quiet_lwip.Prelude.{
  list_cases, ℕ, suc, ◌+◌, ◌≤◌, ◌<◌, dec_lt, ◌≡◌, ◌⊎◌, inl, inr, refl, ap, subst, List, [], ◌∷◌,
  map, Outcome, done, blocked, Ensures, Ensures-bind, arith,
}
use quiet_lwip.Proxy.Crossbar.{crossbar_add_for_reading, crossbar_init, num_relays}
use quiet_lwip.Proxy.Relay.{Effect}
use quiet_lwip.Proxy.Relay.Round.{Round, relay_round}
use quiet_lwip.Proxy.Relay.Owners.{effect_conn}
use quiet_lwip.Proxy.Relay.Conserved.{conns, queued}
use quiet_lwip.Proxy.Relays.{
  Platform, Relays, Calls, Move, client_round, remote_round, client_effect, remote_effect,
  hand_to_remote, move, hand_to_client, thread_round, thread_effect, Reach, started, handed, moved,
  start_relays, fresh_thread,
}
use quiet_lwip.Proxy.Relays.Tokens.{
  weigh, held_in, weigh_below, every, weigh_below-every, used-conns, used-queued,
}
use quiet_lwip.Proxy.Relays.Sound.{
  IsThread, Grows, add_for_reading-Grows, thread_effect_lem, thread_round_lem,
}

-- A thread has a connection, or one waits for it, and its last round has had all its effects.
abbrev pub HasWork : Round ℕ → Type 0
HasWork t = (t.effects ≡ []) × (0 < weigh every (conns t.worker) + weigh every (queued t.incoming))

-- Whoever moves has something to do.
abbrev pub CanMove : Move → Relays → Type 0
CanMove (client_round calls) s = HasWork s.client
CanMove (remote_round calls) s = HasWork s.remote
CanMove client_effect s = (e : Effect ℕ) × (es : List (Effect ℕ)) × (s.client.effects ≡ e ∷ es)
CanMove remote_effect s = (e : Effect ℕ) × (es : List (Effect ℕ)) × (s.remote.effects ≡ e ∷ es)
CanMove hand_to_remote s = (conn : ℕ) × (conns : List ℕ) × (s.between ≡ conn ∷ conns)

-- The descriptors of all connections fit into the sets for `select`.
pub record Fits (sys : Platform) : Type 0 where
  pub lwip : (c : ℕ) → sys.lwip_fd c < sys.fd_setsize
  pub native : (c : ℕ) → sys.native_fd c < sys.fd_setsize

-- The arrays are sound, and every connection that has been created is in two hands: a thread's, the
-- crossbars', `main`'s, or among the closed.
pub record Inv (n : ℕ) (s : Relays) : Type 0 where
  pub client : IsThread s.client
  pub remote : IsThread s.remote
  pub conserved : (w : ℕ → ℕ) → held_in w s + weigh w s.closed ≡ weigh_below w n + weigh_below w n

round_cases :
    (sys : Platform) (fd_of : ℕ → ℕ) (calls : Calls) (t : Round ℕ)
    → IsThread t
    → HasWork t ⊎ (thread_round sys fd_of calls t ≡ blocked)
unfolding thread_round relay_round
round_cases sys fd_of calls t v = elim (list_cases t.effects) [
  | inr (e, es, some) ↦ inr (rw (some, thread_round) refl)
  | inl none ↦ elim (dec_lt 0 (weigh every (conns t.worker) + weigh every (queued t.incoming))) [
    | yes busy ↦ inl (none, busy)
    | no idle ↦ inr (
        ground (
          arith,
          none,
          used-conns t.worker v.worker.reading v.worker.writing,
          used-queued t.incoming v.incoming.reading v.incoming.writing,
        ))
  ]
]

-- No more connections are in hands than the crossbars have room for.
module _ (n : ℕ) (few : n ≤ 128) (s : Relays) (v : Inv n s) where
  pub held-le : held_in every s ≤ 256
  held-le = omega (arith, v.conserved every, weigh_below-every n)

  pub remote_room :
      (e : Effect ℕ) (es : List (Effect ℕ))
      → s.client.effects ≡ e ∷ es
      → weigh every (queued s.remote.incoming) < num_relays
  unfolding weigh
  remote_room e es eq = omega (arith, held-le, ap (λ l. weigh every (map effect_conn l)) eq)

  pub client_room :
      (e : Effect ℕ) (es : List (Effect ℕ))
      → s.remote.effects ≡ e ∷ es
      → weigh every (queued s.client.incoming) < num_relays
  unfolding weigh
  client_room e es eq = omega (arith, held-le, ap (λ l. weigh every (map effect_conn l)) eq)

  pub between_room :
      (conn : ℕ) (rest : List ℕ)
      → s.between ≡ conn ∷ rest
      → weigh every (queued s.remote.incoming) < num_relays
  unfolding weigh
  between_room conn rest eq = omega (arith, held-le, ap (weigh every) eq)

module _ (sys : Platform) (fits : Fits sys) (n : ℕ) (few : n ≤ 128) (s : Relays) (v : Inv n s) where
  pub move-Inv : (m : Move) → CanMove m s → Ensures (move sys m s) (Inv n)
  unfolding move weigh
  move-Inv (client_round calls) can =
      Ensures-bind (thread_round sys sys.lwip_fd calls s.client) _ _ _
        (thread_round_lem sys sys.lwip_fd calls s.client fits.lwip can.0 v.client
          (omega (arith, held-le n few s v)) can.1)
        λ t h. record {
          client = h.0;
          remote = v.remote;
          conserved = λ w. omega (arith, h.1 w, v.conserved w);
        }
  move-Inv (remote_round calls) can =
      Ensures-bind (thread_round sys sys.native_fd calls s.remote) _ _ _
        (thread_round_lem sys sys.native_fd calls s.remote fits.native can.0 v.remote
          (omega (arith, held-le n few s v)) can.1)
        λ t h. record {
          client = v.client;
          remote = h.0;
          conserved = λ w. omega (arith, h.1 w, v.conserved w);
        }
  move-Inv client_effect (e, es, eq) =
      Ensures-bind (thread_effect s.client s.remote.incoming s.closed) _ _ _
        (thread_effect_lem s.client e es s.remote.incoming s.closed eq v.client v.remote.incoming
          (remote_room n few s v e es eq))
        λ r h. record {
          client = h.0;
          remote = record { worker = v.remote.worker; incoming = h.1 };
          conserved = λ w. omega (arith, h.2 w, v.conserved w);
        }
  move-Inv remote_effect (e, es, eq) =
      Ensures-bind (thread_effect s.remote s.client.incoming s.closed) _ _ _
        (thread_effect_lem s.remote e es s.client.incoming s.closed eq v.remote v.client.incoming
          (client_room n few s v e es eq))
        λ r h. record {
          client = record { worker = v.client.worker; incoming = h.1 };
          remote = h.0;
          conserved = λ w. omega (arith, h.2 w, v.conserved w);
        }
  move-Inv hand_to_remote (conn, rest, eq) =
      rw (eq, move)
        (Ensures-bind (crossbar_add_for_reading conn s.remote.incoming) _
          (Grows conn s.remote.incoming) _
          (add_for_reading-Grows conn s.remote.incoming v.remote.incoming
            (between_room n few s v conn rest eq))
          λ c h. record {
            client = v.client;
            remote = record { worker = v.remote.worker; incoming = h.0 };
            conserved = λ w. omega (arith, h.1 w, v.conserved w, ap (weigh w) eq);
          })

  -- Without anything to do a move waits.
  pub CanMove-cases : (m : Move) → CanMove m s ⊎ (move sys m s ≡ blocked)
  unfolding move
  CanMove-cases (client_round calls) = elim (round_cases sys sys.lwip_fd calls s.client v.client) [
    | inl work ↦ inl work
    | inr waits ↦ inr (rw waits refl)
  ]
  CanMove-cases (remote_round calls) =
      elim (round_cases sys sys.native_fd calls s.remote v.remote) [
        | inl work ↦ inl work
        | inr waits ↦ inr (rw waits refl)
      ]
  CanMove-cases client_effect = elim (list_cases s.client.effects) [
    | inl none ↦ inr (rw (none, move, thread_effect) refl)
    | inr some ↦ inl some
  ]
  CanMove-cases remote_effect = elim (list_cases s.remote.effects) [
    | inl none ↦ inr (rw (none, move, thread_effect) refl)
    | inr some ↦ inl some
  ]
  CanMove-cases hand_to_remote = elim (list_cases s.between) [
    | inl none ↦ inr (rw (none, move) refl)
    | inr some ↦ inl some
  ]

module _ (n : ℕ) (few : n < 128) (s : Relays) (v : Inv n s) where
  pub hand_to_client-Inv : s.between ≡ [] → Ensures (hand_to_client n s) (Inv (suc n))
  unfolding hand_to_client weigh weigh_below
  hand_to_client-Inv eq =
      rw (eq, hand_to_client)
        (Ensures-bind (crossbar_add_for_reading n s.client.incoming) _ (Grows n s.client.incoming) _
          (add_for_reading-Grows n s.client.incoming v.client.incoming
            (omega (arith, v.conserved every, weigh_below-every n)))
          λ c h. record {
            client = record { worker = v.client.worker; incoming = h.0 };
            remote = v.remote;
            conserved = λ w. omega (arith, h.1 w, v.conserved w, ap (weigh w) eq);
          })

fresh_thread-IsThread : IsThread fresh_thread
unfolding crossbar_init
fresh_thread-IsThread = ground arith

start_relays-Inv : Inv 0 start_relays
unfolding weigh weigh_below crossbar_init
start_relays-Inv = record {
  client = fresh_thread-IsThread;
  remote = fresh_thread-IsThread;
  conserved = λ w. refl;
}

-- What is ensured of a call holds of what it returns.
pub Ensures-done :
    {A : Type 0} (P : A → Type 0) {m : Outcome A} {a : A} → Ensures m P → m ≡ done a → P a
Ensures-done P h e = subst (λ m. Ensures m P) e h

pub hand_cases : (n : ℕ) (s : Relays) → (s.between ≡ []) ⊎ (hand_to_client n s ≡ blocked)
unfolding hand_to_client
hand_cases n s = elim (list_cases s.between) [
  | inl none ↦ inl none
  | inr (c, cs, some) ↦ inr (rw (some, hand_to_client) refl)
]

pub Reach-Inv :
    {sys : Platform} → Fits sys → {n : ℕ} {s : Relays} → Reach sys n s → n ≤ 128 → Inv n s
Reach-Inv fits started few = start_relays-Inv
Reach-Inv fits (handed {n} {s} {t} r e) few =
    let v = Reach-Inv fits r (omega arith) in
    elim (hand_cases n s) [
      | inl none ↦ Ensures-done (Inv (suc n)) (hand_to_client-Inv n (omega arith) s v none) e
      | inr waits ↦ absurd (cc (waits, e))
    ]
Reach-Inv {sys} fits (moved {n} {s} {t} m r e) few =
    let v = Reach-Inv fits r few in
    elim (CanMove-cases sys fits n few s v m) [
      | inl can ↦ Ensures-done (Inv n) (move-Inv sys fits n few s v m can) e
      | inr waits ↦ absurd (cc (waits, e))
    ]
