-- ===== src/Proxy/Relays/Tests.antt =====
-- Tests and witnesses for the relay threads of examples/src/relay.c together.
use quiet_lwip.Prelude.{
  Ensures, ℕ, ◌-◌, ◌≤◌, ◌≡◌, ◌⊎◌, ◌≢◌, inl, inr, subst, refl, List, [], ◌∷◌, some, true, false,
  Outcome, done, blocked, fault, ◌>>=◌, arith,
}
use quiet_lwip.Proxy.Connection.{relay_conn_close}
use quiet_lwip.Proxy.Crossbar.{crossbar_init, append_all}
use quiet_lwip.Proxy.Relay.{count, sweep}
use quiet_lwip.Proxy.Relays.{
  relay_conn_read_buf, relay_conn_write_buf, Platform, Relays, Calls, Move, client_round,
  remote_round, client_effect, remote_effect, hand_to_remote, move, hand_to_client, start_relays,
  Reach, started, handed, moved, closing_of,
}
use quiet_lwip.Proxy.Relays.Tokens.{held_in, only, weigh}
use quiet_lwip.Proxy.Relays.Invariant.{Fits, CanMove}
use quiet_lwip.Proxy.Relay.Totals.{total}
use quiet_lwip.Proxy.Relays.Races.{users, used_by, buffer_has_one_user}
use quiet_lwip.Proxy.Relays.Safety.{relays_never_fault, destroyed_when_released}

abbrev system : Platform
system = record {
  fd_setsize = 1_024;
  lwip_fd = λ c. 3;
  native_fd = λ c. 4;
  would_block = λ errno. false;
}

abbrev system_fits : Fits system
system_fits = record { lwip = λ c. omega arith; native = λ c. omega arith }

-- All sockets are ready, `read` returns `n`, and `write` writes five bytes.
abbrev all_ready : ℕ → Calls
all_ready n = record {
  select = λ top reads writes. some (λ fd. true, λ fd. true);
  reads = λ c. count n;
  writes = λ c. count 5;
}

abbrev or_else : {A : Type 0} → Outcome A → A → A
or_else (done a) b = a
or_else _ b = b

-- A connection is handed over, five bytes come in from lwIP and go out, and then both threads read the
-- end.
abbrev history : List Move
history =
    hand_to_remote
    ∷ client_round (all_ready 5)
    ∷ client_effect
    ∷ remote_round (all_ready 0)
    ∷ remote_effect
    ∷ remote_effect
    ∷ client_round (all_ready 0)
    ∷ client_effect
    ∷ []

abbrev after_moves : List Move → Outcome Relays → Outcome Relays
after_moves [] m = m
after_moves (x ∷ xs) m = after_moves xs (m >>= move system x)

outcome_cases :
    {A : Type 0} (m : Outcome A) → ((a : A) × (m ≡ done a)) ⊎ ((m ≡ blocked) ⊎ (m ≡ fault))
outcome_cases (done a) = inl (a, refl)
outcome_cases blocked = inr (inl refl)
outcome_cases fault = inr (inr refl)

after_moves-blocked : (ms : List Move) {t : Relays} → after_moves ms blocked ≢ done t
after_moves-blocked [] e = absurd cc
after_moves-blocked (m ∷ ms) e = after_moves-blocked ms e

after_moves-fault : (ms : List Move) {t : Relays} → after_moves ms fault ≢ done t
after_moves-fault [] e = absurd cc
after_moves-fault (m ∷ ms) e = after_moves-fault ms e

after_moves-Reach :
    (ms : List Move) {n : ℕ} {s t : Relays}
    → Reach system n s
    → after_moves ms (done s) ≡ done t
    → Reach system n t
after_moves-Reach [] {n} r e = subst (λ o. Ensures o (Reach system n)) e r
after_moves-Reach (m ∷ ms) {n} {s} {t} r e = elim (outcome_cases (move system m s)) [
  | inl (u, f) ↦ after_moves-Reach ms (moved m r f) (subst (λ o. after_moves ms o ≡ done t) f e)
  | inr (inl f) ↦ absurd (after_moves-blocked ms (subst (λ o. after_moves ms o ≡ done t) f e))
  | inr (inr f) ↦ absurd (after_moves-fault ms (subst (λ o. after_moves ms o ≡ done t) f e))
]

abbrev first_state : Relays
unfolding hand_to_client
first_state = or_else (hand_to_client 0 start_relays) start_relays

first_state-Reach : Reach system 1 first_state
unfolding hand_to_client crossbar_init
first_state-Reach = handed started refl

unfoldable last_state : Relays
unfolding hand_to_client move append_all sweep
last_state = or_else (after_moves history (done first_state)) first_state

last_state-Reach : Reach system 1 last_state
unfolding last_state crossbar_init
last_state-Reach = after_moves-Reach history first_state-Reach refl

last_state_lem :
    (last_state.closed ≡ 0 ∷ 0 ∷ [])
    × (held_in (only 0) last_state ≡ 0)
    × ((closing_of 0 last_state.closed).destroyed ≡ 1)
unfolding last_state closing_of weigh crossbar_init relay_conn_close
last_state_lem = (refl, refl, refl)

relays_never_fault_example :
    (CanMove hand_to_remote first_state
      × ((t : Relays) × (move system hand_to_remote first_state ≡ done t)))
    ⊎ ((¬ CanMove hand_to_remote first_state) × (move system hand_to_remote first_state ≡ blocked))
relays_never_fault_example =
    relays_never_fault system_fits first_state-Reach (omega arith) hand_to_remote

destroyed_when_released_example :
    ((closing_of 0 last_state.closed).destroyed ≡ 1 - held_in (only 0) last_state)
    × (held_in (only 0) last_state ≤ 2)
destroyed_when_released_example =
    destroyed_when_released system_fits last_state-Reach (omega arith) 0 (omega arith)

-- The bytes that the client thread has read wait for the remote thread.
unfoldable middle_state : Relays
unfolding hand_to_client move append_all sweep
middle_state =
    or_else
      (after_moves (hand_to_remote ∷ client_round (all_ready 5) ∷ client_effect ∷ [])
        (done first_state))
      first_state

middle_state-Reach : Reach system 1 middle_state
unfolding middle_state crossbar_init
middle_state-Reach =
    after_moves-Reach (hand_to_remote ∷ client_round (all_ready 5) ∷ client_effect ∷ [])
      first_state-Reach refl

users-middle_state : (users 0 0 middle_state ≡ 1) × (users 1 0 middle_state ≡ 1)
unfolding middle_state crossbar_init users used_by relay_conn_read_buf relay_conn_write_buf total
users-middle_state = (refl, refl)

buffer_has_one_user_example : users 0 0 middle_state ≤ 1
buffer_has_one_user_example =
    buffer_has_one_user system_fits middle_state-Reach (omega arith) 0 0 (omega arith)
