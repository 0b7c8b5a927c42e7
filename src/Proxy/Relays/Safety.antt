-- ===== src/Proxy/Relays/Safety.antt =====
-- What holds however the two relay threads of examples/src/relay.c and `main` of
-- examples/src/proxy_server.c interleave.
use quiet_lwip.Prelude.{
  ℕ, ◌-◌, ◌≤◌, ◌<◌, ◌≡◌, ◌⊎◌, suc, refl, [], inl, inr, Outcome, done, blocked, fault, Ensures,
  arith,
}
use quiet_lwip.Proxy.Relays.{Platform, Relays, Move, move, hand_to_client, Reach, closing_of}
use quiet_lwip.Proxy.Relays.Tokens.{held_in, only, weigh_below-only, closing_of_lem}
use quiet_lwip.Proxy.Relays.Invariant.{
  Fits, CanMove, CanMove-cases, Inv, move-Inv, hand_to_client-Inv, Reach-Inv,
}

-- The call returns.
abbrev Returns {ℓ} : {A : Type ℓ} → Outcome A → Type ℓ
Returns {A = A} m = (a : A) × (m ≡ done a)

Ensures-Returns : {A : Type 0} (P : A → Type 0) (m : Outcome A) → Ensures m P → Returns m
Ensures-Returns P (done a) h = (a, refl)
Ensures-Returns P blocked h = absurd h
Ensures-Returns P fault h = absurd h

module _ {sys : Platform} (fits : Fits sys) {n : ℕ} {s : Relays} (r : Reach sys n s) where
  move-Returns : n ≤ 128 → (m : Move) → CanMove m s → Returns (move sys m s)
  move-Returns few m can =
      Ensures-Returns (Inv n) (move sys m s)
        (move-Inv sys fits n few s (Reach-Inv fits r few) m can)

  -- As long as `main` has created at most 128 connections, and their descriptors are below FD_SETSIZE, no
  -- order of the threads' rounds and effects, whatever `select`, `read` and `write` return, writes past
  -- the end of an array. A thread that has work goes through its round, one that has effects left comes to
  -- the next, and `main` finds room for a connection in the second crossbar; without anything to do they
  -- wait.
  pub relays_never_fault :
      n ≤ 128
      → (m : Move)
      → (CanMove m s × Returns (move sys m s)) ⊎ ((¬ CanMove m s) × (move sys m s ≡ blocked))
  relays_never_fault few m = elim (CanMove-cases sys fits n few s (Reach-Inv fits r few) m) [
    | inl can ↦ inl (can, move-Returns few m can)
    | inr waits ↦ inr (λ can. let (t, e) = move-Returns few m can in absurd (cc (waits, e)), waits)
  ]

  -- Until `main` has created 128 connections, it finds room in the first crossbar for the next one.
  hand_to_client-Returns : n < 128 → s.between ≡ [] → Returns (hand_to_client n s)
  hand_to_client-Returns fewer none =
      Ensures-Returns (Inv (suc n)) (hand_to_client n s)
        (hand_to_client-Inv n fewer s (Reach-Inv fits r (omega arith)) none)

  -- However the threads interleave, as long as `main` has created at most 128 connections, and their
  -- descriptors are below FD_SETSIZE, a connection is destroyed exactly when nobody has it any more: it has been
  -- destroyed once if it is in no array, no crossbar, no effect to come and not with `main`, and never as
  -- long as it is in one of them. It is never in more than two.
  pub destroyed_when_released :
      n ≤ 128
      → (conn : ℕ) → conn < n
      → ((closing_of conn s.closed).destroyed ≡ 1 - held_in (only conn) s)
        × (held_in (only conn) s ≤ 2)
  destroyed_when_released few conn known =
      let v = Reach-Inv fits r few in
      let c = closing_of_lem conn s.closed in
      let total = v.conserved (only conn) in ground (arith, weigh_below-only conn n known, c, total)
