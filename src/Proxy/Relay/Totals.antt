-- ===== src/Proxy/Relay/Totals.antt =====
-- The two directions of the connections of a relay thread of examples/src/relay.c: a weight for each
-- connection that it reads from, and for each that it writes to, through a round.
use quiet_lwip.Prelude.{
  ℕ, ◌+◌, ◌≡◌, refl, ap, List, [], ◌∷◌, ◌++◌, Bool, Ensures, Ensures-map, arith,
}
use quiet_lwip.Proxy.Crossbar.{Slots, items, IsSlots}
use quiet_lwip.Proxy.Relay.{
  Verdict, stays, leaves, Result, Effect, to_writing, to_reading, end_reading, end_writing,
  sweep_slots, read_verdict, write_verdict,
}
use quiet_lwip.Proxy.Relay.Sweep.{keep, effects, sweep_slots_lem}
use quiet_lwip.Proxy.Relay.Round.{Round}

unfoldable pub total : {A : Type 0} → (A → ℕ) → List A → ℕ
total w [] = 0
total w (a ∷ xs) = w a + total w xs

pub total-append :
    {A : Type 0} (w : A → ℕ) (xs ys : List A) → total w (xs ++ ys) ≡ total w xs + total w ys
unfolding total
total-append w [] ys = omega arith
total-append w (x ∷ xs) ys = omega (arith, total-append w xs ys)

-- The verdict keeps a weight.
abbrev Keeps : {A B : Type 0} → (A → ℕ) → (B → ℕ) → A → Verdict A B → Type 0
Keeps own owned a (stays b) = own b ≡ own a
Keeps own owned a (leaves e) = owned e ≡ own a

total-keep-effects :
    {A B : Type 0} (own : A → ℕ) (owned : B → ℕ) (verdict : A → Verdict A B)
    → ((a : A) → Keeps own owned a (verdict a))
    → (xs : List A) → total own (keep verdict xs) + total owned (effects verdict xs) ≡ total own xs
unfolding total keep effects
total-keep-effects own owned verdict keeps [] = refl
total-keep-effects {A} {B} own owned verdict keeps (x ∷ xs) =
    by_verdict (verdict x) (keeps x) (total-keep-effects own owned verdict keeps xs)
  where
    by_verdict :
        (v : Verdict A B)
        → Keeps own owned x v
        → total own (keep verdict xs) + total owned (effects verdict xs) ≡ total own xs
        → total own (elim v [ stays a ↦ a ∷ keep verdict xs | leaves b ↦ keep verdict xs ])
            + total owned
                (elim v [ stays a ↦ effects verdict xs | leaves b ↦ b ∷ effects verdict xs ])
          ≡ own x + total own xs
    by_verdict (stays a) e rest = omega (arith, e, rest)
    by_verdict (leaves b) e rest = omega (arith, e, rest)

module _ {Conn : Type 0} (w : Conn → ℕ) where
  -- The weight of an effect of the loop over `relay_read`, and of the loop over `relay_write`.
  abbrev pub read_effect : Effect Conn → ℕ
  read_effect (to_writing conn n) = w conn
  read_effect (end_reading conn) = w conn
  read_effect _ = 0

  abbrev pub write_effect : Effect Conn → ℕ
  write_effect (to_reading conn) = w conn
  write_effect (end_writing conn) = w conn
  write_effect _ = 0

  abbrev pub entry : Conn × ℕ → ℕ
  entry e = w e.0

  -- What a thread reads from, and writes to.
  abbrev pub reading : Round Conn → ℕ
  reading t =
      total w (items t.worker.relay_read)
      + total w (items t.incoming.for_reading)
      + total read_effect t.effects

  abbrev pub writing : Round Conn → ℕ
  writing t =
      total entry (items t.worker.relay_write)
      + total entry (items t.incoming.for_writing)
      + total write_effect t.effects

abbrev nothing : {A : Type 0} → A → ℕ
nothing a = 0

total-nothing : {A : Type 0} (xs : List A) → total nothing xs ≡ 0
unfolding total
total-nothing [] = refl
total-nothing (x ∷ xs) = omega (arith, total-nothing xs)

module _ {Conn : Type 0} (w : Conn → ℕ) (would_block : ℕ → Bool) (ready : Conn → Bool)
    (result : Conn → Result) where
  read_verdict-Keeps :
      (conn : Conn)
      → Keeps w (read_effect w) conn (read_verdict would_block ready result conn)
        × Keeps nothing (write_effect w) conn (read_verdict would_block ready result conn)
  unfolding read_verdict
  read_verdict-Keeps conn = ground arith

  write_verdict-Keeps :
      (e : Conn × ℕ)
      → Keeps (entry w) (write_effect w) e (write_verdict would_block ready result e)
        × Keeps nothing (read_effect w) e (write_verdict would_block ready result e)
  unfolding write_verdict
  write_verdict-Keeps (conn, len) = ground arith

  -- Each loop keeps the weight of its array, and has only effects of its own kind.
  pub read_loop_total :
      (s : Slots Conn)
      → IsSlots s
      → Ensures (sweep_slots (read_verdict would_block ready result) s) λ r.
        (total w (items r.0) + total (read_effect w) r.1 ≡ total w (items s))
        × (total (write_effect w) r.1 ≡ 0)
  read_loop_total s v =
      Ensures-map (sweep_slots (read_verdict would_block ready result) s) _ _
        (sweep_slots_lem (read_verdict would_block ready result) s v)
        λ r h. (
          omega (
            arith,
            ap (total w) h.0,
            ap (total (read_effect w)) h.1,
            total-keep-effects w (read_effect w) (read_verdict would_block ready result)
                (λ c. (read_verdict-Keeps c).0) (items s),
          ),
          omega (
            arith,
            ap (total (write_effect w)) h.1,
            total-keep-effects nothing (write_effect w) (read_verdict would_block ready result)
                (λ c. (read_verdict-Keeps c).1) (items s),
            total-nothing (items s),
          ),
        )

  pub write_loop_total :
      (s : Slots (Conn × ℕ))
      → IsSlots s
      → Ensures (sweep_slots (write_verdict would_block ready result) s) λ r.
        (total (entry w) (items r.0) + total (write_effect w) r.1 ≡ total (entry w) (items s))
        × (total (read_effect w) r.1 ≡ 0)
  write_loop_total s v =
      Ensures-map (sweep_slots (write_verdict would_block ready result) s) _ _
        (sweep_slots_lem (write_verdict would_block ready result) s v)
        λ r h. (
          omega (
            arith,
            ap (total (entry w)) h.0,
            ap (total (write_effect w)) h.1,
            total-keep-effects (entry w) (write_effect w) (write_verdict would_block ready result)
                (λ e. (write_verdict-Keeps e).0) (items s),
          ),
          omega (
            arith,
            ap (total (read_effect w)) h.1,
            total-keep-effects nothing (read_effect w) (write_verdict would_block ready result)
                (λ e. (write_verdict-Keeps e).1) (items s),
            total-nothing (items s),
          ),
        )
