-- ===== src/Proxy/Relay/Owners.antt =====
-- No connection is lost or doubled by the loops of `relay` in examples/src/relay.c.
use mathlib.Core.List.{Perm, perm_middle}
use mathlib.Core.List.Perm
use quiet_lwip.Prelude.{
  ℕ, ◌≡◌, sym, subst, List, [], ◌∷◌, ◌++◌, map, Bool, arith, Ensures, Ensures-map,
}
use quiet_lwip.Proxy.Crossbar.{Slots, items, IsSlots}
use quiet_lwip.Proxy.Relay.{
  Verdict, stays, leaves, Result, Effect, to_writing, to_reading, end_reading, end_writing,
  sweep_slots, read_verdict, write_verdict,
}
use quiet_lwip.Proxy.Relay.Sweep.{keep, effects, sweep_slots_lem}

-- The connection that an effect is about.
abbrev pub effect_conn : {Conn : Type 0} → Effect Conn → Conn
effect_conn (to_writing conn n) = conn
effect_conn (to_reading conn) = conn
effect_conn (end_reading conn) = conn
effect_conn (end_writing conn) = conn

-- The connection of an entry of `relay_write`.
abbrev pub entry_conn : {Conn : Type 0} → Conn × ℕ → Conn
entry_conn e = e.0

-- The verdict on an entry is about that entry's connection.
abbrev IsAbout : {A B C : Type 0} → (A → C) → (B → C) → A → Verdict A B → Type 0
IsAbout own owned a (stays b) = own b ≡ own a
IsAbout own owned a (leaves e) = owned e ≡ own a

keep-effects-perm :
    {A B C : Type 0} (own : A → C) (owned : B → C) (verdict : A → Verdict A B)
    → ((a : A) → IsAbout own owned a (verdict a))
    → (xs : List A)
    → Perm (map own (keep verdict xs) ++ map owned (effects verdict xs)) (map own xs)
unfolding keep effects
keep-effects-perm own owned verdict about [] = Perm.refl []
keep-effects-perm {A} {B} own owned verdict about (x ∷ xs) =
    by_verdict (verdict x) (about x) (keep-effects-perm own owned verdict about xs)
  where
    by_verdict :
        (v : Verdict A B)
        → IsAbout own owned x v
        → Perm (map own (keep verdict xs) ++ map owned (effects verdict xs)) (map own xs)
        → Perm
            (map own (elim v [ stays a ↦ a ∷ keep verdict xs | leaves b ↦ keep verdict xs ])
              ++ map owned
                  (elim v [ stays a ↦ effects verdict xs | leaves b ↦ b ∷ effects verdict xs ]))
            (own x ∷ map own xs)
    by_verdict (stays a) e rest = rw e (Perm.cons (own x) rest)
    by_verdict (leaves b) e rest = rw e (Perm.trans (perm_middle _ _) (Perm.cons (own x) rest))

module _ {A B C : Type 0} (own : A → C) (owned : B → C) (verdict : A → Verdict A B) where
  -- The connections after the loop, those kept and those with an effect, are those before it.
  abbrev pub KeepsAll : Slots A → Slots A × List B → Type 0
  KeepsAll s r = Perm (map own (items r.0) ++ map owned r.1) (map own (items s))

  sweep-KeepsAll :
      ((a : A) → IsAbout own owned a (verdict a))
      → (s : Slots A) → IsSlots s
      → Ensures (sweep_slots verdict s) (KeepsAll s)
  sweep-KeepsAll about s v =
      Ensures-map (sweep_slots verdict s) _ (KeepsAll s) (sweep_slots_lem verdict s v) λ r h.
        subst (λ k. Perm (map own k ++ map owned r.1) (map own (items s))) (sym h.0)
          (subst (λ e. Perm (map own (keep verdict (items s)) ++ map owned e) (map own (items s)))
            (sym h.1) (keep-effects-perm own owned verdict about (items s)))

-- The connection of an entry of `relay_read`.
abbrev pub self_conn : {Conn : Type 0} → Conn → Conn
self_conn conn = conn

module _ {Conn : Type 0} (would_block : ℕ → Bool) (ready : Conn → Bool)
    (result : Conn → Result) where
  read_verdict-IsAbout :
      (conn : Conn)
      → IsAbout self_conn effect_conn conn (read_verdict would_block ready result conn)
  unfolding read_verdict
  read_verdict-IsAbout conn = ground arith

  write_verdict-IsAbout :
      (entry : Conn × ℕ)
      → IsAbout entry_conn effect_conn entry (write_verdict would_block ready result entry)
  unfolding write_verdict
  write_verdict-IsAbout (conn, len) = ground arith

  -- The loop over `relay_read` loses and doubles no connection: those that it keeps and those that it
  -- has an effect on are together the connections that it went through.
  pub read_loop-KeepsAll :
      (s : Slots Conn)
      → IsSlots s
      → Ensures
          (sweep_slots (read_verdict would_block ready result) s)
          (KeepsAll self_conn effect_conn (read_verdict would_block ready result) s)
  read_loop-KeepsAll s v =
      sweep-KeepsAll self_conn effect_conn (read_verdict would_block ready result)
        read_verdict-IsAbout s v

  -- The loop over `relay_write` loses and doubles no connection either.
  pub write_loop-KeepsAll :
      (s : Slots (Conn × ℕ))
      → IsSlots s
      → Ensures
          (sweep_slots (write_verdict would_block ready result) s)
          (KeepsAll entry_conn effect_conn (write_verdict would_block ready result) s)
  write_loop-KeepsAll s v =
      sweep-KeepsAll entry_conn effect_conn (write_verdict would_block ready result)
        write_verdict-IsAbout s v
