-- ===== src/Proxy/Relays/Tokens.antt =====
-- Counting the connections of examples/src/relay.c: a list is weighed, with a weight for each of them.
use mathlib.Core.List.{Perm, foldr}
use mathlib.Core.List.Perm
use quiet_lwip.Prelude.{
  ℕ, zero, suc, ◌+◌, ◌≤◌, ◌<◌, ◌≡◌, ℕ_discrete, refl, sym, ap, ◌∙◌, List, [], ◌∷◌, ◌++◌, map,
  length, length-take, arith, if◌then◌else◌, ◌==◌,
}
use quiet_lwip.Proxy.Connection.{relay_conn_close}
use quiet_lwip.Proxy.Crossbar.{Slots, Crossbar, Worker, items, IsSlots}
use quiet_lwip.Proxy.Relay.Round.{Round}
use quiet_lwip.Proxy.Relay.Owners.{effect_conn, entry_conn, self_conn}
use quiet_lwip.Proxy.Relay.Conserved.{conns, queued}
use quiet_lwip.Proxy.Relays.{Relays, closing_of}

unfoldable pub weigh : (ℕ → ℕ) → List ℕ → ℕ
weigh w [] = 0
weigh w (c ∷ cs) = w c + weigh w cs

module _ (w : ℕ → ℕ) where
  pub weigh-append : (xs ys : List ℕ) → weigh w (xs ++ ys) ≡ weigh w xs + weigh w ys
  unfolding weigh
  weigh-append [] ys = omega arith
  weigh-append (x ∷ xs) ys = omega (arith, weigh-append xs ys)

  as_foldr : (xs : List ℕ) → weigh w xs ≡ foldr (λ c n. w c + n) 0 xs
  unfolding weigh
  as_foldr [] = refl
  as_foldr (x ∷ xs) = ap (λ n. w x + n) (as_foldr xs)

  ℕ-IsSet : IsSet ℕ
  ℕ-IsSet = hlevel

  -- The order makes no difference.
  pub weigh-Perm : {xs ys : List ℕ} → Perm xs ys → weigh w xs ≡ weigh w ys
  weigh-Perm {xs} {ys} p =
      as_foldr xs
      ∙ Perm.foldr-eq ℕ-IsSet (λ c n. w c + n) (λ a b x. omega arith) p 0
      ∙ sym (as_foldr ys)

  -- A weight for each thread: the connections in its arrays, in its crossbar, and in the effects that it
  -- has not come to.
  abbrev pub held : Round ℕ → ℕ
  held t =
      weigh w (conns t.worker) + weigh w (queued t.incoming) + weigh w (map effect_conn t.effects)

  -- Everything that is in somebody's hands.
  abbrev pub held_in : Relays → ℕ
  held_in s = held s.client + held s.remote + weigh w s.between

  -- The connections that have been created, up to a number.
  unfoldable pub weigh_below : ℕ → ℕ
  weigh_below zero = 0
  weigh_below (suc n) = w n + weigh_below n

-- The weights that count all, and that count one connection.
abbrev pub every : ℕ → ℕ
every c = 1

abbrev pub only : ℕ → ℕ → ℕ
only conn c = if c == conn then 1 else 0

pub weigh-map : {A : Type 0} (f : A → ℕ) (xs : List A) → weigh every (map f xs) ≡ length xs
unfolding weigh
weigh-map f [] = refl
weigh-map f (x ∷ xs) = omega (arith, weigh-map f xs)

pub length-items : {A : Type 0} (s : Slots A) → IsSlots s → length (items s) ≡ s.used
length-items s v = omega (arith, length-take s.used s.entries)

-- The entries in use of a thread's arrays and of its crossbar are as many as the connections in them.
pub used-conns :
    (t : Worker ℕ)
    → IsSlots t.relay_read
    → IsSlots t.relay_write
    → weigh every (conns t) ≡ t.relay_read.used + t.relay_write.used
used-conns t v u = omega (
  arith,
  weigh-append every (map self_conn (items t.relay_read)) (map entry_conn (items t.relay_write)),
  weigh-map self_conn (items t.relay_read),
  weigh-map entry_conn (items t.relay_write),
  length-items t.relay_read v,
  length-items t.relay_write u,
)

pub used-queued :
    (c : Crossbar ℕ)
    → IsSlots c.for_reading
    → IsSlots c.for_writing
    → weigh every (queued c) ≡ c.for_reading.used + c.for_writing.used
used-queued c v u = omega (
  arith,
  weigh-append every (map self_conn (items c.for_reading)) (map entry_conn (items c.for_writing)),
  weigh-map self_conn (items c.for_reading),
  weigh-map entry_conn (items c.for_writing),
  length-items c.for_reading v,
  length-items c.for_writing u,
)

pub weigh_below-every : (n : ℕ) → weigh_below every n ≡ n
unfolding weigh_below
weigh_below-every zero = refl
weigh_below-every (suc n) = omega (arith, weigh_below-every n)

-- The calls of `relay_conn_close` on a connection: the first is counted, each one more destroys it.
pub closing_of_lem :
    (conn : ℕ) (calls : List ℕ)
    → ((closing_of conn calls).close_count + (closing_of conn calls).destroyed
        ≡ weigh (only conn) calls)
      × ((closing_of conn calls).close_count ≤ 1)
      × ((closing_of conn calls).close_count ≡ 0 → (closing_of conn calls).destroyed ≡ 0)
unfolding closing_of weigh relay_conn_close
closing_of_lem conn [] = (refl, omega arith, λ e. refl)
closing_of_lem conn (c ∷ calls) = ground (arith, closing_of_lem conn calls)

pub weigh_below-only_above : (conn n : ℕ) → n ≤ conn → weigh_below (only conn) n ≡ 0
unfolding weigh_below
weigh_below-only_above conn zero h = refl
weigh_below-only_above conn (suc n) h = ground (arith, weigh_below-only_above conn n)

-- Each connection that has been created counts once.
pub weigh_below-only : (conn n : ℕ) → conn < n → weigh_below (only conn) n ≡ 1
unfolding weigh_below
weigh_below-only conn zero h = absurd (omega arith)
weigh_below-only conn (suc n) h = elim (ℕ_discrete conn n) [
  | yes top ↦ ground (arith, weigh_below-only_above conn n)
  | no below ↦ ground (arith, weigh_below-only conn n)
]
