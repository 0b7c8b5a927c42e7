-- ===== src/Proxy/Server/Settled.antt =====
-- Connections of examples/src/proxy_server.c that have been closed or handed over.
use mathlib.Core.List.{Perm, map-append}
use mathlib.Core.List.Perm
use quiet_lwip.Prelude.{
  ℕ, zero, suc, ◌+◌, ◌≤◌, ◌≡◌, refl, sym, ap, ◌∙◌, append_assoc, append-nil, List, [], ◌∷◌, ◌++◌,
  map, length, length-append, length-take, Option, none, some, arith,
}
use quiet_lwip.Proxy.Crossbar.{Slots, IsSlots, items, num_relays}
use quiet_lwip.Proxy.Session.Memory.{IsSafe}
use quiet_lwip.Proxy.Session.Supply.{Stock}
use quiet_lwip.Proxy.Relay.Conserved.{move-perm}
use quiet_lwip.Proxy.Server.{Link, MainThread}

-- The connections that `accept` has returned.
abbrev pub accepted : List (Option ℕ) → List ℕ
accepted [] = []
accepted (none ∷ rs) = accepted rs
accepted (some fd ∷ rs) = fd ∷ accepted rs

pub accepted_first :
    (a : Option ℕ) (rs : List (Option ℕ)) → accepted (a ∷ []) ++ accepted rs ≡ accepted (a ∷ rs)
accepted_first none rs = refl
accepted_first (some fd) rs = refl

abbrev pub lwip_fd : Link → ℕ
lwip_fd conn = conn.1

-- What so many rounds use of the results of the sockets, at a cost for each.
unfoldable pub needed : ℕ → ℕ → ℕ
needed cost zero = 0
needed cost (suc more) = cost + needed cost more

-- The buffer is whole, there is room for some more connections in both crossbars, and the sockets go on
-- to return something.
pub record IsReady (cost more : ℕ) (p : MainThread) : Type 0 where
  pub session : IsSafe p.session
  pub stock : Stock (needed cost more) p.session
  pub client : IsSlots p.client_crossbar.for_reading
  pub client_room : p.client_crossbar.for_reading.used + more ≤ num_relays
  pub remote : IsSlots p.remote_crossbar.for_reading
  pub remote_room : p.remote_crossbar.for_reading.used + more ≤ num_relays

-- Every connection of a list has been closed, or both relay threads have it, in the same order.
pub record Settles (fds : List ℕ) (p q : MainThread) : Type 0 where
  pub handed : List Link
  pub client : items q.client_crossbar.for_reading ≡ items p.client_crossbar.for_reading ++ handed
  pub remote : items q.remote_crossbar.for_reading ≡ items p.remote_crossbar.for_reading ++ handed
  pub settled : Perm (map lwip_fd handed ++ q.closed) (fds ++ p.closed)

pub Settles-nil : (p : MainThread) → Settles [] p p
Settles-nil p = record {
  handed = [];
  client = sym (append-nil (items p.client_crossbar.for_reading));
  remote = sym (append-nil (items p.remote_crossbar.for_reading));
  settled = Perm.refl p.closed;
}

pub Settles-append :
    (xs ys : List ℕ) (p q r : MainThread) → Settles xs p q → Settles ys q r → Settles (xs ++ ys) p r
Settles-append xs ys p q r h k = record {
  handed = h.handed ++ k.handed;
  client =
      k.client
      ∙ (ap (λ l. l ++ k.handed) h.client
          ∙ append_assoc (items p.client_crossbar.for_reading) h.handed k.handed);
  remote =
      k.remote
      ∙ (ap (λ l. l ++ k.handed) h.remote
          ∙ append_assoc (items p.remote_crossbar.for_reading) h.handed k.handed);
  settled =
      rw
        (
          map-append lwip_fd h.handed k.handed,
          append_assoc (map lwip_fd h.handed) (map lwip_fd k.handed) r.closed,
          append_assoc xs ys p.closed,
        )
        (Perm.trans (Perm.append_left (map lwip_fd h.handed) k.settled) (
          Perm.trans (move-perm (map lwip_fd h.handed) ys q.closed)
            (Perm.trans (Perm.append_left ys h.settled) (move-perm ys xs p.closed))));
}

pub used_after :
    {A : Type 0} (s t : Slots A) (a : A)
    → IsSlots s
    → IsSlots t
    → items t ≡ items s ++ (a ∷ [])
    → t.used ≡ s.used + 1
used_after s t a v u e = omega (
  arith,
  length-take s.used s.entries,
  length-take t.used t.entries,
  ap length e,
  length-append (items s) (a ∷ []),
)
