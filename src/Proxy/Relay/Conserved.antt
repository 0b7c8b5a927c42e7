-- ===== src/Proxy/Relay/Conserved.antt =====
-- A whole round of `relay` in examples/src/relay.c loses and doubles no connection.
use mathlib.Core.List.{Perm, perm_middle, map-append}
use mathlib.Core.List.Perm
use quiet_lwip.Prelude.{
  ℕ, ◌+◌, ◌≤◌, ◌<◌, ◌≡◌, refl, sym, ap, ap₂, subst, ◌∙◌, List, [], ◌∷◌, ◌++◌, append-nil, map,
  Option, none, some, Bool, ltb, if◌then◌else◌, done, fault, lt→ltb, ◌>>=◌, Ensures, Ensures-bind,
  Ensures-map, Ensures-both, arith,
}
use quiet_lwip.Proxy.Crossbar.{
  Crossbar, Worker, items, IsSlots, num_relays, take_work, take_work_lem, take_work-IsSlots,
}
use quiet_lwip.Proxy.Relay.{Result, sweep_slots, read_verdict, write_verdict}
use quiet_lwip.Proxy.Relay.Owners.{
  effect_conn, entry_conn, self_conn, read_loop-KeepsAll, write_loop-KeepsAll,
}
use quiet_lwip.Proxy.Relay.Round.{fd_loop, Round, Ready, serve_ready, select_and_serve, relay_round}

module _ {A : Type 0} where
  pub move-perm : (bs cs ds : List A) → Perm (bs ++ (cs ++ ds)) (cs ++ (bs ++ ds))
  move-perm [] cs ds = Perm.refl (cs ++ ds)
  move-perm (b ∷ bs) cs ds =
      Perm.trans (Perm.cons b (move-perm bs cs ds)) (Perm.symm (perm_middle cs (bs ++ ds)))

  exchange-perm :
      (xs bs cs ds : List A) → Perm ((xs ++ bs) ++ (cs ++ ds)) ((xs ++ cs) ++ (bs ++ ds))
  exchange-perm [] bs cs ds = move-perm bs cs ds
  exchange-perm (a ∷ xs) bs cs ds = Perm.cons a (exchange-perm xs bs cs ds)

-- The connections of a thread, and those that wait for it.
abbrev pub conns : {Conn : Type 0} → Worker Conn → List Conn
conns w = map self_conn (items w.relay_read) ++ map entry_conn (items w.relay_write)

abbrev pub queued : {Conn : Type 0} → Crossbar Conn → List Conn
queued c = map self_conn (items c.for_reading) ++ map entry_conn (items c.for_writing)

pub fd_loop_lem :
    (fd_setsize : ℕ) {A : Type 0} (fd_of : A → ℕ) (xs : List A) (max_fd : ℕ)
    → ((a : A) → fd_of a < fd_setsize)
    → Ensures (fd_loop fd_setsize (map fd_of xs) max_fd) λ r. r.1 ≡ map fd_of xs
unfolding fd_loop
fd_loop_lem fd_setsize fd_of [] max_fd below = refl
fd_loop_lem fd_setsize fd_of (a ∷ xs) max_fd below =
    let rest =
      fd_loop_lem fd_setsize fd_of xs (if ltb max_fd (fd_of a) then fd_of a else max_fd) below in
    subst
      (λ b.
        Ensures {A = ℕ × List ℕ}
          (if b
            then (do
              r ←
                  fd_loop fd_setsize (map fd_of xs)
                    (if ltb max_fd (fd_of a) then fd_of a else max_fd)
              done (r.0, fd_of a ∷ r.1))
            else fault)
          λ r. r.1 ≡ fd_of a ∷ map fd_of xs)
      (sym (lt→ltb (fd_of a) fd_setsize (below a)))
      (Ensures-bind
        (fd_loop fd_setsize (map fd_of xs) (if ltb max_fd (fd_of a) then fd_of a else max_fd)) _ _ _
        rest λ r h. ap (λ l. fd_of a ∷ l) h)

module _ {Conn : Type 0} (fd_setsize : ℕ) (fd_of : Conn → ℕ)
    (select : ℕ → List ℕ → List ℕ → Option Ready) (would_block : ℕ → Bool)
    (reads writes : Conn → Result) where
  -- What the thread has after a round, with what had an effect, is what it had before.
  abbrev pub Conserves : List Conn → Round Conn → Type 0
  Conserves before r = Perm (conns r.worker ++ map effect_conn r.effects) before

  serve_ready-Conserves :
      (ready : Ready) (w : Worker Conn) (incoming : Crossbar Conn)
      → IsSlots w.relay_read
      → IsSlots w.relay_write
      → Ensures
          (serve_ready fd_setsize fd_of select would_block reads writes ready w incoming)
          (Conserves (conns w))
  unfolding serve_ready
  serve_ready-Conserves ready w incoming v u =
      Ensures-bind
        (sweep_slots (read_verdict would_block (λ c. ready.0 (fd_of c)) reads) w.relay_read) _ _ _
        (read_loop-KeepsAll would_block (λ c. ready.0 (fd_of c)) reads w.relay_read v)
        λ r h.
          Ensures-bind
            (sweep_slots (write_verdict would_block (λ c. ready.1 (fd_of c)) writes) w.relay_write)
            _ _ _ (write_loop-KeepsAll would_block (λ c. ready.1 (fd_of c)) writes w.relay_write u)
            λ s k.
              subst
                (λ l.
                  Perm ((map self_conn (items r.0) ++ map entry_conn (items s.0)) ++ l) (conns w))
                (sym (map-append effect_conn r.1 s.1))
                (Perm.trans
                  (exchange-perm (map self_conn (items r.0)) (map entry_conn (items s.0))
                    (map effect_conn r.1) (map effect_conn s.1))
                  (Perm.append h k))

  select_and_serve-Conserves :
      (w : Worker Conn) (incoming : Crossbar Conn)
      → ((c : Conn) → fd_of c < fd_setsize)
      → IsSlots w.relay_read
      → IsSlots w.relay_write
      → Ensures
          (select_and_serve fd_setsize fd_of select would_block reads writes w incoming)
          (Conserves (conns w))
  unfolding select_and_serve
  select_and_serve-Conserves w incoming below v u =
      Ensures-bind (fd_loop fd_setsize (map fd_of (items w.relay_read)) 0) _ _ _
        (fd_loop_lem fd_setsize fd_of (items w.relay_read) 0 below)
        λ r h.
          Ensures-bind
            (fd_loop fd_setsize (map (λ e. fd_of (entry_conn e)) (items w.relay_write)) r.0) _ _ _
            (fd_loop_lem fd_setsize (λ e. fd_of (entry_conn e)) (items w.relay_write) r.0
              (λ e. below (entry_conn e)))
            λ s k. by_select (select (s.0 + 1) r.1 s.1)
    where
      by_select :
          (found : Option Ready)
          → Ensures
              (elim found [
                | none ↦ done (record { worker = w; incoming = incoming; effects = [] })
                | some ready ↦
                    serve_ready fd_setsize fd_of select would_block reads writes ready w incoming
              ])
              (Conserves (conns w))
      by_select none =
          subst (λ l. Perm l (conns w)) (sym (append-nil (conns w))) (Perm.refl (conns w))
      by_select (some ready) = serve_ready-Conserves ready w incoming v u

  -- A round in which there is work does not wait.
  pub relay_round_busy :
      (w : Worker Conn) (incoming : Crossbar Conn)
      → 0
        < w.relay_read.used + w.relay_write.used + incoming.for_writing.used
          + incoming.for_reading.used
      → relay_round fd_setsize fd_of select would_block reads writes w incoming ≡ (do
        t ← take_work w incoming
        select_and_serve fd_setsize fd_of select would_block reads writes t.0 t.1)
  unfolding relay_round
  relay_round_busy w incoming busy = ground arith

  -- A round of a relay thread that has a connection, or for which one waits, returns, and loses and doubles
  -- none: those that it keeps and those that it has an effect on are together those that it had and those
  -- that waited for it. Its arrays and its crossbar's are sound and have room, and every descriptor is below
  -- FD_SETSIZE.
  pub relay_round-Conserves :
      (w : Worker Conn) (incoming : Crossbar Conn)
      → ((c : Conn) → fd_of c < fd_setsize)
      → IsSlots w.relay_read
      → IsSlots w.relay_write
      → IsSlots incoming.for_reading
      → IsSlots incoming.for_writing
      → w.relay_read.used + incoming.for_reading.used ≤ num_relays
      → w.relay_write.used + incoming.for_writing.used ≤ num_relays
      → 0
        < w.relay_read.used + w.relay_write.used + incoming.for_writing.used
          + incoming.for_reading.used
      → Ensures
          (relay_round fd_setsize fd_of select would_block reads writes w incoming)
          (Conserves (conns w ++ queued incoming))
  relay_round-Conserves w incoming below v₁ v₂ v₃ v₄ room₁ room₂ busy =
      subst (λ m. Ensures m (Conserves (conns w ++ queued incoming)))
        (sym (relay_round_busy w incoming busy))
        (Ensures-bind (take_work w incoming)
          (λ t. select_and_serve fd_setsize fd_of select would_block reads writes t.0 t.1) _ _
          (Ensures-both (take_work w incoming) _ _
            (take_work_lem w incoming v₁ v₂ v₃ v₄ room₁ room₂)
            (take_work-IsSlots w incoming v₁ v₂ v₃ v₄ room₁ room₂))
          λ t h.
            Ensures-map (select_and_serve fd_setsize fd_of select would_block reads writes t.0 t.1)
              _ _ (select_and_serve-Conserves t.0 t.1 below h.1.0 h.1.1)
              λ r k. Perm.trans k (taken t.0 h.0.0 h.0.1))
    where
      taken :
          (u : Worker Conn)
          → items u.relay_read ≡ items w.relay_read ++ items incoming.for_reading
          → items u.relay_write ≡ items w.relay_write ++ items incoming.for_writing
          → Perm (conns u) (conns w ++ queued incoming)
      taken u e f =
          subst (λ l. Perm l (conns w ++ queued incoming))
            (sym (
              ap₂ (λ xs ys. xs ++ ys)
                (ap (map self_conn) e
                  ∙ map-append self_conn (items w.relay_read) (items incoming.for_reading))
                (ap (map entry_conn) f
                  ∙ map-append entry_conn (items w.relay_write) (items incoming.for_writing))))
            (exchange-perm (map self_conn (items w.relay_read))
              (map self_conn (items incoming.for_reading)) (map entry_conn (items w.relay_write))
              (map entry_conn (items incoming.for_writing)))
