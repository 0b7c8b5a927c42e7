-- ===== src/Proxy/Crossbar.antt =====
-- The crossbars of examples/src/relay.c: two arrays of 256 connections through which the relay threads
-- hand work to one another. Each function runs whole under the crossbar's mutex.
use quiet_lwip.Prelude.{
  take-set, ℕ, ◌+◌, ◌≤◌, ◌<◌, ◌≡◌, ◌↔◌, refl, List, [], ◌∷◌, ◌++◌, length, length-set, length-take,
  length-drop, length-append, append_assoc, take-append_length, take, drop, set, leb, ltb,
  if◌then◌else◌, arith, Outcome, done, fault, ◌>>=◌, Ensures, Ensures-bind,
}

-- `num_relays`
abbrev pub num_relays : ℕ
num_relays = 256

-- An array of `num_relays` entries, and how many of them are in use.
pub record Slots (A : Type 0) : Type 0 where
  pub entries : List A
  pub used : ℕ

-- The entries in use, in order.
abbrev pub items : {A : Type 0} → Slots A → List A
items s = take s.used s.entries

-- `entries[used] = a; used++`: an entry past the end of the array is undefined.
unfoldable pub append : {A : Type 0} → A → Slots A → Outcome (Slots A)
append a s =
    if ltb s.used num_relays
    then done (record { entries = set s.entries s.used a; used = s.used + 1 })
    else fault

-- `crossbar`, over the type of pointers to connections. `ready_for_writing` and `write_len` are two
-- arrays with one length.
pub record Crossbar (Conn : Type 0) : Type 0 where
  pub for_reading : Slots Conn
  pub for_writing : Slots (Conn × ℕ)

module _ {Conn : Type 0} where
  -- `crossbar_init`; the arrays are not set.
  unfoldable pub crossbar_init : Crossbar Conn → Crossbar Conn
  crossbar_init c = record {
    for_reading = record (c.for_reading) { used = 0 };
    for_writing = record (c.for_writing) { used = 0 };
  }

  unfoldable pub crossbar_add_for_reading : Conn → Crossbar Conn → Outcome (Crossbar Conn)
  unfolding append
  crossbar_add_for_reading conn c = do
    s ← append conn c.for_reading
    done (record c { for_reading = s })

  unfoldable pub crossbar_add_for_writing : Conn → ℕ → Crossbar Conn → Outcome (Crossbar Conn)
  unfolding append
  crossbar_add_for_writing conn buflen c = do
    s ← append (conn, buflen) c.for_writing
    done (record c { for_writing = s })

-- `memcpy(own + used, entries, n * sizeof ...)`, and `used += n`: past the end of the array it is
-- undefined.
unfoldable pub append_all : {A : Type 0} → Slots A → Slots A → Outcome (Slots A)
append_all from own =
    if leb (own.used + from.used) num_relays
    then done (record {
      entries =
          take own.used own.entries
          ++ (take from.used from.entries ++ drop (own.used + from.used) own.entries);
      used = own.used + from.used;
    })
    else fault

-- The arrays `relay_read`, `relay_write` and `write_len` of a relay thread.
pub record Worker (Conn : Type 0) : Type 0 where
  pub relay_read : Slots Conn
  pub relay_write : Slots (Conn × ℕ)

-- `relay`, from the lock of the incoming crossbar's mutex to its unlock, once there is work.
unfoldable pub take_work :
    {Conn : Type 0} → Worker Conn → Crossbar Conn → Outcome (Worker Conn × Crossbar Conn)
take_work w incoming = do
  r ← append_all incoming.for_reading w.relay_read
  s ← append_all incoming.for_writing w.relay_write
  done (
    record { relay_read = r; relay_write = s },
    record {
      for_reading = record (incoming.for_reading) { used = 0 };
      for_writing = record (incoming.for_writing) { used = 0 };
    },
  )

-- What holds of an array with its count of entries in use.
abbrev pub IsSlots : {A : Type 0} → Slots A → Type 0
IsSlots s = (length s.entries ≡ num_relays) × (s.used ≤ num_relays)

module _ {A : Type 0} where
  pub append_lem :
      (a : A) (s : Slots A)
      → IsSlots s
      → s.used < num_relays
      → Ensures (append a s) (λ t. (items t ≡ items s ++ (a ∷ [])) × IsSlots t)
  unfolding append
  append_lem a s v room = ground (arith, take-set s.entries s.used a, length-set s.entries s.used a)

  pub append_all_lem :
      (from own : Slots A)
      → IsSlots from
      → IsSlots own
      → own.used + from.used ≤ num_relays
      → Ensures (append_all from own) (λ t. (items t ≡ items own ++ items from) × IsSlots t)
  unfolding append_all
  append_all_lem from own v w room = ground (
    arith,
    length-take own.used own.entries,
    length-take from.used from.entries,
    length-drop (own.used + from.used) own.entries,
    length-append (take own.used own.entries)
        (take from.used from.entries ++ drop (own.used + from.used) own.entries),
    length-append (take from.used from.entries) (drop (own.used + from.used) own.entries),
    append_assoc (take own.used own.entries) (take from.used from.entries)
        (drop (own.used + from.used) own.entries),
    take-append_length (take own.used own.entries ++ take from.used from.entries)
        (drop (own.used + from.used) own.entries) (own.used + from.used),
    length-append (take own.used own.entries) (take from.used from.entries),
  )

module _ {Conn : Type 0} (c : Crossbar Conn) (conn : Conn) where
  -- A connection that is queued for reading stands last in the queue, while fewer than 256 do.
  pub crossbar_add_for_reading_lem :
      IsSlots c.for_reading
      → c.for_reading.used < num_relays
      → Ensures (crossbar_add_for_reading conn c) (λ d.
        (items d.for_reading ≡ items c.for_reading ++ (conn ∷ []))
        × IsSlots d.for_reading
        × (d.for_writing ≡ c.for_writing))
  unfolding crossbar_add_for_reading
  crossbar_add_for_reading_lem v room = ground (
    arith,
    take-set c.for_reading.entries c.for_reading.used conn,
    length-set c.for_reading.entries c.for_reading.used conn,
  )

  -- Neither array is tested for room: with 256 connections queued the next one is written past the
  -- end of the array.
  pub crossbar_add-fault_iff :
      (buflen : ℕ)
      → ((crossbar_add_for_reading conn c ≡ fault) ↔ (num_relays ≤ c.for_reading.used))
        × ((crossbar_add_for_writing conn buflen c ≡ fault) ↔ (num_relays ≤ c.for_writing.used))
  unfolding crossbar_add_for_reading crossbar_add_for_writing
  crossbar_add-fault_iff buflen = (ground arith, ground arith)

-- A relay thread that takes up the work of its crossbar has it behind its own, in order, for reading
-- and for writing, and leaves the crossbar empty, where both arrays have room.
pub take_work_lem :
    {Conn : Type 0} (w : Worker Conn) (incoming : Crossbar Conn)
    → IsSlots w.relay_read
    → IsSlots w.relay_write
    → IsSlots incoming.for_reading
    → IsSlots incoming.for_writing
    → w.relay_read.used + incoming.for_reading.used ≤ num_relays
    → w.relay_write.used + incoming.for_writing.used ≤ num_relays
    → Ensures (take_work w incoming) (λ r.
      (items r.0.relay_read ≡ items w.relay_read ++ items incoming.for_reading)
      × (items r.0.relay_write ≡ items w.relay_write ++ items incoming.for_writing)
      × (items r.1.for_reading ≡ [])
      × (items r.1.for_writing ≡ []))
unfolding take_work
take_work_lem w incoming v₁ v₂ v₃ v₄ room₁ room₂ =
    Ensures-bind (append_all incoming.for_reading w.relay_read) _ _ _
      (append_all_lem incoming.for_reading w.relay_read v₃ v₁ room₁)
      λ r h.
        Ensures-bind (append_all incoming.for_writing w.relay_write) _ _ _
          (append_all_lem incoming.for_writing w.relay_write v₄ v₂ room₂)
          λ s k. (h.0, k.0, refl, refl)

-- The worker's arrays are sound afterwards.
pub take_work-IsSlots :
    {Conn : Type 0} (w : Worker Conn) (incoming : Crossbar Conn)
    → IsSlots w.relay_read
    → IsSlots w.relay_write
    → IsSlots incoming.for_reading
    → IsSlots incoming.for_writing
    → w.relay_read.used + incoming.for_reading.used ≤ num_relays
    → w.relay_write.used + incoming.for_writing.used ≤ num_relays
    → Ensures (take_work w incoming) (λ r. IsSlots r.0.relay_read × IsSlots r.0.relay_write)
unfolding take_work
take_work-IsSlots w incoming v₁ v₂ v₃ v₄ room₁ room₂ =
    Ensures-bind (append_all incoming.for_reading w.relay_read) _ _ _
      (append_all_lem incoming.for_reading w.relay_read v₃ v₁ room₁)
      λ r h.
        Ensures-bind (append_all incoming.for_writing w.relay_write) _ _ _
          (append_all_lem incoming.for_writing w.relay_write v₄ v₂ room₂) λ s k. (h.1, k.1)
