-- ===== src/Proxy/Connection.antt =====
-- The life of one `relay_conn` of examples/src/relay.c: two directions, each with a buffer that one
-- relay thread fills and the other empties, and a count of closes that frees the connection.
pub mod Safety
use quiet_lwip.Prelude.{
  ℕ, suc, ◌+◌, ◌≤◌, ◌<◌, ◌≡◌, ◌≢◌, refl, List, [], ◌∷◌, ◌++◌, append-nil, append_assoc, length,
  take, drop, take-append-drop, arith, ◌==◌, if◌then◌else◌, sym, ◌∙◌, ap,
}

-- Where the pointer to the connection stands, for one direction.
pub data Place : Type 0 where
  queued_read : Place  -- in `ready_for_reading` of a crossbar
  reading : Place  -- in `relay_read` of the thread that reads
  queued_write : Place  -- in `ready_for_writing` of the other crossbar
  writing : Place  -- in `relay_write` of the thread that writes
  over : Place  -- dropped, after `relay_conn_close`

-- One direction: its place, the bytes of its buffer that wait to be written (`write_len` many), and,
-- from the start, what was read from the one socket and what was written to the other.
pub record Direction : Type 0 where
  pub place : Place
  pub pending : List ℕ
  pub taken : List ℕ
  pub given : List ℕ

abbrev pub fresh_direction : Direction
fresh_direction = record { place = queued_read; pending = []; taken = []; given = [] }

-- `close_count`, and how often `relay_conn_destroy` has run.
pub record Closing : Type 0 where
  pub close_count : ℕ
  pub destroyed : ℕ

-- `relay_conn_close`: the compare-and-exchange of 0 for 1 succeeds, or the connection is destroyed.
unfoldable pub relay_conn_close : Closing → Closing
relay_conn_close c =
    if c.close_count == 0
    then record c { close_count = 1 }
    else record c { destroyed = c.destroyed + 1 }

-- What a relay thread does with one direction. A read or write that would block changes nothing.
pub data Action : Type 0 where
  adopt_read : Action  -- the crossbar's entries are copied to `relay_read`
  read_some : List ℕ → Action  -- `read` returns these bytes
  read_end : Action  -- `read` returns 0, or fails
  adopt_write : Action  -- the crossbar's entries are copied to `relay_write`
  write_some : ℕ → Action  -- `write` returns this many bytes
  write_end : Action  -- `write` returns 0, or fails

-- The action on a direction that is in the place for it: the direction afterwards. `write` returns at
-- most the number of bytes that it was given.
pub data DirectionStep : Direction → Action → Direction → Type 0 where
  adopts_read :
      (d : Direction)
      → d.place ≡ queued_read
      → DirectionStep d adopt_read (record d { place = reading })
  reads_some :
      (d : Direction) (bytes : List ℕ)
      → d.place ≡ reading
      → bytes ≢ []
      → DirectionStep d
          (read_some bytes)
          (record d { place = queued_write; pending = bytes; taken = d.taken ++ bytes })
  reads_end :
      (d : Direction) → d.place ≡ reading → DirectionStep d read_end (record d { place = over })
  adopts_write :
      (d : Direction)
      → d.place ≡ queued_write
      → DirectionStep d adopt_write (record d { place = writing })
  -- The rest is moved to the start of the buffer, and the connection stays in `relay_write`.
  writes_part :
      (d : Direction) (n : ℕ)
      → d.place ≡ writing
      → 0 < n
      → n < length d.pending
      → DirectionStep d
          (write_some n)
          (record d { pending = drop n d.pending; given = d.given ++ take n d.pending })
  -- The buffer goes back to the reader.
  writes_all :
      (d : Direction)
      → d.place ≡ writing
      → DirectionStep d
          (write_some (length d.pending))
          (record d { place = queued_read; pending = []; given = d.given ++ d.pending })
  writes_end :
      (d : Direction) → d.place ≡ writing → DirectionStep d write_end (record d { place = over })

-- After an end of either kind the thread calls `relay_conn_close`.
abbrev pub close_after : Action → Closing → Closing
close_after read_end c = relay_conn_close c
close_after write_end c = relay_conn_close c
close_after _ c = c

-- A connection: from the lwIP socket to the native one, and back.
pub record Conn : Type 0 where
  pub inward : Direction
  pub outward : Direction
  pub closing : Closing

-- `relay_conn_create`, and the two calls of `crossbar_add_for_reading` that follow it.
abbrev pub relay_conn_create : Conn
relay_conn_create = record {
  inward = fresh_direction;
  outward = fresh_direction;
  closing = record { close_count = 0; destroyed = 0 };
}

pub data Step : Conn → Conn → Type 0 where
  step_inward :
      (c : Conn) (a : Action) (d : Direction)
      → DirectionStep c.inward a d
      → Step c (record c { inward = d; closing = close_after a c.closing })
  step_outward :
      (c : Conn) (a : Action) (d : Direction)
      → DirectionStep c.outward a d
      → Step c (record c { outward = d; closing = close_after a c.closing })

pub data Reach : Conn → Type 0 where
  initial : Reach relay_conn_create
  later : {s t : Conn} → Reach s → Step s t → Reach t
