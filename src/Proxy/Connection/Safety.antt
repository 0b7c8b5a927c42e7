-- ===== src/Proxy/Connection/Safety.antt =====
-- No connection of examples/src/relay.c is used after it is freed or freed twice, and each direction
-- carries its bytes in order.
use quiet_lwip.Prelude.{
  ℕ, ◌+◌, ◌-◌, ◌⊎◌, ◌≤◌, ◌≡◌, [], ◌++◌, append-nil, append_assoc, take, drop, take-append-drop,
  arith,
}
use quiet_lwip.Proxy.Connection.{
  Place, queued_read, reading, over, Direction, Closing, Conn, Action, DirectionStep, adopts_read,
  reads_some, reads_end, adopts_write, writes_part, writes_all, writes_end, relay_conn_close,
  close_after, Step, step_inward, step_outward, Reach, initial, later,
}

-- 1 for a direction that is over.
abbrev pub finished : Place → ℕ
finished over = 1
finished _ = 0

-- 1 for a direction whose buffer is the reader's.
abbrev pub unread : Place → ℕ
unread queued_read = 1
unread reading = 1
unread _ = 0

record IsStream (d : Direction) : Type 0 where
  bytes : d.taken ≡ d.given ++ d.pending
  empty : unread d.place ≡ 1 → d.pending ≡ []

DirectionStep-IsStream :
    {d e : Direction} {a : Action} → DirectionStep d a e → IsStream d → IsStream e
DirectionStep-IsStream (adopts_read d h) v = ground arith
DirectionStep-IsStream (reads_some d new h some_read) v = ground (arith, append-nil d.given)
DirectionStep-IsStream (reads_end d h) v = ground arith
DirectionStep-IsStream (adopts_write d h) v = ground arith
DirectionStep-IsStream (writes_part d n h pos lt) v = ground (
  arith,
  append_assoc d.given (take n d.pending) (drop n d.pending),
  take-append-drop n d.pending,
)
DirectionStep-IsStream (writes_all d h) v = ground (arith, append-nil (d.given ++ d.pending))
DirectionStep-IsStream (writes_end d h) v = ground arith

-- The count of closes follows the directions that are over.
record Counts (c : Closing) (ended : ℕ) : Type 0 where
  total : c.close_count + c.destroyed ≡ ended
  first : c.close_count ≤ 1
  second : (c.destroyed ≡ 0) ⊎ (c.close_count ≡ 1)

-- `other` is 1 if the other direction is over.
DirectionStep-Counts :
    {d e : Direction} {a : Action} (c : Closing) (other : ℕ)
    → DirectionStep d a e
    → Counts c (finished d.place + other)
    → Counts (close_after a c) (finished e.place + other) × (finished d.place ≡ 0)
unfolding relay_conn_close
DirectionStep-Counts c other (adopts_read d h) v = ground arith
DirectionStep-Counts c other (reads_some d new h some_read) v = ground arith
DirectionStep-Counts c other (reads_end d h) v = ground arith
DirectionStep-Counts c other (adopts_write d h) v = ground arith
DirectionStep-Counts c other (writes_part d n h pos lt) v = ground arith
DirectionStep-Counts c other (writes_all d h) v = ground arith
DirectionStep-Counts c other (writes_end d h) v = ground arith

record Inv (c : Conn) : Type 0 where
  inward : IsStream c.inward
  outward : IsStream c.outward
  counts : Counts c.closing (finished c.inward.place + finished c.outward.place)

swapped : {c : Closing} (m n : ℕ) → Counts c (m + n) → Counts c (n + m)
swapped m n v = record { total = omega arith; first = v.first; second = v.second }

Step-Inv : {s t : Conn} → Step s t → Inv s → Inv t
Step-Inv (step_inward c a d st) v = record {
  inward = DirectionStep-IsStream st v.inward;
  outward = v.outward;
  counts = (DirectionStep-Counts c.closing (finished c.outward.place) st v.counts).0;
}
Step-Inv (step_outward c a d st) v = record {
  inward = v.inward;
  outward = DirectionStep-IsStream st v.outward;
  counts =
      swapped (finished d.place) (finished c.inward.place)
        (DirectionStep-Counts c.closing (finished c.inward.place) st
          (swapped (finished c.inward.place) (finished c.outward.place) v.counts)).0;
}

Reach-Inv : {s : Conn} → Reach s → Inv s
Reach-Inv initial = ground arith
Reach-Inv (later r st) = Step-Inv st (Reach-Inv r)

finished_le : (p : Place) → finished p ≤ 1
finished_le over = omega arith
finished_le _ = omega arith

-- A connection is destroyed once, and at the moment when its second direction comes to its end.
pub destroyed_once :
    {s : Conn}
    → Reach s
    → s.closing.destroyed ≡ finished s.inward.place + finished s.outward.place - 1
destroyed_once {s} r =
    let v = Reach-Inv r in omega (arith, finished_le s.inward.place, finished_le s.outward.place)

-- No thread uses a connection that has been freed: whatever step is taken, it has not been destroyed.
pub no_use_after_free : {s t : Conn} → Reach s → Step s t → s.closing.destroyed ≡ 0
no_use_after_free r (step_inward c a d st) =
    let v = Reach-Inv r in
    omega (
      arith,
      finished_le c.outward.place,
      DirectionStep-Counts c.closing (finished c.outward.place) st v.counts,
    )
no_use_after_free r (step_outward c a d st) =
    let v = Reach-Inv r in
    let w =
      DirectionStep-Counts c.closing (finished c.inward.place) st
        (swapped (finished c.inward.place) (finished c.outward.place) v.counts) in
    omega (arith, finished_le c.inward.place, w)

-- In each direction the bytes written are the first of those read, in order, with none lost,
-- repeated or changed; the rest waits in the buffer.
pub bytes_in_order :
    {s : Conn}
    → Reach s
    → (s.inward.taken ≡ s.inward.given ++ s.inward.pending)
      × (s.outward.taken ≡ s.outward.given ++ s.outward.pending)
bytes_in_order r = let v = Reach-Inv r in (v.inward.bytes, v.outward.bytes)
