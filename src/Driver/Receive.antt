-- ===== src/Driver/Receive.antt =====
-- The receive side of src/driver.c and src/driver_portaudio.c: frames that libquiet's decoder has
-- put together are turned into packets for lwIP. The two drivers have the same code here
-- but for the names. The hex dump of frames, which only prints, is left out.
pub mod Loop
use quiet_lwip.Prelude.{
  ℕ, ◌+◌, ◌%◌, ◌^◌, List, [], ◌∷◌, ◌++◌, Option, none, some, drop as List_drop, length, Bool, true,
  false, Outcome, done, blocked, ◌>>=◌,
}
use quiet_lwip.Driver.Pbuf.{Pbuf, PbufModule}
use quiet_lwip.Driver.Frame.{buf2pbuf, recv_pbuf, Call}

-- `lwip_stats.link`, counters of 16 bits
pub record LinkStats : Type 0 where
  pub xmit : ℕ
  pub recv : ℕ
  pub memerr : ℕ
  pub drop : ℕ

-- LINK_STATS_INC
unfoldable pub inc : ℕ → ℕ
inc n = (n + 1) % 2 ^ 16

-- One call of the decoder's `recv`, which gives a frame, or `none` for a result of 0 or below; and
-- lwIP's buffers as they are at that moment.
abbrev pub Arrival : Type 0
Arrival = Option (List ℕ) × PbufModule

-- The driver's `recv_temp` and the counters.
pub record Receiver : Type 0 where
  pub recv_temp : List ℕ
  pub stats : LinkStats

abbrev count_recv : LinkStats → LinkStats
unfolding inc
count_recv s = record s { recv = inc s.recv }

abbrev count_no_memory : LinkStats → LinkStats
unfolding inc
count_no_memory s = record s { memerr = inc s.memerr; drop = inc s.drop }

-- The end of a fetch: the counters tell whether there was memory for the packet.
unfoldable pub count_frame : Option Pbuf → Receiver → Option Pbuf × Receiver
unfolding count_recv count_no_memory
count_frame none r = (none, record r { stats = count_no_memory r.stats })
count_frame (some p) r = (some p, record r { stats = count_recv r.stats })

-- `quiet_lwip_fetch_single_frame`, `quiet_lwip_portaudio_fetch_single_frame`. The decoder writes the
-- frame to the front of `recv_temp`.
unfoldable pub fetch_single_frame : Receiver → Arrival → Outcome (Option Pbuf × Receiver)
fetch_single_frame r (none, buffers) = done (none, r)
fetch_single_frame r (some bytes, buffers) = do
  let temp = bytes ++ List_drop (length bytes) r.recv_temp
  got ← buf2pbuf buffers temp (length bytes)
  done (count_frame got (record r { recv_temp = temp }))

-- What the loop leaves: the packets given to `recv_pbuf`, in order, the driver, and the calls of the
-- decoder that it has not made.
pub record Processed : Type 0 where
  pub delivered : List Pbuf
  pub receiver : Receiver
  pub unread : List Arrival

-- `quiet_lwip_process_audio`, `quiet_lwip_portaudio_process_audio`: it ends when a fetch returns no
-- packet. With no call of the decoder left it waits.
unfoldable pub process_audio : Receiver → List Arrival → Outcome Processed
process_audio r [] = blocked
process_audio r (a ∷ arrivals) = do
  got ← fetch_single_frame r a
  elim (got.0) [
    | none ↦ done (record { delivered = []; receiver = got.1; unread = arrivals })
    | some p ↦ (do
      rest ← process_audio got.1 arrivals
      done (record rest { delivered = p ∷ rest.delivered }))
  ]

unfoldable pub portaudio_fetch_single_frame : Receiver → Arrival → Outcome (Option Pbuf × Receiver)
portaudio_fetch_single_frame = fetch_single_frame

unfoldable pub portaudio_process_audio : Receiver → List Arrival → Outcome Processed
portaudio_process_audio = process_audio
