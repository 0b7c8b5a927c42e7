-- ===== src/Driver/Tests.antt =====
-- The theorems on the drivers at concrete inputs, with a pbuf module that meets its documentation.
use quiet_lwip.Prelude.{
  ℕ, ◌+◌, ◌*◌, ◌≤◌, ◌≡◌, ◌↔◌, ◌⊎◌, refl, List, [], ◌∷◌, ◌++◌, none, some, true, false, arith, ltb,
  if◌then◌else◌, length, length-append, length-replicate, replicate, take, done, fault, Ensures,
}
use quiet_lwip.Driver.Pbuf.{memcpy_from, Pbuf, PbufModule, Documented, IsPacket, flatten}
use quiet_lwip.Driver.Frame.{copy_in, pbuf2buf, buf2pbuf, recv_pbuf}
use quiet_lwip.Driver.Frame.Copies.{
  pbuf2buf_lem, pbuf2buf-fault, buf2pbuf_lem, Holds, pbuf2buf-buf2pbuf,
}
use quiet_lwip.Driver.Frame.Dispatch.{
  frees, inputs, taken, packet, recv_pbuf-owned_once, recv_pbuf-offered,
}
use quiet_lwip.Driver.Receive.{LinkStats, Receiver, Arrival}
use quiet_lwip.Driver.Transmit.{
  Sender, Sends, encode_frame, portaudio_encode_frame, sizes, portaudio_sizes, pbuf_link_hlen,
  portaudio_encode_frame_lem, full_frame-fault, portaudio_full_frame,
}
use quiet_lwip.Driver.Halfduplex.{
  Event, poll, emit, after, polls, any_open, silence, get_next_audio_packet, rx_in_progress_lem,
  no_collision,
}

-- A pool that gives one buffer of the length asked for, up to 1600 bytes.
abbrev pool : PbufModule
pool = record {
  hide_header = λ n p. p;
  reveal_header = λ n p. p;
  alloc = λ n.
      if ltb n 1_600 then some (record { payloads = replicate n 0 ∷ []; tot_len = n }) else none;
}

zeros : (n : ℕ) → length {A = ℕ} (replicate n 0 ++ []) ≡ n
zeros n = omega (arith, length-append {A = ℕ} (replicate n 0) [], length-replicate {A = ℕ} n 0)

pool-alloc :
    (n : ℕ) (p : Pbuf) → pool.alloc n ≡ some p → (length (flatten p.payloads) ≡ n) × IsPacket p
pool-alloc n p e = ground (arith, zeros n)

pool-Documented : Documented pool
pool-Documented = record { hide_zero = λ p. refl; reveal_zero = λ p. refl; alloc_size = pool-alloc }

-- A packet in two buffers.
abbrev split_packet : Pbuf
split_packet = record { payloads = (1 ∷ 2 ∷ []) ∷ (3 ∷ []) ∷ []; tot_len = 3 }

pbuf2buf_lem_example :
    pbuf2buf pool (9 ∷ 9 ∷ 9 ∷ 9 ∷ []) split_packet ≡ done (3, 1 ∷ 2 ∷ 3 ∷ 9 ∷ [], split_packet)
pbuf2buf_lem_example = pbuf2buf_lem (9 ∷ 9 ∷ 9 ∷ 9 ∷ []) split_packet pool-Documented (omega arith)

pbuf2buf-fault_example : pbuf2buf pool (9 ∷ 9 ∷ []) split_packet ≡ fault
pbuf2buf-fault_example = pbuf2buf-fault (9 ∷ 9 ∷ []) split_packet pool-Documented (omega arith)

buf2pbuf_lem_example : Ensures (buf2pbuf pool (1 ∷ 2 ∷ 3 ∷ []) 2) (Holds (1 ∷ 2 ∷ 3 ∷ []) 2)
buf2pbuf_lem_example = buf2pbuf_lem (1 ∷ 2 ∷ 3 ∷ []) 2 pool-Documented (omega arith) (omega arith)

pbuf2buf-buf2pbuf_example :
    pbuf2buf pool (9 ∷ 9 ∷ 9 ∷ []) (record { payloads = (1 ∷ 2 ∷ []) ∷ []; tot_len = 2 })
    ≡ done (2, 1 ∷ 2 ∷ 9 ∷ [], record { payloads = (1 ∷ 2 ∷ []) ∷ []; tot_len = 2 })
unfolding buf2pbuf copy_in memcpy_from
pbuf2buf-buf2pbuf_example =
    pbuf2buf-buf2pbuf (1 ∷ 2 ∷ 3 ∷ []) (9 ∷ 9 ∷ 9 ∷ []) 2
      (record { payloads = (1 ∷ 2 ∷ []) ∷ []; tot_len = 2 }) pool-Documented (omega arith)
      (omega arith) (omega arith) refl

-- An ARP frame: two addresses, the type 0x0806 and no more.
abbrev arp_frame : List ℕ
arp_frame = 1 ∷ 2 ∷ 3 ∷ 4 ∷ 5 ∷ 6 ∷ 6 ∷ 5 ∷ 4 ∷ 3 ∷ 2 ∷ 1 ∷ 8 ∷ 6 ∷ []

recv_pbuf-owned_once_example :
    taken false (recv_pbuf (λ k. 0) (λ p. false) (packet arp_frame [] 14))
      + frees (recv_pbuf (λ k. 0) (λ p. false) (packet arp_frame [] 14))
    ≡ 1
recv_pbuf-owned_once_example = recv_pbuf-owned_once (λ k. 0) (λ p. false) (packet arp_frame [] 14)

recv_pbuf-offered_example :
    ((inputs (recv_pbuf (λ k. 0) (λ p. true) (packet arp_frame [] 14)) ≡ 1)
      ↔ ((8 * 256 + 6 ≡ 0x0800) ⊎ (8 * 256 + 6 ≡ 0x0806)))
    × (inputs (recv_pbuf (λ k. 0) (λ p. true) (packet arp_frame [] 14)) ≤ 1)
recv_pbuf-offered_example =
    recv_pbuf-offered (λ k. 0) (λ p. true) arp_frame [] 14 (omega arith) (omega arith) (omega arith)

abbrev no_stats : LinkStats
no_stats = record { xmit = 0; recv = 0; memerr = 0; drop = 0 }

abbrev receiver : Receiver
receiver = record { recv_temp = 0 ∷ 0 ∷ 0 ∷ 0 ∷ []; stats = no_stats }

-- Two frames, and then none for the moment.
abbrev arrivals : List Arrival
arrivals = (some (1 ∷ 2 ∷ []), pool) ∷ (some (3 ∷ []), pool) ∷ (none, pool) ∷ []

abbrev sender : Sender
sender = record { send_temp = 9 ∷ 9 ∷ 9 ∷ 9 ∷ []; stats = no_stats; sent = [] }

portaudio_encode_frame_lem_example :
    Ensures (portaudio_encode_frame pool sender split_packet) (Sends sender split_packet)
portaudio_encode_frame_lem_example =
    portaudio_encode_frame_lem sender split_packet pool-Documented refl

-- An encoder with frames of 4 bytes, and a packet of a header and 4 bytes.
full_frame-fault_example :
    encode_frame pool sender
      (record { payloads = arp_frame ∷ (1 ∷ 2 ∷ 3 ∷ 4 ∷ []) ∷ []; tot_len = 18 })
    ≡ fault
unfolding sizes
full_frame-fault_example =
    full_frame-fault sender
      (record { payloads = arp_frame ∷ (1 ∷ 2 ∷ 3 ∷ 4 ∷ []) ∷ []; tot_len = 18 }) 4 pool-Documented
      refl refl

portaudio_full_frame_example : pbuf_link_hlen + (portaudio_sizes 600).0 ≡ (portaudio_sizes 600).1
portaudio_full_frame_example = portaudio_full_frame 600 (omega arith) (omega arith)

-- The peer is heard, goes silent, and has been silent for two polls.
abbrev heard : List Event
heard = poll false ∷ emit 0 ∷ poll false ∷ poll true ∷ []

abbrev silent : List Event
silent = poll false ∷ heard

rx_in_progress_lem_example : (after 8 heard).rx_in_progress ≡ any_open (take 3 (polls heard))
rx_in_progress_lem_example = rx_in_progress_lem 8 heard

no_collision_example : get_next_audio_packet 8 (after 8 heard) ≡ (silence, 0, after 8 heard)
unfolding after
no_collision_example = no_collision 8 8 heard refl refl
