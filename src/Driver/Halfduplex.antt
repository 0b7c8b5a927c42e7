-- ===== src/Driver/Halfduplex.antt =====
-- Collision avoidance in src/driver_portaudio.c: the emitting thread keeps silent while the receiving
-- thread hears the peer. The two threads share one atomic flag; each call reads and writes it once, so
-- that they interleave call by call.
use quiet_lwip.Prelude.{
  ℕ, suc, ◌+◌, ◌≡◌, refl, List, [], ◌∷◌, Bool, true, false, not, ◌||◌, ltb, ◌==◌, if◌then◌else◌,
  arith, take, min,
}

-- The fields of `portaudio_eth_driver` that the two threads use.
pub record Duplex : Type 0 where
  pub encoder_sample_size : ℕ
  pub rx_in_progress : Bool
  pub tx_in_progress : Bool
  pub rx_wait_peer_frame : ℕ
  pub rx_wait_peer_frame_thresh : ℕ

-- `quiet_lwip_portaudio_init`
unfoldable pub duplex_init : ℕ → Duplex
duplex_init sample_size = record {
  encoder_sample_size = sample_size;
  rx_in_progress = false;
  tx_in_progress = false;
  rx_wait_peer_frame = 0;
  rx_wait_peer_frame_thresh = 3;
}

-- What is played.
pub data Emitted : Type 0 where
  samples : Emitted  -- `quiet_portaudio_encoder_emit`
  silence : Emitted  -- `quiet_portaudio_encoder_emit_empty`

-- `quiet_lwip_portaudio_get_next_audio_packet`, where the encoder, if it is asked, has `written`
-- samples, as a `size_t`. The result is what is played, the value returned, and the driver.
unfoldable pub get_next_audio_packet : ℕ → Duplex → Emitted × ℕ × Duplex
get_next_audio_packet written d =
    if d.tx_in_progress || not d.rx_in_progress
    then (samples, written, record d { tx_in_progress = written == d.encoder_sample_size })
    else (silence, 0, d)

-- `quiet_lwip_portaudio_recv_audio_packet` up to its last line, which pulls the frames out of the
-- decoder (`process_audio`).
unfoldable pub recv_audio_packet : Bool → Duplex → Duplex
recv_audio_packet frame_open d =
    if frame_open
    then record d { rx_wait_peer_frame = 0; rx_in_progress = true }
    else if ltb d.rx_wait_peer_frame d.rx_wait_peer_frame_thresh
    then record d {
      rx_wait_peer_frame = d.rx_wait_peer_frame + 1;
      rx_in_progress =
          if d.rx_wait_peer_frame + 1 == d.rx_wait_peer_frame_thresh
          then false
          else d.rx_in_progress;
    }
    else d

-- A call of one of the threads, with what it finds.
pub data Event : Type 0 where
  poll : Bool → Event  -- is a frame coming in?
  emit : ℕ → Event

-- The driver after the given calls, the latest first.
unfoldable pub after : ℕ → List Event → Duplex
unfolding duplex_init get_next_audio_packet recv_audio_packet
after size [] = duplex_init size
after size (poll frame_open ∷ es) = recv_audio_packet frame_open (after size es)
after size (emit written ∷ es) = (get_next_audio_packet written (after size es)).2

-- What the receiving thread has found, the latest first.
abbrev pub polls : List Event → List Bool
polls [] = []
polls (poll b ∷ es) = b ∷ polls es
polls (emit w ∷ es) = polls es

abbrev pub any_open : List Bool → Bool
any_open [] = false
any_open (b ∷ bs) = b || any_open bs

-- How many polls in a row have found no frame.
abbrev quiet_polls : List Bool → ℕ
quiet_polls [] = 0
quiet_polls (true ∷ bs) = 0
quiet_polls (false ∷ bs) = suc (quiet_polls bs)

two_of_three :
    (bs : List Bool)
    → any_open (take 2 bs) ≡ (if ltb (quiet_polls bs) 2 then any_open (take 3 bs) else false)
two_of_three [] = refl
two_of_three (true ∷ bs) = refl
two_of_three (false ∷ []) = refl
two_of_three (false ∷ true ∷ bs) = refl
two_of_three (false ∷ false ∷ bs) = ground arith

record Tracks (size : ℕ) (es : List Event) (d : Duplex) : Type 0 where
  same_size : d.encoder_sample_size ≡ size
  threshold : d.rx_wait_peer_frame_thresh ≡ 3
  waited : d.rx_wait_peer_frame ≡ min 3 (quiet_polls (polls es))
  heard : d.rx_in_progress ≡ any_open (take 3 (polls es))

after-Tracks : (size : ℕ) (es : List Event) → Tracks size es (after size es)
unfolding after
after-Tracks size [] = record {
  same_size = refl;
  threshold = refl;
  waited = omega arith;
  heard = refl;
}
after-Tracks size (poll true ∷ es) = let t = after-Tracks size es in ground arith
after-Tracks size (poll false ∷ es) =
    let t = after-Tracks size es in ground (arith, two_of_three (polls es))
after-Tracks size (emit w ∷ es) = let t = after-Tracks size es in ground arith

-- However the calls of the two threads interleave, the flag says that the peer is heard exactly if one
-- of the last three polls found a frame coming in.
pub rx_in_progress_lem :
    (size : ℕ) (es : List Event) → (after size es).rx_in_progress ≡ any_open (take 3 (polls es))
rx_in_progress_lem size es = (after-Tracks size es).heard

-- While the peer was heard in one of the last three polls and no frame of ours is on its way, a call
-- of the emitting thread plays silence, returns 0 and changes nothing, whatever the encoder has.
pub no_collision :
    (size written : ℕ) (es : List Event)
    → any_open (take 3 (polls es)) ≡ true
    → (after size es).tx_in_progress ≡ false
    → get_next_audio_packet written (after size es) ≡ (silence, 0, after size es)
unfolding get_next_audio_packet
no_collision size written es h idle = let t = after-Tracks size es in ground arith

-- A transmission starts only where none of the last three polls found a frame coming in, with a packet
-- of exactly the configured size.
pub transmission_start :
    (size written : ℕ) (es : List Event)
    → (after size es).tx_in_progress ≡ false
    → (after size (emit written ∷ es)).tx_in_progress ≡ true
    → (any_open (take 3 (polls es)) ≡ false) × (written ≡ size)
unfolding after
transmission_start size written es idle started = let t = after-Tracks size es in ground arith

-- A frame that is on its way is finished: the emitting thread goes on to play samples, even while the
-- peer is heard, until the encoder has less than a whole packet.
pub transmission_goes_on :
    (size written : ℕ) (es : List Event)
    → (after size es).tx_in_progress ≡ true
    → ((get_next_audio_packet written (after size es)).0 ≡ samples)
      × ((after size (emit written ∷ es)).tx_in_progress ≡ (written == size))
unfolding after
transmission_goes_on size written es busy = let t = after-Tracks size es in ground arith
