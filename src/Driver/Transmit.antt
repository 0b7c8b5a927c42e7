-- ===== src/Driver/Transmit.antt =====
-- The transmit side of src/driver.c and src/driver_portaudio.c: lwIP hands a frame to the driver's
-- `linkoutput`, which flattens it into `send_temp` and gives it to libquiet's encoder.
use quiet_lwip.Prelude.{
  ℕ, ◌+◌, ◌-◌, ◌%◌, ◌^◌, ◌≤◌, ◌<◌, ◌≡◌, ◌↔◌, refl, ap, List, ◌∷◌, ◌++◌, take, drop, length, Outcome,
  done, fault, ◌>>=◌, Ensures, ltb, if◌then◌else◌, arith, length-append, length-drop, subst,
  take-append_length, Bool-cases, inl, inr, dec_lt,
}
use quiet_lwip.Driver.Pbuf.{Pbuf, PbufModule, Documented, IsPacket, flatten, eth_pad_size}
use quiet_lwip.Driver.Frame.{pbuf2buf}
use quiet_lwip.Driver.Frame.Copies.{pbuf2buf_lem, pbuf2buf-fault}
use quiet_lwip.Driver.Receive.{LinkStats, inc}

-- ERR_OK and ERR_BUF
pub data Err : Type 0 where
  ok buf : Err

-- The driver's `send_temp`, whose length is `send_temp_len`, the counters, and the frames that the
-- encoder was given, latest first.
pub record Sender : Type 0 where
  pub send_temp : List ℕ
  pub stats : LinkStats
  pub sent : List (List ℕ)

abbrev count_sent : Sender → Sender
unfolding inc
count_sent s = record s { stats = record (s.stats) { xmit = inc s.stats.xmit } }

abbrev count_dropped : Sender → Sender
unfolding inc
count_dropped s = record s { stats = record (s.stats) { drop = inc s.stats.drop } }

module _ (lib : PbufModule) where
  -- `quiet_lwip_encode_frame` of src/driver.c.
  unfoldable pub encode_frame : Sender → Pbuf → Outcome (Err × Sender)
  unfolding count_sent
  encode_frame s p = do
    r ← pbuf2buf lib s.send_temp p
    done (ok, count_sent (record s { send_temp = r.1; sent = take r.0 r.1 ∷ s.sent }))

  -- `quiet_lwip_portaudio_encode_frame` of src/driver_portaudio.c, which first tests the length. As a
  -- `size_t`, `tot_len - ETH_PAD_SIZE` does not wrap for a padding of 0.
  unfoldable pub portaudio_encode_frame : Sender → Pbuf → Outcome (Err × Sender)
  unfolding count_sent count_dropped
  portaudio_encode_frame s p =
      if ltb (length s.send_temp) (p.tot_len - eth_pad_size)
      then done (buf, count_dropped s)
      else (do
        r ← pbuf2buf lib s.send_temp p
        done (ok, count_sent (record s { send_temp = r.1; sent = take r.0 r.1 ∷ s.sent })))

-- PBUF_LINK_HLEN: the length of an Ethernet header.
abbrev pub pbuf_link_hlen : ℕ
pbuf_link_hlen = 14 + eth_pad_size

-- `netif->mtu`, a `u16_t`, and `send_temp_len`, from the encoder's frame length: as src/driver.c sets
-- them, and as src/driver_portaudio.c does.
unfoldable pub sizes : ℕ → ℕ × ℕ
sizes frame_len = (frame_len % 2 ^ 16, frame_len % 2 ^ 16 + eth_pad_size)

unfoldable pub portaudio_sizes : ℕ → ℕ × ℕ
portaudio_sizes frame_len =
    ((frame_len + 2 ^ 64 - pbuf_link_hlen) % 2 ^ 64 % 2 ^ 16, frame_len + eth_pad_size)

-- What sending a packet that fits comes to: it goes to the encoder whole, and nothing else changes in
-- the buffer's length.
abbrev pub Sends : Sender → Pbuf → Err × Sender → Type 0
Sends s p (e, s') =
    (e ≡ ok) × (s'.sent ≡ flatten p.payloads ∷ s.sent) × (length s'.send_temp ≡ length s.send_temp)

module _ {lib : PbufModule} (s : Sender) (p : Pbuf) (doc : Documented lib) where
  fits-take :
      take
        (length (flatten p.payloads))
        (flatten p.payloads ++ drop (length (flatten p.payloads)) s.send_temp)
      ≡ flatten p.payloads
  fits-take = take-append_length (flatten p.payloads) _ (length (flatten p.payloads)) refl

  fits-length :
      length (flatten p.payloads) ≤ length s.send_temp
      → length (flatten p.payloads ++ drop (length (flatten p.payloads)) s.send_temp)
        ≡ length s.send_temp
  fits-length h = omega (
    arith,
    length-append (flatten p.payloads) (drop (length (flatten p.payloads)) s.send_temp),
    length-drop (length (flatten p.payloads)) s.send_temp,
  )

  -- A packet that fits in `send_temp` is sent whole by the first driver too.
  pub encode_frame-Sends :
      length (flatten p.payloads) ≤ length s.send_temp → Ensures (encode_frame lib s p) (Sends s p)
  unfolding encode_frame
  encode_frame-Sends h =
      rw (pbuf2buf_lem s.send_temp p doc h) (refl, ap (λ b. b ∷ s.sent) fits-take, fits-length h)

  -- `quiet_lwip_encode_frame` tests no length: it is undefined exactly for the packets that are longer
  -- than `send_temp`.
  pub encode_frame-fault_iff :
      (encode_frame lib s p ≡ fault) ↔ (length s.send_temp < length (flatten p.payloads))
  unfolding encode_frame
  encode_frame-fault_iff = (
    λ e. elim (dec_lt (length s.send_temp) (length (flatten p.payloads))) [
      | yes h ↦ h
      | no h ↦ absurd (subst (λ r. Ensures r (Sends s p)) e (encode_frame-Sends (omega arith)))
    ],
    λ h. rw (pbuf2buf-fault s.send_temp p doc h),
  )

  -- `quiet_lwip_portaudio_encode_frame` always returns: it drops a packet that is longer than
  -- `send_temp` with ERR_BUF, counts it and sends nothing, and sends any other packet whole.
  pub portaudio_encode_frame_lem :
      IsPacket p
      → Ensures (portaudio_encode_frame lib s p) (λ r.
        if ltb (length s.send_temp) (length (flatten p.payloads))
        then r ≡ (buf, record s { stats = record (s.stats) { drop = inc s.stats.drop } })
        else Sends s p r)
  unfolding portaudio_encode_frame encode_frame
  portaudio_encode_frame_lem total =
      let same : p.tot_len - 0 ≡ length (flatten p.payloads) = omega (arith, total) in
      rw same (elim (Bool-cases (ltb (length s.send_temp) (length (flatten p.payloads)))) [
        | inl long ↦ rw long refl
        | inr short ↦ rw short (encode_frame-Sends (ground arith))
      ])

-- In the first driver a full frame never fits: an Ethernet header and a payload of `mtu` bytes are
-- longer than `send_temp`, so that the driver writes past its end.
pub full_frame-fault :
    {lib : PbufModule} (s : Sender) (p : Pbuf) (frame_len : ℕ)
    → Documented lib
    → length s.send_temp ≡ (sizes frame_len).1
    → length (flatten p.payloads) ≡ pbuf_link_hlen + (sizes frame_len).0
    → encode_frame lib s p ≡ fault
unfolding sizes
full_frame-fault s p frame_len doc temp full =
    (encode_frame-fault_iff s p doc).1 (omega (arith, temp, full))

-- In the second driver a full frame takes up all of `send_temp`, where the encoder's frames have room
-- for an Ethernet header and their length is a `u16_t`.
pub portaudio_full_frame :
    (frame_len : ℕ)
    → pbuf_link_hlen ≤ frame_len
    → frame_len < 2 ^ 16
    → pbuf_link_hlen + (portaudio_sizes frame_len).0 ≡ (portaudio_sizes frame_len).1
unfolding portaudio_sizes
portaudio_full_frame frame_len h lt = omega arith
