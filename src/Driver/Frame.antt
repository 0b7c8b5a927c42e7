-- ===== src/Driver/Frame.antt =====
-- src/util.c: frames between lwIP's chains of buffers and the flat buffers of the drivers.
pub mod Copies
pub mod Dispatch
use quiet_lwip.Prelude.{
  ℕ, zero, suc, ◌+◌, ◌*◌, ◌-◌, ◌%◌, ◌^◌, ◌/◌, ◌≤◌, ◌<◌, ◌≡◌, ◌≢◌, refl, ap, sym, ◌∙◌, List, [], ◌∷◌,
  ◌++◌, append-nil, append_assoc, Option, none, some, Bool, true, false, length, take, drop, get_or,
  Outcome, done, fault, ◌>>=◌, ◌>>◌, Ensures, leb, ltb, ◌==◌, ◌||◌, if◌then◌else◌, arith,
  length-append, length-take, length-drop,
}
use quiet_lwip.Driver.Pbuf.{
  Pbuf, PbufModule, Documented, IsPacket, flatten, eth_pad_size, memcpy_to, memcpy_from,
}

-- The loop of `pbuf2buf` over the chain, with `len` bytes copied so far.
unfoldable pub copy_out : List ℕ → ℕ → List (List ℕ) → Outcome (ℕ × List ℕ)
copy_out buf len [] = done (len, buf)
copy_out buf len (s ∷ ss) = do buf' ← memcpy_to buf len s; copy_out buf' (len + length s) ss

-- The loop of `buf2pbuf` over the chain: each member is filled from the buffer.
unfoldable pub copy_in : List ℕ → ℕ → List (List ℕ) → Outcome (List (List ℕ))
copy_in buf copied [] = done []
copy_in buf copied (s ∷ ss) = do
  bytes ← memcpy_from buf copied (length s)
  rest ← copy_in buf (copied + length s) ss
  done (bytes ∷ rest)

module _ (lib : PbufModule) where
  open lib use {hide_header, reveal_header, alloc}

  -- `pbuf2buf`: the number of bytes, the buffer and the chain afterwards.
  unfoldable pub pbuf2buf : List ℕ → Pbuf → Outcome (ℕ × List ℕ × Pbuf)
  pbuf2buf buf p = do
    let p' = hide_header eth_pad_size p
    r ← copy_out buf 0 p'.payloads
    done (r.0, r.1, reveal_header eth_pad_size p')

  -- `buf2pbuf`; `none` where there is no memory for the chain. `pbuf_alloc` takes the length as a
  -- `u16_t`.
  unfoldable pub buf2pbuf : List ℕ → ℕ → Outcome (Option Pbuf)
  buf2pbuf buf len = elim (alloc ((len + eth_pad_size) % 2 ^ 16)) [
    | none ↦ done none
    | some p ↦ (do
      filled ← copy_in buf 0 p.payloads
      done (some (reveal_header eth_pad_size (record p { payloads = filled }))))
  ]

-- What `recv_pbuf` does with a packet: the calls that it makes, in order.
pub data Call : Type 0 where
  input : Call  -- `netif->input`
  free : Call  -- `pbuf_free`

abbrev pub ethtype_ip : ℕ
ethtype_ip = 0x0800

abbrev pub ethtype_arp : ℕ
ethtype_arp = 0x0806

-- Swap the bytes of a `u16_t`.
unfoldable pub htons : ℕ → ℕ
htons x = x % 256 * 256 + x / 256

-- Byte `k` of the first payload; behind its end stands what the pool's memory held before.
unfoldable pub byte_at : (ℕ → ℕ) → Pbuf → ℕ → ℕ
byte_at stale p k = elim (p.payloads) [ [] ↦ stale k | s ∷ ss ↦ get_or s k (stale k) ]

-- `ethhdr->type`: a `u16_t` of a little-endian machine, behind two addresses of 6 bytes.
unfoldable pub eth_type : (ℕ → ℕ) → Pbuf → ℕ
unfolding byte_at
eth_type stale p = byte_at stale p 12 + byte_at stale p 13 * 256

-- `recv_pbuf`, where `netif->input` accepts a packet or not. PPPOE_SUPPORT is off.
unfoldable pub recv_pbuf : (ℕ → ℕ) → (Pbuf → Bool) → Pbuf → List Call
unfolding eth_type htons
recv_pbuf stale accepts p =
    if htons (eth_type stale p) == ethtype_ip || htons (eth_type stale p) == ethtype_arp
    then if accepts p then input ∷ [] else input ∷ free ∷ []
    else free ∷ []
