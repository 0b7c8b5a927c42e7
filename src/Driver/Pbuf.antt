-- ===== src/Driver/Pbuf.antt =====
-- lwIP's packet buffers as src/util.c and the drivers use them. lwIP itself is a library: what it
-- does is a parameter, with what its documentation promises.
use quiet_lwip.Prelude.{
  ℕ, ◌+◌, ◌≡◌, List, [], ◌∷◌, ◌++◌, Option, some, length, take, drop, Outcome, done, fault, leb,
  if◌then◌else◌,
}

-- A chain of `struct pbuf`: the payload of each member, and `tot_len` of the first.
pub record Pbuf : Type 0 where
  pub payloads : List (List ℕ)
  pub tot_len : ℕ

-- The bytes of a chain.
abbrev pub flatten : List (List ℕ) → List ℕ
flatten [] = []
flatten (s ∷ ss) = s ++ flatten ss

abbrev pub IsPacket : Pbuf → Type 0
IsPacket p = p.tot_len ≡ length (flatten p.payloads)

-- ETH_PAD_SIZE, as include/lwip/lwip/opt.h sets it (include/lwip/lwipopts.h is empty).
abbrev pub eth_pad_size : ℕ
eth_pad_size = 0

-- The functions of lwIP's pbuf module that the drivers call.
pub record PbufModule : Type 0 where
  -- `pbuf_header` with a negative and with a positive increment
  pub hide_header : ℕ → Pbuf → Pbuf
  pub reveal_header : ℕ → Pbuf → Pbuf
  -- `pbuf_alloc(PBUF_RAW, len, PBUF_POOL)`, which may find no memory
  pub alloc : ℕ → Option Pbuf

-- What its documentation promises: an increment of 0 changes nothing, and a chain that is allocated
-- for `n` bytes holds that many.
pub record Documented (lib : PbufModule) : Type 0 where
  pub hide_zero : (p : Pbuf) → lib.hide_header 0 p ≡ p
  pub reveal_zero : (p : Pbuf) → lib.reveal_header 0 p ≡ p
  pub alloc_size :
      (n : ℕ) (p : Pbuf) → lib.alloc n ≡ some p → (length (flatten p.payloads) ≡ n) × IsPacket p

-- `memcpy(buf + at, bytes, ...)`: a write past the end of the buffer is undefined.
unfoldable pub memcpy_to : List ℕ → ℕ → List ℕ → Outcome (List ℕ)
memcpy_to buf at bytes =
    if leb (at + length bytes) (length buf)
    then done (take at buf ++ (bytes ++ drop (at + length bytes) buf))
    else fault

-- `memcpy(..., buf + at, n)`: a read past the end of the buffer is undefined.
unfoldable pub memcpy_from : List ℕ → ℕ → ℕ → Outcome (List ℕ)
memcpy_from buf at n = if leb (at + n) (length buf) then done (take n (drop at buf)) else fault
