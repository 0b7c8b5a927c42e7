-- ===== src/Driver/Frame/Dispatch.antt =====
-- Who owns a received packet after `recv_pbuf` of src/util.c.
use quiet_lwip.Prelude.{
  ℕ, suc, ◌+◌, ◌*◌, ◌≡◌, ◌≤◌, ◌<◌, ◌↔◌, ◌⊎◌, List, [], ◌∷◌, Bool, arith, length, get_or,
  get_or_in_range, if◌then◌else◌,
}
use quiet_lwip.Driver.Pbuf.{Pbuf}
use quiet_lwip.Driver.Frame.{Call, input, free, recv_pbuf}

abbrev pub frees : List Call → ℕ
frees [] = 0
frees (free ∷ cs) = suc (frees cs)
frees (input ∷ cs) = frees cs

abbrev pub inputs : List Call → ℕ
inputs [] = 0
inputs (input ∷ cs) = suc (inputs cs)
inputs (free ∷ cs) = inputs cs

-- 1 if lwIP took the packet over.
abbrev pub taken : Bool → List Call → ℕ
taken accepted cs = if accepted then inputs cs else 0

-- Every packet is handed over or freed, and never both nor twice: with the packets that lwIP accepted
-- the calls of `pbuf_free` make exactly one.
pub recv_pbuf-owned_once :
    (stale : ℕ → ℕ) (accepts : Pbuf → Bool) (p : Pbuf)
    → taken (accepts p) (recv_pbuf stale accepts p) + frees (recv_pbuf stale accepts p) ≡ 1
unfolding recv_pbuf
recv_pbuf-owned_once stale accepts p = ground arith

abbrev pub packet : List ℕ → List (List ℕ) → ℕ → Pbuf
packet first rest n = record { payloads = first ∷ rest; tot_len = n }

-- A packet of at least 14 bytes in its first buffer is offered to lwIP exactly if the two bytes of its
-- type field, read most significant first, say IPv4 or ARP; it is offered at most once.
pub recv_pbuf-offered :
    (stale : ℕ → ℕ) (accepts : Pbuf → Bool) (first : List ℕ) (rest : List (List ℕ)) (n : ℕ)
    → 14 ≤ length first
    → get_or first 12 0 < 256
    → get_or first 13 0 < 256
    → ((inputs (recv_pbuf stale accepts (packet first rest n)) ≡ 1) ↔ (
        (get_or first 12 0 * 256 + get_or first 13 0 ≡ 0x0800)
        ⊎ (get_or first 12 0 * 256 + get_or first 13 0 ≡ 0x0806)))
      × (inputs (recv_pbuf stale accepts (packet first rest n)) ≤ 1)
unfolding recv_pbuf
recv_pbuf-offered stale accepts first rest n long hi lo = ground (
  arith,
  get_or_in_range first 12 (stale 12) 0 (omega arith),
  get_or_in_range first 13 (stale 13) 0 (omega arith),
)
