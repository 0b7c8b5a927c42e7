-- ===== src/Driver/Receive/Loop.antt =====
-- Which frames the receive loop of the drivers hands on.
use quiet_lwip.Prelude.{
  ℕ, ◌+◌, ◌<◌, ◌%◌, ◌^◌, ◌≡◌, List, [], ◌∷◌, Option, none, some, length, Outcome, done, blocked,
  map_some, map,
}
use quiet_lwip.Driver.Pbuf.{Pbuf, Documented, flatten}
use quiet_lwip.Driver.Receive.{Arrival, Processed}

abbrev pub packet_bytes : Pbuf → List ℕ
packet_bytes p = flatten p.payloads

-- The specification: the frames up to the first call of the decoder that gives none, or whose frame
-- finds no memory, and the calls behind that one; `none` if there is no such call.
unfoldable pub handed_on : List Arrival → Option (List (List ℕ) × List Arrival)
handed_on [] = none
handed_on ((none, buffers) ∷ arrivals) = some ([], arrivals)
handed_on ((some bytes, buffers) ∷ arrivals) =
    let rest = handed_on arrivals in
    elim (buffers.alloc ((length bytes + 0) % 2 ^ 16)) [
      | none ↦ some ([], arrivals)
      | some p ↦ map_some (λ r. (bytes ∷ r.0, r.1)) rest
    ]

abbrev pub Delivers : Outcome Processed → Option (List (List ℕ) × List Arrival) → Type 0
Delivers blocked none = Unit
Delivers (done r) (some (frames, unread)) =
    (map packet_bytes r.delivered ≡ frames) × (r.unread ≡ unread)
Delivers _ _ = ⊥

-- lwIP's functions do as documented, and the length of a frame is a `u16_t`.
abbrev pub IsSound : Arrival → Type 0
IsSound (none, buffers) = Unit
IsSound (some bytes, buffers) = Documented buffers × (length bytes < 2 ^ 16)

abbrev pub AllSound : List Arrival → Type 0
AllSound [] = Unit
AllSound (a ∷ arrivals) = IsSound a × AllSound arrivals
