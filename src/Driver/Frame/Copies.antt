-- ===== src/Driver/Frame/Copies.antt =====
-- What the copying functions of src/util.c do to the bytes, and where they leave their buffer.
use quiet_lwip.Prelude.{
  ℕ, ◌+◌, ◌%◌, ◌^◌, ◌≤◌, ◌<◌, ◌≡◌, refl, ap, ap₂, sym, subst, ◌∙◌, List, [], ◌∷◌, ◌++◌, append-nil,
  append_assoc, Option, none, some, Option-cases, inl, inr, true, length, take, drop, done, fault,
  Ensures, Ensures-bind, Ensures-map, leb, arith, length-append, length-take, length-drop,
  take-append_length, drop-append_length, drop-drop, take-add,
}
use quiet_lwip.Driver.Pbuf.{Pbuf, PbufModule, Documented, flatten, memcpy_to, memcpy_from}
use quiet_lwip.Driver.Frame.{copy_out, copy_in, pbuf2buf, buf2pbuf}

memcpy_to-append :
    (front back bytes : List ℕ) (at : ℕ)
    → at ≡ length front
    → length bytes ≤ length back
    → memcpy_to (front ++ back) at bytes ≡ done ((front ++ bytes) ++ drop (length bytes) back)
unfolding memcpy_to
memcpy_to-append front back bytes at e fits = ground (
  arith,
  length-append front back,
  take-append_length front back at e,
  drop-append_length front back (at + length bytes) (length bytes) (omega arith),
  append_assoc front bytes (drop (length bytes) back),
)

-- The loop writes the bytes of the chain behind those already there, and keeps the rest.
copy_out_lem :
    (ss : List (List ℕ)) (front back : List ℕ) (len : ℕ)
    → len ≡ length front
    → length (flatten ss) ≤ length back
    → copy_out (front ++ back) len ss
      ≡ done (len + length (flatten ss), (front ++ flatten ss) ++ drop (length (flatten ss)) back)
unfolding copy_out
copy_out_lem [] front back len e fits =
    ap done (ap₂ (λ n r. (n, r)) (omega arith) (ap (λ f. f ++ back) (sym (append-nil front))))
copy_out_lem (s ∷ ss) front back len e fits =
    let size = length-append s (flatten ss) in
    let head = memcpy_to-append front back s len e (omega arith) in
    let tail =
      copy_out_lem ss (front ++ s) (drop (length s) back) (len + length s)
        (omega (arith, length-append front s)) (omega (arith, length-drop (length s) back)) in
    ground (
      arith,
      head,
      tail,
      size,
      append_assoc front s (flatten ss),
      drop-drop (length s) (length (flatten ss)) (length (flatten (s ∷ ss))) back size,
    )

-- The buffer after a copy that fits.
abbrev spliced : List ℕ → ℕ → List ℕ → List ℕ
spliced buf at bytes = take at buf ++ (bytes ++ drop (at + length bytes) buf)

length-spliced :
    (buf : List ℕ) (at : ℕ) (bytes : List ℕ)
    → at + length bytes ≤ length buf
    → length (spliced buf at bytes) ≡ length buf
length-spliced buf at bytes fits = omega (
  arith,
  length-append (take at buf) (bytes ++ drop (at + length bytes) buf),
  length-append bytes (drop (at + length bytes) buf),
  length-take at buf,
  length-drop (at + length bytes) buf,
)

-- A chain that holds more bytes than the buffer has room for is copied past its end.
copy_out-fault :
    (ss : List (List ℕ)) (buf : List ℕ) (len : ℕ)
    → len ≤ length buf
    → length buf < len + length (flatten ss)
    → copy_out buf len ss ≡ fault
unfolding copy_out memcpy_to
copy_out-fault [] buf len fits over = absurd (omega arith)
copy_out-fault (s ∷ ss) buf len fits over = ground (
  arith,
  copy_out-fault ss (spliced buf len s) (len + length s),
  length-spliced buf len s,
  length-append s (flatten ss),
)

-- The loop of `buf2pbuf` fills the chain with the bytes of the buffer, from `copied` on.
copy_in_lem :
    (buf : List ℕ) (copied : ℕ) (ss : List (List ℕ))
    → copied + length (flatten ss) ≤ length buf
    → Ensures
        (copy_in buf copied ss)
        (λ r. flatten r ≡ take (length (flatten ss)) (drop copied buf))
unfolding copy_in memcpy_from
copy_in_lem buf copied [] fits = refl
copy_in_lem buf copied (s ∷ ss) fits =
    let size = length-append s (flatten ss) in
    rw (fits_test (omega arith)) (
      Ensures-bind (copy_in buf (copied + length s) ss) _ _ _
        (copy_in_lem buf (copied + length s) ss (omega arith))
        λ rest e.
          ap (λ r. take (length s) (drop copied buf) ++ r)
            (e
              ∙ ap (take (length (flatten ss)))
                  (sym (drop-drop copied (length s) (copied + length s) buf refl)))
          ∙ sym (
              take-add (length s) (length (flatten ss)) (length (s ++ flatten ss)) (drop copied buf)
                size))
  where
    fits_test : copied + length s ≤ length buf → leb (copied + length s) (length buf) ≡ true
    fits_test h = ground arith

-- `pbuf2buf` on a packet no longer than the buffer returns its length, and leaves the packet's bytes
-- at the front of the buffer, the rest of the buffer as it was, and the chain unchanged.
pub pbuf2buf_lem :
    {lib : PbufModule} (buf : List ℕ) (p : Pbuf)
    → Documented lib
    → length (flatten p.payloads) ≤ length buf
    → pbuf2buf lib buf p
      ≡ done (
        length (flatten p.payloads),
        flatten p.payloads ++ drop (length (flatten p.payloads)) buf,
        p,
      )
unfolding pbuf2buf
pbuf2buf_lem buf p doc fits =
    rw (doc.hide_zero, copy_out_lem p.payloads [] buf 0 refl fits, doc.reveal_zero)
      (ap (λ n. done (n, flatten p.payloads ++ drop (length (flatten p.payloads)) buf, p))
        (omega arith))

-- `pbuf2buf` tests no length: on a packet longer than the buffer it writes past the buffer's end.
pub pbuf2buf-fault :
    {lib : PbufModule} (buf : List ℕ) (p : Pbuf)
    → Documented lib
    → length buf < length (flatten p.payloads)
    → pbuf2buf lib buf p ≡ fault
unfolding pbuf2buf
pbuf2buf-fault buf p doc over =
    rw (doc.hide_zero, copy_out-fault p.payloads buf 0 (omega arith) (omega arith))

-- What `buf2pbuf` returns for the first `len` bytes of a buffer: nothing, or a chain of those bytes.
abbrev pub Holds : List ℕ → ℕ → Option Pbuf → Type 0
Holds buf len none = Unit
Holds buf len (some p) = flatten p.payloads ≡ take len buf

-- Where lwIP has memory, `buf2pbuf` returns a chain of the bytes that it was given.
pub buf2pbuf-some :
    {lib : PbufModule} (buf : List ℕ) (len : ℕ) (p : Pbuf)
    → Documented lib
    → len ≤ length buf
    → len < 2 ^ 16
    → lib.alloc ((len + 0) % 2 ^ 16) ≡ some p
    → Ensures
        (buf2pbuf lib buf len)
        (λ o. (q : Pbuf) × (o ≡ some q) × (flatten q.payloads ≡ take len buf))
unfolding buf2pbuf
buf2pbuf-some {lib} buf len p doc fits short e =
    rw (e, buf2pbuf)
      (Ensures-bind (copy_in buf 0 p.payloads) _ _ _
        (copy_in_lem buf 0 p.payloads (omega (arith, size)))
        λ filled h. (_, refl, rw doc.reveal_zero (h ∙ ap (λ n. take n buf) size)))
  where
    size : length (flatten p.payloads) ≡ len
    size = omega (arith, (doc.alloc_size ((len + 0) % 2 ^ 16) p e).0)

-- `buf2pbuf` with a length that is a `u16_t` reads only inside the buffer, and returns no chain, or
-- one of the `len` bytes that it was given.
pub buf2pbuf_lem :
    {lib : PbufModule} (buf : List ℕ) (len : ℕ)
    → Documented lib
    → len ≤ length buf
    → len < 2 ^ 16
    → Ensures (buf2pbuf lib buf len) (Holds buf len)
unfolding buf2pbuf
buf2pbuf_lem {lib} buf len doc fits short = elim (Option-cases (lib.alloc ((len + 0) % 2 ^ 16))) [
  | inl e ↦ rw (e, buf2pbuf) tt
  | inr (p, e) ↦
      Ensures-map (buf2pbuf lib buf len) _ (Holds buf len)
        (buf2pbuf-some buf len p doc fits short e) λ o h. rw h.1 h.2
]

-- A frame that comes in by `buf2pbuf` goes out by `pbuf2buf` as the same bytes, into any buffer that
-- has room for it, where its length is a `u16_t`.
pub pbuf2buf-buf2pbuf :
    {lib : PbufModule} (from to : List ℕ) (len : ℕ) (p : Pbuf)
    → Documented lib
    → len ≤ length from
    → len ≤ length to
    → len < 2 ^ 16
    → buf2pbuf lib from len ≡ done (some p)
    → pbuf2buf lib to p ≡ done (len, take len from ++ drop len to, p)
pbuf2buf-buf2pbuf {lib} from to len p doc fits room short got =
    let small : length (flatten p.payloads) ≤ length to = omega (arith, size) in
    subst (λ n. pbuf2buf lib to p ≡ done (n, take len from ++ drop n to, p)) size
      (subst
        (λ b.
          pbuf2buf lib to p
          ≡ done (length (flatten p.payloads), b ++ drop (length (flatten p.payloads)) to, p))
        bytes (pbuf2buf_lem to p doc small))
  where
    bytes : flatten p.payloads ≡ take len from
    bytes = subst (λ r. Ensures r (Holds from len)) got (buf2pbuf_lem from len doc fits short)

    size : length (flatten p.payloads) ≡ len
    size = omega (arith, ap length bytes, length-take len from)
