-- ===== src/Programs/Discovery.antt =====
-- The exchange of examples/src/discovery_server.c and examples/src/discovery_client.c: one round of the
-- server's loop. A datagram is its bytes.
use quiet_lwip.Prelude.{
  ℕ, zero, suc, ◌+◌, ◌-◌, ◌^◌, ◌≡◌, ◌≢◌, refl, ap, ap₂, ◌∙◌, List, [], ◌∷◌, ◌++◌, append_assoc,
  Option, none, some, Bool, true, false, drop, length, length-append, replicate, ◌==◌,
  if◌then◌else◌, Outcome, done, fault, ◌>>=◌, arith,
}

-- "MARCO"
abbrev pub recv_str : List ℕ
recv_str = b'M' ∷ b'A' ∷ b'R' ∷ b'C' ∷ b'O' ∷ []

-- "POLO"
abbrev pub send_str : List ℕ
send_str = b'P' ∷ b'O' ∷ b'L' ∷ b'O' ∷ []

-- `memcmp(buf, str, n) == 0`: the first `n` bytes must exist in both blocks, if no difference comes first.
unfoldable pub equal_bytes : ℕ → List ℕ → List ℕ → Outcome Bool
equal_bytes zero buf str = done true
equal_bytes (suc n) [] str = fault
equal_bytes (suc n) (b ∷ bs) [] = fault
equal_bytes (suc n) (b ∷ bs) (c ∷ cs) =
    let rest = equal_bytes n bs cs in if b == c then rest else done false

-- A round: what `recvfrom` gives, none where it fails; the buffer afterwards; and the datagram that is
-- sent back, if one is. The length of a failure is -1, as a `size_t`.
unfoldable pub round : Option (List ℕ) → List ℕ → Outcome (List ℕ × Option (List ℕ))
unfolding equal_bytes
round received buf =
    let (recv_len, now) = elim received as (λ _. ℕ × List ℕ) [
      | none ↦ (2 ^ 64 - 1, buf)
      | some got ↦ (length got, got ++ drop (length got) buf)
    ] in
    do
      equal ← equal_bytes recv_len now (recv_str ++ (0 ∷ []))
      done (if equal then (send_str ++ replicate 4_092 0, some send_str) else (now, none))

equal_bytes-append :
    (pre xs ys : List ℕ) (m n : ℕ)
    → m ≡ length pre + n
    → equal_bytes m (pre ++ xs) (pre ++ ys) ≡ equal_bytes n xs ys
unfolding equal_bytes
equal_bytes-append [] xs ys m n e = ap (λ k. equal_bytes k xs ys) (omega (arith, e))
equal_bytes-append (b ∷ bs) xs ys zero n e = absurd (omega (arith, e))
equal_bytes-append (b ∷ bs) xs ys (suc m) n e =
    let rest = equal_bytes-append bs xs ys m n (omega (arith, e)) in ground (arith, rest)

equal_bytes-ne :
    (n b c : ℕ) (bs cs : List ℕ) → b ≢ c → equal_bytes (suc n) (b ∷ bs) (c ∷ cs) ≡ done false
unfolding equal_bytes
equal_bytes-ne n b c bs cs ne = ground (arith, ne)

-- The buffer after a datagram.
abbrev pub after_read : List ℕ → List ℕ → List ℕ
after_read got buf = got ++ drop (length got) buf

round_equal :
    (got buf : List ℕ) (equal : Bool)
    → equal_bytes (length got) (after_read got buf) (recv_str ++ (0 ∷ [])) ≡ done equal
    → round (some got) buf
      ≡ done (
          if equal
          then (send_str ++ replicate 4_092 0, some send_str)
          else (after_read got buf, none))
unfolding round
round_equal got buf equal e = rw (e, round) refl

pub round_lem :
    (buf : List ℕ)
    → ((got rest : List ℕ)
        → recv_str ++ (0 ∷ []) ≡ got ++ rest
        → round (some got) buf ≡ done (send_str ++ replicate 4_092 0, some send_str))
      × ((pre bs cs : List ℕ) (b c : ℕ)
          → recv_str ++ (0 ∷ []) ≡ pre ++ (c ∷ cs)
          → b ≢ c
          → round (some (pre ++ (b ∷ bs))) buf ≡ done (after_read (pre ++ (b ∷ bs)) buf, none))
      × ((b : ℕ) (bs : List ℕ) → round (some ((recv_str ++ (0 ∷ [])) ++ (b ∷ bs))) buf ≡ fault)
unfolding round
round_lem buf = (prefix, differs, overruns)
  where
    prefix :
        (got rest : List ℕ)
        → recv_str ++ (0 ∷ []) ≡ got ++ rest
        → round (some got) buf ≡ done (send_str ++ replicate 4_092 0, some send_str)
    prefix got rest e = round_equal got buf true (
        ap (equal_bytes (length got) (after_read got buf)) e
        ∙ equal_bytes-append got (drop (length got) buf) rest (length got) 0 (omega arith))

    differs :
        (pre bs cs : List ℕ) (b c : ℕ)
        → recv_str ++ (0 ∷ []) ≡ pre ++ (c ∷ cs)
        → b ≢ c
        → round (some (pre ++ (b ∷ bs))) buf ≡ done (after_read (pre ++ (b ∷ bs)) buf, none)
    differs pre bs cs b c e ne = round_equal (pre ++ (b ∷ bs)) buf false (
        ap₂ (equal_bytes (length (pre ++ (b ∷ bs))))
          (append_assoc pre (b ∷ bs) (drop (length (pre ++ (b ∷ bs))) buf)) e
        ∙ equal_bytes-append pre (b ∷ (bs ++ drop (length (pre ++ (b ∷ bs))) buf)) (c ∷ cs)
            (length (pre ++ (b ∷ bs))) (suc (length bs)) (omega (arith, length-append pre (b ∷ bs)))
        ∙ equal_bytes-ne (length bs) b c (bs ++ drop (length (pre ++ (b ∷ bs))) buf) cs ne)

    overruns : (b : ℕ) (bs : List ℕ) → round (some ((recv_str ++ (0 ∷ [])) ++ (b ∷ bs))) buf ≡ fault
    overruns b bs = refl
