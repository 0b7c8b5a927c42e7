-- ===== src/Proxy/Socks/Greeting.antt =====
-- The greeting of a client of examples/src/proxy_server.c.
use quiet_lwip.Prelude.{
  ℕ, ◌<◌, ◌≡◌, refl, ap, ◌∙◌, List, [], ◌∷◌, ◌++◌, Option, some, true, length, length-set, take,
  set, take-set, Outcome, done, arith,
}
use quiet_lwip.Proxy.Session.{Session, ◌>>◌, byte, store, bytes, read, received}
use quiet_lwip.Proxy.Session.Steps.{
  step, byte-at, store-at, write-full, take-take, with_buf, guard-true, read-full, length-received,
  bytes-received,
}
use quiet_lwip.Proxy.Socks.{socks_auth, socks_auth_reply, has_byte}

-- A greeting that offers the method without authentication is accepted.
module _ (s : Session) (methods : List ℕ) (rs : List (Option (List ℕ))) (ws : List (Option ℕ))
    (size : length s.buf ≡ 512) (few : length methods < 256) (offered : has_byte 0 methods ≡ true)
    (reads : s.reads ≡ some (5 ∷ length methods ∷ []) ∷ some methods ∷ rs)
    (writes : s.writes ≡ some 2 ∷ ws) where
  abbrev asked : Session
  asked = received (5 ∷ length methods ∷ []) (record s { reads = some methods ∷ rs })

  abbrev offering : Session
  offering = received methods (record asked { reads = rs })

  asked_size : length asked.buf ≡ 512
  asked_size =
      length-received (5 ∷ length methods ∷ []) (record s { reads = some methods ∷ rs }) size
        (omega arith)

  offering_size : length offering.buf ≡ 512
  offering_size = length-received methods (record asked { reads = rs }) asked_size (omega arith)

  auth_lem : socks_auth s ≡ done (some tt, offering)
  unfolding socks_auth
  auth_lem =
      step (read 2 2) _ s
        (read-full 2 2 s (5 ∷ length methods ∷ []) (some methods ∷ rs) size reads (omega arith)
          (omega arith) (omega arith))
        (step (byte 0) _ asked (byte-at 0 asked asked_size (omega arith)) (
          step (byte 1) _ asked (byte-at 1 asked asked_size (omega arith)) (
            step (read (length methods) (length methods)) _ asked
              (read-full (length methods) (length methods) asked methods rs asked_size refl refl
                (omega arith) (omega arith))
              (step (bytes 0 (length methods)) _ offering
                (bytes-received methods (record asked { reads = rs }) asked_size (omega arith))
                (guard-true (has_byte 0 methods) offering offered)))))

  pub auth_reply_lem :
      (b : List ℕ) × (length b ≡ 512)
      × ((socks_auth >> socks_auth_reply) s
          ≡ done (
            some tt,
            record s { buf = b; reads = rs; writes = ws; sent = s.sent ++ (5 ∷ 0 ∷ []) },
          ))
  unfolding socks_auth_reply
  auth_reply_lem =
      let b = set (set offering.buf 0 5) 1 0 in
      let size₁ = length-set offering.buf 0 5 ∙ offering_size in
      let size₂ = length-set (set offering.buf 0 5) 1 0 ∙ size₁ in
      (
        b,
        size₂,
        step socks_auth (λ _. socks_auth_reply) s auth_lem
            (step (store 0 5) _ offering (store-at 0 5 offering offering_size (omega arith)) (
              step (store 1 0) _ (with_buf (set offering.buf 0 5) offering)
                (store-at 1 0 (with_buf (set offering.buf 0 5) offering) size₁ (omega arith))
                (write-full 2 (with_buf b offering) ws size₂ (omega arith) writes
                  ∙ ap (sent_with b) answer))),
      )
    where
      answer : take 2 (take 2 (set (set offering.buf 0 5) 1 0)) ≡ 5 ∷ 0 ∷ []
      answer =
          take-take 2 (set (set offering.buf 0 5) 1 0)
          ∙ take-set (set offering.buf 0 5) 1 0
              (omega (arith, length-set offering.buf 0 5, offering_size))
          ∙ ap (λ l. l ++ (0 ∷ [])) (take-set offering.buf 0 5 (omega (arith, offering_size)))

      sent_with : List ℕ → List ℕ → Outcome (Option (Unit {0}) × Session)
      sent_with b l =
          done (some tt, record s { buf = b; reads = rs; writes = ws; sent = s.sent ++ l })
