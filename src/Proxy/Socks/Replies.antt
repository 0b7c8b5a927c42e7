-- ===== src/Proxy/Socks/Replies.antt =====
-- The answers of examples/src/proxy_server.c to a request.
use quiet_lwip.Prelude.{
  ap₂, drop-drop, take-set_behind, take-add, ℕ, ◌≡◌, refl, sym, ap, ◌∙◌, List, [], ◌∷◌, ◌++◌,
  Option, some, length, length-set, take, drop, set, get_or, done, arith,
}
use quiet_lwip.Proxy.Session.{Address, Session, ◌>>◌, store, write}
use quiet_lwip.Proxy.Session.Steps.{step, store-at, write-full, take-take, with_buf, stores_lem}
use quiet_lwip.Proxy.Socks.{
  reply_head, reply_address, clear_host, clear_half, socks_request_reply_failed,
}

-- What the client is sent after a request that succeeded: the address and the port with their bytes
-- turned round.
abbrev pub success_reply : Address → List ℕ
success_reply a =
    5
    ∷ 0
    ∷ 0
    ∷ 1
    ∷ get_or a.host 3 0
    ∷ get_or a.host 2 0
    ∷ get_or a.host 1 0
    ∷ get_or a.host 0 0
    ∷ get_or a.port 1 0
    ∷ get_or a.port 0 0
    ∷ []

module _ (s : Session) (size : length s.buf ≡ 512) (ws : List (Option ℕ))
    (writes : s.writes ≡ some 10 ∷ ws) where
  -- The session after the client was sent the bytes.
  abbrev answered : List ℕ → List ℕ → Session
  answered b l = record s { buf = b; writes = ws; sent = s.sent ++ l }

  pub success_lem :
      (a : Address)
      → (b : List ℕ) × (length b ≡ 512)
        × ((reply_head 0 >> (reply_address a >> write 10)) s
            ≡ done (some tt, answered b (success_reply a)))
  unfolding reply_head reply_address
  success_lem a =
      let (b, len, front, behind, ran) = stores_lem 0 5 (0 ∷ 0 ∷ 1 ∷ []) s size (omega arith) in
      let (c, len', front', behind', ran') =
        stores_lem 4 (get_or a.host 3 0)
          (get_or a.host 2 0
            ∷ get_or a.host 1 0
            ∷ get_or a.host 0 0
            ∷ get_or a.port 1 0
            ∷ get_or a.port 0 0
            ∷ [])
          (with_buf b s) len (omega arith) in
      (
        c,
        len',
        step (reply_head 0) (λ _. reply_address a >> write 10) s ran
            (step (reply_address a) (λ _. write 10) (with_buf b s) ran'
              (write-full 10 (with_buf c s) ws len' (omega arith) writes
                ∙ ap (λ l. done (some tt, answered c l))
                    (take-take 10 c
                      ∙ front'
                      ∙ ap
                          (λ l.
                            l
                            ++ (get_or a.host 3 0
                                ∷ get_or a.host 2 0
                                ∷ get_or a.host 1 0
                                ∷ get_or a.host 0 0
                                ∷ get_or a.port 1 0
                                ∷ get_or a.port 0 0
                                ∷ []))
                          front))),
      )

  -- What stands in the bytes 8 and 9 of the buffer is sent in place of a port.
  abbrev pub failure_reply : List ℕ
  failure_reply = 5 ∷ 1 ∷ 0 ∷ 1 ∷ 0 ∷ 0 ∷ 0 ∷ 0 ∷ take 2 (drop 8 s.buf)

  pub failure_lem :
      (b : List ℕ) × (length b ≡ 512)
      × (socks_request_reply_failed s ≡ done (some tt, answered b failure_reply))
  unfolding socks_request_reply_failed reply_head clear_host clear_half
  failure_lem =
      let (b, len, front, behind, ran) = stores_lem 0 5 (1 ∷ 0 ∷ 1 ∷ []) s size (omega arith) in
      let (c, len', front', behind', ran') =
        stores_lem 4 0 (0 ∷ 0 ∷ 0 ∷ []) (with_buf b s) len (omega arith) in
      let size₁ = length-set c 10 0 ∙ len' in
      let size₂ = length-set (set c 10 0) 11 0 ∙ size₁ in
      (
        set (set c 10 0) 11 0,
        size₂,
        step (reply_head 1) _ s ran (
            step clear_host _ (with_buf b s) ran' (
              step clear_half (λ _. write 10) (with_buf c s) (cleared c len')
                (write-full 10 (with_buf (set (set c 10 0) 11 0) s) ws size₂ (omega arith) writes
                  ∙ ap (λ l. done (some tt, answered (set (set c 10 0) 11 0) l))
                      (sent_bytes b c front behind front' behind')))),
      )
    where
      cleared :
          (c : List ℕ)
          → length c ≡ 512
          → clear_half (with_buf c s) ≡ done (some tt, with_buf (set (set c 10 0) 11 0) s)
      cleared c len =
          step (store 10 0) (λ _. store 11 0) (with_buf c s)
            (store-at 10 0 (with_buf c s) len (omega arith))
            (store-at 11 0 (with_buf (set c 10 0) s) (length-set c 10 0 ∙ len) (omega arith))

      sent_bytes :
          (b c : List ℕ)
          → take 4 b ≡ 5 ∷ 1 ∷ 0 ∷ 1 ∷ []
          → drop 4 b ≡ drop 4 s.buf
          → take 8 c ≡ take 4 b ++ (0 ∷ 0 ∷ 0 ∷ 0 ∷ [])
          → drop 8 c ≡ drop 8 b
          → take 10 (take 10 (set (set c 10 0) 11 0)) ≡ failure_reply
      sent_bytes b c front behind front' behind' =
          take-take 10 (set (set c 10 0) 11 0)
          ∙ take-set_behind (set c 10 0) 10 11 0 (omega arith)
          ∙ take-set_behind c 10 10 0 (omega arith)
          ∙ take-add 8 2 10 c refl
          ∙ ap₂ (λ x y. x ++ take 2 y) (front' ∙ ap (λ x. x ++ (0 ∷ 0 ∷ 0 ∷ 0 ∷ [])) front)
              (behind'
                ∙ sym (drop-drop 4 4 8 b refl)
                ∙ ap (drop 4) behind
                ∙ drop-drop 4 4 8 s.buf refl)
