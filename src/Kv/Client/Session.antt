-- ===== src/Kv/Client/Session.antt =====
-- What the user of examples/src/kv_client.c sees, with the server of examples/src/kv_server.c.
use quiet_lwip.Prelude.{
  ℕ, zero, suc, ◌+◌, ◌≤◌, ◌<◌, ◌≡◌, ◌≢◌, refl, sym, ap, subst, ◌∙◌, inl, inr, list_cases, List, [],
  ◌∷◌, ◌++◌, Option, some, length, length-append, take, drop, drop-append_length, Outcome, done,
  blocked, fault, ◌>>=◌, Ensures, Ensures-map, Ensures-both, arith, replicate,
}
use quiet_lwip.Kv.{Library, Documented}
use quiet_lwip.Kv.Store.{IsValid}
use quiet_lwip.Kv.Requests.{Server, request, send_add_str, buf_len}
use quiet_lwip.Kv.Requests.Blocks.{padded, Plain, add_of, get_of}
use quiet_lwip.Kv.Requests.Answers.{add_request_lem, get_request-add_request, take-shorter}
use quiet_lwip.Kv.Loop.{Serving, loop_round}
use quiet_lwip.Kv.Client.{send_request, printed, new_answers, read_answer, client_run}

-- A text: no byte is zero.
abbrev pub IsText : List ℕ → Type 0
IsText [] = Unit
IsText (b ∷ bs) = (b ≢ 0) × IsText bs

printed-IsText :
    (text bs rest : List ℕ) (n : ℕ)
    → IsText text
    → take n bs ≡ text ++ (0 ∷ rest)
    → printed bs ≡ text
unfolding printed
printed-IsText [] bs rest zero t e = absurd cc
printed-IsText [] [] rest (suc n) t e = refl
printed-IsText [] (b ∷ bs) rest (suc n) t e = ground arith
printed-IsText (c ∷ text) bs rest zero t e = absurd cc
printed-IsText (c ∷ text) [] rest (suc n) t e = absurd cc
printed-IsText (c ∷ text) (b ∷ bs) rest (suc n) t e =
    let later = printed-IsText text bs rest n t.1 in ground arith

Ensures-elim :
    {A : Type 0} (P : A → Type 0) (m : Outcome A) → Ensures m P → (a : A) × (m ≡ done a) × P a
Ensures-elim P (done a) h = (a, refl, h)
Ensures-elim P blocked h = absurd h
Ensures-elim P fault h = absurd h

module _ (lib : Library) where
  -- The server has answered to a client, which has printed the answer and gone.
  record Ran (P : Server × List ℕ → Type 0) (s : Serving) (r : Serving × List ℕ) : Type 0 where
    reply : Server × List ℕ
    good : P reply
    shows : r.1 ≡ printed (take buf_len reply.1)
    server_after : r.0.server ≡ reply.0
    waiting_after : length r.0.waiting + 1 ≡ length s.waiting

  module _ (b : ℕ) (bs : List ℕ) (s : Serving) (q : Server × List ℕ) (c : ℕ) (cs : List ℕ)
      (fd : Option ℕ) (fds : List (Option ℕ)) where
    -- The server when it has answered, and when the connection has ended.
    abbrev told : Serving
    told = record s { server = q.0; written = s.written ++ ((s.conn_fd, c ∷ cs) ∷ []) }

    abbrev gone : Serving
    gone = record told { conn_fd = fd; waiting = fds; closed = s.closed ++ (s.conn_fd ∷ []) }

    told_lem :
        request lib (some (b ∷ bs)) s.server ≡ done q
        → q.1 ≡ c ∷ cs
        → loop_round lib (some (b ∷ bs)) s ≡ done told
    unfolding loop_round
    told_lem e g = rw (e, loop_round, g) refl

    gone_lem : s.waiting ≡ fd ∷ fds → loop_round lib (some []) told ≡ done gone
    unfolding loop_round
    gone_lem f = rw (f, loop_round) refl

    new_answers_lem : new_answers s told ≡ (s.conn_fd, c ∷ cs) ∷ []
    new_answers_lem =
        drop-append_length s.written ((s.conn_fd, c ∷ cs) ∷ []) (length s.written) 0 (omega arith)

    client_run_lem :
        length (b ∷ bs) ≤ buf_len
        → request lib (some (b ∷ bs)) s.server ≡ done q
        → q.1 ≡ c ∷ cs
        → s.waiting ≡ fd ∷ fds
        → client_run lib (b ∷ bs) s ≡ done (gone, printed (take buf_len (c ∷ cs)))
    unfolding client_run send_request read_answer
    client_run_lem fits e g f =
        let sent : send_request (b ∷ bs) ≡ done (b ∷ bs) = ground arith in
        ap
          (λ m.
            m >>= λ text. loop_round lib (some text) s >>= λ t. read_answer lib (new_answers s t) t)
          sent
        ∙ (ap (λ m. m >>= λ t. read_answer lib (new_answers s t) t) (told_lem e g)
            ∙ (ap (λ l. read_answer lib l told) new_answers_lem
                ∙ ap (λ m. m >>= λ u. done (u, printed (take buf_len (c ∷ cs)))) (gone_lem f)))

  client_run-Ran :
      (P : Server × List ℕ → Type 0) (b : ℕ) (bs : List ℕ) (s : Serving)
      → length (b ∷ bs) ≤ buf_len
      → 1 ≤ length s.waiting
      → Ensures (request lib (some (b ∷ bs)) s.server) (λ q. (q.1 ≢ []) × P q)
      → Ensures (client_run lib (b ∷ bs) s) (Ran P s)
  unfolding client_run send_request loop_round
  client_run-Ran P b bs s fits more h =
      let (q, e, good) =
        Ensures-elim (λ q. (q.1 ≢ []) × P q) (request lib (some (b ∷ bs)) s.server) h in
      elim (list_cases s.waiting) [
        | inl nobody ↦ absurd (omega (arith, ap length nobody))
        | inr (fd, fds, f) ↦ elim (list_cases q.1) [
          | inl empty ↦ absurd (good.0 empty)
          | inr (c, cs, g) ↦
              subst (λ m. Ensures m (Ran P s))
                (sym (client_run_lem b bs s q c cs fd fds fits e g f))
                (record {
                  reply = q;
                  good = good.1;
                  shows = ap (λ l. printed (take buf_len l)) (sym g);
                  server_after = refl;
                  waiting_after = omega (arith, ap length f);
                })
        ]
      ]

-- A value with its padding has a zero byte at its end.
padded_text :
    (value : List ℕ) (n m : ℕ)
    → length value ≤ n
    → n < m
    → (rest : List ℕ) × (take (suc n) (value ++ drop (length value) (replicate m 0))
        ≡ value ++ (0 ∷ rest))
padded_text value n zero fits lt = absurd (omega arith)
padded_text [] n (suc m) fits lt = (take n (replicate m 0), refl)
padded_text (b ∷ bs) zero (suc m) fits lt = absurd (omega arith)
padded_text (b ∷ bs) (suc n) (suc m) fits lt =
    let (rest, e) = padded_text bs n m (omega arith) (omega arith) in (rest, ap (λ l. b ∷ l) e)

taken-ne-nil : (bs value rest : List ℕ) → 1 ≤ length value → take 31 bs ≡ value ++ rest → bs ≢ []
taken-ne-nil [] [] rest some_value e = absurd (omega arith)
taken-ne-nil [] (v ∷ value) rest some_value e = absurd cc
taken-ne-nil (b ∷ bs) value rest some_value e = cc

module _ (lib : Library) (doc : Documented lib) where
  -- Where a client adds a value under a key, and the next one asks for the key, the first is told that it has
  -- been added, and the second one prints the value. The key has at most 31 bytes and no `=`, the value 1 to 30
  -- bytes, none of them zero; a write and a read are whole, and after either client another connection can be
  -- accepted.
  pub client_get-client_add :
      (s : Serving) (key value : List ℕ)
      → IsValid s.server.kv
      → Plain key
      → length key ≤ 31
      → 1 ≤ length value
      → length value ≤ 30
      → IsText value
      → 2 ≤ length s.waiting
      → Ensures
          (client_run lib (add_of key value) s)
          λ r. (r.1 ≡ send_add_str) × Ensures (client_run lib (get_of key) r.0) λ q. q.1 ≡ value
  unfolding printed
  client_get-client_add s key value valid plain key_fits some_value value_fits text more =
      let (rest, end) = padded_text value 30 32 value_fits (omega arith) in
      Ensures-map (client_run lib (add_of key value) s) _ _
        (client_run-Ran lib (Tells key value) _ _ s (omega (arith, length-append key (61 ∷ value)))
          (omega arith)
          (Ensures-map (request lib (some (add_of key value)) s.server) _ _
            (Ensures-both (request lib (some (add_of key value)) s.server) _ _
              (add_request_lem lib doc key plain key_fits value some_value s.server valid
                (omega arith))
              (get_request-add_request lib doc key s.server value valid plain key_fits some_value
                (omega arith)))
            λ q h. ((λ empty. cc (empty, h.0.0)), (h.0.0, h.1))))
        λ r h. (
          h.shows ∙ ap (λ l. printed (take buf_len l)) h.good.0,
          Ensures-map (client_run lib (get_of key) r.0) _ _
              (client_run-Ran lib (λ g. take 31 g.1 ≡ take 31 (padded value)) _ _ r.0 (omega arith)
                (omega (arith, h.waiting_after))
                (subst
                  (λ server.
                    Ensures (request lib (some (get_of key)) server)
                      λ g. (g.1 ≢ []) × (take 31 g.1 ≡ take 31 (padded value)))
                  (sym h.server_after)
                  (Ensures-map (request lib (some (get_of key)) h.reply.0) _ _ h.good.1
                    λ g e. (taken-ne-nil g.1 value (0 ∷ rest) some_value (e ∙ end), e))))
              λ q g.
                g.shows
                ∙ printed-IsText value (take buf_len g.reply.1) rest 31 text
                    (take-shorter 31 buf_len g.reply.1 (omega arith) ∙ (g.good ∙ end)),
        )
    where
      -- The answer to the first client, and to the second one afterwards.
      Tells : List ℕ → List ℕ → Server × List ℕ → Type 0
      Tells k v q =
          (q.1 ≡ send_add_str)
          × Ensures (request lib (some (get_of k)) q.0) λ g. take 31 g.1 ≡ take 31 (padded v)
