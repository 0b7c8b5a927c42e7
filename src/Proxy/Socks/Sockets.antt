-- ===== src/Proxy/Socks/Sockets.antt =====
-- The sockets that examples/src/proxy_server.c opens for a name, and those that it closes again.
use quiet_lwip.Prelude.{
  ℕ, ◌+◌, ◌≡◌, refl, subst, ◌∙◌, List, [], ◌∷◌, Option, none, some, Bool, Outcome, done, blocked,
  fault, arith,
}
use quiet_lwip.Proxy.Session.{Address, Session, M, ◌>>=◌, read, byte, bytes, socket, close}
use quiet_lwip.Proxy.Socks.{
  connect, try_each, resolved, socks_request_connect_domainname, port_text, c_string,
}

-- Nothing more is open after a failure, and the socket of the result after a success.
abbrev pub Owns : List ℕ → Outcome (Option ℕ × Session) → Type 0
Owns open_before (done (none, t)) = t.opened ≡ open_before
Owns open_before (done (some fd, t)) = t.opened ≡ fd ∷ open_before
Owns open_before blocked = Unit
Owns open_before fault = Unit

-- The step opens and closes no socket.
abbrev Same {ℓ} : {A : Type ℓ} → List ℕ → Outcome (Option A × Session) → Type 0
Same open_before (done (_, t)) = t.opened ≡ open_before
Same open_before blocked = Unit
Same open_before fault = Unit

read-Same : (n least : ℕ) (s : Session) → Same s.opened (read n least s)
unfolding read
read-Same n least s = ground arith

byte-Same : (i : ℕ) (s : Session) → Same s.opened (byte i s)
unfolding byte
byte-Same i s = ground arith

bytes-Same : (i n : ℕ) (s : Session) → Same s.opened (bytes i n s)
unfolding bytes
bytes-Same i n s = ground arith

after-Owns {ℓ} :
    {A : Type ℓ} (before : List ℕ) (m : M A) (f : A → M ℕ) (s : Session)
    → s.opened ≡ before
    → Same s.opened (m s)
    → ((a : A) (t : Session) → t.opened ≡ before → Owns before (f a t))
    → Owns before ((m >>= f) s)
after-Owns {A = A} before m f s e h k = by_outcome (m s) h
  where
    by_outcome :
        (o : Outcome (Option A × Session))
        → Same s.opened o
        → Owns before (elim o [
          | done (some a, s') ↦ f a s'
          | done (none, s') ↦ done (none, s')
          | blocked ↦ blocked
          | fault ↦ fault
        ])
    by_outcome (done (some a, t)) same = k a t (same ∙ e)
    by_outcome (done (none, t)) same = same ∙ e
    by_outcome blocked same = tt
    by_outcome fault same = tt

module _ (connects : Address → Bool) (getaddrinfo : List ℕ → List ℕ → Option (List Address))
    (getsockname : ℕ → Option Address) where
  try_each-Owns :
      (addresses : List Address) (s : Session)
      → Owns s.opened (try_each connects getaddrinfo getsockname addresses s)
  unfolding try_each socket connect close
  try_each-Owns [] s = refl
  try_each-Owns (a ∷ rest) s = by_sockets s.sockets (try_each-Owns rest)
    where
      by_sockets :
          (fs : List (Option ℕ))
          → ((t : Session) → Owns t.opened (try_each connects getaddrinfo getsockname rest t))
          → Owns s.opened
              (try_each connects getaddrinfo getsockname (a ∷ rest) (record s { sockets = fs }))
      by_sockets [] others = tt
      by_sockets (none ∷ fs) others = others (record s { sockets = fs })
      by_sockets (some fd ∷ fs) others = ground (arith, others (record s { sockets = fs }))

  -- However a request for a name ends, no socket is left behind: after a failure the same sockets of the
  -- host are open as before, after a success one more, which is the result.
  pub request_domainname-Owns :
      (s : Session)
      → Owns s.opened (socks_request_connect_domainname connects getaddrinfo getsockname s)
  unfolding socks_request_connect_domainname
  request_domainname-Owns s = after-Owns s.opened (read 1 1) _ s refl (read-Same 1 1 s) λ _ t e.
      after-Owns s.opened (byte 0) _ t e (byte-Same 0 t) λ len t e.
        after-Owns s.opened (read (len + 2) len) _ t e (read-Same (len + 2) len t) λ _ t e.
          after-Owns s.opened (bytes 0 len) _ t e (bytes-Same 0 len t) λ name t e.
            after-Owns s.opened (byte len) _ t e (byte-Same len t) λ high t e.
              after-Owns s.opened (byte (len + 1)) _ t e (byte-Same (len + 1) t)
                λ low t e. by_results (getaddrinfo (c_string name) (port_text high low)) t e
    where
      by_results :
          (results : Option (List Address)) (t : Session)
          → t.opened ≡ s.opened
          → Owns s.opened (resolved connects getaddrinfo getsockname results t)
      by_results none t e = e
      by_results (some addresses) t e =
          subst (λ before. Owns before (try_each connects getaddrinfo getsockname addresses t)) e
            (try_each-Owns addresses t)
