-- ===== src/Kv/Loop/Refines.antt =====
-- The server of examples/src/kv_server.c answers any requests as a map from keys to values does.
use mathlib.Core.List.{map-append}
use quiet_lwip.Prelude.{
  ℕ, suc, ◌≤◌, ◌≡◌, ◌≢◌, inl, inr, list_cases, refl, sym, ap, subst, ◌∙◌, List, [], ◌∷◌, ◌++◌,
  append_assoc, append-nil, map, Option, none, some, map_some, length, take, ◌>>=◌, Ensures,
  Ensures-bind, Ensures-map, arith,
}
use quiet_lwip.Kv.{memcmp, Pair, Library, Documented, items}
use quiet_lwip.Kv.Values.{values}
use quiet_lwip.Kv.Store.{first}
use quiet_lwip.Kv.Requests.{Server, request, by_command, send_ping_str, recv_ping_str, send_add_str}
use quiet_lwip.Kv.Requests.Blocks.{padded, length-padded, Plain, add_of, get_of}
use quiet_lwip.Kv.Requests.Answers.{add_request_lem, get_request_lem, answer, take-shorter}
use quiet_lwip.Kv.Loop.{
  Serving, answered, loop_round, loop, Event, adds, gets, pings, leaves, read_of, Book, lookup,
  told, answers, start_serving,
}
use quiet_lwip.Kv.Loop.Book.{Represents, Adds-Represents, empty-Represents}

-- A key and a value fit into their blocks.
abbrev pub Fits : Event → Type 0
Fits (adds key value) = Plain key × (length key ≤ 31) × (1 ≤ length value) × (length value ≤ 32)
Fits (gets key) = length key ≤ 32
Fits pings = Unit
Fits leaves = Unit

abbrev pub AllFit : List Event → Type 0
AllFit [] = Unit
AllFit (e ∷ es) = Fits e × AllFit es

-- How many connections end.
abbrev pub ends : List Event → ℕ
ends [] = 0
ends (leaves ∷ es) = suc (ends es)
ends (_ ∷ es) = ends es

-- The first 31 bytes of everything that has been written.
abbrev pub shown : List (Option ℕ × List ℕ) → List (Option ℕ × List ℕ)
shown ws = map (λ w. (w.0, take 31 w.1)) ws

-- The answer to a GET, as far as it counts.
shown_answer : (found : Option (List ℕ)) → take 31 (answer found) ≡ told (map_some (take 31) found)
shown_answer none = refl
shown_answer (some v) = take-shorter 31 32 v (omega arith)

module _ (lib : Library) (doc : Documented lib) where
  -- What the server shows after some more events.
  abbrev Shows : List Event → Book → Serving → Serving → Type 0
  Shows es book s t = shown t.written ≡ shown s.written ++ answers es book s.conn_fd s.waiting

  -- A round with a request: the connection is told something, and the store has what is in the book.
  record Goes (book : Book) (said : List ℕ) (s t : Serving) : Type 0 where
    represents : Represents book t.server.kv
    says : shown t.written ≡ shown s.written ++ ((s.conn_fd, said) ∷ [])
    same_conn : t.conn_fd ≡ s.conn_fd
    same_waiting : t.waiting ≡ s.waiting

  shown-answered :
      (fd : Option ℕ) (bs said : List ℕ)
      → take 31 bs ≡ said
      → said ≢ []
      → shown (answered fd bs) ≡ (fd, said) ∷ []
  shown-answered fd [] said e some_said = absurd (some_said (sym e))
  shown-answered fd (b ∷ bs) said e some_said = ap (λ l. (fd, l) ∷ []) e

  -- What is returned for a request.
  abbrev Replies : Book → List ℕ → Server × List ℕ → Type 0
  Replies book said q = (take 31 q.1 ≡ said) × Represents book q.0.kv

  request-Goes :
      (book : Book) (said : List ℕ) (s : Serving) (b : ℕ) (bs : List ℕ)
      → said ≢ []
      → Ensures (request lib (some (b ∷ bs)) s.server) (Replies book said)
      → Ensures (loop_round lib (some (b ∷ bs)) s) (Goes book said s)
  unfolding loop_round
  request-Goes book said s b bs some_said h =
      Ensures-bind (request lib (some (b ∷ bs)) s.server) _ _ _ h λ q g. record {
        represents = g.1;
        says =
            map-append _ s.written (answered s.conn_fd q.1)
            ∙ ap (λ l. shown s.written ++ l) (shown-answered s.conn_fd q.1 said g.0 some_said);
        same_conn = refl;
        same_waiting = refl;
      }

  Goes-Shows :
      (es : List Event) (book : Book) (said : List ℕ) (s t : Serving)
      → Goes book said s t
      → (u : Serving) → Shows es book t u
      → shown u.written
        ≡ shown s.written ++ ((s.conn_fd, said) ∷ answers es book s.conn_fd s.waiting)
  Goes-Shows es book said s t g u h =
      rw (h, g.says, g.same_conn, g.same_waiting)
        (append_assoc (shown s.written) ((s.conn_fd, said) ∷ [])
          (answers es book s.conn_fd s.waiting))

  abbrev asked : List ℕ → Serving → Pair
  asked key s = record (s.server.temp) { key = padded key }

  told-ne-nil : (found : Option (List ℕ)) → found ≢ some [] → told found ≢ []
  told-ne-nil none h = cc
  told-ne-nil (some v) h = λ e. h (ap some e)

  ping_lem :
      {book : Book} (s : Server)
      → Represents book s.kv
      → Ensures (request lib (some recv_ping_str) s) (Replies book send_ping_str)
  unfolding request by_command memcmp
  ping_lem s r = (refl, r)

  -- The answer to an addition.
  adds-Goes :
      (book : Book) (s : Serving) (key value : List ℕ)
      → Fits (adds key value)
      → Represents book s.server.kv
      → Ensures
          (loop_round lib (some (add_of key value)) s)
          (Goes ((padded key, take 31 (padded value)) ∷ book) send_add_str s)
  adds-Goes book s key value fit r =
      request-Goes ((padded key, take 31 (padded value)) ∷ book) send_add_str s _ _ (cc) (
        Ensures-map (request lib (some (add_of key value)) s.server) _
          (Replies ((padded key, take 31 (padded value)) ∷ book) send_add_str)
          (add_request_lem lib doc key fit.0 fit.1 value fit.2 s.server r.valid fit.3)
          λ q h.
            (ap (take 31) h.0, Adds-Represents book s.server.kv q.0.kv key value fit.1 fit.3 r h.1))

  gets-Goes :
      (book : Book) (s : Serving) (key : List ℕ)
      → length key ≤ 32
      → Represents book s.server.kv
      → Ensures
          (loop_round lib (some (get_of key)) s)
          (Goes book (told (lookup (padded key) book)) s)
  gets-Goes book s key fit r =
      request-Goes book (told (lookup (padded key) book)) s _ _
        (told-ne-nil (lookup (padded key) book) (r.no_empty_value (padded key)))
        (Ensures-map (request lib (some (get_of key)) s.server) _
          (Replies book (told (lookup (padded key) book)))
          (get_request_lem lib doc key s.server r.valid fit)
          λ q h. (
            ap (take 31) h.0
                ∙ (shown_answer (first (values (asked key s) (items s.server.kv)))
                    ∙ ap told (r.same_values (asked key s) (length-padded key fit))),
            subst (Represents book) (sym h.1) r,
          ))

  -- The rounds after one with a request.
  continued :
      (es : List Event) (book : Book) (said : List ℕ) (s : Serving) (r : Option (List ℕ))
      → Ensures (loop_round lib r s) (Goes book said s)
      → ((t : Serving)
          → Represents book t.server.kv
          → t.waiting ≡ s.waiting
          → Ensures (loop lib (map read_of es) t) (Shows es book t))
      → Ensures (loop_round lib r s >>= loop lib (map read_of es)) (λ u.
        shown u.written
        ≡ shown s.written ++ ((s.conn_fd, said) ∷ answers es book s.conn_fd s.waiting))
  continued es book said s r h k =
      Ensures-bind (loop_round lib r s) (loop lib (map read_of es)) _ _ h λ t g.
        Ensures-map (loop lib (map read_of es) t) _ _ (k t g.represents g.same_waiting)
          (Goes-Shows es book said s t g)

  -- From a store that has what is in a book, the server answers any requests that fit, over any number
  -- of connections, as the book does.
  pub loop_lem :
      (es : List Event) (book : Book) (s : Serving)
      → AllFit es
      → Represents book s.server.kv
      → ends es ≤ length s.waiting
      → Ensures (loop lib (map read_of es) s) (Shows es book s)
  unfolding loop answers
  loop_lem [] book s fit r enough = sym (append-nil (shown s.written))
  loop_lem (adds key value ∷ es) book s (fit, fits) r enough =
      continued es _ _ s (some (add_of key value)) (adds-Goes book s key value fit r)
        λ t q e. loop_lem es _ t fits q (omega (arith, ap length e))
  loop_lem (gets key ∷ es) book s (fit, fits) r enough =
      continued es _ _ s (some (get_of key)) (gets-Goes book s key fit r)
        λ t q e. loop_lem es _ t fits q (omega (arith, ap length e))
  loop_lem (pings ∷ es) book s (fit, fits) r enough =
      continued es _ _ s (some recv_ping_str)
        (request-Goes book send_ping_str s 80 (73 ∷ 78 ∷ 71 ∷ []) (cc) (ping_lem s.server r))
        λ t q e. loop_lem es _ t fits q (omega (arith, ap length e))
  loop_lem (leaves ∷ es) book s (fit, fits) r enough = elim (list_cases s.waiting) [
    | inl empty ↦ absurd (omega (arith, ap length empty))
    | inr (fd, fds, e) ↦
        rw (e, loop_round, answers)
          (loop_lem es book
            (record s { conn_fd = fd; waiting = fds; closed = s.closed ++ (s.conn_fd ∷ []) }) fits r
            (omega (arith, ap length e)))
  ]

  -- From its start the server answers any sequence of requests, over any number of connections, as a map
  -- from keys to values does: an ADD by ADDED, a GET by what was added last under the key, or by NOT FOUND,
  -- and a PING by PONG, each on the connection that it came from; 31 bytes of a value count. Keys have at most
  -- 31 bytes (in a GET 32) and, in an ADD, no `=`; values have 1 to 32 bytes; every request comes in one
  -- read, and at the end of a connection the next one can be accepted.
  pub loop_refines :
      (es : List Event) (fd : Option ℕ) (waiting : List (Option ℕ))
      → AllFit es
      → ends es ≤ length waiting
      → Ensures
          (loop lib (map read_of es) (start_serving fd waiting))
          (λ t. shown t.written ≡ answers es [] fd waiting)
  loop_refines es fd waiting fits enough =
      loop_lem es [] (start_serving fd waiting) fits empty-Represents enough
