-- ===== src/Kv/Requests/Answers.antt =====
-- What examples/src/kv_server.c answers to an ADD and to a GET.
use quiet_lwip.Prelude.{
  ℕ, zero, suc, ◌+◌, ◌^◌, ◌≤◌, ◌<◌, min, ◌≡◌, refl, sym, ap, subst, get_elem?-take, ap₂, ◌∙◌, inl,
  inr, List, [], ◌∷◌, ◌++◌, append_assoc, Option, none, some, map_some, Option-cases, length,
  length-append, take, drop, drop-append_length, if◌then◌else◌, done, fault, ◌>>=◌, Ensures,
  Ensures-bind, Ensures-map, arith,
}
use quiet_lwip.Kv.{Pair, Library, Documented, memcmp, items, key_value_find, key_value_add}
use quiet_lwip.Kv.Values.{eq→same, values}
use quiet_lwip.Kv.Store.{IsValid, first, found_values, key_value_find_lem}
use quiet_lwip.Kv.Replace.{IsPair, Adds, content}
use quiet_lwip.Kv.Add.{key_value_add_lem}
use quiet_lwip.Kv.Requests.{
  recv_add_str, send_add_str, add_delim, get_notfound, Server, minus, copy, delim, answer_get,
  get_request, by_command, request,
}
use quiet_lwip.Kv.Requests.Blocks.{
  delim-Plain, copy-append, length-padded, drop-padded, add_request_found, add_request_overrun,
  get_request_found, copy-fault, stored, padded, Plain, pair_of, add_of, get_of,
}

-- What is answered to a GET of a key: the 32 bytes of its value, or that there is none.
abbrev pub answer : Option (List ℕ) → List ℕ
answer none = get_notfound
answer (some v) = take 32 v

pub take-shorter : (m n : ℕ) (bs : List ℕ) → m ≤ n → take m (take n bs) ≡ take m bs
take-shorter zero n bs le = refl
take-shorter (suc m) zero bs le = absurd (omega arith)
take-shorter (suc m) (suc n) [] le = refl
take-shorter (suc m) (suc n) (b ∷ bs) le = ap (λ l. b ∷ l) (take-shorter m n bs (omega arith))

answer-content :
    (found : Option (List ℕ)) (v : List ℕ)
    → map_some (take 31) found ≡ some v
    → take 31 (answer found) ≡ v
answer-content none v e = cc
answer-content (some w) v e = take-shorter 31 32 w (omega arith) ∙ ground (arith, e)

module _ (lib : Library) (doc : Documented lib) (key : List ℕ) where
  module _ (plain : Plain key) (key_fits : length key ≤ 31) (value : List ℕ)
      (some_value : 1 ≤ length value) where
    -- The buffer after the read of the request.
    abbrev behind : Server → List ℕ
    behind s = drop (length (add_of key value)) s.buf

    key_behind :
        (s : Server)
        → drop 4 (add_of key value ++ behind s) ≡ key ++ (add_delim ∷ (value ++ behind s))
    key_behind s = append_assoc key (add_delim ∷ value) (behind s)

    value_behind :
        (s : Server) → drop (4 + length key + 1) (add_of key value ++ behind s) ≡ value ++ behind s
    value_behind s =
        ap (λ l. drop (4 + length key + 1) (recv_add_str ++ l)) (key_behind s)
        ∙ drop-append_length (recv_add_str ++ key) (add_delim ∷ (value ++ behind s))
            (4 + length key + 1) 1 (omega arith)

    module _ (bounded : length value < 2 ^ 63) (s : Server) where
      abbrev size : ℕ
      size = length (add_of key value)

      size_lem : size ≡ 4 + length key + 1 + length value
      size_lem = omega (arith, length-append key (add_delim ∷ value))

      abbrev reading : Server
      reading = record s { buf = add_of key value ++ behind s }

      delim_found : delim (min (minus (minus size 4) 1) 32) (drop 4 reading.buf) ≡ some (length key)
      delim_found =
          ap (delim (min (minus (minus size 4) 1) 32)) (key_behind s)
          ∙ delim-Plain key (value ++ behind s) (min (minus (minus size 4) 1) 32) plain
              (omega (arith, size_lem))

      key_copied : copy (length key) (drop 4 reading.buf) ≡ done (padded key)
      key_copied =
          ap (copy (length key)) (key_behind s)
          ∙ copy-append key (add_delim ∷ (value ++ behind s)) (omega arith)

      value_copied :
          length value ≤ 32
          → copy (minus size (4 + length key + 1)) (drop (4 + length key + 1) reading.buf)
            ≡ done (padded value)
      value_copied value_fits =
          ap₂ copy (omega (arith, size_lem)) (value_behind s)
          ∙ copy-append value (behind s) value_fits

      add_runs :
          length value ≤ 32
          → request lib (some (add_of key value)) s
            ≡ (key_value_add lib (pair_of key value) s.kv >>= stored (pair_of key value))
      unfolding request by_command memcmp
      add_runs value_fits =
          add_request_found lib size (length key) reading (padded key) (padded value) delim_found
            key_copied (value_copied value_fits)

    pair_of-IsPair : length value ≤ 32 → IsPair (pair_of key value)
    pair_of-IsPair value_fits = record {
      key_size = length-padded key (omega arith);
      key_end = drop-padded key key_fits;
      value_size = length-padded value value_fits;
    }

    -- An ADD of a key without `=` of at most 31 bytes and a value of 1 to 32 bytes is answered by ADDED,
    -- and stores the first 31 bytes of the value under the key, other keys keeping what they had.
    pub add_request_lem :
        (s : Server)
        → IsValid s.kv
        → length value ≤ 32
        → Ensures
            (request lib (some (add_of key value)) s)
            λ r. (r.1 ≡ send_add_str) × Adds (pair_of key value) s.kv (r.0).kv
    add_request_lem s valid value_fits = rw (add_runs (omega arith) s value_fits) (
        Ensures-bind (key_value_add lib (pair_of key value) s.kv) (stored (pair_of key value))
          (Adds (pair_of key value) s.kv) _
          (key_value_add_lem doc (pair_of key value) s.kv (pair_of-IsPair value_fits) valid)
          λ t added. (refl, added))

    -- A value of more than 32 bytes is copied past the end of its block.
    pub add_request-fault :
        (s : Server)
        → 32 < length value
        → length value < 2 ^ 63
        → request lib (some (add_of key value)) s ≡ fault
    unfolding request by_command memcmp
    add_request-fault s long bounded =
        add_request_overrun lib (size bounded s) (length key) (reading bounded s) (padded key)
          (delim_found bounded s) (key_copied bounded s)
          (copy-fault (minus (size bounded s) (4 + length key + 1))
            (drop (4 + length key + 1) (reading bounded s).buf)
            (omega (arith, size_lem bounded s, long)))

  answer_get_lem :
      (temp : Pair) (s : Server)
      → IsValid s.kv
      → answer_get lib temp s
        ≡ done (record s { temp = temp }, answer (first (values temp (items s.kv))))
  unfolding answer_get
  answer_get_lem temp s valid = elim (Option-cases (key_value_find lib temp s.kv)) [
    | inl e ↦ ground (arith, e, key_value_find_lem doc temp s.kv valid)
    | inr (i, e) ↦
        let (p, at, same_key, one) = found_values doc temp s.kv i valid e in
        ground (arith, e, one, (get_elem?-take s.kv.kv s.kv.num_items i p at).0)
  ]

  -- A GET of a key of at most 32 bytes is answered by the value that is stored under it, if there is
  -- one, and changes nothing in the store.
  pub get_request_lem :
      (s : Server)
      → IsValid s.kv
      → length key ≤ 32
      → Ensures (request lib (some (get_of key)) s) λ r.
        (r.1 ≡ answer (first (values (record (s.temp) { key = padded key }) (items s.kv))))
        × ((r.0).kv ≡ s.kv)
  unfolding request by_command memcmp get_request
  get_request_lem s valid fits =
      let u : Server = record s { buf = get_of key ++ drop (length (get_of key)) s.buf } in
      let copied : copy (minus (length (get_of key)) 4) (drop 4 u.buf) ≡ done (padded key) =
        ap (λ n. copy n (drop 4 u.buf)) (omega arith)
        ∙ copy-append key (drop (length (get_of key)) s.buf) fits in
      let ran =
        get_request_found lib (length (get_of key)) u (padded key) copied
        ∙ answer_get_lem (record (s.temp) { key = padded key }) u valid in
      subst
        (λ o. Ensures o λ r.
          (r.1 ≡ answer (first (values (record (s.temp) { key = padded key }) (items s.kv))))
          × ((r.0).kv ≡ s.kv))
        (sym ran) (refl, refl)

  -- Where an ADD of a key of at most 31 bytes without `=` and a value of 1 to 32 bytes, to a valid
  -- store, is followed by a GET of the key, both are answered, and the second answer begins with
  -- the first 31 bytes of the value, padded with zeros.
  pub get_request-add_request :
      (s : Server) (value : List ℕ)
      → IsValid s.kv
      → Plain key
      → length key ≤ 31
      → 1 ≤ length value
      → length value ≤ 32
      → Ensures (request lib (some (add_of key value)) s) λ r.
        Ensures (request lib (some (get_of key)) r.0) λ q. take 31 q.1 ≡ take 31 (padded value)
  get_request-add_request s value valid plain key_fits some_value value_fits =
      Ensures-map (request lib (some (add_of key value)) s) _ _
        (add_request_lem plain key_fits value some_value s valid value_fits)
        λ r h.
          Ensures-map (request lib (some (get_of key)) r.0) _ _
            (get_request_lem r.0 h.1.0 (omega arith))
            λ q g.
              ap (take 31) g.0
              ∙ answer-content (first (values (asked r.0) (items r.0.kv))) (take 31 (padded value))
                  (h.1.1 (asked r.0)
                    ∙ ap
                        (λ b. if b then some (take 31 (padded value)) else content (asked r.0) s.kv)
                        (eq→same (asked r.0) (pair_of key value) refl))
    where
      asked : Server → Pair
      asked r = record (r.temp) { key = padded key }
