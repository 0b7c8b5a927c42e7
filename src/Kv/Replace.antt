-- ===== src/Kv/Replace.antt =====
-- The branch of `key_value_add` of examples/src/kv_server.c for a key that is there.
use quiet_lwip.Prelude.{
  ℕ, zero, suc, ◌≡◌, refl, sym, ap, subst, ◌∙◌, List, [], ◌∷◌, Option, some, true, map_some,
  get_elem?, set, take, drop, length, length-set, length-take, get_elem?-take, take-set_comm,
  drop-set_before, take-append_length, arith, if◌then◌else◌, Ensures,
}
use quiet_lwip.Kv.{
  Pair, KeyValue, Library, Documented, Sorted, kv_compare, memcmp, items, key_value_find,
  replace_value, memcpy,
}
use quiet_lwip.Kv.Values.{same, key_bytes, values, values-set, same_right, same→eq}
use quiet_lwip.Kv.Store.{IsValid, first, found_values}

-- What `key_value_add` takes: blocks of 32 bytes, and a key that ends in a zero byte.
pub record IsPair (p : Pair) : Type 0 where
  pub key_size : length p.key ≡ 32
  pub key_end : drop 31 p.key ≡ 0 ∷ []
  pub value_size : length p.value ≡ 32

-- The first 31 bytes of the value under a key; the last byte of a slot is never written.
abbrev pub content : Pair → KeyValue → Option (List ℕ)
content k s = map_some (take 31) (first (values k (items s)))

-- The store afterwards: the key has the new value, every other key has what it had.
abbrev pub Adds : Pair → KeyValue → KeyValue → Type 0
Adds pair s t =
    IsValid t
    × ((k : Pair) → content k t ≡ (if same k pair then some (take 31 pair.value) else content k s))

pub compare_left : (p q r : Pair) → key_bytes p ≡ key_bytes q → kv_compare p r ≡ kv_compare q r
unfolding kv_compare
compare_left p q r e = ap (λ bytes. memcmp bytes (key_bytes r)) e

pub compare_right : (p q r : Pair) → key_bytes p ≡ key_bytes q → kv_compare r p ≡ kv_compare r q
unfolding kv_compare
compare_right p q r e = ap (λ bytes. memcmp (key_bytes r) bytes) e

pub set-Sorted :
    (ps : List Pair) (i : ℕ) (p q : Pair)
    → get_elem? ps i ≡ some p
    → key_bytes q ≡ key_bytes p
    → Sorted ps
    → Sorted (set ps i q)
set-Sorted [] i p q e f h = tt
set-Sorted (x ∷ []) zero p q e f h = tt
set-Sorted (x ∷ []) (suc i) p q e f h = tt
set-Sorted (x ∷ y ∷ ps) zero p q e f h = ground (arith, compare_left q p y f)
set-Sorted (x ∷ y ∷ ps) (suc zero) p q e f h =
    (ground (arith, compare_right q p x f), set-Sorted (y ∷ ps) zero p q e f h.1)
set-Sorted (x ∷ y ∷ ps) (suc (suc i)) p q e f h = (h.0, set-Sorted (y ∷ ps) (suc i) p q e f h.1)

pub take-memcpy : (to from : List ℕ) → length from ≡ 32 → take 31 (memcpy 31 to from) ≡ take 31 from
unfolding memcpy
take-memcpy to from e =
    take-append_length (take 31 from) (drop 31 to) 31 (omega (arith, length-take 31 from))

-- A slot with another value.
abbrev pub revalued : Pair → Pair → Pair
revalued pair p = record p { value = memcpy 31 p.value pair.value }

-- The store with that slot.
abbrev pub replaced : Pair → Pair → ℕ → KeyValue → KeyValue
replaced pair p i s = record s { kv = set s.kv i (revalued pair p) }

module _ (pair p : Pair) (good : IsPair pair) (s : KeyValue) (i : ℕ) (v : IsValid s)
    (at : get_elem? (items s) i ≡ some p) where
  pub values-replaced :
      (k : Pair)
      → values k (items (replaced pair p i s))
        ≡ (if same k p then memcpy 31 p.value pair.value ∷ [] else values k (items s))
  values-replaced k =
      ap (values k) (take-set_comm s.kv s.num_items i (revalued pair p))
      ∙ values-set k p (revalued pair p) (items s) i at refl (v.unique k)

  pub replaced-IsValid : IsValid (replaced pair p i s)
  replaced-IsValid = record {
    room = v.room;
    some_room = v.some_room;
    size = length-set s.kv i (revalued pair p) ∙ v.size;
    spare =
        drop-set_before s.kv s.num_items i (revalued pair p)
          (get_elem?-take s.kv s.num_items i p at).1
        ∙ v.spare;
    sorted =
        subst Sorted (sym (take-set_comm s.kv s.num_items i (revalued pair p)))
          (set-Sorted (items s) i p (revalued pair p) at refl v.sorted);
    unique = λ k. ground (arith, values-replaced k, v.unique k);
  }

  pub replaced-Adds : same pair p ≡ true → Adds pair s (replaced pair p i s)
  replaced-Adds same_key = (
    replaced-IsValid,
    λ k. ground (
      arith,
      values-replaced k,
      same_right k p pair (same→eq pair p same_key),
      take-memcpy p.value pair.value good.value_size,
    ),
  )

module _ {lib : Library} (doc : Documented lib) (pair : Pair) (good : IsPair pair) where
  pub replace_value_lem :
      (s : KeyValue) (i : ℕ)
      → IsValid s
      → key_value_find lib pair s ≡ some i
      → Ensures (replace_value lib i pair s) (Adds pair s)
  unfolding replace_value
  replace_value_lem s i v e =
      let (p, at, same_key, one) = found_values doc pair s i v e in
      let here = (get_elem?-take s.kv s.num_items i p at).0 in
      rw (here, replace_value, Ensures) (replaced-Adds pair p good s i v at same_key)
