-- ===== src/Kv/Store.antt =====
-- What the store of examples/src/kv_server.c keeps to, and its two operations as those of a map.
use Prim.Native.Nat.{Ordering, eq}
use mathlib.Core.List.{filter_map}
use quiet_lwip.Prelude.{
  ℕ, ◌-◌, ◌≤◌, ◌<◌, ◌≡◌, ◌≢◌, inl, inr, refl, ap, List, [], ◌∷◌, Option, none, some, true, false,
  map_some, Option-cases, get_elem?, drop, replicate, length, get_elem?-take, arith,
}
use quiet_lwip.Kv.{
  Pair, KeyValue, Library, Documented, Sorted, kv_compare, empty_slot, items, key_value_init,
  key_value_find,
}
use quiet_lwip.Kv.Values.{same, is_eq, values, values-at, values-none}

-- The slots are sorted, no key occurs twice, and the slots that are not in use are as `calloc` left them.
pub record IsValid (s : KeyValue) : Type 0 where
  pub room : s.num_items ≤ s.cap
  pub some_room : 0 < s.cap
  pub size : length s.kv ≡ s.cap
  pub spare : drop s.num_items s.kv ≡ replicate (s.cap - s.num_items) empty_slot
  pub sorted : Sorted (items s)
  pub unique : (k : Pair) → length (values k (items s)) ≤ 1

pub key_value_init-IsValid : IsValid key_value_init
unfolding key_value_init filter_map
key_value_init-IsValid = record {
  room = omega arith;
  some_room = omega arith;
  size = refl;
  spare = refl;
  sorted = tt;
  unique = λ k. omega arith;
}

-- The value that a list has first, if it has one.
abbrev pub first : List (List ℕ) → Option (List ℕ)
first [] = none
first (v ∷ vs) = some v

-- The value in the slot that `key_value_find` returns.
abbrev pub find_value : Library → Pair → KeyValue → Option (List ℕ)
find_value lib k s = elim (key_value_find lib k s) [
  | none ↦ none
  | some i ↦ map_some (λ p. p.value) (get_elem? s.kv i)
]

module _ {lib : Library} (doc : Documented lib) where
  pub found_values :
      (k : Pair) (s : KeyValue) (i : ℕ)
      → IsValid s
      → key_value_find lib k s ≡ some i
      → (p : Pair) × (get_elem? (items s) i ≡ some p)
        × (same k p ≡ true)
        × (values k (items s) ≡ p.value ∷ [])
  unfolding key_value_find kv_compare
  found_values k s i v e =
      let (p, at, equal) = doc.found k (items s) i v.sorted e in
      let same_key = ap is_eq equal in
      (p, at, same_key, values-at k p (items s) i at same_key (v.unique k))

  pub missing_values :
      (k : Pair) (s : KeyValue)
      → IsValid s
      → key_value_find lib k s ≡ none
      → values k (items s) ≡ []
  unfolding key_value_find kv_compare
  missing_values k s v e =
      values-none k (items s)
        λ i p at. not_eq (kv_compare k p) (doc.missing k (items s) i p v.sorted e at)
    where
      not_eq : (o : Ordering) → o ≢ eq → is_eq o ≡ false
      not_eq o h = ground arith

  -- `key_value_find` finds the one value that the key has in the slots in use, whatever their order, or
  -- nothing if it has none.
  pub key_value_find_lem :
      (k : Pair) (s : KeyValue) → IsValid s → find_value lib k s ≡ first (values k (items s))
  key_value_find_lem k s v = elim (Option-cases (key_value_find lib k s)) [
    | inl e ↦ ground (arith, e, missing_values k s v e)
    | inr (i, e) ↦
        let (p, at, same_key, one) = found_values k s i v e in
        ground (arith, e, one, (get_elem?-take s.kv s.num_items i p at).0)
  ]
