-- ===== src/Kv/Insert.antt =====
-- The branch of `key_value_add` of examples/src/kv_server.c for a new key.
use mathlib.Core.List.{filter_map}
use mathlib.Core.List.Perm
use mathlib.Core.Option.{Option-elim}
use quiet_lwip.Prelude.{
  suc, ◌-◌, ◌≤◌, ◌≡◌, inl, inr, sym, ap, ap₂, subst, ◌∙◌, List, [], ◌∷◌, ◌++◌, some, Bool-cases,
  get_elem?, take, drop, replicate, length, length-take, length-append, length-replicate, take-set,
  drop-set, take-append_length, take-append-drop, next_entry, drop-append_length, arith,
  if◌then◌else◌, Ensures, append-nil,
}
use quiet_lwip.Kv.{
  Pair, KeyValue, Library, Documented, Sorted, key_len, empty_slot, items, insert_pair, memcpy,
}
use quiet_lwip.Kv.Values.{
  same, key_bytes, values, values-Perm, values-append, values_left, same_right, same→eq,
}
use quiet_lwip.Kv.Store.{IsValid}
use quiet_lwip.Kv.Replace.{IsPair, Adds, take-memcpy}
use quiet_lwip.Kv.Resize.{HasRoom}

-- The slot of a new item.
abbrev pub filled : Pair → Pair
filled pair = record {
  key = memcpy 31 empty_slot.key pair.key;
  value = memcpy 31 empty_slot.value pair.value;
}

pub filled-key : (pair : Pair) → IsPair pair → key_bytes (filled pair) ≡ key_bytes pair
unfolding memcpy
filled-key pair good =
    ap (take key_len)
      (ap (λ end. take 31 pair.key ++ end) (sym good.key_end) ∙ take-append-drop 31 pair.key)

-- The items with the new one behind them, before they are sorted.
abbrev pub unsorted : Pair → KeyValue → List Pair
unsorted pair s = items s ++ (filled pair ∷ [])

module _ {lib : Library} (doc : Documented lib) (pair : Pair) (good : IsPair pair) (s : KeyValue)
    (h : HasRoom s) (fresh : values pair (items s) ≡ []) where
  pub values-unsorted :
      (k : Pair)
      → values k (unsorted pair s)
        ≡ (if same k pair then (filled pair).value ∷ [] else values k (items s))
  unfolding filter_map Option-elim
  values-unsorted k =
      values-append k (items s) (filled pair ∷ []) ∙ elim (Bool-cases (same k pair)) [
        | inl e ↦ ground (
          arith,
          e,
          fresh,
          values_left k pair (items s) (same→eq k pair e),
          same_right k pair (filled pair) (filled-key pair good),
        )
        | inr e ↦ ground (
          arith,
          e,
          append-nil (values k (items s)),
          same_right k pair (filled pair) (filled-key pair good),
        )
      ]

  pub unsorted_unique : (k : Pair) → length (values k (unsorted pair s)) ≤ 1
  unsorted_unique k = ground (arith, values-unsorted k, h.valid.unique k)

  pub values-sorted :
      (k : Pair) → values k (lib.qsort (unsorted pair s)) ≡ values k (unsorted pair s)
  values-sorted k =
      sym (values-Perm k (Perm.symm (doc.qsort-Perm (unsorted pair s))) (unsorted_unique k))

  -- The store after the new item.
  abbrev pub inserted : KeyValue
  inserted = record s {
    kv = lib.qsort (unsorted pair s) ++ replicate (s.cap - suc s.num_items) empty_slot;
    num_items = suc s.num_items;
  }

  pub length-sorted : length (lib.qsort (unsorted pair s)) ≡ suc s.num_items
  length-sorted = omega (
    arith,
    doc.length-qsort (unsorted pair s),
    length-append (items s) (filled pair ∷ []),
    length-take s.num_items s.kv,
    h.valid.size,
    h.below,
  )

  pub items-inserted : items inserted ≡ lib.qsort (unsorted pair s)
  items-inserted =
      take-append_length (lib.qsort (unsorted pair s))
        (replicate (s.cap - suc s.num_items) empty_slot) (suc s.num_items) (sym length-sorted)

  pub values-inserted :
      (k : Pair)
      → values k (items inserted)
        ≡ (if same k pair then (filled pair).value ∷ [] else values k (items s))
  values-inserted k = ap (values k) items-inserted ∙ values-sorted k ∙ values-unsorted k

  pub inserted-IsValid : IsValid inserted
  inserted-IsValid = record {
    room = omega (arith, h.below);
    some_room = h.valid.some_room;
    size = omega (
      arith,
      length-append (lib.qsort (unsorted pair s)) (replicate (s.cap - suc s.num_items) empty_slot),
      length-replicate (s.cap - suc s.num_items) empty_slot,
      length-sorted,
      h.below,
    );
    spare =
        drop-append_length (lib.qsort (unsorted pair s))
          (replicate (s.cap - suc s.num_items) empty_slot) (suc s.num_items) 0
          (omega (arith, length-sorted));
    sorted = subst Sorted (sym items-inserted) (doc.qsort-Sorted (unsorted pair s));
    unique = λ k. ground (arith, values-inserted k, h.valid.unique k);
  }

  pub inserted-Adds : Adds pair s inserted
  inserted-Adds = (
    inserted-IsValid,
    λ k. ground (arith, values-inserted k, take-memcpy empty_slot.value pair.value good.value_size),
  )

  pub first_spare :
      (get_elem? s.kv s.num_items ≡ some empty_slot)
      × (drop (suc s.num_items) s.kv ≡ replicate (s.cap - suc s.num_items) empty_slot)
  first_spare =
      next_entry s.kv s.num_items empty_slot (replicate (s.cap - suc s.num_items) empty_slot)
        (h.valid.spare ∙ ap (λ m. replicate m empty_slot) one_less)
    where
      one_less : s.cap - s.num_items ≡ suc (s.cap - suc s.num_items)
      one_less = omega (arith, h.below)

  pub insert_pair_lem : Ensures (insert_pair lib pair s) (Adds pair s)
  unfolding insert_pair
  insert_pair_lem =
      let here = first_spare.0 in
      let slots = take-set s.kv s.num_items (filled pair) (omega (arith, h.valid.size, h.below)) in
      let behind = drop-set s.kv s.num_items (filled pair) ∙ first_spare.1 in
      rw (here, insert_pair, Ensures)
        (subst (λ kv. Adds pair s (record s { kv = kv; num_items = suc s.num_items }))
          (sym (ap₂ (λ ps qs. lib.qsort ps ++ qs) slots behind)) inserted-Adds)
