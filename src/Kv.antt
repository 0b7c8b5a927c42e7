-- ===== src/Kv.antt =====
-- The store of examples/src/kv_server.c: an array of slots, each with a key and a value of 32 bytes,
-- sorted by key. The C library's `bsearch` and `qsort` are parameters, called with `kv_compare`.
-- `calloc` and `realloc` are taken to succeed, as the code does.
pub mod Values
pub mod Store
pub mod Replace
pub mod Resize
pub mod Insert
pub mod Add
pub mod Requests
pub mod Loop
pub mod Client
mod Tests
use Prim.Native.Nat.{compare, Ordering, lt, eq, gt}
use mathlib.Core.List.{Perm}
use quiet_lwip.Prelude.{
  ℕ, suc, ◌+◌, ◌*◌, ◌≡◌, ◌≢◌, List, [], ◌∷◌, ◌++◌, Option, none, some, get_elem?, set, take, drop,
  replicate, length, ◌==◌, if◌then◌else◌, Outcome, done, fault,
}

abbrev pub kv_num_items_init : ℕ
kv_num_items_init = 8

abbrev pub key_len : ℕ
key_len = 32

abbrev pub value_len : ℕ
value_len = 32

-- `kv_t`, with the blocks that it points to.
pub record Pair : Type 0 where
  pub key : List ℕ
  pub value : List ℕ

-- `memcmp` on two blocks.
unfoldable pub memcmp : List ℕ → List ℕ → Ordering
memcmp [] [] = eq
memcmp [] (y ∷ ys) = lt
memcmp (x ∷ xs) [] = gt
memcmp (x ∷ xs) (y ∷ ys) = elim (compare x y) [ lt ↦ lt | gt ↦ gt | eq ↦ memcmp xs ys ]

-- `memcpy` of `n` bytes to the front of a block.
unfoldable pub memcpy : ℕ → List ℕ → List ℕ → List ℕ
memcpy n to from = take n from ++ drop n to

unfoldable pub kv_compare : Pair → Pair → Ordering
unfolding memcmp
kv_compare l r = memcmp (take key_len l.key) (take key_len r.key)

-- No neighbours are in the wrong order.
abbrev pub Sorted : List Pair → Type 0
Sorted [] = Unit
Sorted (p ∷ []) = Unit
Sorted (p ∷ q ∷ ps) = (kv_compare p q ≢ gt) × Sorted (q ∷ ps)

-- `bsearch` and `qsort`, with `kv_compare`; a pointer into the array is its index.
pub record Library : Type 0 where
  pub bsearch : Pair → List Pair → Option ℕ
  pub qsort : List Pair → List Pair

-- What the C standard says of them.
pub record Documented (lib : Library) : Type 0 where
  pub found :
      (k : Pair) (ps : List Pair) (i : ℕ)
      → Sorted ps
      → lib.bsearch k ps ≡ some i
      → (p : Pair) × (get_elem? ps i ≡ some p) × (kv_compare k p ≡ eq)
  pub missing :
      (k : Pair) (ps : List Pair) (i : ℕ) (p : Pair)
      → Sorted ps
      → lib.bsearch k ps ≡ none
      → get_elem? ps i ≡ some p
      → kv_compare k p ≢ eq
  pub qsort-Perm : (ps : List Pair) → Perm (lib.qsort ps) ps
  pub length-qsort : (ps : List Pair) → length (lib.qsort ps) ≡ length ps
  pub qsort-Sorted : (ps : List Pair) → Sorted (lib.qsort ps)

-- `key_value_t`
pub record KeyValue : Type 0 where
  pub kv : List Pair
  pub num_items : ℕ
  pub cap : ℕ

-- A slot from `calloc`.
abbrev pub empty_slot : Pair
empty_slot = record { key = replicate key_len 0; value = replicate value_len 0 }

unfoldable pub key_value_init : KeyValue
key_value_init = record {
  kv = replicate kv_num_items_init empty_slot;
  num_items = 0;
  cap = kv_num_items_init;
}

-- The slots in use.
abbrev pub items : KeyValue → List Pair
items s = take s.num_items s.kv

-- The growth in `key_value_add`.
unfoldable pub resize : KeyValue → KeyValue
resize s =
    if s.num_items == s.cap
    then record s { kv = s.kv ++ replicate s.cap empty_slot; cap = s.cap * 2 }
    else s

module _ (lib : Library) where
  -- `key_value_find`: the index of the slot.
  unfoldable pub key_value_find : Pair → KeyValue → Option ℕ
  key_value_find k s = lib.bsearch k (items s)

  -- The branch of `key_value_add` for a key that is there, at the slot `i`.
  unfoldable pub replace_value : ℕ → Pair → KeyValue → Outcome KeyValue
  unfolding memcpy
  replace_value i pair s = elim (get_elem? s.kv i) [
    | none ↦ fault
    | some p ↦
        done (record s { kv = set s.kv i (record p { value = memcpy 31 p.value pair.value }) })
  ]

  -- The branch of `key_value_add` for a new key, where there is room.
  unfoldable pub insert_pair : Pair → KeyValue → Outcome KeyValue
  unfolding memcpy
  insert_pair pair s = elim (get_elem? s.kv s.num_items) [
    | none ↦ fault
    | some slot ↦
        (let slots = set s.kv s.num_items (record {
          key = memcpy 31 slot.key pair.key;
          value = memcpy 31 slot.value pair.value;
        }) in
          done (record s {
            kv = lib.qsort (take (suc s.num_items) slots) ++ drop (suc s.num_items) slots;
            num_items = suc s.num_items;
          }))
  ]

  unfoldable pub key_value_add : Pair → KeyValue → Outcome KeyValue
  unfolding key_value_find replace_value insert_pair resize
  key_value_add pair s = elim (key_value_find pair s) [
    | some i ↦ replace_value i pair s
    | none ↦ insert_pair pair (resize s)
  ]
