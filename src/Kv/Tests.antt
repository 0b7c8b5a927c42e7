-- ===== src/Kv/Tests.antt =====
-- The theorems on the store of examples/src/kv_server.c with a linear search and an insertion sort for
-- the C library's.
mod Requests
use Prim.Native.Nat.{Ordering, lt, eq, gt}
use mathlib.Core.List.{Perm}
use mathlib.Core.List.Perm
use quiet_lwip.Prelude.{
  ℕ, zero, suc, ◌≡◌, ◌≢◌, ◌⊎◌, inl, inr, refl, List, [], ◌∷◌, Option, none, some, map_some,
  get_elem?, length, replicate, arith, Ensures, take,
}
use quiet_lwip.Kv.{
  Pair, Library, Documented, Sorted, memcmp, kv_compare, key_value_init, key_value_add, items,
  key_len,
}
use quiet_lwip.Kv.Values.{values}
use quiet_lwip.Kv.Store.{key_value_init-IsValid, find_value, first, key_value_find_lem}
use quiet_lwip.Kv.Replace.{IsPair, Adds}
use quiet_lwip.Kv.Add.{key_value_add_lem}

unfoldable linear_search : Pair → List Pair → Option ℕ
linear_search k [] = none
linear_search k (p ∷ ps) =
    let rest = linear_search k ps in elim (kv_compare k p) [ eq ↦ some 0 | _ ↦ map_some suc rest ]

unfoldable insert_sorted : Pair → List Pair → List Pair
insert_sorted p [] = p ∷ []
insert_sorted p (q ∷ ps) =
    let rest = insert_sorted p ps in elim (kv_compare p q) [ gt ↦ q ∷ rest | _ ↦ p ∷ q ∷ ps ]

unfoldable insertion_sort : List Pair → List Pair
insertion_sort [] = []
insertion_sort (p ∷ ps) = insert_sorted p (insertion_sort ps)

abbrev simple_library : Library
simple_library = record { bsearch = linear_search; qsort = insertion_sort }

Ordering-cases : (o : Ordering) → (o ≡ gt) ⊎ (o ≢ gt)
Ordering-cases lt = inr λ e. cc
Ordering-cases eq = inr λ e. cc
Ordering-cases gt = inl refl

memcmp-flip : (xs ys : List ℕ) → memcmp xs ys ≡ gt → memcmp ys xs ≢ gt
unfolding memcmp
memcmp-flip [] [] e f = cc
memcmp-flip [] (y ∷ ys) e f = cc
memcmp-flip (x ∷ xs) [] e f = cc
memcmp-flip (x ∷ xs) (y ∷ ys) e f = ground (arith, memcmp-flip xs ys)

compare-flip : (p q : Pair) → kv_compare p q ≡ gt → kv_compare q p ≢ gt
unfolding kv_compare
compare-flip p q e = memcmp-flip (take key_len p.key) (take key_len q.key) e

insert_behind :
    (p q : Pair) (ps : List Pair)
    → kv_compare p q ≡ gt
    → Sorted (q ∷ ps)
    → Sorted (q ∷ insert_sorted p ps)
unfolding insert_sorted
insert_behind p q [] e h = (compare-flip p q e, tt)
insert_behind p q (r ∷ ps) e h =
    let rest = insert_behind p r ps in
    let flipped = compare-flip p q e in ground (arith, rest, flipped)

insert_sorted-Sorted : (p : Pair) (ps : List Pair) → Sorted ps → Sorted (insert_sorted p ps)
unfolding insert_sorted
insert_sorted-Sorted p [] h = tt
insert_sorted-Sorted p (q ∷ ps) h = let behind = insert_behind p q ps in ground (arith, behind)

insertion_sort-Sorted : (ps : List Pair) → Sorted (insertion_sort ps)
unfolding insertion_sort
insertion_sort-Sorted [] = tt
insertion_sort-Sorted (p ∷ ps) =
    insert_sorted-Sorted p (insertion_sort ps) (insertion_sort-Sorted ps)

insert_sorted-perm : (p : Pair) (ps : List Pair) → Perm (insert_sorted p ps) (p ∷ ps)
unfolding insert_sorted
insert_sorted-perm p [] = Perm.refl (p ∷ [])
insert_sorted-perm p (q ∷ ps) = by_order (kv_compare p q) (insert_sorted-perm p ps)
  where
    by_order :
        (o : Ordering)
        → Perm (insert_sorted p ps) (p ∷ ps)
        → Perm (elim o [ gt ↦ q ∷ insert_sorted p ps | _ ↦ p ∷ q ∷ ps ]) (p ∷ q ∷ ps)
    by_order gt rest = Perm.trans (Perm.cons q rest) (Perm.swap p q ps)
    by_order lt rest = Perm.refl (p ∷ q ∷ ps)
    by_order eq rest = Perm.refl (p ∷ q ∷ ps)

insertion_sort-perm : (ps : List Pair) → Perm (insertion_sort ps) ps
unfolding insertion_sort
insertion_sort-perm [] = Perm.refl []
insertion_sort-perm (p ∷ ps) =
    Perm.trans (insert_sorted-perm p (insertion_sort ps)) (Perm.cons p (insertion_sort-perm ps))

length-insert_sorted : (p : Pair) (ps : List Pair) → length (insert_sorted p ps) ≡ suc (length ps)
unfolding insert_sorted
length-insert_sorted p [] = refl
length-insert_sorted p (q ∷ ps) = ground (arith, length-insert_sorted p ps)

length-insertion_sort : (ps : List Pair) → length (insertion_sort ps) ≡ length ps
unfolding insertion_sort
length-insertion_sort [] = refl
length-insertion_sort (p ∷ ps) =
    ground (arith, length-insert_sorted p (insertion_sort ps), length-insertion_sort ps)

later :
    (P : Pair → Type 0) (p : Pair) (ps : List Pair) {i : ℕ} (found : Option ℕ)
    → ((j : ℕ) → found ≡ some j → (q : Pair) × (get_elem? ps j ≡ some q) × P q)
    → map_some suc found ≡ some i
    → (q : Pair) × (get_elem? (p ∷ ps) i ≡ some q) × P q
later P p ps none rest f = cc
later P p ps {i = zero} (some j) rest f = ground arith
later P p ps {i = suc n} (some j) rest f =
    let (q, at, h) = rest j refl in (q, ground (arith, at, f), h)

linear_search-found :
    (k : Pair) (ps : List Pair) (i : ℕ)
    → linear_search k ps ≡ some i
    → (p : Pair) × (get_elem? ps i ≡ some p) × (kv_compare k p ≡ eq)
unfolding linear_search
linear_search-found k [] i e = cc
linear_search-found k (p ∷ ps) i e = by_order (kv_compare k p) refl (linear_search-found k ps) e
  where
    by_order :
        (o : Ordering)
        → kv_compare k p ≡ o
        → ((j : ℕ)
            → linear_search k ps ≡ some j
            → (q : Pair) × (get_elem? ps j ≡ some q) × (kv_compare k q ≡ eq))
        → elim o [ eq ↦ some 0 | _ ↦ map_some suc (linear_search k ps) ] ≡ some i
        → (q : Pair) × (get_elem? (p ∷ ps) i ≡ some q) × (kv_compare k q ≡ eq)
    by_order eq c rest f = (p, ground (arith, f), c)
    by_order lt c rest f = later (λ q. kv_compare k q ≡ eq) p ps (linear_search k ps) rest f
    by_order gt c rest f = later (λ q. kv_compare k q ≡ eq) p ps (linear_search k ps) rest f

linear_search-missing :
    (k : Pair) (ps : List Pair) (i : ℕ) (p : Pair)
    → linear_search k ps ≡ none
    → get_elem? ps i ≡ some p
    → kv_compare k p ≢ eq
unfolding linear_search
linear_search-missing k [] i p e at same = cc
linear_search-missing k (q ∷ ps) zero p e at same = ground arith
linear_search-missing k (q ∷ ps) (suc i) p e at same =
    ground (arith, linear_search-missing k ps i p)

simple-Documented : Documented simple_library
simple-Documented = record {
  found = λ k ps i h e. linear_search-found k ps i e;
  missing = λ k ps i p h e at. linear_search-missing k ps i p e at;
  qsort-Perm = insertion_sort-perm;
  length-qsort = length-insertion_sort;
  qsort-Sorted = insertion_sort-Sorted;
}

-- "a" = "b"
abbrev letter : Pair
letter = record { key = 97 ∷ replicate 31 0; value = 98 ∷ replicate 31 0 }

letter-IsPair : IsPair letter
letter-IsPair = record { key_size = refl; key_end = refl; value_size = refl }

key_value_add_lem_example :
    Ensures (key_value_add simple_library letter key_value_init) (Adds letter key_value_init)
key_value_add_lem_example =
    key_value_add_lem simple-Documented letter key_value_init letter-IsPair key_value_init-IsValid
