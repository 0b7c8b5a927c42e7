-- ===== src/Kv/Values.antt =====
-- The values under a key in an array of examples/src/kv_server.c, in any order of the slots.
use Prim.Native.Nat.{Ordering, eq}
use mathlib.Core.List.{Perm, filter_map, filter_map-append}
use mathlib.Core.List.Perm
use mathlib.Core.Logic.{∥∥₁_elim}
use mathlib.Core.Option.{Option-elim}
use quiet_lwip.Prelude.{
  ℕ, zero, suc, ◌≤◌, ◌≡◌, refl, ap, List, [], ◌∷◌, ◌++◌, Option, none, some, Bool, true, false,
  get_elem?, set, take, length, arith, if◌then◌else◌, ◌⊎◌, inl, inr,
}
use quiet_lwip.Kv.{Pair, memcmp, kv_compare, key_len}

memcmp_refl : (xs : List ℕ) → memcmp xs xs ≡ eq
unfolding memcmp
memcmp_refl [] = refl
memcmp_refl (x ∷ xs) = ground (arith, memcmp_refl xs)

memcmp-eq : (xs ys : List ℕ) → memcmp xs ys ≡ eq → xs ≡ ys
unfolding memcmp
memcmp-eq [] [] e = refl
memcmp-eq [] (y ∷ ys) e = cc
memcmp-eq (x ∷ xs) [] e = cc
memcmp-eq (x ∷ xs) (y ∷ ys) e = ground (arith, memcmp-eq xs ys)

abbrev pub is_eq : Ordering → Bool
is_eq eq = true
is_eq _ = false

abbrev pub same : Pair → Pair → Bool
unfolding kv_compare
same k p = is_eq (kv_compare k p)

-- Two keys compare as equal exactly if their 32 bytes are.
pub same→eq : (k p : Pair) → same k p ≡ true → take key_len k.key ≡ take key_len p.key
unfolding kv_compare
same→eq k p h = memcmp-eq (take key_len k.key) (take key_len p.key) (ground arith)

pub eq→same : (k p : Pair) → take key_len k.key ≡ take key_len p.key → same k p ≡ true
unfolding kv_compare
eq→same k p h = ground (arith, h, memcmp_refl (take key_len p.key))

-- The value of a slot that has the key of `k`.
abbrev pub value_under : Pair → Pair → Option (List ℕ)
value_under k p = if same k p then some p.value else none

-- The values under the key of `k`, in the order of the slots.
abbrev pub values : Pair → List Pair → List (List ℕ)
values k ps = filter_map (value_under k) ps

equation-IsProp : (vs ws : List (List ℕ)) → IsProp (vs ≡ ws)
equation-IsProp vs ws = hlevel

short-Perm : (vs ws : List (List ℕ)) → Perm vs ws → length vs ≤ 1 → vs ≡ ws
short-Perm [] ws p h = Perm.nil-eq p
short-Perm (v ∷ []) [] p h = Perm.eq-nil p
short-Perm (v ∷ []) (w ∷ ws) p h =
    ∥∥₁_elim (Perm.cons-cons_cases p) (equation-IsProp (v ∷ []) (w ∷ ws)) by_cases
  where
    by_cases :
        ((v ≡ w) × Perm [] ws) ⊎ ((cs : List (List ℕ)) × Perm [] (w ∷ cs) × Perm ws (v ∷ cs))
        → v ∷ [] ≡ w ∷ ws
    by_cases (inl (e, q)) = let f = Perm.nil-eq q in cc
    by_cases (inr (cs, q, r)) = let f = Perm.nil-eq q in cc
short-Perm (v ∷ w ∷ vs) ws p h = absurd (omega arith)

-- The order of the slots makes no difference, where the key has one value at most.
pub values-Perm :
    (k : Pair) {ps qs : List Pair}
    → Perm ps qs
    → length (values k ps) ≤ 1
    → values k ps ≡ values k qs
values-Perm k {ps} {qs} p short =
    short-Perm (values k ps) (values k qs) (Perm.filter_map (value_under k) p) short

pub values-append :
    (k : Pair) (ps qs : List Pair) → values k (ps ++ qs) ≡ values k ps ++ values k qs
values-append k ps qs = filter_map-append (value_under k) ps qs

abbrev pub key_bytes : Pair → List ℕ
key_bytes p = take key_len p.key

pub same_right : (k p q : Pair) → key_bytes q ≡ key_bytes p → same k q ≡ same k p
unfolding kv_compare
same_right k p q e = ap (λ bytes. is_eq (memcmp (take key_len k.key) bytes)) e

pub same_left : (k j p : Pair) → key_bytes k ≡ key_bytes j → same k p ≡ same j p
unfolding kv_compare
same_left k j p e = ap (λ bytes. is_eq (memcmp bytes (take key_len p.key))) e

pub values_left :
    (k j : Pair) (ps : List Pair) → key_bytes k ≡ key_bytes j → values k ps ≡ values j ps
unfolding filter_map Option-elim
values_left k j [] e = refl
values_left k j (p ∷ ps) e = ground (arith, same_left k j p e, values_left k j ps e)

-- A slot with the key has the key's only value.
pub values-at :
    (k p : Pair) (ps : List Pair) (i : ℕ)
    → get_elem? ps i ≡ some p
    → same k p ≡ true
    → length (values k ps) ≤ 1
    → values k ps ≡ p.value ∷ []
unfolding filter_map Option-elim
values-at k p [] i e h short = cc
values-at k p (x ∷ ps) zero e h short = ground arith
values-at k p (x ∷ ps) (suc i) e h short = let rest = values-at k p ps i e h in ground (arith, rest)

pub values-none :
    (k : Pair) (ps : List Pair)
    → ((i : ℕ) (p : Pair) → get_elem? ps i ≡ some p → same k p ≡ false)
    → values k ps ≡ []
unfolding filter_map Option-elim
values-none k [] h = refl
values-none k (p ∷ ps) h = ground (arith, h 0 p refl, values-none k ps (λ i. h (suc i)))

-- A slot is given another value under the same key.
pub values-set :
    (k p q : Pair) (ps : List Pair) (i : ℕ)
    → get_elem? ps i ≡ some p
    → key_bytes q ≡ key_bytes p
    → length (values k ps) ≤ 1
    → values k (set ps i q) ≡ (if same k p then q.value ∷ [] else values k ps)
unfolding filter_map Option-elim
values-set k p q [] i e f short = cc
values-set k p q (x ∷ ps) zero e f short = ground (arith, same_right k p q f)
values-set k p q (x ∷ ps) (suc i) e f short =
    let rest = values-set k p q ps i e f in
    let here = values-at k p ps i e in ground (arith, rest, here)
