-- ===== src/Kv/Loop/Book.antt =====
-- The store of examples/src/kv_server.c as a map from keys to values.
use mathlib.Core.List.{filter_map}
use quiet_lwip.Prelude.{
  ℕ, ◌≤◌, ◌≡◌, ◌≢◌, length-take, refl, sym, ap, subst, ◌∙◌, List, [], ◌∷◌, some, Bool, true, false,
  length, take, take_all, arith,
}
use quiet_lwip.Kv.{Pair, key_value_init, KeyValue}
use quiet_lwip.Kv.Values.{same, eq→same, same→eq}
use quiet_lwip.Kv.Store.{IsValid, key_value_init-IsValid}
use quiet_lwip.Kv.Replace.{Adds, content}
use quiet_lwip.Kv.Requests.Blocks.{padded, length-padded, pair_of}
use quiet_lwip.Kv.Loop.{equal_keys, Book, lookup}

-- The store is valid, and has under every key what is in the book.
pub record Represents (book : Book) (s : KeyValue) : Type 0 where
  pub valid : IsValid s
  pub same_values : (k : Pair) → length k.key ≡ 32 → content k s ≡ lookup k.key book
  pub no_empty_value : (key : List ℕ) → lookup key book ≢ some []

equal_keys_refl : (key : List ℕ) → equal_keys key key ≡ true
equal_keys_refl [] = refl
equal_keys_refl (b ∷ bs) = ground (arith, equal_keys_refl bs)

equal_keys→eq : (a b : List ℕ) → equal_keys a b ≡ true → a ≡ b
equal_keys→eq [] [] h = refl
equal_keys→eq [] (b ∷ bs) h = cc
equal_keys→eq (a ∷ xs) [] h = cc
equal_keys→eq (a ∷ xs) (b ∷ ys) h = let rest = equal_keys→eq xs ys in ground (arith, rest)

bool-eq : (b c : Bool) → (b ≡ true → c ≡ true) → (c ≡ true → b ≡ true) → b ≡ c
bool-eq true c f g = sym (f refl)
bool-eq false true f g = g refl
bool-eq false false f g = refl

-- The comparison of the store on whole keys.
same-equal_keys :
    (k p : Pair) → length k.key ≡ 32 → length p.key ≡ 32 → same k p ≡ equal_keys k.key p.key
same-equal_keys k p m n =
    bool-eq (same k p) (equal_keys k.key p.key)
      (λ h.
        let e : k.key ≡ p.key =
          sym (take_all 32 k.key (omega (arith, m)))
          ∙ (same→eq k p h ∙ take_all 32 p.key (omega (arith, n))) in
        subst (λ l. equal_keys k.key l ≡ true) e (equal_keys_refl k.key))
      (λ h. eq→same k p (ap (take 32) (equal_keys→eq k.key p.key h)))

-- An addition to the store is an entry of the book.
pub Adds-Represents :
    (book : Book) (s t : KeyValue) (key value : List ℕ)
    → length key ≤ 31
    → length value ≤ 32
    → Represents book s
    → Adds (pair_of key value) s t
    → Represents ((padded key, take 31 (padded value)) ∷ book) t
unfolding lookup
Adds-Represents book s t key value fits value_fits r a = record {
  valid = a.0;
  same_values = λ k size.
      a.1 k
      ∙ ground (
        arith,
        same-equal_keys k (pair_of key value) size (length-padded key (omega arith)),
        r.same_values k size,
      );
  no_empty_value = λ k e.
      let n : length (take 31 (padded value)) ≡ 31 =
        omega (arith, length-take 31 (padded value), length-padded value value_fits) in
      let old = r.no_empty_value k in ground (arith, old);
}

pub empty-Represents : Represents [] key_value_init
unfolding key_value_init lookup filter_map
empty-Represents = record {
  valid = key_value_init-IsValid;
  same_values = λ k size. refl;
  no_empty_value = λ k e. cc;
}
