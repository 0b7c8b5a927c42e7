-- ===== src/Prelude/Slices.antt =====
-- Laws of `take` and `drop` on byte buffers.
use Prim.Native.Nat.{ℕ, zero, suc, ◌+◌, ◌≤◌, ◌<◌}
use mathlib.Core.Path.{◌≡◌, refl, sym, ap, ◌∙◌}
use mathlib.Core.List.{List, [], ◌∷◌, ◌++◌}
use native.Mathlib.Omega.{arith}
use mathlib.Core.Option.{some}
use quiet_lwip.Prelude.Lists.{get_or, length, take, drop, set, get_elem?}

module _ {ℓ} {A : Type ℓ} where
  pub take-append_length : (xs ys : List A) (n : ℕ) → n ≡ length xs → take n (xs ++ ys) ≡ xs
  take-append_length [] ys zero e = refl
  take-append_length [] ys (suc n) e = absurd (omega arith)
  take-append_length (x ∷ xs) ys zero e = absurd (omega arith)
  take-append_length (x ∷ xs) ys (suc n) e =
      ap (λ r. x ∷ r) (take-append_length xs ys n (omega arith))

  pub drop-append_length :
      (xs ys : List A) (n k : ℕ) → n ≡ length xs + k → drop n (xs ++ ys) ≡ drop k ys
  drop-append_length [] ys n k e = ap (λ m. drop m ys) (omega arith)
  drop-append_length (x ∷ xs) ys zero k e = absurd (omega arith)
  drop-append_length (x ∷ xs) ys (suc n) k e = drop-append_length xs ys n k (omega arith)

  pub drop-nil : (n : ℕ) → drop {A = A} n [] ≡ []
  drop-nil zero = refl
  drop-nil (suc n) = refl

  pub drop-drop : (m n k : ℕ) (xs : List A) → k ≡ m + n → drop n (drop m xs) ≡ drop k xs
  drop-drop zero n k xs e = ap (λ j. drop j xs) (omega arith)
  drop-drop (suc m) n k [] e = drop-nil n ∙ sym (drop-nil k)
  drop-drop (suc m) n zero (x ∷ xs) e = absurd (omega arith)
  drop-drop (suc m) n (suc k) (x ∷ xs) e = drop-drop m n k xs (omega arith)

  pub take-add : (m n k : ℕ) (xs : List A) → k ≡ m + n → take k xs ≡ take m xs ++ take n (drop m xs)
  take-add zero n k xs e = ap (λ j. take j xs) (omega arith)
  take-add (suc m) zero zero xs e = absurd (omega arith)
  take-add (suc m) (suc n) zero xs e = absurd (omega arith)
  take-add (suc m) zero (suc k) [] e = refl
  take-add (suc m) (suc n) (suc k) [] e = refl
  take-add (suc m) n (suc k) (x ∷ xs) e = ap (λ r. x ∷ r) (take-add m n k xs (omega arith))

  pub take_all : (n : ℕ) (xs : List A) → length xs ≤ n → take n xs ≡ xs
  take_all zero [] h = refl
  take_all (suc n) [] h = refl
  take_all zero (x ∷ xs) h = absurd (omega arith)
  take_all (suc n) (x ∷ xs) h = ap (λ r. x ∷ r) (take_all n xs (omega arith))

  pub take-set :
      (xs : List A) (n : ℕ) (a : A)
      → n < length xs
      → take (suc n) (set xs n a) ≡ take n xs ++ (a ∷ [])
  take-set [] n a h = absurd (omega arith)
  take-set (x ∷ xs) zero a h = refl
  take-set (x ∷ xs) (suc n) a h = ap (λ r. x ∷ r) (take-set xs n a (omega arith))

  pub drop-set : (xs : List A) (n : ℕ) (a : A) → drop (suc n) (set xs n a) ≡ drop (suc n) xs
  drop-set [] n a = refl
  drop-set (x ∷ xs) zero a = refl
  drop-set (x ∷ xs) (suc n) a = drop-set xs n a

  pub get_elem?-take :
      (xs : List A) (n i : ℕ) (a : A)
      → get_elem? (take n xs) i ≡ some a
      → (get_elem? xs i ≡ some a) × (i < n)
  get_elem?-take xs zero i a e = cc
  get_elem?-take [] (suc n) i a e = cc
  get_elem?-take (x ∷ xs) (suc n) zero a e = (e, omega arith)
  get_elem?-take (x ∷ xs) (suc n) (suc i) a e =
      let r = get_elem?-take xs n i a e in (r.0, omega (arith, r.1))

  pub take-set_comm : (xs : List A) (n i : ℕ) (a : A) → take n (set xs i a) ≡ set (take n xs) i a
  take-set_comm [] zero i a = refl
  take-set_comm [] (suc n) i a = refl
  take-set_comm (x ∷ xs) zero i a = refl
  take-set_comm (x ∷ xs) (suc n) zero a = refl
  take-set_comm (x ∷ xs) (suc n) (suc i) a = ap (λ r. x ∷ r) (take-set_comm xs n i a)

  pub drop-set_before : (xs : List A) (n i : ℕ) (a : A) → i < n → drop n (set xs i a) ≡ drop n xs
  drop-set_before [] n i a h = refl
  drop-set_before (x ∷ xs) zero i a h = absurd (omega arith)
  drop-set_before (x ∷ xs) (suc n) zero a h = refl
  drop-set_before (x ∷ xs) (suc n) (suc i) a h = drop-set_before xs n i a (omega arith)

  pub next_entry :
      (xs : List A) (i : ℕ) (x : A) (t : List A)
      → drop i xs ≡ x ∷ t
      → (get_elem? xs i ≡ some x) × (drop (suc i) xs ≡ t)
  next_entry [] zero x t e = cc
  next_entry [] (suc i) x t e = cc
  next_entry (y ∷ xs) zero x t e = (cc, cc)
  next_entry (y ∷ xs) (suc i) x t e = next_entry xs i x t e

  pub take-set_behind : (xs : List A) (n i : ℕ) (a : A) → n ≤ i → take n (set xs i a) ≡ take n xs
  take-set_behind xs zero i a h = refl
  take-set_behind [] (suc n) i a h = refl
  take-set_behind (x ∷ xs) (suc n) zero a h = absurd (omega arith)
  take-set_behind (x ∷ xs) (suc n) (suc i) a h =
      ap (λ r. x ∷ r) (take-set_behind xs n i a (omega arith))

  pub get_or-append :
      (xs ys : List A) (n i : ℕ) (d : A) → n ≡ length xs + i → get_or (xs ++ ys) n d ≡ get_or ys i d
  get_or-append [] ys n i d e = ap (λ j. get_or ys j d) (omega arith)
  get_or-append (x ∷ xs) ys zero i d e = absurd (omega arith)
  get_or-append (x ∷ xs) ys (suc n) i d e = get_or-append xs ys n i d (omega arith)
