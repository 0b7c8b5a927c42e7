-- ===== src/Prelude/Effects.antt =====
-- What a C call comes to: a value, a wait that nothing ends, or undefined behaviour.
use Prim.Native.Nat.{ℕ, ◌+◌, ◌^◌}
use quiet_lwip.Prelude.Tests.{ltb, if◌then◌else◌}

-- `blocked`: the call waits on a semaphore that nobody signals meanwhile.
-- `fault`: the code has undefined behaviour there (signed overflow, an access out of bounds).
pub data Outcome {ℓ} (A : Type ℓ) : Type ℓ where
  done : A → Outcome A
  blocked : Outcome A
  fault : Outcome A

infixl 5 ◌>>=◌ ◌>>◌
abbrev pub ◌>>=◌ {ℓ κ} : {A : Type ℓ} {B : Type κ} → Outcome A → (A → Outcome B) → Outcome B
done a >>= f = f a
blocked >>= f = blocked
fault >>= f = fault

abbrev pub ◌>>◌ {ℓ} : {B : Type ℓ} → Outcome (Unit {0}) → Outcome B → Outcome B
m >> k = m >>= λ _. k

-- Addition of two `int`s that are not negative: overflow is undefined.
unfoldable pub add_int : ℕ → ℕ → Outcome ℕ
add_int a b = if ltb (a + b) (2 ^ 31) then done (a + b) else fault

-- The call returns, and what it returns satisfies `P`.
abbrev pub Ensures {ℓ} : {A : Type ℓ} → Outcome A → (A → Type 0) → Type 0
Ensures (done a) P = P a
Ensures blocked P = ⊥
Ensures fault P = ⊥

pub Ensures-bind {ℓ κ} :
    {A : Type ℓ} {B : Type κ} (m : Outcome A) (f : A → Outcome B) (P : A → Type 0) (Q : B → Type 0)
    → Ensures m P
    → ((a : A) → P a → Ensures (f a) Q)
    → Ensures (m >>= f) Q
Ensures-bind (done a) f P Q h k = k a h
Ensures-bind blocked f P Q h k = absurd h
Ensures-bind fault f P Q h k = absurd h

pub Ensures-map {ℓ} :
    {A : Type ℓ} (m : Outcome A) (P Q : A → Type 0)
    → Ensures m P
    → ((a : A) → P a → Q a)
    → Ensures m Q
Ensures-map (done a) P Q h k = k a h
Ensures-map blocked P Q h k = absurd h
Ensures-map fault P Q h k = absurd h

pub Ensures-both {ℓ} :
    {A : Type ℓ} (m : Outcome A) (P Q : A → Type 0)
    → Ensures m P
    → Ensures m Q
    → Ensures m (λ a. P a × Q a)
Ensures-both (done a) P Q h k = (h, k)
Ensures-both blocked P Q h k = h
Ensures-both fault P Q h k = h
