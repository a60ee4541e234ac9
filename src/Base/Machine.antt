-- ===== src/Base/Machine.antt =====
-- The outcome of running Rust code, and arithmetic on `u64` and `usize` (64 bits both).
use Prim.Native.Nat.{ℕ, ◌+◌, ◌-◌, ◌%◌, ◌^◌, ◌≤◌, ◌<◌}
use mathlib.Core.Path.{◌≡◌, refl, ap}
use mathlib.Core.Option.{Option, none, some}
use native.Mathlib.Omega.{arith}
use rs_dtool.Base.Tests.{ltb, leb, if◌then◌else◌, ◌==◌}

-- A call returns, panics, waits (for a lock that another task holds), or has undefined behaviour
-- (`unreachable_unchecked`).
pub data Exec {ℓ} (A : Type ℓ) : Type ℓ where
  returns : A → Exec A
  panics : Exec A
  waits : Exec A
  undefined : Exec A

infixl 5 ◌>>=◌
abbrev pub ◌>>=◌ {ℓ κ} : {A : Type ℓ} {B : Type κ} → Exec A → (A → Exec B) → Exec B
returns a >>= f = f a
panics >>= f = panics
waits >>= f = waits
undefined >>= f = undefined

-- `Option::unwrap`, and an index that is checked.
abbrev pub unwrap {ℓ} : {A : Type ℓ} → Option A → Exec A
unwrap none = panics
unwrap (some a) = returns a

-- The build profile: with `debug` an overflow panics, with `release` it wraps.
pub data Build : Type 0 where
  debug release : Build

abbrev pub u64_mod : ℕ
u64_mod = 2 ^ 64

abbrev pub add_u64 : Build → ℕ → ℕ → Exec ℕ
add_u64 debug a b = if ltb (a + b) u64_mod then returns (a + b) else panics
add_u64 release a b = returns ((a + b) % u64_mod)

abbrev pub sub_u64 : Build → ℕ → ℕ → Exec ℕ
sub_u64 debug a b = if leb b a then returns (a - b) else panics
sub_u64 release a b = returns ((a + u64_mod - b) % u64_mod)

-- `NonZeroU64::new`, which is also `u64::try_into` with the error dropped.
abbrev pub non_zero : ℕ → Option ℕ
non_zero n = if n == 0 then none else some n

pub add_u64_lem : (b : Build) (x y : ℕ) → x + y < u64_mod → add_u64 b x y ≡ returns (x + y)
add_u64_lem debug x y h = ground arith
add_u64_lem release x y h = ground arith

pub sub_u64_lem : (b : Build) (x y : ℕ) → y ≤ x → x < u64_mod → sub_u64 b x y ≡ returns (x - y)
sub_u64_lem debug x y h k = ground arith
sub_u64_lem release x y h k = ground arith

pub non_zero_lem : (n : ℕ) → 0 < n → non_zero n ≡ some n
non_zero_lem n h = ground arith

pub returns-injective {ℓ} : {A : Type ℓ} {x y : A} → returns x ≡ returns y → x ≡ y
returns-injective h = cc

-- Inversion of a bind that returns.
pub >>=-eq-returns {ℓ κ} :
    {A : Type ℓ} {B : Type κ} (m : Exec A) (f : A → Exec B) {b : B}
    → (m >>= f) ≡ returns b
    → (a : A) × (m ≡ returns a) × (f a ≡ returns b)
>>=-eq-returns (returns a) f h = (a, refl, h)
>>=-eq-returns panics f h = cc
>>=-eq-returns waits f h = cc
>>=-eq-returns undefined f h = cc

pub >>=-returns {ℓ κ} :
    {A : Type ℓ} {B : Type κ} {m : Exec A} {a : A} (f : A → Exec B)
    → m ≡ returns a
    → (m >>= f) ≡ f a
>>=-returns f e = ap (λ n. n >>= f) e

pub >>=-assoc {ℓ κ μ} :
    {A : Type ℓ} {B : Type κ} {C : Type μ} (m : Exec A) (f : A → Exec B) (g : B → Exec C)
    → ((m >>= f) >>= g) ≡ (m >>= λ a. f a >>= g)
>>=-assoc (returns a) f g = refl
>>=-assoc panics f g = refl
>>=-assoc waits f g = refl
>>=-assoc undefined f g = refl

pub >>=-cong {ℓ κ} :
    {A : Type ℓ} {B : Type κ} (m : Exec A) (f g : A → Exec B)
    → ((a : A) → f a ≡ g a)
    → (m >>= f) ≡ (m >>= g)
>>=-cong (returns a) f g e = e a
>>=-cong panics f g e = refl
>>=-cong waits f g e = refl
>>=-cong undefined f g e = refl
