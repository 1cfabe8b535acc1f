-- ===== src/Prelude/Tests.antt =====
-- Boolean tests on the native numbers, the conditional, and results that may be errors.
use Prim.Native.Nat.{Ordering, compare, ℕ}
use mathlib.Core.Bool.{Bool, false, true}
use mathlib.Core.Logic.{inl, inr, ◌⊎◌}
use mathlib.Core.Option.{Option, none, some}
use mathlib.Core.Path.{refl, ◌≡◌}

abbrev pub ltb : ℕ → ℕ → Bool
ltb a b = elim (compare a b) [ Ordering.lt ↦ true | _ ↦ false ]

abbrev pub leb : ℕ → ℕ → Bool
leb a b = elim (compare a b) [ Ordering.gt ↦ false | _ ↦ true ]

infix 50 ◌==◌
abbrev pub ◌==◌ : ℕ → ℕ → Bool
a == b = elim (compare a b) [ Ordering.eq ↦ true | _ ↦ false ]

infix 1 if◌then◌else◌
abbrev pub if◌then◌else◌ {ℓ} : {A : Type ℓ} → Bool → A → A → A
if true then x else y = x
if false then x else y = y

pub Bool-cases : (b : Bool) → (b ≡ true) ⊎ (b ≡ false)
Bool-cases true = inl refl
Bool-cases false = inr refl

pub Option-cases {ℓ} : {A : Type ℓ} (o : Option A) → (o ≡ none) ⊎ ((a : A) × (o ≡ some a))
Option-cases none = inl refl
Option-cases (some a) = inr (a, refl)

-- A Rust `Result`.
pub data Result {ℓ κ} (A : Type ℓ) (E : Type κ) : Type (ℓ ⊔ κ) where
  ok : A → Result A E
  err : E → Result A E

infixl 5 ◌>>=◌
abbrev pub ◌>>=◌ {ℓ κ μ} :
    {A : Type ℓ} {B : Type κ} {E : Type μ} → Result A E → (A → Result B E) → Result B E
ok a >>= f = f a
err e >>= f = err e

-- `map_err`
abbrev pub map_err {ℓ κ μ} :
    {A : Type ℓ} {E : Type κ} {F : Type μ} → (E → F) → Result A E → Result A F
map_err f (ok a) = ok a
map_err f (err e) = err (f e)

-- `ok_or`
abbrev pub ok_or {ℓ κ} : {A : Type ℓ} {E : Type κ} → Option A → E → Result A E
ok_or none e = err e
ok_or (some a) e = ok a

-- `unwrap_or`
abbrev pub unwrap_or {ℓ} : {A : Type ℓ} → Option A → A → A
unwrap_or none d = d
unwrap_or (some a) d = a

pub Result-cases {ℓ κ} :
    {A : Type ℓ} {E : Type κ} (r : Result A E) → ((a : A) × (r ≡ ok a)) ⊎ ((e : E) × (r ≡ err e))
Result-cases (ok a) = inl (a, refl)
Result-cases (err e) = inr (e, refl)

-- Inversion of a bind that gave a value: of any result, of `ok_or` and of a renamed error.
pub split_bind {ℓ κ μ ν} :
    {A : Type ℓ} {B : Type κ} {E : Type μ} {G : Type ν} (m : Result A E) (f : A → Result B E)
    {b : B}
    → (m >>= f) ≡ ok b
    → ((a : A) → m ≡ ok a → f a ≡ ok b → G)
    → G
split_bind (ok a) f h k = k a refl h
split_bind (err e) f h k = cc

pub split_ok_or {ℓ κ μ ν} :
    {A : Type ℓ} {B : Type κ} {E : Type μ} {G : Type ν} (o : Option A) (e : E) (f : A → Result B E)
    {b : B}
    → (ok_or o e >>= f) ≡ ok b
    → ((a : A) → o ≡ some a → f a ≡ ok b → G)
    → G
split_ok_or none e f h k = cc
split_ok_or (some a) e f h k = k a refl h

pub split_map_err {ℓ κ μ ν o} :
    {A : Type ℓ} {B : Type κ} {E : Type μ} {F : Type ν} {G : Type o} (g : E → F) (r : Result A E)
    (f : A → Result B F) {b : B}
    → (map_err g r >>= f) ≡ ok b
    → ((a : A) → r ≡ ok a → f a ≡ ok b → G)
    → G
split_map_err g (ok a) f h k = k a refl h
split_map_err g (err e) f h k = cc

pub some_inj {ℓ} : {A : Type ℓ} {a b : A} → some a ≡ some b → a ≡ b
some_inj h = cc

pub ok_inj {ℓ κ} : {A : Type ℓ} {E : Type κ} {a b : A} → ◌≡◌ {A = Result A E} (ok a) (ok b) → a ≡ b
ok_inj h = cc

pub ok_or-eq-ok {ℓ κ} :
    {A : Type ℓ} {E : Type κ} (o : Option A) (e : E) {a : A} → ok_or o e ≡ ok a → o ≡ some a
ok_or-eq-ok none e h = cc
ok_or-eq-ok (some b) e h = cc

-- An error is no value.
pub err_no_value {ℓ κ} :
    {A : Type ℓ} {E : Type κ} {e : E} {a : A} (b : A) → ◌≡◌ {A = Result A E} (err e) (ok a) → b ≡ a
err_no_value b h = cc

pub err_absurd {ℓ κ μ} :
    {A : Type ℓ} {E : Type κ} {G : Type μ} {e : E} {a : A} → ◌≡◌ {A = Result A E} (err e) (ok a) → G
err_absurd h = cc

-- A guard that let a computation go on.
pub guard_passed {ℓ κ} :
    {A : Type ℓ} {E : Type κ} (b : Bool) (e : E) (a : A) {u : A}
    → ◌≡◌ {A = Result A E} (if b then err e else ok a) (ok u)
    → b ≡ false
guard_passed true e a h = err_absurd h
guard_passed false e a h = refl
