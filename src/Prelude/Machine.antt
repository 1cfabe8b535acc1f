-- ===== src/Prelude/Machine.antt =====
-- Machine integers: `u64` is a number below 2 ^ 64, `i64` an integer from -2 ^ 63 below 2 ^ 63.
use Prim.Native.Nat.{ℕ, ◌%◌, ◌+◌, ◌-◌, ◌<◌, ◌^◌, ◌≤◌}
use mathlib.Core.Bool.{Bool, ◌&&◌}
use mathlib.Core.Option.{Option, none, some}
use mathlib.Core.Path.{◌≡◌}
use native.Mathlib.Omega.{arith}
use quantoxide.Prelude.Int.{int_laws, neg_part, pos, pos_part, sub_ℕ, ℤ, ◌+ℤ◌, ◌-ℤ◌}
use quantoxide.Prelude.Tests.{if◌then◌else◌, leb, ltb}

abbrev pub u64_mod : ℕ
u64_mod = 2 ^ 64

abbrev pub i64_half : ℕ
i64_half = 2 ^ 63

-- The representative modulo 2 ^ 64 of a difference of numbers.
abbrev pub wrap_parts : ℕ → ℕ → ℤ
wrap_parts p n = let r = (p + i64_half + (u64_mod - n % u64_mod)) % u64_mod in sub_ℕ r i64_half

-- The `i64` that an integer wraps to.
unfoldable pub wrap_i64 : ℤ → ℤ
wrap_i64 z = wrap_parts (pos_part z) (neg_part z)

-- `+`, `-` on i64, as a release build computes them.
abbrev pub i64_add : ℤ → ℤ → ℤ
i64_add a b = wrap_i64 (a +ℤ b)

abbrev pub i64_sub : ℤ → ℤ → ℤ
i64_sub a b = wrap_i64 (a -ℤ b)

-- `as i64` of a u64, and `+` on u64.
abbrev pub as_i64 : ℕ → ℤ
as_i64 n = wrap_i64 (pos n)

abbrev pub u64_add : ℕ → ℕ → ℕ
u64_add a b = (a + b) % u64_mod

-- Whether an integer is an `i64`.
abbrev pub is_i64 : ℤ → Bool
is_i64 z = ltb (pos_part z) i64_half && leb (neg_part z) i64_half

abbrev pub i64_checked : ℤ → Option ℤ
i64_checked z = if is_i64 z then some z else none

abbrev pub u64_checked : ℕ → Option ℕ
u64_checked n = if ltb n u64_mod then some n else none

-- `i64::try_from` of a u64, `-` on i64, and `checked_neg`.
abbrev pub i64_try_from : ℕ → Option ℤ
i64_try_from n = if ltb n i64_half then some (pos n) else none

abbrev pub i64_neg : ℤ → ℤ
i64_neg a = wrap_i64 (pos 0 -ℤ a)

abbrev pub i64_checked_neg : ℤ → Option ℤ
i64_checked_neg a = i64_checked (pos 0 -ℤ a)

-- `as u64` of an i64, and `checked_sub` of u64.
abbrev pub i64_as_u64 : ℤ → ℕ
i64_as_u64 z = (pos_part z + (u64_mod - neg_part z)) % u64_mod

abbrev pub u64_checked_sub : ℕ → ℕ → Option ℕ
u64_checked_sub a b = if ltb a b then none else some (a - b)

pub u64_checked_sub-eq-some :
    (a b : ℕ) {d : ℕ} → u64_checked_sub a b ≡ some d → (b ≤ a) × (d ≡ a - b)
u64_checked_sub-eq-some a b h = ground arith

pub wrap-bounds : (z : ℤ) → (pos_part (wrap_i64 z) < i64_half) × (neg_part (wrap_i64 z) ≤ i64_half)
unfolding wrap_i64
wrap-bounds z = ground arith

-- Wrapping keeps the residue modulo 2 ^ 64.
pub wrap-mod :
    (z : ℤ)
    → (pos_part (wrap_i64 z) + neg_part z) % u64_mod
      ≡ (neg_part (wrap_i64 z) + pos_part z) % u64_mod
unfolding wrap_i64
wrap-mod z = ground arith

pub wrap_of_i64 : (z : ℤ) → pos_part z < i64_half → neg_part z ≤ i64_half → wrap_i64 z ≡ z
wrap_of_i64 z h k = omega (int_laws, wrap-bounds z, wrap-mod z)

pub wrap_add_left : (a b : ℤ) → i64_add (wrap_i64 a) b ≡ i64_add a b
wrap_add_left a b = omega (
  int_laws,
  wrap-bounds (wrap_i64 a +ℤ b),
  wrap-mod (wrap_i64 a +ℤ b),
  wrap-bounds (a +ℤ b),
  wrap-mod (a +ℤ b),
  wrap-mod a,
)

pub i64_checked-eq-some : (z : ℤ) {w : ℤ} → i64_checked z ≡ some w → w ≡ z
i64_checked-eq-some z h = ground arith

pub u64_checked-eq-some : (n : ℕ) {m : ℕ} → u64_checked n ≡ some m → (m ≡ n) × (n < u64_mod)
u64_checked-eq-some n h = ground arith

pub i64_try_from-eq-some : (n : ℕ) {z : ℤ} → i64_try_from n ≡ some z → z ≡ pos n
i64_try_from-eq-some n h = ground arith
