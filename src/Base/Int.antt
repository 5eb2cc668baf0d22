-- ===== src/Base/Int.antt =====
-- Go's `int` and `int64` (both 64 bits wide): integers over the native numbers with the wrap-around
-- of two's complement written out.
use Prim.Native.Nat.{ℕ, suc, ◌+◌, ◌-◌, ◌*◌, ◌/◌, ◌%◌, ◌^◌, ◌≤◌, ◌<◌}
use mathlib.Core.Path.{◌≡◌}
use mathlib.Core.Bool.{Bool}
use native.Mathlib.Omega.{arith}
use archoncloud_go.Base.Tests.{ltb, leb, if◌then◌else◌}

-- `negsuc n` is -(n + 1).
pub data ℤ : Type 0 where
  pos : ℕ → ℤ
  negsuc : ℕ → ℤ

abbrev pub pos_part : ℤ → ℕ
pos_part (pos n) = n
pos_part (negsuc n) = 0

abbrev pub neg_part : ℤ → ℕ
neg_part (pos n) = 0
neg_part (negsuc n) = suc n

-- a - b, as an integer.
abbrev pub sub_ℕ : ℕ → ℕ → ℤ
sub_ℕ a b = if leb b a then pos (a - b) else negsuc (b - a - 1)

abbrev pub ltb_ℤ : ℤ → ℤ → Bool
ltb_ℤ a b = ltb (pos_part a + neg_part b) (pos_part b + neg_part a)

-- The conversions `uint64(x)` and `uint32(x)`.
abbrev pub to_u64 : ℤ → ℕ
to_u64 (pos n) = n % 2 ^ 64
to_u64 (negsuc n) = 2 ^ 64 - 1 - n % 2 ^ 64

abbrev pub to_u32 : ℤ → ℕ
to_u32 (pos n) = n % 2 ^ 32
to_u32 (negsuc n) = 2 ^ 32 - 1 - n % 2 ^ 32

-- The conversions `int64(w)` and `int32(w)` of a word.
abbrev pub to_i64 : ℕ → ℤ
to_i64 w = if ltb w (2 ^ 63) then pos w else negsuc (2 ^ 64 - w - 1)

abbrev pub to_i32 : ℕ → ℤ
to_i32 w = if ltb w (2 ^ 31) then pos w else negsuc (2 ^ 32 - w - 1)

-- The values of `int64` and `int32`.
abbrev pub IsI64 : ℤ → Type 0
IsI64 (pos n) = n < 2 ^ 63
IsI64 (negsuc n) = n < 2 ^ 63

abbrev pub IsI32 : ℤ → Type 0
IsI32 (pos n) = n < 2 ^ 31
IsI32 (negsuc n) = n < 2 ^ 31

-- `a + b`, `a - b` and `a * b` on `int64`.
infixl 65 ◌+ℤ◌ ◌-ℤ◌
infixl 70 ◌*ℤ◌
unfoldable pub ◌+ℤ◌ : ℤ → ℤ → ℤ
a +ℤ b = to_i64 (to_u64 (sub_ℕ (pos_part a + pos_part b) (neg_part a + neg_part b)))

unfoldable pub ◌-ℤ◌ : ℤ → ℤ → ℤ
a -ℤ b = to_i64 (to_u64 (sub_ℕ (pos_part a + neg_part b) (neg_part a + pos_part b)))

unfoldable pub ◌*ℤ◌ : ℤ → ℤ → ℤ
a *ℤ b = to_i64 (
    to_u64 (
      sub_ℕ (pos_part a * pos_part b + neg_part a * neg_part b)
        (pos_part a * neg_part b + neg_part a * pos_part b)))

-- `a / b` for `b` other than 0: Go truncates towards zero. The sign is that of the quotient.
unfoldable pub quot : ℤ → ℤ → ℤ
quot (pos a) (pos b) = pos (a / b)
quot (pos a) (negsuc b) = sub_ℕ 0 (a / suc b)
quot (negsuc a) (pos b) = sub_ℕ 0 (suc a / b)
quot (negsuc a) (negsuc b) = to_i64 (suc a / suc b)

-- A round trip through the word of the same width is the identity on the type's values.
pub to_i64-to_u64 : (x : ℤ) → IsI64 x → to_i64 (to_u64 x) ≡ x
to_i64-to_u64 (pos n) h = ground arith
to_i64-to_u64 (negsuc n) h = ground arith

pub to_i32-to_u32 : (x : ℤ) → IsI32 x → to_i32 (to_u32 x) ≡ x
to_i32-to_u32 (pos n) h = ground arith
to_i32-to_u32 (negsuc n) h = ground arith

pub to_u64-lt : (x : ℤ) → to_u64 x < 2 ^ 64
to_u64-lt (pos n) = omega arith
to_u64-lt (negsuc n) = omega arith

pub to_u32-lt : (x : ℤ) → to_u32 x < 2 ^ 32
to_u32-lt (pos n) = omega arith
to_u32-lt (negsuc n) = omega arith

-- Arithmetic on `int64` values that fit is that of the numbers.
pub +ℤ_pos : (a b : ℕ) → a + b < 2 ^ 63 → pos a +ℤ pos b ≡ pos (a + b)
unfolding ◌+ℤ◌
+ℤ_pos a b h = ground arith

pub -ℤ_pos : (a b : ℕ) → b ≤ a → a < 2 ^ 63 → pos a -ℤ pos b ≡ pos (a - b)
unfolding ◌-ℤ◌
-ℤ_pos a b h k = ground arith

pub *ℤ_pos : (a b : ℕ) → a * b < 2 ^ 63 → pos a *ℤ pos b ≡ pos (a * b)
unfolding ◌*ℤ◌
*ℤ_pos a b h = ground arith
