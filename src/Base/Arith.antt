-- ===== src/Base/Arith.antt =====
-- Division and rounding up, by a divisor that is not fixed.
use Prim.Native.Nat.{ℕ, zero, suc, ◌+◌, ◌-◌, ◌*◌, ◌/◌, ◌%◌, ◌≤◌, ◌<◌}
use mathlib.Core.Path.{◌≡◌, refl, sym, ap, ◌∙◌}
use mathlib.Core.Logic.{◌⊎◌, inl, inr}
use native.Mathlib.Omega.{arith}
use Prim.Native.Nat.{bit_or}
use mathlib.Core.Bool.{Bool, true, false}
use archoncloud_go.Base.Tests.{ltb, ltb→lt, if◌then◌else◌}
use native.Mathlib.Nat.{
  div-eq_of_lt-le, div-mul-le_self, lt-div-mul-add, div-add-mod', mod-lt, mod-eq_of_lt, mod_self,
  mul-div_left,
}

pub div_unique : (m q k : ℕ) → q * k ≤ m → m < q * k + k → m / k ≡ q
div_unique m q k lo hi = div-eq_of_lt-le k lo (omega arith)

-- The quotient rounded up: the least number of `k`s that covers `m`.
pub ceil-bounds : (m k : ℕ) → 0 < k → (m ≤ (m + k - 1) / k * k) × ((m + k - 1) / k * k < m + k)
ceil-bounds m k h =
    let lo = div-mul-le_self (m + k - 1) k in
    let hi = lt-div-mul-add {a = m + k - 1} h in (omega arith, omega arith)

-- A multiple of `k` in the last stretch before `m + k` is the rounded one.
pub ceil_unique : (m k q : ℕ) → 0 < k → m ≤ q * k → q * k < m + k → (m + k - 1) / k ≡ q
ceil_unique m k q h lo hi = div_unique (m + k - 1) q k (omega arith) (omega arith)

pub ceil-multiple : (q k : ℕ) → 0 < k → (q * k + k - 1) / k ≡ q
ceil-multiple q k h = ceil_unique (q * k) k q h (omega arith) (omega arith)

pub eq_or_pos : (n : ℕ) → (n ≡ 0) ⊎ (0 < n)
eq_or_pos zero = inl refl
eq_or_pos (suc n) = inr (omega arith)

-- The padding up to a multiple of `k`.
pub pad-eq : (m k : ℕ) → 0 < k → m + (k - m % k) % k ≡ (m + k - 1) / k * k
pad-eq m k h = elim (eq_or_pos (m % k)) [
  | inl z ↦
      let e = div-add-mod' m k in
      let whole : m / k * k ≡ m = omega arith in
      let c = ceil_unique m k (m / k) h (omega arith) (omega arith) in
      let k0 : k - 0 ≡ k = omega arith in rw (c, z, k0, mod_self k) (omega arith)
  | inr p ↦
      let e = div-add-mod' m k in
      let lt = mod-lt m h in
      let next : (m / k + 1) * k ≡ m / k * k + k = omega arith in
      let c = ceil_unique m k (m / k + 1) h (omega arith) (omega arith) in
      let s : k - m % k < k = omega arith in rw (c, mod-eq_of_lt s) (omega arith)
]

pub mul_cancel : (a b k : ℕ) → 0 < k → a * k ≡ b * k → a ≡ b
mul_cancel a b k h e = sym (mul-div_left a h) ∙ ap (λ (t : ℕ). t / k) e ∙ mul-div_left b h

-- A test on all numbers under a bound.
holds_under : (ℕ → Bool) → ℕ → Bool
holds_under test zero = true
holds_under test (suc bound) = if test bound then holds_under test bound else false

holds_under_lem :
    (test : ℕ → Bool) (bound i : ℕ) → holds_under test bound ≡ true → i < bound → test i ≡ true
unfolding holds_under
holds_under_lem test zero i e h = absurd (omega arith)
holds_under_lem test (suc bound) i e h = ground (arith, holds_under_lem test bound i)

top_bit_fits : holds_under (λ b. ltb (bit_or b 0x80) 256) 256 ≡ true
unfolding holds_under
top_bit_fits = refl

-- Setting the top bit of a byte gives a byte.
pub bit_or-lt : (x : ℕ) → x < 256 → bit_or x 0x80 < 256
bit_or-lt x h = ltb→lt _ _ (holds_under_lem _ 256 x top_bit_fits h)
