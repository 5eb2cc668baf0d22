-- ===== src/Common/Numbers/Rounding.antt =====
-- The rounding functions of common/utils.go against plain arithmetic.
use archoncloud_go.Base.{ℕ, ◌+◌, ◌-◌, ◌*◌, ◌/◌, ◌^◌, ◌<◌, ◌≡◌, arith, ok}
use archoncloud_go.Common.Numbers.{divide_round_up, round_up}

-- Without overflow, the quotient rounded up is the least number of divisors that covers the numerator.
pub divide_round_up-ok :
    (n d : ℕ) → 0 < d → n + d < 2 ^ 64 → divide_round_up n d ≡ ok ((n + d - 1) / d)
unfolding divide_round_up
divide_round_up-ok n d p h = ground arith

pub round_up-ok : (n m : ℕ) → 0 < m → n + m < 2 ^ 64 → round_up n m ≡ ok ((n + m - 1) / m * m)
unfolding round_up
round_up-ok n m p h = ground arith
