-- ===== src/Shards/Sizes/Exact.antt =====
-- The lengths of shards against plain arithmetic, where `int64` does not overflow.
use archoncloud_go.Base.{
  ℕ, zero, suc, ◌+◌, ◌-◌, ◌*◌, ◌/◌, ◌%◌, ◌^◌, ◌≤◌, ◌<◌, ◌≡◌, refl, ok, arith, ap, lt→ltb,
}
use archoncloud_go.Base.Arith.{ceil-bounds}
use archoncloud_go.Base.Int.{pos, quot, +ℤ_pos, -ℤ_pos}
use archoncloud_go.Common.Numbers.Rounding.{round_up-ok}
use archoncloud_go.Shards.Types.{browser_optimized_mxor, archive_optimized_reed_solomon}
use archoncloud_go.Shards.Erasure.{get_reed_solomon_share_size}
use archoncloud_go.Shards.Sizes.{get_shard_data_len}

-- The number of bytes of a share, rounded up.
abbrev pub share : ℕ → ℕ → ℕ
share n k = (n + k - 1) / k

pub share_size-ok :
    (n k : ℕ)
    → 0 < k
    → n + k < 2 ^ 63
    → get_reed_solomon_share_size (pos n) (pos k) ≡ ok (pos (share n k))
unfolding get_reed_solomon_share_size
share_size-ok n zero h lt = absurd (omega arith)
share_size-ok n (suc k) h lt =
    rw (+ℤ_pos n (suc k) lt, -ℤ_pos (n + suc k) 1 (omega arith) (omega arith)) (unfold quot in refl)

-- For a length n with n + 6 < 2^63, `GetShardDataLen` of an mxor shard is half of n rounded up to
-- a multiple of six.
pub mxor_data_len-ok :
    (n : ℕ)
    → n + 6 < 2 ^ 63
    → get_shard_data_len (pos n) browser_optimized_mxor (pos 2) ≡ ok (pos (share n 6 * 3))
unfolding get_shard_data_len
mxor_data_len-ok n lt =
    let small : n % 2 ^ 64 ≡ n = omega arith in
    let b = ceil-bounds n 6 (omega arith) in
    rw (small, round_up-ok n 6 (omega arith) (omega arith))
      (unfold quot in
        rw (lt→ltb (share n 6 * 6) (2 ^ 63) (omega arith))
          (ap (λ (t : ℕ). ok (pos t)) (omega arith)))

-- For a positive number k of required shards and a length n with n + k < 2^62, `GetShardDataLen`
-- of an archive-optimised shard is the length of a share (n / k rounded up), a parity byte for
-- every 25 of its bytes begun, and four bytes of CRC.
pub aors_data_len-ok :
    (n k : ℕ)
    → 0 < k
    → n + k < 2 ^ 62
    → get_shard_data_len (pos n) archive_optimized_reed_solomon (pos k)
      ≡ ok (pos (share n k + share (share n k) 25 + 4))
unfolding get_shard_data_len
aors_data_len-ok n k h lt =
    let s : share n k ≤ n + k = omega arith in
    let p : share (share n k) 25 ≤ n + k + 25 = omega arith in
    rw (
      share_size-ok n k h (omega arith),
      share_size-ok (share n k) 25 (omega arith) (omega arith),
      +ℤ_pos (share n k) (share (share n k) 25) (omega arith),
      +ℤ_pos (share n k + share (share n k) 25) 4 (omega arith),
    )
