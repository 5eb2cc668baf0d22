-- ===== src/Shards/Sizes.antt =====
-- shards/shardscontainer.go: the lengths of shards, as `int64`.
pub mod Exact
use archoncloud_go.Base.{ℕ, ◌+◌, ◌≡◌, Result, ok, err, unknown_erasure_code, ◌>>=◌}
use archoncloud_go.Base.Int.{ℤ, pos, to_u64, to_i64, ◌+ℤ◌, quot}
use archoncloud_go.Common.Numbers.{round_up}
use archoncloud_go.Shards.Types.{
  ShardContainerType, browser_optimized_mxor, browser_optimized_reed_solomon,
  archive_optimized_reed_solomon, shard_container_byte, archon_signature_len,
}
use archoncloud_go.Shards.Erasure.{get_reed_solomon_share_size}

abbrev pub bo_mxor_num_required : ℕ
bo_mxor_num_required = 2

abbrev pub bo_mxor_num_total : ℕ
bo_mxor_num_total = 6

-- `aorsCorrData` and `aorsCorrParity`
abbrev pub aors_corr_data : ℕ
aors_corr_data = 25

abbrev pub aors_corr_parity : ℕ
aors_corr_parity = 1

unfoldable pub get_shard_data_len : ℤ → ShardContainerType → ℤ → Result ℤ
get_shard_data_len file_len browser_optimized_mxor num_required = do
  rounded ← round_up (to_u64 file_len) bo_mxor_num_total
  ok (quot (to_i64 rounded) (pos bo_mxor_num_required))
get_shard_data_len file_len browser_optimized_reed_solomon num_required =
    get_reed_solomon_share_size file_len num_required
get_shard_data_len file_len archive_optimized_reed_solomon num_required = do
  l ← get_reed_solomon_share_size file_len num_required
  p ← get_reed_solomon_share_size l (pos aors_corr_data)
  ok (l +ℤ p +ℤ pos 4)
get_shard_data_len file_len other num_required =
    err (unknown_erasure_code (shard_container_byte other))

-- What `GetShardTotalLen` adds for the header.
abbrev pub header_allowance : ShardContainerType → ℕ
header_allowance browser_optimized_mxor = 41
header_allowance browser_optimized_reed_solomon = 46
header_allowance archive_optimized_reed_solomon = 55
header_allowance _ = 0

unfoldable pub get_shard_total_len : ℤ → ShardContainerType → ℤ → Result ℤ
unfolding get_shard_data_len
get_shard_total_len file_len container num_required = do
  ln ← get_shard_data_len file_len container num_required
  ok (ln +ℤ pos (header_allowance container) +ℤ pos archon_signature_len)
