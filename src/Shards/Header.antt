-- ===== src/Shards/Header.antt =====
-- shards/shardscontainer.go: the interface `ShardHeader`, as the sum of its three implementations.
pub mod RoundTrip
use archoncloud_go.Base.{
  ℕ, ◌≡◌, [], ◌∷◌, Result, ok, err, panic, unknown_shard_container, ◌>>=◌, Option,
}
use archoncloud_go.Base.Int.{ℤ, pos}
use archoncloud_go.Common.Bytes.{Bytes, Read, read_byte}
use archoncloud_go.Shards.Types.{
  ErasureCodeType, ShardContainerType, browser_optimized_mxor, browser_optimized_reed_solomon,
  archive_optimized_reed_solomon, shard_container_type,
}
use archoncloud_go.Shards.Erasure.{Infectious, get_reed_solomon_share_size}
use archoncloud_go.Shards.Sizes.{get_shard_data_len, bo_mxor_num_total, bo_mxor_num_required}
use archoncloud_go.Shards.MxorHeader
use archoncloud_go.Shards.BorsHeader
use archoncloud_go.Shards.AorsHeader

pub data ShardHeader : Type 0 where
  mxor_header : MxorHeader.MxorShardHeader → ShardHeader
  bors_header : BorsHeader.BorsShardHeader → ShardHeader
  aors_header : AorsHeader.AorsShardHeader → ShardHeader

abbrev pub get_container_type : ShardHeader → ShardContainerType
get_container_type (mxor_header h) = browser_optimized_mxor
get_container_type (bors_header h) = h.container
get_container_type (aors_header h) = archive_optimized_reed_solomon

abbrev pub get_erasure_code : ShardHeader → ErasureCodeType
get_erasure_code (mxor_header h) = h.erasure_code
get_erasure_code (bors_header h) = h.erasure_code
get_erasure_code (aors_header h) = h.erasure_code

abbrev pub get_num_total : ShardHeader → ℤ
get_num_total (mxor_header h) = pos bo_mxor_num_total
get_num_total (bors_header h) = pos h.total_shards_num
get_num_total (aors_header h) = h.total_shards_num

abbrev pub get_num_required : ShardHeader → ℤ
get_num_required (mxor_header h) = pos bo_mxor_num_required
get_num_required (bors_header h) = pos h.needed_shards_num
get_num_required (aors_header h) = h.needed_shards_num

abbrev pub get_shard_index : ShardHeader → ℤ
get_shard_index (mxor_header h) = pos h.shard_index
get_shard_index (bors_header h) = pos h.shard_index
get_shard_index (aors_header h) = h.shard_index

abbrev pub get_file_container_len : ShardHeader → ℤ
get_file_container_len (mxor_header h) = pos h.file_container_data_len
get_file_container_len (bors_header h) = h.file_container_data_len
get_file_container_len (aors_header h) = h.file_container_len

abbrev pub get_file_container_hash : ShardHeader → Bytes
get_file_container_hash (mxor_header h) = h.file_container_hash
get_file_container_hash (bors_header h) = h.file_container_hash
get_file_container_hash (aors_header h) = h.file_container_hash

abbrev pub to_bytes : Infectious → ShardHeader → Result Bytes
to_bytes fec (mxor_header h) = ok (MxorHeader.to_bytes h)
to_bytes fec (bors_header h) = ok (BorsHeader.to_bytes h)
to_bytes fec (aors_header h) = AorsHeader.to_bytes fec h

-- `l, _ := …`: an error is dropped, and the length is then 0.
abbrev pub or_zero : Result ℤ → Result ℤ
or_zero (ok l) = ok l
or_zero (err e) = ok (pos 0)
or_zero panic = panic

unfoldable pub get_shard_num_bytes : ShardHeader → Result ℤ
get_shard_num_bytes h =
    or_zero
      (get_shard_data_len (get_file_container_len h) (get_container_type h) (get_num_required h))

unfoldable pub get_shard_payload_len : ShardHeader → Result ℤ
unfolding get_shard_num_bytes
get_shard_payload_len (mxor_header h) = get_shard_num_bytes (mxor_header h)
get_shard_payload_len (bors_header h) =
    get_reed_solomon_share_size h.file_container_data_len (pos h.needed_shards_num)
get_shard_payload_len (aors_header h) =
    get_reed_solomon_share_size h.file_container_len h.needed_shards_num

-- The header is read from the start again, by the reader for the type.
unfoldable pub read_header_of : Infectious → ShardContainerType → ℕ → Read ShardHeader
read_header_of fec browser_optimized_mxor b r = do
  (h, r') ← MxorHeader.new_mxor_header_from_reader r
  ok (mxor_header h, r')
read_header_of fec browser_optimized_reed_solomon b r = do
  (h, r') ← BorsHeader.new_bors_header_from_reader r
  ok (bors_header h, r')
read_header_of fec archive_optimized_reed_solomon b r = do
  (h, r') ← AorsHeader.new_aor_header_from_reader fec r
  ok (aors_header h, r')
read_header_of fec other b r = err (unknown_shard_container b)

unfoldable pub new_shard_header : Infectious → Read ShardHeader
unfolding read_header_of
new_shard_header fec r0 = do
  (first, r1) ← read_byte r0
  (container, r2) ← read_byte r1
  read_header_of fec (shard_container_type container) container r0

-- The headers that the program builds.
abbrev pub IsValid : ShardHeader → Type 0
IsValid (mxor_header h) = MxorHeader.IsValid h
IsValid (bors_header h) = BorsHeader.IsValid h
IsValid (aors_header h) = AorsHeader.IsValid h
