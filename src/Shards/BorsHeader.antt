-- ===== src/Shards/BorsHeader.antt =====
-- shards/borsShardHeader.go: the header of a browser-optimised Reed-Solomon shard, and its bytes.
pub mod RoundTrip
use archoncloud_go.Base.{
  ℕ, ◌+◌, ◌%◌, ◌^◌, ◌<◌, ◌≡◌, List, [], ◌∷◌, ◌++◌, length, leb, ◌==◌, Bool, true, false, Result, ok,
  err, unsupported_version, not_bors_header, unknown_erasure_code, ◌>>=◌, ◌>>◌, guard,
}
use archoncloud_go.Base.Int.{ℤ, IsI64}
use archoncloud_go.Common.Bytes.{
  Bytes, Read, IsByte, read_byte, read_exactly, read_big_endian_int64, big_endian_uint64,
}
use archoncloud_go.Shards.Types.{
  ErasureCodeType, rs_infectious, erasure_code_byte, ShardContainerType,
  browser_optimized_reed_solomon, shard_container_byte, archon_hash_len,
}

abbrev pub bors_cur_version : ℕ
bors_cur_version = 0

pub record BorsShardHeader : Type 0 where
  pub version : ℕ
  pub container : ShardContainerType
  pub erasure_code : ErasureCodeType
  pub total_shards_num : ℕ
  pub needed_shards_num : ℕ
  pub shard_index : ℕ
  pub file_container_data_len : ℤ
  pub file_container_hash : Bytes

-- The arguments are `uint`s, of which the lowest byte is kept.
unfoldable pub new_bors_shard_header : ℕ → ℕ → ℕ → ℤ → Bytes → BorsShardHeader
new_bors_shard_header index total needed fc_len fc_hash = record {
  version = bors_cur_version;
  container = browser_optimized_reed_solomon;
  erasure_code = rs_infectious;
  total_shards_num = total % 256;
  needed_shards_num = needed % 256;
  shard_index = index % 256;
  file_container_data_len = fc_len;
  file_container_hash = fc_hash;
}

unfoldable pub new_bors_header_from_reader : Read BorsShardHeader
new_bors_header_from_reader r0 = do
  (version, r1) ← read_byte r0
  guard (leb version bors_cur_version) (unsupported_version version)
  (styp, r2) ← read_byte r1
  guard (styp == shard_container_byte browser_optimized_reed_solomon) not_bors_header
  (b, r3) ← read_byte r2
  guard (b == erasure_code_byte rs_infectious) (unknown_erasure_code b)
  (total, r4) ← read_byte r3
  (needed, r5) ← read_byte r4
  (index, r6) ← read_byte r5
  (fc_len, r7) ← read_big_endian_int64 r6
  (fc_hash, r8) ← read_exactly archon_hash_len r7
  ok (
    record {
      version = version;
      container = browser_optimized_reed_solomon;
      erasure_code = rs_infectious;
      total_shards_num = total;
      needed_shards_num = needed;
      shard_index = index;
      file_container_data_len = fc_len;
      file_container_hash = fc_hash;
    },
    r8,
  )

unfoldable pub to_bytes : BorsShardHeader → Bytes
to_bytes h =
    (h.version % 256)
    ∷ shard_container_byte h.container
    ∷ erasure_code_byte h.erasure_code
    ∷ (h.total_shards_num % 256)
    ∷ (h.needed_shards_num % 256)
    ∷ (h.shard_index % 256)
    ∷ (big_endian_uint64 h.file_container_data_len ++ h.file_container_hash)

pub record IsValid (h : BorsShardHeader) : Type 0 where
  pub version : h.version ≡ bors_cur_version
  pub container : h.container ≡ browser_optimized_reed_solomon
  pub erasure_code : h.erasure_code ≡ rs_infectious
  pub total : IsByte h.total_shards_num
  pub needed : IsByte h.needed_shards_num
  pub shard_index : IsByte h.shard_index
  pub data_len : IsI64 h.file_container_data_len
  pub hash_len : length h.file_container_hash ≡ archon_hash_len
