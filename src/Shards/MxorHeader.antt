-- ===== src/Shards/MxorHeader.antt =====
-- shards/mxorShardHeader.go: the header of a browser-optimised mxor shard, and its bytes.
pub mod RoundTrip
use archoncloud_go.Base.{
  ℕ, ◌+◌, ◌%◌, ◌^◌, ◌<◌, ◌≡◌, List, [], ◌∷◌, ◌++◌, length, leb, ◌==◌, Bool, true, false,
  if◌then◌else◌, Result, ok, err, unsupported_version, not_mxor_header, unknown_erasure_code, ◌>>=◌,
  ◌>>◌, guard,
}
use archoncloud_go.Common.Bytes.{
  Bytes, Read, IsByte, read_byte, read_exactly, read_big_endian_uint32, big_endian_uint32,
}
use archoncloud_go.Shards.Types.{
  ErasureCodeType, mxor_2_6, erasure_code_byte, ShardContainerType, browser_optimized_mxor,
  shard_container_byte, archon_hash_len,
}
use Prim.Native.Nat.{bit_or}

abbrev pub mxor_cur_version : ℕ
mxor_cur_version = 0

abbrev pub sp_header_marker : ℕ
sp_header_marker = 0x80

-- `ShardIndex` is an `int` that the code sets from a slice's index or from a byte.
pub record MxorShardHeader : Type 0 where
  pub version : ℕ
  pub container : ShardContainerType
  pub flags : ℕ
  pub erasure_code : ErasureCodeType
  pub shard_index : ℕ
  pub file_container_data_len : ℕ
  pub file_container_hash : Bytes

unfoldable pub new_mxor_shard_header : ℕ → ℕ → Bytes → MxorShardHeader
new_mxor_shard_header index fc_len fc_hash = record {
  version = mxor_cur_version;
  container = browser_optimized_mxor;
  flags = 0;
  erasure_code = mxor_2_6;
  shard_index = index;
  file_container_data_len = fc_len;
  file_container_hash = fc_hash;
}

-- `ShardContainerType(styp) != BrowserOptimizedMxor` and `ErasureCodeType(ec) != Mxor_2_6` compare
-- the bytes with 0 and 2.
unfoldable pub new_mxor_header_from_reader : Read MxorShardHeader
new_mxor_header_from_reader r0 = do
  (version, r1) ← read_byte r0
  guard (leb version mxor_cur_version) (unsupported_version version)
  (styp, r2) ← read_byte r1
  guard (styp == shard_container_byte browser_optimized_mxor) not_mxor_header
  (flags, r3) ← read_byte r2
  (ec, r4) ← read_byte r3
  guard (ec == erasure_code_byte mxor_2_6) (unknown_erasure_code ec)
  (ix, r5) ← read_byte r4
  (fc_len, r6) ← read_big_endian_uint32 r5
  (fc_hash, r7) ← read_exactly archon_hash_len r6
  ok (
    record {
      version = version;
      container = browser_optimized_mxor;
      flags = flags;
      erasure_code = mxor_2_6;
      shard_index = ix;
      file_container_data_len = fc_len;
      file_container_hash = fc_hash;
    },
    r7,
  )

unfoldable pub to_bytes : MxorShardHeader → Bytes
to_bytes h =
    (h.version % 256)
    ∷ shard_container_byte h.container
    ∷ (h.flags % 256)
    ∷ erasure_code_byte h.erasure_code
    ∷ (h.shard_index % 256)
    ∷ (big_endian_uint32 h.file_container_data_len ++ h.file_container_hash)

-- The header that the storage provider writes: one bit of the flags is set.
unfoldable pub mark_as_sp : MxorShardHeader → MxorShardHeader
mark_as_sp h = record h { flags = bit_or h.flags sp_header_marker }

-- A header that the program builds: its fields in the range of their bytes.
pub record IsValid (h : MxorShardHeader) : Type 0 where
  pub version : h.version ≡ mxor_cur_version
  pub container : h.container ≡ browser_optimized_mxor
  pub flags : IsByte h.flags
  pub erasure_code : h.erasure_code ≡ mxor_2_6
  pub shard_index : IsByte h.shard_index
  pub data_len : h.file_container_data_len < 2 ^ 32
  pub hash_len : length h.file_container_hash ≡ archon_hash_len
