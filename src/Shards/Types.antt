-- ===== src/Shards/Types.antt =====
-- shards/shardscontainer.go, filecontainer.go: the codes that name erasure codes and containers.
use archoncloud_go.Base.{ℕ, ◌==◌, if◌then◌else◌}
use Prim.Native.String.{String}

-- `type ErasureCodeType int8`. `other_code` is a value with no name, by its byte.
pub data ErasureCodeType : Type 0 where
  erasure_code_none mxor_2_3 mxor_2_4 mxor_2_6 mxor_2_7 rs_infectious : ErasureCodeType
  other_code : ℕ → ErasureCodeType

-- The conversion of a byte.
unfoldable pub erasure_code_type : ℕ → ErasureCodeType
erasure_code_type b =
    if b == 0
    then mxor_2_3
    else if b == 1
    then mxor_2_4
    else if b == 2
    then mxor_2_6
    else if b == 3
    then mxor_2_7
    else if b == 4
    then rs_infectious
    else if b == 255
    then erasure_code_none
    else other_code b

-- The conversion to a byte.
abbrev pub erasure_code_byte : ErasureCodeType → ℕ
erasure_code_byte erasure_code_none = 255
erasure_code_byte mxor_2_3 = 0
erasure_code_byte mxor_2_4 = 1
erasure_code_byte mxor_2_6 = 2
erasure_code_byte mxor_2_7 = 3
erasure_code_byte rs_infectious = 4
erasure_code_byte (other_code b) = b

unfoldable pub erasure_code_string : ErasureCodeType → String
erasure_code_string mxor_2_3 = "mxor_2_3"
erasure_code_string mxor_2_4 = "mxor_2_4"
erasure_code_string mxor_2_6 = "mxor_2_6"
erasure_code_string mxor_2_7 = "mxor_2_7"
erasure_code_string rs_infectious = "RSinfectious"
erasure_code_string _ = "?"

-- `type ShardContainerType int8`.
pub data ShardContainerType : Type 0 where
  shard_container_none browser_optimized_mxor : ShardContainerType
  browser_optimized_reed_solomon archive_optimized_reed_solomon : ShardContainerType
  other_container : ℕ → ShardContainerType

unfoldable pub shard_container_type : ℕ → ShardContainerType
shard_container_type b =
    if b == 0
    then browser_optimized_mxor
    else if b == 1
    then browser_optimized_reed_solomon
    else if b == 2
    then archive_optimized_reed_solomon
    else if b == 255
    then shard_container_none
    else other_container b

abbrev pub shard_container_byte : ShardContainerType → ℕ
shard_container_byte shard_container_none = 255
shard_container_byte browser_optimized_mxor = 0
shard_container_byte browser_optimized_reed_solomon = 1
shard_container_byte archive_optimized_reed_solomon = 2
shard_container_byte (other_container b) = b

unfoldable pub shard_container_string : ShardContainerType → String
shard_container_string browser_optimized_mxor = "bo_mxor"
shard_container_string browser_optimized_reed_solomon = "bo_RS"
shard_container_string archive_optimized_reed_solomon = "ao_RS"
shard_container_string _ = "?"

-- `type FileContainerType uint8`.
pub data FileContainerType : Type 0 where
  no_container browser_optimized archive_optimized : FileContainerType
  other_file_container : ℕ → FileContainerType

unfoldable pub file_container_type : ℕ → FileContainerType
file_container_type b =
    if b == 0
    then no_container
    else if b == 1
    then browser_optimized
    else if b == 2
    then archive_optimized
    else other_file_container b

abbrev pub file_container_byte : FileContainerType → ℕ
file_container_byte no_container = 0
file_container_byte browser_optimized = 1
file_container_byte archive_optimized = 2
file_container_byte (other_file_container b) = b

-- common/types.go and hash.go
abbrev pub archon_signature_len : ℕ
archon_signature_len = 65

abbrev pub archon_hash_len : ℕ
archon_hash_len = 32
