-- ===== src/Shards/Mxor.antt =====
-- shards/mxor.go: the Go side of the mxor codec. The C functions are parameters, from and to blocks of
-- memory; `none` is the null pointer. `malloc` is taken to succeed, and a read past a block panics.
use archoncloud_go.Base.{
  ℕ, zero, suc, ◌^◌, List, [], ◌∷◌, ◌++◌, length, take, drop, ltb, ◌==◌, if◌then◌else◌, Option,
  none, some, Result, ok, err, panic, too_large, unknown_erasure_code, foreign, shards_differ,
  ◌>>=◌, ◌>>◌, guard, not,
}
use archoncloud_go.Common.Bytes.{Bytes, big_endian_uint32, from_big_endian}
use archoncloud_go.Shards.Types.{
  ErasureCodeType, mxor_2_3, mxor_2_4, mxor_2_6, mxor_2_7, erasure_code_byte,
}

pub record MxorCodec : Type 0 where
  pub mxor_encode : Bytes → ErasureCodeType → Option Bytes
  pub mxor_decode : Bytes → ℕ → Bytes → ℕ → ErasureCodeType → Option Bytes

abbrev pub data_len_bytes : ℕ
data_len_bytes = 4

unfoldable pub num_shards : ErasureCodeType → ℕ
num_shards mxor_2_3 = 2
num_shards mxor_2_4 = 4
num_shards mxor_2_6 = 6
num_shards mxor_2_7 = 7
num_shards _ = 0

unfoldable pub encoded_data_len : ℕ → Bytes
encoded_data_len data_len = big_endian_uint32 data_len

unfoldable pub decoded_data_len : Bytes → Result ℕ
decoded_data_len u =
    if ltb (length u) data_len_bytes then panic else ok (from_big_endian 0 (take data_len_bytes u))

-- `&data[0]` panics if there is no byte.
abbrev pub not_empty : Bytes → Result (Unit {0})
not_empty [] = panic
not_empty (b ∷ bs) = ok tt

abbrev pub read_block : ℕ → Bytes → Result Bytes
read_block n s = if ltb (length s) n then panic else ok (take n s)

abbrev pub not_null : Option Bytes → Result Bytes
not_null none = err foreign
not_null (some block) = ok block

-- Each shard is its length and that many bytes.
unfoldable pub separate_shards : ℕ → Bytes → Result (List Bytes)
unfolding decoded_data_len
separate_shards zero s = ok []
separate_shards (suc n) s = do
  blen ← decoded_data_len s
  buf ← read_block blen (drop data_len_bytes s)
  not_empty buf
  rest ← separate_shards n (drop blen (drop data_len_bytes s))
  ok (buf ∷ rest)

module _ (c : MxorCodec) where
  unfoldable pub encode_mxor : Bytes → ErasureCodeType → Result (List Bytes)
  unfolding num_shards encoded_data_len separate_shards
  encode_mxor content code = do
    guard (ltb (length content) (2 ^ 32)) too_large
    guard (not (num_shards code == 0)) (unknown_erasure_code (erasure_code_byte code))
    not_empty content
    block ← not_null (c.mxor_encode (encoded_data_len (length content) ++ content) code)
    separate_shards (num_shards code) block

  unfoldable pub decode_mxor : Bytes → ℕ → Bytes → ℕ → ErasureCodeType → Result Bytes
  unfolding encoded_data_len decoded_data_len
  decode_mxor shard1 ix1 shard2 ix2 code = do
    let size = encoded_data_len (length shard1)
    guard (length shard1 == length shard2) shards_differ
    not_empty shard1
    not_empty shard2
    block ← not_null (c.mxor_decode (size ++ shard1) ix1 (size ++ shard2) ix2 code)
    data_len ← decoded_data_len block
    content ← read_block data_len (drop data_len_bytes block)
    not_empty content
    ok content
