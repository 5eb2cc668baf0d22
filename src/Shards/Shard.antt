-- ===== src/Shards/Shard.antt =====
-- shards/shardscontainer.go: a shard, its form on the wire, and what a storage provider stores.
-- The hash function and the account's `Sign` are parameters.
pub mod Reading
pub mod Sending
pub mod Storing
pub mod Wire
use archoncloud_go.Base.{
  ℕ, ◌+◌, ◌<◌, ◌≡◌, List, [], ◌∷◌, ◌++◌, length, take, drop, ltb, ◌==◌, if◌then◌else◌, Bool, true,
  false, Result, ok, err, panic, wrong_data_size, insufficient_data, eof, ◌>>=◌, ◌>>◌, guard, zero,
  suc,
}
use archoncloud_go.Base.Int.{ℤ, pos, negsuc, pos_part}
use archoncloud_go.Common.Bytes.{Bytes, Read, read_exactly, big_endian_uint32, checksum_ieee}
use archoncloud_go.Common.Hash.{HashingWriter, new_hashing_writer, write, get_hash}
use archoncloud_go.Shards.Types.{
  ShardContainerType, shard_container_none, browser_optimized_mxor, browser_optimized_reed_solomon,
  archive_optimized_reed_solomon, other_container, shard_container_type, archon_signature_len,
}
use archoncloud_go.Shards.Sizes.{aors_corr_data, aors_corr_parity}
use archoncloud_go.Shards.Erasure.{Infectious, generate_rsi_parity}
use archoncloud_go.Shards.MxorHeader
use archoncloud_go.Shards.MxorHeader.{MxorShardHeader, mark_as_sp, new_mxor_header_from_reader}
use archoncloud_go.Shards.BorsHeader
use archoncloud_go.Shards.Header.{
  ShardHeader, mxor_header, bors_header, aors_header, to_bytes, get_shard_payload_len,
  get_shard_num_bytes, new_shard_header,
}

-- The field `Data` is named `content`.
pub record Shard : Type 0 where
  pub hdr : Bytes
  pub content : Bytes

abbrev pub len : Shard → ℕ
len shard = length shard.hdr + length shard.content

-- The second byte, if there are more than two; a value with no name is none.
abbrev pub known_container : ShardContainerType → ShardContainerType
known_container (other_container b) = shard_container_none
known_container t = t

container_of : Bytes → ShardContainerType
container_of (a ∷ b ∷ c ∷ bs) = known_container (shard_container_type b)
container_of _ = shard_container_none

unfoldable pub get_container_type : Shard → ShardContainerType
unfolding shard_container_type container_of
get_container_type shard = container_of shard.hdr

-- `parity[0]`
abbrev pub first : List Bytes → Result Bytes
first [] = panic
first (p ∷ ps) = ok p

module _ (fec : Infectious) (hash : Bytes → Bytes) (sign : Bytes → Result Bytes) where
  -- The parity share and the CRC that an archive-optimised shard carries behind its data.
  unfoldable pub write_parity : ShardContainerType → Bytes → HashingWriter → Result HashingWriter
  write_parity archive_optimized_reed_solomon content hw = do
    parity ← generate_rsi_parity fec content aors_corr_data aors_corr_parity
    p ← first parity
    let computed_crc = checksum_ieee (content ++ p)
    ok (write (write hw p) (big_endian_uint32 computed_crc))
  write_parity other content hw = ok hw

  -- What is written to `w`: header, data, parity, and the signature of the hash of all that.
  unfoldable pub write_shard_container : Shard → Result Bytes
  unfolding write_parity
  write_shard_container shard = do
    let hw = write (write new_hashing_writer shard.hdr) shard.content
    hw' ← write_parity (get_container_type shard) shard.content hw
    uploader_signature ← sign (get_hash hash hw')
    ok (hw'.to_data ++ uploader_signature)

abbrev pub same_length : ℤ → ℕ → Result (Unit {0})
same_length (pos n) m = guard (n == m) wrong_data_size
same_length (negsuc n) m = err wrong_data_size

module _ (fec : Infectious) where
  -- The header and whether the length of the data is the one that it names.
  unfoldable pub verify_shard_data_size : Shard → Result (Unit {0})
  verify_shard_data_size shard = do
    (hdr, rest) ← new_shard_header fec shard.hdr
    expected ← get_shard_payload_len hdr
    same_length expected (length shard.content)

-- `shardBytes[l : l+n]`, which panics beyond the capacity of the slice: `spare` is what its array has behind
-- its length.
abbrev pub slice : ℕ → ℤ → Bytes → Bytes → Result Bytes
slice l (negsuc n) bs spare = panic
slice l (pos n) bs spare =
    if ltb (length (bs ++ spare)) (l + n) then panic else ok (take n (drop l (bs ++ spare)))

module _ (fec : Infectious) where
  unfoldable pub new_shard_from_sp : Bytes → Bytes → Result Shard
  new_shard_from_sp shard_bytes spare = do
    (hdr, rest) ← new_shard_header fec shard_bytes
    hb ← to_bytes fec hdr
    n ← get_shard_payload_len hdr
    content ← slice (length hb) n shard_bytes spare
    ok (record { hdr = hb; content = content })

-- `r.Read(shard.Data)`: into a buffer of that length, which `make` refuses if it is negative.
abbrev pub read_whole : ℤ → Bytes → Result Bytes
read_whole (negsuc n) r = panic
read_whole (pos n) [] = err eof
read_whole (pos n) (b ∷ r) =
    if length (take n (b ∷ r)) == n then ok (take n (b ∷ r)) else err insufficient_data

unfoldable pub mxor_shard : Bytes → Result Shard
mxor_shard r0 = do
  (hdr, r1) ← new_mxor_header_from_reader r0
  n ← get_shard_payload_len (mxor_header hdr)
  content ← read_whole n r1
  ok (record { hdr = MxorHeader.to_bytes hdr; content = content })

-- What `StoreSPShard` returns, what it has written, and the header, which the mxor method changes.
pub record Stored : Type 0 where
  pub hash : Bytes
  pub uploader_signature : Bytes
  pub written : Bytes
  pub header : ShardHeader

-- `io.Copy` from an `io.LimitedReader`: at most `n` bytes, none if `n` is negative.
abbrev pub copy_limited : ℤ → Bytes → HashingWriter → HashingWriter × Bytes
copy_limited n r hw = (write hw (take (pos_part n) r), drop (pos_part n) r)

module _ (fec : Infectious) (hash : Bytes → Bytes) where
  -- The end that the three methods share: the payload, the hash and the uploader's signature.
  unfoldable pub store_payload : ShardHeader → ℤ → HashingWriter → Bytes → Result Stored
  store_payload h n hw r0 = do
    let (hw', r1) = copy_limited n r0 hw
    (uploader_signature, r2) ← read_exactly archon_signature_len r1
    ok (record {
      hash = get_hash hash hw';
      uploader_signature = uploader_signature;
      written = hw'.to_data;
      header = h;
    })

  -- The mxor method hashes the header as it came and writes it with the provider's mark.
  unfoldable pub store_sp_shard : ShardHeader → Bytes → Result Stored
  unfolding store_payload
  store_sp_shard (mxor_header h) r = do
    let marked = mark_as_sp h
    n ← get_shard_payload_len (mxor_header marked)
    store_payload (mxor_header marked) n
        (record { to_data = MxorHeader.to_bytes marked; to_hash = MxorHeader.to_bytes h }) r
  store_sp_shard (bors_header h) r = do
    n ← get_shard_num_bytes (bors_header h)
    store_payload (bors_header h) n (write new_hashing_writer (BorsHeader.to_bytes h)) r
  store_sp_shard (aors_header h) r = do
    hb ← to_bytes fec (aors_header h)
    n ← get_shard_num_bytes (aors_header h)
    store_payload (aors_header h) n (write new_hashing_writer hb) r

  -- What `uploadShard` does with the body of a request before it signs: the header, then the rest.
  unfoldable pub receive_shard : Bytes → Result Stored
  unfolding store_sp_shard
  receive_shard body = do (hdr, r) ← new_shard_header fec body; store_sp_shard hdr r
