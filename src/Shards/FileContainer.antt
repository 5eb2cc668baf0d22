-- ===== src/Shards/FileContainer.antt =====
-- shards/filecontainer.go: the container that wraps a file before it is cut into shards.
pub mod Layout
pub mod RoundTrip
pub mod Recover
use archoncloud_go.Base.{
  ℕ, ◌+◌, ◌-◌, ◌%◌, ◌^◌, not, ◌<◌, ◌≡◌, List, [], ◌∷◌, ◌++◌, length, take, drop, ltb, ◌==◌,
  bytes_eq, if◌then◌else◌, Bool, true, false, Result, ok, err, panic, container_too_short,
  header_crc, unknown_file_container, hash_mismatch, ◌>>=◌, ◌>>◌, guard,
}
use archoncloud_go.Base.Int.{ℤ, pos, negsuc, ltb_ℤ, to_u64, to_i64, ◌-ℤ◌}
use archoncloud_go.Common.Bytes.{Bytes, byte_at, crc32, big_endian_uint32}
use archoncloud_go.Common.Numbers.{divide_round_up}
use archoncloud_go.Common.Hash.{HashingWriter, new_hashing_writer, write, get_hash}
use archoncloud_go.Shards.Types.{
  FileContainerType, no_container, browser_optimized, archive_optimized, other_file_container,
  file_container_type, file_container_byte, ShardContainerType, archive_optimized_reed_solomon,
  archon_signature_len,
}
use archoncloud_go.Shards.Erasure.{Infectious, generate_rsi_parity_4_5, generate_rsi_parity_25_26}
use archoncloud_go.Shards.Header.{ShardHeader, get_file_container_len, get_file_container_hash}

abbrev pub crc32_len : ℕ
crc32_len = 4

abbrev pub redundacy_len : ℕ
redundacy_len = 4

abbrev pub file_container_common_hdr_len : ℕ
file_container_common_hdr_len = 4

-- The fields that go into the bytes; `Size` is never set.
pub record FileContainer : Type 0 where
  pub version : ℕ
  pub container : FileContainerType
  pub encryption_type : ℕ
  pub compression_type : ℕ

-- What `CreateContainerBytes` gives: the bytes, and the fields `Signature` and `Hash` that it sets.
pub record Created : Type 0 where
  pub bytes : Bytes
  pub signature : Bytes
  pub hash : Bytes

abbrev pub hdr_len : FileContainerType → ℕ
hdr_len browser_optimized = file_container_common_hdr_len
hdr_len archive_optimized = file_container_common_hdr_len + 1 + crc32_len
hdr_len _ = 0

abbrev pub tai_len : FileContainerType → ℕ
tai_len browser_optimized = redundacy_len + archon_signature_len
tai_len archive_optimized = crc32_len + archon_signature_len
tai_len _ = 0

unfoldable pub pay_load_end : FileContainerType → ℤ → Result ℤ
pay_load_end browser_optimized fc_len = ok (fc_len -ℤ pos (tai_len browser_optimized))
pay_load_end archive_optimized fc_len = do
  let payload_and_parity = fc_len -ℤ pos (hdr_len archive_optimized + tai_len archive_optimized)
  parity_len ← divide_round_up (to_u64 payload_and_parity) 26
  ok (fc_len -ℤ to_i64 parity_len -ℤ pos (tai_len archive_optimized))
pay_load_end other fc_len = ok (pos 0)

-- The container that goes with a shards container's type.
abbrev pub new_file_container : ShardContainerType → FileContainer
new_file_container archive_optimized_reed_solomon = record {
  version = 0;
  container = archive_optimized;
  encryption_type = 0;
  compression_type = 0;
}
new_file_container other = record {
  version = 0;
  container = browser_optimized;
  encryption_type = 0;
  compression_type = 0;
}

abbrev pub header_bytes : FileContainer → Bytes
header_bytes f =
    (f.version % 256)
    ∷ file_container_byte f.container
    ∷ (f.encryption_type % 256)
    ∷ (f.compression_type % 256)
    ∷ []

-- `p, _ := …`: where there is an error the slice is nil.
abbrev pub or_nil : Result Bytes → Result Bytes
or_nil (ok p) = ok p
or_nil (err e) = ok []
or_nil panic = panic

-- `s[:n]`, which panics on a shorter slice.
abbrev pub prefix_of : ℕ → Bytes → Result Bytes
prefix_of n bs = if ltb (length bs) n then panic else ok (take n bs)

-- `s[lo:hi]`, which panics out of range.
abbrev pub slice_range : ℕ → ℤ → Bytes → Result Bytes
slice_range lo (negsuc hi) bs = panic
slice_range lo (pos hi) bs =
    if ltb hi lo
    then panic
    else if ltb (length bs) hi
    then panic
    else ok (take (hi - lo) (drop lo bs))

module _ (fec : Infectious) (hash : Bytes → Bytes) (sign : Bytes → Result Bytes) where
  -- Parity and CRC of the header, for an archive-optimised container.
  unfoldable pub write_header_check :
      FileContainerType → Bytes → HashingWriter → Result HashingWriter
  write_header_check archive_optimized hdr w = do
    p ← or_nil (generate_rsi_parity_4_5 fec hdr)
    let w' = write w p
    ok (write w' (crc32 w'.to_data))
  write_header_check other hdr w = ok w

  -- `uint32(Size&0xFFFF)` is what is hashed of the size.
  unfoldable pub redundancy_check : Bytes → ℕ → Result Bytes
  redundancy_check hdr size =
      prefix_of redundacy_len (hash (hdr ++ big_endian_uint32 (size % 2 ^ 16)))

  unfoldable pub write_tail_check :
      FileContainerType → Bytes → ℕ → HashingWriter → Result HashingWriter
  unfolding redundancy_check
  write_tail_check archive_optimized hdr start_of_payload w = do
    p ← or_nil (generate_rsi_parity_25_26 fec (drop start_of_payload w.to_data))
    let w' = write w p
    ok (write w' (crc32 (drop start_of_payload w'.to_data)))
  write_tail_check other hdr start_of_payload w = do
    r ← redundancy_check hdr (length w.to_data + redundacy_len + archon_signature_len)
    ok (write w r)

  unfoldable pub create_container_bytes : FileContainer → Bytes → Result Created
  unfolding write_header_check write_tail_check
  create_container_bytes f payload = do
    let hdr = header_bytes f
    w1 ← write_header_check f.container hdr (write new_hashing_writer hdr)
    let w2 = write w1 payload
    w3 ← write_tail_check f.container hdr (length w1.to_data) w2
    sig ← sign (get_hash hash w3)
    let w4 = write w3 sig
    ok (record { bytes = w4.to_data; signature = sig; hash = get_hash hash w4 })

-- The checks of the header by the container's type.
abbrev pub check_container_header : FileContainerType → Bytes → Result (Unit {0})
check_container_header browser_optimized container = ok tt
check_container_header archive_optimized container = do
  head ← prefix_of 5 container
  crc ← slice_range 5 (pos (5 + crc32_len)) container
  guard (bytes_eq (crc32 head) crc) header_crc
check_container_header other container = err (unknown_file_container (file_container_byte other))

-- `container[:n]` for an `int64`.
abbrev pub prefix_ℤ : ℤ → Bytes → Result Bytes
prefix_ℤ n bs = slice_range 0 n bs

module _ (hash : Bytes → Bytes) where
  -- `hdr` is the header of the first shard that is there.
  unfoldable pub get_original_data_from_container : ShardHeader → Bytes → Result Bytes
  get_original_data_from_container hdr container = do
    let container_len = get_file_container_len hdr
    guard (not (ltb_ℤ (pos (length container)) container_len)) container_too_short
    b ← byte_at container 1
    let fct = file_container_type b
    guard (not (ltb (length container) (hdr_len fct))) container_too_short
    check_container_header fct container
    origin ← prefix_ℤ container_len container
    guard (bytes_eq (hash origin) (get_file_container_hash hdr)) hash_mismatch
    end ← pay_load_end fct container_len
    slice_range (hdr_len fct) end container
