-- ===== src/Tests/Witnesses.antt =====
-- The theorems on concrete inputs.
use archoncloud_go.Base.{
  ℕ, ◌<◌, ◌≡◌, refl, [], ◌∷◌, ◌++◌, length, replicate, inl, inr, ok, arith, Result, true, false,
  panic, ltb→lt,
}
use archoncloud_go.Base.Int.{pos, ◌+ℤ◌, ◌-ℤ◌, quot}
use archoncloud_go.Common.Bytes.{
  Bytes, crc32, checksum_ieee, extended_slice_to_multiple_of, read_big_endian_int64,
  read_big_endian_uint32, read_byte, read_big_endian_int32,
}
use archoncloud_go.Shards.Types.{
  browser_optimized_mxor, archive_optimized_reed_solomon, shard_container_byte, rs_infectious,
}
use archoncloud_go.Shards.Erasure.{
  generate_rsi_parity_4_5, generate_rsi_parity_25_26, get_reed_solomon_share_size,
}
use archoncloud_go.Shards.AorsHeader.{
  AorsShardHeader, new_aors_shard_header, new_aor_header_from_reader, aors_sh_from_reader,
}
use archoncloud_go.Shards.AorsHeader
use archoncloud_go.Shards.AorsHeader.RoundTrip.{new_aor_header_from_reader-to_bytes}
use archoncloud_go.Shards.AorsHeader.Damaged.{new_aor_header_damaged}
use archoncloud_go.Shards.Header.{
  aors_header, to_bytes, new_shard_header, get_container_type, get_shard_payload_len,
}
use archoncloud_go.Shards.Header.RoundTrip.{IsTagged, new_shard_header-to_bytes}
use archoncloud_go.Shards.Shard.Wire.{IsDelivered, shard-IsDelivered}
use archoncloud_go.Shards.FileContainer.{
  Created, new_file_container, create_container_bytes, get_original_data_from_container,
}
use archoncloud_go.Shards.FileContainer.Recover.{get_original-create}
use archoncloud_go.Shards.Container.{
  ShardsContainer, new_aors, aors_encode, new_bors, bors_encode, rs_decode,
}
use archoncloud_go.Shards.Container.Masks.{masked}
use archoncloud_go.Shards.Container.Recover.Aors.{aors_decode-encode}
use archoncloud_go.Shards.Container.Recover.Bors.{bors_decode-encode}
use archoncloud_go.Tests.Instances.{
  repetition, repetition_code, repetition_recovers, constant_hash, constant_sign,
  length-constant_hash, constant_sign-ok,
}

abbrev pub payload : Bytes
payload = 104 ∷ 105 ∷ 33 ∷ []

abbrev or_empty : Result Created → Created
or_empty (ok c) = c
or_empty _ = record { bytes = []; signature = []; hash = [] }

pub archive : Created
unfolding create_container_bytes
archive = or_empty (
    create_container_bytes repetition constant_hash constant_sign
      (new_file_container archive_optimized_reed_solomon) payload)

pub archive_made :
    create_container_bytes repetition constant_hash constant_sign
      (new_file_container archive_optimized_reed_solomon)
      payload
    ≡ ok archive
unfolding archive create_container_bytes generate_rsi_parity_4_5 extended_slice_to_multiple_of
    generate_rsi_parity_25_26 crc32
archive_made = refl

browser : Created
unfolding create_container_bytes
browser = or_empty (
    create_container_bytes repetition constant_hash constant_sign
      (new_file_container browser_optimized_mxor) payload)

browser_made :
    create_container_bytes repetition constant_hash constant_sign
      (new_file_container browser_optimized_mxor)
      payload
    ≡ ok browser
unfolding browser create_container_bytes
browser_made = refl

aors_decode-encode_example :
    (sc : ShardsContainer) × (sc' : ShardsContainer) × (new_aors (pos 2) (pos 1) ≡ ok sc)
    × (aors_encode repetition (record sc { file_container_hash = archive.hash }) archive.bytes
        ≡ ok sc')
    × (rs_decode repetition constant_hash
          (record sc' { shards = masked (false ∷ true ∷ []) sc'.shards })
        ≡ ok payload)
aors_decode-encode_example =
    aors_decode-encode repetition repetition_code constant_hash length-constant_hash constant_sign
      constant_sign-ok 1 2 (repetition_recovers 2) (omega arith) (omega arith) (omega arith)
      (new_file_container archive_optimized_reed_solomon) payload archive (false ∷ true ∷ [])
      (inr refl) (omega arith) archive_made refl (omega arith)

bors_decode-encode_example :
    (sc : ShardsContainer) × (sc' : ShardsContainer) × (new_bors (pos 3) (pos 1) ≡ ok sc)
    × (bors_encode repetition (record sc { file_container_hash = browser.hash }) browser.bytes
        ≡ ok sc')
    × (rs_decode repetition constant_hash
          (record sc' { shards = masked (false ∷ true ∷ true ∷ []) sc'.shards })
        ≡ ok payload)
bors_decode-encode_example =
    bors_decode-encode repetition repetition_code constant_hash length-constant_hash constant_sign
      constant_sign-ok 1 3 (repetition_recovers 3) (omega arith) (omega arith) (omega arith)
      (new_file_container browser_optimized_mxor) payload browser (false ∷ true ∷ true ∷ [])
      (inl refl) (omega arith) browser_made refl (omega arith)

abbrev pub digest : Bytes
digest = replicate 32 9

abbrev pub aors_hdr : AorsShardHeader
aors_hdr = record {
  version = 0;
  container = archive_optimized_reed_solomon;
  erasure_code = rs_infectious;
  total_shards_num = pos 26;
  needed_shards_num = pos 7;
  shard_index = pos 3;
  file_container_len = pos 20;
  file_container_hash = digest;
}

pub aors_hdr-IsValid : AorsHeader.IsValid aors_hdr
aors_hdr-IsValid = record {
  version = refl;
  container = refl;
  erasure_code = refl;
  total = omega arith;
  needed = omega arith;
  shard_index = omega arith;
  data_len = omega arith;
  hash_len = refl;
}

pub aors_payload_len : get_shard_payload_len (aors_header aors_hdr) ≡ ok (pos 3)
unfolding get_shard_payload_len get_reed_solomon_share_size ◌+ℤ◌ ◌-ℤ◌ quot
aors_payload_len = refl

shard-IsDelivered_example :
    IsDelivered repetition constant_hash constant_sign (aors_header aors_hdr) payload
shard-IsDelivered_example =
    shard-IsDelivered repetition repetition_code constant_hash constant_sign constant_sign-ok
      (aors_header aors_hdr) payload aors_hdr-IsValid aors_payload_len (omega arith)

get_original-create_example :
    get_original_data_from_container constant_hash
      (aors_header (record aors_hdr {
        file_container_len = pos (length archive.bytes);
        file_container_hash = archive.hash;
      }))
      (archive.bytes ++ 0 ∷ 0 ∷ [])
    ≡ ok payload
get_original-create_example =
    get_original-create repetition repetition_code constant_hash length-constant_hash constant_sign
      constant_sign-ok (new_file_container archive_optimized_reed_solomon) payload (0 ∷ 0 ∷ [])
      archive
      (aors_header (record aors_hdr {
        file_container_len = pos (length archive.bytes);
        file_container_hash = archive.hash;
      }))
      (inr refl) (omega arith) archive_made refl refl

new_shard_header-to_bytes_example :
    (hb : Bytes) × (to_bytes repetition (aors_header aors_hdr) ≡ ok hb)
    × IsTagged (shard_container_byte (get_container_type (aors_header aors_hdr))) hb
    × ((rest : Bytes) → new_shard_header repetition (hb ++ rest) ≡ ok (aors_header aors_hdr, rest))
new_shard_header-to_bytes_example =
    new_shard_header-to_bytes repetition repetition_code (aors_header aors_hdr) aors_hdr-IsValid

new_aor_header_from_reader-to_bytes_example :
    (hb : Bytes) × (AorsHeader.to_bytes repetition aors_hdr ≡ ok hb)
    × (length hb ≡ 62)
    × ((c : ℕ) × (tail : Bytes) × (hb ≡ 0 ∷ 2 ∷ c ∷ tail))
    × ((rest : Bytes) → new_aor_header_from_reader repetition (hb ++ rest) ≡ ok (aors_hdr, rest))
new_aor_header_from_reader-to_bytes_example =
    new_aor_header_from_reader-to_bytes repetition repetition_code aors_hdr aors_hdr-IsValid

abbrev damaged_head : Bytes
damaged_head =
    0
    ∷ 2
    ∷ 4
    ∷ 0
    ∷ 0
    ∷ 0
    ∷ 26
    ∷ 0
    ∷ 0
    ∷ 0
    ∷ 7
    ∷ 0
    ∷ 0
    ∷ 0
    ∷ 3
    ∷ 0
    ∷ 0
    ∷ 0
    ∷ 0
    ∷ 0
    ∷ 0
    ∷ 0
    ∷ 20
    ∷ (digest ++ 1 ∷ 1 ∷ 1 ∷ [])

damaged_read :
    aors_sh_from_reader (damaged_head ++ 0 ∷ 0 ∷ 0 ∷ 0 ∷ [])
    ≡ ok ((aors_hdr, damaged_head), 0 ∷ 0 ∷ 0 ∷ 0 ∷ [])
unfolding aors_sh_from_reader read_byte read_big_endian_int32 read_big_endian_int64
damaged_read = refl

damaged_crc_read : read_big_endian_uint32 (0 ∷ 0 ∷ 0 ∷ 0 ∷ []) ≡ ok (0, [])
unfolding read_big_endian_uint32
damaged_crc_read = refl

damaged_checksum : 0 < checksum_ieee damaged_head
unfolding checksum_ieee
damaged_checksum = ltb→lt 0 (checksum_ieee damaged_head) refl

damaged_differs : ¬ (0 ≡ checksum_ieee damaged_head)
damaged_differs e = absurd (omega (arith, damaged_checksum))

new_aor_header_damaged_example :
    new_aor_header_from_reader repetition (damaged_head ++ 0 ∷ 0 ∷ 0 ∷ 0 ∷ []) ≡ panic
new_aor_header_damaged_example =
    new_aor_header_damaged repetition repetition_code (damaged_head ++ 0 ∷ 0 ∷ 0 ∷ 0 ∷ [])
      (0 ∷ 0 ∷ 0 ∷ 0 ∷ []) [] damaged_head aors_hdr 0 damaged_read damaged_crc_read damaged_differs
