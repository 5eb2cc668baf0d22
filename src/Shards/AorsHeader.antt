-- ===== src/Shards/AorsHeader.antt =====
-- shards/aorsShardHeader.go: the header of an archive-optimised Reed-Solomon shard. Its bytes end in
-- a parity share and a CRC, and the reader tries to correct a header whose CRC does not match.
pub mod RoundTrip
pub mod Damaged
use archoncloud_go.Base.{
  ℕ, ◌+◌, ◌-◌, ◌%◌, ◌^◌, ◌<◌, ◌≡◌, List, [], ◌∷◌, ◌++◌, length, take, drop, leb, ◌==◌, Bool, true,
  false, if◌then◌else◌, Result, ok, err, panic, Error, unsupported_version, not_aors_header,
  unknown_erasure_code, could_not_correct, ◌>>=◌, ◌>>◌, guard,
}
use archoncloud_go.Base.Int.{ℤ, to_u32, IsI32, IsI64}
use archoncloud_go.Common.Bytes.{
  Bytes, Read, IsByte, read_byte, read_exactly, read_big_endian_uint32, read_big_endian_int32,
  read_big_endian_int64, big_endian_uint32, big_endian_uint64, checksum_ieee, crc32,
}
use archoncloud_go.Shards.Types.{
  ErasureCodeType, rs_infectious, erasure_code_byte, ShardContainerType,
  archive_optimized_reed_solomon, shard_container_byte, archon_hash_len,
}
use archoncloud_go.Shards.Sizes.{aors_corr_data, aors_corr_parity}
use archoncloud_go.Shards.Erasure.{Infectious, generate_rsi_parity, correct_rsi}

abbrev pub aors_cur_version : ℕ
aors_cur_version = 0

abbrev pub aors_hdr_parity_len : ℕ
aors_hdr_parity_len = 3

pub record AorsShardHeader : Type 0 where
  pub version : ℕ
  pub container : ShardContainerType
  pub erasure_code : ErasureCodeType
  pub total_shards_num : ℤ
  pub needed_shards_num : ℤ
  pub shard_index : ℤ
  pub file_container_len : ℤ
  pub file_container_hash : Bytes

unfoldable pub new_aors_shard_header : ℤ → ℤ → ℤ → ℤ → Bytes → AorsShardHeader
new_aors_shard_header index total needed fc_len fc_hash = record {
  version = aors_cur_version;
  container = archive_optimized_reed_solomon;
  erasure_code = rs_infectious;
  total_shards_num = total;
  needed_shards_num = needed;
  shard_index = index;
  file_container_len = fc_len;
  file_container_hash = fc_hash;
}

-- The bytes before the parity share.
abbrev pub unprotected : AorsShardHeader → Bytes
unprotected h =
    (h.version % 256)
    ∷ shard_container_byte h.container
    ∷ erasure_code_byte h.erasure_code
    ∷ (big_endian_uint32 (to_u32 h.total_shards_num)
        ++ (big_endian_uint32 (to_u32 h.needed_shards_num)
            ++ (big_endian_uint32 (to_u32 h.shard_index)
                ++ (big_endian_uint64 h.file_container_len ++ h.file_container_hash))))

-- `len(p) != 1 || len(p[0]) != aorsHdrParityLen` panics, and so does an error.
abbrev pub with_crc : Bytes → Result (List Bytes) → Result Bytes
with_crc buf (ok (p ∷ [])) =
    if length p == aors_hdr_parity_len then ok (buf ++ p ++ crc32 (buf ++ p)) else panic
with_crc buf (ok _) = panic
with_crc buf (err e) = panic
with_crc buf panic = panic

unfoldable pub aors_sh_from_reader : Read (AorsShardHeader × Bytes)
aors_sh_from_reader r0 = do
  (version, r1) ← read_byte r0
  guard (leb version aors_cur_version) (unsupported_version version)
  (styp, r2) ← read_byte r1
  guard (styp == shard_container_byte archive_optimized_reed_solomon) not_aors_header
  (ec, r3) ← read_byte r2
  guard (ec == erasure_code_byte rs_infectious) (unknown_erasure_code ec)
  (tot, r4) ← read_big_endian_int32 r3
  (needed, r5) ← read_big_endian_int32 r4
  (index, r6) ← read_big_endian_int32 r5
  (fc_len, r7) ← read_big_endian_int64 r6
  (fc_hash, r8) ← read_exactly archon_hash_len r7
  (parity, r9) ← read_exactly aors_hdr_parity_len r8
  ok (
    (
      record {
        version = version;
        container = archive_optimized_reed_solomon;
        erasure_code = rs_infectious;
        total_shards_num = tot;
        needed_shards_num = needed;
        shard_index = index;
        file_container_len = fc_len;
        file_container_hash = fc_hash;
      },
      -- what the `TeeReader` has copied
      take (length r0 - length r9) r0,
    ),
    r9,
  )

-- `if err != nil { err = errors.New(…) }`
abbrev pub or_error : Error → {A : Type 0} → Result A → Result A
or_error e (ok a) = ok a
or_error e (err e') = err e
or_error e panic = panic

module _ (fec : Infectious) where
  unfoldable pub to_bytes : AorsShardHeader → Result Bytes
  to_bytes h =
      let buf = unprotected h in
      with_crc buf (generate_rsi_parity fec buf aors_corr_data aors_corr_parity)

  -- Correction by the parity share. The corrected bytes are read by a reader of their own.
  unfoldable pub correct_header : Bytes → Result AorsShardHeader
  correct_header hdr_b =
      let sep = length hdr_b - aors_hdr_parity_len in
      (do
        corrected ←
            or_error could_not_correct (
              correct_rsi fec (take sep hdr_b) (drop sep hdr_b ∷ []) aors_corr_data
                aors_corr_parity)
        ((h, corrected_b), r) ← aors_sh_from_reader corrected
        ok h)

  unfoldable pub new_aor_header_from_reader : Read AorsShardHeader
  unfolding correct_header
  new_aor_header_from_reader r0 = do
    ((h, hdr_b), r1) ← aors_sh_from_reader r0
    let computed_crc = checksum_ieee hdr_b
    (crc, r2) ← read_big_endian_uint32 r1
    if crc == computed_crc then ok (h, r2) else (do h' ← correct_header hdr_b; ok (h', r2))

pub record IsValid (h : AorsShardHeader) : Type 0 where
  pub version : h.version ≡ aors_cur_version
  pub container : h.container ≡ archive_optimized_reed_solomon
  pub erasure_code : h.erasure_code ≡ rs_infectious
  pub total : IsI32 h.total_shards_num
  pub needed : IsI32 h.needed_shards_num
  pub shard_index : IsI32 h.shard_index
  pub data_len : IsI64 h.file_container_len
  pub hash_len : length h.file_container_hash ≡ archon_hash_len
