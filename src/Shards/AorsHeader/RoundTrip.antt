-- ===== src/Shards/AorsHeader/RoundTrip.antt =====
-- The bytes of an archive-optimised header and what is read back.
use archoncloud_go.Base.{
  ℕ, ◌∷◌, drop, ◌≡◌, ap, ◌∙◌, ◌++◌, length, length-append, take-consumed, append_assoc, ok, arith,
  ==_refl,
}
use archoncloud_go.Base.Int.{to_u32}
use archoncloud_go.Common.Bytes.{Bytes, big_endian_uint32, big_endian_uint64, checksum_ieee, crc32}
use archoncloud_go.Common.Bytes.Reading.{
  read_byte-cons, read_int32-append, read_int64-append, read_uint32-append, read_exactly-append,
  checksum_ieee-lt, length-crc32, crc32_lem,
}
use archoncloud_go.Shards.Types.{archon_hash_len, archive_optimized_reed_solomon, rs_infectious}
use archoncloud_go.Shards.Erasure.{Infectious, IsErasureCode}
use archoncloud_go.Shards.Erasure.Parity.{generate_rsi_parity-one}
use archoncloud_go.Shards.AorsHeader.{
  AorsShardHeader, IsValid, unprotected, aors_sh_from_reader, to_bytes, new_aor_header_from_reader,
  aors_hdr_parity_len,
}

length-unprotected : (h : AorsShardHeader) → IsValid h → length (unprotected h) ≡ 55
length-unprotected h v = unfold big_endian_uint32 big_endian_uint64 in omega (arith, v.hash_len)

-- The fields and the parity share are read back, and the reader's copy is what it consumed.
aors_sh_from_reader-unprotected :
    (h : AorsShardHeader) (p rest : Bytes)
    → IsValid h
    → length p ≡ aors_hdr_parity_len
    → aors_sh_from_reader (unprotected h ++ (p ++ rest)) ≡ ok ((h, unprotected h ++ p), rest)
unfolding aors_sh_from_reader
aors_sh_from_reader-unprotected h p rest v lp =
    let tail3 = h.file_container_hash ++ (p ++ rest) in
    let tail2 = big_endian_uint64 h.file_container_len ++ tail3 in
    let tail1 = big_endian_uint32 (to_u32 h.shard_index) ++ tail2 in
    let tail0 = big_endian_uint32 (to_u32 h.needed_shards_num) ++ tail1 in
    let canonical : AorsShardHeader = record h {
      version = 0;
      container = archive_optimized_reed_solomon;
      erasure_code = rs_infectious;
    } in
    let consumed = take-consumed (unprotected h ++ p) rest in
    let here = rw (v.version, v.container, v.erasure_code) at consumed in
    rw (v.version, v.container, v.erasure_code)
      (simp append_assoc (
        simp
          (
            read_byte-cons,
            read_int32-append h.total_shards_num tail0 v.total,
            read_int32-append h.needed_shards_num tail1 v.needed,
            read_int32-append h.shard_index tail2 v.shard_index,
            read_int64-append h.file_container_len tail3 v.data_len,
            read_exactly-append archon_hash_len h.file_container_hash (p ++ rest) (omega arith)
                v.hash_len,
            read_exactly-append aors_hdr_parity_len p rest (omega arith) lp,
          )
          (ap (λ (t : Bytes). ok ((canonical, t), rest)) (simp append_assoc at here))))

-- A header's bytes with any parity share and the CRC over both are accepted as they are.
read_checked :
    (fec : Infectious) (h : AorsShardHeader) (p rest : Bytes)
    → IsValid h
    → length p ≡ aors_hdr_parity_len
    → new_aor_header_from_reader fec (unprotected h ++ p ++ crc32 (unprotected h ++ p) ++ rest)
      ≡ ok (h, rest)
unfolding new_aor_header_from_reader
read_checked fec h p rest v lp =
    let buf = unprotected h ++ p in
    let crc_rest = crc32 buf ++ rest in
    let split = append_assoc buf (crc32 buf) rest ∙ append_assoc (unprotected h) p crc_rest in
    rw (
      split,
      aors_sh_from_reader-unprotected h p crc_rest v lp,
      crc32_lem buf,
      read_uint32-append (checksum_ieee buf) rest (checksum_ieee-lt buf),
      ==_refl (checksum_ieee buf),
    )

-- For an erasure code as documented and every valid archive-optimised header its bytes exist,
-- parity and CRC included; they are 62, start with the version 0 and the type 2, and the reader
-- gives that header back from them and leaves what follows.
pub new_aor_header_from_reader-to_bytes :
    (fec : Infectious) (code : IsErasureCode fec) (h : AorsShardHeader)
    → IsValid h
    → (hb : Bytes) × (to_bytes fec h ≡ ok hb)
      × (length hb ≡ 62)
      × ((c : ℕ) × (tail : Bytes) × (hb ≡ 0 ∷ 2 ∷ c ∷ tail))
      × ((rest : Bytes) → new_aor_header_from_reader fec (hb ++ rest) ≡ ok (h, rest))
unfolding to_bytes
new_aor_header_from_reader-to_bytes fec code h v =
    let (p, e, l) =
      generate_rsi_parity-one fec code (unprotected h) 25 (omega arith) (omega arith) in
    let lu = length-unprotected h v in
    let lp : length p ≡ 3 = l ∙ rw lu in
    let buf = unprotected h ++ p in
    (
      unprotected h ++ p ++ crc32 (unprotected h ++ p),
      rw (e, lp),
      omega
          (arith, length-append buf (crc32 buf), length-append (unprotected h) p, length-crc32 buf),
      (4, drop 3 (buf ++ crc32 buf), rw (v.version, v.container, v.erasure_code)),
      λ rest. read_checked fec h p rest v lp,
    )
