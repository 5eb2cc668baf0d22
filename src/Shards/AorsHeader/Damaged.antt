-- ===== src/Shards/AorsHeader/Damaged.antt =====
-- What the reader of an archive-optimised header does when the CRC does not match.
use archoncloud_go.Base.{[], ◌∷◌, ◌≡◌, panic, ok, ne→==, ℕ, arith}
use archoncloud_go.Common.Bytes.{Bytes, checksum_ieee, read_big_endian_uint32}
use archoncloud_go.Shards.Erasure.{Infectious, IsErasureCode, correct_rsi}
use archoncloud_go.Shards.Erasure.Parity.{extended_slice-ok}
use archoncloud_go.Shards.AorsHeader.{
  AorsShardHeader, aors_sh_from_reader, new_aor_header_from_reader,
}

-- `CorrectRSI` indexes the parity slices from the number of data shares on, where there are none.
correct_rsi-panic :
    (fec : Infectious) (code : IsErasureCode fec) (input parity : Bytes)
    → correct_rsi fec input (parity ∷ []) 25 1 ≡ panic
unfolding correct_rsi
correct_rsi-panic fec code input parity = rw (
  code.accepts 25 26 (omega arith) (omega arith) (omega arith),
  extended_slice-ok 25 input (omega arith),
)

-- For an erasure code as documented: if the fields of an archive-optimised header and a CRC can
-- be read, and the CRC is not the checksum of the bytes before it, then the reader panics: no
-- such header is ever corrected.
pub new_aor_header_damaged :
    (fec : Infectious) (code : IsErasureCode fec) (r0 r1 r2 hdr_b : Bytes) (h : AorsShardHeader)
    (crc : ℕ)
    → aors_sh_from_reader r0 ≡ ok ((h, hdr_b), r1)
    → read_big_endian_uint32 r1 ≡ ok (crc, r2)
    → ¬ (crc ≡ checksum_ieee hdr_b)
    → new_aor_header_from_reader fec r0 ≡ panic
unfolding new_aor_header_from_reader
new_aor_header_damaged fec code r0 r1 r2 hdr_b h crc e c d =
    rw (e, c, ne→== _ _ d, correct_rsi-panic fec code)
