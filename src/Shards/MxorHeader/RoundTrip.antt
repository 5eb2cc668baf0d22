-- ===== src/Shards/MxorHeader/RoundTrip.antt =====
-- The bytes of an mxor header and what is read back.
use archoncloud_go.Base.{
  ℕ, ◌%◌, ◌∷◌, drop, ◌≡◌, ◌++◌, length, length-append, append_assoc, ok, arith,
}
use archoncloud_go.Common.Bytes.{Bytes, big_endian_uint32}
use archoncloud_go.Common.Bytes.Reading.{
  read_byte-cons, read_uint32-append, read_exactly-append, length-big_endian_uint32,
}
use native.Mathlib.Nat.{mod-eq_of_lt}
use archoncloud_go.Shards.Types.{archon_hash_len}
use archoncloud_go.Shards.MxorHeader.{
  MxorShardHeader, IsValid, to_bytes, new_mxor_header_from_reader,
}

pub length-to_bytes : (h : MxorShardHeader) → IsValid h → length (to_bytes h) ≡ 41
unfolding to_bytes
length-to_bytes h v = omega (
  arith,
  length-append (big_endian_uint32 h.file_container_data_len) h.file_container_hash,
  length-big_endian_uint32 h.file_container_data_len,
  v.hash_len,
)

-- A valid mxor header, marked by a storage provider or not, is read back from its bytes, and what
-- follows them is left to the reader.
pub new_mxor_header_from_reader-to_bytes :
    (h : MxorShardHeader) (rest : Bytes)
    → IsValid h
    → new_mxor_header_from_reader (to_bytes h ++ rest) ≡ ok (h, rest)
unfolding new_mxor_header_from_reader to_bytes
new_mxor_header_from_reader-to_bytes h rest v =
    rw
      (
        v.version,
        v.container,
        v.erasure_code,
        mod-eq_of_lt v.flags,
        mod-eq_of_lt v.shard_index,
        append_assoc,
      )
      (simp (
        read_byte-cons,
        read_uint32-append h.file_container_data_len (h.file_container_hash ++ rest) v.data_len,
        read_exactly-append archon_hash_len h.file_container_hash rest (omega arith) v.hash_len,
      ))

-- The second byte tells the kind of the header.
pub to_bytes-prefix :
    (h : MxorShardHeader) → IsValid h → (c : ℕ) × (tail : Bytes) × (to_bytes h ≡ 0 ∷ 0 ∷ c ∷ tail)
unfolding to_bytes
to_bytes-prefix h v = (h.flags % 256, drop 3 (to_bytes h), rw (v.version, v.container))
