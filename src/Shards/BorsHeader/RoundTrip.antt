-- ===== src/Shards/BorsHeader/RoundTrip.antt =====
-- The bytes of a browser-optimised Reed-Solomon header and what is read back.
use archoncloud_go.Base.{ℕ, ◌∷◌, drop, ◌≡◌, ◌++◌, length, length-append, append_assoc, ok, arith}
use archoncloud_go.Common.Bytes.{Bytes, big_endian_uint64}
use archoncloud_go.Common.Bytes.Reading.{
  read_byte-cons, read_int64-append, read_exactly-append, length-big_endian_uint64,
}
use native.Mathlib.Nat.{mod-eq_of_lt}
use archoncloud_go.Shards.Types.{archon_hash_len}
use archoncloud_go.Shards.BorsHeader.{
  BorsShardHeader, IsValid, to_bytes, new_bors_header_from_reader,
}

pub length-to_bytes : (h : BorsShardHeader) → IsValid h → length (to_bytes h) ≡ 46
unfolding to_bytes
length-to_bytes h v = omega (
  arith,
  length-append (big_endian_uint64 h.file_container_data_len) h.file_container_hash,
  length-big_endian_uint64 h.file_container_data_len,
  v.hash_len,
)

-- A valid browser-optimised Reed-Solomon header is read back from its bytes, and what follows
-- them is left to the reader.
pub new_bors_header_from_reader-to_bytes :
    (h : BorsShardHeader) (rest : Bytes)
    → IsValid h
    → new_bors_header_from_reader (to_bytes h ++ rest) ≡ ok (h, rest)
unfolding new_bors_header_from_reader to_bytes
new_bors_header_from_reader-to_bytes h rest v =
    rw
      (
        v.version,
        v.container,
        v.erasure_code,
        mod-eq_of_lt v.total,
        mod-eq_of_lt v.needed,
        mod-eq_of_lt v.shard_index,
        append_assoc,
      )
      (simp (
        read_byte-cons,
        read_int64-append h.file_container_data_len (h.file_container_hash ++ rest) v.data_len,
        read_exactly-append archon_hash_len h.file_container_hash rest (omega arith) v.hash_len,
      ))

-- The second byte tells the kind of the header.
pub to_bytes-prefix :
    (h : BorsShardHeader) → IsValid h → (c : ℕ) × (tail : Bytes) × (to_bytes h ≡ 0 ∷ 1 ∷ c ∷ tail)
unfolding to_bytes
to_bytes-prefix h v = (4, drop 3 (to_bytes h), rw (v.version, v.container, v.erasure_code))
