-- ===== src/Shards/Shard/Sending.antt =====
-- What the uploader writes to the wire.
use archoncloud_go.Base.{
  ◌+◌, ◌≡◌, [], ◌++◌, length, length-append, append-nil, append_assoc, ok, Result, arith, ◌⊎◌, inl,
  inr,
}
use archoncloud_go.Common.Bytes.{Bytes, big_endian_uint32, checksum_ieee}
use archoncloud_go.Common.Bytes.Reading.{length-big_endian_uint32}
use archoncloud_go.Common.Hash.{new_hashing_writer, write}
use archoncloud_go.Shards.Types.{
  ShardContainerType, browser_optimized_mxor, browser_optimized_reed_solomon,
  archive_optimized_reed_solomon,
}
use archoncloud_go.Shards.Sizes.Exact.{share}
use archoncloud_go.Shards.Erasure.{Infectious, IsErasureCode}
use archoncloud_go.Shards.Erasure.Parity.{generate_rsi_parity-one}
use archoncloud_go.Shards.Shard.{get_container_type, write_parity, write_shard_container}

module _ (fec : Infectious) (hash : Bytes → Bytes) (sign : Bytes → Result Bytes) where
  -- What the client sends, once it is known what goes behind the data.
  pub sent_lem :
      (hb content extra sig : Bytes)
      → write_parity fec hash sign
          (get_container_type (record { hdr = hb; content = content }))
          content
          (write (write new_hashing_writer hb) content)
        ≡ ok (record { to_data = hb ++ (content ++ extra); to_hash = hb ++ (content ++ extra) })
      → sign (hash (hb ++ (content ++ extra))) ≡ ok sig
      → write_shard_container fec hash sign (record { hdr = hb; content = content })
        ≡ ok (hb ++ (content ++ extra) ++ sig)
  unfolding write_shard_container
  sent_lem hb content extra sig p s = rw (p, s)

  -- Behind the data of a browser-optimised shard there is nothing.
  pub plain_parity :
      (hb content : Bytes) (t : ShardContainerType)
      → get_container_type (record { hdr = hb; content = content }) ≡ t
      → (t ≡ browser_optimized_mxor) ⊎ (t ≡ browser_optimized_reed_solomon)
      → write_parity fec hash sign
          (get_container_type (record { hdr = hb; content = content }))
          content
          (write (write new_hashing_writer hb) content)
        ≡ ok (record { to_data = hb ++ (content ++ []); to_hash = hb ++ (content ++ []) })
  unfolding write_parity
  plain_parity hb content t e (inl k) = rw (append-nil, e, k)
  plain_parity hb content t e (inr k) = rw (append-nil, e, k)

  -- Behind the data of an archive-optimised shard there is a parity share and a CRC.
  pub aors_parity :
      (code : IsErasureCode fec) (hb content : Bytes)
      → get_container_type (record { hdr = hb; content = content }) ≡ archive_optimized_reed_solomon
      → (extra : Bytes) × (length extra ≡ share (length content) 25 + 4)
        × (write_parity fec hash sign
              (get_container_type (record { hdr = hb; content = content }))
              content
              (write (write new_hashing_writer hb) content)
            ≡ ok
                (record { to_data = hb ++ (content ++ extra); to_hash = hb ++ (content ++ extra) }))
  unfolding write_parity
  aors_parity code hb content e =
      let (p, g, l) = generate_rsi_parity-one fec code content 25 (omega arith) (omega arith) in
      let crc = big_endian_uint32 (checksum_ieee (content ++ p)) in
      (
        p ++ crc,
        omega (
          arith,
          l,
          length-append p crc,
          length-big_endian_uint32 (checksum_ieee (content ++ p)),
        ),
        rw (e, g) (simp append_assoc),
      )
