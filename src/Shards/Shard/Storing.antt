-- ===== src/Shards/Shard/Storing.antt =====
-- What the storage provider makes of a request's body.
use archoncloud_go.Base.{
  ℕ, ◌+◌, ◌^◌, ◌<◌, ◌≡◌, refl, ◌∙◌, [], ◌++◌, length, length-append, append-nil, append_assoc, ok,
  arith,
}
use archoncloud_go.Base.Arith.{bit_or-lt}
use archoncloud_go.Base.Int.{pos, +ℤ_pos}
use archoncloud_go.Common.Bytes.{Bytes}
use archoncloud_go.Shards.Types.{archon_signature_len}
use archoncloud_go.Shards.Sizes.{get_shard_data_len}
use archoncloud_go.Shards.Sizes.Exact.{share, share_size-ok}
use archoncloud_go.Shards.Erasure.{Infectious}
use archoncloud_go.Shards.MxorHeader
use archoncloud_go.Shards.MxorHeader.{MxorShardHeader, mark_as_sp}
use archoncloud_go.Shards.BorsHeader
use archoncloud_go.Shards.BorsHeader.{BorsShardHeader}
use archoncloud_go.Shards.AorsHeader.{AorsShardHeader}
use archoncloud_go.Shards.Header.{
  ShardHeader, mxor_header, bors_header, aors_header, to_bytes, get_shard_payload_len,
  get_shard_num_bytes, new_shard_header,
}
use archoncloud_go.Shards.Shard.{store_sp_shard, receive_shard}
use archoncloud_go.Shards.Shard.Reading.{store_payload-end}

pub payload_len-marked :
    (h : MxorShardHeader)
    → get_shard_payload_len (mxor_header (mark_as_sp h)) ≡ get_shard_payload_len (mxor_header h)
unfolding get_shard_payload_len mark_as_sp
payload_len-marked h = refl

pub mark_as_sp-IsValid :
    {h : MxorShardHeader} → MxorHeader.IsValid h → MxorHeader.IsValid (mark_as_sp h)
unfolding mark_as_sp
mark_as_sp-IsValid {h} v = record {
  version = v.version;
  container = v.container;
  flags = bit_or-lt h.flags v.flags;
  erasure_code = v.erasure_code;
  shard_index = v.shard_index;
  data_len = v.data_len;
  hash_len = v.hash_len;
}

-- For an archive-optimised shard they are those of the parity share and the CRC too.
pub aors_num_bytes :
    (h : AorsShardHeader) {n : ℕ}
    → get_shard_payload_len (aors_header h) ≡ ok (pos n)
    → n < 2 ^ 62
    → get_shard_num_bytes (aors_header h) ≡ ok (pos (n + share n 25 + 4))
unfolding get_shard_num_bytes get_shard_payload_len get_shard_data_len
aors_num_bytes h {n} e lt = rw (
  e,
  share_size-ok n 25 (omega arith) (omega arith),
  +ℤ_pos n (share n 25) (omega arith),
  +ℤ_pos (n + share n 25) 4 (omega arith),
)

-- The bytes that are stored are the payload's for a browser-optimised Reed-Solomon shard.
pub bors_num_bytes :
    (h : BorsShardHeader) {n : ℕ}
    → BorsHeader.IsValid h
    → get_shard_payload_len (bors_header h) ≡ ok (pos n)
    → get_shard_num_bytes (bors_header h) ≡ ok (pos n)
unfolding get_shard_num_bytes get_shard_payload_len get_shard_data_len
bors_num_bytes h v n = rw (v.container, n)

module _ (fec : Infectious) (hash : Bytes → Bytes) where
  pub received_lem :
      (h : ShardHeader) (hb body sig : Bytes)
      → ((rest : Bytes) → new_shard_header fec (hb ++ rest) ≡ ok (h, rest))
      → receive_shard fec hash (hb ++ body ++ sig) ≡ store_sp_shard fec hash h (body ++ sig)
  unfolding receive_shard
  received_lem h hb body sig back = rw (append_assoc hb body sig, back (body ++ sig))

  pub stored_mxor :
      (h : MxorShardHeader) (content sig : Bytes)
      → get_shard_payload_len (mxor_header h) ≡ ok (pos (length content))
      → length sig ≡ archon_signature_len
      → store_sp_shard fec hash (mxor_header h) (content ++ [] ++ sig)
        ≡ ok (record {
          hash = hash (MxorHeader.to_bytes h ++ content);
          uploader_signature = sig;
          written = MxorHeader.to_bytes (mark_as_sp h) ++ content;
          header = mxor_header (mark_as_sp h);
        })
  unfolding store_sp_shard
  stored_mxor h content sig n l =
      rw (append-nil content, payload_len-marked h ∙ n)
        (store_payload-end fec hash (mxor_header (mark_as_sp h)) _ content sig l)

  pub stored_bors :
      (h : BorsShardHeader) (content sig : Bytes)
      → BorsHeader.IsValid h
      → get_shard_payload_len (bors_header h) ≡ ok (pos (length content))
      → length sig ≡ archon_signature_len
      → store_sp_shard fec hash (bors_header h) (content ++ [] ++ sig)
        ≡ ok (record {
          hash = hash (BorsHeader.to_bytes h ++ content);
          uploader_signature = sig;
          written = BorsHeader.to_bytes h ++ content;
          header = bors_header h;
        })
  unfolding store_sp_shard
  stored_bors h content sig v n l =
      rw (append-nil content, bors_num_bytes h v n)
        (store_payload-end fec hash (bors_header h) _ content sig l)

  pub stored_aors :
      (h : AorsShardHeader) (hb content extra sig : Bytes)
      → to_bytes fec (aors_header h) ≡ ok hb
      → get_shard_payload_len (aors_header h) ≡ ok (pos (length content))
      → length content < 2 ^ 62
      → length extra ≡ share (length content) 25 + 4
      → length sig ≡ archon_signature_len
      → store_sp_shard fec hash (aors_header h) (content ++ extra ++ sig)
        ≡ ok (record {
          hash = hash (hb ++ (content ++ extra));
          uploader_signature = sig;
          written = hb ++ (content ++ extra);
          header = aors_header h;
        })
  unfolding store_sp_shard
  stored_aors h hb content extra sig e n lt le l =
      let whole : length content + share (length content) 25 + 4 ≡ length (content ++ extra) =
        omega (arith, length-append content extra) in
      rw (e, aors_num_bytes h n lt, whole)
        (store_payload-end fec hash (aors_header h) _ (content ++ extra) sig l)
