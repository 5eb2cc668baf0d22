-- ===== src/Shards/Shard/Reading.antt =====
-- Taking a stored shard apart, and the end of the storing methods.
use archoncloud_go.Base.{
  ℕ, ◌+◌, ◌≡◌, refl, ap, ◌∙◌, append_assoc, [], ◌∷◌, ◌++◌, length, length-append, take-append,
  drop-append, append-nil, le→ltb, ok, arith,
}
use archoncloud_go.Base.Int.{pos}
use archoncloud_go.Common.Bytes.{Bytes}
use archoncloud_go.Common.Bytes.Reading.{read_exactly-append}
use archoncloud_go.Common.Hash.{HashingWriter}
use archoncloud_go.Shards.Types.{archon_signature_len}
use archoncloud_go.Shards.Erasure.{Infectious, IsErasureCode}
use archoncloud_go.Shards.Header.{ShardHeader, IsValid, to_bytes, get_shard_payload_len}
use archoncloud_go.Shards.Header.RoundTrip.{reads_back, IsTagged}
use archoncloud_go.Shards.Shard.{get_container_type, slice, new_shard_from_sp, store_payload}

-- The payload is cut out from behind the header, whatever follows it.
pub slice-middle :
    (hb content rest spare : Bytes)
    → slice (length hb) (pos (length content)) (hb ++ (content ++ rest)) spare ≡ ok content
slice-middle hb content rest spare =
    let behind = rest ++ spare in
    let array : (hb ++ (content ++ rest)) ++ spare ≡ hb ++ (content ++ behind) =
      append_assoc hb (content ++ rest) spare
      ∙ ap (λ (t : Bytes). hb ++ t) (append_assoc content rest spare) in
    let fits =
      le→ltb (length (hb ++ (content ++ behind))) (length hb + length content)
        (omega (arith, length-append hb (content ++ behind), length-append content behind)) in
    rw (array, fits, drop-append (length hb) hb (content ++ behind) refl)
      (rw (take-append (length content) content behind refl))

-- A downloader takes header and payload apart, for every kind of header.
pub new_shard_from_sp-written :
    (fec : Infectious) (code : IsErasureCode fec) (h : ShardHeader) (hb content rest spare : Bytes)
    → IsValid h
    → to_bytes fec h ≡ ok hb
    → get_shard_payload_len h ≡ ok (pos (length content))
    → new_shard_from_sp fec (hb ++ (content ++ rest)) spare
      ≡ ok (record { hdr = hb; content = content })
unfolding new_shard_from_sp
new_shard_from_sp-written fec code h hb content rest spare v e n =
    let (tag, back) = reads_back fec code h hb v e in
    rw (back (content ++ rest), e, n, slice-middle hb content rest spare)

-- What is copied, hashed and read by the end of the three storing methods.
pub store_payload-ok :
    (fec : Infectious) (hash : Bytes → Bytes) (h : ShardHeader) (hw : HashingWriter)
    (content sig rest : Bytes)
    → length sig ≡ archon_signature_len
    → store_payload fec hash h (pos (length content)) hw (content ++ (sig ++ rest))
      ≡ ok (record {
        hash = hash (hw.to_hash ++ content);
        uploader_signature = sig;
        written = hw.to_data ++ content;
        header = h;
      })
unfolding store_payload
store_payload-ok fec hash h hw content sig rest l = rw (
  take-append (length content) content (sig ++ rest) refl,
  drop-append (length content) content (sig ++ rest) refl,
  read_exactly-append archon_signature_len sig rest (omega arith) l,
)

pub store_payload-end :
    (fec : Infectious) (hash : Bytes → Bytes) (h : ShardHeader) (hw : HashingWriter)
    (content sig : Bytes)
    → length sig ≡ archon_signature_len
    → store_payload fec hash h (pos (length content)) hw (content ++ sig)
      ≡ ok (record {
        hash = hash (hw.to_hash ++ content);
        uploader_signature = sig;
        written = hw.to_data ++ content;
        header = h;
      })
store_payload-end fec hash h hw content sig l =
    rw append-nil at (store_payload-ok fec hash h hw content sig [] l)

-- The type that the client reads off the header's bytes.
pub container_of_tag :
    {b : ℕ} {hb : Bytes} (content : Bytes)
    → IsTagged b hb
    → get_container_type (record { hdr = hb; content = content })
      ≡ get_container_type (record { hdr = 0 ∷ b ∷ 0 ∷ []; content = content })
unfolding get_container_type
container_of_tag content (c, tail, e) = rw e
