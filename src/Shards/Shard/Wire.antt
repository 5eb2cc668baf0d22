-- ===== src/Shards/Shard/Wire.antt =====
-- From the uploader's shard over the wire to the storage provider, and back to a downloader.
use archoncloud_go.Base.{
  ◌^◌, ◌<◌, ◌≡◌, refl, sym, ap, ◌∙◌, subst, [], ◌∷◌, ◌++◌, length, append-nil, append_assoc, ok,
  Result, inl, inr,
}
use archoncloud_go.Base.Int.{pos}
use archoncloud_go.Common.Bytes.{Bytes}
use archoncloud_go.Shards.Types.{
  archive_optimized_reed_solomon, shard_container_byte, archon_signature_len,
}
use archoncloud_go.Shards.Erasure.{Infectious, IsErasureCode}
use archoncloud_go.Shards.MxorHeader
use archoncloud_go.Shards.MxorHeader.{MxorShardHeader, mark_as_sp}
use archoncloud_go.Shards.BorsHeader
use archoncloud_go.Shards.BorsHeader.{BorsShardHeader}
use archoncloud_go.Shards.AorsHeader
use archoncloud_go.Shards.AorsHeader.{AorsShardHeader}
use archoncloud_go.Shards.Header.{
  ShardHeader, mxor_header, bors_header, aors_header, IsValid, to_bytes, get_shard_payload_len,
  new_shard_header,
}
use archoncloud_go.Shards.Header.RoundTrip.{new_shard_header-to_bytes, reads_back, IsTagged}
use archoncloud_go.Shards.Shard.{
  get_container_type, write_shard_container, new_shard_from_sp, Stored, receive_shard,
}
use archoncloud_go.Shards.Shard.Reading.{new_shard_from_sp-written, container_of_tag}
use archoncloud_go.Shards.Shard.Sending.{sent_lem, plain_parity, aors_parity}
use archoncloud_go.Shards.Shard.Storing.{
  payload_len-marked, mark_as_sp-IsValid, received_lem, stored_mxor, stored_bors, stored_aors,
}

-- The header that the provider stores: the mxor method puts the provider's mark on it.
abbrev pub marked_header : ShardHeader → ShardHeader
marked_header (mxor_header h) = mxor_header (mark_as_sp h)
marked_header (bors_header h) = bors_header h
marked_header (aors_header h) = aors_header h

-- A shard on its way: `covered` is what the uploader hashes and signs, `stored` what the provider
-- has made of the request's body.
pub record IsDelivered (fec : Infectious) (hash : Bytes → Bytes) (sign : Bytes → Result Bytes)
    (h : ShardHeader) (content : Bytes) : Type 0 where
  pub hb : Bytes
  pub extra : Bytes
  pub sig : Bytes
  pub stored : Stored
  pub bytes : to_bytes fec h ≡ ok hb
  pub signed : sign (hash (hb ++ (content ++ extra))) ≡ ok sig
  pub sent :
      write_shard_container fec hash sign (record { hdr = hb; content = content })
      ≡ ok (hb ++ (content ++ extra) ++ sig)
  pub received : receive_shard fec hash (hb ++ (content ++ extra) ++ sig) ≡ ok stored
  pub same_hash : stored.hash ≡ hash (hb ++ (content ++ extra))
  pub same_signature : stored.uploader_signature ≡ sig
  pub same_header : stored.header ≡ marked_header h
  pub kept :
      (hb' : Bytes) × (to_bytes fec stored.header ≡ ok hb')
      × (stored.written ≡ hb' ++ (content ++ extra))
  pub reread :
      (trailer : Bytes)
      → (rest : Bytes) × (new_shard_header fec (stored.written ++ trailer)
          ≡ ok (stored.header, rest))
  pub served :
      (trailer spare : Bytes)
      → (hb' : Bytes) × (to_bytes fec stored.header ≡ ok hb')
        × (new_shard_from_sp fec (stored.written ++ trailer) spare
            ≡ ok (record { hdr = hb'; content = content }))

module _ (fec : Infectious) (code : IsErasureCode fec) (hash : Bytes → Bytes)
    (sign : Bytes → Result Bytes)
    (signs : (digest : Bytes)
      → (sig : Bytes) × (sign digest ≡ ok sig) × (length sig ≡ archon_signature_len)) where
  mxor-IsDelivered :
      (h : MxorShardHeader) (content : Bytes)
      → MxorHeader.IsValid h
      → get_shard_payload_len (mxor_header h) ≡ ok (pos (length content))
      → IsDelivered fec hash sign (mxor_header h) content
  mxor-IsDelivered h content v n =
      let hb = MxorHeader.to_bytes h in
      let (tag, back) = reads_back fec code (mxor_header h) hb v refl in
      let (sig, signed, l) = signs (hash (hb ++ (content ++ []))) in
      record {
        hb = hb;
        extra = [];
        sig = sig;
        stored = record {
          hash = hash (MxorHeader.to_bytes h ++ content);
          uploader_signature = sig;
          written = MxorHeader.to_bytes (mark_as_sp h) ++ content;
          header = mxor_header (mark_as_sp h);
        };
        bytes = refl;
        signed = signed;
        sent =
            sent_lem fec hash sign hb content [] sig
              (plain_parity fec hash sign hb content _ (container_of_tag content tag)
                (inl (unfold get_container_type in refl)))
              signed;
        received =
            received_lem fec hash (mxor_header h) hb (content ++ []) sig back
            ∙ stored_mxor fec hash h content sig n l;
        same_hash = ap (λ (t : Bytes). hash (hb ++ t)) (sym (append-nil content));
        same_signature = refl;
        same_header = refl;
        kept = (
          MxorHeader.to_bytes (mark_as_sp h),
          refl,
          ap (λ (t : Bytes). MxorHeader.to_bytes (mark_as_sp h) ++ t) (sym (append-nil content)),
        );
        reread = λ trailer.
            let marked = MxorHeader.to_bytes (mark_as_sp h) in
            let (tag', back') =
              reads_back fec code (mxor_header (mark_as_sp h)) marked (mark_as_sp-IsValid v) refl in
            (
              content ++ trailer,
              rw (append_assoc marked content trailer) (back' (content ++ trailer)),
            );
        served = λ trailer spare.
            let marked = MxorHeader.to_bytes (mark_as_sp h) in
            (
              marked,
              refl,
              rw (append_assoc marked content trailer) (
                  new_shard_from_sp-written fec code (mxor_header (mark_as_sp h)) marked content
                    trailer spare (mark_as_sp-IsValid v) refl (payload_len-marked h ∙ n)),
            );
      }

  bors-IsDelivered :
      (h : BorsShardHeader) (content : Bytes)
      → BorsHeader.IsValid h
      → get_shard_payload_len (bors_header h) ≡ ok (pos (length content))
      → IsDelivered fec hash sign (bors_header h) content
  bors-IsDelivered h content v n =
      let hb = BorsHeader.to_bytes h in
      let (tag, back) = reads_back fec code (bors_header h) hb v refl in
      let (sig, signed, l) = signs (hash (hb ++ (content ++ []))) in
      let tag1 = subst (λ t. IsTagged (shard_container_byte t) hb) v.container tag in
      record {
        hb = hb;
        extra = [];
        sig = sig;
        stored = record {
          hash = hash (hb ++ content);
          uploader_signature = sig;
          written = hb ++ content;
          header = bors_header h;
        };
        bytes = refl;
        signed = signed;
        sent =
            sent_lem fec hash sign hb content [] sig
              (plain_parity fec hash sign hb content _ (container_of_tag content tag1)
                (inr (unfold get_container_type in refl)))
              signed;
        received =
            received_lem fec hash (bors_header h) hb (content ++ []) sig back
            ∙ stored_bors fec hash h content sig v n l;
        same_hash = ap (λ (t : Bytes). hash (hb ++ t)) (sym (append-nil content));
        same_signature = refl;
        same_header = refl;
        kept = (hb, refl, ap (λ (t : Bytes). hb ++ t) (sym (append-nil content)));
        reread = λ trailer.
            (content ++ trailer, rw (append_assoc hb content trailer) (back (content ++ trailer)));
        served = λ trailer spare. (
          hb,
          refl,
          rw (append_assoc hb content trailer) (
              new_shard_from_sp-written fec code (bors_header h) hb content trailer spare v refl n),
        );
      }

  aors-IsDelivered :
      (h : AorsShardHeader) (content : Bytes)
      → AorsHeader.IsValid h
      → get_shard_payload_len (aors_header h) ≡ ok (pos (length content))
      → length content < 2 ^ 62
      → IsDelivered fec hash sign (aors_header h) content
  aors-IsDelivered h content v n lt =
      let (hb, e, tag0, back0) = new_shard_header-to_bytes fec code (aors_header h) v in
      let (tag, back) = reads_back fec code (aors_header h) hb v e in
      let at_tag : get_container_type (record { hdr = 0 ∷ 2 ∷ 0 ∷ []; content = content })
          ≡ archive_optimized_reed_solomon =
        unfold get_container_type in refl in
      let kind = container_of_tag content tag ∙ at_tag in
      let (extra, le, parity) = aors_parity fec hash sign code hb content kind in
      let (sig, signed, l) = signs (hash (hb ++ (content ++ extra))) in
      record {
        hb = hb;
        extra = extra;
        sig = sig;
        stored = record {
          hash = hash (hb ++ (content ++ extra));
          uploader_signature = sig;
          written = hb ++ (content ++ extra);
          header = aors_header h;
        };
        bytes = e;
        signed = signed;
        sent = sent_lem fec hash sign hb content extra sig parity signed;
        received =
            received_lem fec hash (aors_header h) hb (content ++ extra) sig back
            ∙ stored_aors fec hash h hb content extra sig e n lt le l;
        same_hash = refl;
        same_signature = refl;
        same_header = refl;
        kept = (hb, e, refl);
        reread = λ trailer. (
          content ++ extra ++ trailer,
          rw (append_assoc hb (content ++ extra) trailer) (back (content ++ extra ++ trailer)),
        );
        served = λ trailer spare. (
          hb,
          e,
          rw (append_assoc hb (content ++ extra) trailer, append_assoc content extra trailer)
              (new_shard_from_sp-written fec code (aors_header h) hb content (extra ++ trailer)
                spare v e n),
        );
      }

  -- For an erasure code as documented and a signature function that succeeds with 65 bytes: for
  -- every valid header whose payload length is that of the data, which is below 2^62, the upload of
  -- the shard succeeds; the provider computes the hash that the uploader signed and finds that
  -- signature behind the shard; and from what the provider has written, whatever is appended to it,
  -- a downloader takes the data unchanged, under the header that the provider has written.
  pub shard-IsDelivered :
      (h : ShardHeader) (content : Bytes)
      → IsValid h
      → get_shard_payload_len h ≡ ok (pos (length content))
      → length content < 2 ^ 62
      → IsDelivered fec hash sign h content
  shard-IsDelivered (mxor_header h) content v n lt = mxor-IsDelivered h content v n
  shard-IsDelivered (bors_header h) content v n lt = bors-IsDelivered h content v n
  shard-IsDelivered (aors_header h) content v n lt = aors-IsDelivered h content v n lt
