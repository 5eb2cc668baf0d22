-- ===== src/Shards/Container/Recover/Aors.antt =====
-- shards/aors.go: what is encoded and then decoded from enough shards.
use archoncloud_go.Base.{
  ℕ, ◌^◌, ◌≤◌, ◌<◌, ◌≡◌, refl, sym, ap, ◌∙◌, List, [], ◌++◌, ◌*◌, ◌/◌, All, All-weaken, length,
  replicate, ok, Result, arith, Bool, ◌⊎◌,
}
use archoncloud_go.Base.Int.{pos}
use native.Mathlib.Nat.{mul-div_cancel}
use archoncloud_go.Common.Bytes.{Bytes}
use archoncloud_go.Shards.Types.{
  archive_optimized_reed_solomon, browser_optimized, archive_optimized, archon_signature_len,
}
use archoncloud_go.Shards.Erasure.{Infectious, IsErasureCode}
use archoncloud_go.Shards.AorsHeader
use archoncloud_go.Shards.AorsHeader.{AorsShardHeader, new_aors_shard_header}
use archoncloud_go.Shards.Header
use archoncloud_go.Shards.Header.{
  aors_header, get_num_total, get_num_required, get_shard_payload_len,
}
use archoncloud_go.Shards.Sizes.Exact.{share, share_size-ok}
use archoncloud_go.Shards.Container.Placing.{shards_from}
use archoncloud_go.Shards.Header.RoundTrip.{new_shard_header-to_bytes}
use archoncloud_go.Shards.FileContainer.{FileContainer, Created, create_container_bytes}
use archoncloud_go.Shards.FileContainer.Recover.{get_original-create}
use archoncloud_go.Shards.Container.{
  ShardsContainer, aors, rs_decode, new_aors, aors_encode, aors_header_for,
}
use archoncloud_go.Shards.Container.Masks.{kept, masked, IsRecoverable}
use archoncloud_go.Shards.Container.Recover.{fresh, rs_encode-ok, rs_decode-masked, created-bounded}

new_aors-IsValid :
    (j total needed len : ℕ) (digest : Bytes)
    → j < 2 ^ 31
    → total < 2 ^ 31
    → needed < 2 ^ 31
    → len < 2 ^ 63
    → length digest ≡ 32
    → AorsHeader.IsValid (new_aors_shard_header (pos j) (pos total) (pos needed) (pos len) digest)
unfolding new_aors_shard_header
new_aors-IsValid j total needed len digest a b c lt l = record {
  version = refl;
  container = refl;
  erasure_code = refl;
  total = b;
  needed = c;
  shard_index = a;
  data_len = lt;
  hash_len = l;
}

abbrev value_of : Result Bytes → Bytes
value_of (ok b) = b
value_of _ = []

to_bytes-value :
    (fec : Infectious) (code : IsErasureCode fec) (h : AorsShardHeader)
    → AorsHeader.IsValid h
    → AorsHeader.to_bytes fec h ≡ ok (value_of (AorsHeader.to_bytes fec h))
to_bytes-value fec code h v =
    let (hb, e, tag, back) = new_shard_header-to_bytes fec code (aors_header h) v in
    e ∙ ap (λ (r : Result Bytes). ok (value_of r)) (sym e)

mul-cancel : (a b k : ℕ) → 0 < k → a * k ≡ b * k → a ≡ b
mul-cancel a b k h e = sym (mul-div_cancel a h) ∙ ap (λ t. t / k) e ∙ mul-div_cancel b h

-- What the encoder makes of a file's container: the pieces under their headers.
pub record IsEncoded (fec : Infectious) (hash : Bytes → Bytes) (k n : ℕ)
    (bytes digest payload : Bytes) : Type 0 where
  pub hdr : ℕ → AorsShardHeader
  pub header : ℕ → Bytes
  pub pieces : List Bytes
  pub count : length pieces ≡ n
  pub valid : (j : ℕ) → j < n → AorsHeader.IsValid (hdr j)
  pub written : (j : ℕ) → j < n → AorsHeader.to_bytes fec (hdr j) ≡ ok (header j)
  pub kind :
      (j : ℕ) → Header.get_container_type (aors_header (hdr j)) ≡ archive_optimized_reed_solomon
  pub total : (j : ℕ) → get_num_total (aors_header (hdr j)) ≡ pos n
  pub needed : (j : ℕ) → get_num_required (aors_header (hdr j)) ≡ pos k
  pub payload_len :
      (j : ℕ) → get_shard_payload_len (aors_header (hdr j)) ≡ ok (pos (share (length bytes) k))
  pub same_length : All (λ (p : Bytes). length p ≡ share (length bytes) k) pieces
  pub small : share (length bytes) k < 2 ^ 62
  pub encoded :
      aors_encode fec (fresh archive_optimized_reed_solomon aors k n digest) bytes
      ≡ ok (record (fresh archive_optimized_reed_solomon aors k n digest) {
        shards = shards_from header 0 pieces;
      })
  pub decodes :
      (digest' : Bytes) (mask : List Bool)
      → length mask ≡ n
      → k ≤ kept mask
      → rs_decode fec hash (record (fresh archive_optimized_reed_solomon aors k n digest') {
        shards = masked mask (shards_from header 0 pieces);
      })
        ≡ ok payload

module _ (fec : Infectious) (code : IsErasureCode fec) (hash : Bytes → Bytes)
    (hash_len : (b : Bytes) → length (hash b) ≡ 32) (sign : Bytes → Result Bytes)
    (signs : (digest : Bytes)
      → (sig : Bytes) × (sign digest ≡ ok sig) × (length sig ≡ archon_signature_len))
    (k n : ℕ) (recover : IsRecoverable fec code k n) (positive : 0 < k) (ordered : k ≤ n)
    (few : n ≤ 255) where
  pub aors_encode-IsEncoded :
      (f : FileContainer) (payload : Bytes) (c : Created)
      → (f.container ≡ browser_optimized) ⊎ (f.container ≡ archive_optimized)
      → length payload < 2 ^ 61
      → create_container_bytes fec hash sign f payload ≡ ok c
      → IsEncoded fec hash k n c.bytes c.hash payload
  unfolding aors_encode aors_header_for
  aors_encode-IsEncoded f payload c kind lt made =
      let (size, digest_len) =
        created-bounded fec code hash hash_len sign signs f payload c kind lt made in
      let t = archive_optimized_reed_solomon in
      let hdr : ℕ → AorsShardHeader =
        λ j. new_aors_shard_header (pos j) (pos n) (pos k) (pos (length c.bytes)) c.hash in
      let header : ℕ → Bytes = λ j. value_of (AorsHeader.to_bytes fec (hdr j)) in
      let valid : (j : ℕ) → j < n → AorsHeader.IsValid (hdr j) = λ j lt.
        new_aors-IsValid j n k (length c.bytes) c.hash (omega arith) (omega arith) (omega arith)
          (omega arith) digest_len in
      let written : (j : ℕ) → j < n → AorsHeader.to_bytes fec (hdr j) ≡ ok (header j) =
        λ j lt. to_bytes-value fec code (hdr j) (valid j lt) in
      let (pad, whole, total, encoded) =
        rs_encode-ok fec code t aors k n c.hash positive ordered (omega arith)
          (λ j. AorsHeader.to_bytes fec (hdr j)) header c.bytes written (omega arith) in
      let padded = c.bytes ++ replicate pad 0 in
      record {
        hdr = hdr;
        header = header;
        pieces = code.pieces k n padded;
        count = code.length-pieces k n padded positive ordered (omega arith) whole;
        valid = valid;
        written = written;
        kind = λ j. unfold new_aors_shard_header in refl;
        total = λ j. unfold new_aors_shard_header in refl;
        needed = λ j. unfold new_aors_shard_header in refl;
        payload_len = λ j.
            unfold new_aors_shard_header in
            unfold get_shard_payload_len in share_size-ok (length c.bytes) k positive (omega arith);
        same_length =
            All-weaken (code.pieces k n padded)
              (λ (p : Bytes) e.
                mul-cancel (length p) (share (length c.bytes) k) k positive (e ∙ total))
              (code.length-piece k n padded positive ordered (omega arith) whole);
        small = omega arith;
        encoded = encoded;
        decodes = λ digest' mask len enough.
            rs_decode-masked fec code t aors k n digest' positive ordered (omega arith) recover hash
              (λ j. aors_header (hdr j)) header padded payload mask valid written
              (λ j.
                get_original-create fec code hash hash_len sign signs f payload (replicate pad 0) c
                  (aors_header (hdr j)) kind lt made (unfold new_aors_shard_header in refl)
                  (unfold new_aors_shard_header in refl))
              whole len enough;
      }

  -- For an erasure code that recovers its input from any k of n shares, 0 < k ≤ n ≤ 255, a hash of
  -- 32 bytes and signatures of 65: a payload of less than 2^61 bytes is put into a container of
  -- either kind; `NewAors` and its encoder, given the container's hash, succeed on the container's
  -- bytes; and the decoder, given any k or more of the resulting shards, the others nil, returns
  -- the payload.
  pub aors_decode-encode :
      (f : FileContainer) (payload : Bytes) (c : Created) (mask : List Bool)
      → (f.container ≡ browser_optimized) ⊎ (f.container ≡ archive_optimized)
      → length payload < 2 ^ 61
      → create_container_bytes fec hash sign f payload ≡ ok c
      → length mask ≡ n
      → k ≤ kept mask
      → (sc : ShardsContainer) × (sc' : ShardsContainer) × (new_aors (pos n) (pos k) ≡ ok sc)
        × (aors_encode fec (record sc { file_container_hash = c.hash }) c.bytes ≡ ok sc')
        × (rs_decode fec hash (record sc' { shards = masked mask sc'.shards }) ≡ ok payload)
  unfolding new_aors
  aors_decode-encode f payload c mask kind lt made len enough =
      let e = aors_encode-IsEncoded f payload c kind lt made in
      (
        fresh archive_optimized_reed_solomon aors k n [],
        _,
        refl,
        e.encoded,
        e.decodes c.hash mask len enough,
      )
