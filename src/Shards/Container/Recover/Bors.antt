-- ===== src/Shards/Container/Recover/Bors.antt =====
-- shards/bors.go: what is encoded and then decoded from enough shards.
use archoncloud_go.Base.{
  ℕ, ◌%◌, ◌^◌, ◌≤◌, ◌<◌, ◌≡◌, refl, List, [], ◌++◌, length, replicate, ok, Result, arith, Bool, ◌⊎◌,
}
use archoncloud_go.Base.Int.{pos}
use archoncloud_go.Common.Bytes.{Bytes}
use archoncloud_go.Shards.Types.{
  browser_optimized_reed_solomon, browser_optimized, archive_optimized, archon_signature_len,
}
use archoncloud_go.Shards.Erasure.{Infectious, IsErasureCode}
use archoncloud_go.Shards.BorsHeader
use archoncloud_go.Shards.BorsHeader.{BorsShardHeader, new_bors_shard_header}
use archoncloud_go.Shards.Header.{bors_header}
use archoncloud_go.Shards.FileContainer.{FileContainer, Created, create_container_bytes}
use archoncloud_go.Shards.FileContainer.Recover.{get_original-create}
use archoncloud_go.Shards.Container.{
  ShardsContainer, bors, rs_decode, new_bors, bors_encode, bors_header_for,
}
use archoncloud_go.Shards.Container.Masks.{kept, masked, IsRecoverable}
use archoncloud_go.Shards.Container.Recover.{fresh, rs_encode-ok, rs_decode-masked, created-bounded}

new_bors-IsValid :
    (j total needed len : ℕ) (digest : Bytes)
    → len < 2 ^ 63
    → length digest ≡ 32
    → BorsHeader.IsValid (new_bors_shard_header j total needed (pos len) digest)
unfolding new_bors_shard_header
new_bors-IsValid j total needed len digest lt l = record {
  version = refl;
  container = refl;
  erasure_code = refl;
  total = omega arith;
  needed = omega arith;
  shard_index = omega arith;
  data_len = lt;
  hash_len = l;
}

module _ (fec : Infectious) (code : IsErasureCode fec) (hash : Bytes → Bytes)
    (hash_len : (b : Bytes) → length (hash b) ≡ 32) (sign : Bytes → Result Bytes)
    (signs : (digest : Bytes)
      → (sig : Bytes) × (sign digest ≡ ok sig) × (length sig ≡ archon_signature_len))
    (k n : ℕ) (recover : IsRecoverable fec code k n) (positive : 0 < k) (ordered : k ≤ n)
    (few : n ≤ 255) where
  -- For an erasure code that recovers its input from any k of n shares, 0 < k ≤ n ≤ 255, a hash of
  -- 32 bytes and signatures of 65: a payload of less than 2^61 bytes is put into a container of
  -- either kind; `NewBors` and its encoder, given the container's hash, succeed on the container's
  -- bytes; and the decoder, given any k or more of the resulting shards, the others nil, returns
  -- the payload.
  pub bors_decode-encode :
      (f : FileContainer) (payload : Bytes) (c : Created) (mask : List Bool)
      → (f.container ≡ browser_optimized) ⊎ (f.container ≡ archive_optimized)
      → length payload < 2 ^ 61
      → create_container_bytes fec hash sign f payload ≡ ok c
      → length mask ≡ n
      → k ≤ kept mask
      → (sc : ShardsContainer) × (sc' : ShardsContainer) × (new_bors (pos n) (pos k) ≡ ok sc)
        × (bors_encode fec (record sc { file_container_hash = c.hash }) c.bytes ≡ ok sc')
        × (rs_decode fec hash (record sc' { shards = masked mask sc'.shards }) ≡ ok payload)
  unfolding new_bors bors_encode bors_header_for
  bors_decode-encode f payload c mask kind lt made len enough =
      let (size, digest_len) =
        created-bounded fec code hash hash_len sign signs f payload c kind lt made in
      let t = browser_optimized_reed_solomon in
      let hdr : ℕ → BorsShardHeader =
        λ j. new_bors_shard_header j (n % 2 ^ 64) (k % 2 ^ 64) (pos (length c.bytes)) c.hash in
      let header : ℕ → Bytes = λ j. BorsHeader.to_bytes (hdr j) in
      let (pad, whole, total, encoded) =
        rs_encode-ok fec code t bors k n c.hash positive ordered (omega arith) (λ j. ok (header j))
          header c.bytes (λ j lt. refl) (omega arith) in
      (
        fresh t bors k n [],
        _,
        refl,
        encoded,
        rs_decode-masked fec code t bors k n c.hash positive ordered (omega arith) recover hash
            (λ j. bors_header (hdr j)) header (c.bytes ++ replicate pad 0) payload mask
            (λ j lt.
              new_bors-IsValid j (n % 2 ^ 64) (k % 2 ^ 64) (length c.bytes) c.hash (omega arith)
                digest_len)
            (λ j lt. refl)
            (λ j.
              get_original-create fec code hash hash_len sign signs f payload (replicate pad 0) c
                (bors_header (hdr j)) kind lt made (unfold new_bors_shard_header in refl)
                (unfold new_bors_shard_header in refl))
            whole len enough,
      )
