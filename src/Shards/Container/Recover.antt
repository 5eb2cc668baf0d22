-- ===== src/Shards/Container/Recover.antt =====
-- A file container that was encoded is recovered from the shards that were got.
pub mod Bors
pub mod Aors
use archoncloud_go.Base.{
  ℕ, ◌+◌, ◌-◌, ◌*◌, ◌%◌, ◌^◌, ◌≤◌, ◌<◌, ◌≡◌, refl, sym, ap, ◌∙◌, subst, List, [], ◌∷◌, ◌++◌, length,
  replicate, append-nil, length-append, length-replicate, ok, ok-injective, Result, arith, none,
  Bool, ◌⊎◌, inl, inr,
}
use archoncloud_go.Base.Arith.{ceil-bounds}
use archoncloud_go.Base.Int.{pos, *ℤ_pos, -ℤ_pos}
use native.Mathlib.Nat.{mul-mod_left}
use archoncloud_go.Common.Bytes.{Bytes, crc32}
use archoncloud_go.Common.Bytes.Reading.{length-crc32}
use archoncloud_go.Shards.Types.{
  ShardContainerType, browser_optimized_reed_solomon, archive_optimized_reed_solomon, rs_infectious,
  browser_optimized, archive_optimized, archon_signature_len,
}
use archoncloud_go.Shards.Erasure.{Infectious, IsErasureCode, numbered}
use archoncloud_go.Shards.Sizes.Exact.{share, share_size-ok}
use archoncloud_go.Shards.BorsHeader
use archoncloud_go.Shards.BorsHeader.{BorsShardHeader, new_bors_shard_header}
use archoncloud_go.Shards.AorsHeader
use archoncloud_go.Shards.AorsHeader.{AorsShardHeader, new_aors_shard_header}
use archoncloud_go.Shards.Header.{
  ShardHeader, bors_header, aors_header, to_bytes, IsValid, new_shard_header,
}
use archoncloud_go.Shards.Header.RoundTrip.{reads_back, new_shard_header-to_bytes}
use archoncloud_go.Shards.FileContainer.{
  FileContainer, Created, header_bytes, create_container_bytes, get_original_data_from_container,
}
use archoncloud_go.Shards.FileContainer.RoundTrip.{created_browser, created_archive}
use archoncloud_go.Shards.FileContainer.Recover.{get_original-create}
use archoncloud_go.Shards.Container.{
  ShardsContainer, Codec, bors, aors, padded, place, rs_encode, rs_decode, original_of,
  get_sample_shard_hdr, new_bors, new_aors, bors_encode, aors_encode, bors_header_for,
  aors_header_for,
}
use archoncloud_go.Shards.Container.Placing.{shards_from, place-into_empty}
use archoncloud_go.Shards.Container.Masks.{
  kept, masked, IsRecoverable, present_shares-masked, get_first_shard-masked,
}

-- A container that `NewBors` or `NewAors` made, with the file container's hash put in.
abbrev pub fresh : ShardContainerType → Codec → ℕ → ℕ → Bytes → ShardsContainer
fresh kind codec k n digest = record {
  container_type = kind;
  erasure_code = rs_infectious;
  num_total = pos n;
  num_required = pos k;
  file_container_hash = digest;
  shards = replicate n none;
  codec = codec;
}

-- The padding makes the length a multiple of the number of required shares.
padded-whole :
    (kind : ShardContainerType) (codec : Codec) (k n : ℕ) (digest bs : Bytes)
    → 0 < k
    → length bs + k < 2 ^ 62
    → (pad : ℕ) × (padded (fresh kind codec k n digest) bs ≡ ok (bs ++ replicate pad 0))
      × (length (bs ++ replicate pad 0) % k ≡ 0)
      × (length (bs ++ replicate pad 0) ≡ share (length bs) k * k)
unfolding padded
padded-whole kind codec k n digest bs h lt =
    let b = ceil-bounds (length bs) k h in
    let pad = share (length bs) k * k - length bs in
    let zeros : length (replicate {A = ℕ} pad 0) ≡ pad = length-replicate pad 0 in
    let total : length (bs ++ replicate pad 0) ≡ share (length bs) k * k =
      omega (arith, length-append bs (replicate pad 0), zeros) in
    (
      pad,
      rw (
        share_size-ok (length bs) k h (omega arith),
        *ℤ_pos (share (length bs) k) k (omega arith),
        -ℤ_pos (share (length bs) k * k) (length bs) (omega arith) (omega arith),
      ),
      rw total (mul-mod_left (share (length bs) k) k),
      total,
    )

module _ (fec : Infectious) (code : IsErasureCode fec) (kind : ShardContainerType) (codec : Codec)
    (k n : ℕ) (digest : Bytes) (positive : 0 < k) (ordered : k ≤ n) (few : n ≤ 256) where
  -- Encoding gives every piece its header.
  pub rs_encode-ok :
      (header_for : ℕ → Result Bytes) (header : ℕ → Bytes) (bs : Bytes)
      → ((j : ℕ) → j < n → header_for j ≡ ok (header j))
      → length bs + k < 2 ^ 62
      → (pad : ℕ) × (length (bs ++ replicate pad 0) % k ≡ 0)
        × (length (bs ++ replicate pad 0) ≡ share (length bs) k * k)
        × (rs_encode fec header_for (fresh kind codec k n digest) bs
            ≡ ok (record (fresh kind codec k n digest) {
              shards = shards_from header 0 (code.pieces k n (bs ++ replicate pad 0));
            }))
  unfolding rs_encode
  rs_encode-ok header_for header bs made lt =
      let (pad, e, whole, total) = padded-whole kind codec k n digest bs positive lt in
      let ps = code.pieces k n (bs ++ replicate pad 0) in
      let count = code.length-pieces k n (bs ++ replicate pad 0) positive ordered few whole in
      let placed : place header_for (numbered 0 ps) (replicate n none)
          ≡ ok (shards_from header 0 ps) =
        subst
          (λ t. place header_for (numbered 0 ps) (replicate t none) ≡ ok (shards_from header 0 ps))
          count (place-into_empty header_for header ps (λ j j<. made j (omega arith))) in
      (
        pad,
        whole,
        total,
        rw (
          e,
          code.accepts k n positive ordered few,
          code.encodes k n (bs ++ replicate pad 0) positive ordered few whole,
          placed,
        ),
      )

  -- Decoding the shards that a mask keeps.
  pub rs_decode-masked :
      (recover : IsRecoverable fec code k n) (hash : Bytes → Bytes) (hdr : ℕ → ShardHeader)
      (header : ℕ → Bytes) (bs payload : Bytes) (mask : List Bool)
      → ((j : ℕ) → j < n → IsValid (hdr j))
      → ((j : ℕ) → j < n → to_bytes fec (hdr j) ≡ ok (header j))
      → ((j : ℕ) → get_original_data_from_container hash (hdr j) bs ≡ ok payload)
      → length bs % k ≡ 0
      → length mask ≡ n
      → k ≤ kept mask
      → rs_decode fec hash (record (fresh kind codec k n digest) {
        shards = masked mask (shards_from header 0 (code.pieces k n bs));
      })
        ≡ ok payload
  unfolding rs_decode original_of get_sample_shard_hdr
  rs_decode-masked recover hash hdr header bs payload mask valid written original whole len enough =
      let ps = code.pieces k n bs in
      let count = code.length-pieces k n bs positive ordered few whole in
      let (j, p, lt, first) =
        get_first_shard-masked header 0 mask ps (len ∙ sym count) (omega arith) in
      let j< : j < n = omega arith in
      let (tag, back) = reads_back fec code (hdr j) (header j) (valid j j<) (written j j<) in
      let again : new_shard_header fec (header j) ≡ ok (hdr j, []) =
        subst (λ (t : Bytes). new_shard_header fec t ≡ ok (hdr j, [])) (append-nil (header j))
          (back []) in
      rw (
        code.accepts k n positive ordered few,
        present_shares-masked header 0 mask ps,
        recover.decodes bs mask whole len enough,
        first,
        again,
        original j,
      )

-- What `CreateContainerBytes` gives is bounded, and its hash is that of its bytes.
pub created-bounded :
    (fec : Infectious) (code : IsErasureCode fec) (hash : Bytes → Bytes)
    (hash_len : (b : Bytes) → length (hash b) ≡ 32) (sign : Bytes → Result Bytes)
    (signs : (digest : Bytes)
      → (sig : Bytes) × (sign digest ≡ ok sig) × (length sig ≡ archon_signature_len))
    (f : FileContainer) (payload : Bytes) (c : Created)
    → (f.container ≡ browser_optimized) ⊎ (f.container ≡ archive_optimized)
    → length payload < 2 ^ 61
    → create_container_bytes fec hash sign f payload ≡ ok c
    → (length c.bytes + 256 < 2 ^ 62) × (length c.hash ≡ 32)
created-bounded fec code hash hash_len sign signs f payload c (inl e) lt made =
    let (tail, sig, lt', created) = created_browser fec code hash hash_len sign signs f payload e in
    let same = ok-injective _ _ (sym made ∙ created) in
    let l = length-append (header_bytes f) (payload ++ tail) in
    (
      omega (arith, ap (λ (x : Created). length x.bytes) same, l, length-append payload tail),
      ap (λ (x : Created). length x.hash) same ∙ hash_len _,
    )
created-bounded fec code hash hash_len sign signs f payload c (inr e) lt made =
    let (p, tail, sig, lp, lt', created) =
      created_archive fec code hash hash_len sign signs f payload e in
    let same = ok-injective _ _ (sym made ∙ created) in
    let head = header_bytes f ++ p in
    let l = length-append (head ++ crc32 head) (payload ++ tail) in
    let s : share (length payload) 25 ≤ length payload = omega arith in
    (
      omega (
        arith,
        ap (λ (x : Created). length x.bytes) same,
        l,
        length-append payload tail,
        length-append head (crc32 head),
        length-append (header_bytes f) p,
        length-crc32 head,
      ),
      ap (λ (x : Created). length x.hash) same ∙ hash_len _,
    )
