-- ===== src/Download/Recover/File.antt =====
-- The whole way of a file that is cut into archive-optimised shards (shards/aors.go): encoding,
-- WriteShardContainer, StoreSPShard, and the client's download.
use archoncloud_go.Base.{
  IsDistinct, ℕ, ◌+◌, ◌^◌, ◌<◌, ◌≤◌, ◌≡◌, refl, sym, ap, ◌∙◌, subst, get_elem?, List, [], length,
  replicate, Bool, true, ◌⊎◌, none, some, All, Result, ok, ok-injective, arith,
}
use mathlib.Core.List.{Permᴰ}
use archoncloud_go.Base.Int.{ℤ, pos}
use archoncloud_go.Common.Bytes.{Bytes}
use archoncloud_go.Common.ArchonUrl.{ArchonUrl, url_string}
use archoncloud_go.Shards.Types.{
  browser_optimized, archive_optimized, archive_optimized_reed_solomon, archon_signature_len,
}
use archoncloud_go.Shards.Erasure.{Infectious, IsErasureCode}
use archoncloud_go.Shards.Mxor.{MxorCodec}
use archoncloud_go.Shards.Header.{aors_header, new_shard_header}
use archoncloud_go.Shards.Shard.{Shard, write_shard_container, new_shard_from_sp}
use archoncloud_go.Shards.Shard.Wire.{IsDelivered, shard-IsDelivered}
use archoncloud_go.Shards.FileContainer.{FileContainer, Created, create_container_bytes}
use archoncloud_go.Shards.Container.{
  ShardsContainer, aors, new_aors, aors_encode, new_shards_container, decode_with,
}
use archoncloud_go.Shards.Sizes.Exact.{share}
use archoncloud_go.Shards.Container.Masks.{kept, IsRecoverable}
use archoncloud_go.Shards.Container.Placing.{shards_from}
use archoncloud_go.Shards.Container.Recover.{fresh}
use archoncloud_go.Shards.Container.Recover.Aors.{IsEncoded, aors_encode-IsEncoded}
use archoncloud_go.Download.Sharded.{DownloadOpResult, download_sharded}
use archoncloud_go.Download.Arrivals.{succeeded}
use archoncloud_go.Download.Storing.{fill, IsServed}
use archoncloud_go.Download.Recover.{answers, IsServing, download_sharded-recovers}
use archoncloud_go.Download.Recover.Whole.{
  IsUploaded, read_back, nth, nth-All, fill-masked, get-shards_from,
}

some-some : (a b : Shard) → some (some a) ≡ some (some b) → a ≡ b
some-some a b e = cc

module _ (fec : Infectious) (code : IsErasureCode fec) (hash : Bytes → Bytes)
    (sign : Bytes → Result Bytes)
    (signs : (digest : Bytes)
      → (sig : Bytes) × (sign digest ≡ ok sig) × (length sig ≡ archon_signature_len))
    (k n : ℕ) (bytes digest payload : Bytes) (e : IsEncoded fec hash k n bytes digest payload)
    (served : ℕ → Bytes) where
  abbrev pub made : ShardsContainer
  made = record (fresh archive_optimized_reed_solomon aors k n digest) {
    shards = shards_from e.header 0 e.pieces;
  }

  shard_of : ℕ → Shard
  shard_of j = record { hdr = e.header j; content = nth e.pieces j }

  length-nth : (j : ℕ) → j < n → length (nth e.pieces j) ≡ share (length bytes) k
  length-nth j lt =
      nth-All (λ (p : Bytes). length p ≡ share (length bytes) k) e.pieces j (omega (arith, e.count))
        e.same_length

  -- Each shard can be delivered.
  pub delivered :
      (j : ℕ) → j < n → IsDelivered fec hash sign (aors_header (e.hdr j)) (nth e.pieces j)
  delivered j lt =
      shard-IsDelivered fec code hash sign signs (aors_header (e.hdr j)) (nth e.pieces j)
        (e.valid j lt) (e.payload_len j ∙ ap (λ t. ok (pos t)) (sym (length-nth j lt)))
        (omega (arith, e.small, length-nth j lt))

  made-shard_of : (j : ℕ) → j < n → get_elem? made.shards j ≡ some (some (shard_of j))
  unfolding shard_of
  made-shard_of j lt =
      let zero_j : 0 + j ≡ j = omega arith in
      get-shards_from e.header 0 j e.pieces (omega (arith, e.count))
      ∙ ap (λ t. some (some (record { hdr = e.header t; content = nth e.pieces j }))) zero_j

  pub made-delivered :
      (j : ℕ) (lt : j < n)
      → get_elem? made.shards j
        ≡ some (some (record { hdr = (delivered j lt).hb; content = nth e.pieces j }))
  unfolding shard_of
  made-delivered j lt =
      let same = ok-injective _ _ (sym (e.written j lt) ∙ (delivered j lt).bytes) in
      made-shard_of j lt
      ∙ ap (λ (hb : Bytes). some (some (record { hdr = hb; content = nth e.pieces j }))) same

  -- What a client reads of each served shard.
  served-read :
      (u : IsUploaded fec hash sign n made served) (j : ℕ)
      → j < n
      → ((spare : Bytes) → new_shard_from_sp fec (served j) spare ≡ ok (shard_of j))
        × ((rest : Bytes) × (new_shard_header fec (served j) ≡ ok (aors_header (e.hdr j), rest)))
  unfolding shard_of
  served-read u j lt =
      let same : u.shard j ≡ shard_of j =
        some-some (u.shard j) (shard_of j) (sym (u.encoded j lt) ∙ made-shard_of j lt) in
      read_back fec hash sign (aors_header (e.hdr j)) (e.header j) (nth e.pieces j) (delivered j lt)
        (u.body j) (u.trailer j) (served j) (u.stored j) refl (e.written j lt)
        (subst (λ (s : Shard). write_shard_container fec hash sign s ≡ ok (u.body j)) same
          (u.sent j lt))
        (u.received j lt) (u.kept j lt)

  served-IsServed : IsUploaded fec hash sign n made served → IsServed fec n served shard_of
  served-IsServed u = record { reads = λ j lt. (served-read u j lt).0 }

  -- Each shard makes the same empty container.
  served-opens :
      (u : IsUploaded fec hash sign n made served) (j : ℕ)
      → j < n
      → new_shards_container fec (served j)
        ≡ ok (record (fresh archive_optimized_reed_solomon aors k n []) {
          shards = replicate n none;
        })
  unfolding new_shards_container new_aors
  served-opens u j lt =
      let (rest, again) = (served-read u j lt).1 in rw (again, e.kind j, e.total j, e.needed j)

  at_zero : (j : ℕ) → shard_of (0 + j) ≡ record { hdr = e.header (0 + j); content = nth e.pieces j }
  unfolding shard_of
  at_zero j =
      let zero_j : 0 + j ≡ j = omega arith in
      ap (λ t. record { hdr = e.header (0 + j); content = nth e.pieces t }) zero_j

  served-decodes :
      (mxor : MxorCodec) (mask : List Bool)
      → length mask ≡ n
      → k ≤ kept mask
      → decode_with fec hash mxor aors (record (fresh archive_optimized_reed_solomon aors k n []) {
        shards = fill shard_of 0 mask;
      })
        ≡ ok payload
  unfolding shard_of
  served-decodes mxor mask l enough =
      rw
        (fill-masked e.header shard_of 0 mask e.pieces (omega (arith, e.count)) (λ j lt. at_zero j))
        (e.decodes [] mask l enough)

module _ (fec : Infectious) (code : IsErasureCode fec) (hash : Bytes → Bytes)
    (hash_len : (b : Bytes) → length (hash b) ≡ 32) (sign : Bytes → Result Bytes)
    (signs : (digest : Bytes)
      → (sig : Bytes) × (sign digest ≡ ok sig) × (length sig ≡ archon_signature_len))
    (k n : ℕ) (recover : IsRecoverable fec code k n) (positive : 0 < k) (ordered : k ≤ n)
    (few : n ≤ 255) (spare : Bytes → Bytes) (mxor : MxorCodec)
    (download_file : Bytes → Result Bytes) (arrive : List DownloadOpResult → List DownloadOpResult)
    (arrives : (rs : List DownloadOpResult) → Permᴰ rs (arrive rs))
    (range : List (ℤ × Bytes) → List (ℤ × Bytes))
    (ranges : (es : List (ℤ × Bytes)) → Permᴰ es (range es)) where
  -- The whole way of a file. For an erasure code that recovers its input from any k of n shares,
  -- 0 < k ≤ n ≤ 255, a hash of 32 bytes and signatures of 65: a payload of less than 2^61 bytes is put
  -- into a container and encoded into archive-optimised shards; each shard is written by its uploader,
  -- received and stored by a provider, and served with whatever is appended. If the URL has a text and
  -- names k, the indexes of the map are distinct, and of the providers asked each serves its shard or
  -- gives an error and k or more serve it, then the download gives the payload, in whatever order the
  -- answers arrive and the shards are put into their container.
  pub download_sharded-uploaded :
      (f : FileContainer) (payload : Bytes) (c : Created) (sc sc' : ShardsContainer)
      (served : ℕ → Bytes) (a : ArchonUrl) (text : Bytes) (url_map : List (ℤ × Bytes))
      → (f.container ≡ browser_optimized) ⊎ (f.container ≡ archive_optimized)
      → length payload < 2 ^ 61
      → create_container_bytes fec hash sign f payload ≡ ok c
      → new_aors (pos n) (pos k) ≡ ok sc
      → aors_encode fec (record sc { file_container_hash = c.hash }) c.bytes ≡ ok sc'
      → IsUploaded fec hash sign n sc' served
      → url_string a ≡ ok text
      → a.needed ≡ pos k
      → IsDistinct (λ (e : ℤ × Bytes). e.0) url_map
      → All (IsServing n served download_file text) url_map
      → k ≤ length (succeeded (answers download_file text url_map))
      → download_sharded fec spare hash mxor download_file arrive range true a url_map ≡ ok payload
  download_sharded-uploaded f payload c sc sc' served a text url_map kind lt created new encoded u
        printed needs apart good enough =
      let e =
        aors_encode-IsEncoded fec code hash hash_len sign signs k n recover positive ordered few f
          payload c kind lt created in
      let same_sc : fresh archive_optimized_reed_solomon aors k n [] ≡ sc =
        ok-injective _ _ (unfold new_aors in new) in
      let same : sc' ≡ made fec code hash sign signs k n c.bytes c.hash payload e served =
        ok-injective _ _ (
          sym encoded
          ∙ subst
              (λ (s : ShardsContainer).
                aors_encode fec (record s { file_container_hash = c.hash }) c.bytes
                ≡ ok (made fec code hash sign signs k n c.bytes c.hash payload e served))
              same_sc e.encoded) in
      let u' = subst (λ (s : ShardsContainer). IsUploaded fec hash sign n s served) same u in
      download_sharded-recovers fec n served
        (shard_of fec code hash sign signs k n c.bytes c.hash payload e served)
        (served-IsServed fec code hash sign signs k n c.bytes c.hash payload e served u')
        (fresh archive_optimized_reed_solomon aors k n []) spare hash mxor k positive payload
        (served-opens fec code hash sign signs k n c.bytes c.hash payload e served u')
        (served-decodes fec code hash sign signs k n c.bytes c.hash payload e served mxor)
        download_file arrive arrives range ranges a text url_map printed needs apart good enough
