-- ===== src/Shards/FileContainer/Recover.antt =====
-- The payload of a created container is read back from its bytes.
use archoncloud_go.Base.{
  ℕ, ◌+◌, ◌^◌, ◌<◌, ◌≡◌, ◌⊎◌, inl, inr, refl, sym, ap, ◌∙◌, subst, ◌++◌, length, length-append,
  take-append, append_assoc, le→ltb, bytes_eq_refl, ok, ok-injective, Result, arith,
}
use archoncloud_go.Base.Int.{pos}
use archoncloud_go.Common.Bytes.{Bytes, crc32}
use archoncloud_go.Common.Bytes.Reading.{length-crc32}
use archoncloud_go.Shards.Types.{
  browser_optimized, archive_optimized, file_container_type, file_container_byte,
  archon_signature_len,
}
use archoncloud_go.Shards.Sizes.Exact.{share}
use archoncloud_go.Shards.Erasure.{Infectious, IsErasureCode}
use archoncloud_go.Shards.Header.{ShardHeader, get_file_container_len, get_file_container_hash}
use archoncloud_go.Shards.FileContainer.{
  FileContainer, Created, header_bytes, create_container_bytes, get_original_data_from_container,
  check_container_header, pay_load_end,
}
use archoncloud_go.Shards.FileContainer.Layout.{
  pay_load_end-browser, pay_load_end-archive, read_container, slice_range-middle,
}
use archoncloud_go.Shards.FileContainer.RoundTrip.{created_browser, created_archive}

module _ (hash : Bytes → Bytes) (hdr : ShardHeader) (f : FileContainer) where
  read_browser :
      (payload tail pad : Bytes)
      → f.container ≡ browser_optimized
      → length tail ≡ 69
      → length payload < 2 ^ 61
      → get_file_container_len hdr ≡ pos (length (header_bytes f ++ (payload ++ tail)))
      → get_file_container_hash hdr ≡ hash (header_bytes f ++ (payload ++ tail))
      → get_original_data_from_container hash hdr (header_bytes f ++ (payload ++ tail) ++ pad)
        ≡ ok payload
  read_browser payload tail pad e l lt en eh =
      let size : length (header_bytes f ++ (payload ++ tail)) ≡ 4 + (length payload + 69) =
        omega (arith, length-append payload tail, l) in
      read_container hash hdr 1 browser_optimized (header_bytes f) payload tail pad
        (ap (λ t. ok (file_container_byte t)) e) (unfold file_container_type in refl) refl refl en
        eh
        (ap (λ (n : ℕ). pay_load_end browser_optimized (pos n)) size
          ∙ pay_load_end-browser (length payload) (omega arith))

  -- The CRC behind the header is that of the five bytes before it.
  check_archive :
      (h p rest : Bytes)
      → length (h ++ p) ≡ 5
      → check_container_header archive_optimized (h ++ p ++ crc32 (h ++ p) ++ rest) ≡ ok tt
  check_archive h p rest l =
      let b = h ++ p in
      let split = append_assoc b (crc32 b) rest in
      let long =
        le→ltb (length (b ++ (crc32 b ++ rest))) 5
          (omega (arith, length-append b (crc32 b ++ rest))) in
      rw (
        split,
        long,
        take-append 5 b (crc32 b ++ rest) l,
        slice_range-middle 5 9 b (crc32 b) rest l (omega (arith, length-crc32 b)),
        bytes_eq_refl (crc32 b),
      )

  read_archive :
      (p payload tail pad : Bytes)
      → f.container ≡ archive_optimized
      → length p ≡ 1
      → length tail ≡ share (length payload) 25 + 69
      → length payload < 2 ^ 61
      → get_file_container_len hdr
        ≡ pos (length (header_bytes f ++ p ++ crc32 (header_bytes f ++ p) ++ (payload ++ tail)))
      → get_file_container_hash hdr
        ≡ hash (header_bytes f ++ p ++ crc32 (header_bytes f ++ p) ++ (payload ++ tail))
      → get_original_data_from_container hash hdr
          (header_bytes f ++ p ++ crc32 (header_bytes f ++ p) ++ (payload ++ tail) ++ pad)
        ≡ ok payload
  read_archive p payload tail pad e lp lt' lt en eh =
      let h = header_bytes f in
      let head = h ++ p ++ crc32 (h ++ p) in
      let lh : length head ≡ 9 = omega (
        arith,
        length-append (h ++ p) (crc32 (h ++ p)),
        length-append h p,
        length-crc32 (h ++ p),
        lp,
      ) in
      let size : length (head ++ (payload ++ tail))
          ≡ 9 + (length payload + (share (length payload) 25 + 69)) =
        omega (arith, length-append head (payload ++ tail), length-append payload tail, lt', lh) in
      let check =
        check_archive h p (payload ++ tail ++ pad) (omega (arith, length-append h p, lp)) in
      let there : pos (9 + length payload) ≡ pos (length head + length payload) =
        ap (λ (t : ℕ). pos (t + length payload)) (sym lh) in
      read_container hash hdr 2 archive_optimized head payload tail pad
        (ap (λ t. ok (file_container_byte t)) e) (unfold file_container_type in refl) lh
        (subst (λ w. check_container_header archive_optimized w ≡ ok tt)
          (sym (append_assoc head (payload ++ tail) pad)) check)
        en eh
        (ap (λ (n : ℕ). pay_load_end archive_optimized (pos n)) size
          ∙ pay_load_end-archive (length payload) (omega arith)
          ∙ ap ok there)

module _ (fec : Infectious) (code : IsErasureCode fec) (hash : Bytes → Bytes)
    (hash_len : (b : Bytes) → length (hash b) ≡ 32) (sign : Bytes → Result Bytes)
    (signs : (digest : Bytes)
      → (sig : Bytes) × (sign digest ≡ ok sig) × (length sig ≡ archon_signature_len)) where
  -- For an erasure code as documented, a hash of 32 bytes and signatures of 65: if a container of
  -- either kind was created from a payload of less than 2^61 bytes, then the reader gives that
  -- payload back from the container's bytes with any further bytes behind them, under a shard
  -- header that has the container's length and hash.
  pub get_original-create :
      (f : FileContainer) (payload pad : Bytes) (c : Created) (hdr : ShardHeader)
      → (f.container ≡ browser_optimized) ⊎ (f.container ≡ archive_optimized)
      → length payload < 2 ^ 61
      → create_container_bytes fec hash sign f payload ≡ ok c
      → get_file_container_len hdr ≡ pos (length c.bytes)
      → get_file_container_hash hdr ≡ c.hash
      → get_original_data_from_container hash hdr (c.bytes ++ pad) ≡ ok payload
  get_original-create f payload pad c hdr (inl k) lt made en eh =
      let (tail, sig, lt', created) =
        created_browser fec code hash hash_len sign signs f payload k in
      let same = ok-injective _ _ (sym made ∙ created) in
      let bytes = ap (λ (x : Created). x.bytes) same in
      let digest = ap (λ (x : Created). x.hash) same in
      subst (λ bs. get_original_data_from_container hash hdr (bs ++ pad) ≡ ok payload) (sym bytes)
        (read_browser hash hdr f payload tail pad k lt' lt
          (en ∙ ap (λ (bs : Bytes). pos (length bs)) bytes) (eh ∙ digest))
  get_original-create f payload pad c hdr (inr k) lt made en eh =
      let (p, tail, sig, lp, lt', created) =
        created_archive fec code hash hash_len sign signs f payload k in
      let same = ok-injective _ _ (sym made ∙ created) in
      let bytes = ap (λ (x : Created). x.bytes) same in
      let digest = ap (λ (x : Created). x.hash) same in
      subst (λ bs. get_original_data_from_container hash hdr (bs ++ pad) ≡ ok payload) (sym bytes)
        (read_archive hash hdr f p payload tail pad k lp lt' lt
          (en ∙ ap (λ (bs : Bytes). pos (length bs)) bytes) (eh ∙ digest))
