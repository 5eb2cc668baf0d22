-- ===== src/Shards/FileContainer/RoundTrip.antt =====
-- What `CreateContainerBytes` writes, and that the payload is read back.
use archoncloud_go.Base.{
  ℕ, ◌+◌, ◌%◌, ◌^◌, ◌≡◌, refl, sym, subst, ◌++◌, length, take, length-append, length-take,
  drop-append, append_assoc, le→ltb, ok, Result, arith,
}
use archoncloud_go.Common.Bytes.{Bytes, crc32, big_endian_uint32}
use archoncloud_go.Common.Bytes.Reading.{length-crc32}
use archoncloud_go.Common.Hash.{HashingWriter}
use archoncloud_go.Shards.Types.{browser_optimized, archive_optimized, archon_signature_len}
use archoncloud_go.Shards.Sizes.Exact.{share}
use archoncloud_go.Shards.Erasure.{
  Infectious, IsErasureCode, generate_rsi_parity_4_5, generate_rsi_parity_25_26,
}
use archoncloud_go.Shards.Erasure.Parity.{generate_rsi_parity-one}
use archoncloud_go.Shards.FileContainer.{
  FileContainer, header_bytes, redundancy_check, write_header_check, write_tail_check,
  create_container_bytes,
}

parity_4_5 :
    (fec : Infectious) (code : IsErasureCode fec) (input : Bytes)
    → (p : Bytes) × (generate_rsi_parity_4_5 fec input ≡ ok p) × (length p ≡ share (length input) 4)
unfolding generate_rsi_parity_4_5
parity_4_5 fec code input =
    let (p, e, l) = generate_rsi_parity-one fec code input 4 (omega arith) (omega arith) in
    (p, rw e, l)

parity_25_26 :
    (fec : Infectious) (code : IsErasureCode fec) (input : Bytes)
    → (p : Bytes) × (generate_rsi_parity_25_26 fec input ≡ ok p)
      × (length p ≡ share (length input) 25)
unfolding generate_rsi_parity_25_26
parity_25_26 fec code input =
    let (p, e, l) = generate_rsi_parity-one fec code input 25 (omega arith) (omega arith) in
    (p, rw e, l)

-- A writer that has hashed what it has written.
abbrev both : Bytes → HashingWriter
both bs = record { to_data = bs; to_hash = bs }

regroup₄ : (a b c d : Bytes) → a ++ b ++ c ++ d ≡ a ++ (b ++ (c ++ d))
regroup₄ a b c d = simp append_assoc

regroup₅ : (a b c d e : Bytes) → a ++ b ++ c ++ d ++ e ≡ a ++ (b ++ (c ++ d ++ e))
regroup₅ a b c d e = simp append_assoc

module _ (fec : Infectious) (hash : Bytes → Bytes) (sign : Bytes → Result Bytes) where
  -- The steps of `CreateContainerBytes` put together.
  assemble :
      (f : FileContainer) (payload head whole sig : Bytes)
      → write_header_check fec hash sign f.container (header_bytes f) (both (header_bytes f))
        ≡ ok (both head)
      → write_tail_check fec hash sign f.container
          (header_bytes f)
          (length head)
          (both (head ++ payload))
        ≡ ok (both whole)
      → sign (hash whole) ≡ ok sig
      → create_container_bytes fec hash sign f payload
        ≡ ok (record { bytes = whole ++ sig; signature = sig; hash = hash (whole ++ sig) })
  unfolding create_container_bytes
  assemble f payload head whole sig a b c = rw (a, b, c)

  tail_browser :
      (hdr body : Bytes) (n : ℕ) (hash_len : (b : Bytes) → length (hash b) ≡ 32)
      → (r : Bytes) × (length r ≡ 4)
        × (write_tail_check fec hash sign browser_optimized hdr n (both body)
            ≡ ok (both (body ++ r)))
  unfolding write_tail_check redundancy_check
  tail_browser hdr body n hash_len =
      let d = hash (hdr ++ big_endian_uint32 ((length body + 4 + 65) % 2 ^ 16)) in
      (
        take 4 d,
        omega (
          arith,
          length-take 4 d,
          hash_len (hdr ++ big_endian_uint32 ((length body + 4 + 65) % 2 ^ 16)),
        ),
        rw (
            le→ltb (length d) 4 (
              omega
                (arith, hash_len (hdr ++ big_endian_uint32 ((length body + 4 + 65) % 2 ^ 16))))),
      )

  head_archive :
      (hdr p : Bytes)
      → generate_rsi_parity_4_5 fec hdr ≡ ok p
      → write_header_check fec hash sign archive_optimized hdr (both hdr)
        ≡ ok (both (hdr ++ p ++ crc32 (hdr ++ p)))
  unfolding write_header_check
  head_archive hdr p e = rw e

  tail_archive :
      (hdr head payload q : Bytes)
      → generate_rsi_parity_25_26 fec payload ≡ ok q
      → write_tail_check fec hash sign archive_optimized hdr (length head) (both (head ++ payload))
        ≡ ok (both (head ++ payload ++ q ++ crc32 (payload ++ q)))
  unfolding write_tail_check
  tail_archive hdr head payload q e = rw (
    drop-append (length head) head payload refl,
    e,
    append_assoc head payload q,
    drop-append (length head) head (payload ++ q) refl,
  )

module _ (fec : Infectious) (code : IsErasureCode fec) (hash : Bytes → Bytes)
    (hash_len : (b : Bytes) → length (hash b) ≡ 32) (sign : Bytes → Result Bytes)
    (signs : (digest : Bytes)
      → (sig : Bytes) × (sign digest ≡ ok sig) × (length sig ≡ archon_signature_len)) where
  abbrev Creates : FileContainer → Bytes → Bytes → Bytes → Type 0
  Creates f payload bs sig =
      create_container_bytes fec hash sign f payload
      ≡ ok (record { bytes = bs; signature = sig; hash = hash bs })

  -- A browser-optimised container: header, payload, four bytes of redundancy, signature.
  pub created_browser :
      (f : FileContainer) (payload : Bytes)
      → f.container ≡ browser_optimized
      → (tail : Bytes) × (sig : Bytes) × (length tail ≡ 69)
        × Creates f payload (header_bytes f ++ (payload ++ tail)) sig
  created_browser f payload e =
      let hdr = header_bytes f in
      let (r, lr, t) = tail_browser fec hash sign hdr (hdr ++ payload) (length hdr) hash_len in
      let (sig, s, l) = signs (hash (hdr ++ payload ++ r)) in
      (
        r ++ sig,
        sig,
        omega (arith, length-append r sig, lr, l),
        subst (λ bs. Creates f payload bs sig) (regroup₄ hdr payload r sig)
            (assemble fec hash sign f payload hdr (hdr ++ payload ++ r) sig
              (subst (λ t. write_header_check fec hash sign t hdr (both hdr) ≡ ok (both hdr))
                (sym e) (unfold write_header_check in refl))
              (subst
                (λ k.
                  write_tail_check fec hash sign k hdr (length hdr) (both (hdr ++ payload))
                  ≡ ok (both (hdr ++ payload ++ r)))
                (sym e) t)
              s),
      )

  -- An archive-optimised container: header, its parity and CRC, payload, its parity and CRC, signature.
  pub created_archive :
      (f : FileContainer) (payload : Bytes)
      → f.container ≡ archive_optimized
      → (p : Bytes) × (tail : Bytes) × (sig : Bytes) × (length p ≡ 1)
        × (length tail ≡ share (length payload) 25 + 69)
        × Creates f payload
            (header_bytes f ++ p ++ crc32 (header_bytes f ++ p) ++ (payload ++ tail))
            sig
  created_archive f payload e =
      let hdr = header_bytes f in
      let (p, ep, lp) = parity_4_5 fec code hdr in
      let head = hdr ++ p ++ crc32 (hdr ++ p) in
      let (q, eq, lq) = parity_25_26 fec code payload in
      let crc = crc32 (payload ++ q) in
      let (sig, s, l) = signs (hash (head ++ payload ++ q ++ crc)) in
      (
        p,
        q ++ crc ++ sig,
        sig,
        lp,
        omega (
          arith,
          length-append (q ++ crc) sig,
          length-append q crc,
          length-crc32 (payload ++ q),
          lq,
          l,
        ),
        subst (λ bs. Creates f payload bs sig) (regroup₅ head payload q crc sig)
            (assemble fec hash sign f payload head (head ++ payload ++ q ++ crc) sig
              (subst (λ t. write_header_check fec hash sign t hdr (both hdr) ≡ ok (both head))
                (sym e) (head_archive fec hash sign hdr p ep))
              (subst
                (λ t.
                  write_tail_check fec hash sign t hdr (length head) (both (head ++ payload))
                  ≡ ok (both (head ++ payload ++ q ++ crc)))
                (sym e) (tail_archive fec hash sign hdr head payload q eq))
              s),
      )
