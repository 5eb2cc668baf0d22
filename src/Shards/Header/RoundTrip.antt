-- ===== src/Shards/Header/RoundTrip.antt =====
-- The bytes of any header and what is read back.
use archoncloud_go.Base.{subst, sym, ok-injective}
use archoncloud_go.Base.{ℕ, ◌≡◌, refl, ◌++◌, ◌∷◌, ok, ◌∙◌}
use archoncloud_go.Common.Bytes.{Bytes}
use archoncloud_go.Common.Bytes.Reading.{read_byte-cons}
use archoncloud_go.Shards.Types.{shard_container_type, shard_container_byte}
use archoncloud_go.Shards.Erasure.{Infectious, IsErasureCode}
use archoncloud_go.Shards.MxorHeader
use archoncloud_go.Shards.BorsHeader
use archoncloud_go.Shards.MxorHeader.RoundTrip.{
  new_mxor_header_from_reader-to_bytes, to_bytes-prefix as mxor-prefix,
}
use archoncloud_go.Shards.BorsHeader.RoundTrip.{
  new_bors_header_from_reader-to_bytes, to_bytes-prefix as bors-prefix,
}
use archoncloud_go.Shards.AorsHeader.RoundTrip.{new_aor_header_from_reader-to_bytes}
use archoncloud_go.Shards.Header.{
  ShardHeader, mxor_header, bors_header, aors_header, IsValid, to_bytes, new_shard_header,
  read_header_of, get_container_type,
}

-- Bytes of a header of the version 0 whose second byte is the given one.
abbrev pub IsTagged : ℕ → Bytes → Type 0
IsTagged b hb = (c : ℕ) × (tail : Bytes) × (hb ≡ 0 ∷ b ∷ c ∷ tail)

dispatch :
    (fec : Infectious) {bs : Bytes} (a b : ℕ) (tail rest : Bytes)
    → bs ≡ a ∷ b ∷ tail
    → new_shard_header fec (bs ++ rest) ≡ read_header_of fec (shard_container_type b) b (bs ++ rest)
unfolding new_shard_header
dispatch fec a b tail rest e = rw e (rw (read_byte-cons, read_byte-cons))

-- For an erasure code as documented and every valid header of the three kinds its bytes exist,
-- the second of them names its kind, and `NewShardHeader` reads that header from them and leaves
-- what follows.
pub new_shard_header-to_bytes :
    (fec : Infectious) (code : IsErasureCode fec) (h : ShardHeader)
    → IsValid h
    → (hb : Bytes) × (to_bytes fec h ≡ ok hb)
      × IsTagged (shard_container_byte (get_container_type h)) hb
      × ((rest : Bytes) → new_shard_header fec (hb ++ rest) ≡ ok (h, rest))
new_shard_header-to_bytes fec code (mxor_header h) v = (
  MxorHeader.to_bytes h,
  refl,
  mxor-prefix h v,
  λ rest.
      let (c, tail, e) = mxor-prefix h v in
      dispatch fec 0 0 (c ∷ tail) rest e
      ∙ unfold read_header_of shard_container_type in
        rw (new_mxor_header_from_reader-to_bytes h rest v),
)
new_shard_header-to_bytes fec code (bors_header h) v = (
  BorsHeader.to_bytes h,
  refl,
  subst (λ t. IsTagged (shard_container_byte t) (BorsHeader.to_bytes h)) (sym v.container)
      (bors-prefix h v),
  λ rest.
      let (c, tail, e) = bors-prefix h v in
      dispatch fec 0 1 (c ∷ tail) rest e
      ∙ unfold read_header_of shard_container_type in
        rw (new_bors_header_from_reader-to_bytes h rest v),
)
new_shard_header-to_bytes fec code (aors_header h) v =
    let (hb, e, l, (c, tail, pre), back) = new_aor_header_from_reader-to_bytes fec code h v in
    (
      hb,
      e,
      (c, tail, pre),
      λ rest.
          dispatch fec 0 2 (c ∷ tail) rest pre
          ∙ unfold read_header_of shard_container_type in rw (back rest),
    )

-- The same of the bytes that are at hand.
pub reads_back :
    (fec : Infectious) (code : IsErasureCode fec) (h : ShardHeader) (hb : Bytes)
    → IsValid h
    → to_bytes fec h ≡ ok hb
    → IsTagged (shard_container_byte (get_container_type h)) hb
      × ((rest : Bytes) → new_shard_header fec (hb ++ rest) ≡ ok (h, rest))
reads_back fec code h hb v e =
    let (hb', e', tag, back) = new_shard_header-to_bytes fec code h v in
    let same = ok-injective hb' hb (sym e' ∙ e) in
    subst
      (λ t.
        IsTagged (shard_container_byte (get_container_type h)) t
        × ((rest : Bytes) → new_shard_header fec (t ++ rest) ≡ ok (h, rest)))
      same (tag, back)
