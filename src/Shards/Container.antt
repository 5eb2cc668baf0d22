-- ===== src/Shards/Container.antt =====
-- shards/shardscontainer.go, aors.go, bors.go, bomxor.go: the container of all shards of a file.
-- The function fields `Encode` and `Decode` are those of the constructor that built the container,
-- which `codec` names.
pub mod Placed
pub mod Placing
pub mod Masks
pub mod Recover
use archoncloud_go.Base.{
  ℕ, zero, suc, ◌+◌, ◌*◌, ◌%◌, ◌^◌, List, [], ◌∷◌, ◌++◌, length, set, get_elem?, replicate, ltb,
  leb, ◌==◌, not, if◌then◌else◌, Bool, true, false, Option, none, some, Result, ok, err, panic,
  Error, foreign, no_shards, two_shards_needed, too_large, wrong_shard_count, shard_index_too_large,
  unknown_shard_container, ◌>>=◌, ◌>>◌, guard,
}
use archoncloud_go.Base.Int.{ℤ, pos, negsuc, ◌-ℤ◌, ◌*ℤ◌, to_u64, pos_part}
use archoncloud_go.Common.Bytes.{Bytes}
use archoncloud_go.Shards.Types.{
  ErasureCodeType, mxor_2_6, rs_infectious, ShardContainerType, browser_optimized_mxor,
  browser_optimized_reed_solomon, archive_optimized_reed_solomon, shard_container_byte,
}
use archoncloud_go.Shards.Erasure.{Infectious, Share, get_reed_solomon_share_size}
use archoncloud_go.Shards.Sizes.{bo_mxor_num_required, bo_mxor_num_total}
use archoncloud_go.Shards.MxorHeader
use archoncloud_go.Shards.MxorHeader.{new_mxor_shard_header}
use archoncloud_go.Shards.BorsHeader
use archoncloud_go.Shards.BorsHeader.{new_bors_shard_header}
use archoncloud_go.Shards.AorsHeader
use archoncloud_go.Shards.AorsHeader.{new_aors_shard_header}
use archoncloud_go.Shards.Header.{
  ShardHeader, new_shard_header, get_num_total, get_num_required, get_shard_payload_len,
  get_shard_num_bytes,
}
use archoncloud_go.Shards.Header
use archoncloud_go.Shards.Shard.{Shard}
use archoncloud_go.Shards.FileContainer.{get_original_data_from_container}
use archoncloud_go.Shards.Mxor.{MxorCodec, encode_mxor, decode_mxor}

pub data Codec : Type 0 where
  bo_mxor bors aors : Codec

-- `nil` shards are `none`.
pub record ShardsContainer : Type 0 where
  pub container_type : ShardContainerType
  pub erasure_code : ErasureCodeType
  pub num_total : ℤ
  pub num_required : ℤ
  pub file_container_hash : Bytes
  pub shards : List (Option Shard)
  pub codec : Codec

-- `make([]*Shard, total)`, which panics on a negative length.
abbrev pub make_shards : ℤ → Result (List (Option Shard))
make_shards (pos n) = ok (replicate n none)
make_shards (negsuc n) = panic

abbrev pub new_bo_mxor : ShardsContainer
new_bo_mxor = record {
  container_type = browser_optimized_mxor;
  erasure_code = mxor_2_6;
  num_total = pos bo_mxor_num_total;
  num_required = pos bo_mxor_num_required;
  file_container_hash = [];
  shards = replicate bo_mxor_num_total none;
  codec = bo_mxor;
}

unfoldable pub new_bors : ℤ → ℤ → Result ShardsContainer
new_bors total needed = do
  shards ← make_shards total
  ok (record {
    container_type = browser_optimized_reed_solomon;
    erasure_code = rs_infectious;
    num_total = total;
    num_required = needed;
    file_container_hash = [];
    shards = shards;
    codec = bors;
  })

unfoldable pub new_aors : ℤ → ℤ → Result ShardsContainer
new_aors total needed = do
  shards ← make_shards total
  ok (record {
    container_type = archive_optimized_reed_solomon;
    erasure_code = rs_infectious;
    num_total = total;
    num_required = needed;
    file_container_hash = [];
    shards = shards;
    codec = aors;
  })

abbrev pub container_of : ShardHeader → ShardContainerType → Result ShardsContainer
container_of hdr browser_optimized_mxor = ok new_bo_mxor
container_of hdr browser_optimized_reed_solomon =
    new_bors (get_num_total hdr) (get_num_required hdr)
container_of hdr archive_optimized_reed_solomon =
    new_aors (get_num_total hdr) (get_num_required hdr)
container_of hdr other = err (unknown_shard_container (shard_container_byte other))

unfoldable pub new_shards_container : Infectious → Bytes → Result ShardsContainer
new_shards_container fec shard_bytes = do
  (hdr, r) ← new_shard_header fec shard_bytes
  container_of hdr (Header.get_container_type hdr)

-- A negative index panics; one past the end is `nil`.
unfoldable pub get_shard : ShardsContainer → ℤ → Result (Option Shard)
get_shard sc (negsuc i) = panic
get_shard sc (pos i) = elim (get_elem? sc.shards i) [ none ↦ ok none | some s ↦ ok s ]

unfoldable pub set_shard : ShardsContainer → ℤ → Option Shard → Result ShardsContainer
set_shard sc (negsuc i) shard = panic
set_shard sc (pos i) shard =
    if ltb i (length sc.shards)
    then ok (record sc { shards = set sc.shards i shard })
    else err shard_index_too_large

unfoldable pub get_first_shard : List (Option Shard) → Option Shard
get_first_shard [] = none
get_first_shard (none ∷ shards) = get_first_shard shards
get_first_shard (some sh ∷ shards) = some sh

-- The loop counts down, and stops as soon as no more are needed.
unfoldable pub have_all_needed : ℤ → List (Option Shard) → Bool
have_all_needed num_needed [] = leb (pos_part num_needed) 0
have_all_needed num_needed (none ∷ shards) = have_all_needed num_needed shards
have_all_needed num_needed (some sh ∷ shards) =
    let n = num_needed -ℤ pos 1 in
    let rest = have_all_needed n shards in if leb (pos_part n) 0 then true else rest

unfoldable pub have_all_needed_shards : ShardsContainer → Bool
unfolding have_all_needed
have_all_needed_shards sc = have_all_needed sc.num_required sc.shards

abbrev pub header_of_first : Infectious → Option Shard → Result ShardHeader
header_of_first fec none = err no_shards
header_of_first fec (some sh) = do (hdr, r) ← new_shard_header fec sh.hdr; ok hdr

unfoldable pub get_sample_shard_hdr : Infectious → ShardsContainer → Result ShardHeader
unfolding get_first_shard
get_sample_shard_hdr fec sc = header_of_first fec (get_first_shard sc.shards)

-- The error is dropped, and the method call on the nil header panics.
abbrev pub nil_is_panic : {A : Type 0} → Result A → Result A
nil_is_panic (ok a) = ok a
nil_is_panic (err e) = panic
nil_is_panic panic = panic

abbrev pub payload_len_of : Infectious → Option Shard → Result ℤ
payload_len_of fec none = ok (pos 0)
payload_len_of fec (some sh) = do
  (hdr, r) ← nil_is_panic (new_shard_header fec sh.hdr)
  get_shard_payload_len hdr

unfoldable pub get_shard_data_len_of : Infectious → ShardsContainer → Result ℤ
unfolding get_first_shard
get_shard_data_len_of fec sc = payload_len_of fec (get_first_shard sc.shards)

-- `sc.shards[s.Number] = &Shard{…}`, which panics out of range.
place_one : List (Option Shard) → ℕ → Shard → Result (List (Option Shard))
place_one shards i sh = if ltb i (length shards) then ok (set shards i (some sh)) else panic

-- The callback of `Encode`: each share gets a header and a copy of its data.
unfoldable pub place :
    (ℕ → Result Bytes) → List Share → List (Option Shard) → Result (List (Option Shard))
unfolding place_one
place header_for [] shards = ok shards
place header_for (s ∷ shares) shards = do
  hb ← header_for s.number
  shards' ← place_one shards s.number (record { hdr = hb; content = s.content })
  place header_for shares shards'

-- The container's bytes with zeros up to a multiple of the required number of shares.
abbrev pub with_padding : Bytes → ℤ → Result Bytes
with_padding bs (pos padding) = ok (bs ++ replicate padding 0)
with_padding bs (negsuc padding) = panic

unfoldable pub padded : ShardsContainer → Bytes → Result Bytes
padded sc file_container = do
  let origin_len = pos (length file_container)
  size ← get_reed_solomon_share_size origin_len sc.num_required
  with_padding file_container (size *ℤ sc.num_required -ℤ origin_len)

-- The shares of the shards that are there.
unfoldable pub present_shares : ℕ → List (Option Shard) → List Share
present_shares ix [] = []
present_shares ix (none ∷ shards) = present_shares (suc ix) shards
present_shares ix (some sh ∷ shards) =
    record { number = ix; content = sh.content } ∷ present_shares (suc ix) shards

module _ (fec : Infectious) where
  unfoldable pub bors_header_for : ShardsContainer → ℕ → ℕ → Result Bytes
  bors_header_for sc origin_len number = ok (
      BorsHeader.to_bytes (
        new_bors_shard_header number (to_u64 sc.num_total) (to_u64 sc.num_required) (pos origin_len)
          sc.file_container_hash))

  unfoldable pub aors_header_for : ShardsContainer → ℕ → ℕ → Result Bytes
  aors_header_for sc origin_len number = AorsHeader.to_bytes fec (
      new_aors_shard_header (pos number) sc.num_total sc.num_required (pos origin_len)
        sc.file_container_hash)

  -- `aorsEncode` and `borsEncode`, which differ in the header.
  unfoldable pub rs_encode : (ℕ → Result Bytes) → ShardsContainer → Bytes → Result ShardsContainer
  unfolding padded place
  rs_encode header_for sc file_container = do
    guard (fec.new_fec sc.num_required sc.num_total) foreign
    to_encode ← padded sc file_container
    shares ← fec.encode sc.num_required sc.num_total to_encode
    shards ← place header_for shares sc.shards
    ok (record sc { shards = shards })

  unfoldable pub bors_encode : ShardsContainer → Bytes → Result ShardsContainer
  unfolding rs_encode bors_header_for
  bors_encode sc file_container =
      rs_encode (bors_header_for sc (length file_container)) sc file_container

  unfoldable pub aors_encode : ShardsContainer → Bytes → Result ShardsContainer
  unfolding rs_encode aors_header_for
  aors_encode sc file_container =
      rs_encode (aors_header_for sc (length file_container)) sc file_container

-- A range loop over the codec's shards.
mxor_shares : ℕ → List Bytes → List Share
mxor_shares i [] = []
mxor_shares i (b ∷ bs) = record { number = i; content = b } ∷ mxor_shares (suc i) bs

unfoldable pub bomxor_encode : MxorCodec → ShardsContainer → Bytes → Result ShardsContainer
unfolding place mxor_shares
bomxor_encode c sc file_container = do
  let origin_len = length file_container
  guard (ltb origin_len 4000000000) too_large
  shards_v ← encode_mxor c file_container sc.erasure_code
  guard (length shards_v == length sc.shards) (wrong_shard_count (length shards_v))
  shards ←
      place
        (λ ix. ok (
          MxorHeader.to_bytes
            (new_mxor_shard_header ix (origin_len % 2 ^ 32) sc.file_container_hash)))
        (mxor_shares 0 shards_v) sc.shards
  ok (record sc { shards = shards })

module _ (fec : Infectious) (hash : Bytes → Bytes) where
  -- The end that the three decoders share. The result is what is copied to the writer.
  unfoldable pub original_of : ShardsContainer → Bytes → Result Bytes
  unfolding get_sample_shard_hdr
  original_of sc file_container = do
    hdr ← get_sample_shard_hdr fec sc
    get_original_data_from_container hash hdr file_container

  -- `aorsDecode` and `borsDecode`
  unfoldable pub rs_decode : ShardsContainer → Result Bytes
  unfolding present_shares original_of
  rs_decode sc = do
    guard (fec.new_fec sc.num_required sc.num_total) foreign
    file_container ← fec.decode sc.num_required sc.num_total (present_shares 0 sc.shards)
    original_of sc file_container

  -- The first two shards that are there, with their indexes.
  abbrev pub mxor_decode_of : MxorCodec → ShardsContainer → List Share → Result Bytes
  mxor_decode_of c sc (a ∷ b ∷ rest) = do
    file_container ← decode_mxor c a.content a.number b.content b.number sc.erasure_code
    original_of sc file_container
  mxor_decode_of c sc _ = err two_shards_needed

  unfoldable pub bomxor_decode : MxorCodec → ShardsContainer → Result Bytes
  unfolding present_shares original_of
  bomxor_decode c sc = mxor_decode_of c sc (present_shares 0 sc.shards)

  abbrev pub encode_with : MxorCodec → Codec → ShardsContainer → Bytes → Result ShardsContainer
  encode_with c bo_mxor = bomxor_encode c
  encode_with c bors = bors_encode fec
  encode_with c aors = aors_encode fec

  abbrev pub decode_with : MxorCodec → Codec → ShardsContainer → Result Bytes
  decode_with c bo_mxor = bomxor_decode c
  decode_with c bors = rs_decode
  decode_with c aors = rs_decode
