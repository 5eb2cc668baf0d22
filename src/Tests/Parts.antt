-- ===== src/Tests/Parts.antt =====
-- The theorems on sizes, headers and the callback of the encoder, on concrete inputs.
use archoncloud_go.Base.{
  ℕ, List, Option, ◌+◌, ◌-◌, ◌*◌, ◌/◌, ◌≡◌, refl, [], ◌∷◌, ◌++◌, length, ok, arith, some, none, leb,
}
use archoncloud_go.Base.Int.{pos, negsuc}
use archoncloud_go.Common.Bytes.{Bytes, big_endian_uint64, read_big_endian_int64}
use archoncloud_go.Common.Bytes.Reading.{read_int64-append}
use archoncloud_go.Shards.Types.{
  browser_optimized_mxor, archive_optimized_reed_solomon, browser_optimized_reed_solomon,
  archive_optimized, rs_infectious, mxor_2_6,
}
use archoncloud_go.Shards.Erasure.{Share, generate_rsi_parity}
use archoncloud_go.Shards.Erasure.Parity.{generate_rsi_parity-one}
use archoncloud_go.Shards.Sizes.{get_shard_data_len}
use archoncloud_go.Shards.Sizes.Exact.{share, aors_data_len-ok, mxor_data_len-ok}
use archoncloud_go.Shards.MxorHeader.{
  MxorShardHeader, new_mxor_shard_header, new_mxor_header_from_reader,
}
use archoncloud_go.Shards.MxorHeader
use archoncloud_go.Shards.MxorHeader.RoundTrip.{new_mxor_header_from_reader-to_bytes}
use archoncloud_go.Shards.BorsHeader.{
  BorsShardHeader, new_bors_shard_header, new_bors_header_from_reader,
}
use archoncloud_go.Shards.BorsHeader
use archoncloud_go.Shards.BorsHeader.RoundTrip.{new_bors_header_from_reader-to_bytes}
use archoncloud_go.Shards.Shard.{Shard}
use archoncloud_go.Shards.FileContainer.{pay_load_end}
use archoncloud_go.Shards.FileContainer.Layout.{pay_load_end-archive}
use archoncloud_go.Shards.Container.{have_all_needed, place}
use archoncloud_go.Shards.Container.Placed.{IsPlaced, place-IsPlaced}
use archoncloud_go.Shards.Container.Masks.{present, have_all_needed-present}
use archoncloud_go.Tests.Instances.{repetition, repetition_code}
use archoncloud_go.Tests.Witnesses.{payload, digest}

pay_load_end-archive_example :
    pay_load_end archive_optimized (pos (9 + (100 + ((100 + 25 - 1) / 25 + 69))))
    ≡ ok (pos (9 + 100))
pay_load_end-archive_example = pay_load_end-archive 100 (omega arith)

abbrev shard : Shard
shard = record { hdr = []; content = payload }

have_all_needed-present_example :
    have_all_needed (pos 2) (some shard ∷ none ∷ some shard ∷ some shard ∷ [])
    ≡ leb 2 (present (some shard ∷ none ∷ some shard ∷ some shard ∷ []))
have_all_needed-present_example =
    have_all_needed-present 2 (some shard ∷ none ∷ some shard ∷ some shard ∷ []) (omega arith)

generate_rsi_parity-one_example :
    (p : Bytes) × (generate_rsi_parity repetition (1 ∷ 2 ∷ 3 ∷ 4 ∷ 5 ∷ []) 4 1 ≡ ok (p ∷ []))
    × (length p ≡ (5 + 4 - 1) / 4)
generate_rsi_parity-one_example =
    generate_rsi_parity-one repetition repetition_code (1 ∷ 2 ∷ 3 ∷ 4 ∷ 5 ∷ []) 4 (omega arith)
      (omega arith)

abbrev header_of : ℕ → Bytes
header_of j = j ∷ []

-- Out of order, the first of them over a shard that is there.
abbrev two_shares : List Share
two_shares = record { number = 2; content = payload } ∷ record { number = 0; content = digest } ∷ []

abbrev four_slots : List (Option Shard)
four_slots = none ∷ none ∷ some shard ∷ some shard ∷ []

place-IsPlaced_example :
    (after : List (Option Shard)) × (place (λ j. ok (header_of j)) two_shares four_slots ≡ ok after)
    × IsPlaced (λ j. ok (header_of j)) header_of two_shares four_slots after
place-IsPlaced_example =
    place-IsPlaced (λ j. ok (header_of j)) header_of two_shares four_slots
      ((omega arith, refl), ((omega arith, refl), tt)) (((λ e. omega arith), tt), (tt, tt))

aors_data_len-ok_example :
    get_shard_data_len (pos 1000) archive_optimized_reed_solomon (pos 7)
    ≡ ok (pos (share 1000 7 + share (share 1000 7) 25 + 4))
aors_data_len-ok_example = aors_data_len-ok 1000 7 (omega arith) (omega arith)

mxor_data_len-ok_example :
    get_shard_data_len (pos 100) browser_optimized_mxor (pos 2) ≡ ok (pos (share 100 6 * 3))
mxor_data_len-ok_example = mxor_data_len-ok 100 (omega arith)

read_int64-append_example :
    read_big_endian_int64 (big_endian_uint64 (negsuc 41) ++ payload) ≡ ok (negsuc 41, payload)
read_int64-append_example = read_int64-append (negsuc 41) payload (omega arith)

abbrev mxor_hdr : MxorShardHeader
mxor_hdr = record {
  version = 0;
  container = browser_optimized_mxor;
  flags = 128;
  erasure_code = mxor_2_6;
  shard_index = 5;
  file_container_data_len = 70000;
  file_container_hash = digest;
}

mxor_hdr-IsValid : MxorHeader.IsValid mxor_hdr
mxor_hdr-IsValid = record {
  version = refl;
  container = refl;
  flags = omega arith;
  erasure_code = refl;
  shard_index = omega arith;
  data_len = omega arith;
  hash_len = refl;
}

new_mxor_header_from_reader-to_bytes_example :
    new_mxor_header_from_reader (MxorHeader.to_bytes mxor_hdr ++ payload) ≡ ok (mxor_hdr, payload)
new_mxor_header_from_reader-to_bytes_example =
    new_mxor_header_from_reader-to_bytes mxor_hdr payload mxor_hdr-IsValid

abbrev bors_hdr : BorsShardHeader
bors_hdr = record {
  version = 0;
  container = browser_optimized_reed_solomon;
  erasure_code = rs_infectious;
  total_shards_num = 255;
  needed_shards_num = 128;
  shard_index = 254;
  file_container_data_len = pos 5000000000;
  file_container_hash = digest;
}

bors_hdr-IsValid : BorsHeader.IsValid bors_hdr
bors_hdr-IsValid = record {
  version = refl;
  container = refl;
  erasure_code = refl;
  total = omega arith;
  needed = omega arith;
  shard_index = omega arith;
  data_len = omega arith;
  hash_len = refl;
}

new_bors_header_from_reader-to_bytes_example :
    new_bors_header_from_reader (BorsHeader.to_bytes bors_hdr ++ payload) ≡ ok (bors_hdr, payload)
new_bors_header_from_reader-to_bytes_example =
    new_bors_header_from_reader-to_bytes bors_hdr payload bors_hdr-IsValid
