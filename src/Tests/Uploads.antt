-- ===== src/Tests/Uploads.antt =====
-- The theorems on uploads and profiles, on concrete inputs.
use archoncloud_go.Base.{
  ℕ, ◌≡◌, refl, sym, subst, List, [], ◌∷◌, length, bytes_eq, if◌then◌else◌, true, false, Option,
  none, some, ◌⊎◌, All, ok, err, arith, upload_incomplete, not_a_shard_path,
}
use mathlib.Core.List.{Memᴰ}
use archoncloud_go.Base.Int.{pos}
use archoncloud_go.Common.Bytes.{Bytes}
use archoncloud_go.Common.Profiles.{Urls, SpProfile, url, new_urls, urls_string}
use archoncloud_go.Common.Profiles.Text.{new_urls-urls_string}
use archoncloud_go.Common.ArchonUrl.{
  ArchonUrl, is_hash, is_whole_file, shard_path, index_from_shard_path,
}
use archoncloud_go.Common.ArchonUrl.Paths.{
  index_from_shard_path-shard_path, index_from_shard_path-named,
}
use archoncloud_go.Shards.Shard.{Shard}
use archoncloud_go.Upload.Sharded.{
  ShardUpload, Response, Uploading, count_up, upload_needed_shards, post_shard,
}
use archoncloud_go.Upload.Sharded.Posting.{post_shard-succeeds}
use archoncloud_go.Upload.Sharded.Rounds.{IsUploaded}
use archoncloud_go.Upload.Sharded.Ends.{
  IsChannel, upload_needed_shards-ends, upload_needed_shards-succeeds,
}

abbrev near : Urls
near = record { host = 97 ∷ 98 ∷ []; http_port = 56 ∷ 48 ∷ []; https_port = [] }

abbrev failing : SpProfile
failing = record { urls = near; address = 1 ∷ []; min_ask_price = pos 5 }

abbrev reliable : SpProfile
reliable = record { urls = near; address = 2 ∷ []; min_ask_price = pos 7 }

-- Only requests to the second provider are taken.
abbrev verdict : Bytes → Option Bytes
verdict address = if bytes_eq address (2 ∷ []) then none else some (69 ∷ [])

abbrev post : ℕ → ShardUpload → List Bytes → Bytes → Option Bytes
post round su used u = verdict su.sp_profile.address

abbrev arrive : ℕ → List Response → List Response
arrive round sent = sent

arrive-IsChannel : IsChannel arrive
arrive-IsChannel = record { arrives = λ round sent. refl; was_sent = λ round sent r m. m }

abbrev two_shards : List (Option Shard)
two_shards =
    some (record { hdr = 0 ∷ []; content = 1 ∷ [] })
    ∷ some (record { hdr = 0 ∷ []; content = 2 ∷ [] })
    ∷ []

upload_needed_shards-ends_example :
    (s' : Uploading) × (((upload_needed_shards post arrive true 5 two_shards
            (failing ∷ reliable ∷ [])
          ≡ some (ok tt, s'))
        × All (λ (i : ℕ). IsUploaded i s'.messages) (count_up 0 (length two_shards)))
      ⊎ ((upload_needed_shards post arrive true 5 two_shards (failing ∷ reliable ∷ [])
            ≡ some (err upload_incomplete, s'))
          × (s'.sps ≡ [])))
upload_needed_shards-ends_example =
    upload_needed_shards-ends post arrive true arrive-IsChannel 5 two_shards
      (failing ∷ reliable ∷ []) refl (omega arith)

takes :
    (round : ℕ) (su : ShardUpload)
    → su.sp_profile.address ≡ reliable.address
    → (used : List Bytes) → post round su used (url su.sp_profile.urls true) ≡ none
takes round su e used = subst (λ (a : Bytes). verdict a ≡ none) (sym e) refl

upload_needed_shards-succeeds_example :
    (s' : Uploading) × (upload_needed_shards post arrive true 5 two_shards (failing ∷ reliable ∷ [])
      ≡ some (ok tt, s'))
    × All (λ (i : ℕ). IsUploaded i s'.messages) (count_up 0 (length two_shards))
upload_needed_shards-succeeds_example =
    upload_needed_shards-succeeds post arrive true arrive-IsChannel 5 two_shards
      (failing ∷ reliable ∷ []) reliable true refl (omega arith) (Memᴰ.tail (Memᴰ.head refl)) takes

abbrev to_reliable : ShardUpload
to_reliable = record { shard_index = 4; sp_profile = reliable }

post_shard-succeeds_example : (post_shard (post 0 to_reliable) true to_reliable).error ≡ none
post_shard-succeeds_example =
    post_shard-succeeds (post 0 to_reliable) true false to_reliable (λ used. refl)

new_urls-urls_string_example : new_urls (urls_string near) ≡ ok near
new_urls-urls_string_example = new_urls-urls_string near (refl, (refl, tt)) (refl, (refl, tt)) tt

abbrev hashed : ArchonUrl
hashed = record {
  username = [];
  permission = [];
  path = 81 ∷ 109 ∷ 46 ∷ [];
  needed = pos 3;
  total = pos 20;
}

index_from_shard_path-shard_path_example :
    index_from_shard_path (shard_path hashed (pos 17)) ≡ ok (pos 17)
index_from_shard_path-shard_path_example =
    index_from_shard_path-shard_path hashed 17 (unfold is_hash in refl)
      (unfold is_whole_file in refl) (omega arith)

abbrev named : ArchonUrl
named = record {
  username = 98 ∷ 111 ∷ 98 ∷ [];
  permission = 101 ∷ 116 ∷ 104 ∷ [];
  path = 47 ∷ 97 ∷ 46 ∷ 106 ∷ [];
  needed = pos 3;
  total = pos 20;
}

index_from_shard_path-named_example :
    index_from_shard_path (shard_path named (pos 17)) ≡ err not_a_shard_path
index_from_shard_path-named_example =
    index_from_shard_path-named named 17 (unfold is_hash in refl) (unfold is_whole_file in refl)
