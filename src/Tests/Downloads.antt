-- ===== src/Tests/Downloads.antt =====
-- The theorem on the whole way of a file, on concrete inputs.
use archoncloud_go.Base.{
  ℕ, zero, suc, ◌<◌, ◌≡◌, refl, List, [], ◌∷◌, ◌++◌, ◌==◌, if◌then◌else◌, true, none, inl, inr,
  Result, ok, err, foreign, arith,
}
use mathlib.Core.List.{Permᴰ}
use mathlib.Core.List.Permᴰ
use archoncloud_go.Base.Int.{ℤ, pos}
use archoncloud_go.Common.Bytes.{Bytes}
use archoncloud_go.Common.ArchonUrl.{ArchonUrl, url_string}
use archoncloud_go.Shards.Types.{archive_optimized_reed_solomon}
use archoncloud_go.Shards.Mxor.{MxorCodec}
use archoncloud_go.Shards.FileContainer.{new_file_container}
use archoncloud_go.Shards.Shard.{Shard, Stored}
use archoncloud_go.Shards.Shard.Wire.{IsDelivered}
use archoncloud_go.Shards.Header.{aors_header}
use archoncloud_go.Shards.Container.{ShardsContainer, aors, new_aors}
use archoncloud_go.Shards.Container.Recover.{fresh}
use archoncloud_go.Shards.Container.Recover.Aors.{IsEncoded, aors_encode-IsEncoded}
use archoncloud_go.Download.Sharded.{DownloadOpResult, download_sharded}
use archoncloud_go.Download.Recover.Whole.{IsUploaded, nth}
use archoncloud_go.Download.Recover.File.{
  made, delivered, made-delivered, download_sharded-uploaded,
}
use archoncloud_go.Tests.Instances.{
  repetition, repetition_code, repetition_recovers, constant_hash, constant_sign,
  length-constant_hash, constant_sign-ok,
}
use archoncloud_go.Tests.Witnesses.{payload, archive, archive_made}
use archoncloud_go.Tests.Urls.{bob_url}

encoded : IsEncoded repetition constant_hash 1 2 archive.bytes archive.hash payload
encoded =
    aors_encode-IsEncoded repetition repetition_code constant_hash length-constant_hash
      constant_sign constant_sign-ok 1 2 (repetition_recovers 2) (omega arith) (omega arith)
      (omega arith) (new_file_container archive_optimized_reed_solomon) payload archive (inr refl)
      (omega arith) archive_made

delivery :
    (j : ℕ)
    → j < 2
    → IsDelivered repetition constant_hash constant_sign
        (aors_header (encoded.hdr j))
        (nth encoded.pieces j)
delivery =
    delivered repetition repetition_code constant_hash constant_sign constant_sign-ok 1 2
      archive.bytes archive.hash payload encoded (λ j. [])

abbrev shard_at : ℕ → Shard
shard_at zero = record { hdr = (delivery 0 (omega arith)).hb; content = nth encoded.pieces 0 }
shard_at (suc j) = record { hdr = (delivery 1 (omega arith)).hb; content = nth encoded.pieces 1 }

abbrev stored_at : ℕ → Stored
stored_at zero = (delivery 0 (omega arith)).stored
stored_at (suc j) = (delivery 1 (omega arith)).stored

abbrev sig_at : ℕ → Bytes
sig_at zero = (delivery 0 (omega arith)).sig
sig_at (suc j) = (delivery 1 (omega arith)).sig

abbrev body_at : ℕ → Bytes
body_at zero =
    let d = delivery 0 (omega arith) in d.hb ++ (nth encoded.pieces 0 ++ d.extra) ++ d.sig
body_at (suc j) =
    let d = delivery 1 (omega arith) in d.hb ++ (nth encoded.pieces 1 ++ d.extra) ++ d.sig

abbrev served_at : ℕ → Bytes
served_at j = (stored_at j).written ++ sig_at j

abbrev container : ShardsContainer
container =
    made repetition repetition_code constant_hash constant_sign constant_sign-ok 1 2 archive.bytes
      archive.hash payload encoded (λ j. [])

below_two : (P : ℕ → Type 0) → P 0 → P 1 → (j : ℕ) → j < 2 → P j
below_two P p q zero lt = p
below_two P p q (suc zero) lt = q
below_two P p q (suc (suc j)) lt = absurd (omega arith)

uploads : IsUploaded repetition constant_hash constant_sign 2 container served_at
unfolding delivery
uploads =
    let made_at =
      made-delivered repetition repetition_code constant_hash constant_sign constant_sign-ok 1 2
        archive.bytes archive.hash payload encoded (λ j. []) in
    record {
      shard = shard_at;
      body = body_at;
      stored = stored_at;
      trailer = sig_at;
      encoded = below_two _ (made_at 0 (omega arith)) (made_at 1 (omega arith));
      sent = below_two _ (delivery 0 (omega arith)).sent (delivery 1 (omega arith)).sent;
      received =
          below_two _ (delivery 0 (omega arith)).received (delivery 1 (omega arith)).received;
      kept = λ j lt. refl;
    }

abbrev file_url : ArchonUrl
file_url = record bob_url { needed = pos 1; total = pos 2 }

-- Two providers, "a" and "b", of which the second answers; the answers arrive in the other order.
abbrev download_file : Bytes → Result Bytes
download_file (b ∷ request) = if b == 98 then ok (served_at 1) else err foreign
download_file [] = err foreign

abbrev url_map : List (ℤ × Bytes)
url_map = (pos 0, 97 ∷ []) ∷ (pos 1, 98 ∷ []) ∷ []

abbrev swapped : List DownloadOpResult → List DownloadOpResult
swapped (r ∷ s ∷ rs) = s ∷ r ∷ rs
swapped rs = rs

swapped-Perm : (rs : List DownloadOpResult) → Permᴰ rs (swapped rs)
swapped-Perm [] = Permᴰ.refl []
swapped-Perm (r ∷ []) = Permᴰ.refl (r ∷ [])
swapped-Perm (r ∷ s ∷ rs) = Permᴰ.swap refl refl

-- Two bytes behind each shard.
abbrev spare : Bytes → Bytes
spare bs = 0 ∷ 0 ∷ []

abbrev no_codec : MxorCodec
no_codec = record { mxor_encode = λ b t. none; mxor_decode = λ b m c n t. none }

abbrev file_text : Bytes
file_text =
    97 ∷ 114 ∷ 99 ∷ 58 ∷ 47 ∷ 47 ∷ 98 ∷ 111 ∷ 98 ∷ 46 ∷ 101 ∷ 116 ∷ 104 ∷ 46 ∷ 110 ∷ 49 ∷ 58 ∷ 50
    ∷ 47 ∷ 97 ∷ []

file_url-text : url_string file_url ≡ ok file_text
unfolding url_string
file_url-text = refl

fresh_container : new_aors (pos 2) (pos 1) ≡ ok (fresh archive_optimized_reed_solomon aors 1 2 [])
unfolding new_aors
fresh_container = refl

download_sharded-uploaded_example :
    download_sharded repetition spare constant_hash no_codec download_file swapped
      (λ es. es)
      true
      file_url
      url_map
    ≡ ok payload
download_sharded-uploaded_example =
    download_sharded-uploaded repetition repetition_code constant_hash length-constant_hash
      constant_sign constant_sign-ok 1 2 (repetition_recovers 2) (omega arith) (omega arith)
      (omega arith) spare no_codec download_file swapped swapped-Perm (λ es. es)
      (λ es. Permᴰ.refl es) (new_file_container archive_optimized_reed_solomon) payload archive
      (fresh archive_optimized_reed_solomon aors 1 2 []) container served_at file_url file_text
      url_map (inr refl) (omega arith) archive_made fresh_container encoded.encoded uploads
      file_url-text refl (((λ e. cc), tt), (tt, tt))
      ((0, refl, omega arith, inr (foreign, refl)), ((1, refl, omega arith, inl refl), tt))
      (omega arith)
