-- ===== src/Tests/Stores.antt =====
-- The theorems on the storage provider's files, on concrete inputs.
use archoncloud_go.Base.{◌≡◌, refl, List, [], ◌∷◌, ◌++◌, replicate, true, false, some, ok, arith}
use archoncloud_go.Base.Int.{pos}
use archoncloud_go.Common.Bytes.{Bytes}
use archoncloud_go.Common.ArchonUrl.{ArchonUrl}
use archoncloud_go.Shards.Header.{aors_header, to_bytes}
use archoncloud_go.Shards.Shard.{new_shard_from_sp}
use archoncloud_go.Shards.Shard.Wire.{IsDelivered, shard-IsDelivered}
use archoncloud_go.StorageProvider.UploadHandler.{Provider, UploadPars, path_of, upload_shard}
use archoncloud_go.StorageProvider.Files.{read_file}
use archoncloud_go.StorageProvider.Pending.{PendingUpload, eth_account}
use archoncloud_go.StorageProvider.UploadHandler.Stores.{
  IsReplaced, upload_shard-replaces, upload_shard-stores,
}
use archoncloud_go.Tests.Instances.{
  repetition, repetition_code, constant_hash, constant_sign, constant_sign-ok,
}
use archoncloud_go.Tests.Witnesses.{aors_hdr, aors_hdr-IsValid, aors_payload_len, payload}

abbrev pub url : ArchonUrl
url = record {
  username = 98 ∷ 111 ∷ 98 ∷ [];
  permission = 101 ∷ 116 ∷ 104 ∷ [];
  path = 97 ∷ [];
  needed = pos 0;
  total = pos 0;
}

abbrev pub pars : UploadPars
pars = record {
  url = url;
  account = eth_account;
  overwrite = false;
  access_control_level = 2;
  transaction_hash = 49 ∷ [];
  client = [];
  now = 5;
}

-- "a/b" of "a" and "b", whatever they are.
abbrev pub join : List Bytes → Bytes
join [] = []
join (p ∷ []) = p
join (p ∷ q ∷ ps) = p ++ (47 ∷ join (q ∷ ps))

abbrev pub provider : Provider
provider = record { files = record { path = 47 ∷ []; content = 1 ∷ [] } ∷ []; uploads_pending = [] }

delivered : IsDelivered repetition constant_hash constant_sign (aors_header aors_hdr) payload
delivered =
    shard-IsDelivered repetition repetition_code constant_hash constant_sign constant_sign-ok
      (aors_header aors_hdr) payload aors_hdr-IsValid aors_payload_len (omega arith)

abbrev shard_body : Bytes
shard_body = delivered.stored.written ++ replicate 65 7

-- The file of the shard is there, and the request has no overwrite flag.
abbrev shard_file : Bytes
shard_file =
    path_of repetition constant_hash constant_sign (λ h. h) join (47 ∷ []) (λ p. true) pars
      delivered.stored.header

abbrev with_shard_file : Provider
with_shard_file = record provider { files = record { path = shard_file; content = 1 ∷ [] } ∷ [] }

upload_shard-replaces_example :
    IsReplaced repetition constant_hash constant_sign
      (λ h. h)
      join
      (47 ∷ [])
      (λ p. true)
      delivered.stored.header
      (delivered.reread (replicate 65 7)).0
      shard_file
      (upload_shard repetition constant_hash constant_sign
        (λ h. h)
        join
        (47 ∷ [])
        (λ p. true)
        pars
        with_shard_file
        shard_body)
    × (upload_shard repetition constant_hash constant_sign
          (λ h. h)
          join
          (47 ∷ [])
          (λ p. true)
          (record pars { overwrite = false })
          with_shard_file
          shard_body
        ≡ upload_shard repetition constant_hash constant_sign
            (λ h. h)
            join
            (47 ∷ [])
            (λ p. true)
            (record pars { overwrite = true })
            with_shard_file
            shard_body)
upload_shard-replaces_example =
    upload_shard-replaces repetition constant_hash constant_sign (λ h. h) join (47 ∷ []) (λ p. true)
      pars with_shard_file shard_body (delivered.reread (replicate 65 7)).0 delivered.stored.header
      (delivered.reread (replicate 65 7)).1 refl

upload_shard-stores_example :
    (s' : Provider) × (p : Bytes) × (bs : Bytes) × (hb : Bytes) × (upload_shard repetition
        constant_hash constant_sign
        (λ h. h)
        join
        (47 ∷ [])
        (λ p. true)
        pars
        provider
        (delivered.hb ++ (payload ++ delivered.extra) ++ delivered.sig)
      ≡ (ok tt, s'))
    × (read_file p s'.files ≡ some bs)
    × (to_bytes repetition delivered.stored.header ≡ ok hb)
    × (bs ≡ (hb ++ (payload ++ delivered.extra)) ++ (delivered.sig ++ replicate 65 7))
    × ((spare : Bytes)
        → new_shard_from_sp repetition bs spare ≡ ok (record { hdr = hb; content = payload }))
    × ((pu : PendingUpload) × (s'.uploads_pending ≡ provider.uploads_pending ++ pu ∷ [])
        × (pu.file_path ≡ p)
        × (pu.computed_file_hash ≡ constant_hash (delivered.hb ++ (payload ++ delivered.extra)))
        × (pu.signature ≡ delivered.sig))
upload_shard-stores_example =
    upload_shard-stores repetition constant_hash constant_sign (λ h. h) join (47 ∷ []) (λ p. true)
      pars provider constant_sign (aors_header aors_hdr) payload (replicate 65 7) delivered
      (λ p. refl) refl
