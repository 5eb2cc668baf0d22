-- ===== src/StorageProvider/UploadHandler.antt =====
-- storageProvider/uploadHandler.go: how an uploaded shard is stored. Parameters: the folder of
-- the executable, `filepath.Join`, the base58 text of a hash, the account's `Sign`, and whether a file
-- and its folders can be created. The writes to an open file are taken to succeed; the code ignores
-- their errors.
pub mod Stores
pub mod WholeFile
pub mod Handler
use archoncloud_go.Base.{
  ℕ, List, [], ◌∷◌, ◌++◌, bytes_eq, not, ◌&&◌, Bool, true, false, if◌then◌else◌, Option, none, some,
  Result, ok, err, panic, Error, ◌>>=◌, ◌>>◌, foreign, shard_already_exists,
}
use archoncloud_go.Base.Int.{ℤ}
use archoncloud_go.Common.Bytes.{Bytes}
use archoncloud_go.Common.ArchonUrl.{ArchonUrl, is_hash, shard_path}
use archoncloud_go.StorageProvider.Files.{File, write_file, remove_file, file_exists}
use archoncloud_go.StorageProvider.Paths.{stored_file_path}
use archoncloud_go.StorageProvider.Pending.{PendingUpload, AccountType}
use archoncloud_go.Shards.Erasure.{Infectious}
use archoncloud_go.Shards.Header.{
  ShardHeader, new_shard_header, get_num_required, get_num_total, get_shard_index,
  get_file_container_hash,
}
use archoncloud_go.Shards.Shard.{Stored, store_sp_shard}

pub record Provider : Type 0 where
  pub files : List File
  pub uploads_pending : List PendingUpload

-- `uploadPars`, with the request's transaction and address and the time.
pub record UploadPars : Type 0 where
  pub url : ArchonUrl
  pub account : AccountType
  pub overwrite : Bool
  pub access_control_level : ℕ
  pub transaction_hash : Bytes
  pub client : Bytes
  pub now : ℕ

unfoldable pub register_pending_upload :
    UploadPars → Bytes → Bytes → ℤ → Bytes → Provider → Provider
register_pending_upload pars file_hash file_path shard_ix signature s = record s {
  uploads_pending =
      s.uploads_pending
      ++ record {
        url = pars.url;
        account = pars.account;
        transaction_hash = pars.transaction_hash;
        computed_file_hash = file_hash;
        signature = signature;
        file_path = file_path;
        dht_id = shard_path pars.url shard_ix;
        client = pars.client;
        received = pars.now;
      }
        ∷ [];
}

module _ (fec : Infectious) (hash : Bytes → Bytes) (sign : Bytes → Result Bytes)
    (base58 : Bytes → Bytes) (join : List Bytes → Bytes) (root_folder : Bytes)
    (can_create : Bytes → Bool) where
  -- The URL with what the header says of the shard.
  abbrev pub url_of : ArchonUrl → ShardHeader → ArchonUrl
  url_of url hdr = record url {
    path = if is_hash url then base58 (get_file_container_hash hdr) else url.path;
    needed = get_num_required hdr;
    total = get_num_total hdr;
  }

  abbrev pub path_of : UploadPars → ShardHeader → Bytes
  path_of pars hdr =
      stored_file_path join root_folder (url_of pars.url hdr) pars.access_control_level
        (get_shard_index hdr)

  -- The error that the shard exists is overwritten by the result of `MkdirAll`.
  abbrev pub existing : Bool → Bytes → List File → Result (Unit {0})
  existing overwrite p fs =
      if not overwrite && file_exists p fs then err shard_already_exists else ok tt

  abbrev pub create : Bytes → Result (Unit {0}) → Result (Unit {0})
  create p before = if can_create p then ok tt else err foreign

  unfoldable pub get_shard_file : Bool → Bytes → List File → Result (List File)
  get_shard_file overwrite p fs = do create p (existing overwrite p fs); ok (write_file p [] fs)

  -- The file's content and the hash and signature of the shard, or why there is none.
  unfoldable pub signed_shard : ShardHeader → Bytes → Result (Bytes × Stored)
  signed_shard hdr r = do
    stored ← store_sp_shard fec hash hdr r
    sp_signature ← sign (hash stored.uploader_signature)
    ok (stored.written ++ (stored.uploader_signature ++ sp_signature), stored)

  -- The deferred function removes the file if its upload did not come to the end.
  abbrev pub finish :
      UploadPars → ShardHeader → Provider → Result (Bytes × Stored) → Result (Unit {0}) × Provider
  finish pars hdr s (ok (content, stored)) =
      let p = path_of pars hdr in
      (
        ok tt,
        register_pending_upload (record pars { url = url_of pars.url hdr }) stored.hash p
            (get_shard_index hdr) stored.uploader_signature
            (record s { files = write_file p content s.files }),
      )
  finish pars hdr s (err e) = (err e, record s { files = remove_file (path_of pars hdr) s.files })
  finish pars hdr s panic = (panic, record s { files = remove_file (path_of pars hdr) s.files })

  abbrev pub with_file :
      UploadPars
      → ShardHeader
      → Bytes
      → Provider
      → Result (List File)
      → Result (Unit {0}) × Provider
  with_file pars hdr r s (ok fs) = finish pars hdr (record s { files = fs }) (signed_shard hdr r)
  with_file pars hdr r s (err e) = (err e, s)
  with_file pars hdr r s panic = (panic, s)

  abbrev pub with_header :
      UploadPars → Provider → Result (ShardHeader × Bytes) → Result (Unit {0}) × Provider
  with_header pars s (ok (hdr, r)) =
      with_file pars hdr r s (get_shard_file pars.overwrite (path_of pars hdr) s.files)
  with_header pars s (err e) = (err e, s)
  with_header pars s panic = (panic, s)

  unfoldable pub upload_shard : UploadPars → Provider → Bytes → Result (Unit {0}) × Provider
  upload_shard pars s body = with_header pars s (new_shard_header fec body)
