-- ===== src/StorageProvider/UploadHandler/WholeFile.antt =====
-- storageProvider/uploadHandler.go: how an upload that is one whole file is stored. Whether the body
-- reaches the temporary file, and whether that file can be moved to its place, are parameters.
use archoncloud_go.Base.{
  ◌≡◌, sym, ◌∙◌, ne→bytes_eq, List, not, ◌&&◌, Bool, Bool-cases, false, inl, inr, if◌then◌else◌,
  some, Result, ok, err, foreign, shard_already_exists,
}
use archoncloud_go.Base.Int.{pos}
use archoncloud_go.Common.Bytes.{Bytes}
use archoncloud_go.Common.ArchonUrl.{ArchonUrl, is_hash}
use archoncloud_go.StorageProvider.Files.{
  read_file, write_file, file_exists, absent-other, read-remove_other,
}
use archoncloud_go.StorageProvider.Paths.{stored_file_path}
use archoncloud_go.StorageProvider.UploadHandler.{Provider, UploadPars, register_pending_upload}

module _ (hash : Bytes → Bytes) (base58 : Bytes → Bytes) (join : List Bytes → Bytes)
    (root_folder : Bytes) (can_copy : Bytes → Bool) (can_create : Bytes → Bool) where
  abbrev pub whole_url : ArchonUrl → Bytes → ArchonUrl
  whole_url url body = record url { path = if is_hash url then base58 (hash body) else url.path }

  abbrev pub whole_path : UploadPars → Bytes → Bytes
  whole_path pars body =
      stored_file_path join root_folder (whole_url pars.url body) pars.access_control_level (pos 0)

  abbrev pub move_to : UploadPars → Bytes → Bytes → Provider → Result (Unit {0}) × Provider
  move_to pars signature body s =
      if can_create (whole_path pars body)
      then (
        ok tt,
        register_pending_upload (record pars { url = whole_url pars.url body }) (hash body)
            (whole_path pars body) (pos 0) signature
            (record s { files = write_file (whole_path pars body) body s.files }),
      )
      else (err foreign, s)

  unfoldable pub upload_whole_file :
      UploadPars → Bytes → Provider → Bytes → Result (Unit {0}) × Provider
  unfolding is_hash
  upload_whole_file pars signature s body =
      if not (can_copy body)
      then (err foreign, s)
      else if not pars.overwrite && file_exists (whole_path pars body) s.files
      then (err shard_already_exists, s)
      else move_to pars signature body s

  -- Without the overwrite flag, the upload of a whole file never changes a file that is there.
  pub upload_whole_file-read :
      (pars : UploadPars) (signature : Bytes) (s : Provider) (body p content : Bytes)
      → pars.overwrite ≡ false
      → read_file p s.files ≡ some content
      → read_file p (upload_whole_file pars signature s body).1.files ≡ some content
  unfolding upload_whole_file register_pending_upload
  upload_whole_file-read pars signature s body p content keep there =
      elim (Bool-cases (can_copy body)) [
        | inr c ↦ rw c there
        | inl c ↦ elim (Bool-cases (file_exists (whole_path pars body) s.files)) [
          | inl e ↦ rw (c, keep, e) there
          | inr e ↦
              let other = absent-other p (whole_path pars body) s.files content there e in
              elim (Bool-cases (can_create (whole_path pars body))) [
                | inr r ↦ rw (c, keep, e, r) there
                | inl r ↦
                    rw (c, keep, e, r, ne→bytes_eq (whole_path pars body) p (λ q. other (sym q)))
                      (read-remove_other p (whole_path pars body) s.files other ∙ there)
              ]
        ]
      ]
