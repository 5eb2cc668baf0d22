-- ===== src/StorageProvider/Download.antt =====
-- storageProvider/download.go: the handler of download requests.
pub mod Stored
use archoncloud_go.Base.{
  ℕ, List, [], ◌∷◌, ◌++◌, ltb, bytes_eq, not, Bool, true, false, if◌then◌else◌, Option, none, some,
  Result, ok, err, panic, guard, ◌>>=◌, ◌>>◌, length, not_a_number, missing_shard_idx,
  file_does_not_exist,
}
use archoncloud_go.Base.Int.{ℤ, pos, negsuc}
use archoncloud_go.Common.Bytes.{Bytes}
use archoncloud_go.Common.ArchonUrl.{ArchonUrl, atoi, is_hash, is_whole_file, shard_path}
use archoncloud_go.Common.ArchonUrl.Parse.{new_archon_url}
use archoncloud_go.StorageProvider.Files.{read_file}
use archoncloud_go.StorageProvider.Paths.{in_shards_folder, in_hashes_folder}
use archoncloud_go.StorageProvider.Pending.{Verifier, ActivityInfo}

-- `strconv.ParseInt(s, 10, 8)`
abbrev pub int8 : ℤ → Result ℤ
int8 (pos n) = if ltb n 128 then ok (pos n) else err not_a_number
int8 (negsuc n) = if ltb n 128 then ok (negsuc n) else err not_a_number

unfoldable pub shard_index_of : ArchonUrl → Bytes → Result ℤ
unfolding is_whole_file atoi
shard_index_of a_url shard_ix =
    if is_whole_file a_url
    then ok (negsuc 0)
    else if bytes_eq shard_ix []
    then err missing_shard_idx
    else atoi shard_ix >>= int8

abbrev pub existing_file : Option Bytes → Result Bytes
existing_file (some content) = ok content
existing_file none = err file_does_not_exist

module _ (parse : Bytes → Result (Bytes × Bytes)) (base58_decode : Bytes → Bytes)
    (join : List Bytes → Bytes) (root_folder : Bytes) where
  unfoldable pub served_path : ArchonUrl → ℤ → Bytes
  unfolding is_hash
  served_path a_url shard_ix =
      let p = shard_path a_url shard_ix in
      if is_hash a_url
      then in_hashes_folder join root_folder (p ∷ [])
      else in_shards_folder join root_folder (p ∷ [])

  -- The URL and the file that is served for it.
  unfoldable pub find_file : Bytes → Bytes → Verifier → Result (ArchonUrl × Bytes)
  unfolding new_archon_url shard_index_of
  find_file url_text shard_ix v = do
    a_url ← new_archon_url parse base58_decode url_text
    ix ← shard_index_of a_url shard_ix
    content ← existing_file (read_file (served_path a_url ix) v.files)
    ok (a_url, content)

  abbrev pub serve : Bytes → Verifier → Result (ArchonUrl × Bytes) → Result Bytes × Verifier
  serve client v (ok (a_url, content)) = (
    ok content,
    record v {
      activities =
          v.activities
          ++ record { upload = false; url = a_url; client = client; num_bytes = length content }
            ∷ [];
    },
  )
  serve client v (err e) = (err e, v)
  serve client v panic = (panic, v)

  unfoldable pub download_handler : Bytes → Bytes → Bytes → Verifier → Result Bytes × Verifier
  unfolding find_file
  download_handler url_text shard_ix client v = serve client v (find_file url_text shard_ix v)
