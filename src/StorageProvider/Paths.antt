-- ===== src/StorageProvider/Paths.antt =====
-- storageProvider/account.go: the folders and paths of stored files. The folder of the executable and
-- `filepath.Join` are parameters.
use archoncloud_go.Base.{ℕ, List, [], ◌∷◌, ◌==◌, if◌then◌else◌}
use archoncloud_go.Base.Int.{ℤ}
use archoncloud_go.Common.Bytes.{Bytes}
use archoncloud_go.Common.ArchonUrl.{ArchonUrl, is_hash, shard_path}

-- `UploadAccessControlLevel`
abbrev pub priv_restricted_group : ℕ
priv_restricted_group = 1

abbrev pub public : ℕ
public = 2

-- "priv", "priv_res", "pub"
abbrev pub s_priv_uploader_only : Bytes
s_priv_uploader_only = 112 ∷ 114 ∷ 105 ∷ 118 ∷ []

abbrev pub s_priv_restricted_group : Bytes
s_priv_restricted_group = 112 ∷ 114 ∷ 105 ∷ 118 ∷ 95 ∷ 114 ∷ 101 ∷ 115 ∷ []

abbrev pub s_public : Bytes
s_public = 112 ∷ 117 ∷ 98 ∷ []

-- "www", "shards", "hashes"
abbrev pub storage_root : Bytes
storage_root = 119 ∷ 119 ∷ 119 ∷ []

abbrev pub shards_folder : Bytes
shards_folder = 115 ∷ 104 ∷ 97 ∷ 114 ∷ 100 ∷ 115 ∷ []

abbrev pub hashes_folder : Bytes
hashes_folder = 104 ∷ 97 ∷ 115 ∷ 104 ∷ 101 ∷ 115 ∷ []

module _ (join : List Bytes → Bytes) (root_folder : Bytes) where
  unfoldable pub get_shards_folder : Bytes
  get_shards_folder = join (root_folder ∷ storage_root ∷ shards_folder ∷ [])

  unfoldable pub get_hashes_folder : Bytes
  get_hashes_folder = join (root_folder ∷ storage_root ∷ hashes_folder ∷ [])

  abbrev pub combine : Bytes → List Bytes → Bytes
  combine combined [] = combined
  combine combined (p ∷ paths) = combine (join (combined ∷ p ∷ [])) paths

  unfoldable pub in_shards_folder : List Bytes → Bytes
  in_shards_folder paths = combine get_shards_folder paths

  unfoldable pub in_hashes_folder : List Bytes → Bytes
  in_hashes_folder paths = combine get_hashes_folder paths

  -- The folder of an access level; a level that is not known is that of the uploader only.
  abbrev pub access_folder : ℕ → Bytes
  access_folder acl =
      if acl == priv_restricted_group
      then s_priv_restricted_group
      else if acl == public
      then s_public
      else s_priv_uploader_only

  unfoldable pub accessed_path : ℕ → Bytes → Bytes
  accessed_path acl spath = join (access_folder acl ∷ spath ∷ [])

  unfoldable pub stored_file_path : ArchonUrl → ℕ → ℤ → Bytes
  unfolding is_hash
  stored_file_path a acl shard_index =
      let accessed = accessed_path acl (shard_path a shard_index) in
      if is_hash a then in_hashes_folder (accessed ∷ []) else in_shards_folder (accessed ∷ [])
