-- ===== src/StorageProvider/Download/Stored.antt =====
-- Whether what was uploaded is served.
use archoncloud_go.Base.{
  ℕ, ◌<◌, ◌≡◌, ◌≢◌, refl, sym, ap, ◌∙◌, List, [], ◌∷◌, ◌++◌, length, length-append, lt→ltb, ◌==◌,
  bytes_eq, ne→bytes_eq, ◌||◌, Bool-cases, false, ◌⊎◌, inl, inr, All, Result, ok, err,
  file_does_not_exist, arith,
}
use archoncloud_go.Base.Int.{ℤ, pos}
use archoncloud_go.Common.Bytes.{Bytes}
use archoncloud_go.Common.Profiles.{split}
use archoncloud_go.Common.ArchonUrl.{
  ArchonUrl, decimal, dot, slash, is_hash, is_whole_file, shard_path,
}
use archoncloud_go.Common.ArchonUrl.Parse.{new_archon_url}
use archoncloud_go.Common.ArchonUrl.Paths.{atoi-decimal, length-decimal}
use archoncloud_go.StorageProvider.Files.{write_file}
use archoncloud_go.StorageProvider.Paths.{
  access_folder, accessed_path, get_shards_folder, get_hashes_folder, in_shards_folder,
  in_hashes_folder, stored_file_path, priv_restricted_group, public,
}
use archoncloud_go.StorageProvider.Pending.{Verifier}
use archoncloud_go.StorageProvider.Download.{
  served_path, find_file, shard_index_of, download_handler,
}

-- A relative path with nothing in it that `filepath.Clean` would take out.
abbrev pub IsName : Bytes → Type 0
IsName c = (bytes_eq c [] || bytes_eq c (dot ∷ []) || bytes_eq c (dot ∷ dot ∷ [])) ≡ false

abbrev pub IsPlain : Bytes → Type 0
IsPlain p = All IsName (split slash p)

abbrev pub IsFolder : Bytes → Type 0
IsFolder p = IsPlain p ⊎ ((rest : Bytes) × (p ≡ slash ∷ rest) × IsPlain rest)

-- What is assumed of `filepath.Join`, on a system with "/": plain paths are put together with "/".
pub record IsJoin (join : List Bytes → Bytes) : Type 0 where
  pub joins : (a b : Bytes) → IsFolder a → IsPlain b → join (a ∷ b ∷ []) ≡ a ++ (slash ∷ b)

access_folder-IsPlain :
    (join : List Bytes → Bytes) (root_folder : Bytes) (acl : ℕ) (p : Bytes)
    → IsPlain p
    → IsPlain (access_folder join root_folder acl)
      × IsPlain (access_folder join root_folder acl ++ (slash ∷ p))
unfolding split
access_folder-IsPlain join root_folder acl p h = elim (Bool-cases (acl == priv_restricted_group)) [
  | inl e ↦ rw e ((refl, tt), (refl, h))
  | inr e ↦ elim (Bool-cases (acl == public)) [
    | inl k ↦ rw (e, k) ((refl, tt), (refl, h))
    | inr k ↦ rw (e, k) ((refl, tt), (refl, h))
  ]
]

module _ (parse : Bytes → Result (Bytes × Bytes)) (base58_decode : Bytes → Bytes)
    (join : List Bytes → Bytes) (is_join : IsJoin join) (root_folder : Bytes) where
  -- One folder deeper is another path.
  deeper :
      (folder p : Bytes) (acl : ℕ)
      → IsFolder folder
      → IsPlain p
      → join (folder ∷ p ∷ []) ≢ join (folder ∷ accessed_path join root_folder acl p ∷ [])
  unfolding accessed_path
  deeper folder p acl f h e =
      let (plain, longer) = access_folder-IsPlain join root_folder acl p h in
      let a = access_folder join root_folder acl in
      let inner = is_join.joins a p (inl plain) h in
      let outer : join (folder ∷ join (a ∷ p ∷ []) ∷ []) ≡ folder ++ (slash ∷ (a ++ (slash ∷ p))) =
        rw inner (is_join.joins folder (a ++ (slash ∷ p)) f longer) in
      let same = ap (λ (x : Bytes). length x) (sym (is_join.joins folder p f h) ∙ e ∙ outer) in
      absurd (
        omega (
          arith,
          same,
          length-append folder (slash ∷ p),
          length-append folder (slash ∷ (a ++ (slash ∷ p))),
          length-append a (slash ∷ p),
        ))

  served-other :
      (u : ArchonUrl) (acl : ℕ) (i : ℤ)
      → IsFolder (get_shards_folder join root_folder)
      → IsFolder (get_hashes_folder join root_folder)
      → IsPlain (shard_path u i)
      → served_path parse base58_decode join root_folder u i
        ≢ stored_file_path join root_folder u acl i
  unfolding served_path stored_file_path in_shards_folder in_hashes_folder
  served-other u acl i shards hashes plain = elim (Bool-cases (is_hash u)) [
    | inl h ↦ rw h (deeper (get_hashes_folder join root_folder) (shard_path u i) acl hashes plain)
    | inr h ↦ rw h (deeper (get_shards_folder join root_folder) (shard_path u i) acl shards plain)
  ]

  -- If the folders are plain paths, and so is the path of a shard of a sharded file, then a provider
  -- that has stored this shard, as an upload stores it, and nothing else answers a download request for
  -- it that the file does not exist: it looks for it outside the folder of the access level.
  pub download_handler-misses :
      (url_text client content : Bytes) (u : ArchonUrl) (acl i : ℕ) (v : Verifier)
      → IsFolder (get_shards_folder join root_folder)
      → IsFolder (get_hashes_folder join root_folder)
      → IsPlain (shard_path u (pos i))
      → new_archon_url parse base58_decode url_text ≡ ok u
      → is_whole_file u ≡ false
      → i < 128
      → v.files ≡ write_file (stored_file_path join root_folder u acl (pos i)) content []
      → download_handler parse base58_decode join root_folder url_text (decimal (pos i)) client v
        ≡ (err file_does_not_exist, v)
  unfolding download_handler find_file shard_index_of
  download_handler-misses url_text client content u acl i v shards hashes plain parsed sharded lt
        stored =
      let other =
        ne→bytes_eq (stored_file_path join root_folder u acl (pos i))
          (served_path parse base58_decode join root_folder u (pos i))
          (λ e. served-other u acl (pos i) shards hashes plain (sym e)) in
      let some_digit = ne→bytes_eq (decimal (pos i)) [] (λ e. absurd (
        let l = length-decimal i in
        let z = ap (λ (x : Bytes). length x) e in omega (arith, l, z))) in
      rw (parsed, sharded, some_digit, atoi-decimal i (omega arith), lt→ltb i 128 lt, stored, other)
