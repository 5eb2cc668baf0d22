-- ===== src/Download/Sharded.antt =====
-- download/download.go: the download of the shards of a file, and their decoding. What a provider serves
-- for a URL, the order in which the answers come through the channel and the order of a range over a
-- map are parameters. A map is the list of its entries.
use archoncloud_go.Base.{
  List, [], ◌∷◌, ◌++◌, map, length, ltb, bytes_eq, ◌==◌, Bool, false, if◌then◌else◌, Option, none,
  some, Result, ok, err, panic, guard, not, ◌>>=◌, ◌>>◌, foreign, no_shards_found, too_few_found,
  too_few_downloaded,
}
use archoncloud_go.Base.Int.{ℤ, pos, negsuc}
use archoncloud_go.Common.Bytes.{Bytes}
use archoncloud_go.Common.Profiles.{Urls, new_urls, url}
use archoncloud_go.Common.ArchonUrl.{ArchonUrl, slash, download_url}
use archoncloud_go.Shards.Erasure.{Infectious}
use archoncloud_go.Shards.Mxor.{MxorCodec}
use archoncloud_go.Shards.Shard.{new_shard_from_sp}
use archoncloud_go.Shards.Container.{ShardsContainer, new_shards_container, set_shard, decode_with}

pub record DownloadOpResult : Type 0 where
  pub shard_ix : ℤ
  pub shard_bytes : Result Bytes

abbrev pub url_or : Bool → Option Bytes → Result Urls → Option Bytes
url_or prefer_http before (ok u) = some (url u prefer_http)
url_or prefer_http before _ = before

-- The last of a shard's lists of URLs that can be read.
unfoldable pub last_url : Bool → List Bytes → Option Bytes → Option Bytes
unfolding new_urls
last_url prefer_http [] before = before
last_url prefer_http (url_list ∷ urls) before =
    last_url prefer_http urls
      (if bytes_eq url_list [] then before else url_or prefer_http before (new_urls url_list))

abbrev pub add_entry : ℤ → Option Bytes → List (ℤ × Bytes) → List (ℤ × Bytes)
add_entry ix none url_map = url_map
add_entry ix (some u) url_map = (ix, u) ∷ url_map

unfoldable pub get_url_map : List (ℤ × List Bytes) → Bool → List (ℤ × Bytes)
unfolding last_url
get_url_map [] prefer_http = []
get_url_map ((shard_ix, urls) ∷ download_map) prefer_http =
    add_entry shard_ix (last_url prefer_http urls none) (get_url_map download_map prefer_http)

unfoldable pub same_index : ℤ → ℤ → Bool
same_index (pos m) (pos n) = m == n
same_index (negsuc m) (negsuc n) = m == n
same_index _ _ = false

-- `shardMap[ix] = b`
unfoldable pub put_entry : ℤ → Bytes → List (ℤ × Bytes) → List (ℤ × Bytes)
unfolding same_index
put_entry ix b [] = (ix, b) ∷ []
put_entry ix b ((i, c) ∷ shard_map) =
    let rest = put_entry ix b shard_map in
    if same_index ix i then (i, b) ∷ shard_map else (i, c) ∷ rest

abbrev pub put_bytes : ℤ → Result Bytes → List (ℤ × Bytes) → List (ℤ × Bytes)
put_bytes ix (ok b) shard_map = put_entry ix b shard_map
put_bytes ix (err e) shard_map = shard_map
put_bytes ix panic shard_map = shard_map

unfoldable pub put_results : List DownloadOpResult → List (ℤ × Bytes) → List (ℤ × Bytes)
unfolding put_entry
put_results [] shard_map = shard_map
put_results (res ∷ results) shard_map =
    put_results results (put_bytes res.shard_ix res.shard_bytes shard_map)

abbrev pub fewer : List (ℤ × Bytes) → ℤ → Bool
fewer entries (pos needed) = ltb (length entries) needed
fewer entries (negsuc n) = false

abbrev pub not_found : List (ℤ × Bytes) → Result (Unit {0})
not_found [] = err no_shards_found
not_found entries = err too_few_found

-- `fmt.Sprintf("%s/%s", sp, a.DownloadUrl(ix))` of each entry.
unfoldable pub download_ops : ArchonUrl → List (ℤ × Bytes) → Result (List (ℤ × Bytes))
unfolding download_url
download_ops a [] = ok []
download_ops a ((ix, sp) ∷ url_map) = do
  path ← download_url a ix
  ops ← download_ops a url_map
  ok ((ix, sp ++ (slash ∷ path)) ∷ ops)

-- `spare` is what the array of a downloaded shard has behind its length.
module _ (fec : Infectious) (spare : Bytes → Bytes) where
  -- The container is made from the first shard.
  abbrev pub container_for : Option ShardsContainer → Bytes → Result ShardsContainer
  container_for none content = new_shards_container fec content
  container_for (some s) content = ok s

  unfoldable pub store_shards :
      List (ℤ × Bytes) → Option ShardsContainer → Result (Option ShardsContainer)
  store_shards [] s = ok s
  store_shards ((ix, content) ∷ shard_map) s = do
    s1 ← container_for s content
    sh ← new_shard_from_sp fec content (spare content)
    s2 ← set_shard s1 ix (some sh)
    store_shards shard_map (some s2)

  module _ (hash : Bytes → Bytes) (mxor : MxorCodec) (download_file : Bytes → Result Bytes)
      (arrive : List DownloadOpResult → List DownloadOpResult)
      (range : List (ℤ × Bytes) → List (ℤ × Bytes)) (can_create : Bool) where
    unfoldable pub download_shard : ℤ × Bytes → DownloadOpResult
    download_shard op = record { shard_ix = op.0; shard_bytes = download_file op.1 }

    -- The method of a nil container panics.
    abbrev pub decoded : Option ShardsContainer → Result Bytes
    decoded none = panic
    decoded (some s) = do guard can_create foreign; decode_with fec hash mxor s.codec s

    unfoldable pub download_sharded : ArchonUrl → List (ℤ × Bytes) → Result Bytes
    unfolding download_ops download_shard put_results store_shards
    download_sharded a url_map = do
      (if fewer url_map a.needed then not_found url_map else ok tt)
      ops ← download_ops a url_map
      let shard_map = put_results (arrive (map download_shard ops)) []
      guard (not (fewer shard_map a.needed)) too_few_downloaded
      s ← store_shards (range shard_map) none
      decoded s
