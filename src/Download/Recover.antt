-- ===== src/Download/Recover.antt =====
-- download/download.go: what a client gets if enough providers answer.
pub mod Whole
pub mod File
use archoncloud_go.Base.{
  IsDistinct, Perm-All, Perm-IsDistinct, Perm-length, ℕ, zero, suc, ◌+◌, ◌<◌, ◌≤◌, ◌≡◌, ◌≢◌, refl,
  sym, ap, ◌∙◌, subst, List, [], ◌∷◌, ◌++◌, map, length, length-map, length-replicate, replicate,
  get_elem?, ltb, le→ltb, Bool, true, false, All, All-of_mem, All-map, All-weaken, Option, none,
  some, ◌⊎◌, inl, inr, Result, ok, err, panic, Error, ◌>>=◌, arith,
}
use mathlib.Core.List.{Permᴰ}
use archoncloud_go.Base.Int.{ℤ, pos}
use archoncloud_go.Common.Bytes.{Bytes}
use archoncloud_go.Common.ArchonUrl.{
  ArchonUrl, slash, url_string, download_url, download_endpoint, index_query, archon_url_query,
}
use archoncloud_go.Shards.Erasure.{Infectious}
use archoncloud_go.Shards.Mxor.{MxorCodec}
use archoncloud_go.Shards.Shard.{Shard}
use archoncloud_go.Shards.Container.{ShardsContainer, new_shards_container, decode_with}
use archoncloud_go.Shards.Container.Masks.{kept}
use archoncloud_go.Download.Sharded.{
  DownloadOpResult, download_ops, put_results, store_shards, download_shard, download_sharded,
}
use archoncloud_go.Download.Arrivals.{
  length-succeeded_perm, length-succeeded_le, succeeded, of_result, succeeded-IsDistinct,
  put_results-succeeded,
}
use archoncloud_go.Download.Storing.{
  fill, fill-none, IsServed, IsDue, store_shards-fill, get-replicate, kept-replicate,
}

-- The address that is asked for an entry of the map.
abbrev pub request_of : Bytes → ℤ × Bytes → Bytes
request_of text entry =
    entry.1
    ++ (slash ∷ download_endpoint ++ (63 ∷ index_query entry.0) ++ archon_url_query ++ (61 ∷ text))

download_ops-ok :
    (a : ArchonUrl) (text : Bytes) (url_map : List (ℤ × Bytes))
    → url_string a ≡ ok text
    → download_ops a url_map ≡ ok (map (λ (e : ℤ × Bytes). (e.0, request_of text e)) url_map)
unfolding download_ops download_url
download_ops-ok a text [] u = refl
download_ops-ok a text ((ix, sp) ∷ url_map) u = rw (u, download_ops-ok a text url_map u)

map-map {ℓ κ μ} :
    {A : Type ℓ} {B : Type κ} {C : Type μ} (f : A → B) (g : B → C) (xs : List A)
    → map g (map f xs) ≡ map (λ x. g (f x)) xs
map-map f g [] = refl
map-map f g (x ∷ xs) = ap (λ (l : List _). g (f x) ∷ l) (map-map f g xs)

IsDistinct-map {ℓ κ} :
    {A : Type ℓ} {B : Type κ} (key : A → ℤ) (key' : B → ℤ) (f : A → B) (xs : List A)
    → ((x : A) → key' (f x) ≡ key x)
    → IsDistinct key xs
    → IsDistinct key' (map f xs)
IsDistinct-map key key' f [] e d = tt
IsDistinct-map {A = A} {B} key key' f (x ∷ xs) e (h, d) = (
  All-map (λ (y : B). key' (f x) ≢ key' y) f xs
      (All-weaken xs (λ y n k. n (sym (e x) ∙ k ∙ e y)) h),
  IsDistinct-map key key' f xs e d,
)

-- A provider that does not serve the shard gives an error.
abbrev pub IsAnswer : Result Bytes → Bytes → Type 0
IsAnswer r b = (r ≡ ok b) ⊎ ((e : Error) × (r ≡ err e))

abbrev pub answer_of : (Bytes → Result Bytes) → Bytes → ℤ × Bytes → DownloadOpResult
answer_of download_file text entry = record {
  shard_ix = entry.0;
  shard_bytes = download_file (request_of text entry);
}

-- The answers to the requests for the entries of a map.
abbrev pub answers : (Bytes → Result Bytes) → Bytes → List (ℤ × Bytes) → List DownloadOpResult
answers download_file text url_map = map (answer_of download_file text) url_map

-- An entry is for a shard, and its provider serves that shard or gives an error.
abbrev pub IsServing : ℕ → (ℕ → Bytes) → (Bytes → Result Bytes) → Bytes → ℤ × Bytes → Type 0
IsServing n served download_file text entry =
    (j : ℕ) × (entry.0 ≡ pos j)
    × (j < n)
    × IsAnswer (download_file (request_of text entry)) (served j)

module _ (fec : Infectious) (n : ℕ) (served : ℕ → Bytes) (shard : ℕ → Shard)
    (is_served : IsServed fec n served shard) (sc : ShardsContainer) (spare : Bytes → Bytes) where
  abbrev IsGood : DownloadOpResult → Type 0
  IsGood r = (j : ℕ) × (r.shard_ix ≡ pos j) × (j < n) × IsAnswer r.shard_bytes (served j)

  -- Nothing is marked at the start, so each success is due.
  succeeded-IsDue :
      (rs : List DownloadOpResult)
      → All IsGood rs
      → All (IsDue fec n served shard is_served sc spare (replicate n false)) (succeeded rs)
  succeeded-IsDue [] h = tt
  succeeded-IsDue (r ∷ rs) ((j, k, lt, a), h) = elim a [
    | inl e ↦ rw e ((j, k, lt, refl, get-replicate n j lt), succeeded-IsDue rs h)
    | inr (x, e) ↦ rw e (succeeded-IsDue rs h)
  ]

  -- The first shard that comes makes the container.
  store_shards-first :
      (entries : List (ℤ × Bytes))
      → ((j : ℕ)
          → j < n
          → new_shards_container fec (served j) ≡ ok (record sc { shards = replicate n none }))
      → All (IsDue fec n served shard is_served sc spare (replicate n false)) entries
      → 0 < length entries
      → store_shards fec spare entries none
        ≡ store_shards fec spare entries
            (some (record sc { shards = fill shard 0 (replicate n false) }))
  unfolding store_shards
  store_shards-first [] opens h some_entry = absurd (omega arith)
  store_shards-first ((ix, content) ∷ entries) opens ((j, k, lt, b, d), h) some_entry =
      rw (b, opens j lt, fill-none shard 0 n)

  module _ (hash : Bytes → Bytes) (mxor : MxorCodec) (k : ℕ) (positive : 0 < k) (payload : Bytes)
      (opens : (j : ℕ)
        → j < n
        → new_shards_container fec (served j) ≡ ok (record sc { shards = replicate n none }))
      (decodes : (mask : List Bool)
        → length mask ≡ n
        → k ≤ kept mask
        → decode_with fec hash mxor sc.codec (record sc { shards = fill shard 0 mask })
          ≡ ok payload)
      (download_file : Bytes → Result Bytes)
      (arrive : List DownloadOpResult → List DownloadOpResult)
      (arrives : (rs : List DownloadOpResult) → Permᴰ rs (arrive rs))
      (range : List (ℤ × Bytes) → List (ℤ × Bytes))
      (ranges : (es : List (ℤ × Bytes)) → Permᴰ es (range es)) where
    -- The entries of the map, in the order of the range, lead to the file.
    stored-decodes :
        (rs : List DownloadOpResult)
        → All IsGood rs
        → IsDistinct (λ (r : DownloadOpResult). r.shard_ix) rs
        → k ≤ length (succeeded rs)
        → (mask : List Bool) × (length mask ≡ n)
          × (k ≤ kept mask)
          × (store_shards fec spare (range (succeeded rs)) none
              ≡ ok (some (record sc { shards = fill shard 0 mask })))
    stored-decodes rs good apart enough =
        let es = succeeded rs in
        let p = ranges es in
        let due =
          Perm-All (IsDue fec n served shard is_served sc spare (replicate n false)) p
            (succeeded-IsDue rs good) in
        let count = Perm-length p in
        let (mask, l, c, e) =
          store_shards-fill fec n served shard is_served sc spare (range es) (replicate n false)
            (length-replicate n false) due
            (Perm-IsDistinct (λ (e : ℤ × Bytes). e.0) p (succeeded-IsDistinct rs apart)) in
        (
          mask,
          l,
          omega (arith, kept-replicate n),
          store_shards-first (range es) opens due (omega arith) ∙ e,
        )

    -- If the URL has a text, the map's indexes are distinct, each provider asked either serves its shard or
    -- gives an error, and at least as many serve as are needed, then the client gets the payload,
    -- whatever the order in which the answers arrive and the map is ranged over.
    pub download_sharded-recovers :
        (a : ArchonUrl) (text : Bytes) (url_map : List (ℤ × Bytes))
        → url_string a ≡ ok text
        → a.needed ≡ pos k
        → IsDistinct (λ (e : ℤ × Bytes). e.0) url_map
        → All (IsServing n served download_file text) url_map
        → k ≤ length (succeeded (answers download_file text url_map))
        → download_sharded fec spare hash mxor download_file arrive range true a url_map
          ≡ ok payload
    unfolding download_sharded download_shard
    download_sharded-recovers a text url_map printed needs apart good enough =
        let rs = answers download_file text url_map in
        let p = arrives rs in
        let good_rs : All IsGood rs = All-map IsGood _ url_map good in
        let apart_rs =
          IsDistinct-map (λ (e : ℤ × Bytes). e.0) (λ (r : DownloadOpResult). r.shard_ix)
            (answer_of download_file text) url_map (λ e. refl) apart in
        let apart_as = Perm-IsDistinct (λ (r : DownloadOpResult). r.shard_ix) p apart_rs in
        let count = length-succeeded_perm p in
        let entries =
          put_results-succeeded (arrive rs) [] apart_as (All-of_mem (arrive rs) (λ r m. tt)) in
        let (mask, l, c, e) =
          stored-decodes (arrive rs) (Perm-All IsGood p good_rs) apart_as (omega arith) in
        let all_asked = length-succeeded_le rs in
        let asked = length-map (answer_of download_file text) url_map in
        rw (
          download_ops-ok a text url_map printed,
          needs,
          le→ltb (length url_map) k (omega arith),
          map-map (λ (e : ℤ × Bytes). (e.0, request_of text e))
              (download_shard fec spare hash mxor download_file arrive range true) url_map,
          entries,
          le→ltb (length (succeeded (arrive rs))) k (omega arith),
          e,
          decodes mask l c,
        )
