-- ===== src/Download/Recover/Whole.antt =====
-- The whole way of a file: from its container over the shards, the upload and the storage providers to a
-- download.
use archoncloud_go.Base.{
  ℕ, zero, suc, ◌+◌, ◌<◌, ◌≡◌, refl, sym, ap, ◌∙◌, subst, List, [], ◌∷◌, ◌++◌, length, get_elem?,
  Bool, true, false, All, Option, none, some, Result, ok, ok-injective, arith,
}
use archoncloud_go.Common.Bytes.{Bytes}
use archoncloud_go.Shards.Erasure.{Infectious}
use archoncloud_go.Shards.Header.{ShardHeader, to_bytes, new_shard_header}
use archoncloud_go.Shards.Shard.{
  Shard, Stored, write_shard_container, receive_shard, new_shard_from_sp,
}
use archoncloud_go.Shards.Shard.Wire.{IsDelivered, marked_header}
use archoncloud_go.Shards.Container.{ShardsContainer}
use archoncloud_go.Shards.Container.Masks.{masked}
use archoncloud_go.Shards.Container.Placing.{shards_from}
use archoncloud_go.Download.Storing.{fill}

-- Each shard of the container has been sent, received and stored, and its provider serves what it has
-- stored with the two signatures behind it.
pub record IsUploaded (fec : Infectious) (hash : Bytes → Bytes) (sign : Bytes → Result Bytes)
    (n : ℕ) (sc : ShardsContainer) (served : ℕ → Bytes) : Type 0 where
  pub shard : ℕ → Shard
  pub body : ℕ → Bytes
  pub stored : ℕ → Stored
  pub trailer : ℕ → Bytes
  pub encoded : (j : ℕ) → j < n → get_elem? sc.shards j ≡ some (some (shard j))
  pub sent : (j : ℕ) → j < n → write_shard_container fec hash sign (shard j) ≡ ok (body j)
  pub received : (j : ℕ) → j < n → receive_shard fec hash (body j) ≡ ok (stored j)
  pub kept : (j : ℕ) → j < n → served j ≡ (stored j).written ++ trailer j

-- What a client reads of a shard that was delivered.
pub read_back :
    (fec : Infectious) (hash : Bytes → Bytes) (sign : Bytes → Result Bytes) (h : ShardHeader)
    (hb content : Bytes) (d : IsDelivered fec hash sign h content) (body trailer served : Bytes)
    (stored : Stored)
    → marked_header h ≡ h
    → to_bytes fec h ≡ ok hb
    → write_shard_container fec hash sign (record { hdr = hb; content = content }) ≡ ok body
    → receive_shard fec hash body ≡ ok stored
    → served ≡ stored.written ++ trailer
    → ((spare : Bytes)
        → new_shard_from_sp fec served spare ≡ ok (record { hdr = hb; content = content }))
      × ((rest : Bytes) × (new_shard_header fec served ≡ ok (h, rest)))
read_back fec hash sign h hb content d body trailer served stored unmarked bytes sent received
      kept =
    let same_hb = ok-injective d.hb hb (sym d.bytes ∙ bytes) in
    let same_body : d.hb ++ (content ++ d.extra) ++ d.sig ≡ body = ok-injective _ _ (
      sym d.sent
      ∙ subst
          (λ (x : Bytes).
            write_shard_container fec hash sign (record { hdr = x; content = content }) ≡ ok body)
          (sym same_hb) sent) in
    let same_stored = ok-injective d.stored stored (
      sym d.received
      ∙ subst (λ (x : Bytes). receive_shard fec hash x ≡ ok stored) (sym same_body) received) in
    let same_served : served ≡ d.stored.written ++ trailer =
      kept ∙ ap (λ (s : Stored). s.written ++ trailer) (sym same_stored) in
    let header = d.same_header ∙ unmarked in
    let (rest, again) = d.reread trailer in
    (
      λ spare.
          let (hb', e, back) = d.served trailer spare in
          let same_hb' =
            ok-injective hb' hb (sym e ∙ ap (λ (x : ShardHeader). to_bytes fec x) header ∙ bytes) in
          rw same_served
            (back ∙ ap (λ (x : Bytes). ok (record { hdr = x; content = content })) same_hb'),
      (rest, rw same_served (again ∙ ap (λ (x : ShardHeader). ok (x, rest)) header)),
    )

abbrev pub nth : List Bytes → ℕ → Bytes
nth [] j = []
nth (p ∷ ps) zero = p
nth (p ∷ ps) (suc j) = nth ps j

further :
    (header : ℕ → Bytes) (shard : ℕ → Shard) (i : ℕ) (p : Bytes) (ps : List Bytes)
    → ((j : ℕ)
        → j < length (p ∷ ps)
        → shard (i + j) ≡ record { hdr = header (i + j); content = nth (p ∷ ps) j })
    → (j : ℕ) → j < length ps
    → shard (suc i + j) ≡ record { hdr = header (suc i + j); content = nth ps j }
further header shard i p ps h j lt =
    let same : i + suc j ≡ suc i + j = omega arith in
    subst (λ t. shard t ≡ record { hdr = header t; content = nth ps j }) same
      (h (suc j) (omega arith))

-- The shards that a mask keeps of all shards, as a table.
pub fill-masked :
    (header : ℕ → Bytes) (shard : ℕ → Shard) (i : ℕ) (mask : List Bool) (ps : List Bytes)
    → length mask ≡ length ps
    → ((j : ℕ)
        → j < length ps
        → shard (i + j) ≡ record { hdr = header (i + j); content = nth ps j })
    → fill shard i mask ≡ masked mask (shards_from header i ps)
fill-masked header shard i [] [] l h = refl
fill-masked header shard i [] (p ∷ ps) l h = absurd (omega arith)
fill-masked header shard i (b ∷ mask) [] l h = absurd (omega arith)
fill-masked header shard i (true ∷ mask) (p ∷ ps) l h =
    let here : i + 0 ≡ i = omega arith in
    let first =
      subst (λ t. shard t ≡ record { hdr = header t; content = p }) here (h 0 (omega arith)) in
    rw (
      first,
      fill-masked header shard (suc i) mask ps (omega arith) (further header shard i p ps h),
    )
fill-masked header shard i (false ∷ mask) (p ∷ ps) l h =
    ap (λ (l : List (Option Shard)). none ∷ l)
      (fill-masked header shard (suc i) mask ps (omega arith) (further header shard i p ps h))

pub get-shards_from :
    (header : ℕ → Bytes) (i j : ℕ) (ps : List Bytes)
    → j < length ps
    → get_elem? (shards_from header i ps) j
      ≡ some (some (record { hdr = header (i + j); content = nth ps j }))
get-shards_from header i j [] lt = absurd (omega arith)
get-shards_from header i zero (p ∷ ps) lt =
    let same : i ≡ i + 0 = omega arith in
    ap (λ t. some (some (record { hdr = header t; content = p }))) same
get-shards_from header i (suc j) (p ∷ ps) lt =
    let same : suc i + j ≡ i + suc j = omega arith in
    get-shards_from header (suc i) j ps (omega arith)
    ∙ ap (λ t. some (some (record { hdr = header t; content = nth ps j }))) same

pub nth-All :
    (P : Bytes → Type 0) (ps : List Bytes) (j : ℕ) → j < length ps → All P ps → P (nth ps j)
nth-All P [] j lt h = absurd (omega arith)
nth-All P (p ∷ ps) zero lt (x, h) = x
nth-All P (p ∷ ps) (suc j) lt (x, h) = nth-All P ps j (omega arith) h
