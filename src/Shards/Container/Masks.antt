-- ===== src/Shards/Container/Masks.antt =====
-- The shards that a downloader has got: a mask over all shards.
use archoncloud_go.Base.{
  ℕ, zero, suc, ◌+◌, ◌≤◌, ◌<◌, ◌≡◌, refl, ap, List, [], ◌∷◌, length, ok, arith, Option, none, some,
  ◌^◌, Bool, true, false, ◌%◌, leb, ◌-◌,
}
use archoncloud_go.Base.Int.{pos, ◌-ℤ◌, -ℤ_pos}
use archoncloud_go.Common.Bytes.{Bytes}
use archoncloud_go.Shards.Erasure.{Share, Infectious, IsErasureCode}
use archoncloud_go.Shards.Shard.{Shard}
use archoncloud_go.Shards.Container.{present_shares, get_first_shard, have_all_needed}
use archoncloud_go.Shards.Container.Placing.{shards_from}

abbrev pub kept : List Bool → ℕ
kept [] = 0
kept (true ∷ mask) = suc (kept mask)
kept (false ∷ mask) = kept mask

-- The shards at the places that the mask marks; the others are nil.
abbrev pub masked : List Bool → List (Option Shard) → List (Option Shard)
masked [] shards = []
masked (b ∷ mask) [] = []
masked (true ∷ mask) (s ∷ shards) = s ∷ masked mask shards
masked (false ∷ mask) (s ∷ shards) = none ∷ masked mask shards

abbrev pub selected : ℕ → List Bool → List Bytes → List Share
selected i [] ps = []
selected i (b ∷ mask) [] = []
selected i (true ∷ mask) (p ∷ ps) = record { number = i; content = p } ∷ selected (suc i) mask ps
selected i (false ∷ mask) (p ∷ ps) = selected (suc i) mask ps

-- What the package documents of `Decode`: from any shares of distinct numbers, at least as many as
-- are required, it gives the input of `Encode`.
pub record IsRecoverable (fec : Infectious) (code : IsErasureCode fec) (k n : ℕ) : Type 0 where
  pub decodes :
      (bs : Bytes) (mask : List Bool)
      → length bs % k ≡ 0
      → length mask ≡ n
      → k ≤ kept mask
      → fec.decode (pos k) (pos n) (selected 0 mask (code.pieces k n bs)) ≡ ok bs

-- The decoder hands the package the shares of the shards that are there, under their numbers.
pub present_shares-masked :
    (header : ℕ → Bytes) (i : ℕ) (mask : List Bool) (ps : List Bytes)
    → present_shares i (masked mask (shards_from header i ps)) ≡ selected i mask ps
unfolding present_shares
present_shares-masked header i [] ps = refl
present_shares-masked header i (b ∷ mask) [] = refl
present_shares-masked header i (true ∷ mask) (p ∷ ps) =
    ap (λ (l : List Share). record { number = i; content = p } ∷ l)
      (present_shares-masked header (suc i) mask ps)
present_shares-masked header i (false ∷ mask) (p ∷ ps) =
    present_shares-masked header (suc i) mask ps

-- If any shard is there, the first one is one of those that were placed.
pub get_first_shard-masked :
    (header : ℕ → Bytes) (i : ℕ) (mask : List Bool) (ps : List Bytes)
    → length mask ≡ length ps
    → 0 < kept mask
    → (j : ℕ) × (p : Bytes) × (j < i + length ps)
      × (get_first_shard (masked mask (shards_from header i ps))
          ≡ some (record { hdr = header j; content = p }))
unfolding get_first_shard
get_first_shard-masked header i [] ps e h = absurd (omega arith)
get_first_shard-masked header i (b ∷ mask) [] e h = absurd (omega arith)
get_first_shard-masked header i (true ∷ mask) (p ∷ ps) e h = (i, p, omega arith, refl)
get_first_shard-masked header i (false ∷ mask) (p ∷ ps) e h =
    let (j, q, lt, eq) = get_first_shard-masked header (suc i) mask ps (omega arith) h in
    (j, q, omega arith, eq)

abbrev pub present : List (Option Shard) → ℕ
present [] = 0
present (none ∷ shards) = present shards
present (some sh ∷ shards) = suc (present shards)

-- For fewer than 2^62 required shards, the loop of `HaveAllNeededShards` answers whether at least
-- as many shards are there as are required.
pub have_all_needed-present :
    (k : ℕ) (shards : List (Option Shard))
    → k < 2 ^ 62
    → have_all_needed (pos k) shards ≡ leb k (present shards)
unfolding have_all_needed
have_all_needed-present k [] lt = refl
have_all_needed-present k (none ∷ shards) lt = have_all_needed-present k shards lt
have_all_needed-present zero (some sh ∷ shards) lt = unfold ◌-ℤ◌ in ground arith
have_all_needed-present (suc k) (some sh ∷ shards) lt =
    let e : suc k - 1 ≡ k = omega arith in
    rw (-ℤ_pos (suc k) 1 (omega arith) (omega arith), e)
      (ground (arith, have_all_needed-present k shards (omega arith)))
