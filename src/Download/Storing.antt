-- ===== src/Download/Storing.antt =====
-- download/download.go: the shards that were downloaded, put into the container in any order.
use archoncloud_go.Base.{
  IsDistinct, ℕ, zero, suc, ◌+◌, ◌<◌, ◌≡◌, ◌≢◌, refl, sym, ap, ◌∙◌, subst, List, [], ◌∷◌, length,
  length-set, set, replicate, get_elem?, lt→ltb, Bool, true, false, All, All-both, Option, none,
  some, ok, arith,
}
use archoncloud_go.Base.Int.{ℤ, pos}
use archoncloud_go.Common.Bytes.{Bytes}
use archoncloud_go.Shards.Erasure.{Infectious}
use archoncloud_go.Shards.Shard.{Shard, new_shard_from_sp}
use archoncloud_go.Shards.Container.{ShardsContainer, set_shard}
use archoncloud_go.Shards.Container.Masks.{kept}
use archoncloud_go.Download.Sharded.{store_shards}

-- The shards that the mask marks, and nil for the others.
abbrev pub fill : (ℕ → Shard) → ℕ → List Bool → List (Option Shard)
fill shard i [] = []
fill shard i (true ∷ mask) = some (shard i) ∷ fill shard (suc i) mask
fill shard i (false ∷ mask) = none ∷ fill shard (suc i) mask

set-fill :
    (shard : ℕ → Shard) (i j t : ℕ) (mask : List Bool)
    → t ≡ i + j
    → set (fill shard i mask) j (some (shard t)) ≡ fill shard i (set mask j true)
set-fill shard i j t [] e = refl
set-fill shard i zero t (true ∷ mask) e = let same : t ≡ i = omega arith in rw same
set-fill shard i zero t (false ∷ mask) e = let same : t ≡ i = omega arith in rw same
set-fill shard i (suc j) t (true ∷ mask) e =
    ap (λ (l : List (Option Shard)). some (shard i) ∷ l)
      (set-fill shard (suc i) j t mask (omega arith))
set-fill shard i (suc j) t (false ∷ mask) e =
    ap (λ (l : List (Option Shard)). none ∷ l) (set-fill shard (suc i) j t mask (omega arith))

length-fill :
    (shard : ℕ → Shard) (i : ℕ) (mask : List Bool) → length (fill shard i mask) ≡ length mask
length-fill shard i [] = refl
length-fill shard i (true ∷ mask) = ap suc (length-fill shard (suc i) mask)
length-fill shard i (false ∷ mask) = ap suc (length-fill shard (suc i) mask)

pub fill-none : (shard : ℕ → Shard) (i n : ℕ) → fill shard i (replicate n false) ≡ replicate n none
fill-none shard i zero = refl
fill-none shard i (suc n) = ap (λ (l : List (Option Shard)). none ∷ l) (fill-none shard (suc i) n)

kept-set :
    (mask : List Bool) (j : ℕ)
    → get_elem? mask j ≡ some false
    → kept (set mask j true) ≡ suc (kept mask)
kept-set [] j e = absurd cc
kept-set (true ∷ mask) zero e = absurd cc
kept-set (false ∷ mask) zero e = refl
kept-set (true ∷ mask) (suc j) e = ap suc (kept-set mask j e)
kept-set (false ∷ mask) (suc j) e = kept-set mask j e

get-set_other :
    (mask : List Bool) (i j : ℕ) → i ≢ j → get_elem? (set mask i true) j ≡ get_elem? mask j
get-set_other [] i j n = refl
get-set_other (b ∷ mask) zero zero n = absurd (n refl)
get-set_other (b ∷ mask) zero (suc j) n = refl
get-set_other (b ∷ mask) (suc i) zero n = refl
get-set_other (b ∷ mask) (suc i) (suc j) n = get-set_other mask i j (λ e. n (ap suc e))

pub get-replicate : (n j : ℕ) → j < n → get_elem? (replicate n false) j ≡ some false
get-replicate zero j h = absurd (omega arith)
get-replicate (suc n) zero h = refl
get-replicate (suc n) (suc j) h = get-replicate n j (omega arith)

pub kept-replicate : (n : ℕ) → kept (replicate n false) ≡ 0
kept-replicate zero = refl
kept-replicate (suc n) = kept-replicate n

-- The bytes of the shards, by index, and what the reader of a shard makes of them.
pub record IsServed (fec : Infectious) (n : ℕ) (served : ℕ → Bytes) (shard : ℕ → Shard)
    : Type 0 where
  pub reads :
      (j : ℕ) → j < n → (spare : Bytes) → new_shard_from_sp fec (served j) spare ≡ ok (shard j)

module _ (fec : Infectious) (n : ℕ) (served : ℕ → Bytes) (shard : ℕ → Shard)
    (is_served : IsServed fec n served shard) (sc : ShardsContainer) (spare : Bytes → Bytes) where
  -- An entry of a shard that the mask does not mark yet.
  abbrev pub IsDue : List Bool → ℤ × Bytes → Type 0
  IsDue mask e =
      (j : ℕ) × (e.0 ≡ pos j) × (j < n) × (e.1 ≡ served j) × (get_elem? mask j ≡ some false)

  IsDue-set :
      (mask : List Bool) (i : ℕ) (e : ℤ × Bytes)
      → IsDue mask e
      → pos i ≢ e.0
      → IsDue (set mask i true) e
  IsDue-set mask i e (j, k, lt, b, due) apart =
      (j, k, lt, b, get-set_other mask i j (λ same. apart (ap pos same ∙ sym k)) ∙ due)

  pub store_shards-fill :
      (entries : List (ℤ × Bytes)) (mask : List Bool)
      → length mask ≡ n
      → All (IsDue mask) entries
      → IsDistinct (λ (e : ℤ × Bytes). e.0) entries
      → (mask' : List Bool) × (length mask' ≡ n)
        × (kept mask' ≡ kept mask + length entries)
        × (store_shards fec spare entries (some (record sc { shards = fill shard 0 mask }))
            ≡ ok (some (record sc { shards = fill shard 0 mask' })))
  unfolding store_shards set_shard
  store_shards-fill [] mask l h d = (mask, l, omega arith, refl)
  store_shards-fill ((ix, content) ∷ entries) mask l ((j, k, lt, b, due), h) (apart, d) =
      let mask1 = set mask j true in
      let apart1 : All (λ (e : ℤ × Bytes). pos j ≢ e.0) entries =
        subst (λ i. All (λ (e : ℤ × Bytes). i ≢ e.0) entries) k apart in
      let due1 = All-both (λ e p q. IsDue-set mask j e p q) entries h apart1 in
      let (mask', l', count, stored) =
        store_shards-fill entries mask1 (length-set mask j true ∙ l) due1 d in
      let one_more = kept-set mask j due in
      let room = lt→ltb j (length (fill shard 0 mask)) (omega (arith, length-fill shard 0 mask)) in
      let placed = set-fill shard 0 j j mask (omega arith) in
      (
        mask',
        l',
        omega arith,
        rw (b, k, is_served.reads j lt (spare (served j)), room, placed) stored,
      )
