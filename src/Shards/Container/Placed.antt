-- ===== src/Shards/Container/Placed.antt =====
-- Where the callback of `Encode` puts the shares, whatever their numbers and order.
use archoncloud_go.Base.{
  ℕ, zero, suc, ◌<◌, ◌≡◌, ◌≢◌, refl, sym, ap, ◌∙◌, subst, List, [], ◌∷◌, length, set, get_elem?,
  length-set, lt→ltb, ok, Result, arith, Option, some, All, All-weaken, IsDistinct,
}
use archoncloud_go.Common.Bytes.{Bytes}
use archoncloud_go.Shards.Erasure.{Share}
use archoncloud_go.Shards.Shard.{Shard}
use archoncloud_go.Shards.Container.{place}

get_elem-set {ℓ} :
    {A : Type ℓ} (xs : List A) (i : ℕ) (v : A) → i < length xs → get_elem? (set xs i v) i ≡ some v
get_elem-set [] i v h = absurd (omega arith)
get_elem-set (x ∷ xs) zero v h = refl
get_elem-set (x ∷ xs) (suc i) v h = get_elem-set xs i v (omega arith)

get_elem-set_other {ℓ} :
    {A : Type ℓ} (xs : List A) (i j : ℕ) (v : A) → i ≢ j → get_elem? (set xs i v) j ≡ get_elem? xs j
get_elem-set_other [] i j v n = refl
get_elem-set_other (x ∷ xs) zero zero v n = absurd (n refl)
get_elem-set_other (x ∷ xs) zero (suc j) v n = refl
get_elem-set_other (x ∷ xs) (suc i) zero v n = refl
get_elem-set_other (x ∷ xs) (suc i) (suc j) v n = get_elem-set_other xs i j v (λ e. n (ap suc e))

abbrev pub shard_of : (ℕ → Bytes) → Share → Shard
shard_of header s = record { hdr = header s.number; content = s.content }

module _ (header_for : ℕ → Result Bytes) (header : ℕ → Bytes) where
  -- A share with a place in `n` shards, for whose number the callback makes the header.
  abbrev pub IsPlaceable : ℕ → Share → Type 0
  IsPlaceable n s = (s.number < n) × (header_for s.number ≡ ok (header s.number))

  -- Each share is at its number, and everywhere else is what was there.
  pub record IsPlaced (shares : List Share) (before after : List (Option Shard)) : Type 0 where
    pub same_length : length after ≡ length before
    pub at_number :
        All (λ (s : Share). get_elem? after s.number ≡ some (some (shard_of header s))) shares
    pub elsewhere :
        (i : ℕ) → All (λ (s : Share). s.number ≢ i) shares → get_elem? after i ≡ get_elem? before i

  -- Shares with different numbers below the number of shards are stored in any order: every share is
  -- afterwards, under the header for its number, at the index of its number, and at the other indices
  -- is what was there before.
  pub place-IsPlaced :
      (shares : List Share) (shards : List (Option Shard))
      → All (IsPlaceable (length shards)) shares
      → IsDistinct (λ (s : Share). s.number) shares
      → (after : List (Option Shard)) × (place header_for shares shards ≡ ok after)
        × IsPlaced shares shards after
  unfolding place
  place-IsPlaced [] shards h d =
      (shards, refl, record { same_length = refl; at_number = tt; elsewhere = λ i n. refl })
  place-IsPlaced (s ∷ shares) shards ((lt, made), h) (others, d) =
      let sh = some (shard_of header s) in
      let shards' = set shards s.number sh in
      let same = length-set shards s.number sh in
      let (after, e, p) =
        place-IsPlaced shares shards' (subst (λ (n : ℕ). All (IsPlaceable n) shares) (sym same) h)
          d in
      (
        after,
        rw (made, lt→ltb s.number (length shards) lt) e,
        record {
          same_length = p.same_length ∙ same;
          at_number = (
            p.elsewhere s.number (All-weaken shares (λ t n k. n (sym k)) others)
                ∙ get_elem-set shards s.number sh lt,
            p.at_number,
          );
          elsewhere = λ i n. p.elsewhere i n.1 ∙ get_elem-set_other shards s.number i sh n.0;
        },
      )
