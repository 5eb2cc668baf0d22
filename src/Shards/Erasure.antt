-- ===== src/Shards/Erasure.antt =====
-- shards/reedSolomon.go. The package github.com/vivint/infectious is a parameter: whether `NewFEC`
-- accepts the numbers of shares, the shares that `Encode` hands to its callback, in order, and the
-- result of `Decode`.
pub mod Parity
use archoncloud_go.Base.{
  ℕ, zero, suc, ◌+◌, ◌-◌, ◌*◌, ◌/◌, ◌%◌, ◌≤◌, ◌<◌, ◌≡◌, List, [], ◌∷◌, ◌++◌, length, take, drop,
  replicate, set, get_elem?, All, ltb, leb, ◌==◌, if◌then◌else◌, Bool, true, false, Option, none,
  some, Result, ok, err, panic, foreign, ◌>>=◌,
}
use archoncloud_go.Base.Int.{ℤ, pos, negsuc, ◌+ℤ◌, ◌-ℤ◌, quot}
use archoncloud_go.Common.Bytes.{Bytes, extended_slice_to_multiple_of}

-- `infectious.Share`
pub record Share : Type 0 where
  pub number : ℕ
  pub content : Bytes

pub record Infectious : Type 0 where
  pub new_fec : ℤ → ℤ → Bool
  pub encode : ℤ → ℤ → Bytes → Result (List Share)
  pub decode : ℤ → ℤ → List Share → Result Bytes

-- Pieces as shares, numbered from `i` on.
abbrev pub numbered : ℕ → List Bytes → List Share
numbered i [] = []
numbered i (p ∷ ps) = record { number = i; content = p } ∷ numbered (suc i) ps

-- What the package documents: which numbers are accepted, and that `Encode` of a multiple of the
-- required number hands out every piece once, in order, each of the same length.
pub record IsErasureCode (fec : Infectious) : Type 0 where
  pub pieces : ℕ → ℕ → Bytes → List Bytes
  pub accepts : (k n : ℕ) → 0 < k → k ≤ n → n ≤ 256 → fec.new_fec (pos k) (pos n) ≡ true
  pub encodes :
      (k n : ℕ) (bs : Bytes)
      → 0 < k
      → k ≤ n
      → n ≤ 256
      → length bs % k ≡ 0
      → fec.encode (pos k) (pos n) bs ≡ ok (numbered 0 (pieces k n bs))
  pub length-pieces :
      (k n : ℕ) (bs : Bytes)
      → 0 < k
      → k ≤ n
      → n ≤ 256
      → length bs % k ≡ 0
      → length (pieces k n bs) ≡ n
  pub length-piece :
      (k n : ℕ) (bs : Bytes)
      → 0 < k
      → k ≤ n
      → n ≤ 256
      → length bs % k ≡ 0
      → All (λ p. length p * k ≡ length bs) (pieces k n bs)

-- `parity[s.Number-dataShards] = s.Data` for the shares that are no data; out of range it panics.
keep_parity : ℕ → List Bytes → Share → Result (List Bytes)
keep_parity data_shards parity s =
    if ltb s.number data_shards
    then ok parity
    else if ltb (s.number - data_shards) (length parity)
    then ok (set parity (s.number - data_shards) s.content)
    else panic

collect_parity : ℕ → List Bytes → List Share → Result (List Bytes)
unfolding keep_parity
collect_parity data_shards parity [] = ok parity
collect_parity data_shards parity (s ∷ shares) = do
  parity' ← keep_parity data_shards parity s
  collect_parity data_shards parity' shares

abbrev pub corrected_prefix : ℕ → Bytes → Result Bytes
corrected_prefix n output = if ltb (length output) n then panic else ok (take n output)

module _ (fec : Infectious) where
  -- A refused `NewFEC` leaves the slice of nil slices, and no error.
  unfoldable pub generate_rsi_parity : Bytes → ℕ → ℕ → Result (List Bytes)
  unfolding collect_parity
  generate_rsi_parity input data_shards parity_shards =
      let parity : List Bytes = replicate parity_shards [] in
      if fec.new_fec (pos data_shards) (pos (data_shards + parity_shards))
      then (do
        content ← extended_slice_to_multiple_of data_shards input
        shares ← fec.encode (pos data_shards) (pos (data_shards + parity_shards)) content
        collect_parity data_shards parity shares)
      else ok parity

  -- `p[0]`
  abbrev first_parity : List Bytes → Result Bytes
  first_parity [] = panic
  first_parity (p ∷ ps) = ok p

  unfoldable pub generate_rsi_parity_4_5 : Bytes → Result Bytes
  unfolding generate_rsi_parity
  generate_rsi_parity_4_5 input = do p ← generate_rsi_parity input 4 1; first_parity p

  unfoldable pub generate_rsi_parity_25_26 : Bytes → Result Bytes
  unfolding generate_rsi_parity
  generate_rsi_parity_25_26 input = do p ← generate_rsi_parity input 25 1; first_parity p

-- The slices `data[i*slen:(i+1)*slen]`, for `count` values of i from the given one on.
data_shares : ℕ → ℕ → ℕ → Bytes → List Share
data_shares zero i slen content = []
data_shares (suc count) i slen content =
    record { number = i; content = take slen (drop (i * slen) content) }
    ∷ data_shares count (suc i) slen content

-- `parity[i]` for `count` values of i from the given one on. Out of range it panics.
parity_share : ℕ → Option Bytes → Result Share
parity_share i none = panic
parity_share i (some p) = ok (record { number = i; content = p })

parity_shares : ℕ → ℕ → List Bytes → Result (List Share)
unfolding parity_share
parity_shares zero i parity = ok []
parity_shares (suc count) i parity = do
  s ← parity_share i (get_elem? parity i)
  rest ← parity_shares count (suc i) parity
  ok (s ∷ rest)

module _ (fec : Infectious) where
  unfoldable pub correct_rsi : Bytes → List Bytes → ℕ → ℕ → Result Bytes
  unfolding data_shares parity_shares
  correct_rsi input parity data_shards parity_shards =
      let total = data_shards + parity_shards in
      if fec.new_fec (pos data_shards) (pos total)
      then (do
        content ← extended_slice_to_multiple_of data_shards input
        let slen = length content / data_shards
        ps ← parity_shares parity_shards data_shards parity
        output ←
            fec.decode (pos data_shards) (pos total) (data_shares data_shards 0 slen content ++ ps)
        corrected_prefix (length input) output)
      else err foreign

-- On `int64`; a division by 0 panics.
unfoldable pub get_reed_solomon_share_size : ℤ → ℤ → Result ℤ
get_reed_solomon_share_size input_size (pos zero) = panic
get_reed_solomon_share_size input_size (pos (suc k)) =
    ok (quot (input_size +ℤ pos (suc k) -ℤ pos 1) (pos (suc k)))
get_reed_solomon_share_size input_size (negsuc k) =
    ok (quot (input_size +ℤ negsuc k -ℤ pos 1) (negsuc k))
