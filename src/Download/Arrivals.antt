-- ===== src/Download/Arrivals.antt =====
-- download/download.go: the answers that come through the channel, in any order, and the map of those
-- that succeeded.
use archoncloud_go.Base.{
  IsDistinct, ℕ, ◌+◌, ◌≤◌, ◌≡◌, ◌≢◌, refl, sym, ap, ◌∙◌, List, [], ◌∷◌, ◌++◌, append-nil,
  append_assoc, length, length-append, ne→==, false, All, All-append, All-both, Result, ok, err,
  panic, arith,
}
use mathlib.Core.List.{Permᴰ}
use archoncloud_go.Base.Int.{ℤ, pos, negsuc}
use archoncloud_go.Common.Bytes.{Bytes}
use archoncloud_go.Download.Sharded.{
  DownloadOpResult, same_index, put_entry, put_bytes, put_results,
}

pub same_index-ne : (a b : ℤ) → a ≢ b → same_index a b ≡ false
unfolding same_index
same_index-ne (pos m) (pos n) h = ne→== m n (λ e. h (ap pos e))
same_index-ne (negsuc m) (negsuc n) h = ne→== m n (λ e. h (ap negsuc e))
same_index-ne (pos m) (negsuc n) h = refl
same_index-ne (negsuc m) (pos n) h = refl

-- The entries of the answers that succeeded.
abbrev pub of_result : ℤ → Result Bytes → List (ℤ × Bytes) → List (ℤ × Bytes)
of_result ix (ok b) rest = (ix, b) ∷ rest
of_result ix (err e) rest = rest
of_result ix panic rest = rest

abbrev pub succeeded : List DownloadOpResult → List (ℤ × Bytes)
succeeded [] = []
succeeded (res ∷ results) = of_result res.shard_ix res.shard_bytes (succeeded results)

put_entry-new :
    (ix : ℤ) (b : Bytes) (m : List (ℤ × Bytes))
    → All (λ (e : ℤ × Bytes). ix ≢ e.0) m
    → put_entry ix b m ≡ m ++ (ix, b) ∷ []
unfolding put_entry
put_entry-new ix b [] h = refl
put_entry-new ix b ((i, c) ∷ m) (n, h) = rw (same_index-ne ix i n, put_entry-new ix b m h)

of_result-All :
    (P : ℤ → Type 0) (ix : ℤ) (r : Result Bytes) (rest : List (ℤ × Bytes))
    → P ix
    → All (λ (e : ℤ × Bytes). P e.0) rest
    → All (λ (e : ℤ × Bytes). P e.0) (of_result ix r rest)
of_result-All P ix (ok b) rest p h = (p, h)
of_result-All P ix (err e) rest p h = h
of_result-All P ix panic rest p h = h

succeeded-All :
    (P : ℤ → Type 0) (rs : List DownloadOpResult)
    → All (λ (r : DownloadOpResult). P r.shard_ix) rs
    → All (λ (e : ℤ × Bytes). P e.0) (succeeded rs)
succeeded-All P [] h = tt
succeeded-All P (r ∷ rs) (p, h) =
    of_result-All P r.shard_ix r.shard_bytes (succeeded rs) p (succeeded-All P rs h)

of_result-IsDistinct :
    (ix : ℤ) (r : Result Bytes) (rest : List (ℤ × Bytes))
    → All (λ (e : ℤ × Bytes). ix ≢ e.0) rest
    → IsDistinct (λ (e : ℤ × Bytes). e.0) rest
    → IsDistinct (λ (e : ℤ × Bytes). e.0) (of_result ix r rest)
of_result-IsDistinct ix (ok b) rest h d = (h, d)
of_result-IsDistinct ix (err e) rest h d = d
of_result-IsDistinct ix panic rest h d = d

pub succeeded-IsDistinct :
    (rs : List DownloadOpResult)
    → IsDistinct (λ (r : DownloadOpResult). r.shard_ix) rs
    → IsDistinct (λ (e : ℤ × Bytes). e.0) (succeeded rs)
succeeded-IsDistinct [] d = tt
succeeded-IsDistinct (r ∷ rs) (h, d) =
    of_result-IsDistinct r.shard_ix r.shard_bytes (succeeded rs)
      (succeeded-All (λ i. r.shard_ix ≢ i) rs h) (succeeded-IsDistinct rs d)

put_bytes-new :
    (ix : ℤ) (r : Result Bytes) (m : List (ℤ × Bytes))
    → All (λ (e : ℤ × Bytes). ix ≢ e.0) m
    → put_bytes ix r m ≡ m ++ of_result ix r []
put_bytes-new ix (ok b) m h = put_entry-new ix b m h
put_bytes-new ix (err e) m h = sym (append-nil m)
put_bytes-new ix panic m h = sym (append-nil m)

of_result-append :
    (ix : ℤ) (r : Result Bytes) (rest : List (ℤ × Bytes))
    → of_result ix r [] ++ rest ≡ of_result ix r rest
of_result-append ix (ok b) rest = refl
of_result-append ix (err e) rest = refl
of_result-append ix panic rest = refl

-- With distinct indexes the map has an entry for each answer that succeeded.
pub put_results-succeeded :
    (rs : List DownloadOpResult) (m : List (ℤ × Bytes))
    → IsDistinct (λ (r : DownloadOpResult). r.shard_ix) rs
    → All (λ (r : DownloadOpResult). All (λ (e : ℤ × Bytes). r.shard_ix ≢ e.0) m) rs
    → put_results rs m ≡ m ++ succeeded rs
unfolding put_results
put_results-succeeded [] m d h = sym (append-nil m)
put_results-succeeded (r ∷ rs) m (apart, d) (n, h) =
    let one = of_result r.shard_ix r.shard_bytes [] in
    let later : All
        (λ (r' : DownloadOpResult). All (λ (e : ℤ × Bytes). r'.shard_ix ≢ e.0) (m ++ one)) rs =
      All-both
        (λ r' old new.
          All-append (λ (e : ℤ × Bytes). r'.shard_ix ≢ e.0) m one old
            (of_result-All (λ i. r'.shard_ix ≢ i) r.shard_ix r.shard_bytes [] (λ e. new (sym e))
              tt))
        rs h apart in
    rw (put_bytes-new r.shard_ix r.shard_bytes m n) (
      put_results-succeeded rs (m ++ one) d later
      ∙ append_assoc m one (succeeded rs)
      ∙ ap (λ (l : List (ℤ × Bytes)). m ++ l)
          (of_result-append r.shard_ix r.shard_bytes (succeeded rs)))

abbrev one : DownloadOpResult → ℕ
one r = length (of_result r.shard_ix r.shard_bytes [])

length-succeeded :
    (r : DownloadOpResult) (rs : List DownloadOpResult)
    → length (succeeded (r ∷ rs)) ≡ one r + length (succeeded rs)
length-succeeded r rs = omega (
  arith,
  ap (λ (l : List (ℤ × Bytes)). length l)
      (of_result-append r.shard_ix r.shard_bytes (succeeded rs)),
  length-append (of_result r.shard_ix r.shard_bytes []) (succeeded rs),
)

pub length-succeeded_perm :
    {rs ss : List DownloadOpResult} → Permᴰ rs ss → length (succeeded rs) ≡ length (succeeded ss)
length-succeeded_perm Permᴰ.nil = refl
length-succeeded_perm (Permᴰ.cons {a} {b} {l₁} {l₂} e p) =
    omega (arith, length-succeeded_perm p, ap one e, length-succeeded a l₁, length-succeeded b l₂)
length-succeeded_perm (Permᴰ.swap {a} {b} {a'} {b'} {l} e e') = omega (
  arith,
  ap one e,
  ap one e',
  length-succeeded a (b ∷ l),
  length-succeeded b l,
  length-succeeded a' (b' ∷ l),
  length-succeeded b' l,
)
length-succeeded_perm (Permᴰ.trans p q) = length-succeeded_perm p ∙ length-succeeded_perm q

one-le : (ix : ℤ) (r : Result Bytes) → length (of_result ix r []) ≤ 1
one-le ix (ok b) = omega arith
one-le ix (err e) = omega arith
one-le ix panic = omega arith

pub length-succeeded_le : (rs : List DownloadOpResult) → length (succeeded rs) ≤ length rs
length-succeeded_le [] = omega arith
length-succeeded_le (r ∷ rs) =
    omega (arith, length-succeeded r rs, one-le r.shard_ix r.shard_bytes, length-succeeded_le rs)
