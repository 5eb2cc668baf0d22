-- ===== src/Shards/Erasure/Parity.antt =====
-- Parity generation of shards/reedSolomon.go, over a code that keeps what its package documents.
use archoncloud_go.Base.{
  ℕ, zero, suc, ◌+◌, ◌-◌, ◌*◌, ◌/◌, ◌%◌, ◌<◌, ◌≡◌, refl, ap, ◌∙◌, List, [], ◌∷◌, ◌++◌, length,
  replicate, All, length-append, length-replicate, append-nil, ok, arith, false, inl, inr, ◌==◌,
  ne→==, lt→ltb, le→ltb,
}
use archoncloud_go.Base.Arith.{eq_or_pos, mul_cancel, pad-eq}
use native.Mathlib.Nat.{mod-eq_of_lt, mod_self, mul-mod_left}
use archoncloud_go.Common.Bytes.{Bytes, extended_slice_to_multiple_of}
use archoncloud_go.Shards.Erasure.{
  Infectious, IsErasureCode, numbered, keep_parity, collect_parity, generate_rsi_parity,
}

-- The slice with its zeros, as `ExtendedSliceToMultipleOf` builds it.
abbrev pub extended : ℕ → Bytes → Bytes
extended k bs = bs ++ replicate ((k - length bs % k) % k) 0

pub extended_slice-ok :
    (k : ℕ) (bs : Bytes) → 0 < k → extended_slice_to_multiple_of k bs ≡ ok (extended k bs)
unfolding extended_slice_to_multiple_of
extended_slice-ok k bs h = elim (eq_or_pos (length bs % k)) [
  | inl z ↦
      let k0 : k - 0 ≡ k = omega arith in
      let nz : (k == 0) ≡ false = ne→== k 0 (λ e. absurd (omega arith)) in
      rw (nz, z, k0, mod_self k, append-nil)
  | inr p ↦
      let nz : (k == 0) ≡ false = ne→== k 0 (λ e. absurd (omega arith)) in
      let rz : (length bs % k == 0) ≡ false = ne→== (length bs % k) 0 (λ e. absurd (omega arith)) in
      let s : k - length bs % k < k = omega arith in rw (nz, rz, mod-eq_of_lt s)
]

pub length-extended :
    (k : ℕ) (bs : Bytes) → 0 < k → length (extended k bs) ≡ (length bs + k - 1) / k * k
length-extended k bs h = rw (length-append, length-replicate) (pad-eq (length bs) k h)

split_last :
    (n : ℕ) (ps : List Bytes)
    → length ps ≡ suc n
    → (front : List Bytes) × (p : Bytes) × (ps ≡ front ++ p ∷ []) × (length front ≡ n)
split_last n [] h = absurd (omega arith)
split_last zero (p ∷ []) h = ([], p, refl, refl)
split_last zero (p ∷ q ∷ ps) h = absurd (omega arith)
split_last (suc n) (p ∷ ps) h =
    let (front, q, e, l) = split_last n ps (omega arith) in
    (p ∷ front, q, ap (λ (t : List Bytes). p ∷ t) e, ap suc l)

-- The callback drops the data shares and keeps the one parity share.
collect_parity-one :
    (k i : ℕ) (front : List Bytes) (p : Bytes)
    → i + length front ≡ k
    → collect_parity k ([] ∷ []) (numbered i (front ++ p ∷ [])) ≡ ok (p ∷ [])
unfolding collect_parity
collect_parity-one k i [] p h =
    let e : i ≡ k = omega arith in
    let d : k - k ≡ 0 = omega arith in unfold keep_parity in rw (e, le→ltb k k (omega arith), d)
collect_parity-one k i (q ∷ front) p h =
    rw (lt→ltb i k (omega arith)) (collect_parity-one k (suc i) front p (omega arith))

All-last : (P : Bytes → Type 0) (front : List Bytes) (p : Bytes) → All P (front ++ p ∷ []) → P p
All-last P [] p a = a.0
All-last P (q ∷ front) p a = All-last P front p a.1

-- For an erasure code as documented, with one parity share and more than 0 and less than 256 data
-- shares, `GenerateRSIParity` succeeds with exactly one slice, whose length is that of the input
-- divided by the number of data shares, rounded up.
pub generate_rsi_parity-one :
    (fec : Infectious) (code : IsErasureCode fec) (input : Bytes) (k : ℕ)
    → 0 < k
    → k < 256
    → (p : Bytes) × (generate_rsi_parity fec input k 1 ≡ ok (p ∷ []))
      × (length p ≡ (length input + k - 1) / k)
unfolding generate_rsi_parity
generate_rsi_parity-one fec code input k h lt =
    let content = extended k input in
    let c = (length input + k - 1) / k in
    let len = length-extended k input h in
    let whole : length content % k ≡ 0 = rw len (mul-mod_left c k) in
    let accepts = code.accepts k (k + 1) h (omega arith) (omega arith) in
    let encodes = code.encodes k (k + 1) content h (omega arith) (omega arith) whole in
    let count = code.length-pieces k (k + 1) content h (omega arith) (omega arith) whole in
    let sizes = code.length-piece k (k + 1) content h (omega arith) (omega arith) whole in
    let (front, p, e, l) = split_last k (code.pieces k (k + 1) content) (omega arith) in
    let size : length p * k ≡ length content =
      All-last (λ q. length q * k ≡ length content) front p (rw e at sizes) in
    (
      p,
      rw (accepts, extended_slice-ok k input h, encodes, e)
          (collect_parity-one k 0 front p (omega arith)),
      mul_cancel (length p) c k h (size ∙ len),
    )
