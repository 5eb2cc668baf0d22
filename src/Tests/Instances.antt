-- ===== src/Tests/Instances.antt =====
-- Stand-ins for the packages that the program uses: a code that repeats the first piece, a hash and
-- a signature of the right lengths.
use archoncloud_go.Base.{
  ℕ, zero, suc, ◌*◌, ◌/◌, ◌%◌, ◌≤◌, ◌<◌, ◌≡◌, refl, List, [], ◌∷◌, length, take, replicate, All,
  ltb, leb, lt→ltb, le→leb, length-take, length-replicate, Bool, true, false, ◌&&◌, arith, Result,
  ok, err, foreign, take-all, ap, ◌∙◌,
}
use archoncloud_go.Base.Int.{ℤ, pos}
use archoncloud_go.Common.Bytes.{Bytes}
use archoncloud_go.Shards.Types.{archon_signature_len}
use archoncloud_go.Shards.Erasure.{Infectious, IsErasureCode, Share, numbered}
use archoncloud_go.Shards.Container.Masks.{kept, selected, IsRecoverable}
use native.Mathlib.Nat.{div-add-mod', div-le_self}

abbrev accepted : ℤ → ℤ → Bool
accepted (pos k) (pos n) = ltb 0 k && (leb k n && leb n 256)
accepted _ _ = false

abbrev repeated : ℕ → ℕ → Bytes → List Bytes
repeated k n bs = replicate n (take (length bs / k) bs)

abbrev encoded : ℤ → ℤ → Bytes → Result (List Share)
encoded (pos k) (pos n) bs = ok (numbered 0 (repeated k n bs))
encoded _ _ bs = err foreign

abbrev decoded : List Share → Result Bytes
decoded [] = err foreign
decoded (s ∷ shares) = ok s.content

abbrev pub repetition : Infectious
repetition = record { new_fec = accepted; encode = encoded; decode = λ k n shares. decoded shares }

pub length-first :
    (k : ℕ) (bs : Bytes) → length bs % k ≡ 0 → length (take (length bs / k) bs) * k ≡ length bs
length-first k bs e =
    let d = div-add-mod' (length bs) k in
    let le : length bs / k ≤ length bs = div-le_self (length bs) k in
    let l : length (take (length bs / k) bs) ≡ length bs / k =
      omega (arith, length-take (length bs / k) bs) in
    rw l (omega arith)

pub All-replicate : (P : Bytes → Type 0) (n : ℕ) (b : Bytes) → P b → All P (replicate n b)
All-replicate P zero b p = tt
All-replicate P (suc n) b p = (p, All-replicate P n b p)

abbrev pub repetition_code : IsErasureCode repetition
repetition_code = record {
  pieces = repeated;
  accepts = λ k n a b c. rw (lt→ltb 0 k a, le→leb k n b, le→leb n 256 c);
  encodes = λ k n bs a b c e. refl;
  length-pieces = λ k n bs a b c e. length-replicate n _;
  length-piece = λ k n bs a b c e. All-replicate _ n _ (length-first k bs e);
}

first_selected :
    (i n : ℕ) (mask : List Bool) (b : Bytes)
    → length mask ≡ n
    → 0 < kept mask
    → decoded (selected i mask (replicate n b)) ≡ ok b
first_selected i n [] b l h = absurd (omega arith)
first_selected i zero (x ∷ mask) b l h = absurd (omega arith)
first_selected i (suc n) (true ∷ mask) b l h = refl
first_selected i (suc n) (false ∷ mask) b l h = first_selected (suc i) n mask b (omega arith) h

-- With one required share, any share is the input.
pub repetition_recovers : (n : ℕ) → IsRecoverable repetition repetition_code 1 n
repetition_recovers n = record {
  decodes = λ bs mask e l h. first_selected 0 n mask _ l h ∙ ap ok (take-all _ bs (omega arith));
}

abbrev pub constant_hash : Bytes → Bytes
constant_hash bs = replicate 32 (length bs % 256)

abbrev pub constant_sign : Bytes → Result Bytes
constant_sign digest = ok (replicate 65 7)

pub length-constant_hash : (b : Bytes) → length (constant_hash b) ≡ 32
length-constant_hash b = refl

pub constant_sign-ok :
    (digest : Bytes)
    → (sig : Bytes) × (constant_sign digest ≡ ok sig) × (length sig ≡ archon_signature_len)
constant_sign-ok digest = (replicate 65 7, refl, refl)
