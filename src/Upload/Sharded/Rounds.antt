-- ===== src/Upload/Sharded/Rounds.antt =====
-- The rounds of an upload: each one makes progress, and no shard is lost on the way.
use archoncloud_go.Base.{
  ℕ, zero, suc, ◌+◌, ◌%◌, ◌≤◌, ◌<◌, ◌≡◌, refl, ◌∙◌, sym, ap, List, [], ◌∷◌, length, min, get_elem?,
  bytes_eq, bytes_eq_refl, Bool, true, false, some, ◌⊎◌, inl, inr, Bool-cases, Option-cases, All,
  All-weaken, ok, arith,
}
use native.Mathlib.Nat.{mod-lt}
use mathlib.Core.List.{Memᴰ}
use mathlib.Core.List.Memᴰ
use archoncloud_go.Common.Bytes.{Bytes}
use archoncloud_go.Common.Numbers.Erasing.{length-erase_int, length-erase_int_le, mem-erase_int}
use archoncloud_go.Common.Profiles.{SpProfile, get_sp, remove}
use archoncloud_go.Upload.Sharded.{
  ShardUpload, Response, Message, shard_uploaded, Uploading, uploads_from, get_shard_uploads,
  handle_response, handle_responses,
}

-- What is left to do.
abbrev pub work : Uploading → ℕ
work s = length s.shards_to_do + length s.sps

abbrev pub IsUploadOf : List ℕ → List SpProfile → ShardUpload → Type 0
IsUploadOf shards sps su = Memᴰ su.shard_index shards × Memᴰ su.sp_profile sps

abbrev pub IsUploaded : ℕ → List Message → Type 0
IsUploaded i messages = (u : Bytes) × Memᴰ (shard_uploaded i u) messages

-- A shard is still to do, or a message says that it was uploaded.
abbrev pub IsKept : ℕ → Uploading → Type 0
IsKept i s = Memᴰ i s.shards_to_do ⊎ IsUploaded i s.messages

mem-get_elem? {ℓ} :
    {A : Type ℓ} (xs : List A) (i : ℕ)
    → i < length xs
    → (x : A) × (get_elem? xs i ≡ some x) × Memᴰ x xs
mem-get_elem? [] i h = absurd (omega arith)
mem-get_elem? (x ∷ xs) zero h = (x, refl, Memᴰ.head refl)
mem-get_elem? (x ∷ xs) (suc i) h =
    let (y, e, m) = mem-get_elem? xs i (omega arith) in (y, e, Memᴰ.tail m)

uploads_from-ok :
    (sps : List SpProfile) (ix left : ℕ) (shards : List ℕ)
    → 0 < length sps
    → (uploads : List ShardUpload) × (uploads_from sps ix left shards ≡ ok uploads)
      × All (IsUploadOf shards sps) uploads
      × (length uploads ≡ min left (length shards))
unfolding uploads_from get_sp
uploads_from-ok sps ix zero shards h = ([], refl, tt, omega arith)
uploads_from-ok sps ix (suc left) [] h = ([], refl, tt, omega arith)
uploads_from-ok sps ix (suc left) (i ∷ shards) h =
    let (sp, e, m) = mem-get_elem? sps (ix % length sps) (mod-lt ix h) in
    let (rest, e', all, l) = uploads_from-ok sps (suc ix) left shards h in
    (
      record { shard_index = i; sp_profile = sp } ∷ rest,
      rw (e, e'),
      ((Memᴰ.head refl, m), All-weaken rest (λ su k. (Memᴰ.tail k.0, k.1)) all),
      omega arith,
    )

-- With a shard to do and a provider left, a round starts at least one upload, of a shard that is to do
-- to a provider that is left, and at most seven.
pub get_shard_uploads-ok :
    (s : Uploading)
    → 0 < length s.shards_to_do
    → 0 < length s.sps
    → (uploads : List ShardUpload) × (get_shard_uploads s.shards_to_do s.sps 7 ≡ ok uploads)
      × All (IsUploadOf s.shards_to_do s.sps) uploads
      × (0 < length uploads)
      × (length uploads ≤ 7)
unfolding get_shard_uploads
get_shard_uploads-ok s a b =
    let (uploads, e, all, l) =
      uploads_from-ok s.sps 0 (min (length s.shards_to_do) 7) s.shards_to_do b in
    (uploads, e, all, omega arith, omega arith)

length-remove_le :
    (f : SpProfile → Bool) (sps : List SpProfile) → length (remove f sps) ≤ length sps
unfolding remove
length-remove_le f [] = omega arith
length-remove_le f (sp ∷ sps) = elim (Bool-cases (f sp)) [
  | inl e ↦ rw e (omega (arith, length-remove_le f sps))
  | inr e ↦ rw e (omega (arith, length-remove_le f sps))
]

length-remove_lt :
    (f : SpProfile → Bool) (sp : SpProfile) (sps : List SpProfile)
    → f sp ≡ true
    → Memᴰ sp sps
    → length (remove f sps) < length sps
unfolding remove
length-remove_lt f sp [] h m = absurd (Memᴰ.not-nil m)
length-remove_lt f sp (x ∷ sps) h (Memᴰ.head e) =
    let t : f x ≡ true = ap f (sym e) ∙ h in rw t (omega (arith, length-remove_le f sps))
length-remove_lt f sp (x ∷ sps) h (Memᴰ.tail m) = elim (Bool-cases (f x)) [
  | inl e ↦ rw e (omega (arith, length-remove_lt f sp sps h m))
  | inr e ↦ rw e (omega (arith, length-remove_lt f sp sps h m))
]

pub mem-remove :
    (f : SpProfile → Bool) (sp : SpProfile) (sps : List SpProfile)
    → f sp ≡ false
    → Memᴰ sp sps
    → Memᴰ sp (remove f sps)
unfolding remove
mem-remove f sp [] h m = m
mem-remove f sp (x ∷ sps) h (Memᴰ.head e) =
    let t : f x ≡ false = ap f (sym e) ∙ h in rw t (Memᴰ.head e)
mem-remove f sp (x ∷ sps) h (Memᴰ.tail m) = elim (Bool-cases (f x)) [
  | inl e ↦ rw e (mem-remove f sp sps h m)
  | inr e ↦ rw e (Memᴰ.tail (mem-remove f sp sps h m))
]

-- No answer adds work.
handle_response-le : (s : Uploading) (r : Response) → work (handle_response s r) ≤ work s
unfolding handle_response
handle_response-le s r = elim (Option-cases r.error) [
  | inl e ↦ rw e (omega (arith, length-erase_int_le s.shards_to_do r.upload.shard_index))
  | inr (x, e) ↦ rw e (
      omega (
        arith,
        length-remove_le (λ (sp : SpProfile). bytes_eq sp.address r.upload.sp_profile.address)
            s.sps,
      ))
]

-- An answer about a shard that is to do and a provider that is left takes work away.
handle_response-lt :
    (s : Uploading) (r : Response)
    → IsUploadOf s.shards_to_do s.sps r.upload
    → work (handle_response s r) < work s
unfolding handle_response
handle_response-lt s r (a, b) = elim (Option-cases r.error) [
  | inl e ↦ rw e (omega (arith, length-erase_int s.shards_to_do r.upload.shard_index a))
  | inr (x, e) ↦ rw e (
      omega (
        arith,
        length-remove_lt (λ (sp : SpProfile). bytes_eq sp.address r.upload.sp_profile.address)
            r.upload.sp_profile s.sps (bytes_eq_refl r.upload.sp_profile.address) b,
      ))
]

handle_responses-le : (rs : List Response) (s : Uploading) → work (handle_responses s rs) ≤ work s
unfolding handle_responses
handle_responses-le [] s = omega arith
handle_responses-le (r ∷ rs) s =
    omega (arith, handle_responses-le rs (handle_response s r), handle_response-le s r)

-- A round whose answers are about its uploads takes work away.
pub handle_responses-lt :
    (rs : List Response) (s : Uploading)
    → 0 < length rs
    → All (λ (r : Response). IsUploadOf s.shards_to_do s.sps r.upload) rs
    → work (handle_responses s rs) < work s
unfolding handle_responses
handle_responses-lt [] s h all = absurd (omega arith)
handle_responses-lt (r ∷ rs) s h (a, all) =
    omega (arith, handle_responses-le rs (handle_response s r), handle_response-lt s r a)

handle_response-keeps :
    (s : Uploading) (r : Response) (i : ℕ) → IsKept i s → IsKept i (handle_response s r)
unfolding handle_response
handle_response-keeps s r i (inr (u, m)) = elim (Option-cases r.error) [
  | inl e ↦ rw e (inr (u, Memᴰ.append_left _ m))
  | inr (x, e) ↦ rw e (inr (u, Memᴰ.append_left _ m))
]
handle_response-keeps s r i (inl m) = elim (Option-cases r.error) [
  | inr (x, e) ↦ rw e (inl m)
  | inl e ↦ elim (mem-erase_int s.shards_to_do r.upload.shard_index i m) [
    | inr k ↦ rw e (inl k)
    | inl k ↦ rw e (
        inr (
          r.upload_url,
          Memᴰ.append_right s.messages
              (Memᴰ.head (ap (λ (j : ℕ). shard_uploaded j r.upload_url) k)),
        ))
  ]
]

-- No shard is lost: what was to do is done or still to do.
pub handle_responses-keeps :
    (rs : List Response) (s : Uploading) (i : ℕ) → IsKept i s → IsKept i (handle_responses s rs)
unfolding handle_responses
handle_responses-keeps [] s i k = k
handle_responses-keeps (r ∷ rs) s i k =
    handle_responses-keeps rs (handle_response s r) i (handle_response-keeps s r i k)
