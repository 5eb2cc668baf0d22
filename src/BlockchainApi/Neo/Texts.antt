-- ===== src/BlockchainApi/Neo/Texts.antt =====
-- Which texts of the Neo contract are read back.
use archoncloud_go.Base.{
  ℕ, zero, suc, ◌^◌, ◌<◌, ◌≡◌, refl, [], ◌∷◌, ◌++◌, ltb, ◌==◌, ne→==, Bool-cases, inl, inr, false,
  All-weaken, Option, some, Result, ok, err, panic, ◌>>=◌, arith,
}
use archoncloud_go.Base.Int.{ℤ, pos, negsuc}
use archoncloud_go.Common.Bytes.{Bytes}
use archoncloud_go.Common.Splitting.{IsField, split-field, split-last}
use archoncloud_go.Common.ArchonUrl.{digits, decimal, atoi, atoi_digits, positive_int, negative_int}
use archoncloud_go.Common.ArchonUrl.Paths.{
  IsDigit, digits-IsDigit, atoi-decimal, atoi-decimal_negative,
}
use archoncloud_go.BlockchainApi.Neo.{
  string_sep, separated_string_list, strings_of, NeoSpProfile, profile_string, new_neo_sp_profile,
  UploadParamsForNeo, params_string, capped, capped_negative, negative, atoi_value,
  new_upload_params_for_neo, compress_string, un_compress_string, params_bytes,
  new_upload_params_for_neo_from_bytes,
}

-- An int64: all values of `decimal` in range.
abbrev pub IsInt64 : ℤ → Type 0
IsInt64 (pos n) = n < 2 ^ 63
IsInt64 (negsuc n) = n < 2 ^ 63

atoi-int64 : (z : ℤ) → IsInt64 z → atoi (decimal z) ≡ ok z
atoi-int64 (pos n) h = atoi-decimal n h
atoi-int64 (negsuc n) h = atoi-decimal_negative n h

digit-IsField : (b : ℕ) → IsDigit b → (b == string_sep) ≡ false
digit-IsField b (lo, hi) = ne→== b string_sep (λ e. absurd (omega arith))

decimal-IsField : (z : ℤ) → IsField string_sep (decimal z)
unfolding decimal
decimal-IsField (pos n) = All-weaken (digits (suc n) n) digit-IsField (digits-IsDigit (suc n) n)
decimal-IsField (negsuc n) = (
  refl,
  All-weaken (digits (suc (suc n)) (suc n)) digit-IsField (digits-IsDigit (suc (suc n)) (suc n)),
)

-- A profile whose texts have no separator is read back from its text.
pub new_neo_sp_profile-profile_string :
    (p : NeoSpProfile)
    → IsInt64 p.min_ask
    → IsInt64 p.pledged_storage
    → IsField string_sep p.country_a3
    → IsField string_sep p.node_id
    → new_neo_sp_profile (profile_string p) ≡ ok p
unfolding new_neo_sp_profile profile_string separated_string_list strings_of
new_neo_sp_profile-profile_string p a b c d = rw (
  split-field string_sep (decimal p.min_ask)
      (decimal p.pledged_storage ++ (string_sep ∷ p.country_a3 ++ (string_sep ∷ p.node_id)))
      (decimal-IsField p.min_ask),
  split-field string_sep (decimal p.pledged_storage) (p.country_a3 ++ (string_sep ∷ p.node_id))
      (decimal-IsField p.pledged_storage),
  split-field string_sep p.country_a3 p.node_id c,
  split-last string_sep p.node_id d,
  atoi-int64 p.min_ask a,
  atoi-int64 p.pledged_storage b,
)

-- A number that `Atoi` accepts is the value that it returns.
capped-ok : (r : Result ℕ) (z : ℤ) → (r >>= positive_int) ≡ ok z → capped r ≡ z
capped-ok (ok n) z e = elim (Bool-cases (ltb n (2 ^ 63))) [
  | inl h ↦ grind arith
  | inr h ↦ grind arith
]
capped-ok (err x) z e = grind arith
capped-ok panic z e = grind arith

negative-ok : (n : ℕ) (z : ℤ) → negative_int n ≡ ok z → negative n ≡ z
negative-ok zero z e = grind arith
negative-ok (suc n) z e = elim (Bool-cases (ltb n (2 ^ 63))) [
  | inl h ↦ grind arith
  | inr h ↦ grind arith
]

capped_negative-ok : (r : Result ℕ) (z : ℤ) → (r >>= negative_int) ≡ ok z → capped_negative r ≡ z
capped_negative-ok (ok n) z e = negative-ok n z e
capped_negative-ok (err x) z e = grind arith
capped_negative-ok panic z e = grind arith

atoi_value-ok : (f : Bytes) (z : ℤ) → atoi f ≡ ok z → atoi_value f ≡ z
unfolding atoi atoi_value
atoi_value-ok [] z = λ e. grind arith
atoi_value-ok (b ∷ bs) z = elim (Bool-cases (b == 43)) [
  | inl p ↦ rw p (capped-ok (atoi_digits bs) z)
  | inr p ↦ elim (Bool-cases (b == 45)) [
    | inl q ↦ rw (p, q) (capped_negative-ok (atoi_digits bs) z)
    | inr q ↦ rw (p, q) (capped-ok (atoi_digits (b ∷ bs)) z)
  ]
]

-- The parameters of an upload whose texts have no separator are read back from their compressed text,
-- if what gzip compresses is uncompressed to the same text.
pub new_upload_params_for_neo_from_bytes-params_bytes :
    (gzip : Bytes → Bytes) (gunzip : Bytes → Option Bytes)
    → ((s : Bytes) → gunzip (gzip s) ≡ some s)
    → (u : UploadParamsForNeo) → IsField string_sep u.user_name
    → IsField string_sep u.public_key
    → IsField string_sep u.container_signature
    → IsInt64 u.file_container_type
    → IsField string_sep u.sp_address
    → new_upload_params_for_neo_from_bytes gzip gunzip (params_bytes gzip gunzip u) ≡ ok u
unfolding new_upload_params_for_neo_from_bytes params_bytes compress_string un_compress_string
    new_upload_params_for_neo params_string separated_string_list strings_of
new_upload_params_for_neo_from_bytes-params_bytes gzip gunzip law u a b c d e =
    let kind = decimal u.file_container_type in
    let last_two = kind ++ (string_sep ∷ u.sp_address) in
    let last_three = u.container_signature ++ (string_sep ∷ last_two) in
    rw (
      law (u.user_name ++ (string_sep ∷ u.public_key ++ (string_sep ∷ last_three))),
      split-field string_sep u.user_name (u.public_key ++ (string_sep ∷ last_three)) a,
      split-field string_sep u.public_key last_three b,
      split-field string_sep u.container_signature last_two c,
      split-field string_sep kind u.sp_address (decimal-IsField u.file_container_type),
      split-last string_sep u.sp_address e,
      atoi_value-ok kind u.file_container_type (atoi-int64 u.file_container_type d),
    )
