-- ===== src/BlockchainApi/Neo.antt =====
-- blockchainAPI/neo/neoSpProfile.go and uploadParamsForNeo.go: the texts that the Neo contract stores, with
-- SeparatedStringList of common/utils.go and the compression of common/compress.go. The package gzip
-- is a parameter; a text whose header it cannot read is `none`, and reading from the nil reader panics.
pub mod Texts
pub mod Responses
pub mod Answers
use archoncloud_go.Base.{
  ℕ, zero, suc, ◌-◌, ◌^◌, List, [], ◌∷◌, ◌++◌, ltb, leb, ◌==◌, Bool, true, false, if◌then◌else◌,
  Option, none, some, Result, ok, err, panic, ◌>>=◌, invalid_profile_string,
  invalid_neo_upload_string,
}
use archoncloud_go.Base.Int.{ℤ, pos, negsuc}
use archoncloud_go.Common.Bytes.{Bytes}
use archoncloud_go.Common.Profiles.{split}
use archoncloud_go.Common.ArchonUrl.{decimal, atoi, atoi_digits}

-- "|"
abbrev pub string_sep : ℕ
string_sep = 124

-- The items that the two texts have; an int and an int64 are written alike.
pub data Item : Type 0 where
  of_string : Bytes → Item
  of_int : ℤ → Item
  of_strings : List Bytes → Item

unfoldable pub strings_of : List Item → List Bytes
unfolding decimal
strings_of [] = []
strings_of (of_string s ∷ items) = s ∷ strings_of items
strings_of (of_int n ∷ items) = decimal n ∷ strings_of items
strings_of (of_strings ss ∷ items) = ss ++ strings_of items

-- `strings.Join`
abbrev pub join : ℕ → List Bytes → Bytes
join sep [] = []
join sep (s ∷ []) = s
join sep (s ∷ t ∷ ss) = s ++ (sep ∷ join sep (t ∷ ss))

unfoldable pub separated_string_list : ℕ → List Item → Bytes
unfolding strings_of
separated_string_list separator items = join separator (strings_of items)

pub record NeoSpProfile : Type 0 where
  pub min_ask : ℤ
  pub pledged_storage : ℤ
  pub country_a3 : Bytes
  pub node_id : Bytes

unfoldable pub profile_string : NeoSpProfile → Bytes
unfolding separated_string_list
profile_string p = separated_string_list string_sep (
    of_int p.min_ask ∷ of_int p.pledged_storage ∷ of_string p.country_a3 ∷ of_string p.node_id ∷ [])

abbrev pub profile_of_parts : List Bytes → Result NeoSpProfile
profile_of_parts (a ∷ b ∷ c ∷ d ∷ []) = do
  min_ask ← atoi a
  pledged_storage ← atoi b
  ok (record { min_ask = min_ask; pledged_storage = pledged_storage; country_a3 = c; node_id = d })
profile_of_parts _ = err invalid_profile_string

unfoldable pub new_neo_sp_profile : Bytes → Result NeoSpProfile
unfolding split atoi
new_neo_sp_profile s = profile_of_parts (split string_sep s)

pub record UploadParamsForNeo : Type 0 where
  pub user_name : Bytes
  pub public_key : Bytes
  pub container_signature : Bytes
  pub file_container_type : ℤ
  pub sp_address : Bytes

unfoldable pub params_string : UploadParamsForNeo → Bytes
unfolding separated_string_list
params_string u = separated_string_list string_sep (
    of_string u.user_name
    ∷ of_string u.public_key
    ∷ of_string u.container_signature
    ∷ of_int u.file_container_type
    ∷ of_string u.sp_address
    ∷ [])

-- The value that `strconv.Atoi` returns also if it fails: 0, or the int next to a number out of range.
abbrev pub capped : Result ℕ → ℤ
capped (ok n) = if ltb n (2 ^ 63) then pos n else pos (2 ^ 63 - 1)
capped _ = pos 0

abbrev pub negative : ℕ → ℤ
negative zero = pos 0
negative (suc n) = if ltb n (2 ^ 63) then negsuc n else negsuc (2 ^ 63 - 1)

abbrev pub capped_negative : Result ℕ → ℤ
capped_negative (ok n) = negative n
capped_negative _ = pos 0

unfoldable pub atoi_value : Bytes → ℤ
atoi_value [] = pos 0
atoi_value (b ∷ bs) =
    if b == 43
    then capped (atoi_digits bs)
    else if b == 45
    then capped_negative (atoi_digits bs)
    else capped (atoi_digits (b ∷ bs))

-- Further parts are left out.
abbrev pub params_of_parts : List Bytes → Result UploadParamsForNeo
params_of_parts (a ∷ b ∷ c ∷ d ∷ e ∷ rest) = ok (record {
  user_name = a;
  public_key = b;
  container_signature = c;
  file_container_type = atoi_value d;
  sp_address = e;
})
params_of_parts _ = err invalid_neo_upload_string

unfoldable pub new_upload_params_for_neo : Bytes → Result UploadParamsForNeo
unfolding split atoi_value
new_upload_params_for_neo s = params_of_parts (split string_sep s)

module _ (gzip : Bytes → Bytes) (gunzip : Bytes → Option Bytes) where
  unfoldable pub compress_string : Bytes → Bytes
  compress_string s = gzip s

  abbrev pub or_panic : Option Bytes → Result Bytes
  or_panic none = panic
  or_panic (some s) = ok s

  unfoldable pub un_compress_string : Bytes → Result Bytes
  un_compress_string b = or_panic (gunzip b)

  unfoldable pub params_bytes : UploadParamsForNeo → Bytes
  unfolding params_string compress_string
  params_bytes u = compress_string (params_string u)

  unfoldable pub new_upload_params_for_neo_from_bytes : Bytes → Result UploadParamsForNeo
  unfolding new_upload_params_for_neo un_compress_string
  new_upload_params_for_neo_from_bytes b = do s ← un_compress_string b; new_upload_params_for_neo s
