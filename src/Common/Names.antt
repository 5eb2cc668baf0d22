-- ===== src/Common/Names.antt =====
-- common/utils.go: which file paths and user names are legal.
use archoncloud_go.Base.{
  ℕ, [], ◌∷◌, length, ltb, ◌==◌, ◌&&◌, ◌||◌, Bool, false, if◌then◌else◌, Result, ok, err,
  illegal_file_path, path_too_long, illegal_user_name,
}
use archoncloud_go.Common.Bytes.{Bytes}

abbrev pub contains_byte : Bytes → ℕ → Bool
contains_byte [] b = false
contains_byte (c ∷ cs) b = (c == b) || contains_byte cs b

-- `strings.ContainsAny` for characters of one byte.
abbrev pub contains_any : Bytes → Bytes → Bool
contains_any [] chars = false
contains_any (b ∷ bs) chars = contains_byte chars b || contains_any bs chars

-- The closing quotation mark U+201D, which is three bytes in UTF-8.
abbrev pub contains_quotation_mark : Bytes → Bool
contains_quotation_mark (a ∷ b ∷ c ∷ bs) =
    ((a == 226) && (b == 128) && (c == 157)) || contains_quotation_mark (b ∷ c ∷ bs)
contains_quotation_mark _ = false

-- "#~*<>:?"
abbrev pub invalid_file_path_chars : Bytes
invalid_file_path_chars = 35 ∷ 126 ∷ 42 ∷ 60 ∷ 62 ∷ 58 ∷ 63 ∷ []

abbrev pub max_path : ℕ
max_path = 200

unfoldable pub is_legal_file_path : Bytes → Result (Unit {0})
is_legal_file_path path =
    if contains_any path invalid_file_path_chars || contains_quotation_mark path
    then err illegal_file_path
    else if ltb max_path (length path)
    then err path_too_long
    else ok tt

-- "/\\.#@~*<>:\"?"
abbrev pub invalid_user_name_chars : Bytes
invalid_user_name_chars = 47 ∷ 92 ∷ 46 ∷ 35 ∷ 64 ∷ 126 ∷ 42 ∷ 60 ∷ 62 ∷ 58 ∷ 34 ∷ 63 ∷ []

unfoldable pub is_legal_user_name : Bytes → Result (Unit {0})
is_legal_user_name user_name =
    if contains_any user_name invalid_user_name_chars then err illegal_user_name else ok tt
