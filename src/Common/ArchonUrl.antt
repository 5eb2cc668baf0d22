-- ===== src/Common/ArchonUrl.antt =====
-- common/archonurl.go: Archon URLs, and the paths under which shards are stored. Strings are lists of
-- bytes.
pub mod Paths
pub mod Parse
use archoncloud_go.Base.{
  ℕ, zero, suc, ◌+◌, ◌-◌, ◌*◌, ◌/◌, ◌%◌, ◌^◌, List, [], ◌∷◌, ◌++◌, length, map, ltb, leb, ◌==◌,
  bytes_eq, not, ◌&&◌, ◌||◌, Bool, true, false, if◌then◌else◌, Option, none, some, Result, ok, err,
  panic, ◌>>=◌, Error, not_a_shard_path, not_a_number,
}
use archoncloud_go.Base.Int.{ℤ, pos, negsuc}
use archoncloud_go.Common.Bytes.{Bytes}
use archoncloud_go.Common.Profiles.{split}

pub record ArchonUrl : Type 0 where
  pub username : Bytes
  pub permission : Bytes
  pub path : Bytes
  pub needed : ℤ
  pub total : ℤ

-- `%d`: the digits of a number, on fuel above it.
abbrev pub digits : ℕ → ℕ → Bytes
digits zero n = []
digits (suc fuel) n =
    let front = digits fuel (n / 10) in
    if ltb n 10 then (48 + n) ∷ [] else front ++ (48 + n % 10) ∷ []

unfoldable pub decimal : ℤ → Bytes
decimal (pos n) = digits (suc n) n
decimal (negsuc n) = 45 ∷ digits (suc (suc n)) (suc n)

-- `strconv.Atoi`: an optional sign and digits, of an `int`.
abbrev pub is_digit : ℕ → Bool
is_digit b = leb 48 b && leb b 57

abbrev pub atoi_from : ℕ → Bytes → Result ℕ
atoi_from acc [] = ok acc
atoi_from acc (b ∷ bs) =
    let rest = atoi_from (acc * 10 + (b - 48)) bs in if is_digit b then rest else err not_a_number

abbrev pub atoi_digits : Bytes → Result ℕ
atoi_digits [] = err not_a_number
atoi_digits (b ∷ bs) = atoi_from 0 (b ∷ bs)

abbrev pub positive_int : ℕ → Result ℤ
positive_int n = if ltb n (2 ^ 63) then ok (pos n) else err not_a_number

abbrev pub negative_int : ℕ → Result ℤ
negative_int zero = ok (pos 0)
negative_int (suc n) = if ltb n (2 ^ 63) then ok (negsuc n) else err not_a_number

unfoldable pub atoi : Bytes → Result ℤ
atoi [] = err not_a_number
atoi (b ∷ bs) =
    if b == 43
    then atoi_digits bs >>= positive_int
    else if b == 45
    then atoi_digits bs >>= negative_int
    else atoi_digits (b ∷ bs) >>= positive_int

-- "afs", "afh", "af"
abbrev pub shard_file_suffix : Bytes
shard_file_suffix = 97 ∷ 102 ∷ 115 ∷ []

abbrev pub hash_file_suffix : Bytes
hash_file_suffix = 97 ∷ 102 ∷ 104 ∷ []

abbrev pub whole_file_suffix : Bytes
whole_file_suffix = 97 ∷ 102 ∷ []

abbrev pub dot : ℕ
dot = 46

abbrev pub slash : ℕ
slash = 47

abbrev pub backslash : ℕ
backslash = 92

unfoldable pub is_hash : ArchonUrl → Bool
is_hash a = bytes_eq a.username []

abbrev pub is_zero : ℤ → Bool
is_zero (pos n) = n == 0
is_zero (negsuc n) = false

unfoldable pub is_whole_file : ArchonUrl → Bool
is_whole_file a = is_zero a.needed

-- "h" or "n", then "0" or the two numbers with ":" between them.
unfoldable pub tld : ArchonUrl → Bytes
unfolding is_hash is_whole_file decimal
tld a =
    (if is_hash a then 104 ∷ [] else 110 ∷ [])
    ++ (if is_whole_file a then 48 ∷ [] else decimal a.needed ++ (58 ∷ decimal a.total))

-- "arc://"
abbrev pub arc_prefix : Bytes
arc_prefix = 97 ∷ 114 ∷ 99 ∷ 58 ∷ 47 ∷ 47 ∷ []

-- `path[0]` panics if the path is empty.
abbrev pub with_slash : Bytes → Result Bytes
with_slash [] = panic
with_slash (b ∷ bs) = ok (if b == slash then b ∷ bs else slash ∷ b ∷ bs)

unfoldable pub url_string : ArchonUrl → Result Bytes
unfolding tld is_hash
url_string a = if is_hash a then ok (arc_prefix ++ tld a ++ (slash ∷ a.path)) else (do
  path ← with_slash a.path
  ok (arc_prefix ++ a.username ++ (dot ∷ a.permission) ++ (dot ∷ tld a) ++ path))

abbrev pub is_separator : ℕ → Bool
is_separator b = (b == slash) || (b == backslash)

-- `strings.Trim(path, "/\\")`
abbrev pub trim_left : Bytes → Bytes
trim_left [] = []
trim_left (b ∷ bs) = let rest = trim_left bs in if is_separator b then rest else b ∷ bs

abbrev pub trim_right : Bytes → Bytes
trim_right [] = []
trim_right (b ∷ bs) =
    let rest = trim_right bs in if is_separator b && bytes_eq rest [] then [] else b ∷ rest

unfoldable pub shard_path : ArchonUrl → ℤ → Bytes
unfolding is_hash is_whole_file decimal
shard_path a shard_ix =
    let top_folder = a.permission ++ (slash ∷ a.username) in
    let path = trim_right (trim_left a.path) in
    if is_hash a
    then if is_whole_file a
      then a.path ++ (dot ∷ hash_file_suffix)
      else a.path ++ (dot ∷ decimal shard_ix ++ (dot ∷ hash_file_suffix))
    else if is_whole_file a
    then top_folder ++ (slash ∷ path ++ (dot ∷ whole_file_suffix))
    else top_folder ++ (slash ∷ path ++ (dot ∷ decimal shard_ix ++ (dot ∷ shard_file_suffix)))

abbrev pub paths_from : ArchonUrl → ℕ → ℕ → List Bytes
paths_from a i zero = []
paths_from a i (suc n) = shard_path a (pos i) ∷ paths_from a (suc i) n

unfoldable pub shard_paths : ArchonUrl → List Bytes
unfolding is_whole_file
shard_paths a =
    if is_whole_file a
    then shard_path a (pos 0) ∷ []
    else elim a.total [ pos n ↦ paths_from a 0 n | negsuc n ↦ [] ]

-- "/download?", "shardIdx=" and "archonUrl="
abbrev pub download_endpoint : Bytes
download_endpoint = 47 ∷ 100 ∷ 111 ∷ 119 ∷ 110 ∷ 108 ∷ 111 ∷ 97 ∷ 100 ∷ []

abbrev pub shard_idx_query : Bytes
shard_idx_query = 115 ∷ 104 ∷ 97 ∷ 114 ∷ 100 ∷ 73 ∷ 100 ∷ 120 ∷ []

abbrev pub archon_url_query : Bytes
archon_url_query = 97 ∷ 114 ∷ 99 ∷ 104 ∷ 111 ∷ 110 ∷ 85 ∷ 114 ∷ 108 ∷ []

-- `&` after the index; a negative index is left out.
abbrev pub index_query : ℤ → Bytes
unfolding decimal
index_query (pos n) = shard_idx_query ++ (61 ∷ decimal (pos n)) ++ (38 ∷ [])
index_query (negsuc n) = []

unfoldable pub download_url : ArchonUrl → ℤ → Result Bytes
unfolding url_string
download_url a shard_ix = do
  text ← url_string a
  ok (download_endpoint ++ (63 ∷ index_query shard_ix) ++ archon_url_query ++ (61 ∷ text))

-- The last two of at least three parts.
abbrev pub last_two : List Bytes → Option (Bytes × Bytes)
last_two (p ∷ q ∷ r ∷ []) = some (q, r)
last_two (p ∷ q ∷ r ∷ s ∷ parts) = last_two (q ∷ r ∷ s ∷ parts)
last_two _ = none

abbrev pub or_not_a_path : Result ℤ → Result ℤ
or_not_a_path (ok n) = ok n
or_not_a_path _ = err not_a_shard_path

-- The case of the suffix "afs" has no body.
abbrev pub index_of_parts : Option (Bytes × Bytes) → Result ℤ
index_of_parts none = err not_a_shard_path
index_of_parts (some (ix, suffix)) =
    if bytes_eq suffix shard_file_suffix
    then err not_a_shard_path
    else if bytes_eq suffix hash_file_suffix
    then or_not_a_path (atoi ix)
    else err not_a_shard_path

unfoldable pub index_from_shard_path : Bytes → Result ℤ
unfolding atoi
index_from_shard_path shp = index_of_parts (last_two (split dot shp))
