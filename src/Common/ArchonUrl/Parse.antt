-- ===== src/Common/ArchonUrl/Parse.antt =====
-- common/archonurl.go: the parser of Archon URLs. `url.Parse` is a parameter, which returns the host and
-- the path, and so is the base58 decoder.
pub mod RoundTrip
use archoncloud_go.Base.{
  ℕ, zero, suc, ◌+◌, List, [], ◌∷◌, ◌++◌, length, ltb, leb, ◌==◌, bytes_eq, ◌&&◌, ◌||◌, not, Bool,
  true, false, if◌then◌else◌, Result, ok, err, panic, guard, ◌>>=◌, ◌>>◌, missing_archon_url,
  not_arc_protocol, invalid_archon_url, path_is_empty, missing_h, missing_user_name,
  missing_eth_or_neo, missing_n, whole_file_encoding, invalid_needed_or_total,
}
use archoncloud_go.Base.Int.{ℤ, pos, negsuc}
use archoncloud_go.Common.Bytes.{Bytes}
use archoncloud_go.Common.Hash.{archon_hash_from_string}
use archoncloud_go.Common.Names.{is_legal_file_path, is_legal_user_name}
use archoncloud_go.Common.Profiles.{split}
use archoncloud_go.Common.ArchonUrl.{ArchonUrl, arc_prefix, atoi, is_hash, is_zero, dot, slash}

abbrev pub has_prefix : Bytes → Bytes → Bool
has_prefix bs [] = true
has_prefix [] (p ∷ ps) = false
has_prefix (b ∷ bs) (p ∷ ps) = (b == p) && has_prefix bs ps

-- "eth", "neo"
abbrev pub eth : Bytes
eth = 101 ∷ 116 ∷ 104 ∷ []

abbrev pub neo : Bytes
neo = 110 ∷ 101 ∷ 111 ∷ []

-- The letter that starts the last part of the host, and what follows it. `tld[0]` panics if there is
-- none.
unfoldable pub encoding_of : ℕ → Result (Unit {0}) → Bytes → Result Bytes
encoding_of letter missing [] = panic
encoding_of letter missing (b ∷ bs) = do
  (if ltb 4 (length (b ∷ bs)) || not (b == letter) then missing else ok tt)
  ok bs

-- The user name, the permission and the encoding.
unfoldable pub host_parts : List Bytes → Result (Bytes × Bytes × Bytes)
unfolding encoding_of
host_parts (tld ∷ []) = do encoding ← encoding_of 104 (err missing_h) tld; ok ([], [], encoding)
host_parts (username ∷ perm ∷ tld ∷ []) = do
  guard (not (bytes_eq username [])) missing_user_name
  is_legal_user_name username
  guard (bytes_eq perm eth || bytes_eq perm neo) missing_eth_or_neo
  encoding ← encoding_of 110 (err missing_n) tld
  ok (username, perm, encoding)
host_parts _ = err invalid_archon_url

-- A number that cannot be read is 0, but for one out of range, which is the largest or the smallest
-- int: at most four characters are read here, and none is out of range.
abbrev pub value_or_zero : Result ℤ → ℤ
value_or_zero (ok n) = n
value_or_zero _ = pos 0

abbrev pub is_negative : ℤ → Bool
is_negative (pos n) = false
is_negative (negsuc n) = true

abbrev pub in_order : ℤ → ℤ → Bool
in_order (pos (suc n)) (pos t) = leb (suc n) t
in_order _ _ = false

unfoldable pub needed_and_total : List Bytes → Result (ℤ × ℤ)
unfolding atoi
needed_and_total (n ∷ t ∷ nums) =
    let needed = value_or_zero (atoi n) in
    let total = value_or_zero (atoi t) in
    if in_order needed total then ok (needed, total) else err invalid_needed_or_total
needed_and_total _ = err invalid_archon_url

unfoldable pub read_encoding : Bytes → Result (ℤ × ℤ)
unfolding split needed_and_total
read_encoding (b ∷ []) = if b == 48 then ok (pos 0, pos 1) else err whole_file_encoding
read_encoding encoding = needed_and_total (split 58 encoding)

-- `strings.ReplaceAll(path, "/", "")`
abbrev pub without_slashes : Bytes → Bytes
without_slashes [] = []
without_slashes (b ∷ bs) = let rest = without_slashes bs in if b == slash then rest else b ∷ rest

module _ (parse : Bytes → Result (Bytes × Bytes)) (base58_decode : Bytes → Bytes) where
  -- The check of the path, which loses its separators if it is a hash.
  unfoldable pub check_path : ArchonUrl → Result ArchonUrl
  check_path a =
      if is_hash a
      then (do
        _ ← archon_hash_from_string base58_decode (without_slashes a.path)
        ok (record a { path = without_slashes a.path }))
      else (do is_legal_file_path a.path; ok a)

  unfoldable pub parsed : Result (Bytes × Bytes) → Result ArchonUrl
  unfolding check_path split
  parsed (ok (host, path)) = do
    guard (not (bytes_eq path [])) path_is_empty
    (username, perm, encoding) ← host_parts (split dot host)
    (needed, total) ← read_encoding encoding
    check_path (record {
      username = username;
      permission = perm;
      path = path;
      needed = needed;
      total = total;
    })
  parsed panic = panic
  parsed (err e) = err invalid_archon_url

  unfoldable pub new_archon_url : Bytes → Result ArchonUrl
  unfolding parsed
  new_archon_url url_string = do
    guard (not (bytes_eq url_string [])) missing_archon_url
    guard (has_prefix url_string arc_prefix) not_arc_protocol
    parsed (parse url_string)
