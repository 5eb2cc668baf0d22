-- ===== src/Common/Profiles.antt =====
-- common/spprofile.go: what is known of a storage provider, and lists of them. Strings are lists of
-- bytes. The fields with the provider's gigabytes, which are floating-point numbers, and the id of its
-- node are left out: no function of the file reads them.
pub mod Text
use archoncloud_go.Base.{
  ℕ, zero, suc, ◌+◌, List, [], ◌∷◌, ◌++◌, length, take, set, get_elem?, map, ltb, ◌==◌, bytes_eq,
  not, ◌&&◌, Bool, true, false, if◌then◌else◌, Option, none, some, Result, ok, err, panic, ◌>>=◌,
  urls_need_three_fields,
}
use archoncloud_go.Base.Int.{ℤ, pos, negsuc, ltb_ℤ, ◌*ℤ◌}
use archoncloud_go.Common.Bytes.{Bytes}
use archoncloud_go.Common.Numbers.{mega_bytes}

pub record Urls : Type 0 where
  pub host : Bytes
  pub http_port : Bytes
  pub https_port : Bytes

-- `UrlsSep`, the character `|`
abbrev pub urls_sep : ℕ
urls_sep = 124

-- `strings.Split` at one character.
abbrev pub into_first : ℕ → List Bytes → List Bytes
into_first b [] = (b ∷ []) ∷ []
into_first b (f ∷ fs) = (b ∷ f) ∷ fs

unfoldable pub split : ℕ → Bytes → List Bytes
split sep [] = [] ∷ []
split sep (b ∷ bs) = let rest = split sep bs in if b == sep then [] ∷ rest else into_first b rest

abbrev pub urls_of_fields : List Bytes → Result Urls
urls_of_fields (h ∷ p ∷ s ∷ []) = ok (record { host = h; http_port = p; https_port = s })
urls_of_fields _ = err urls_need_three_fields

unfoldable pub new_urls : Bytes → Result Urls
unfolding split
new_urls enc = urls_of_fields (split urls_sep enc)

unfoldable pub urls_string : Urls → Bytes
urls_string u = u.host ++ (urls_sep ∷ u.http_port) ++ (urls_sep ∷ u.https_port)

-- "http://", "https://" and ":"
abbrev pub http_prefix : Bytes
http_prefix = 104 ∷ 116 ∷ 116 ∷ 112 ∷ 58 ∷ 47 ∷ 47 ∷ []

abbrev pub https_prefix : Bytes
https_prefix = 104 ∷ 116 ∷ 116 ∷ 112 ∷ 115 ∷ 58 ∷ 47 ∷ 47 ∷ []

unfoldable pub use_http : Urls → Bool → Bool
use_http u prefer_http =
    if prefer_http then not (bytes_eq u.http_port []) else bytes_eq u.https_port []

unfoldable pub url : Urls → Bool → Bytes
unfolding use_http
url u prefer_http =
    if use_http u prefer_http
    then http_prefix ++ u.host ++ (58 ∷ u.http_port)
    else https_prefix ++ u.host ++ (58 ∷ u.https_port)

pub record SpProfile : Type 0 where
  pub urls : Urls
  pub address : Bytes
  pub min_ask_price : ℤ

unfoldable pub is_valid : SpProfile → Bool
is_valid sp =
    not (bytes_eq sp.urls.host [])
    && (not (bytes_eq sp.address []) && not (ltb_ℤ sp.min_ask_price (pos 0)))

-- `(*sps)[:n]`, which panics past the end; the lists of this model have no spare capacity.
unfoldable pub keep_only : ℕ → List SpProfile → Result (List SpProfile)
keep_only n sps = if ltb (length sps) n then panic else ok (take n sps)

abbrev pub or_panic : Option SpProfile → Result SpProfile
or_panic none = panic
or_panic (some sp) = ok sp

unfoldable pub get_sp : List SpProfile → ℕ → Result SpProfile
get_sp sps i = or_panic (get_elem? sps i)

unfoldable pub get_of_address : List SpProfile → Bytes → Option SpProfile
get_of_address [] addr = none
get_of_address (sp ∷ sps) addr =
    let rest = get_of_address sps addr in if bytes_eq sp.address addr then some sp else rest

unfoldable pub addresses : List SpProfile → List Bytes
addresses sps = map (λ (sp : SpProfile). sp.address) sps

unfoldable pub remove : (SpProfile → Bool) → List SpProfile → List SpProfile
remove remove_this [] = []
remove remove_this (sp ∷ sps) =
    let rest = remove remove_this sps in if remove_this sp then rest else sp ∷ rest

-- The highest price asked, at least 0.
highest_ask : ℤ → List SpProfile → ℤ
highest_ask highest [] = highest
highest_ask highest (sp ∷ sps) =
    highest_ask (if ltb_ℤ highest sp.min_ask_price then sp.min_ask_price else highest) sps

unfoldable pub price_of_upload : List SpProfile → ℤ → Result ℤ
unfolding highest_ask
price_of_upload sps num_bytes = do
  m_bytes ← mega_bytes num_bytes
  ok (highest_ask (pos 0) sps *ℤ m_bytes *ℤ pos (length sps))
