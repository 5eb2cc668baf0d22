-- ===== src/Common/Profiles/Text.antt =====
-- The text form of a provider's URLs.
use archoncloud_go.Base.{◌≡◌, ◌∷◌, ◌++◌, ok, append_assoc}
use archoncloud_go.Common.Profiles.{Urls, urls_sep, new_urls, urls_string}
use archoncloud_go.Common.Splitting.{IsField, split-field, split-last}

-- `NewUrls` reads back what `String` writes of URLs that have no separator in the host or the
-- ports.
pub new_urls-urls_string :
    (u : Urls)
    → IsField urls_sep u.host
    → IsField urls_sep u.http_port
    → IsField urls_sep u.https_port
    → new_urls (urls_string u) ≡ ok u
unfolding new_urls urls_string
new_urls-urls_string u a b c =
    let whole = append_assoc u.host (urls_sep ∷ u.http_port) (urls_sep ∷ u.https_port) in
    rw (
      whole,
      split-field urls_sep u.host (u.http_port ++ (urls_sep ∷ u.https_port)) a,
      split-field urls_sep u.http_port u.https_port b,
      split-last urls_sep u.https_port c,
    )
