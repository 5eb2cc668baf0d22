-- ===== src/Upload/Sharded/Posting.antt =====
-- What the attempts for one shard come to.
use archoncloud_go.Base.{
  ℕ, zero, suc, ◌≡◌, refl, ◌∙◌, sym, ap, List, [], ◌∷◌, ◌++◌, bytes_eq, bytes_eq→eq, not, Bool,
  true, false, Option, none, inl, inr, Bool-cases, Option-cases,
}
use archoncloud_go.Common.Bytes.{Bytes}
use archoncloud_go.Common.Profiles.{Urls, url, use_http}
use archoncloud_go.Upload.Sharded.{ShardUpload, mem_url, post_loop, post_shard}

-- The answer is about the upload that was started.
post_loop-upload :
    (post : List Bytes → Bytes → Option Bytes) (su : ShardUpload) (left : ℕ) (prefer_http : Bool)
    (used errors : List Bytes) (last : Bytes)
    → (post_loop post su left prefer_http used errors last).upload ≡ su
unfolding post_loop
post_loop-upload post su zero prefer_http used errors last = refl
post_loop-upload post su (suc left) prefer_http used errors last =
    let u = url su.sp_profile.urls prefer_http in
    elim (Bool-cases (bytes_eq u [])) [
      | inl e ↦ rw e (post_loop-upload post su left (not prefer_http) used errors u)
      | inr e ↦ elim (Bool-cases (mem_url u used)) [
        | inl m ↦ rw (e, m) (post_loop-upload post su left prefer_http used errors u)
        | inr m ↦ elim (Option-cases (post used u)) [
          | inl a ↦ rw (e, m, a)
          | inr (x, a) ↦
              rw (e, m, a)
                (post_loop-upload post su left (not prefer_http) (u ∷ used) (errors ++ x ∷ []) u)
        ]
      ]
    ]

pub post_shard-upload :
    (post : List Bytes → Bytes → Option Bytes) (prefer_http : Bool) (su : ShardUpload)
    → (post_shard post prefer_http su).upload ≡ su
unfolding post_shard
post_shard-upload post prefer_http su = post_loop-upload post su 2 prefer_http [] [] []

url-not_empty : (u : Urls) (p : Bool) → bytes_eq (url u p) [] ≡ false
unfolding url
url-not_empty u p = elim (Bool-cases (use_http u p)) [ inl e ↦ rw e | inr e ↦ rw e ]

-- The first attempt is for the URL that is preferred.
post_shard-first :
    (post : List Bytes → Bytes → Option Bytes) (prefer_http : Bool) (su : ShardUpload)
    → post [] (url su.sp_profile.urls prefer_http) ≡ none
    → (post_shard post prefer_http su).error ≡ none
unfolding post_shard post_loop
post_shard-first post prefer_http su a = rw (url-not_empty su.sp_profile.urls prefer_http, a)

-- The second is for the other one, unless it is the same.
post_shard-second :
    (post : List Bytes → Bytes → Option Bytes) (prefer_http : Bool) (su : ShardUpload)
    → ((used : List Bytes) → post used (url su.sp_profile.urls (not prefer_http)) ≡ none)
    → (post_shard post prefer_http su).error ≡ none
unfolding post_shard post_loop
post_shard-second post prefer_http su a =
    let u = url su.sp_profile.urls prefer_http in
    let v = url su.sp_profile.urls (not prefer_http) in
    elim (Option-cases (post [] u)) [
      | inl b ↦ post_shard-first post prefer_http su b
      | inr (x, b) ↦ elim (Bool-cases (bytes_eq v u)) [
        | inl e ↦
            post_shard-first post prefer_http su (ap (post []) (sym (bytes_eq→eq v u e)) ∙ a [])
        | inr e ↦ rw (
          url-not_empty su.sp_profile.urls prefer_http,
          b,
          url-not_empty su.sp_profile.urls (not prefer_http),
          e,
          a (u ∷ []),
        )
      ]
    ]

-- Whichever protocol is preferred, the upload of a shard has no error if the post to one of the
-- provider's two URLs, over HTTP or over HTTPS, is taken, also after an attempt at the other one.
pub post_shard-succeeds :
    (post : List Bytes → Bytes → Option Bytes) (prefer_http over_http : Bool) (su : ShardUpload)
    → ((used : List Bytes) → post used (url su.sp_profile.urls over_http) ≡ none)
    → (post_shard post prefer_http su).error ≡ none
post_shard-succeeds post true true su a = post_shard-first post true su (a [])
post_shard-succeeds post true false su a = post_shard-second post true su a
post_shard-succeeds post false true su a = post_shard-second post false su a
post_shard-succeeds post false false su a = post_shard-first post false su (a [])
