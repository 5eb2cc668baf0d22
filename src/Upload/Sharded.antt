-- ===== src/Upload/Sharded.antt =====
-- upload/sharded.go: the loop that gives shards to storage providers until all are uploaded or no
-- provider is left. The post of one request is a parameter, by round, upload, the URLs that were tried
-- before and the URL: `none` is success. The attempts read one pipe, so what a second one finds in it may
-- depend on the first. The order in which the answers of a round arrive on the channel is a parameter, too.
pub mod Rounds
pub mod Ends
pub mod Posting
use archoncloud_go.Base.{
  ℕ, zero, suc, ◌+◌, ◌%◌, List, [], ◌∷◌, ◌++◌, length, min, bytes_eq, not, ◌||◌, Bool, true, false,
  if◌then◌else◌, Option, none, some, Result, ok, err, panic, ◌>>=◌, Error, upload_incomplete, map,
}
use archoncloud_go.Common.Bytes.{Bytes}
use archoncloud_go.Shards.Shard.{Shard}
use archoncloud_go.Common.Numbers.{erase_int}
use archoncloud_go.Common.Profiles.{SpProfile, Urls, url, get_sp, remove}

-- The container is the same for all uploads; the fields that the post sets are in `Response`.
pub record ShardUpload : Type 0 where
  pub shard_index : ℕ
  pub sp_profile : SpProfile

pub record Response : Type 0 where
  pub upload : ShardUpload
  pub upload_url : Bytes
  pub error : Option Bytes

-- What is added to the result messages: the host and the error, whose text is trimmed for display
-- only, or the shard and the URL.
pub data Message : Type 0 where
  sp_failed : Bytes → Bytes → Message
  shard_uploaded : ℕ → Bytes → Message

pub record Uploading : Type 0 where
  pub shards_to_do : List ℕ
  pub sps : List SpProfile
  pub messages : List Message

-- The first `left` of the shards, each with the next provider in turn.
unfoldable pub uploads_from : List SpProfile → ℕ → ℕ → List ℕ → Result (List ShardUpload)
uploads_from sps ix zero shards = ok []
uploads_from sps ix (suc left) [] = ok []
uploads_from sps ix (suc left) (shard_index ∷ shards) = do
  sp ← get_sp sps (ix % length sps)
  rest ← uploads_from sps (suc ix) left shards
  ok (record { shard_index = shard_index; sp_profile = sp } ∷ rest)

unfoldable pub get_shard_uploads : List ℕ → List SpProfile → ℕ → Result (List ShardUpload)
unfolding uploads_from
get_shard_uploads shards_to_do sps max_at_once =
    uploads_from sps 0 (min (length shards_to_do) max_at_once) shards_to_do

abbrev pub mem_url : Bytes → List Bytes → Bool
mem_url u [] = false
mem_url u (v ∷ vs) = bytes_eq u v || mem_url u vs

-- `errorList[0]`, or that there are no URLs.
abbrev pub first_error : SpProfile → List Bytes → Bytes
first_error sp [] = sp.urls.host
first_error sp (e ∷ errors) = e

-- `left` rounds of the loop over `k`; a `continue` leaves the preference as it is.
unfoldable pub post_loop :
    (List Bytes → Bytes → Option Bytes)
    → ShardUpload
    → ℕ
    → Bool
    → List Bytes
    → List Bytes
    → Bytes
    → Response
post_loop post su zero prefer_http used errors last = record {
  upload = su;
  upload_url = last;
  error = some (first_error su.sp_profile errors);
}
post_loop post su (suc left) prefer_http used errors last =
    let u = url su.sp_profile.urls prefer_http in
    let no_url = post_loop post su left (not prefer_http) used errors u in
    let tried = post_loop post su left prefer_http used errors u in
    let answered : Option Bytes → Response = λ a. elim a [
      | none ↦ record { upload = su; upload_url = u; error = none }
      | some e ↦ post_loop post su left (not prefer_http) (u ∷ used) (errors ++ e ∷ []) u
    ] in
    if bytes_eq u [] then no_url else if mem_url u used then tried else answered (post used u)

unfoldable pub post_shard : (List Bytes → Bytes → Option Bytes) → Bool → ShardUpload → Response
unfolding post_loop
post_shard post prefer_http su = post_loop post su 2 prefer_http [] [] []

-- A provider that failed is not tried again; a shard that was taken is done.
unfoldable pub handle_response : Uploading → Response → Uploading
handle_response s resp = elim resp.error [
  | some e ↦ record s {
    sps = remove (λ (sp : SpProfile). bytes_eq sp.address resp.upload.sp_profile.address) s.sps;
    messages = s.messages ++ sp_failed resp.upload.sp_profile.urls.host e ∷ [];
  }
  | none ↦ record s {
    shards_to_do = erase_int s.shards_to_do resp.upload.shard_index;
    messages = s.messages ++ shard_uploaded resp.upload.shard_index resp.upload_url ∷ [];
  }
]

unfoldable pub handle_responses : Uploading → List Response → Uploading
unfolding handle_response
handle_responses s [] = s
handle_responses s (resp ∷ rest) = handle_responses (handle_response s resp) rest

abbrev pub is_empty {ℓ} : {A : Type ℓ} → List A → Bool
is_empty [] = true
is_empty (x ∷ xs) = false

-- The numbers from i on, n of them.
unfoldable pub count_up : ℕ → ℕ → List ℕ
count_up i zero = []
count_up i (suc n) = i ∷ count_up (suc i) n

-- `s.GetShard(0).Len()` panics if there is no such shard.
abbrev pub needs_first : List (Option Shard) → Bool
needs_first (some sh ∷ shards) = true
needs_first _ = false

module _ (post : ℕ → ShardUpload → List Bytes → Bytes → Option Bytes)
    (arrive : ℕ → List Response → List Response) (prefer_http : Bool) where
  abbrev pub answers : ℕ → List ShardUpload → List Response
  answers round uploads =
      arrive round (map (λ (su : ShardUpload). post_shard (post round su) prefer_http su) uploads)

  -- The uploads of one round, in parallel, and all their answers.
  unfoldable pub upload_round : ℕ → Uploading → Result Uploading
  upload_round round s = do
    uploads ← get_shard_uploads s.shards_to_do s.sps 7
    ok (handle_responses s (answers round uploads))

  -- The loop, on fuel: how it ends, and the state that it leaves.
  unfoldable pub upload_loop : ℕ → ℕ → Uploading → Option (Result (Unit {0}) × Uploading)
  unfolding upload_round
  upload_loop zero round s = none
  upload_loop (suc fuel) round s =
      let next : Option (Result (Unit {0}) × Uploading) = elim (upload_round round s) [
        | ok s' ↦ upload_loop fuel (suc round) s'
        | err e ↦ some (err e, s)
        | panic ↦ some (panic, s)
      ] in
      if is_empty s.shards_to_do
      then some (ok tt, s)
      else if is_empty s.sps
      then some (err upload_incomplete, s)
      else next

  -- The shards are numbered from 0 on.
  unfoldable pub upload_needed_shards :
      ℕ → List (Option Shard) → List SpProfile → Option (Result (Unit {0}) × Uploading)
  unfolding upload_loop count_up
  upload_needed_shards fuel shards sps =
      let s : Uploading = record {
        shards_to_do = count_up 0 (length shards);
        sps = sps;
        messages = [];
      } in
      if needs_first shards then upload_loop fuel 0 s else some (panic, s)
