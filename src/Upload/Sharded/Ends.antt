-- ===== src/Upload/Sharded/Ends.antt =====
-- How the upload of a file's shards ends.
use archoncloud_go.Base.{
  ℕ, zero, suc, ◌+◌, ◌<◌, ◌≡◌, refl, ◌∙◌, sym, ap, subst, List, [], ◌∷◌, length, map, bytes_eq,
  bytes_eq→eq, Bool, true, false, Option, none, some, ◌⊎◌, inl, inr, Bool-cases, Option-cases, All,
  All-weaken, All-of_mem, mem-of_All, mem-of_map, ok, err, arith, length-map, upload_incomplete,
}
use mathlib.Core.List.{Memᴰ}
use mathlib.Core.List.Memᴰ
use archoncloud_go.Common.Bytes.{Bytes}
use archoncloud_go.Common.Profiles.{SpProfile, url}
use archoncloud_go.Shards.Shard.{Shard}
use archoncloud_go.Upload.Sharded.{
  ShardUpload, Response, Uploading, handle_response, handle_responses, post_shard, is_empty,
  count_up, answers, upload_round, upload_loop, needs_first, upload_needed_shards,
}
use archoncloud_go.Upload.Sharded.Posting.{post_shard-upload, post_shard-succeeds}
use archoncloud_go.Upload.Sharded.Rounds.{
  work, IsUploadOf, IsUploaded, IsKept, get_shard_uploads-ok, handle_responses-lt,
  handle_responses-keeps, mem-remove,
}

-- What is assumed of the channel: as many answers arrive as were sent, and only such.
pub record IsChannel (arrive : ℕ → List Response → List Response) : Type 0 where
  pub arrives : (round : ℕ) (sent : List Response) → length (arrive round sent) ≡ length sent
  pub was_sent :
      (round : ℕ) (sent : List Response) (r : Response) → Memᴰ r (arrive round sent) → Memᴰ r sent

is_empty-cases {ℓ} :
    {A : Type ℓ} (xs : List A)
    → ((is_empty xs ≡ true) × (xs ≡ [])) ⊎ ((is_empty xs ≡ false) × (0 < length xs))
is_empty-cases [] = inl (refl, refl)
is_empty-cases (x ∷ xs) = inr (refl, omega arith)

module _ (post : ℕ → ShardUpload → List Bytes → Bytes → Option Bytes)
    (arrive : ℕ → List Response → List Response) (prefer_http : Bool)
    (channel : IsChannel arrive) where
  -- Every answer is that of an upload of the round.
  answer_of :
      (round : ℕ) (uploads : List ShardUpload) (r : Response)
      → Memᴰ r (answers post arrive prefer_http round uploads)
      → (su : ShardUpload) × Memᴰ su uploads × (r ≡ post_shard (post round su) prefer_http su)
  answer_of round uploads r m =
      mem-of_map (λ (su : ShardUpload). post_shard (post round su) prefer_http su) uploads r
        (channel.was_sent round _ r m)

  -- A round with a shard to do and a provider left succeeds and takes work away.
  upload_round-ok :
      (round : ℕ) (s : Uploading)
      → 0 < length s.shards_to_do
      → 0 < length s.sps
      → (uploads : List ShardUpload) × (upload_round post arrive prefer_http round s
          ≡ ok (handle_responses s (answers post arrive prefer_http round uploads)))
        × (work (handle_responses s (answers post arrive prefer_http round uploads)) < work s)
  unfolding upload_round
  upload_round-ok round s a b =
      let (uploads, e, all, some_, few) = get_shard_uploads-ok s a b in
      let rs = answers post arrive prefer_http round uploads in
      let about : All (λ (r : Response). IsUploadOf s.shards_to_do s.sps r.upload) rs =
        All-of_mem rs (λ r m.
          let (su, k, eq) = answer_of round uploads r m in
          let same : r.upload ≡ su =
            ap (λ (r : Response). r.upload) eq ∙ post_shard-upload (post round su) prefer_http su in
          subst (IsUploadOf s.shards_to_do s.sps) (sym same)
            (mem-of_All (IsUploadOf s.shards_to_do s.sps) uploads su all k)) in
      let sent = map (λ (su : ShardUpload). post_shard (post round su) prefer_http su) uploads in
      (
        uploads,
        rw e,
        handle_responses-lt rs s
            (omega (
              arith,
              channel.arrives round sent,
              length-map (λ (su : ShardUpload). post_shard (post round su) prefer_http su) uploads,
            ))
            about,
      )

  -- With fuel for the work that is left, the loop ends, in one of two ways, and what every round
  -- preserves holds at the end.
  upload_loop-ends :
      {P : Uploading → Type 0} (fuel round : ℕ) (s : Uploading)
      → ((round : ℕ) (s : Uploading) (uploads : List ShardUpload)
          → P s
          → P (handle_responses s (answers post arrive prefer_http round uploads)))
      → work s < fuel
      → P s
      → (s' : Uploading) × P s'
        × (((upload_loop post arrive prefer_http fuel round s ≡ some (ok tt, s'))
              × (s'.shards_to_do ≡ []))
            ⊎ ((upload_loop post arrive prefer_http fuel round s ≡ some (err upload_incomplete, s'))
                × (s'.sps ≡ [])))
  unfolding upload_loop
  upload_loop-ends zero round s keep lt p = absurd (omega arith)
  upload_loop-ends {P} (suc fuel) round s keep lt p = elim (is_empty-cases s.shards_to_do) [
    | inl (e, none_left) ↦ (s, p, inl (rw e, none_left))
    | inr (e, a) ↦ elim (is_empty-cases s.sps) [
      | inl (f, none_left) ↦ (s, p, inr (rw (e, f), none_left))
      | inr (f, b) ↦
          let (uploads, made, less) = upload_round-ok round s a b in
          let s1 = handle_responses s (answers post arrive prefer_http round uploads) in
          let (s', p', ends) =
            upload_loop-ends {P = P} fuel (suc round) s1 keep (omega arith)
              (keep round s uploads p) in
          (s', p', rw (e, f, made) ends)
    ]
  ]

length-count_up : (i n : ℕ) → length (count_up i n) ≡ n
unfolding count_up
length-count_up i zero = refl
length-count_up i (suc n) = ap suc (length-count_up (suc i) n)

-- An answer without an error leaves the providers, one with an error removes that address only.
handle_responses-spares :
    (rs : List Response) (s : Uploading) (sp : SpProfile)
    → All (λ (r : Response). r.upload.sp_profile.address ≡ sp.address → r.error ≡ none) rs
    → Memᴰ sp s.sps
    → Memᴰ sp (handle_responses s rs).sps
unfolding handle_responses handle_response
handle_responses-spares [] s sp h m = m
handle_responses-spares (r ∷ rs) s sp (h, hs) m =
    handle_responses-spares rs (handle_response s r) sp hs (elim (Option-cases r.error) [
      | inl e ↦ rw e m
      | inr (x, e) ↦ elim (Bool-cases (bytes_eq sp.address r.upload.sp_profile.address)) [
        | inl t ↦ let gone = h (sym (bytes_eq→eq sp.address r.upload.sp_profile.address t)) in cc
        | inr t ↦ rw e (
            mem-remove (λ (q : SpProfile). bytes_eq q.address r.upload.sp_profile.address) sp s.sps
              t m)
      ]
    ])

module _ (post : ℕ → ShardUpload → List Bytes → Bytes → Option Bytes)
    (arrive : ℕ → List Response → List Response) (prefer_http : Bool)
    (channel : IsChannel arrive) where
  abbrev start : List (Option Shard) → List SpProfile → Uploading
  start shards sps = record { shards_to_do = count_up 0 (length shards); sps = sps; messages = [] }

  none_lost :
      (shards : List ℕ) (s' : Uploading)
      → All (λ (i : ℕ). IsKept i s') shards
      → s'.shards_to_do ≡ []
      → All (λ (i : ℕ). IsUploaded i s'.messages) shards
  none_lost shards s' all e =
      All-weaken shards
        (λ i k. elim k [ inl m ↦ absurd (Memᴰ.not-nil (subst (Memᴰ i) e m)) | inr u ↦ u ]) all

  -- If as many answers arrive in each round as were sent, and only such, and there is a first
  -- shard: with more fuel than there are shards and providers together the upload ends, either
  -- without an error, with a message for every shard that it was uploaded, or with the error that
  -- not all shards could be uploaded, when no provider is left.
  pub upload_needed_shards-ends :
      (fuel : ℕ) (shards : List (Option Shard)) (sps : List SpProfile)
      → needs_first shards ≡ true
      → length shards + length sps < fuel
      → (s' : Uploading) × (((upload_needed_shards post arrive prefer_http fuel shards sps
              ≡ some (ok tt, s'))
            × All (λ (i : ℕ). IsUploaded i s'.messages) (count_up 0 (length shards)))
          ⊎ ((upload_needed_shards post arrive prefer_http fuel shards sps
                ≡ some (err upload_incomplete, s'))
              × (s'.sps ≡ [])))
  unfolding upload_needed_shards
  upload_needed_shards-ends fuel shards sps first lt =
      let todo = count_up 0 (length shards) in
      let (s', kept, ends) =
        upload_loop-ends post arrive prefer_http channel {P = λ s. All (λ (i : ℕ). IsKept i s) todo}
          fuel 0 (start shards sps)
          (λ round s uploads all.
            All-weaken todo
              (λ i k. handle_responses-keeps (answers post arrive prefer_http round uploads) s i k)
              all)
          (omega (arith, length-count_up 0 (length shards))) (All-of_mem todo (λ i m. inl m)) in
      (
        s',
        elim ends [
          | inl (e, none_left) ↦ inl (rw first e, none_lost todo s' kept none_left)
          | inr (e, none_left) ↦ inr (rw first e, none_left)
        ],
      )

  -- If as many answers arrive in each round as were sent, and only such, there is a first shard and
  -- more fuel than there are shards and providers together, and the list has a provider of whose
  -- two URLs one, over HTTP or over HTTPS, takes every post to that address, also after an attempt at the
  -- other URL, then the upload ends
  -- without an error and with a message for every shard that it was uploaded, whatever the other
  -- providers do.
  pub upload_needed_shards-succeeds :
      (fuel : ℕ) (shards : List (Option Shard)) (sps : List SpProfile) (sp : SpProfile)
      (over_http : Bool)
      → needs_first shards ≡ true
      → length shards + length sps < fuel
      → Memᴰ sp sps
      → ((round : ℕ) (su : ShardUpload)
          → su.sp_profile.address ≡ sp.address
          → (used : List Bytes) → post round su used (url su.sp_profile.urls over_http) ≡ none)
      → (s' : Uploading) × (upload_needed_shards post arrive prefer_http fuel shards sps
          ≡ some (ok tt, s'))
        × All (λ (i : ℕ). IsUploaded i s'.messages) (count_up 0 (length shards))
  unfolding upload_needed_shards
  upload_needed_shards-succeeds fuel shards sps sp over_http first lt here takes =
      let todo = count_up 0 (length shards) in
      let keep : (round : ℕ) (s : Uploading) (uploads : List ShardUpload)
          → All (λ (i : ℕ). IsKept i s) todo × Memᴰ sp s.sps
          → All
              (λ (i : ℕ).
                IsKept i (handle_responses s (answers post arrive prefer_http round uploads)))
              todo
            × Memᴰ sp (handle_responses s (answers post arrive prefer_http round uploads)).sps =
        λ round s uploads (all, m).
          let rs = answers post arrive prefer_http round uploads in
          (
            All-weaken todo (λ i k. handle_responses-keeps rs s i k) all,
            handle_responses-spares rs s sp
                (All-of_mem rs (λ r k same.
                  let (su, k', eq) = answer_of post arrive prefer_http channel round uploads r k in
                  let of_su : r.upload ≡ su =
                    ap (λ (r : Response). r.upload) eq
                    ∙ post_shard-upload (post round su) prefer_http su in
                  ap (λ (r : Response). r.error) eq
                  ∙ post_shard-succeeds (post round su) prefer_http over_http su (
                      takes round su
                        (ap (λ (u : ShardUpload). u.sp_profile.address) (sym of_su) ∙ same))))
                m,
          ) in
      let (s', (kept, still), ends) =
        upload_loop-ends post arrive prefer_http channel
          {P = λ s. All (λ (i : ℕ). IsKept i s) todo × Memᴰ sp s.sps} fuel 0 (start shards sps) keep
          (omega (arith, length-count_up 0 (length shards)))
          (All-of_mem todo (λ i m. inl m), here) in
      elim ends [
        | inl (e, none_left) ↦ (s', rw first e, none_lost todo s' kept none_left)
        | inr (e, none_left) ↦ absurd (Memᴰ.not-nil (subst (Memᴰ sp) none_left still))
      ]
