-- ===== src/StorageProvider/UploadHandler/Stores.antt =====
-- What an upload leaves in the provider's files.
use archoncloud_go.Base.{
  ◌≡◌, ◌≢◌, ◌⊎◌, inl, inr, sym, none, Error, refl, ap, ◌∙◌, [], ◌∷◌, List, ◌++◌, bytes_eq_refl,
  Bool, true, false, some, Result, ok, err, panic, ◌>>=◌,
}
use archoncloud_go.Common.Bytes.{Bytes}
use archoncloud_go.Shards.Erasure.{Infectious}
use archoncloud_go.Shards.Header.{ShardHeader, new_shard_header, to_bytes}
use archoncloud_go.Shards.Shard.{Stored, receive_shard, store_sp_shard, new_shard_from_sp}
use archoncloud_go.Shards.Shard.Wire.{IsDelivered}
use archoncloud_go.StorageProvider.Files.{File, read_file, write_file, read-remove}
use archoncloud_go.StorageProvider.Pending.{PendingUpload}
use archoncloud_go.StorageProvider.UploadHandler.{
  Provider, UploadPars, register_pending_upload, get_shard_file, signed_shard, upload_shard,
  path_of, finish, with_file, with_header,
}

Result-cases :
    (m : Result Bytes) → ((b : Bytes) × (m ≡ ok b)) ⊎ (((e : Error) × (m ≡ err e)) ⊎ (m ≡ panic))
Result-cases (ok b) = inl (b, refl)
Result-cases (err e) = inr (inl (e, refl))
Result-cases panic = inr (inr refl)

-- What a received shard has gone through.
received_parts :
    (fec : Infectious) (hash : Bytes → Bytes) (body : Bytes) (m : Result (ShardHeader × Bytes))
    (stored : Stored)
    → (m >>= λ (p : ShardHeader × Bytes). store_sp_shard fec hash p.0 p.1) ≡ ok stored
    → (hdr : ShardHeader) × (r : Bytes) × (m ≡ ok (hdr, r))
      × (store_sp_shard fec hash hdr r ≡ ok stored)
received_parts fec hash body (ok (hdr, r)) stored e = (hdr, r, refl, e)
received_parts fec hash body (err x) stored e = cc
received_parts fec hash body panic stored e = cc

ok_injective : (a b : Bytes) → ok a ≡ ok b → a ≡ b
ok_injective a b e = cc

abbrev pub IsFailed {ℓ} : {A : Type ℓ} → Result A → Type 0
IsFailed (ok a) = ⊥
IsFailed (err e) = Unit
IsFailed panic = Unit

module _ (fec : Infectious) (hash : Bytes → Bytes) (sign : Bytes → Result Bytes)
    (base58 : Bytes → Bytes) (join : List Bytes → Bytes) (root_folder : Bytes)
    (can_create : Bytes → Bool) where
  finish-overwrite :
      (pars : UploadPars) (hdr : ShardHeader) (s : Provider) (m : Result (Bytes × Stored))
      → finish fec hash sign base58 join root_folder can_create
          (record pars { overwrite = false })
          hdr
          s
          m
        ≡ finish fec hash sign base58 join root_folder can_create
            (record pars { overwrite = true })
            hdr
            s
            m
  unfolding register_pending_upload
  finish-overwrite pars hdr s (ok (content, stored)) = refl
  finish-overwrite pars hdr s (err e) = refl
  finish-overwrite pars hdr s panic = refl

  with_file-overwrite :
      (pars : UploadPars) (hdr : ShardHeader) (r : Bytes) (s : Provider) (m : Result (List File))
      → with_file fec hash sign base58 join root_folder can_create
          (record pars { overwrite = false })
          hdr
          r
          s
          m
        ≡ with_file fec hash sign base58 join root_folder can_create
            (record pars { overwrite = true })
            hdr
            r
            s
            m
  with_file-overwrite pars hdr r s (ok fs) =
      finish-overwrite pars hdr (record s { files = fs })
        (signed_shard fec hash sign base58 join root_folder can_create hdr r)
  with_file-overwrite pars hdr r s (err e) = refl
  with_file-overwrite pars hdr r s panic = refl

  with_header-overwrite :
      (pars : UploadPars) (s : Provider) (m : Result (ShardHeader × Bytes))
      → with_header fec hash sign base58 join root_folder can_create
          (record pars { overwrite = false })
          s
          m
        ≡ with_header fec hash sign base58 join root_folder can_create
            (record pars { overwrite = true })
            s
            m
  unfolding get_shard_file
  with_header-overwrite pars s (ok (hdr, r)) = with_file-overwrite pars hdr r s (
      get_shard_file fec hash sign base58 join root_folder can_create true
        (path_of fec hash sign base58 join root_folder can_create pars hdr) s.files)
  with_header-overwrite pars s (err e) = refl
  with_header-overwrite pars s panic = refl

  -- The overwrite flag makes no difference.
  upload_shard-flag :
      (pars : UploadPars) (s : Provider) (body : Bytes)
      → upload_shard fec hash sign base58 join root_folder can_create
          (record pars { overwrite = false })
          s
          body
        ≡ upload_shard fec hash sign base58 join root_folder can_create
            (record pars { overwrite = true })
            s
            body
  unfolding upload_shard
  upload_shard-flag pars s body = with_header-overwrite pars s (new_shard_header fec body)

  -- The shard is not stored, or the provider's signature fails.
  abbrev pub CannotStore : ShardHeader → Bytes → Type 0
  CannotStore hdr r =
      IsFailed (store_sp_shard fec hash hdr r)
      ⊎ ((stored : Stored) × (store_sp_shard fec hash hdr r ≡ ok stored)
          × IsFailed (sign (hash stored.uploader_signature)))

  -- What an upload has made of the file of its shard: it has the shard, the uploader's signature and
  -- the provider's, or one of the two steps has failed, and then so has the upload, and the file is gone.
  abbrev pub IsReplaced : ShardHeader → Bytes → Bytes → Result (Unit {0}) × Provider → Type 0
  IsReplaced hdr r p res =
      ((stored : Stored) × (sp_signature : Bytes) × (store_sp_shard fec hash hdr r ≡ ok stored)
        × (sign (hash stored.uploader_signature) ≡ ok sp_signature)
        × (res.0 ≡ ok tt)
        × (read_file p res.1.files
            ≡ some (stored.written ++ (stored.uploader_signature ++ sp_signature))))
      ⊎ (CannotStore hdr r × (res.0 ≢ ok tt) × (read_file p res.1.files ≡ none))

  signed_shard-IsReplaced :
      (pars : UploadPars) (hdr : ShardHeader) (r : Bytes) (s : Provider) (m : Result Stored)
      → store_sp_shard fec hash hdr r ≡ m
      → IsReplaced hdr r (path_of fec hash sign base58 join root_folder can_create pars hdr) (
          finish fec hash sign base58 join root_folder can_create pars hdr s
            (signed_shard fec hash sign base58 join root_folder can_create hdr r))
  unfolding signed_shard register_pending_upload
  signed_shard-IsReplaced pars hdr r s (err x) e =
      let p = path_of fec hash sign base58 join root_folder can_create pars hdr in
      rw e (inr (inl tt, (λ k. cc), read-remove p s.files))
  signed_shard-IsReplaced pars hdr r s panic e =
      let p = path_of fec hash sign base58 join root_folder can_create pars hdr in
      rw e (inr (inl tt, (λ k. cc), read-remove p s.files))
  signed_shard-IsReplaced pars hdr r s (ok stored) e =
      let p = path_of fec hash sign base58 join root_folder can_create pars hdr in
      elim (Result-cases (sign (hash stored.uploader_signature))) [
        | inl (sig, k) ↦ rw (e, k) (inl (stored, sig, refl, k, refl, rw (bytes_eq_refl p) refl))
        | inr (inl (x, k)) ↦
            rw (e, k) (inr (inr (stored, refl, rw k tt), (λ q. cc), read-remove p s.files))
        | inr (inr k) ↦
            rw (e, k) (inr (inr (stored, refl, rw k tt), (λ q. cc), read-remove p s.files))
      ]

  -- A shard whose header can be read and whose file can be created is stored in place of whatever the
  -- file held before, with the overwrite flag or without it, which gives the same result: the upload
  -- succeeds and the file is the shard with both signatures, or storing the shard or signing it has
  -- failed, and then the upload fails and there is no file any more.
  pub upload_shard-replaces :
      (pars : UploadPars) (s : Provider) (body r : Bytes) (hdr : ShardHeader)
      → new_shard_header fec body ≡ ok (hdr, r)
      → can_create (path_of fec hash sign base58 join root_folder can_create pars hdr) ≡ true
      → IsReplaced hdr r
          (path_of fec hash sign base58 join root_folder can_create pars hdr)
          (upload_shard fec hash sign base58 join root_folder can_create pars s body)
        × (upload_shard fec hash sign base58 join root_folder can_create
              (record pars { overwrite = false })
              s
              body
            ≡ upload_shard fec hash sign base58 join root_folder can_create
                (record pars { overwrite = true })
                s
                body)
  unfolding upload_shard get_shard_file
  upload_shard-replaces pars s body r hdr made creates =
      let p = path_of fec hash sign base58 join root_folder can_create pars hdr in
      (
        rw (made, creates)
            (signed_shard-IsReplaced pars hdr r (record s { files = write_file p [] s.files })
              (store_sp_shard fec hash hdr r) refl),
        upload_shard-flag pars s body,
      )

  -- An upload whose steps all succeed ends with the file written.
  upload_shard-ok :
      (pars : UploadPars) (s : Provider) (body r sp_signature : Bytes) (hdr : ShardHeader)
      (stored : Stored)
      → ((p : Bytes) → can_create p ≡ true)
      → new_shard_header fec body ≡ ok (hdr, r)
      → store_sp_shard fec hash hdr r ≡ ok stored
      → sign (hash stored.uploader_signature) ≡ ok sp_signature
      → upload_shard fec hash sign base58 join root_folder can_create pars s body
        ≡ finish fec hash sign base58 join root_folder can_create pars hdr
            (record s {
              files =
                  write_file
                    (path_of fec hash sign base58 join root_folder can_create pars hdr)
                    []
                    s.files;
            })
            (ok (stored.written ++ (stored.uploader_signature ++ sp_signature), stored))
  unfolding upload_shard get_shard_file signed_shard
  upload_shard-ok pars s body r sp_signature hdr stored creates made kept digest = rw (
    made,
    creates (path_of fec hash sign base58 join root_folder can_create pars hdr),
    kept,
    digest,
  )

  -- If a shard is delivered in the sense of `IsDelivered`, files can be created and the provider's
  -- signature succeeds, then the upload of the bytes that the uploader sent succeeds and leaves a
  -- file that is the header that the provider has written, the uploader's data with what was signed
  -- behind it, the uploader's signature and the provider's signature, and from which a downloader
  -- reads the uploader's data. One more upload is pending, with that file, the hash of what was sent
  -- before the signature, and the uploader's signature.
  pub upload_shard-stores :
      (pars : UploadPars) (s : Provider) (uploader_sign : Bytes → Result Bytes) (h : ShardHeader)
      (content sp_signature : Bytes) (d : IsDelivered fec hash uploader_sign h content)
      → ((p : Bytes) → can_create p ≡ true)
      → sign (hash d.sig) ≡ ok sp_signature
      → (s' : Provider) × (p : Bytes) × (bs : Bytes) × (hb : Bytes) × (upload_shard fec hash sign
            base58 join root_folder can_create pars s
            (d.hb ++ (content ++ d.extra) ++ d.sig)
          ≡ (ok tt, s'))
        × (read_file p s'.files ≡ some bs)
        × (to_bytes fec d.stored.header ≡ ok hb)
        × (bs ≡ (hb ++ (content ++ d.extra)) ++ (d.sig ++ sp_signature))
        × ((spare : Bytes)
            → new_shard_from_sp fec bs spare ≡ ok (record { hdr = hb; content = content }))
        × ((pu : PendingUpload) × (s'.uploads_pending ≡ s.uploads_pending ++ pu ∷ [])
            × (pu.file_path ≡ p)
            × (pu.computed_file_hash ≡ hash (d.hb ++ (content ++ d.extra)))
            × (pu.signature ≡ d.sig))
  unfolding register_pending_upload
  upload_shard-stores pars s uploader_sign h content sp_signature d creates signed =
      let body = d.hb ++ (content ++ d.extra) ++ d.sig in
      let (hdr, r, made, kept) =
        received_parts fec hash body (new_shard_header fec body) d.stored
          (unfold receive_shard in d.received) in
      let p = path_of fec hash sign base58 join root_folder can_create pars hdr in
      let trailer = d.stored.uploader_signature ++ sp_signature in
      let (hb, e, kept_bytes) = d.kept in
      let digest : sign (hash d.stored.uploader_signature) ≡ ok sp_signature =
        ap (λ (t : Bytes). sign (hash t)) d.same_signature ∙ signed in
      let (done, s') =
        finish fec hash sign base58 join root_folder can_create pars hdr
          (record s { files = write_file p [] s.files })
          (ok (d.stored.written ++ trailer, d.stored)) in
      (
        s',
        p,
        d.stored.written ++ trailer,
        hb,
        upload_shard-ok pars s body r sp_signature hdr d.stored creates made kept digest,
        rw (bytes_eq_refl p) refl,
        e,
        rw (kept_bytes, d.same_signature) refl,
        λ spare.
            let (hb', e', back) = d.served trailer spare in
            rw (ok_injective hb hb' (sym e ∙ e')) back,
        (_, refl, refl, d.same_hash, d.same_signature),
      )
