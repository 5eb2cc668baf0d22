-- ===== src/StorageProvider/UploadHandler/Handler/Endings.antt =====
-- storageProvider/uploadHandler.go: how the upload of a whole file and of a shard end.
use archoncloud_go.Base.{
  ◌≡◌, ◌≢◌, refl, sym, ap, ◌∙◌, subst, List, [], ◌∷◌, ◌++◌, not, ◌&&◌, bytes_eq_refl, ne→bytes_eq,
  Bool, Bool-cases, ◌⊎◌, inl, inr, some, Result, ok, err, panic, Error, foreign, ◌>>=◌,
}
use archoncloud_go.Common.Bytes.{Bytes}
use archoncloud_go.Shards.Erasure.{Infectious}
use archoncloud_go.Base.Int.{pos}
use archoncloud_go.Common.ArchonUrl.{shard_path}
use archoncloud_go.Shards.Header.{
  ShardHeader, new_shard_header, get_shard_index, get_num_required, get_num_total,
}
use archoncloud_go.Shards.Shard.{Stored, receive_shard, store_sp_shard}
use archoncloud_go.StorageProvider.Files.{
  File, read_file, write_file, file_exists, read-remove_other,
}
use archoncloud_go.StorageProvider.Pending.{PendingUpload}
use archoncloud_go.StorageProvider.UploadHandler.{
  Provider, UploadPars, register_pending_upload, get_shard_file, signed_shard, path_of, finish,
  with_header,
}
use archoncloud_go.StorageProvider.UploadHandler.WholeFile.{upload_whole_file, whole_path}

-- The files at other paths are as before.
abbrev pub OnlyAt : Bytes → List File → List File → Type 0
OnlyAt p fs fs' = (q : Bytes) → q ≢ p → read_file q fs' ≡ read_file q fs

OnlyAt-write : (p content : Bytes) (fs : List File) → OnlyAt p fs (write_file p content fs)
OnlyAt-write p content fs q n = rw (ne→bytes_eq p q (λ e. n (sym e))) (read-remove_other q p fs n)

-- The second of two steps, if both succeed.
pub bind-ok {ℓ κ} :
    {A : Type ℓ} {B : Type κ} (m : Result A) (f : A → Result B) (b : B)
    → (m >>= f) ≡ ok b
    → (a : A) × (m ≡ ok a) × (f a ≡ ok b)
bind-ok (ok a) f b e = (a, refl, e)
bind-ok (err x) f b e = cc
bind-ok panic f b e = cc

pair_parts :
    (a b : Bytes) (st st' : Stored)
    → ◌≡◌ {A = Result (Bytes × Stored)} (ok (a, st)) (ok (b, st'))
    → (a ≡ b) × (st ≡ st')
pair_parts a b st st' e = (cc, cc)

module _ (fec : Infectious) (hash : Bytes → Bytes) where
  -- A pending upload of a whole file: the file is the body, with the hash of the body and the signature
  -- of the transaction, and is announced under the path of its URL.
  abbrev pub IsStoredWhole : Bytes → Bytes → UploadPars → PendingUpload → Bytes → Type 0
  IsStoredWhole signature body pars pu content =
      (pu.account ≡ pars.account)
      × (pu.transaction_hash ≡ pars.transaction_hash)
      × (pu.computed_file_hash ≡ hash body)
      × (pu.signature ≡ signature)
      × (pu.dht_id ≡ shard_path pu.url (pos 0))
      × (content ≡ body)

  -- The numbers of a shard are those of the header that the body begins with: the index in the
  -- identifier under which it is announced, and the counts in its URL.
  abbrev pub IsNumbered : Bytes → PendingUpload → Type 0
  IsNumbered body pu =
      (hdr : ShardHeader) × (r : Bytes) × (new_shard_header fec body ≡ ok (hdr, r))
      × (pu.dht_id ≡ shard_path pu.url (get_shard_index hdr))
      × (pu.url.needed ≡ get_num_required hdr)
      × (pu.url.total ≡ get_num_total hdr)

  -- A pending upload of a shard: what `StoreSPShard` writes and returns for the body, and a file that
  -- has both signatures behind it.
  abbrev pub IsStoredShard :
      (Bytes → Result Bytes) → Bytes → UploadPars → PendingUpload → Bytes → Type 0
  IsStoredShard sign body pars pu content =
      (pu.account ≡ pars.account)
      × (pu.transaction_hash ≡ pars.transaction_hash)
      × IsNumbered body pu
      × ((stored : Stored) × (sp_signature : Bytes) × (receive_shard fec hash body ≡ ok stored)
          × (sign (hash stored.uploader_signature) ≡ ok sp_signature)
          × (pu.computed_file_hash ≡ stored.hash)
          × (pu.signature ≡ stored.uploader_signature)
          × (content ≡ stored.written ++ (stored.uploader_signature ++ sp_signature)))

  abbrev pub IsRegistered : (PendingUpload → Bytes → Type 0) → Provider → Provider → Type 0
  IsRegistered Q s s' =
      (pu : PendingUpload) × (content : Bytes) × (s'.uploads_pending ≡ s.uploads_pending ++ pu ∷ [])
      × Q pu content
      × (read_file pu.file_path s'.files ≡ some content)
      × OnlyAt pu.file_path s.files s'.files

  abbrev pub IsRefused : Provider → Provider → Type 0
  IsRefused s s' =
      (s'.uploads_pending ≡ s.uploads_pending) × (p : Bytes) × OnlyAt p s.files s'.files

  abbrev pub Ends :
      (PendingUpload → Bytes → Type 0) → Provider → Result (Unit {0}) × Provider → Type 0
  Ends Q s res = ((res.0 ≡ ok tt) × IsRegistered Q s res.1) ⊎ ((res.0 ≢ ok tt) × IsRefused s res.1)

  pub Ends-weaken :
      (Q R : PendingUpload → Bytes → Type 0) (s : Provider) (res : Result (Unit {0}) × Provider)
      → ((pu : PendingUpload) (content : Bytes) → Q pu content → R pu content)
      → Ends Q s res
      → Ends R s res
  Ends-weaken Q R s res f (inl (e, (pu, content, k, q, there, only))) =
      inl (e, (pu, content, k, f pu content q, there, only))
  Ends-weaken Q R s res f (inr h) = inr h

  refused : (Q : PendingUpload → Bytes → Type 0) (s : Provider) (e : Error) → Ends Q s (err e, s)
  refused Q s e = inr ((λ x. cc), (refl, [], λ q n. refl))

  broke : (Q : PendingUpload → Bytes → Type 0) (s : Provider) → Ends Q s (panic, s)
  broke Q s = inr ((λ x. cc), (refl, [], λ q n. refl))

  module _ (sign : Bytes → Result Bytes) (base58 : Bytes → Bytes) (join : List Bytes → Bytes)
      (root_folder : Bytes) (can_copy : Bytes → Bool) (can_create : Bytes → Bool) where
    pub upload_whole_file-Ends :
        (pars : UploadPars) (signature : Bytes) (s : Provider) (body : Bytes)
        → Ends (IsStoredWhole signature body pars) s (
            upload_whole_file hash base58 join root_folder can_copy can_create pars signature s
              body)
    unfolding upload_whole_file register_pending_upload
    upload_whole_file-Ends pars signature s body =
        let Q = IsStoredWhole signature body pars in
        let p = whole_path hash base58 join root_folder can_copy can_create pars body in
        elim (Bool-cases (can_copy body)) [
          | inr c ↦ rw c (refused Q s _)
          | inl c ↦ elim (Bool-cases (not pars.overwrite && file_exists p s.files)) [
            | inl e ↦ rw (c, e) (refused Q s _)
            | inr e ↦ elim (Bool-cases (can_create p)) [
              | inr r ↦ rw (c, e, r) (refused Q s _)
              | inl r ↦
                  rw (c, e, r)
                    (inl (
                      refl,
                      (
                        _,
                        body,
                        refl,
                        (refl, refl, refl, refl, refl, refl),
                        rw (bytes_eq_refl p),
                        OnlyAt-write p body s.files,
                      ),
                    ))
            ]
          ]
        ]

    -- A shard that was signed was stored before.
    abbrev IsSigned : Bytes → Bytes → Stored → Type 0
    IsSigned body content stored =
        (sp_signature : Bytes) × (receive_shard fec hash body ≡ ok stored)
        × (sign (hash stored.uploader_signature) ≡ ok sp_signature)
        × (content ≡ stored.written ++ (stored.uploader_signature ++ sp_signature))

    -- The end of the upload of a shard whose file has been created.
    finish-Ends :
        (pars : UploadPars) (hdr : ShardHeader) (s : Provider) (fs : List File) (body r : Bytes)
        (m : Result (Bytes × Stored))
        → new_shard_header fec body ≡ ok (hdr, r)
        → OnlyAt (path_of fec hash sign base58 join root_folder can_create pars hdr) s.files fs
        → ((content : Bytes) (stored : Stored)
            → m ≡ ok (content, stored)
            → IsSigned body content stored)
        → Ends (IsStoredShard sign body pars) s (
            finish fec hash sign base58 join root_folder can_create pars hdr
              (record s { files = fs })
              m)
    unfolding register_pending_upload
    finish-Ends pars hdr s fs body r (ok (content, stored)) made only from =
        let p = path_of fec hash sign base58 join root_folder can_create pars hdr in
        inl (
          refl,
          (
            _,
            content,
            refl,
            (
              refl,
              refl,
              (hdr, r, made, refl, refl, refl),
              let (sig, received, signed, e) = from content stored refl in
                  (stored, sig, received, signed, refl, refl, e),
            ),
            rw (bytes_eq_refl p),
            λ q n. OnlyAt-write p content fs q n ∙ only q n,
          ),
        )
    finish-Ends pars hdr s fs body r (err e) made only from =
        let p = path_of fec hash sign base58 join root_folder can_create pars hdr in
        inr ((λ x. cc), (refl, p, λ q n. read-remove_other q p fs n ∙ only q n))
    finish-Ends pars hdr s fs body r panic made only from =
        let p = path_of fec hash sign base58 join root_folder can_create pars hdr in
        inr ((λ x. cc), (refl, p, λ q n. read-remove_other q p fs n ∙ only q n))

    signed_shard-IsSigned :
        (hdr : ShardHeader) (r body : Bytes) (content : Bytes) (stored : Stored)
        → new_shard_header fec body ≡ ok (hdr, r)
        → signed_shard fec hash sign base58 join root_folder can_create hdr r ≡ ok (content, stored)
        → IsSigned body content stored
    unfolding signed_shard receive_shard
    signed_shard-IsSigned hdr r body content stored made e =
        let (st, kept, e') = bind-ok (store_sp_shard fec hash hdr r) _ (content, stored) e in
        let (sig, signed, e'') =
          bind-ok (sign (hash st.uploader_signature)) _ (content, stored) e' in
        let (same_content, same) = pair_parts _ content st stored e'' in
        (
          sig,
          rw (made, kept) (ap ok same),
          subst (λ (x : Stored). sign (hash x.uploader_signature) ≡ ok sig) same signed,
          subst (λ (x : Stored). content ≡ x.written ++ (x.uploader_signature ++ sig)) same
              (sym same_content),
        )

    get_shard_file-cases :
        (overwrite : Bool) (p : Bytes) (fs : List File)
        → (get_shard_file fec hash sign base58 join root_folder can_create overwrite p fs
            ≡ ok (write_file p [] fs))
          ⊎ ((e : Error) × (get_shard_file fec hash sign base58 join root_folder can_create
                  overwrite p fs
                ≡ err e))
    unfolding get_shard_file
    get_shard_file-cases overwrite p fs = elim (Bool-cases (can_create p)) [
      | inl e ↦ inl (rw e)
      | inr e ↦ inr (foreign, rw e)
    ]

    pub upload_shard-Ends :
        (pars : UploadPars) (s : Provider) (body : Bytes) (m : Result (ShardHeader × Bytes))
        → new_shard_header fec body ≡ m
        → Ends
            (IsStoredShard sign body pars)
            s
            (with_header fec hash sign base58 join root_folder can_create pars s m)
    upload_shard-Ends pars s body (err e) made = refused (IsStoredShard sign body pars) s e
    upload_shard-Ends pars s body panic made = broke (IsStoredShard sign body pars) s
    upload_shard-Ends pars s body (ok (hdr, r)) made =
        let p = path_of fec hash sign base58 join root_folder can_create pars hdr in
        elim (get_shard_file-cases pars.overwrite p s.files) [
          | inr (x, e) ↦ rw e (refused (IsStoredShard sign body pars) s x)
          | inl e ↦ rw e (
              finish-Ends pars hdr s (write_file p [] s.files) body r
                (signed_shard fec hash sign base58 join root_folder can_create hdr r) made
                (OnlyAt-write p [] s.files)
                (λ content stored k. signed_shard-IsSigned hdr r body content stored made k))
        ]
