-- ===== src/StorageProvider/Pending/Ticks.antt =====
-- What one pass over the pending uploads does to the files, the list and the announcements.
use archoncloud_go.Base.{
  ℕ, ◌-◌, ◌≡◌, ◌≢◌, refl, sym, ap, ◌∙◌, subst, List, [], ◌∷◌, ◌++◌, append-nil, append_assoc, ltb,
  bytes_eq, bytes_eq→eq, Bool, Bool-cases, ◌⊎◌, inl, inr, All, All-weaken, bytes_eq→ne,
}
use archoncloud_go.Common.Bytes.{Bytes}
use archoncloud_go.StorageProvider.Pending.{
  AccountType, PendingUpload, Chain, Status, verify_unknown, verify_failed, verify_ok, Verifier,
  verify, ten_minutes, drop_path, receive_pending, act_on, check_upload, check_uploads, tick,
}

pub Status-cases : (s : Status) → (s ≡ verify_ok) ⊎ ((s ≡ verify_unknown) ⊎ (s ≡ verify_failed))
Status-cases verify_ok = inl refl
Status-cases verify_unknown = inr (inl refl)
Status-cases verify_failed = inr (inr refl)

-- No two uploads of the list have the same file.
abbrev pub IsDistinct : List PendingUpload → Type 0
IsDistinct [] = Unit
IsDistinct (p ∷ ps) = All (λ (q : PendingUpload). p.file_path ≢ q.file_path) ps × IsDistinct ps

module _ (P : PendingUpload → Type 0) where
  pub All-append_one :
      (ps : List PendingUpload) (q : PendingUpload) → All P ps → P q → All P (ps ++ q ∷ [])
  All-append_one [] q h k = (k, tt)
  All-append_one (p ∷ ps) q (h, hs) k = (h, All-append_one ps q hs k)

  pub All-drop_path : (p : Bytes) (ps : List PendingUpload) → All P ps → All P (drop_path p ps)
  unfolding drop_path
  All-drop_path p [] h = tt
  All-drop_path p (q ∷ ps) (h, hs) = elim (Bool-cases (bytes_eq q.file_path p)) [
    | inl e ↦ rw e hs
    | inr e ↦ rw e (h, All-drop_path p ps hs)
  ]

IsDistinct-append :
    (ps : List PendingUpload) (q : PendingUpload)
    → IsDistinct ps
    → All (λ (p : PendingUpload). p.file_path ≢ q.file_path) ps
    → IsDistinct (ps ++ q ∷ [])
IsDistinct-append [] q d h = (tt, tt)
IsDistinct-append (p ∷ ps) q (a, d) (h, hs) = (
  All-append_one (λ (r : PendingUpload). p.file_path ≢ r.file_path) ps q a h,
  IsDistinct-append ps q d hs,
)

IsDistinct-drop_path :
    (p : Bytes) (ps : List PendingUpload) → IsDistinct ps → IsDistinct (drop_path p ps)
unfolding drop_path
IsDistinct-drop_path p [] d = tt
IsDistinct-drop_path p (q ∷ ps) (a, d) = elim (Bool-cases (bytes_eq q.file_path p)) [
  | inl e ↦ rw e d
  | inr e ↦ rw e (
    All-drop_path (λ (r : PendingUpload). q.file_path ≢ r.file_path) p ps a,
    IsDistinct-drop_path p ps d,
  )
]

dropped :
    (p : Bytes) (ps : List PendingUpload)
    → IsDistinct ps
    → All (λ (q : PendingUpload). q.file_path ≢ p) (drop_path p ps)
unfolding drop_path
dropped p [] d = tt
dropped p (q ∷ ps) (a, d) = elim (Bool-cases (bytes_eq q.file_path p)) [
  | inl e ↦
      let same = bytes_eq→eq q.file_path p e in
      rw e (
        subst (λ t. All (λ (r : PendingUpload). r.file_path ≢ t) ps) same
          (All-weaken ps (λ r n e. n (sym e)) a))
  | inr e ↦ rw e (bytes_eq→ne q.file_path p e, dropped p ps d)
]

-- Receiving an upload keeps the paths distinct, since it drops what it replaces.
pub receive_pending-IsDistinct :
    (pu : PendingUpload) (v : Verifier)
    → IsDistinct v.to_verify
    → IsDistinct (receive_pending pu v).to_verify
unfolding receive_pending
receive_pending-IsDistinct pu v d =
    IsDistinct-append (drop_path pu.file_path v.to_verify) pu
      (IsDistinct-drop_path pu.file_path v.to_verify d) (dropped pu.file_path v.to_verify d)

-- The uploads that remain are some of those that were checked, in order.
pub data Sub : List PendingUpload → List PendingUpload → Type 0 where
  done : Sub [] []
  kept : {p : PendingUpload} {ps qs : List PendingUpload} → Sub ps qs → Sub (p ∷ ps) (p ∷ qs)
  gone : {p : PendingUpload} {ps qs : List PendingUpload} → Sub ps qs → Sub ps (p ∷ qs)

pub Sub-All :
    (P : PendingUpload → Type 0) {ps qs : List PendingUpload} → Sub ps qs → All P qs → All P ps
Sub-All P done h = tt
Sub-All P (kept s) (h, hs) = (h, Sub-All P s hs)
Sub-All P (gone s) (h, hs) = Sub-All P s hs

pub Sub-IsDistinct : {ps qs : List PendingUpload} → Sub ps qs → IsDistinct qs → IsDistinct ps
Sub-IsDistinct done d = tt
Sub-IsDistinct (kept {p} s) (a, d) =
    (Sub-All (λ (r : PendingUpload). p.file_path ≢ r.file_path) s a, Sub-IsDistinct s d)
Sub-IsDistinct (gone s) (a, d) = Sub-IsDistinct s d

module _ (chain : AccountType → Chain) (announce_to_dht : Bytes → Bytes → Bool) (now : ℕ) where
  act_on-remaining :
      (pu : PendingUpload) (v : Verifier) (st : Status)
      → ((act_on chain announce_to_dht now pu v st).to_verify ≡ v.to_verify)
        ⊎ ((act_on chain announce_to_dht now pu v st).to_verify ≡ v.to_verify ++ pu ∷ [])
  unfolding act_on
  act_on-remaining pu v verify_ok = inl refl
  act_on-remaining pu v verify_unknown = elim (Bool-cases (ltb ten_minutes (now - pu.received))) [
    | inl l ↦ inl (rw l)
    | inr l ↦ inr (rw l)
  ]
  act_on-remaining pu v verify_failed = inl refl

  check_uploads-Sub :
      (pus : List PendingUpload) (v : Verifier)
      → (rs : List PendingUpload) × Sub rs pus
        × ((check_uploads chain announce_to_dht now pus v).to_verify ≡ v.to_verify ++ rs)
  unfolding check_uploads check_upload
  check_uploads-Sub [] v = ([], done, sym (append-nil v.to_verify))
  check_uploads-Sub (pu ∷ pus) v =
      let st = verify (chain pu.account) pu in
      let (rs, sub, e) = check_uploads-Sub pus (act_on chain announce_to_dht now pu v st) in
      elim (act_on-remaining pu v st) [
        | inl k ↦ (rs, gone sub, e ∙ ap (λ xs. xs ++ rs) k)
        | inr k ↦
            (pu ∷ rs, kept sub, e ∙ ap (λ xs. xs ++ rs) k ∙ append_assoc v.to_verify (pu ∷ []) rs)
      ]

  -- A tick keeps a part of the list.
  pub tick-Sub : (v : Verifier) → Sub (tick chain announce_to_dht now v).to_verify v.to_verify
  unfolding tick
  tick-Sub v =
      let (rs, sub, e) = check_uploads-Sub v.to_verify (record v { to_verify = [] }) in
      subst (λ xs. Sub xs v.to_verify) (sym e) sub
