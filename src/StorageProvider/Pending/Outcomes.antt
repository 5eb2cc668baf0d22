-- ===== src/StorageProvider/Pending/Outcomes.antt =====
-- What becomes of each pending upload when the timer fires.
use archoncloud_go.Base.{
  ℕ, ◌-◌, ◌≤◌, ◌<◌, ◌≡◌, ◌≢◌, refl, sym, ◌∙◌, subst, List, [], ◌∷◌, ltb, ltb→lt, Bool, false,
  Bool-cases, none, ◌⊎◌, inl, inr, All, mem-of_All, arith,
}
use mathlib.Core.List.{Memᴰ}
use mathlib.Core.List.Memᴰ
use archoncloud_go.Common.Bytes.{Bytes}
use archoncloud_go.StorageProvider.Files.{read_file, read-remove, read-remove_other}
use archoncloud_go.StorageProvider.Pending.{
  AccountType, PendingUpload, Chain, Status, verify_unknown, verify_failed, verify_ok, Verifier,
  verify, ten_minutes, is_announced, act_on, check_upload, check_uploads, tick,
}
use archoncloud_go.StorageProvider.Pending.Ticks.{IsDistinct}

module _ (chain : AccountType → Chain) (announce_to_dht : Bytes → Bytes → Bool) (now : ℕ) where
  -- Not decided by the chain, and ten minutes have not passed.
  abbrev pub IsWaiting : PendingUpload → Type 0
  IsWaiting pu = (verify (chain pu.account) pu ≡ verify_unknown) × (now - pu.received ≤ ten_minutes)

  abbrev pub IsRejected : PendingUpload → Type 0
  IsRejected pu =
      (verify (chain pu.account) pu ≡ verify_failed)
      ⊎ ((verify (chain pu.account) pu ≡ verify_unknown) × (ten_minutes < now - pu.received))

  -- An upload that is verified keeps its file and is announced, unless the announcement fails; one that
  -- waits keeps its file and its place; one that is rejected loses its file.
  abbrev pub IsSettled : PendingUpload → Verifier → Verifier → Type 0
  IsSettled pu v v' =
      ((verify (chain pu.account) pu ≡ verify_ok)
        × (read_file pu.file_path v'.files ≡ read_file pu.file_path v.files)
        × ((is_announced chain announce_to_dht now pu ≡ false) ⊎ Memᴰ pu.dht_id v'.announced))
      ⊎ ((IsWaiting pu
            × (read_file pu.file_path v'.files ≡ read_file pu.file_path v.files)
            × Memᴰ pu v'.to_verify)
          ⊎ (IsRejected pu × (read_file pu.file_path v'.files ≡ none)))

  act_on-IsSettled :
      (pu : PendingUpload) (v : Verifier) (st : Status)
      → verify (chain pu.account) pu ≡ st
      → IsSettled pu v (act_on chain announce_to_dht now pu v st)
  unfolding act_on
  act_on-IsSettled pu v verify_ok e =
      elim (Bool-cases (is_announced chain announce_to_dht now pu)) [
        | inl a ↦ inl (e, refl, inr (rw a (Memᴰ.append_right v.announced (Memᴰ.head refl))))
        | inr a ↦ inl (e, refl, inl a)
      ]
  act_on-IsSettled pu v verify_unknown e = elim (Bool-cases (ltb ten_minutes (now - pu.received))) [
    | inl l ↦ inr (
        inr (
          inr (e, ltb→lt ten_minutes (now - pu.received) l),
          rw l (read-remove pu.file_path v.files),
        ))
    | inr l ↦
        inr (inl ((e, ground arith), rw l, rw l (Memᴰ.append_right v.to_verify (Memᴰ.head refl))))
  ]
  act_on-IsSettled pu v verify_failed e = inr (inr (inl e, read-remove pu.file_path v.files))

  act_on-read :
      (pu : PendingUpload) (v : Verifier) (st : Status) (p : Bytes)
      → p ≢ pu.file_path
      → read_file p (act_on chain announce_to_dht now pu v st).files ≡ read_file p v.files
  unfolding act_on
  act_on-read pu v verify_ok p n = refl
  act_on-read pu v verify_unknown p n = elim (Bool-cases (ltb ten_minutes (now - pu.received))) [
    | inl l ↦ rw l (read-remove_other p pu.file_path v.files n)
    | inr l ↦ rw l
  ]
  act_on-read pu v verify_failed p n = read-remove_other p pu.file_path v.files n

  -- What is on the lists stays on them.
  act_on-announced :
      (pu : PendingUpload) (v : Verifier) (st : Status) (x : Bytes)
      → Memᴰ x v.announced
      → Memᴰ x (act_on chain announce_to_dht now pu v st).announced
  unfolding act_on
  act_on-announced pu v verify_ok x m =
      elim (Bool-cases (is_announced chain announce_to_dht now pu)) [
        | inl a ↦ rw a (Memᴰ.append_left (pu.dht_id ∷ []) m)
        | inr a ↦ rw a m
      ]
  act_on-announced pu v verify_unknown x m =
      elim (Bool-cases (ltb ten_minutes (now - pu.received))) [ inl l ↦ rw l m | inr l ↦ rw l m ]
  act_on-announced pu v verify_failed x m = m

  act_on-to_verify :
      (pu : PendingUpload) (v : Verifier) (st : Status) (q : PendingUpload)
      → Memᴰ q v.to_verify
      → Memᴰ q (act_on chain announce_to_dht now pu v st).to_verify
  unfolding act_on
  act_on-to_verify pu v verify_ok q m = m
  act_on-to_verify pu v verify_unknown q m =
      elim (Bool-cases (ltb ten_minutes (now - pu.received))) [
        | inl l ↦ rw l m
        | inr l ↦ rw l (Memᴰ.append_left (pu ∷ []) m)
      ]
  act_on-to_verify pu v verify_failed q m = m

  -- The checks of other files leave what an upload has come to.
  check_uploads-keeps :
      (pus : List PendingUpload) (pu : PendingUpload) (v0 v : Verifier)
      → All (λ (q : PendingUpload). pu.file_path ≢ q.file_path) pus
      → IsSettled pu v0 v
      → IsSettled pu v0 (check_uploads chain announce_to_dht now pus v)
  unfolding check_uploads check_upload
  check_uploads-keeps [] pu v0 v h s = s
  check_uploads-keeps (q ∷ pus) pu v0 v (n, h) s =
      let st = verify (chain q.account) q in
      let same = act_on-read q v st pu.file_path n in
      check_uploads-keeps pus pu v0 (act_on chain announce_to_dht now q v st) h (elim s [
        | inl (e, r, inl a) ↦ inl (e, same ∙ r, inl a)
        | inl (e, r, inr m) ↦ inl (e, same ∙ r, inr (act_on-announced q v st pu.dht_id m))
        | inr (inl (w, r, m)) ↦ inr (inl (w, same ∙ r, act_on-to_verify q v st pu m))
        | inr (inr (x, r)) ↦ inr (inr (x, same ∙ r))
      ])

  -- An upload is settled against the files at the start if its own check came later.
  IsSettled-earlier :
      (pu : PendingUpload) (v0 v v' : Verifier)
      → read_file pu.file_path v.files ≡ read_file pu.file_path v0.files
      → IsSettled pu v v'
      → IsSettled pu v0 v'
  IsSettled-earlier pu v0 v v' same s = elim s [
    | inl (e, r, a) ↦ inl (e, r ∙ same, a)
    | inr (inl (w, r, m)) ↦ inr (inl (w, r ∙ same, m))
    | inr (inr x) ↦ inr (inr x)
  ]

  check_uploads-IsSettled :
      (pus : List PendingUpload) (pu : PendingUpload) (v : Verifier)
      → IsDistinct pus
      → Memᴰ pu pus
      → IsSettled pu v (check_uploads chain announce_to_dht now pus v)
  unfolding check_uploads check_upload
  check_uploads-IsSettled [] pu v d m = absurd (Memᴰ.not-nil m)
  check_uploads-IsSettled (q ∷ pus) pu v (a, d) (Memᴰ.head e) =
      let v1 = act_on chain announce_to_dht now q v (verify (chain q.account) q) in
      subst (λ r. IsSettled r v (check_uploads chain announce_to_dht now pus v1)) (sym e)
        (check_uploads-keeps pus q v v1 a (act_on-IsSettled q v (verify (chain q.account) q) refl))
  check_uploads-IsSettled (q ∷ pus) pu v (a, d) (Memᴰ.tail m) =
      let st = verify (chain q.account) q in
      let v1 = act_on chain announce_to_dht now q v st in
      let other = mem-of_All (λ (r : PendingUpload). q.file_path ≢ r.file_path) pus pu a m in
      IsSettled-earlier pu v v1 (check_uploads chain announce_to_dht now pus v1)
        (act_on-read q v st pu.file_path (λ e. other (sym e)))
        (check_uploads-IsSettled pus pu v1 d m)

  -- When the timer fires and no two pending uploads have the same file, each of them is settled.
  -- Either the block chain confirms it: its file stays, and its identifier is announced unless the
  -- announcement fails. Or the chain has not yet accepted its transaction, ten minutes have not
  -- passed since it was received, its file stays and it stays on the list. Or its transaction does
  -- not confirm it or is still not accepted after more than ten minutes, and then its file is removed.
  pub tick-settles :
      (v : Verifier) (pu : PendingUpload)
      → IsDistinct v.to_verify
      → Memᴰ pu v.to_verify
      → IsSettled pu v (tick chain announce_to_dht now v)
  unfolding tick
  tick-settles v pu d m = check_uploads-IsSettled v.to_verify pu (record v { to_verify = [] }) d m
