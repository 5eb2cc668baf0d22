-- ===== src/StorageProvider/Pending/Announced.antt =====
-- Which uploads are announced.
use archoncloud_go.Base.{
  ℕ, ◌-◌, ◌≡◌, refl, List, [], ◌∷◌, ltb, bytes_eq, bytes_eq→eq, Bool, true, Bool-cases, inl, inr,
  All, All-append, Result, ok, err, panic,
}
use mathlib.Core.List.{Memᴰ}
use archoncloud_go.Common.Bytes.{Bytes}
use archoncloud_go.StorageProvider.Pending.{
  UploadTxInfo, AccountType, PendingUpload, Chain, Status, verify_unknown, verify_failed, verify_ok,
  Verifier, contains_address, verify_info, verify, ten_minutes, is_announced, act_on, check_upload,
  check_uploads, tick,
}

-- The chain has accepted the upload's transaction, which names this provider, and the uploader's
-- signature of the hash of what was received is by the transaction's key.
abbrev pub IsConfirmed : Chain → PendingUpload → Type 0
IsConfirmed chain pu =
    (chain.is_tx_accepted pu.transaction_hash ≡ true)
    × ((up_tx : UploadTxInfo) × (chain.get_upload_tx_info pu.transaction_hash ≡ ok up_tx)
        × Memᴰ chain.address_bytes up_tx.sps
        × (chain.verify pu.computed_file_hash pu.signature up_tx.public_key ≡ true))

mem-contains_address : (a : Bytes) (xs : List Bytes) → contains_address a xs ≡ true → Memᴰ a xs
mem-contains_address a [] e = absurd cc
mem-contains_address a (x ∷ xs) e = elim (Bool-cases (bytes_eq a x)) [
  | inl k ↦ Memᴰ.head (bytes_eq→eq a x k)
  | inr k ↦ Memᴰ.tail (mem-contains_address a xs (rw k at e))
]

verify_info-ok :
    (chain : Chain) (pu : PendingUpload) (m : Result UploadTxInfo)
    → verify_info chain pu m ≡ verify_ok
    → (up_tx : UploadTxInfo) × (m ≡ ok up_tx)
      × Memᴰ chain.address_bytes up_tx.sps
      × (chain.verify pu.computed_file_hash pu.signature up_tx.public_key ≡ true)
verify_info-ok chain pu (err x) e = absurd cc
verify_info-ok chain pu panic e = absurd cc
verify_info-ok chain pu (ok up_tx) e =
    elim (Bool-cases (contains_address chain.address_bytes up_tx.sps)) [
      | inr k ↦ absurd (let wrong = (rw k at e) in cc)
      | inl k ↦
          elim (Bool-cases (chain.verify pu.computed_file_hash pu.signature up_tx.public_key)) [
            | inr j ↦ absurd (let wrong = (rw (k, j) at e) in cc)
            | inl j ↦ (up_tx, refl, mem-contains_address chain.address_bytes up_tx.sps k, j)
          ]
    ]

pub verify-ok :
    (chain : Chain) (pu : PendingUpload) → verify chain pu ≡ verify_ok → IsConfirmed chain pu
unfolding verify
verify-ok chain pu e = elim (Bool-cases (chain.is_tx_accepted pu.transaction_hash)) [
  | inr k ↦ absurd (let wrong = (rw k at e) in cc)
  | inl k ↦ (k, verify_info-ok chain pu (chain.get_upload_tx_info pu.transaction_hash) (rw k at e))
]

module _ (chain : AccountType → Chain) (announce_to_dht : Bytes → Bytes → Bool) (now : ℕ)
    (P : Bytes → Type 0) where
  All-announced :
      (pu : PendingUpload) (v : Verifier) (st : Status)
      → (st ≡ verify_ok → P pu.dht_id)
      → All P v.announced
      → All P (act_on chain announce_to_dht now pu v st).announced
  unfolding act_on
  All-announced pu v verify_ok f h = elim (Bool-cases (is_announced chain announce_to_dht now pu)) [
    | inl a ↦ rw a (All-append P v.announced (pu.dht_id ∷ []) h (f refl, tt))
    | inr a ↦ rw a h
  ]
  All-announced pu v verify_unknown f h = elim (Bool-cases (ltb ten_minutes (now - pu.received))) [
    | inl l ↦ rw l h
    | inr l ↦ rw l h
  ]
  All-announced pu v verify_failed f h = h

  check_uploads-All :
      (pus : List PendingUpload) (v : Verifier)
      → All (λ (pu : PendingUpload). IsConfirmed (chain pu.account) pu → P pu.dht_id) pus
      → All P v.announced
      → All P (check_uploads chain announce_to_dht now pus v).announced
  unfolding check_uploads check_upload
  check_uploads-All [] v f h = h
  check_uploads-All (pu ∷ pus) v (g, f) h =
      let st = verify (chain pu.account) pu in
      check_uploads-All pus (act_on chain announce_to_dht now pu v st) f
        (All-announced pu v st (λ e. g (verify-ok (chain pu.account) pu e)) h)

  -- What holds of each announced identifier, and of that of each pending upload if it is confirmed,
  -- holds of each one that is announced after a tick.
  pub tick-All :
      (v : Verifier)
      → All (λ (pu : PendingUpload). IsConfirmed (chain pu.account) pu → P pu.dht_id) v.to_verify
      → All P v.announced
      → All P (tick chain announce_to_dht now v).announced
  unfolding tick
  tick-All v f h = check_uploads-All v.to_verify (record v { to_verify = [] }) f h
