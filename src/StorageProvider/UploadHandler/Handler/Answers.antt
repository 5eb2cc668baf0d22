-- ===== src/StorageProvider/UploadHandler/Handler/Answers.antt =====
-- storageProvider/uploadHandler.go: what an upload request leaves behind.
use archoncloud_go.Base.{◌≡◌, ◌≢◌, List, Bool, ◌⊎◌, Option, some, ok}
use archoncloud_go.Common.Bytes.{Bytes}
use archoncloud_go.Shards.Erasure.{Infectious}
use archoncloud_go.StorageProvider.Pending.{AccountType, PendingUpload}
use archoncloud_go.StorageProvider.UploadHandler.{Provider}
use archoncloud_go.StorageProvider.UploadHandler.Handler.{
  UploadAccount, Request, Answer, uploaded, Checked,
}
use archoncloud_go.StorageProvider.UploadHandler.Handler.Endings.{
  IsStoredWhole, IsStoredShard, IsRegistered, IsRefused,
}

module _ (fec : Infectious) (hash : Bytes → Bytes)
    (get_account : AccountType → Option UploadAccount) where
  -- Where the parts of a checked request come from: the body from its form, the account from its
  -- chain, and the transaction from the account.
  abbrev pub IsChecked : Request → Checked → Type 0
  IsChecked r c =
      ((filename : Bytes) × (r.form ≡ ok (filename, c.body)))
      × (get_account c.pars.account ≡ some c.acc)
      × (c.acc.get_upload_tx_info r.transaction_hash ≡ ok c.up_tx)
      × (c.pars.transaction_hash ≡ c.up_tx.tx_id)

  -- The pending upload of a request, and the content of its file: a whole file, if the transaction
  -- says that there is no container, and otherwise a shard.
  abbrev pub IsUploadOf : Request → PendingUpload → Bytes → Type 0
  IsUploadOf r pu content =
      (c : Checked) × IsChecked r c
      × (((c.up_tx.file_container_type ≡ 0)
            × IsStoredWhole fec hash c.up_tx.signature c.body c.pars pu content)
          ⊎ ((c.up_tx.file_container_type ≢ 0)
              × IsStoredShard fec hash c.acc.sign c.body c.pars pu content))

  module _ (to_lower : Bytes → Bytes) (trim_space : Bytes → Bytes) (base : Bytes → Bytes)
      (base58 : Bytes → Bytes) (join : List Bytes → Bytes) (root_folder : Bytes)
      (can_copy : Bytes → Bool) (can_create : Bytes → Bool) where
    abbrev pub IsAnswered : Request → Provider → Answer × Provider → Type 0
    IsAnswered r s res =
        ((res.0 ≡ uploaded) × IsRegistered fec hash (IsUploadOf r) s res.1)
        ⊎ ((res.0 ≢ uploaded) × IsRefused fec hash s res.1)
