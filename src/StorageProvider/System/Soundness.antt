-- ===== src/StorageProvider/System/Soundness.antt =====
-- What every run of the storage provider keeps to.
use archoncloud_go.Base.{ℕ, ◌≡◌, ◌⊎◌, List, [], ◌∷◌, All, Bool}
use archoncloud_go.Common.Bytes.{Bytes}
use archoncloud_go.Shards.Erasure.{Infectious}
use archoncloud_go.StorageProvider.Pending.{AccountType, PendingUpload, Chain}
use archoncloud_go.StorageProvider.Pending.Ticks.{IsDistinct}
use archoncloud_go.StorageProvider.Pending.Announced.{IsConfirmed}
use archoncloud_go.StorageProvider.UploadHandler.Handler.Answers.{IsUploadOf}
use archoncloud_go.StorageProvider.System.{System, Handled}

module _ (fec : Infectious) (hash : Bytes → Bytes) (base58 : Bytes → Bytes)
    (to_lower : Bytes → Bytes) (trim_space : Bytes → Bytes) (base : Bytes → Bytes)
    (join : List Bytes → Bytes) (root_folder : Bytes) (announce_to_dht : Bytes → Bytes → Bool)
    (chain_at : ℕ → AccountType → Chain) where
  -- An upload that one of the requests has registered.
  abbrev pub IsRequested : List Handled → PendingUpload → Type 0
  IsRequested [] pu = ⊥
  IsRequested (x ∷ xs) pu =
      ((content : Bytes) × IsUploadOf fec hash x.get_account x.request pu content)
      ⊎ IsRequested xs pu

  -- The upload of one of the requests that was confirmed at some time by its chain.
  abbrev pub IsGenuine : List Handled → Bytes → Type 0
  IsGenuine xs id =
      (pu : PendingUpload) × (t : ℕ) × (pu.dht_id ≡ id)
      × IsRequested xs pu
      × IsConfirmed (chain_at t pu.account) pu

  pub record IsSound (xs : List Handled) (sys : System) : Type 0 where
    pub waiting_requested : All (IsRequested xs) sys.waiting
    pub channel_requested : All (IsRequested xs) sys.channel
    pub pending_requested : All (IsRequested xs) sys.verifier.to_verify
    pub distinct : IsDistinct sys.verifier.to_verify
    pub genuine : All (IsGenuine xs) sys.verifier.announced
