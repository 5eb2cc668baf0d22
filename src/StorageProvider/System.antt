-- ===== src/StorageProvider/System.antt =====
-- The running storage provider: upload requests (storageProvider/uploadHandler.go) and the loop over the
-- pending uploads (storageProvider/pendingUpload.go), which share the files and a channel. One step is one
-- request, one send to the channel, one upload taken from the channel, or one pass of the timer; the
-- goroutines' steps come in any order. What the block chains say at a time is a parameter.
pub mod Soundness
use archoncloud_go.Base.{ℕ, ◌<◌, ◌≡◌, List, [], ◌∷◌, ◌++◌, Bool, Option, length}
use archoncloud_go.Common.Bytes.{Bytes}
use archoncloud_go.Shards.Erasure.{Infectious}
use archoncloud_go.StorageProvider.Pending.{
  AccountType, PendingUpload, Chain, Verifier, receive_pending, tick,
}
use archoncloud_go.StorageProvider.UploadHandler.{Provider}
use archoncloud_go.StorageProvider.UploadHandler.Handler.{UploadAccount, Request, upload_handler}

-- The files are those of the verifier. A request that has stored its file waits until the channel takes
-- its upload; the requests that wait are in no order.
pub record System : Type 0 where
  pub waiting : List PendingUpload
  pub channel : List PendingUpload
  pub verifier : Verifier

abbrev pub provider_of : System → Provider
provider_of sys = record { files = sys.verifier.files; uploads_pending = sys.waiting }

abbrev pub with_provider : Provider → System → System
with_provider s sys = record {
  waiting = s.uploads_pending;
  channel = sys.channel;
  verifier = record sys.verifier { files = s.files };
}

-- `make(chan *pendingUpload, 400)`
abbrev pub channel_size : ℕ
channel_size = 400

-- A request, and the accounts at its time.
pub record Handled : Type 0 where
  pub get_account : AccountType → Option UploadAccount
  pub request : Request

module _ (fec : Infectious) (hash : Bytes → Bytes) (base58 : Bytes → Bytes)
    (to_lower : Bytes → Bytes) (trim_space : Bytes → Bytes) (base : Bytes → Bytes)
    (join : List Bytes → Bytes) (root_folder : Bytes) (announce_to_dht : Bytes → Bytes → Bool)
    (chain_at : ℕ → AccountType → Chain) where
  -- The accounts, and whether files can be written, may be others at each request.
  unfoldable pub handle :
      (AccountType → Option UploadAccount)
      → (Bytes → Bool)
      → (Bytes → Bool)
      → Request
      → System
      → System
  unfolding upload_handler
  handle get_account can_copy can_create r sys =
      with_provider
        (upload_handler get_account to_lower trim_space base join fec hash base58 root_folder
          can_copy can_create r (provider_of sys)).1
        sys

  pub data Step : System → System → Type 0 where
    requested :
        (sys : System) (get_account : AccountType → Option UploadAccount)
        (can_copy can_create : Bytes → Bool) (r : Request)
        → Step sys (handle get_account can_copy can_create r sys)
    sent :
        (before after channel : List PendingUpload) (pu : PendingUpload) (v : Verifier)
        → length channel < channel_size
        → Step
            (record { waiting = before ++ pu ∷ after; channel = channel; verifier = v })
            (record { waiting = before ++ after; channel = channel ++ pu ∷ []; verifier = v })
    received :
        (waiting : List PendingUpload) (pu : PendingUpload) (rest : List PendingUpload)
        (v : Verifier)
        → Step
            (record { waiting = waiting; channel = pu ∷ rest; verifier = v })
            (record { waiting = waiting; channel = rest; verifier = receive_pending pu v })
    ticked :
        (sys : System) (now : ℕ)
        → Step sys (record sys { verifier = tick (chain_at now) announce_to_dht now sys.verifier })

  pub data Reach (start : System) : System → Type 0 where
    here : Reach start start
    next : {sys sys' : System} → Reach start sys → Step sys sys' → Reach start sys'

  -- The requests of a run, the last one first, before those that were made earlier.
  abbrev pub step_requests : {sys sys' : System} → Step sys sys' → List Handled → List Handled
  step_requests (requested sys get_account can_copy can_create r) earlier =
      record { get_account = get_account; request = r } ∷ earlier
  step_requests (sent before after channel pu v room) earlier = earlier
  step_requests (received waiting pu rest v) earlier = earlier
  step_requests (ticked sys now) earlier = earlier

  abbrev pub requests : {start sys : System} → Reach start sys → List Handled → List Handled
  requests here earlier = earlier
  requests (next r st) earlier = step_requests st (requests r earlier)
