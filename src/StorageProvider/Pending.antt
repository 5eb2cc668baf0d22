-- ===== src/StorageProvider/Pending.antt =====
-- storageProvider/pendingUpload.go: the uploads that are stored and not yet verified. What the block
-- chain answers at the time of a check is a parameter, as are the signature check of the account and
-- the announcement to the distributed hash table. Times are in nanoseconds.
pub mod Ticks
pub mod Outcomes
pub mod Announced
use archoncloud_go.Base.{
  ℕ, ◌+◌, ◌-◌, ◌*◌, ◌^◌, List, [], ◌∷◌, ◌++◌, length, ltb, bytes_eq, Bool, true, false,
  if◌then◌else◌, Option, none, some, Result, ok, err, panic,
}
use archoncloud_go.Common.Bytes.{Bytes}
use archoncloud_go.Common.ArchonUrl.{ArchonUrl, slash}
use archoncloud_go.Common.Profiles.{split}
use archoncloud_go.StorageProvider.Files.{File, read_file, remove_file}

-- `interfaces.UploadTxInfo`
pub record UploadTxInfo : Type 0 where
  pub tx_id : Bytes
  pub user_name : Bytes
  pub public_key : Bytes
  pub file_container_type : ℕ
  pub signature : Bytes
  pub access_control_level : ℕ
  pub sps : List Bytes

pub data AccountType : Type 0 where
  eth_account neo_account : AccountType

pub record PendingUpload : Type 0 where
  pub url : ArchonUrl
  pub account : AccountType
  pub transaction_hash : Bytes
  pub computed_file_hash : Bytes
  pub signature : Bytes
  pub file_path : Bytes
  pub dht_id : Bytes
  pub client : Bytes
  pub received : ℕ

-- The methods of `IAccount` that `Verify` calls. A failed `GetUploadTxInfo` has an error.
pub record Chain : Type 0 where
  pub is_tx_accepted : Bytes → Bool
  pub get_upload_tx_info : Bytes → Result UploadTxInfo
  pub address_bytes : Bytes
  pub verify : Bytes → Bytes → Bytes → Bool

pub data Status : Type 0 where
  verify_unknown verify_failed verify_ok : Status

pub record ActivityInfo : Type 0 where
  pub upload : Bool
  pub url : ArchonUrl
  pub client : Bytes
  pub num_bytes : ℕ

pub record Verifier : Type 0 where
  pub to_verify : List PendingUpload
  pub files : List File
  pub announced : List Bytes
  pub activities : List ActivityInfo

abbrev pub size_of : Option Bytes → ℕ
size_of none = 0
size_of (some content) = length content

abbrev pub file_size : Bytes → List File → ℕ
file_size p fs = size_of (read_file p fs)

abbrev pub contains_address : Bytes → List Bytes → Bool
contains_address a [] = false
contains_address a (x ∷ xs) =
    let rest = contains_address a xs in if bytes_eq a x then true else rest

abbrev pub verify_info : Chain → PendingUpload → Result UploadTxInfo → Status
verify_info chain pu (ok up_tx) =
    if contains_address chain.address_bytes up_tx.sps
    then if chain.verify pu.computed_file_hash pu.signature up_tx.public_key
      then verify_ok
      else verify_failed
    else verify_failed
verify_info chain pu _ = verify_failed

-- The status; the activity that goes with `verify_ok` is recorded by the caller below.
unfoldable pub verify : Chain → PendingUpload → Status
verify chain pu =
    if chain.is_tx_accepted pu.transaction_hash
    then verify_info chain pu (chain.get_upload_tx_info pu.transaction_hash)
    else verify_unknown

-- `10 * time.Minute`
abbrev pub ten_minutes : ℕ
ten_minutes = 600 * 1000 * 1000 * 1000

abbrev pub first_part : List Bytes → Bytes
first_part [] = []
first_part (p ∷ ps) = p

-- An upload of the file that is not yet verified gives way to the new one.
unfoldable pub drop_path : Bytes → List PendingUpload → List PendingUpload
drop_path p [] = []
drop_path p (pe ∷ pes) =
    let rest = drop_path p pes in if bytes_eq pe.file_path p then pes else pe ∷ rest

unfoldable pub receive_pending : PendingUpload → Verifier → Verifier
unfolding drop_path
receive_pending pu v = record v { to_verify = drop_path pu.file_path v.to_verify ++ pu ∷ [] }

module _ (chain : AccountType → Chain) (announce_to_dht : Bytes → Bytes → Bool) (now : ℕ) where
  abbrev pub is_announced : PendingUpload → Bool
  unfolding split
  is_announced pu = announce_to_dht pu.dht_id (first_part (split slash pu.dht_id))

  abbrev pub activity_of : PendingUpload → Verifier → ActivityInfo
  activity_of pu v = record {
    upload = true;
    url = pu.url;
    client = pu.client;
    num_bytes = file_size pu.file_path v.files;
  }

  -- The cases of the switch, after the activity that goes with `verify_ok`. Those uploads that remain
  -- are collected in the state's own list.
  unfoldable pub act_on : PendingUpload → Verifier → Status → Verifier
  act_on pu v verify_ok = record v {
    activities = v.activities ++ activity_of pu v ∷ [];
    announced = if is_announced pu then v.announced ++ pu.dht_id ∷ [] else v.announced;
  }
  act_on pu v verify_unknown =
      if ltb ten_minutes (now - pu.received)
      then record v { files = remove_file pu.file_path v.files }
      else record v { to_verify = v.to_verify ++ pu ∷ [] }
  act_on pu v verify_failed = record v { files = remove_file pu.file_path v.files }

  unfoldable pub check_upload : PendingUpload → Verifier → Verifier
  check_upload pu v = act_on pu v (verify (chain pu.account) pu)

  unfoldable pub check_uploads : List PendingUpload → Verifier → Verifier
  check_uploads [] v = v
  check_uploads (pu ∷ pus) v = check_uploads pus (check_upload pu v)

  -- The case of the timer. With an empty list nothing changes.
  unfoldable pub tick : Verifier → Verifier
  tick v = check_uploads v.to_verify (record v { to_verify = [] })
