-- ===== src/StorageProvider/UploadHandler/Handler.antt =====
-- storageProvider/uploadHandler.go: the checks of an upload request, and the name of its file. The
-- methods of the account, the request's form and the functions of strings and path/filepath are
-- parameters.
pub mod Endings
pub mod Answers
use archoncloud_go.Base.{
  ℕ, List, [], ◌∷◌, ◌++◌, map, ◌==◌, bytes_eq, not, ◌&&◌, ◌||◌, Bool, true, false, if◌then◌else◌,
  Option, none, some, Result, ok, err, panic, Error, guard, ◌>>=◌, ◌>>◌, missing_transaction_hash,
  unknown_chain, chain_not_handled, user_name_not_in_transaction, file_path_is_empty,
}
use archoncloud_go.Base.Int.{pos}
use archoncloud_go.Common.Bytes.{Bytes}
use archoncloud_go.Common.Names.{is_legal_file_path}
use archoncloud_go.Common.ArchonUrl.{slash, backslash}
use archoncloud_go.Common.ArchonUrl.Parse.{eth, neo}
use archoncloud_go.Shards.Erasure.{Infectious}
use archoncloud_go.StorageProvider.Pending.{AccountType, eth_account, neo_account, UploadTxInfo}
use archoncloud_go.StorageProvider.UploadHandler.{Provider, UploadPars, upload_shard}
use archoncloud_go.StorageProvider.UploadHandler.WholeFile.{upload_whole_file}

-- The methods of an account that the handler calls.
pub record UploadAccount : Type 0 where
  pub get_upload_tx_info : Bytes → Result UploadTxInfo
  pub permission : Bytes
  pub sign : Bytes → Result Bytes

-- The queries, the form with the name of its file and what it holds, the address and the time.
pub record Request : Type 0 where
  pub transaction_hash : Bytes
  pub chain : Bytes
  pub form : Result (Bytes × Bytes)
  pub cloud_dir : Bytes
  pub hash_url : Bool
  pub overwrite : Bool
  pub remote_addr : Bytes
  pub now : ℕ

-- What the client is told; a panic is caught by the server.
pub data Answer : Type 0 where
  uploaded : Answer
  bad_request forbidden : Error → Answer
  broken : Answer

abbrev pub without_drive : Bytes → Bytes
without_drive (a ∷ b ∷ bs) = if b == 58 then bs else a ∷ b ∷ bs
without_drive bs = bs

-- `strings.ReplaceAll`, on a system with "/".
abbrev pub to_slashes : Bytes → Bytes
to_slashes [] = []
to_slashes (b ∷ bs) = (if b == backslash then slash else b) ∷ to_slashes bs

module _ (trim_space : Bytes → Bytes) (base : Bytes → Bytes) (join : List Bytes → Bytes) where
  unfoldable pub get_file_name : Bytes → Bytes → Result Bytes
  get_file_name filename cloud_dir = do
    let trimmed = trim_space filename
    guard (not (bytes_eq trimmed [])) file_path_is_empty
    let name = base (to_slashes (without_drive trimmed))
    let c = trim_space cloud_dir
    let file_name = if bytes_eq c [] then name else join (c ∷ name ∷ [])
    is_legal_file_path file_name
    ok file_name

abbrev pub chain_of : Bytes → Result AccountType
chain_of block_ch =
    if bytes_eq block_ch eth
    then ok eth_account
    else if bytes_eq block_ch neo
    then ok neo_account
    else err unknown_chain

abbrev pub handled : Option UploadAccount → Result UploadAccount
handled (some acc) = ok acc
handled none = err chain_not_handled

-- What the checks have found: the account, the transaction, the parameters and the body.
pub record Checked : Type 0 where
  pub acc : UploadAccount
  pub up_tx : UploadTxInfo
  pub pars : UploadPars
  pub body : Bytes

module _ (get_account : AccountType → Option UploadAccount) (to_lower : Bytes → Bytes)
    (trim_space : Bytes → Bytes) (base : Bytes → Bytes) (join : List Bytes → Bytes) where
  unfoldable pub check_request : Request → Result Checked
  unfolding get_file_name
  check_request r = do
    guard (not (bytes_eq r.transaction_hash [])) missing_transaction_hash
    account ← chain_of (to_lower r.chain)
    acc ← handled (get_account account)
    up_tx ← acc.get_upload_tx_info r.transaction_hash
    (filename, body) ← r.form
    file_name ← get_file_name trim_space base join filename r.cloud_dir
    guard (r.hash_url || not (bytes_eq up_tx.user_name [])) user_name_not_in_transaction
    ok (record {
      acc = acc;
      up_tx = up_tx;
      pars = record {
        url = record {
          username = up_tx.user_name;
          permission = acc.permission;
          path = file_name;
          needed = pos 0;
          total = pos 0;
        };
        account = account;
        overwrite = r.overwrite;
        access_control_level = up_tx.access_control_level;
        transaction_hash = up_tx.tx_id;
        client = r.remote_addr;
        now = r.now;
      };
      body = body;
    })

  -- An error of the upload itself forbids it.
  abbrev pub answer_of : Result (Unit {0}) → Answer
  answer_of (ok u) = uploaded
  answer_of (err e) = forbidden e
  answer_of panic = broken

  module _ (fec : Infectious) (hash : Bytes → Bytes) (base58 : Bytes → Bytes) (root_folder : Bytes)
      (can_copy : Bytes → Bool) (can_create : Bytes → Bool) where
    unfoldable pub store : Checked → Provider → Result (Unit {0}) × Provider
    store c s =
        if c.up_tx.file_container_type == 0
        then upload_whole_file hash base58 join root_folder can_copy can_create c.pars
            c.up_tx.signature s c.body
        else upload_shard fec hash c.acc.sign base58 join root_folder can_create c.pars s c.body

    abbrev pub upload_checked : Result Checked → Provider → Answer × Provider
    upload_checked (ok c) s = let (r, s') = store c s in (answer_of r, s')
    upload_checked (err e) s = (bad_request e, s)
    upload_checked panic s = (broken, s)

    unfoldable pub upload_handler : Request → Provider → Answer × Provider
    unfolding check_request
    upload_handler r s = upload_checked (check_request r) s
