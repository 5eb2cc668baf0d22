-- ===== src/Tests/Provider.antt =====
-- The theorems on the handlers of the storage provider and its pending uploads, on concrete inputs.
use archoncloud_go.Base.{
  ◌≡◌, refl, [], ◌∷◌, bytes_eq, bytes_eq→ne, true, false, inl, some, ok, err, file_does_not_exist,
  arith,
}
use mathlib.Core.List.{Memᴰ}
use archoncloud_go.Base.Int.{pos}
use archoncloud_go.Common.Bytes.{Bytes}
use archoncloud_go.Common.ArchonUrl.{ArchonUrl, decimal, is_hash, is_whole_file, shard_path}
use archoncloud_go.Common.ArchonUrl.Parse.{new_archon_url, host_parts, read_encoding}
use archoncloud_go.Common.Names.{is_legal_file_path, is_legal_user_name}
use archoncloud_go.StorageProvider.Files.{read_file, write_file}
use archoncloud_go.StorageProvider.Paths.{stored_file_path, get_shards_folder, get_hashes_folder}
use archoncloud_go.Common.Profiles.{split}
use archoncloud_go.StorageProvider.Pending.{
  UploadTxInfo, AccountType, eth_account, PendingUpload, Chain, Verifier, receive_pending, tick,
}
use archoncloud_go.StorageProvider.Pending.Outcomes.{IsSettled, tick-settles}
use archoncloud_go.StorageProvider.Download.{download_handler}
use archoncloud_go.StorageProvider.Download.Stored.{
  IsJoin, IsFolder, IsPlain, download_handler-misses,
}
use archoncloud_go.StorageProvider.UploadHandler.WholeFile.{
  upload_whole_file, upload_whole_file-read,
}
use archoncloud_go.StorageProvider.UploadHandler.Handler.{UploadAccount, Request}
use archoncloud_go.StorageProvider.System.{System, handle, received, Reach}
use archoncloud_go.Tests.Instances.{repetition, constant_hash, constant_sign}
use archoncloud_go.Tests.Stores.{pars, provider, join}
use archoncloud_go.Tests.Urls.{bob_url, plain_parse}

-- A chain that has accepted the transaction "1", which names the provider "9".
abbrev up_tx : UploadTxInfo
up_tx = record {
  tx_id = 49 ∷ [];
  user_name = 98 ∷ 111 ∷ 98 ∷ [];
  public_key = [];
  file_container_type = 0;
  signature = [];
  access_control_level = 2;
  sps = (57 ∷ []) ∷ [];
}

abbrev chain : AccountType → Chain
chain account = record {
  is_tx_accepted = bytes_eq (49 ∷ []);
  get_upload_tx_info = λ tx. ok up_tx;
  address_bytes = 57 ∷ [];
  verify = λ h s k. true;
}

abbrev account : UploadAccount
account = record {
  get_upload_tx_info = λ tx. ok up_tx;
  permission = 101 ∷ 116 ∷ 104 ∷ [];
  sign = constant_sign;
}

abbrev request : Request
request = record {
  transaction_hash = 49 ∷ [];
  chain = 101 ∷ 116 ∷ 104 ∷ [];
  form = ok (97 ∷ [], 1 ∷ 2 ∷ 3 ∷ []);
  cloud_dir = [];
  hash_url = false;
  overwrite = false;
  remote_addr = [];
  now = 5;
}

abbrev pending : PendingUpload
pending = record {
  url = bob_url;
  account = eth_account;
  transaction_hash = 49 ∷ [];
  computed_file_hash = [];
  signature = [];
  file_path = 47 ∷ [];
  dht_id = 97 ∷ [];
  client = [];
  received = 0;
}

-- Two pending uploads, of which the chain knows the first.
abbrev verifier : Verifier
verifier = record {
  to_verify = pending ∷ record pending { transaction_hash = 50 ∷ []; file_path = 48 ∷ [] } ∷ [];
  files = provider.files;
  announced = [];
  activities = [];
}

tick-settles_example :
    IsSettled chain (λ id layer. true) 7 pending verifier (tick chain (λ id layer. true) 7 verifier)
tick-settles_example =
    tick-settles chain (λ id layer. true) 7 verifier pending
      ((bytes_eq→ne (47 ∷ []) (48 ∷ []) refl, tt), (tt, tt)) (Memᴰ.head refl)

upload_whole_file-read_example :
    read_file
      (47 ∷ [])
      (upload_whole_file constant_hash
        (λ h. h)
        join
        (47 ∷ [])
        (λ b. true)
        (λ p. true)
        pars
        []
        provider
        (2 ∷ [])).1.files
    ≡ some (1 ∷ [])
upload_whole_file-read_example =
    upload_whole_file-read constant_hash (λ h. h) join (47 ∷ []) (λ b. true) (λ p. true) pars []
      provider (2 ∷ []) (47 ∷ []) (1 ∷ []) refl refl

abbrev start : System
start = record {
  waiting = [];
  channel = [];
  verifier = record { to_verify = []; files = []; announced = []; activities = [] };
}

abbrev MyReach : System → Type 0
MyReach =
    Reach repetition constant_hash (λ h. h) (λ s. s) (λ s. s) (λ s. s) join (47 ∷ [])
      (λ id layer. true) (λ t. chain) start

abbrev after_request : System
after_request =
    handle repetition constant_hash (λ h. h) (λ s. s) (λ s. s) (λ s. s) join (47 ∷ [])
      (λ id layer. true) (λ t. chain) (λ a. some account) (λ b. true) (λ p. true) request start

-- What the request registers.
abbrev registered : PendingUpload
registered =
    let url : ArchonUrl = record {
      username = 98 ∷ 111 ∷ 98 ∷ [];
      permission = 101 ∷ 116 ∷ 104 ∷ [];
      path = 97 ∷ [];
      needed = pos 0;
      total = pos 0;
    } in
    record {
      url = url;
      account = eth_account;
      transaction_hash = 49 ∷ [];
      computed_file_hash = constant_hash (1 ∷ 2 ∷ 3 ∷ []);
      signature = [];
      file_path = stored_file_path join (47 ∷ []) url 2 (pos 0);
      dht_id = shard_path url (pos 0);
      client = [];
      received = 5;
    }

abbrev after_receipt : System
after_receipt = record {
  waiting = [];
  channel = [];
  verifier = receive_pending registered after_request.verifier;
}

join-IsJoin : IsJoin join
join-IsJoin = record { joins = λ a b f h. refl }

-- "arc://bob.eth.n2:7/a"
abbrev bob_text : Bytes
bob_text =
    97 ∷ 114 ∷ 99 ∷ 58 ∷ 47 ∷ 47 ∷ 98 ∷ 111 ∷ 98 ∷ 46 ∷ 101 ∷ 116 ∷ 104 ∷ 46 ∷ 110 ∷ 50 ∷ 58 ∷ 55
    ∷ 47 ∷ 97 ∷ []

bob_text-ok : new_archon_url plain_parse (λ h. h) bob_text ≡ ok bob_url
unfolding new_archon_url host_parts is_legal_user_name read_encoding is_hash is_legal_file_path
bob_text-ok = refl

abbrev after_upload : Verifier
after_upload = record {
  to_verify = [];
  files = write_file (stored_file_path join (114 ∷ []) bob_url 2 (pos 3)) (5 ∷ []) [];
  announced = [];
  activities = [];
}

shards-IsFolder : IsFolder (get_shards_folder join (114 ∷ []))
unfolding get_shards_folder split
shards-IsFolder = inl (refl, (refl, (refl, tt)))

hashes-IsFolder : IsFolder (get_hashes_folder join (114 ∷ []))
unfolding get_hashes_folder split
hashes-IsFolder = inl (refl, (refl, (refl, tt)))

bob_path-IsPlain : IsPlain (shard_path bob_url (pos 3))
unfolding shard_path split
bob_path-IsPlain = (refl, (refl, (refl, tt)))

bob_url-sharded : is_whole_file bob_url ≡ false
unfolding is_whole_file
bob_url-sharded = refl

download_handler-misses_example :
    download_handler plain_parse (λ h. h) join (114 ∷ []) bob_text (decimal (pos 3)) [] after_upload
    ≡ (err file_does_not_exist, after_upload)
download_handler-misses_example =
    download_handler-misses plain_parse (λ h. h) join join-IsJoin (114 ∷ []) bob_text [] (5 ∷ [])
      bob_url 2 3 after_upload shards-IsFolder hashes-IsFolder bob_path-IsPlain bob_text-ok
      bob_url-sharded (omega arith) refl
