-- ===== src/Base/Errors.antt =====
-- What a Go function returns: a value, an error or a panic. Errors are the values of `error` that
-- the code creates, one constructor for each message.
use Prim.Native.Nat.{ℕ}
use mathlib.Core.List.{List}
use mathlib.Core.Path.{◌≡◌}
use mathlib.Core.Bool.{Bool, true, false}

pub data Error : Type 0 where
  eof : Error
  expected_bytes : ℕ → Error
  unsupported_version : ℕ → Error
  not_mxor_header not_bors_header not_aors_header : Error
  unknown_erasure_code : ℕ → Error
  unknown_shard_container : ℕ → Error
  could_not_correct : Error
  -- an error that a third-party package returned
  foreign : Error
  no_shards : Error
  container_too_short : Error
  header_crc : Error
  unknown_file_container : ℕ → Error
  hash_mismatch : Error
  wrong_hash_length : ℕ → Error
  two_shards_needed shards_differ : Error
  too_large : Error
  wrong_shard_count : ℕ → Error
  shard_index_too_large : Error
  wrong_data_size : Error
  insufficient_data : Error
  upload_incomplete : Error
  urls_need_three_fields : Error
  not_a_shard_path : Error
  not_a_number : Error
  shard_already_exists : Error
  illegal_file_path path_too_long illegal_user_name : Error
  missing_archon_url not_arc_protocol invalid_archon_url path_is_empty : Error
  missing_h missing_user_name missing_eth_or_neo missing_n : Error
  whole_file_encoding invalid_needed_or_total : Error
  missing_transaction_hash unknown_chain chain_not_handled : Error
  user_name_not_in_transaction file_path_is_empty : Error
  missing_shard_idx file_does_not_exist : Error
  no_shards_found too_few_found : Error
  invalid_profile_string invalid_neo_upload_string : Error
  no_return_value returned_no_integer returned_no_string returned_no_byte_array no_executions
        neo_vm_fault :
      Error
  -- an error with a text that is not the code's own
  message : List ℕ → Error
  too_few_downloaded file_already_exists none_stores_it : Error

pub data Result {ℓ} (A : Type ℓ) : Type ℓ where
  ok : A → Result A
  err : Error → Result A
  panic : Result A

-- `if !test { return err }` before the rest.
abbrev pub guard : Bool → Error → Result (Unit {0})
guard false e = err e
guard true e = ok tt

-- An error or a panic ends the function.
infixl 5 ◌>>=◌
abbrev pub ◌>>=◌ {ℓ κ} : {A : Type ℓ} {B : Type κ} → Result A → (A → Result B) → Result B
panic >>= rest = panic
err e >>= rest = err e
ok a >>= rest = rest a

infixl 5 ◌>>◌
abbrev pub ◌>>◌ {ℓ} : {B : Type ℓ} → Result (Unit {0}) → Result B → Result B
check >> rest = check >>= λ _. rest

pub ok-injective {ℓ} : {A : Type ℓ} (a b : A) → ok a ≡ ok b → a ≡ b
ok-injective a b e = cc
