-- ===== src/Tests/Neo.antt =====
-- The theorems on the texts of the Neo contract, on concrete inputs.
use archoncloud_go.Base.{
  ℕ, ◌≡◌, refl, List, [], ◌∷◌, inr, true, false, Option, none, some, ok, message, arith,
}
use archoncloud_go.Base.Int.{pos, negsuc}
use archoncloud_go.Common.Bytes.{Bytes}
use archoncloud_go.BlockchainApi.Neo.{
  NeoSpProfile, profile_string, new_neo_sp_profile, UploadParamsForNeo, params_bytes,
  new_upload_params_for_neo_from_bytes,
}
use archoncloud_go.BlockchainApi.Neo.Texts.{
  new_neo_sp_profile-profile_string, new_upload_params_for_neo_from_bytes-params_bytes,
}
use archoncloud_go.BlockchainApi.Neo.Responses.{
  RpcContractParameter, Notification, Log, string_from_response, byte_slice_from_response,
  check_for_error_in_response, get_tx_response, int_from_response_log, hex_string_to_string,
  string_to_bytes, top_item,
}
use archoncloud_go.BlockchainApi.Neo.Answers.{
  log_of, byte_item, notified, notification_halves, error_halves, with_notification, with_error,
  string_from_response-log_of, get_tx_response-notified,
}

-- The country "usa" and the node "n".
abbrev small_profile : NeoSpProfile
small_profile = record {
  min_ask = pos 12;
  pledged_storage = negsuc 6;
  country_a3 = 117 ∷ 115 ∷ 97 ∷ [];
  node_id = 110 ∷ [];
}

-- "12|-7|usa|n"
profile_string_test :
    profile_string small_profile ≡ 49 ∷ 50 ∷ 124 ∷ 45 ∷ 55 ∷ 124 ∷ 117 ∷ 115 ∷ 97 ∷ 124 ∷ 110 ∷ []
unfolding profile_string
profile_string_test = refl

new_neo_sp_profile-profile_string_example :
    new_neo_sp_profile (profile_string small_profile) ≡ ok small_profile
new_neo_sp_profile-profile_string_example =
    new_neo_sp_profile-profile_string small_profile (omega arith) (omega arith)
      (refl, (refl, (refl, tt))) (refl, tt)

-- A compression that only writes two bytes in front.
abbrev framed : Bytes → Bytes
framed s = 31 ∷ 139 ∷ s

abbrev unframed : Bytes → Option Bytes
unframed (a ∷ b ∷ s) = some s
unframed _ = none

abbrev small_params : UploadParamsForNeo
small_params = record {
  user_name = 97 ∷ 98 ∷ [];
  public_key = 99 ∷ [];
  container_signature = [];
  file_container_type = pos 3;
  sp_address = 100 ∷ [];
}

params_bytes_test :
    params_bytes framed unframed small_params
    ≡ 31 ∷ 139 ∷ 97 ∷ 98 ∷ 124 ∷ 99 ∷ 124 ∷ 124 ∷ 51 ∷ 124 ∷ 100 ∷ []
unfolding params_bytes
params_bytes_test = refl

new_upload_params_for_neo_from_bytes-params_bytes_example :
    new_upload_params_for_neo_from_bytes framed unframed (params_bytes framed unframed small_params)
    ≡ ok small_params
new_upload_params_for_neo_from_bytes-params_bytes_example =
    new_upload_params_for_neo_from_bytes-params_bytes framed unframed (λ s. refl) small_params
      (refl, (refl, tt)) (refl, tt) tt (omega arith) (refl, tt)

-- "HALT"
abbrev halt : Bytes
halt = 72 ∷ 65 ∷ 76 ∷ 84 ∷ []

-- The type "Map", without values.
abbrev other_notification : Notification
other_notification = record { state_typ = 77 ∷ 97 ∷ 112 ∷ []; state_values = [] }

abbrev other_item : RpcContractParameter
other_item = record { typ = 77 ∷ 97 ∷ 112 ∷ []; value = [] }

string_from_response-log_of_example :
    (string_from_response
        (some (log_of halt (other_item ∷ byte_item true ((6, 1) ∷ (0, 10) ∷ []) ∷ []) [] []))
      ≡ ok (97 ∷ 10 ∷ []))
    × (byte_slice_from_response
          (some (log_of halt (other_item ∷ byte_item true ((6, 1) ∷ (0, 10) ∷ []) ∷ []) [] []))
        ≡ ok (97 ∷ 10 ∷ []))
string_from_response-log_of_example =
    string_from_response-log_of halt (other_item ∷ []) true ((6, 1) ∷ (0, 10) ∷ []) [] []
      ((omega arith, omega arith), ((omega arith, omega arith), tt))

abbrev notified_log : List (ℕ × ℕ) → Log
notified_log key =
    log_of halt [] (other_notification ∷ notified key false ((6, 1) ∷ []) ∷ other_notification ∷ [])
      []

get_tx_response-notified_example :
    (get_tx_response (inr (notified_log notification_halves))
      ≡ with_notification (notified_log notification_halves) ((6, 1) ∷ []))
    × (get_tx_response (inr (notified_log error_halves))
        ≡ with_error (notified_log error_halves) ((6, 1) ∷ []))
get_tx_response-notified_example =
    get_tx_response-notified halt [] (other_notification ∷ []) (other_notification ∷ []) [] false
      ((6, 1) ∷ []) refl ((λ log. refl), tt) ((omega arith, omega arith), tt)

-- The text "0x" and an odd digit at the end, which is left out.
hex_string_to_string_test : hex_string_to_string (48 ∷ 120 ∷ 54 ∷ 49 ∷ 54 ∷ []) ≡ 97 ∷ []
unfolding hex_string_to_string string_to_bytes
hex_string_to_string_test = refl

-- "Error" on top of the stack.
check_for_error_test :
    check_for_error_in_response
      (λ s. s)
      (some (
        log_of halt
          (byte_item false ((4, 5) ∷ (7, 2) ∷ (7, 2) ∷ (6, 15) ∷ (7, 2) ∷ []) ∷ [])
          []
          []))
    ≡ some (message (69 ∷ 114 ∷ 114 ∷ 111 ∷ 114 ∷ []))
unfolding check_for_error_in_response string_to_bytes
check_for_error_test = refl

-- "-5"
int_from_response_log_test :
    int_from_response_log (
      some (
        log_of halt
          (record { typ = 73 ∷ 110 ∷ 116 ∷ 101 ∷ 103 ∷ 101 ∷ 114 ∷ []; value = 45 ∷ 53 ∷ [] } ∷ [])
          []
          []))
    ≡ ok (negsuc 4)
unfolding int_from_response_log top_item
int_from_response_log_test = refl
