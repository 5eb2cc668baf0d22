-- ===== src/BlockchainApi/Neo/Answers.antt =====
-- What the code reads from the log of a transaction of Neo.
use archoncloud_go.Base.{
  ℕ, ◌+◌, ◌*◌, ◌<◌, ◌≡◌, refl, ap, List, [], ◌∷◌, ◌++◌, ltb, ◌==◌, Bool-cases, inl, inr, Bool, true,
  false, if◌then◌else◌, All, none, some, ok, message, arith,
}
use archoncloud_go.Common.Bytes.{Bytes}
use archoncloud_go.Common.Numbers.{last_of}
use archoncloud_go.Common.ArchonUrl.Parse.{has_prefix}
use archoncloud_go.BlockchainApi.Neo.Responses.{
  RpcContractParameter, Notification, Execution, Log, TxResponse, byte_array, array, fault,
  same_text, nibble, decode_string, string_to_bytes, hex_string_to_string, top_item,
  process_response, string_from_response, byte_slice_from_response, get_value, answer_of,
  first_answer, get_tx_response,
}

-- A digit of base 16, for numbers below 16.
abbrev pub hex_digit : ℕ → ℕ
hex_digit n = if ltb n 10 then 48 + n else 87 + n

-- The hexadecimal text of bytes, with the text "0x" before it if the first argument says so.
abbrev pub hex_digits : List (ℕ × ℕ) → Bytes
hex_digits [] = []
hex_digits ((hi, lo) ∷ rest) = hex_digit hi ∷ hex_digit lo ∷ hex_digits rest

abbrev pub bytes_of : List (ℕ × ℕ) → Bytes
bytes_of [] = []
bytes_of ((hi, lo) ∷ rest) = (16 * hi + lo) ∷ bytes_of rest

abbrev pub hex_text : Bool → List (ℕ × ℕ) → Bytes
hex_text true halves = 48 ∷ 120 ∷ hex_digits halves
hex_text false halves = hex_digits halves

-- Two halves of a byte.
abbrev pub IsHalves : ℕ × ℕ → Type 0
IsHalves (hi, lo) = (hi < 16) × (lo < 16)

nibble-hex_digit : (n : ℕ) → n < 16 → nibble (hex_digit n) ≡ some n
nibble-hex_digit n h = ground arith

decode_string-hex_digits :
    (halves : List (ℕ × ℕ))
    → All IsHalves halves
    → decode_string (hex_digits halves) ≡ bytes_of halves
unfolding decode_string
decode_string-hex_digits [] h = refl
decode_string-hex_digits ((hi, lo) ∷ rest) ((h, l), hs) =
    rw (nibble-hex_digit hi h, nibble-hex_digit lo l, decode_string-hex_digits rest hs)

hex_digit-IsOther : (n : ℕ) → n < 16 → (hex_digit n == 120) ≡ false
hex_digit-IsOther n h = ground arith

has_prefix-hex_digits :
    (halves : List (ℕ × ℕ))
    → All IsHalves halves
    → has_prefix (hex_digits halves) (48 ∷ 120 ∷ []) ≡ false
has_prefix-hex_digits [] h = refl
has_prefix-hex_digits ((hi, lo) ∷ rest) ((h, l), hs) = elim (Bool-cases (hex_digit hi == 48)) [
  | inl e ↦ rw (e, hex_digit-IsOther lo l)
  | inr e ↦ rw e
]

string_to_bytes-hex_text :
    (b : Bool) (halves : List (ℕ × ℕ))
    → All IsHalves halves
    → string_to_bytes (hex_text b halves) ≡ bytes_of halves
unfolding string_to_bytes
string_to_bytes-hex_text true halves h = decode_string-hex_digits halves h
string_to_bytes-hex_text false halves h =
    rw (has_prefix-hex_digits halves h, decode_string-hex_digits halves h)

last_of-append :
    (x y : RpcContractParameter) (xs : List RpcContractParameter) → last_of x (xs ++ (y ∷ [])) ≡ y
last_of-append x y [] = refl
last_of-append x y (z ∷ xs) = last_of-append z y xs

abbrev pub log_of : Bytes → List RpcContractParameter → List Notification → List Execution → Log
log_of state stack notifications more = record {
  executions = record { vm_state = state; stack = stack; notifications = notifications } ∷ more;
}

top_item-log_of :
    (state : Bytes) (items : List RpcContractParameter) (top : RpcContractParameter)
    (ns : List Notification) (more : List Execution)
    → top_item (some (log_of state (items ++ (top ∷ [])) ns more)) ≡ some top
unfolding top_item
top_item-log_of state [] top ns more = refl
top_item-log_of state (x ∷ items) top ns more = ap some (last_of-append x top items)

abbrev pub byte_item : Bool → List (ℕ × ℕ) → RpcContractParameter
byte_item b halves = record { typ = byte_array; value = hex_text b halves }

-- A byte array in hexadecimal, with or without "0x", that the first execution leaves on top of its stack is
-- what is read from the response, as a string and as a slice of bytes.
pub string_from_response-log_of :
    (state : Bytes) (items : List RpcContractParameter) (b : Bool) (halves : List (ℕ × ℕ))
    (ns : List Notification) (more : List Execution)
    → All IsHalves halves
    → let log = some (log_of state (items ++ (byte_item b halves ∷ [])) ns more) in
      (string_from_response log ≡ ok (bytes_of halves))
      × (byte_slice_from_response log ≡ ok (bytes_of halves))
unfolding string_from_response byte_slice_from_response process_response hex_string_to_string
string_from_response-log_of state items b halves ns more h =
    let e = top_item-log_of state items (byte_item b halves) ns more in
    (rw (e, string_to_bytes-hex_text b halves h), rw (e, string_to_bytes-hex_text b halves h))

-- "notification"
abbrev pub notification_halves : List (ℕ × ℕ)
notification_halves =
    (6, 14)
    ∷ (6, 15)
    ∷ (7, 4)
    ∷ (6, 9)
    ∷ (6, 6)
    ∷ (6, 9)
    ∷ (6, 3)
    ∷ (6, 1)
    ∷ (7, 4)
    ∷ (6, 9)
    ∷ (6, 15)
    ∷ (6, 14)
    ∷ []

-- "error"
abbrev pub error_halves : List (ℕ × ℕ)
error_halves = (6, 5) ∷ (7, 2) ∷ (7, 2) ∷ (6, 15) ∷ (7, 2) ∷ []

abbrev pub notified : List (ℕ × ℕ) → Bool → List (ℕ × ℕ) → Notification
notified key b halves = record {
  state_typ = array;
  state_values = byte_item false key ∷ byte_item b halves ∷ [];
}

-- A notification that ends nothing, of any log.
abbrev pub IsSilent : Notification → Type 0
IsSilent n = (log : Log) → answer_of log n ≡ none

get_value-byte_item :
    (b : Bool) (halves : List (ℕ × ℕ))
    → All IsHalves halves
    → get_value (byte_item b halves) ≡ bytes_of halves
unfolding get_value hex_string_to_string
get_value-byte_item b halves h = string_to_bytes-hex_text b halves h

first_answer-append :
    (log : Log) (before after : List Notification)
    → All IsSilent before
    → first_answer log (before ++ after) ≡ first_answer log after
unfolding first_answer
first_answer-append log [] after h = refl
first_answer-append log (n ∷ before) after (q, h) =
    rw (q log, first_answer-append log before after h)

abbrev pub with_notification : Log → List (ℕ × ℕ) → TxResponse
with_notification log halves = record {
  log = some log;
  notification = bytes_of halves;
  error = none;
}

abbrev pub with_error : Log → List (ℕ × ℕ) → TxResponse
with_error log halves = record {
  log = some log;
  notification = [];
  error = some (message (bytes_of halves));
}

-- The first notification of a transaction without a fault that has the key "notification" or "error" decides: its
-- value is the notification of the response, or its error, whatever comes after it.
pub get_tx_response-notified :
    (state : Bytes) (stack : List RpcContractParameter) (before after : List Notification)
    (more : List Execution) (b : Bool) (halves : List (ℕ × ℕ))
    → same_text state fault ≡ false
    → All IsSilent before
    → All IsHalves halves
    → let log = λ (key : List (ℕ × ℕ)).
      log_of state stack (before ++ (notified key b halves ∷ after)) more in
      (get_tx_response (inr (log notification_halves))
        ≡ with_notification (log notification_halves) halves)
      × (get_tx_response (inr (log error_halves)) ≡ with_error (log error_halves) halves)
unfolding get_tx_response first_answer get_value hex_string_to_string string_to_bytes decode_string
get_tx_response-notified state stack before after more b halves s q h =
    let log =
      λ (key : List (ℕ × ℕ)). log_of state stack (before ++ (notified key b halves ∷ after)) more in
    (
      rw (
        s,
        first_answer-append (log notification_halves) before
            (notified notification_halves b halves ∷ after) q,
        get_value-byte_item b halves h,
      ),
      rw (
        s,
        first_answer-append (log error_halves) before (notified error_halves b halves ∷ after) q,
        get_value-byte_item b halves h,
      ),
    )
