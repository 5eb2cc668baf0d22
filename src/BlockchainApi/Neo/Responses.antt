-- ===== src/BlockchainApi/Neo/Responses.antt =====
-- blockchainAPI/neo/utils.go: what the code reads from the log of a transaction. The records of the log are
-- the package neo-gogogo's; a log has the fields that are read, and what the node answered is a parameter.
use archoncloud_go.Base.{
  ℕ, ◌⊎◌, inl, inr, ◌+◌, ◌*◌, ◌-◌, List, [], ◌∷◌, leb, ◌==◌, ◌&&◌, Bool, true, false, if◌then◌else◌,
  Option, none, some, Result, ok, err, Error, no_return_value, returned_no_integer,
  returned_no_string, returned_no_byte_array, no_executions, neo_vm_fault, message,
}
use archoncloud_go.Base.Int.{ℤ}
use archoncloud_go.Common.Bytes.{Bytes}
use archoncloud_go.Common.Numbers.{last_of}
use archoncloud_go.Common.ArchonUrl.{atoi}
use archoncloud_go.Common.ArchonUrl.Parse.{has_prefix}

pub record RpcContractParameter : Type 0 where
  pub typ : Bytes
  pub value : Bytes

-- A notification has a type and, if that is an array, the values in it.
pub record Notification : Type 0 where
  pub state_typ : Bytes
  pub state_values : List RpcContractParameter

pub record Execution : Type 0 where
  pub vm_state : Bytes
  pub stack : List RpcContractParameter
  pub notifications : List Notification

pub record Log : Type 0 where
  pub executions : List Execution

abbrev pub same_text : Bytes → Bytes → Bool
same_text [] [] = true
same_text (a ∷ xs) (b ∷ ys) = (a == b) && same_text xs ys
same_text _ _ = false

-- "ByteArray"
abbrev pub byte_array : Bytes
byte_array = 66 ∷ 121 ∷ 116 ∷ 101 ∷ 65 ∷ 114 ∷ 114 ∷ 97 ∷ 121 ∷ []

-- "Integer"
abbrev pub integer : Bytes
integer = 73 ∷ 110 ∷ 116 ∷ 101 ∷ 103 ∷ 101 ∷ 114 ∷ []

-- "Array"
abbrev pub array : Bytes
array = 65 ∷ 114 ∷ 114 ∷ 97 ∷ 121 ∷ []

-- "FAULT"
abbrev pub fault : Bytes
fault = 70 ∷ 65 ∷ 85 ∷ 76 ∷ 84 ∷ []

-- "Error"
abbrev pub error_prefix : Bytes
error_prefix = 69 ∷ 114 ∷ 114 ∷ 111 ∷ 114 ∷ []

-- "notification"
abbrev pub notification_key : Bytes
notification_key = 110 ∷ 111 ∷ 116 ∷ 105 ∷ 102 ∷ 105 ∷ 99 ∷ 97 ∷ 116 ∷ 105 ∷ 111 ∷ 110 ∷ []

-- "error"
abbrev pub error_key : Bytes
error_key = 101 ∷ 114 ∷ 114 ∷ 111 ∷ 114 ∷ []

abbrev pub nibble : ℕ → Option ℕ
nibble c =
    if leb 48 c && leb c 57
    then some (c - 48)
    else if leb 97 c && leb c 102
    then some (c - 87)
    else if leb 65 c && leb c 70
    then some (c - 55)
    else none

abbrev pub decoded_byte : Option ℕ → Option ℕ → Bytes → Bytes
decoded_byte (some hi) (some lo) rest = (16 * hi + lo) ∷ rest
decoded_byte _ _ rest = []

-- `hex.DecodeString`, the error left out: it returns the bytes before the first digit that is wrong.
unfoldable pub decode_string : Bytes → Bytes
decode_string (a ∷ b ∷ rest) = decoded_byte (nibble a) (nibble b) (decode_string rest)
decode_string _ = []

abbrev pub without_two : Bytes → Bytes
without_two (a ∷ b ∷ rest) = rest
without_two input = input

unfoldable pub string_to_bytes : Bytes → Bytes
unfolding decode_string
string_to_bytes input =
    if has_prefix input (48 ∷ 120 ∷ [])
    then decode_string (without_two input)
    else decode_string input

unfoldable pub hex_string_to_string : Bytes → Bytes
hex_string_to_string s = string_to_bytes s

abbrev pub top_of : List Execution → Option RpcContractParameter
top_of [] = none
top_of (e0 ∷ _) =
    let stack = e0.stack in elim stack [ [] ↦ none | item ∷ items ↦ some (last_of item items) ]

-- The last item on the stack of the first execution; a nil log is `none`.
unfoldable pub top_item : Option Log → Option RpcContractParameter
top_item none = none
top_item (some log) = top_of log.executions

module _ {A : Type 0} (f : RpcContractParameter → Result A) where
  abbrev pub process_item : Option RpcContractParameter → Result A
  process_item none = err no_return_value
  process_item (some item) = f item

  unfoldable pub process_response : Option Log → Result A
  process_response log = process_item (top_item log)

unfoldable pub int_from_response_log : Option Log → Result ℤ
unfolding atoi process_response
int_from_response_log =
    process_response
      (λ item. if same_text item.typ integer then atoi item.value else err returned_no_integer)

unfoldable pub string_from_response : Option Log → Result Bytes
unfolding hex_string_to_string process_response
string_from_response = process_response (λ item.
    if same_text item.typ byte_array
    then ok (hex_string_to_string item.value)
    else err returned_no_string)

unfoldable pub byte_slice_from_response : Option Log → Result Bytes
unfolding string_to_bytes process_response
byte_slice_from_response = process_response (λ item.
    if same_text item.typ byte_array
    then ok (string_to_bytes item.value)
    else err returned_no_byte_array)

unfoldable pub byte_slice_string_from_response : Option Log → Result Bytes
unfolding process_response
byte_slice_string_from_response =
    process_response
      (λ item. if same_text item.typ byte_array then ok item.value else err returned_no_byte_array)

-- `errorf` is fmt.Errorf of a format without operands, which writes the verbs of the text otherwise.
module _ (errorf : Bytes → Bytes) where
  abbrev pub error_of_item : Option RpcContractParameter → Option Error
  error_of_item none = none
  error_of_item (some top) =
      let s = hex_string_to_string top.value in
      if same_text top.typ byte_array && has_prefix s error_prefix
      then some (message (errorf s))
      else none

  unfoldable pub check_for_error_in_response : Option Log → Option Error
  unfolding hex_string_to_string top_item
  check_for_error_in_response log = error_of_item (top_item log)

unfoldable pub get_value : RpcContractParameter → Bytes
unfolding hex_string_to_string
get_value par = if same_text par.typ byte_array then hex_string_to_string par.value else []

-- The three results of a call that has ended, in which each may be nil or empty.
pub record TxResponse : Type 0 where
  pub log : Option Log
  pub notification : Bytes
  pub error : Option Error

abbrev pub failed : Error → TxResponse
failed e = record { log = none; notification = []; error = some e }

-- What a notification ends the call with, if its key is one of the two.
abbrev pub answer_of_values : Log → List RpcContractParameter → Option TxResponse
answer_of_values log (k ∷ v ∷ []) =
    if same_text (get_value k) notification_key
    then some (record { log = some log; notification = get_value v; error = none })
    else if same_text (get_value k) error_key
    then some (record { log = some log; notification = []; error = some (message (get_value v)) })
    else none
answer_of_values log _ = none

abbrev pub answer_of : Log → Notification → Option TxResponse
answer_of log n = if same_text n.state_typ array then answer_of_values log n.state_values else none

abbrev pub or_next : Option TxResponse → TxResponse → TxResponse
or_next none rest = rest
or_next (some answer) rest = answer

unfoldable pub first_answer : Log → List Notification → TxResponse
unfolding get_value
first_answer log [] = record { log = some log; notification = []; error = none }
first_answer log (n ∷ ns) = or_next (answer_of log n) (first_answer log ns)

abbrev pub response_of : Log → List Execution → TxResponse
response_of log [] = failed no_executions
response_of log (e ∷ _) =
    if same_text e.vm_state fault then failed neo_vm_fault else first_answer log e.notifications

-- What `GetApplicationLog` answered: the message of an error, or a log.
unfoldable pub get_tx_response : Bytes ⊎ Log → TxResponse
unfolding first_answer
get_tx_response (inl error_message) = failed (message error_message)
get_tx_response (inr log) = response_of log log.executions
