-- ===== src/TopUp/Callback.antt =====
-- utils/payment-callback.util.ts: a delivery of VNPay, of MoMo or in the documented shape, read into
-- one callback; and `decodeTopUpExtraData` of gateways/momo-signing.ts.
use Prim.Native.String.{◌++◌}
use mathlib.Core.Option
use ai_cinema_be.Common.{
  ◌≡◌, ℕ, ◌/◌, Bool, true, false, not, ◌&&◌, Option, none, some, List, [], ◌∷◌, String, str_eq,
  if◌then◌else◌,
}
use ai_cinema_be.Common.Int.{ℤ, pos, negsuc, eqb_ℤ}
use ai_cinema_be.Common.Text.{trim_text, is_empty_text, uuid_number, codes, lower_codes, same_codes}
use ai_cinema_be.Common.Transaction.{Result, ok, err}
use ai_cinema_be.Common.Errors.{bad_request, missing_signature, callback_invalid}
use ai_cinema_be.TopUp.Rows.{CallbackStatus, success, failed, cancelled}
use ai_cinema_be.TopUp.Lookup.{TopUpRef, canonical, other_case, malformed}

-- A field of a request. `fraction` is a number that is no integer, with its text; `composite` a list
-- or an object, with what `Number` makes of it where that is an integer.
pub data Value : Type 0 where
  text : String → Value
  number : ℤ → Value
  null : Value
  fraction : String → Value
  flag : Bool → Value
  composite : Option ℤ → Value

-- `Record<string, unknown>`: its fields in order. A field that is not there is `undefined`.
abbrev pub Raw : Type 0
Raw = List (String × Value)

unfoldable pub field : String → Raw → Option Value
field k [] = none
field k ((j, v) ∷ raw) = if str_eq j k then some v else field k raw

-- What the code calls of the JavaScript runtime: `Number` of a text that is trimmed and not empty,
-- where it is an integer; the object that a base64 text decodes to, where it is the JSON of one; the
-- instant of `new Date(text)`; and the text of an id, which no other id has.
pub record Runtime : Type 0 where
  pub integer_of : String → Option ℤ
  pub json_of_base64 : String → Option Raw
  pub date_of : String → Option ℕ
  pub text_of_id : ℕ → String
  pub text_of_id-inj : (i j : ℕ) → text_of_id i ≡ text_of_id j → i ≡ j

pub record GatewayCallback : Type 0 where
  pub event_id : String
  pub top_up_id : Option TopUpRef
  pub provider_txn_id : Option String
  pub amount_vnd : ℤ
  pub status : CallbackStatus
  pub provider_payment_id : Option String
  pub signature : String
  pub paid_at : Option ℕ

-- `a ?? b`
infixr 30 ◌or_if_none◌
abbrev pub ◌or_if_none◌ {ℓ} : {A : Type ℓ} → Option A → Option A → Option A
none or_if_none b = b
some a or_if_none b = some a

abbrev pub if_not_empty : String → Option String
if_not_empty s = if is_empty_text s then none else some s

unfoldable pub text_of : Option Value → Option String
unfolding trim_text
text_of (some (text s)) = if_not_empty (trim_text s)
text_of _ = none

unfoldable pub int_of : Runtime → Option Value → Option ℤ
unfolding trim_text
int_of js (some (number n)) = some n
int_of js (some (text s)) = Option.bind (if_not_empty (trim_text s)) js.integer_of
int_of js _ = none

abbrev is_zero : Option ℤ → Bool
is_zero none = false
is_zero (some n) = eqb_ℤ n (pos 0)

-- `Number(value) === 0`: an empty text, `null` and `false` are 0.
unfoldable pub is_number_zero : Runtime → Value → Bool
unfolding trim_text
is_number_zero js (text s) =
    let t = trim_text s in if is_empty_text t then true else is_zero (js.integer_of t)
is_number_zero js (number n) = eqb_ℤ n (pos 0)
is_number_zero js (fraction s) = false
is_number_zero js null = true
is_number_zero js (flag b) = not b
is_number_zero js (composite n) = is_zero n

-- `Math.floor(n / 100)`
abbrev pub hundredth : ℤ → ℤ
hundredth (pos n) = pos (n / 100)
hundredth (negsuc n) = negsuc (n / 100)

-- `value === '00'`
abbrev pub is_done_code : Value → Bool
is_done_code (text s) = str_eq s "00"
is_done_code _ = false

abbrev absent_or_done : Option Value → Bool
absent_or_done none = true
absent_or_done (some v) = is_done_code v

-- A text that is a uuid, in the database's spelling if it has no capital.
unfoldable pub ref_of : String → TopUpRef
unfolding uuid_number same_codes
ref_of s = elim (uuid_number s) [
  | none ↦ malformed
  | some id ↦ if same_codes (codes s) (lower_codes (codes s)) then canonical id else other_case id
]

-- The reference that an object carries, where it is a text that is not empty.
abbrev carried : Option Value → Option TopUpRef
carried (some (text s)) = if is_empty_text s then none else some (ref_of s)
carried _ = none

unfoldable pub decode_top_up_extra_data : Runtime → Option String → Option TopUpRef
unfolding field ref_of
decode_top_up_extra_data js none = none
decode_top_up_extra_data js (some s) =
    Option.bind (js.json_of_base64 s) (λ o. carried (field "topUpId" o))

-- The verdict of VNPay: done only if both codes read '00'.
unfoldable pub vnp_status : Raw → Option CallbackStatus
unfolding field
vnp_status raw = elim (field "vnp_ResponseCode" raw) [
  | none ↦ none
  | some code ↦ some (
      if is_done_code code && absent_or_done (field "vnp_TransactionStatus" raw)
      then success
      else failed)
]

abbrev says : String → String → Bool
says word s = same_codes (lower_codes (codes s)) (codes word)

-- The status of the documented shape, in any case.
unfoldable pub raw_status : Option String → Option CallbackStatus
unfolding same_codes
raw_status none = none
raw_status (some s) =
    if says "success" s
    then some success
    else if says "failed" s
    then some failed
    else if says "cancelled" s
    then some cancelled
    else none

unfoldable pub status_of : Runtime → Raw → Option CallbackStatus
unfolding field text_of raw_status vnp_status is_number_zero
status_of js raw =
    raw_status (text_of (field "status" raw))
    or_if_none vnp_status raw
    or_if_none Option.map (λ v. if is_number_zero js v then success else failed)
        (field "resultCode" raw)

-- `vnpFallback`: the order's reference and the verdict of the gateway.
unfoldable pub vnp_fallback : Raw → Option String
unfolding field text_of
vnp_fallback raw =
    Option.bind (text_of (field "vnp_TxnRef" raw))
      (λ txn. Option.map (λ code. txn ++ ":" ++ code) (text_of (field "vnp_ResponseCode" raw)))

unfoldable pub event_id_of : Raw → Option String
unfolding field text_of vnp_fallback
event_id_of raw =
    text_of (field "eventId" raw)
    or_if_none text_of (field "vnp_TransactionNo" raw)
    or_if_none vnp_fallback raw
    or_if_none text_of (field "transId" raw)
    or_if_none text_of (field "transactionId" raw)

unfoldable pub amount_of : Runtime → Raw → Option ℤ
unfolding field int_of
amount_of js raw =
    int_of js (field "amountVnd" raw)
    or_if_none Option.map hundredth (int_of js (field "vnp_Amount" raw))
    or_if_none int_of js (field "amount" raw)

unfoldable pub signature_of : Raw → Option String
unfolding field text_of
signature_of raw =
    text_of (field "signature" raw)
    or_if_none text_of (field "vnp_SecureHash" raw)
    or_if_none text_of (field "mac" raw)

unfoldable pub provider_txn_of : Raw → Option String
unfolding field text_of
provider_txn_of raw =
    text_of (field "providerTxnId" raw)
    or_if_none text_of (field "vnp_TxnRef" raw)
    or_if_none text_of (field "orderId" raw)

-- The event id, the amount and the status that a callback must have.
abbrev required_parts : Runtime → Raw → Option (String × ℤ × CallbackStatus)
required_parts js raw =
    Option.bind (event_id_of raw)
      (λ e. Option.bind (amount_of js raw) (λ a. Option.map (λ t. (e, a, t)) (status_of js raw)))

-- The callback of a request with these parts.
abbrev pub callback_of : Runtime → Raw → String → String × ℤ × CallbackStatus → GatewayCallback
callback_of js raw signature p = record {
  event_id = p.0;
  top_up_id =
      Option.map ref_of (text_of (field "topUpId" raw))
      or_if_none decode_top_up_extra_data js (text_of (field "extraData" raw));
  provider_txn_id = provider_txn_of raw;
  amount_vnd = p.1;
  status = p.2;
  provider_payment_id =
      text_of (field "providerPaymentId" raw)
      or_if_none text_of (field "vnp_TransactionNo" raw)
      or_if_none text_of (field "transId" raw);
  signature = signature;
  paid_at = Option.bind (text_of (field "paidAt" raw)) js.date_of;
}

unfoldable pub normalize_callback : Runtime → Raw → Result GatewayCallback
normalize_callback js raw = elim (signature_of raw) [
  | none ↦ err (bad_request missing_signature)
  | some signature ↦ elim (required_parts js raw) [
    | none ↦ err (bad_request callback_invalid)
    | some p ↦ ok (callback_of js raw signature p)
  ]
]
