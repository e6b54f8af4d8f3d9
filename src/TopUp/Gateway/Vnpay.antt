-- ===== src/TopUp/Gateway/Vnpay.antt =====
-- gateways/vnpay-signing.ts: the query that VNPay signs, its fields sorted and encoded.
use Prim.Native.String.{◌++◌}
use ai_cinema_be.Common.{
  ℕ, Bool, true, false, ◌&&◌, ◌||◌, Option, none, some, String, List, [], ◌∷◌, str_eq, map,
  if◌then◌else◌, ◌==◌,
}
use ai_cinema_be.Common.Lists.{length}
use ai_cinema_be.Common.Text.{codes, hex_digit}
use ai_cinema_be.TopUp.Callback.{Raw, Value, text, number, fraction, null, flag, composite, field}
use ai_cinema_be.TopUp.Gateway.Crypto.{Platform, secure_compare, join, is_below}

-- `Record<string, string>`
abbrev pub Params : Type 0
Params = List (String × String)

-- A blank becomes `+`: `encodeURIComponent(value).replace(/%20/g, '+')`, on the code points.
unfoldable pub plus_for_blank : String → String
plus_for_blank String.[] = String.[]
plus_for_blank (String.◌∷◌ c String.[]) = String.◌∷◌ c String.[]
plus_for_blank (String.◌∷◌ c (String.◌∷◌ d String.[])) = String.◌∷◌ c (String.◌∷◌ d String.[])
plus_for_blank (String.◌∷◌ c (String.◌∷◌ d (String.◌∷◌ e s))) =
    let shorter = plus_for_blank s in
    let longer = plus_for_blank (String.◌∷◌ d (String.◌∷◌ e s)) in
    if str_eq (String.◌∷◌ c (String.◌∷◌ d (String.◌∷◌ e String.[]))) "%20"
    then "+" ++ shorter
    else String.◌∷◌ c longer

-- `sort()` of the names of the fields.
unfoldable pub place_field : String × String → Params → Params
unfolding is_below
place_field f [] = f ∷ []
place_field f (g ∷ gs) =
    let rest = place_field f gs in if is_below (codes g.0) (codes f.0) then g ∷ rest else f ∷ g ∷ gs

unfoldable pub sort_fields : Params → Params
unfolding place_field
sort_fields [] = []
sort_fields (f ∷ fs) = place_field f (sort_fields fs)

-- `vnp_SecureHash` is 128 hexadecimal digits.
abbrev all_hex : List ℕ → Bool
all_hex [] = true
all_hex (c ∷ cs) = elim (hex_digit c) [ none ↦ false | some d ↦ all_hex cs ]

unfoldable pub is_hash : String → Bool
is_hash s = length (codes s) == 128 && all_hex (codes s)

abbrev pub is_hash_field : String → Bool
is_hash_field k = str_eq k "vnp_SecureHash" || str_eq k "vnp_SecureHashType"

module _ (js : Platform) where
  unfoldable pub encode_vnp_value : String → String
  encode_vnp_value s = plus_for_blank (js.encode_uri_component s)

  abbrev pub encoded_pair : String × String → String
  encoded_pair f = encode_vnp_value f.0 ++ "=" ++ encode_vnp_value f.1

  -- The text that is signed, and the query of the link.
  unfoldable pub vnpay_query : Params → String
  vnpay_query params = join "&" (map encoded_pair (sort_fields params))

  unfoldable pub sign_vnpay_params : Params → String → String
  sign_vnpay_params params secret = js.hmac_sha512_hex secret (vnpay_query params)

  unfoldable pub build_vnpay_pay_url : String → Params → String → String
  build_vnpay_pay_url pay_url params secret =
      pay_url ++ "?" ++ vnpay_query params ++ "&vnp_SecureHash=" ++ sign_vnpay_params params secret

  -- `String(value)` of a field that may be signed; `none` for what is refused outright.
  abbrev pub signed_text : Value → Option String
  signed_text (text s) = some s
  signed_text (number n) = some (js.text_of_integer n)
  signed_text (fraction s) = some s
  signed_text (flag true) = some "true"
  signed_text (flag false) = some "false"
  signed_text null = none
  signed_text (composite n) = none

  abbrev with_field : String → Option String → Option Params → Option Params
  with_field k none rest = none
  with_field k (some s) none = none
  with_field k (some s) (some params) = some ((k, s) ∷ params)

  abbrev is_null : Value → Bool
  is_null null = true
  is_null _ = false

  -- The fields of a query that were signed: all but the hash, and none that is ambiguous.
  unfoldable pub signed_fields : Raw → Option Params
  signed_fields [] = some []
  signed_fields ((k, v) ∷ query) =
      let rest = signed_fields query in
      if is_hash_field k || is_null v then rest else with_field k (signed_text v) rest

  abbrev checked : Option Params → String → String → Bool
  checked none received secret = false
  checked (some params) received secret = secure_compare (sign_vnpay_params params secret) received

  abbrev verify_received : Option Value → Raw → String → Bool
  verify_received (some (text received)) query secret =
      is_hash received && checked (signed_fields query) received secret
  verify_received _ query secret = false

  unfoldable pub verify_vnpay_signature : Raw → String → Bool
  unfolding field
  verify_vnpay_signature query secret = verify_received (field "vnp_SecureHash" query) query secret
