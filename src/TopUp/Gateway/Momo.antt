-- ===== src/TopUp/Gateway/Momo.antt =====
-- gateways/momo-signing.ts: the texts that MoMo signs, in MoMo's order of the fields.
use Prim.Native.String.{◌++◌}
use ai_cinema_be.Common.{Bool, Option, some, String}
use ai_cinema_be.Common.Int.{ℤ}
use ai_cinema_be.TopUp.Callback.{Raw, Value, text, number, fraction, field}
use ai_cinema_be.TopUp.Gateway.Crypto.{Platform, secure_compare}

pub record MomoCreateParams : Type 0 where
  pub access_key : String
  pub partner_code : String
  pub order_id : String
  pub request_id : String
  pub amount_vnd : ℤ
  pub order_info : String
  pub redirect_url : String
  pub ipn_url : String
  pub extra_data : String
  pub request_type : String

pub record MomoStatusParams : Type 0 where
  pub access_key : String
  pub partner_code : String
  pub order_id : String
  pub request_id : String

module _ (js : Platform) where
  unfoldable pub momo_create_raw_signature : MomoCreateParams → String
  momo_create_raw_signature p =
      "accessKey="
      ++ p.access_key
      ++ "&amount="
      ++ js.text_of_integer p.amount_vnd
      ++ "&extraData="
      ++ p.extra_data
      ++ "&ipnUrl="
      ++ p.ipn_url
      ++ "&orderId="
      ++ p.order_id
      ++ "&orderInfo="
      ++ p.order_info
      ++ "&partnerCode="
      ++ p.partner_code
      ++ "&redirectUrl="
      ++ p.redirect_url
      ++ "&requestId="
      ++ p.request_id
      ++ "&requestType="
      ++ p.request_type

  -- `stringifyIpnValue`
  unfoldable pub stringify_ipn_value : Option Value → String
  stringify_ipn_value (some (text s)) = s
  stringify_ipn_value (some (number n)) = js.text_of_integer n
  stringify_ipn_value (some (fraction s)) = s
  stringify_ipn_value _ = ""

  -- The text that a delivery must have been signed over.
  unfoldable pub momo_ipn_raw_signature : Raw → String → String
  unfolding field stringify_ipn_value
  momo_ipn_raw_signature body access_key =
      "accessKey="
      ++ access_key
      ++ "&amount="
      ++ stringify_ipn_value (field "amount" body)
      ++ "&extraData="
      ++ stringify_ipn_value (field "extraData" body)
      ++ "&message="
      ++ stringify_ipn_value (field "message" body)
      ++ "&orderId="
      ++ stringify_ipn_value (field "orderId" body)
      ++ "&orderInfo="
      ++ stringify_ipn_value (field "orderInfo" body)
      ++ "&orderType="
      ++ stringify_ipn_value (field "orderType" body)
      ++ "&partnerCode="
      ++ stringify_ipn_value (field "partnerCode" body)
      ++ "&payType="
      ++ stringify_ipn_value (field "payType" body)
      ++ "&requestId="
      ++ stringify_ipn_value (field "requestId" body)
      ++ "&responseTime="
      ++ stringify_ipn_value (field "responseTime" body)
      ++ "&resultCode="
      ++ stringify_ipn_value (field "resultCode" body)
      ++ "&transId="
      ++ stringify_ipn_value (field "transId" body)

  unfoldable pub verify_momo_ipn_signature : Raw → String → String → Bool
  unfolding momo_ipn_raw_signature field stringify_ipn_value
  verify_momo_ipn_signature body access_key secret_key =
      secure_compare (js.hmac_sha256_hex secret_key (momo_ipn_raw_signature body access_key))
        (stringify_ipn_value (field "signature" body))

  unfoldable pub momo_status_raw_signature : MomoStatusParams → String
  momo_status_raw_signature p =
      "accessKey=" ++ p.access_key ++ "&orderId=" ++ p.order_id ++ "&partnerCode=" ++ p.partner_code
      ++ "&requestId=" ++ p.request_id
