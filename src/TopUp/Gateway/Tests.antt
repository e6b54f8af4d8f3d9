-- ===== src/TopUp/Gateway/Tests.antt =====
-- The theorems on the gateways at one delivery of MoMo and one link of VNPay.
use mathlib.Core.Option
use ai_cinema_be.Common.{◌≡◌, refl, true, none, some, String, [], ◌∷◌}
use ai_cinema_be.Common.Int.{pos}
use ai_cinema_be.Common.Transaction.{ok}
use ai_cinema_be.TopUp.Rows.{success, failed, momo}
use ai_cinema_be.TopUp.Callback.{
  Raw, signature_of, event_id_of, amount_of, status_of, provider_txn_of, decode_top_up_extra_data,
  field, int_of, is_number_zero, raw_status, text_of, vnp_fallback, vnp_status, GatewayCallback,
  text, number, normalize_callback, callback_of,
}
use ai_cinema_be.TopUp.Sample.{runtime}
use ai_cinema_be.TopUp.Gateway.Config.{MomoConfig, VnpayConfig, Readings}
use ai_cinema_be.TopUp.Gateway.Crypto.{Platform, unreachable}
use ai_cinema_be.TopUp.Gateway.Service.{verify_callback_signature}
use ai_cinema_be.TopUp.Gateway.Vnpay.{Params, sign_vnpay_params, is_hash, verify_vnpay_signature}
use ai_cinema_be.TopUp.Gateway.Forgery.{forged, momo_unsigned_fields}
use ai_cinema_be.TopUp.Gateway.Signed.{query_of, verify-sign}
use ai_cinema_be.Common.Text.{trim_left, trim_right, trim_text}
use ai_cinema_be.Common.Words.{is_space}

abbrev momo_cfg : MomoConfig
momo_cfg = record {
  partner_code = "P";
  access_key = "A";
  secret_key = "K";
  create_url = "https://momo/create";
  status_url = "https://momo/query";
  redirect_url = "https://back";
  ipn_url = "https://ipn";
  request_type = "captureWallet";
}

abbrev vnpay_cfg : VnpayConfig
vnpay_cfg = record {
  tmn_code = "T";
  hash_secret = "K";
  pay_url = "https://vnpay/pay";
  api_url = "https://vnpay/api";
  return_url = "https://back";
  ipn_url = "";
}

abbrev digest : String
digest =
    "0123456789abcdef0123456789abcdef0123456789abcdef0123456789abcdef0123456789abcdef0123456789abcdef0123456789abcdef0123456789abcdef"

abbrev platform : Platform
platform = record {
  hmac_sha256_hex = λ key s. "d1";
  hmac_sha512_hex = λ key s. digest;
  encode_uri_component = λ s. s;
  text_of_integer = λ n. "50000";
  base64_json_of_order = λ id. "e30=";
  post = λ url body. unreachable;
}

abbrev readings : Readings
readings = record {
  text_of_value = λ v. "";
  integer_of_value = λ v. none;
  hundredth_of_value = λ v. none;
  instant_of_value = λ v. none;
  format_vnp_date_time = λ t. "20260101000000";
  parse_vnp_date_time = λ v. none;
}

-- MoMo reports that the payment of the attempt MOMO-A failed, and signs it.
abbrev failed_delivery : Raw
failed_delivery =
    ("orderId", text "MOMO-A")
    ∷ ("transId", text "77")
    ∷ ("amount", number (pos 10_000))
    ∷ ("resultCode", number (pos 1006))
    ∷ ("signature", text "d1")
    ∷ []

failed_read :
    normalize_callback runtime failed_delivery
    ≡ ok (callback_of runtime failed_delivery "d1" ("77", pos 10_000, failed))
unfolding Option.bind normalize_callback signature_of event_id_of amount_of status_of
    provider_txn_of decode_top_up_extra_data field int_of is_number_zero raw_status text_of
    vnp_fallback vnp_status trim_left trim_right trim_text is_space
failed_read = refl

momo_unsigned_fields_example :
    (verify_callback_signature momo_cfg vnpay_cfg platform readings momo
        (forged "E2" "MOMO-B" (pos 5_000_000) failed_delivery)
      ≡ verify_callback_signature momo_cfg vnpay_cfg platform readings momo failed_delivery)
    × (d : GatewayCallback) × (normalize_callback runtime
          (forged "E2" "MOMO-B" (pos 5_000_000) failed_delivery)
        ≡ ok d)
    × (d.status ≡ success)
    × (d.amount_vnd ≡ pos 5_000_000)
    × (d.provider_txn_id ≡ some "MOMO-B")
unfolding trim_left trim_right trim_text is_space
momo_unsigned_fields_example =
    momo_unsigned_fields momo_cfg vnpay_cfg platform readings runtime "E2" "MOMO-B" (pos 5_000_000)
      failed_delivery (callback_of runtime failed_delivery "d1" ("77", pos 10_000, failed)) refl
      refl refl refl failed_read

abbrev link_params : Params
link_params = ("vnp_TxnRef", "T1") ∷ ("vnp_Amount", "5000000") ∷ []

verify-sign_example :
    verify_vnpay_signature platform
      (query_of link_params (sign_vnpay_params platform link_params "K"))
      "K"
    ≡ true
unfolding is_hash sign_vnpay_params
verify-sign_example = verify-sign platform link_params "K" (refl, (refl, tt)) refl
