-- ===== src/TopUp/Gateway/Links.antt =====
-- The payment links of gateways/payment-gateway.service.ts.
use Prim.Native.String.{◌++◌}
use ai_cinema_be.Common.{ℕ, ◌+◌, ◌*◌, true, not, String, [], ◌∷◌, if◌then◌else◌}
use ai_cinema_be.Common.Text.{is_empty_text}
use ai_cinema_be.Common.Errors.{
  unprocessable, bad_gateway, provider_not_configured, gateway_unreachable,
}
use ai_cinema_be.Common.Transaction.{Result, ok, err}
use ai_cinema_be.TopUp.Rows.{vnpay, momo}
use ai_cinema_be.TopUp.Callback.{Raw, text, flag, field}
use ai_cinema_be.TopUp.Opening.{LinkRequest}
use ai_cinema_be.TopUp.Gateway.Crypto.{Platform, Fetched}
use ai_cinema_be.TopUp.Gateway.Momo.{momo_create_raw_signature}
use ai_cinema_be.TopUp.Gateway.Vnpay.{Params, build_vnpay_pay_url}
use ai_cinema_be.TopUp.Gateway.Config.{
  or_default, or_instant, is_zero_code, pay_url_of, times_hundred, ipn_param, MomoConfig,
  VnpayConfig, Readings, is_configured,
}

module _ (momo_cfg : MomoConfig) (vnpay_cfg : VnpayConfig) (js : Platform) (rd : Readings) where
  -- The fields of a VNPay link; the amount is sent times 100.
  unfoldable pub vnpay_params : LinkRequest → ℕ → Params
  vnpay_params r now =
      ("vnp_Version", "2.1.0")
      ∷ ("vnp_Command", "pay")
      ∷ ("vnp_TmnCode", vnpay_cfg.tmn_code)
      ∷ ("vnp_Amount", js.text_of_integer (times_hundred r.amount_vnd))
      ∷ ("vnp_CurrCode", "VND")
      ∷ ("vnp_TxnRef", r.provider_txn_id)
      ∷ ("vnp_OrderInfo", or_default r.order_info ("Nap-Coin-" ++ r.provider_txn_id))
      ∷ ("vnp_OrderType", "other")
      ∷ ("vnp_Locale", "vn")
      ∷ ("vnp_ReturnUrl", vnpay_cfg.return_url)
      ∷ ("vnp_IpAddr", or_default r.client_ip "127.0.0.1")
      ∷ ("vnp_CreateDate", rd.format_vnp_date_time now)
      ∷ ("vnp_ExpireDate", rd.format_vnp_date_time (or_instant r.expires_at (now + 15 * 60_000)))
      ∷ ipn_param vnpay_cfg.ipn_url

  unfoldable pub create_vnpay_payment_url : LinkRequest → ℕ → Result String
  unfolding is_configured
  create_vnpay_payment_url r now =
      if not (is_configured momo_cfg vnpay_cfg vnpay)
      then err (unprocessable provider_not_configured)
      else if is_empty_text vnpay_cfg.return_url
      then err (unprocessable provider_not_configured)
      else ok (build_vnpay_pay_url js vnpay_cfg.pay_url (vnpay_params r now) vnpay_cfg.hash_secret)

  unfoldable pub momo_order_info : LinkRequest → String
  momo_order_info r =
      or_default r.order_info ("Nap " ++ js.text_of_integer r.amount_vnd ++ " VND mua Coin")

  -- The body of the create-order call.
  unfoldable pub momo_payload : LinkRequest → Raw
  unfolding momo_order_info
  momo_payload r =
      ("partnerCode", text momo_cfg.partner_code)
      ∷ ("accessKey", text momo_cfg.access_key)
      ∷ ("orderId", text r.provider_txn_id)
      ∷ ("requestId", text r.provider_txn_id)
      ∷ ("amount", text (js.text_of_integer r.amount_vnd))
      ∷ ("orderInfo", text (momo_order_info r))
      ∷ ("redirectUrl", text momo_cfg.redirect_url)
      ∷ ("ipnUrl", text momo_cfg.ipn_url)
      ∷ ("lang", text "vi")
      ∷ ("requestType", text momo_cfg.request_type)
      ∷ ("autoCapture", flag true)
      ∷ ("extraData", text (js.base64_json_of_order r.top_up_id))
      ∷ (
        "signature",
        text (
            js.hmac_sha256_hex momo_cfg.secret_key (
              momo_create_raw_signature js (record {
                access_key = momo_cfg.access_key;
                partner_code = momo_cfg.partner_code;
                order_id = r.provider_txn_id;
                request_id = r.provider_txn_id;
                amount_vnd = r.amount_vnd;
                order_info = momo_order_info r;
                redirect_url = momo_cfg.redirect_url;
                ipn_url = momo_cfg.ipn_url;
                extra_data = js.base64_json_of_order r.top_up_id;
                request_type = momo_cfg.request_type;
              }))),
      )
      ∷ []

  unfoldable pub momo_link : Fetched → Result String
  unfolding field
  momo_link Fetched.unreachable = err (bad_gateway gateway_unreachable)
  momo_link (Fetched.refused n) = err (bad_gateway gateway_unreachable)
  momo_link (Fetched.answered answer) =
      if is_zero_code (field "resultCode" answer)
      then pay_url_of (field "payUrl" answer)
      else err (bad_gateway gateway_unreachable)

  unfoldable pub create_momo_payment_url : LinkRequest → Result String
  unfolding is_configured momo_link momo_payload
  create_momo_payment_url r =
      if not (is_configured momo_cfg vnpay_cfg momo)
      then err (unprocessable provider_not_configured)
      else if is_empty_text momo_cfg.redirect_url
      then err (unprocessable provider_not_configured)
      else if is_empty_text momo_cfg.ipn_url
      then err (unprocessable provider_not_configured)
      else momo_link (js.post momo_cfg.create_url (momo_payload r))

  unfoldable pub create_payment_url : LinkRequest → ℕ → Result String
  create_payment_url r now = elim r.provider [
    | vnpay ↦ create_vnpay_payment_url r now
    | momo ↦ create_momo_payment_url r
  ]
