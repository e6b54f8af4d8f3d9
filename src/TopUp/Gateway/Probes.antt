-- ===== src/TopUp/Gateway/Probes.antt =====
-- The probes of a silent attempt in gateways/payment-gateway.service.ts.
use Prim.Native.String.{◌++◌}
use mathlib.Core.Option
use ai_cinema_be.Common.{ℕ, not, ◌&&◌, some, String, [], ◌∷◌, if◌then◌else◌}
use ai_cinema_be.Common.Errors.{
  unprocessable, bad_gateway, provider_not_configured, gateway_unreachable,
}
use ai_cinema_be.Common.Transaction.{Result, ok, err}
use ai_cinema_be.TopUp.Rows.{PaymentProvider, vnpay, momo}
use ai_cinema_be.TopUp.Callback.{Raw, text, field}
use ai_cinema_be.TopUp.Opening.{Outcome, ReconcileOutcome}
use ai_cinema_be.TopUp.Gateway.Crypto.{Platform, Fetched, join}
use ai_cinema_be.TopUp.Gateway.Momo.{momo_status_raw_signature}
use ai_cinema_be.TopUp.Gateway.Config.{
  unknown_outcome, is_zero_code, has_done_code, MomoConfig, VnpayConfig, Readings, is_configured,
}

module _ (momo_cfg : MomoConfig) (vnpay_cfg : VnpayConfig) (js : Platform) (rd : Readings) where
  -- The body of MoMo's status query.
  unfoldable pub momo_status_body : String → Raw
  momo_status_body txn =
      ("partnerCode", text momo_cfg.partner_code)
      ∷ ("requestId", text txn)
      ∷ ("orderId", text txn)
      ∷ (
        "signature",
        text (
            js.hmac_sha256_hex momo_cfg.secret_key (
              momo_status_raw_signature js (record {
                access_key = momo_cfg.access_key;
                partner_code = momo_cfg.partner_code;
                order_id = txn;
                request_id = txn;
              }))),
      )
      ∷ ("lang", text "vi")
      ∷ []

  unfoldable pub momo_outcome : Fetched → Result ReconcileOutcome
  unfolding field
  momo_outcome Fetched.unreachable = err (bad_gateway gateway_unreachable)
  momo_outcome (Fetched.refused n) = err (bad_gateway gateway_unreachable)
  momo_outcome (Fetched.answered answer) =
      if is_zero_code (field "resultCode" answer)
      then ok (record {
        outcome = Outcome.paid;
        provider_payment_id = Option.map rd.text_of_value (field "transId" answer);
        amount_vnd = Option.map rd.integer_of_value (field "amount" answer);
        paid_at = Option.bind (field "responseTime" answer) rd.instant_of_value;
      })
      else ok unknown_outcome

  -- `vnpayQuerydrRawSignature`
  unfoldable pub vnpay_querydr_raw_signature : String → String → ℕ → ℕ → String
  vnpay_querydr_raw_signature request_id txn reference_date now = join "|" (
      request_id
      ∷ "2.1.0"
      ∷ "querydr"
      ∷ vnpay_cfg.tmn_code
      ∷ txn
      ∷ rd.format_vnp_date_time reference_date
      ∷ rd.format_vnp_date_time now
      ∷ "127.0.0.1"
      ∷ ("Query " ++ txn)
      ∷ [])

  -- The body of VNPay's query; `stamp` is the instant in base 36.
  unfoldable pub vnpay_query_body : String → ℕ → ℕ → String → Raw
  unfolding vnpay_querydr_raw_signature
  vnpay_query_body txn reference_date now stamp =
      let request_id = txn ++ "-" ++ stamp in
      ("vnp_RequestId", text request_id)
      ∷ ("vnp_Version", text "2.1.0")
      ∷ ("vnp_Command", text "querydr")
      ∷ ("vnp_TmnCode", text vnpay_cfg.tmn_code)
      ∷ ("vnp_TxnRef", text txn)
      ∷ ("vnp_OrderInfo", text ("Query " ++ txn))
      ∷ ("vnp_TransactionDate", text (rd.format_vnp_date_time reference_date))
      ∷ ("vnp_CreateDate", text (rd.format_vnp_date_time now))
      ∷ ("vnp_IpAddr", text "127.0.0.1")
      ∷ (
        "vnp_SecureHash",
        text (
            js.hmac_sha512_hex vnpay_cfg.hash_secret
              (vnpay_querydr_raw_signature request_id txn reference_date now)),
      )
      ∷ []

  unfoldable pub vnpay_outcome : Fetched → Result ReconcileOutcome
  unfolding field
  vnpay_outcome Fetched.unreachable = err (bad_gateway gateway_unreachable)
  vnpay_outcome (Fetched.refused n) = err (bad_gateway gateway_unreachable)
  vnpay_outcome (Fetched.answered answer) =
      if has_done_code (field "vnp_ResponseCode" answer)
        && has_done_code (field "vnp_TransactionStatus" answer)
      then ok (record {
        outcome = Outcome.paid;
        provider_payment_id = Option.map rd.text_of_value (field "vnp_TransactionNo" answer);
        amount_vnd =
            Option.map some (Option.bind (field "vnp_Amount" answer) rd.hundredth_of_value);
        paid_at = rd.parse_vnp_date_time (field "vnp_PayDate" answer);
      })
      else ok unknown_outcome

  unfoldable pub query_vnpay_transaction : String → ℕ → ℕ → String → Result ReconcileOutcome
  unfolding is_configured vnpay_query_body vnpay_outcome
  query_vnpay_transaction txn reference_date now stamp =
      if not (is_configured momo_cfg vnpay_cfg vnpay)
      then err (unprocessable provider_not_configured)
      else vnpay_outcome (js.post vnpay_cfg.api_url (vnpay_query_body txn reference_date now stamp))

  unfoldable pub reconcile_payment :
      PaymentProvider → String → ℕ → ℕ → String → Result ReconcileOutcome
  unfolding is_configured momo_outcome momo_status_body query_vnpay_transaction
  reconcile_payment vnpay txn reference_date now stamp =
      query_vnpay_transaction txn reference_date now stamp
  reconcile_payment momo txn reference_date now stamp =
      if not (is_configured momo_cfg vnpay_cfg momo)
      then ok unknown_outcome
      else momo_outcome (js.post momo_cfg.status_url (momo_status_body txn))
