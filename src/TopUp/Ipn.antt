-- ===== src/TopUp/Ipn.antt =====
-- `peekAttempt` and `handleVnpayIpn` of coin-topup.service.ts: what VNPay is told.
use ai_cinema_be.Common.{false, true, Bool, ℕ, Option, none, some, String, if◌then◌else◌, not}
use ai_cinema_be.Common.Text.{is_empty_text}
use ai_cinema_be.Common.Table.{find_row}
use ai_cinema_be.Common.Errors.{
  Error, bad_request, not_found, unprocessable, amount_mismatch, top_up_already_settled,
}
use ai_cinema_be.Common.Transaction.{Result, ok, err}
use ai_cinema_be.Common.Action.{Action, done, fail, reads, attempt, ◌>>=◌}
use ai_cinema_be.Settings.{PlatformSetting}
use ai_cinema_be.Wallet.Rows.{Database}
use ai_cinema_be.TopUp.Rows.{
  CoinTopUp, Payment, Orders, OrderView, PaymentProvider, vnpay, TopUpStatus, is_paid,
  top_up_has_id,
}
use ai_cinema_be.TopUp.Lookup.{attempt_by_txn}
use ai_cinema_be.TopUp.Callback.{Raw, Runtime, Value, field}
use ai_cinema_be.TopUp.Opening.{Gateways}
use ai_cinema_be.TopUp.Webhook.{handle_callback}

-- `{ RspCode, Message }`, with the codes of `VNPAY_RSP`.
pub record IpnAnswer : Type 0 where
  pub rsp_code : String
  pub message : String

abbrev pub ipn : String → String → IpnAnswer
ipn code message = record { rsp_code = code; message = message }

abbrev with_its_order : Payment → Option CoinTopUp → Option (Payment × CoinTopUp)
with_its_order p none = none
with_its_order p (some o) = some (p, o)

abbrev attempt_and_order : Option Payment → Orders → Option (Payment × CoinTopUp)
attempt_and_order none st = none
attempt_and_order (some p) st = with_its_order p (find_row p.coin_top_up_id st.top_ups)

unfoldable pub peek_attempt : PaymentProvider → String → Orders → Option (Payment × CoinTopUp)
peek_attempt provider txn st = attempt_and_order (attempt_by_txn provider txn st) st

-- A text that is not empty, as it is.
abbrev pub txn_ref : Option Value → Option String
txn_ref (some (Value.text s)) = if is_empty_text s then none else some s
txn_ref _ = none

abbrev pub is_order_paid : TopUpStatus → Bool
is_order_paid TopUpStatus.paid = true
is_order_paid _ = false

-- The answer to an error of the delivery; others are thrown on.
unfoldable pub answer_error : Error → Action Orders IpnAnswer
answer_error (not_found _) = done (ipn "01" "Order not found")
answer_error (unprocessable amount_mismatch) = done (ipn "04" "Invalid amount")
answer_error (unprocessable top_up_already_settled) = done (ipn "02" "Order already confirmed")
answer_error (bad_request _) = done (ipn "99" "Invalid request")
answer_error e = fail e

unfoldable pub answer_delivery : Result OrderView → Action Orders IpnAnswer
answer_delivery (ok view) = done (
    if is_order_paid view.status
    then ipn "00" "Confirm Success"
    else ipn "00" "Received and recorded")
answer_delivery (err e) = answer_error e

module _ (db : Database) (s : PlatformSetting) (g : Gateways) (js : Runtime) where
  unfoldable pub answer_attempt : Option (Payment × CoinTopUp) → Raw → ℕ → Action Orders IpnAnswer
  answer_attempt none raw now = done (ipn "01" "Order not found")
  answer_attempt (some found) raw now =
      if is_paid found.0.status
      then done (ipn "02" "Order already confirmed")
      else do tried ← attempt (handle_callback db s g js vnpay raw now); answer_delivery tried

  unfoldable pub answer_ref : Option String → Raw → ℕ → Action Orders IpnAnswer
  answer_ref none raw now = done (ipn "99" "Missing order reference")
  answer_ref (some txn) raw now = do
    found ← reads (peek_attempt vnpay txn)
    answer_attempt found raw now

  unfoldable pub handle_vnpay_ipn : Raw → ℕ → Action Orders IpnAnswer
  handle_vnpay_ipn raw now =
      if not (g.verify_callback_signature vnpay raw)
      then done (ipn "97" "Invalid checksum")
      else answer_ref (txn_ref (field "vnp_TxnRef" raw)) raw now
