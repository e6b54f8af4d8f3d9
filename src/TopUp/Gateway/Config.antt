-- ===== src/TopUp/Gateway/Config.antt =====
-- The configuration of both gateways and what their answers are to JavaScript, for
-- payment-gateway.service.ts.
use ai_cinema_be.Common.{
  ℕ, ◌+◌, ◌*◌, Bool, false, not, ◌&&◌, Option, none, some, String, [], ◌∷◌, if◌then◌else◌,
}
use ai_cinema_be.Common.Int.{ℤ, pos, negsuc, eqb_ℤ}
use ai_cinema_be.Common.Text.{is_empty_text}
use ai_cinema_be.Common.Errors.{bad_gateway, gateway_unreachable}
use ai_cinema_be.Common.Transaction.{Result, ok, err}
use ai_cinema_be.TopUp.Rows.{PaymentProvider, vnpay, momo}
use ai_cinema_be.TopUp.Callback.{Value, text, number, is_done_code}
use ai_cinema_be.TopUp.Opening.{Outcome, ReconcileOutcome}
use ai_cinema_be.TopUp.Gateway.Vnpay.{Params}

-- `config.payments.momo` and `config.payments.vnpay`: a text that is not set is empty.
pub record MomoConfig : Type 0 where
  pub partner_code : String
  pub access_key : String
  pub secret_key : String
  pub create_url : String
  pub status_url : String
  pub redirect_url : String
  pub ipn_url : String
  pub request_type : String

pub record VnpayConfig : Type 0 where
  pub tmn_code : String
  pub hash_secret : String
  pub pay_url : String
  pub api_url : String
  pub return_url : String
  pub ipn_url : String

-- What the answers' numbers and dates are to JavaScript: `String(value)`, `Number(value)` where it is
-- an integer, `Math.floor(Number(value) / 100)` where it is finite, `new Date(Number(value))` where it
-- is finite, the stamp of an instant in VNPay's format, and back.
pub record Readings : Type 0 where
  pub text_of_value : Value → String
  pub integer_of_value : Value → Option ℤ
  pub hundredth_of_value : Value → Option ℤ
  pub instant_of_value : Value → Option ℕ
  pub format_vnp_date_time : ℕ → String
  pub parse_vnp_date_time : Option Value → Option ℕ

abbrev pub is_set : String → Bool
is_set s = not (is_empty_text s)

abbrev pub or_default : Option String → String → String
or_default none d = d
or_default (some s) d = s

abbrev pub or_instant : Option ℕ → ℕ → ℕ
or_instant none d = d
or_instant (some t) d = t

abbrev pub unknown_outcome : ReconcileOutcome
unknown_outcome = record {
  outcome = Outcome.unknown;
  provider_payment_id = none;
  amount_vnd = none;
  paid_at = none;
}

abbrev pub is_zero_code : Option Value → Bool
is_zero_code (some (number n)) = eqb_ℤ n (pos 0)
is_zero_code _ = false

abbrev pub has_done_code : Option Value → Bool
has_done_code none = false
has_done_code (some v) = is_done_code v

-- The link of an answer, where MoMo took the order.
abbrev pub pay_url_of : Option Value → Result String
pay_url_of (some (text s)) = if is_empty_text s then err (bad_gateway gateway_unreachable) else ok s
pay_url_of _ = err (bad_gateway gateway_unreachable)

abbrev pub times_hundred : ℤ → ℤ
times_hundred (pos n) = pos (n * 100)
times_hundred (negsuc n) = negsuc (n * 100 + 99)

-- A field that is only sent where it is configured.
abbrev pub ipn_param : String → Params
ipn_param url = if is_empty_text url then [] else ("vnp_IpUrl", url) ∷ []

module _ (momo_cfg : MomoConfig) (vnpay_cfg : VnpayConfig) where
  unfoldable pub is_configured : PaymentProvider → Bool
  is_configured momo =
      is_set momo_cfg.partner_code && (is_set momo_cfg.access_key && is_set momo_cfg.secret_key)
  is_configured vnpay = is_set vnpay_cfg.tmn_code && is_set vnpay_cfg.hash_secret
