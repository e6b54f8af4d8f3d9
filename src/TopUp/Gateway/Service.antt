-- ===== src/TopUp/Gateway/Service.antt =====
-- gateways/payment-gateway.service.ts: the check of a delivery, and the service as a whole.
use ai_cinema_be.Common.{ℕ, Bool, ◌&&◌, String}
use ai_cinema_be.TopUp.Rows.{PaymentProvider, vnpay, momo}
use ai_cinema_be.TopUp.Callback.{Raw}
use ai_cinema_be.TopUp.Opening.{Gateways}
use ai_cinema_be.TopUp.Gateway.Crypto.{Platform}
use ai_cinema_be.TopUp.Gateway.Momo.{verify_momo_ipn_signature}
use ai_cinema_be.TopUp.Gateway.Vnpay.{verify_vnpay_signature}
use ai_cinema_be.TopUp.Gateway.Config.{is_set, MomoConfig, VnpayConfig, Readings}
use ai_cinema_be.TopUp.Gateway.Links.{create_payment_url}
use ai_cinema_be.TopUp.Gateway.Probes.{reconcile_payment}

module _ (momo_cfg : MomoConfig) (vnpay_cfg : VnpayConfig) (js : Platform) (rd : Readings) where
  unfoldable pub verify_callback_signature : PaymentProvider → Raw → Bool
  verify_callback_signature momo raw =
      is_set momo_cfg.access_key
      && (is_set momo_cfg.secret_key
          && verify_momo_ipn_signature js raw momo_cfg.access_key momo_cfg.secret_key)
  verify_callback_signature vnpay raw =
      is_set vnpay_cfg.hash_secret && verify_vnpay_signature js raw vnpay_cfg.hash_secret

  -- The service as the flow of orders uses it.
  unfoldable pub gateways : ℕ → String → Gateways
  gateways now stamp = record {
    create_payment_url = λ r. create_payment_url momo_cfg vnpay_cfg js rd r now;
    verify_callback_signature = verify_callback_signature;
    reconcile_payment =
        λ provider txn date. reconcile_payment momo_cfg vnpay_cfg js rd provider txn date now stamp;
  }
