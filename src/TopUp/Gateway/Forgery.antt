-- ===== src/TopUp/Gateway/Forgery.antt =====
-- What MoMo's signature does not cover of a delivery that `normalizeCallback` reads.
use mathlib.Core.Option
use ai_cinema_be.Common.{inr, inl, ◌∙◌, Option-cases, some, false, ◌≡◌, refl, String, ◌∷◌}
use ai_cinema_be.Common.Int.{ℤ}
use ai_cinema_be.TopUp.Rows.{CallbackStatus, success, momo}
use ai_cinema_be.TopUp.Callback.{
  callback_of, GatewayCallback, provider_txn_of, status_of, amount_of, event_id_of, signature_of,
  normalize_callback, Raw, Runtime, text, number,
}
use ai_cinema_be.TopUp.Gateway.Crypto.{Platform}
use ai_cinema_be.TopUp.Gateway.Momo.{verify_momo_ipn_signature}
use ai_cinema_be.TopUp.Gateway.Config.{MomoConfig, VnpayConfig, Readings}
use ai_cinema_be.TopUp.Gateway.Service.{verify_callback_signature}
use ai_cinema_be.Common.Text.{is_empty_text, trim_text}
use ai_cinema_be.Common.Transaction.{ok}

-- A body with four more fields in front, which hide fields of the same names.
abbrev pub forged : String → String → ℤ → Raw → Raw
forged event txn amount raw =
    ("eventId", text event)
    ∷ ("providerTxnId", text txn)
    ∷ ("amountVnd", number amount)
    ∷ ("status", text "success")
    ∷ raw

module _ (momo_cfg : MomoConfig) (vnpay_cfg : VnpayConfig) (platform : Platform) (rd : Readings)
    (js : Runtime) where
  verify-forged :
      (event txn : String) (amount : ℤ) (raw : Raw)
      → verify_callback_signature momo_cfg vnpay_cfg platform rd momo (forged event txn amount raw)
        ≡ verify_callback_signature momo_cfg vnpay_cfg platform rd momo raw
  unfolding verify_callback_signature verify_momo_ipn_signature
  verify-forged event txn amount raw = refl

  -- A request with its parts is read into a callback of these parts.
  normalize_parts :
      (raw : Raw) (s event : String) (amount : ℤ) (status : CallbackStatus)
      → signature_of raw ≡ some s
      → event_id_of raw ≡ some event
      → amount_of js raw ≡ some amount
      → status_of js raw ≡ some status
      → (d : GatewayCallback) × (normalize_callback js raw ≡ ok d)
        × (d.status ≡ status)
        × (d.amount_vnd ≡ amount)
        × (d.provider_txn_id ≡ provider_txn_of raw)
  unfolding normalize_callback Option.bind
  normalize_parts raw s event amount status hs he ha ht = (
    callback_of js raw s (event, amount, status),
    rw (normalize_callback, hs, he, ha, ht) refl,
    refl,
    refl,
    refl,
  )

  signed :
      (raw : Raw) {c : GatewayCallback}
      → normalize_callback js raw ≡ ok c
      → (s : String) × (signature_of raw ≡ some s)
  unfolding normalize_callback
  signed raw h = elim (Option-cases (signature_of raw)) [
    | inl e ↦ absurd (cc (rw (normalize_callback, e) at h))
    | inr (s, e) ↦ (s, e)
  ]

  forged_signature :
      (event txn : String) (amount : ℤ) (raw : Raw)
      → signature_of (forged event txn amount raw) ≡ signature_of raw
  unfolding signature_of
  forged_signature event txn amount raw = refl

  forged_event :
      (event txn : String) (amount : ℤ) (raw : Raw)
      → trim_text event ≡ event
      → is_empty_text event ≡ false
      → event_id_of (forged event txn amount raw) ≡ some event
  unfolding event_id_of
  forged_event event txn amount raw e₁ e₂ = rw (e₁, e₂) refl

  forged_txn :
      (event txn : String) (amount : ℤ) (raw : Raw)
      → trim_text txn ≡ txn
      → is_empty_text txn ≡ false
      → provider_txn_of (forged event txn amount raw) ≡ some txn
  unfolding provider_txn_of
  forged_txn event txn amount raw e₁ e₂ = rw (e₁, e₂) refl

  forged_amount :
      (event txn : String) (amount : ℤ) (raw : Raw)
      → amount_of js (forged event txn amount raw) ≡ some amount
  unfolding amount_of
  forged_amount event txn amount raw = refl

  forged_status :
      (event txn : String) (amount : ℤ) (raw : Raw)
      → status_of js (forged event txn amount raw) ≡ some success
  unfolding status_of
  forged_status event txn amount raw = refl

  -- Whatever MoMo signed, for a payment that failed as well: with a few fields more it passes the same
  -- check, and is read as a payment that succeeded, of any amount and of any attempt.
  pub momo_unsigned_fields :
      (event txn : String) (amount : ℤ) (raw : Raw) (c : GatewayCallback)
      → trim_text event ≡ event
      → is_empty_text event ≡ false
      → trim_text txn ≡ txn
      → is_empty_text txn ≡ false
      → normalize_callback js raw ≡ ok c
      → (verify_callback_signature momo_cfg vnpay_cfg platform rd momo (forged event txn amount raw)
          ≡ verify_callback_signature momo_cfg vnpay_cfg platform rd momo raw)
        × (d : GatewayCallback) × (normalize_callback js (forged event txn amount raw) ≡ ok d)
        × (d.status ≡ success)
        × (d.amount_vnd ≡ amount)
        × (d.provider_txn_id ≡ some txn)
  momo_unsigned_fields event txn amount raw c e₁ e₂ t₁ t₂ h =
      let (s, hs) = signed raw h in
      let body = forged event txn amount raw in
      let (d, read, status, of_amount, of_txn) =
        normalize_parts body s event amount success (forged_signature event txn amount raw ∙ hs)
          (forged_event event txn amount raw e₁ e₂) (forged_amount event txn amount raw)
          (forged_status event txn amount raw) in
      (
        verify-forged event txn amount raw,
        d,
        read,
        status,
        of_amount,
        of_txn ∙ forged_txn event txn amount raw t₁ t₂,
      )
