-- ===== src/TopUp/Opening.antt =====
-- The transaction of `create` in coin-topup.service.ts, and what the flow asks of the gateways.
use ai_cinema_be.Common.{ℕ, ◌+◌, ◌*◌, ◌/◌, Bool, not, Option, none, String, ◌∷◌, map, ◌==◌}
use ai_cinema_be.Common.Int.{ℤ, pos, pos_part}
use ai_cinema_be.Common.Lists.{any}
use ai_cinema_be.Common.Errors.{crash, unique_violation}
use ai_cinema_be.Common.Transaction.{Tx, Result, ◌>>=◌, ◌>>◌, pure, gets, modify, require}
use ai_cinema_be.Settings.{PlatformSetting}
use ai_cinema_be.Wallet.Rows.{Database, CoinWallet}
use ai_cinema_be.TopUp.Rows.{
  CoinTopUp, Payment, Orders, PaymentProvider, TopUpStatus, PaymentStatus, vnpay, momo,
  payment_has_id,
}
use ai_cinema_be.TopUp.Callback.{Raw}
use ai_cinema_be.TopUp.Lookup.{is_attempt}

-- The input of `createPaymentUrl`.
pub record LinkRequest : Type 0 where
  pub provider : PaymentProvider
  pub provider_txn_id : String
  pub amount_vnd : ℤ
  pub top_up_id : ℕ
  pub order_info : Option String
  pub client_ip : Option String
  pub expires_at : Option ℕ

pub data Outcome : Type 0 where
  paid failed unknown : Outcome

-- What a probe learned. An amount that is given and no integer is `some none`.
pub record ReconcileOutcome : Type 0 where
  pub outcome : Outcome
  pub provider_payment_id : Option String
  pub amount_vnd : Option (Option ℤ)
  pub paid_at : Option ℕ

-- What the flow asks of the gateways: a payment link, a yes or no on a delivery, and a second opinion
-- on an attempt.
pub record Gateways : Type 0 where
  pub create_payment_url : LinkRequest → Result String
  pub verify_callback_signature : PaymentProvider → Raw → Bool
  pub reconcile_payment : PaymentProvider → String → ℕ → Result ReconcileOutcome

-- `ORDER_TTL_MINUTES`
abbrev pub order_ttl_minutes : ℕ
order_ttl_minutes = 15

abbrev pub provider_name : PaymentProvider → String
provider_name vnpay = "VNPAY"
provider_name momo = "MOMO"

module _ (db : Database) (s : PlatformSetting) where
  -- The transaction of `create`. A rate of 0 would make an infinite number of Coins, which the column
  -- does not take. `txn` is the reference with its random stamp.
  unfoldable pub open_order :
      ℕ → CoinWallet → PaymentProvider → ℤ → String → ℕ → Tx Orders (CoinTopUp × Payment)
  open_order user wallet provider amount_vnd txn now = do
    require (not (s.coin_rate_vnd == 0)) crash
    let expires_at = now + order_ttl_minutes * 60_000
    order_id ← gets (λ st. db.fresh_id (map (λ (o : CoinTopUp). o.id) st.top_ups))
    let o : CoinTopUp = record {
      id = order_id;
      user_id = user;
      wallet_id = wallet.id;
      amount_vnd = amount_vnd;
      coins_granted = pos (pos_part amount_vnd / s.coin_rate_vnd);
      rate_vnd = s.coin_rate_vnd;
      status = TopUpStatus.pending;
      coin_transaction_id = none;
      failure_reason = none;
      expires_at = expires_at;
    }
    modify (λ st. record st { top_ups = o ∷ st.top_ups })
    taken ← gets (λ st. any (is_attempt provider txn) st.payments)
    require (not taken) unique_violation
    payment_id ← gets (λ st. db.fresh_id (map (λ (p : Payment). p.id) st.payments))
    let p : Payment = record {
      id = payment_id;
      user_id = user;
      coin_top_up_id = order_id;
      provider = provider;
      amount_vnd = amount_vnd;
      provider_txn_id = txn;
      provider_payment_id = none;
      status = PaymentStatus.pending;
      redirect_url = none;
      failure_reason = none;
      paid_at = none;
      expires_at = expires_at;
      created_at = now;
    }
    modify (λ st. record st { payments = p ∷ st.payments })
    pure (o, p)
