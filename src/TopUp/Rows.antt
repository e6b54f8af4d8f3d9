-- ===== src/TopUp/Rows.antt =====
-- The tables of top-ups (prisma/schema/coin_top_up.prisma, payment.prisma, payment_callback.prisma)
-- and the order as the screens show it (episode-access/coin-topup/utils/order-view.ts). A text that
-- the services put together for `failure_reason` is the constructor of its template. The raw payload
-- of a delivery is not kept.
use mathlib.Core.List.{Permᴰ}
use ai_cinema_be.Common.{false, true, Bool, ℕ, Option, none, some, List, String}
use ai_cinema_be.Common.Int.{ℤ}
use ai_cinema_be.Common.Errors.{Error}
use ai_cinema_be.Common.Table.{HasId}
use ai_cinema_be.Wallet.Rows.{Ledger}

pub data TopUpStatus : Type 0 where
  pending paid failed cancelled expired : TopUpStatus

pub data PaymentProvider : Type 0 where
  vnpay momo : PaymentProvider

pub data PaymentStatus : Type 0 where
  pending paid failed cancelled expired : PaymentStatus

-- What a gateway says of a payment.
pub data CallbackStatus : Type 0 where
  success failed cancelled : CallbackStatus

-- The texts of `failureReason`: of a delivery, of a wrong amount (the one of the gateway, then the
-- one of the attempt), of the sweep, of an error of the gateway, and of a probe.
pub data FailureReason : Type 0 where
  reported_as : CallbackStatus → FailureReason
  wrong_amount : Option ℤ → ℤ → FailureReason
  order_expired no_payment_known : FailureReason
  no_payment_link : Error → FailureReason

pub record CoinTopUp : Type 0 where
  pub id : ℕ
  pub user_id : ℕ
  pub wallet_id : ℕ
  pub amount_vnd : ℤ
  pub coins_granted : ℤ
  pub rate_vnd : ℕ
  pub status : TopUpStatus
  pub coin_transaction_id : Option ℕ
  pub failure_reason : Option FailureReason
  pub expires_at : ℕ

pub record Payment : Type 0 where
  pub id : ℕ
  pub user_id : ℕ
  pub coin_top_up_id : ℕ
  pub provider : PaymentProvider
  pub amount_vnd : ℤ
  pub provider_txn_id : String
  pub provider_payment_id : Option String
  pub status : PaymentStatus
  pub redirect_url : Option String
  pub failure_reason : Option FailureReason
  pub paid_at : Option ℕ
  pub expires_at : ℕ
  pub created_at : ℕ

-- What `errorMessage` of a delivery says.
pub data CallbackError : Type 0 where
  bad_signature : CallbackError
  bad_amount : ℤ → ℤ → CallbackError
  thrown : Error → CallbackError

pub record PaymentCallback : Type 0 where
  pub top_up_id : Option ℕ
  pub payment_id : Option ℕ
  pub provider : PaymentProvider
  pub event_id : String
  pub signature : String
  pub handled_at : Option ℕ
  pub error_message : Option CallbackError

instance abbrev pub top_up_has_id : HasId CoinTopUp
top_up_has_id = record { id_of = λ t. t.id }

instance abbrev pub payment_has_id : HasId Payment
payment_has_id = record { id_of = λ p. p.id }

-- The tables that a top-up reads and writes.
pub record Orders : Type 0 where
  pub ledger : Ledger
  pub top_ups : List CoinTopUp
  pub payments : List Payment
  pub callbacks : List PaymentCallback

-- What the sweeps rely on of `orderBy`: it returns the rows that it is given, in some order.
pub record Queries : Type 0 where
  pub order_top_ups : List CoinTopUp → List CoinTopUp
  pub order_top_ups-perm : (l : List CoinTopUp) → Permᴰ (order_top_ups l) l
  pub order_payments : List Payment → List Payment
  pub order_payments-perm : (l : List Payment) → Permᴰ (order_payments l) l

-- The answer of `orderView`.
pub record OrderView : Type 0 where
  pub top_up_id : ℕ
  pub provider : Option PaymentProvider
  pub provider_txn_id : Option String
  pub amount_vnd : ℤ
  pub coins_granted : ℤ
  pub rate_vnd : ℕ
  pub status : TopUpStatus
  pub redirect_url : Option String
  pub provider_payment_id : Option String
  pub failure_reason : Option FailureReason
  pub paid_at : Option ℕ
  pub expires_at : ℕ

unfoldable pub order_view : CoinTopUp → Option Payment → OrderView
order_view o none = record {
  top_up_id = o.id;
  provider = none;
  provider_txn_id = none;
  amount_vnd = o.amount_vnd;
  coins_granted = o.coins_granted;
  rate_vnd = o.rate_vnd;
  status = o.status;
  redirect_url = none;
  provider_payment_id = none;
  failure_reason = o.failure_reason;
  paid_at = none;
  expires_at = o.expires_at;
}
order_view o (some p) = record {
  top_up_id = o.id;
  provider = some p.provider;
  provider_txn_id = some p.provider_txn_id;
  amount_vnd = o.amount_vnd;
  coins_granted = o.coins_granted;
  rate_vnd = o.rate_vnd;
  status = o.status;
  redirect_url = p.redirect_url;
  provider_payment_id = p.provider_payment_id;
  failure_reason = o.failure_reason;
  paid_at = p.paid_at;
  expires_at = o.expires_at;
}

-- `===` on the members of the enums.
abbrev pub is_order_pending : TopUpStatus → Bool
is_order_pending TopUpStatus.pending = true
is_order_pending _ = false

abbrev pub is_pending : PaymentStatus → Bool
is_pending PaymentStatus.pending = true
is_pending _ = false

abbrev pub is_paid : PaymentStatus → Bool
is_paid PaymentStatus.paid = true
is_paid _ = false

abbrev pub same_provider : PaymentProvider → PaymentProvider → Bool
same_provider vnpay vnpay = true
same_provider momo momo = true
same_provider _ _ = false
