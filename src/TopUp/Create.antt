-- ===== src/TopUp/Create.antt =====
-- `create` of coin-topup.service.ts: the order with its first payment attempt, and the link to the
-- gateway.
use Prim.Native.String.{◌++◌}
use ai_cinema_be.Common.Action.{Action, done, fail, requires, commit, ◌>>=◌, ◌>>◌}
use ai_cinema_be.Common.Int.{ℤ, pos, leb_ℤ}
use ai_cinema_be.TopUp.Opening.{Gateways, open_order, provider_name}
use ai_cinema_be.TopUp.Settlement.{Failure, on_ledger, update_payment, mark_payment_failed}
use ai_cinema_be.TopUp.Rows.{
  no_payment_link, order_view, OrderView, PaymentProvider, Orders, Payment, CoinTopUp,
}
use ai_cinema_be.Wallet.Rows.{Database}
use ai_cinema_be.Common.{none, ◌&&◌, Option, some, ℕ, String}
use ai_cinema_be.Settings.{PlatformSetting}
use ai_cinema_be.Common.Transaction.{err, ok, Result}
use ai_cinema_be.Common.Errors.{amount_out_of_range, unprocessable}
use ai_cinema_be.Wallet.Members.{wallet_of}

abbrev with_link : String → Payment → Payment
with_link url p = record p { redirect_url = some url }

-- What follows the answer of the gateway: a link that failed fails the attempt.
unfoldable pub after_link : CoinTopUp × Payment → Result String → Action Orders OrderView
after_link created (ok url) =
    commit (update_payment created.1.id (with_link url))
    >> done (order_view created.0 (some (with_link url created.1)))
after_link created (err e) =
    commit (mark_payment_failed created.1.id (no_payment_link e) Failure.failed) >> fail e

module _ (db : Database) (s : PlatformSetting) (g : Gateways) where
  -- `stamp` is the random part of the attempt's reference.
  unfoldable pub create :
      ℕ → PaymentProvider → ℤ → Option String → String → ℕ → Action Orders OrderView
  create user provider amount_vnd client_ip stamp now = do
    requires
        (leb_ℤ (pos s.coin_top_up_min_vnd) amount_vnd
          && leb_ℤ amount_vnd (pos s.coin_top_up_max_vnd))
        (unprocessable amount_out_of_range)
    wallet ← commit (on_ledger (wallet_of db s user))
    let txn = provider_name provider ++ "-" ++ stamp
    created ← commit (open_order db s user wallet provider amount_vnd txn now)
    after_link created (
        g.create_payment_url (record {
          provider = provider;
          provider_txn_id = txn;
          amount_vnd = amount_vnd;
          top_up_id = created.0.id;
          order_info = none;
          client_ip = client_ip;
          expires_at = some created.0.expires_at;
        }))
