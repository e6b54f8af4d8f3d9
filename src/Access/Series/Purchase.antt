-- ===== src/Access/Series/Purchase.antt =====
-- series-purchase.service.ts: the handler around the transaction of a series.
use ai_cinema_be.Common.{String, ℕ, Option}
use ai_cinema_be.Common.Action.{Action, reads, or_fail, commit, ◌>>=◌}
use ai_cinema_be.Access.Episodes.Purchase.{unless_repeated}
use ai_cinema_be.Wallet.Rows.{Database}
use ai_cinema_be.Settings.{PlatformSetting}
use ai_cinema_be.Access.Rows.{on_ledger, PurchaseResult, Store}
use ai_cinema_be.Access.Series.{unlock_series, sold_movie, replayed_series}
use ai_cinema_be.Common.Errors.{series_not_sold, unprocessable}
use ai_cinema_be.Wallet.Members.{wallet_of}

module _ (db : Database) (s : PlatformSetting) where
  unfoldable pub buy_series : ℕ → ℕ → Option String → ℕ → Action Store PurchaseResult
  buy_series movie_id user key now = do
    movie ← reads (sold_movie movie_id)
    m ← or_fail movie (unprocessable series_not_sold)
    price ← or_fail m.series_coin_price (unprocessable series_not_sold)
    wallet ← commit (on_ledger (wallet_of db s user))
    commit (unlock_series db s m price wallet user key now)

  unfoldable pub purchase_series : ℕ → ℕ → Option String → ℕ → Action Store PurchaseResult
  purchase_series movie_id user key now = do
    old ← reads (replayed_series movie_id user key)
    unless_repeated old (buy_series movie_id user key now)
