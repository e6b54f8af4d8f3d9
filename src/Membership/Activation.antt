-- ===== src/Membership/Activation.antt =====
-- `activate` of subscription.service.ts: the handler around its transaction.
use ai_cinema_be.Common.{ℕ, Option, String}
use ai_cinema_be.Common.Action.{Action, reads, or_fail, requires, commit, ◌>>=◌, ◌>>◌}
use ai_cinema_be.Common.Errors.{
  not_found, conflict, subscription_not_found, subscription_not_pending,
}
use ai_cinema_be.Settings.{PlatformSetting}
use ai_cinema_be.Wallet.Rows.{Database}
use ai_cinema_be.Wallet.Members.{wallet_of}
use ai_cinema_be.Access.Rows.{Store, on_ledger}
use ai_cinema_be.Membership.Joining.{Activation, find_mine, is_pending, start_period}

module _ (db : Database) (s : PlatformSetting) where
  unfoldable pub activate : ℕ → ℕ → Option String → ℕ → Action Store Activation
  activate user id key now = do
    found ← reads (find_mine user id)
    intent ← or_fail found (not_found subscription_not_found)
    requires (is_pending intent.status) (conflict subscription_not_pending)
    wallet ← commit (on_ledger (wallet_of db s user))
    commit (start_period db s intent wallet user key now)
