-- ===== src/Project/Pricing/Handlers.antt =====
-- The handlers of pricing.service.ts around their transactions.
use ai_cinema_be.Common.{ℕ, Bool, Option}
use ai_cinema_be.Common.Int.{ℤ}
use ai_cinema_be.Common.Table.{find_row}
use ai_cinema_be.Common.Words.{Words}
use ai_cinema_be.Common.Action.{Action, done, reads, or_fail, requires, commit, ◌>>=◌, ◌>>◌}
use ai_cinema_be.Common.Errors.{not_found, conflict, price_alert_not_found, alert_handled}
use ai_cinema_be.Settings.{PlatformSetting}
use ai_cinema_be.Wallet.Rows.{Database}
use ai_cinema_be.Project.Rows.{Studio, PriceAlert, price_alert_has_id}
use ai_cinema_be.Project.Rules.{AuthenticatedUser, ProjectRole, assert_project_status, episode_of}
use ai_cinema_be.Project.Pricing.{
  is_priceable, is_unresolved, is_alert_open, is_in_range, price_episode, handle_alert, asked_again,
  accepted,
}

-- The answer of `setPrice`.
pub record PriceAnswer : Type 0 where
  pub episode_id : ℕ
  pub coin_price : ℤ
  pub in_range : Bool
  pub range_min : ℤ
  pub range_max : ℤ
  pub alert : Option PriceAlert

module _ (db : Database) (s : PlatformSetting) where
  unfoldable pub set_episode_price : ℕ → ℤ → AuthenticatedUser → ℕ → Action Studio PriceAnswer
  set_episode_price episode_id price user now = do
    found ← commit (episode_of episode_id user ProjectRole.reviewer)
    commit (assert_project_status found.1.status is_priceable)
    alert ← commit (price_episode db s found.0 price user.id now)
    done (record {
      episode_id = episode_id;
      coin_price = price;
      in_range = is_in_range s price;
      range_min = s.episode_coin_price_min;
      range_max = s.episode_coin_price_max;
      alert = alert;
    })

-- `requestChange`
unfoldable pub request_price_change : ℕ → Words → ℕ → ℕ → Action Studio PriceAlert
request_price_change id note admin now = do
  found ← reads (λ st. find_row id st.alerts)
  a ← or_fail found (not_found price_alert_not_found)
  requires (is_alert_open a.status) (conflict alert_handled)
  commit (handle_alert id is_alert_open (asked_again note admin now))

-- `resolve`
unfoldable pub resolve_alert : ℕ → ℕ → ℕ → Action Studio PriceAlert
resolve_alert id admin now = do
  found ← reads (λ st. find_row id st.alerts)
  a ← or_fail found (not_found price_alert_not_found)
  requires (is_unresolved a.status) (conflict alert_handled)
  commit (handle_alert id is_unresolved (accepted admin now))
