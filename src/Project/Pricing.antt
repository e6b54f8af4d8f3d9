-- ===== src/Project/Pricing.antt =====
-- production/publishing/pricing.service.ts: the Coin price of an episode, and the alerts about prices
-- outside the range. Notifications are left out; the list of alerts only reads.
pub mod Handlers
pub mod Laws
use ai_cinema_be.Common.{
  ℕ, Bool, true, false, not, ◌&&◌, ◌||◌, ◌==◌, Option, none, some, List, [], ◌∷◌, map,
  if◌then◌else◌,
}
use ai_cinema_be.Common.Int.{ℤ, leb_ℤ}
use ai_cinema_be.Common.Table.{find_row, update_row}
use ai_cinema_be.Common.Transaction.{Tx, pure, gets, modify, require, or_throw, ◌>>=◌, ◌>>◌}
use ai_cinema_be.Common.Words.{Words, trim}
use ai_cinema_be.Common.Errors.{
  not_found, conflict, record_not_found, price_alert_not_found, alert_handled, alert_changed,
}
use ai_cinema_be.Settings.{PlatformSetting}
use ai_cinema_be.Wallet.Rows.{Database}
use ai_cinema_be.Access.Rows.{MovieStatus}
use ai_cinema_be.Project.Rows.{
  Studio, Project, ProjectEpisode, PriceAlert, PriceAlertStatus, ProjectEvent, alert_open,
  change_requested, resolved, episode_priced, price_out_of_range, project_episode_has_id,
  price_alert_has_id,
}
use ai_cinema_be.Project.Rules.{AuthenticatedUser, is_open_project}
use ai_cinema_be.Project.Lifecycle.{audited}

-- The statuses in which `setPrice` takes a price.
abbrev pub is_priceable : MovieStatus → Bool
is_priceable MovieStatus.completed = true
is_priceable MovieStatus.under_revision = true
is_priceable status = is_open_project status

-- `UNRESOLVED`
abbrev pub is_unresolved : PriceAlertStatus → Bool
is_unresolved alert_open = true
is_unresolved change_requested = true
is_unresolved resolved = false

abbrev pub is_alert_open : PriceAlertStatus → Bool
is_alert_open alert_open = true
is_alert_open _ = false

abbrev pub is_in_range : PlatformSetting → ℤ → Bool
is_in_range s price = leb_ℤ s.episode_coin_price_min price && leb_ℤ price s.episode_coin_price_max

-- `updateMany` of the alerts about the previous price.
abbrev pub settle_alert : ℕ → ℕ → PriceAlert → PriceAlert
settle_alert episode_id now a =
    if a.episode_id == episode_id && is_unresolved a.status
    then record a { status = resolved; handled_at = some now }
    else a

module _ (db : Database) (s : PlatformSetting) where
  -- `raiseAlert`
  unfoldable pub raise_alert : ProjectEpisode → ℤ → ℕ → Tx Studio PriceAlert
  raise_alert e price reviewer = do
    id ← gets (λ st. db.fresh_id (map (λ (a : PriceAlert). a.id) st.alerts))
    let alert : PriceAlert = record {
      id = id;
      episode_id = e.id;
      coin_price = price;
      range_min = s.episode_coin_price_min;
      range_max = s.episode_coin_price_max;
      status = alert_open;
      set_by_id = reviewer;
      admin_note = none;
      handled_by_id = none;
      handled_at = none;
    }
    modify (λ st. record st { alerts = alert ∷ st.alerts })
    modify (audited price_out_of_range e.movie_id (some reviewer))
    pure alert

  abbrev alert_if_outside : ProjectEpisode → ℤ → ℕ → Tx Studio (Option PriceAlert)
  alert_if_outside e price reviewer =
      if is_in_range s price
      then pure none
      else raise_alert e price reviewer >>= (λ a. pure (some a))

  -- The transaction of `setPrice`.
  unfoldable pub price_episode : ProjectEpisode → ℤ → ℕ → ℕ → Tx Studio (Option PriceAlert)
  price_episode e price reviewer now = do
    found ← gets (λ st. find_row e.id st.episodes)
    before ← or_throw found record_not_found
    modify (λ st. record st {
      episodes =
          update_row e.id (λ (x : ProjectEpisode). record x { coin_price = some price })
            st.episodes;
      alerts = map (settle_alert e.id now) st.alerts;
    })
    modify (audited episode_priced e.movie_id (some reviewer))
    alert_if_outside e price reviewer

-- The one alert of `updateMany`, guarded on its status.
unfoldable pub handle_alert :
    ℕ → (PriceAlertStatus → Bool) → (PriceAlert → PriceAlert) → Tx Studio PriceAlert
handle_alert id allowed f = do
  found ← gets (λ st. find_row id st.alerts)
  a ← or_throw found (conflict alert_changed)
  require (allowed a.status) (conflict alert_changed)
  modify (λ st. record st { alerts = update_row id f st.alerts })
  pure (f a)

abbrev pub asked_again : Words → ℕ → ℕ → PriceAlert → PriceAlert
asked_again note admin now a = record a {
  status = change_requested;
  admin_note = some (trim note);
  handled_by_id = some admin;
  handled_at = some now;
}

abbrev pub accepted : ℕ → ℕ → PriceAlert → PriceAlert
accepted admin now a = record a {
  status = resolved;
  handled_by_id = some admin;
  handled_at = some now;
}
