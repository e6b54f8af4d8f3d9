-- ===== src/Settings/Tests.antt =====
-- The update of the settings at the sample row.
use ai_cinema_be.Common.{◌≡◌, refl, none, some}
use ai_cinema_be.Wallet.Sample.{sample_settings}
use ai_cinema_be.Settings.{update_settings-IsOrdered, IsOrdered, SettingUpdate, update_settings}
use ai_cinema_be.Common.Int.{pos}

abbrev sample_update : SettingUpdate
sample_update = record {
  coin_rate_vnd = none;
  bonus_coin_expiry_days = none;
  new_member_bonus_coins = none;
  free_starter_episode_count = none;
  episode_coin_price_min = some (pos 3);
  episode_coin_price_max = none;
  coin_top_up_min_vnd = none;
  coin_top_up_max_vnd = none;
  subscription_cancel_window_hours = none;
  plan_renewal_grace_hours = none;
  token_rate_vnd = none;
}

update_settings-IsOrdered_example :
    IsOrdered (record sample_settings { episode_coin_price_min = pos 3 })
    × (record sample_settings { episode_coin_price_min = pos 3 }
        ≡ record sample_settings { episode_coin_price_min = pos 3 })
unfolding update_settings
update_settings-IsOrdered_example = update_settings-IsOrdered sample_update sample_settings refl
