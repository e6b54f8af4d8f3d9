-- ===== src/Settings.antt =====
-- Platform policies (src/modules/platform/platform-setting/platform-setting.service.ts): the one
-- settings row that the other services read, and its update.
mod Tests
use ai_cinema_be.Common.{refl, leb→le, leb, ◌≤◌, ◌≡◌, ℕ, Option, none, some}
use ai_cinema_be.Common.Transaction.{
  modify, require, gets, ◌>>=◌, ◌>>◌, ok_fst, ok_snd, bind-require-eq-ok, ok, Tx,
}
use ai_cinema_be.Common.Int.{leb_ℤ→le, ◌≤ℤ◌, ℤ, leb_ℤ}
use ai_cinema_be.Common.Errors.{amount_out_of_range, bad_request}

-- The columns that the modelled services read.
pub record PlatformSetting : Type 0 where
  pub coin_rate_vnd : ℕ
  pub bonus_coin_expiry_days : ℕ
  pub new_member_bonus_coins : ℤ
  pub free_starter_episode_count : ℕ
  pub episode_coin_price_min : ℤ
  pub episode_coin_price_max : ℤ
  pub coin_top_up_min_vnd : ℕ
  pub coin_top_up_max_vnd : ℕ
  pub subscription_cancel_window_hours : ℕ
  pub plan_renewal_grace_hours : ℕ
  pub token_rate_vnd : ℕ

-- The part of `UpdatePlatformSettingRequestDto` for these columns.
pub record SettingUpdate : Type 0 where
  pub coin_rate_vnd : Option ℕ
  pub bonus_coin_expiry_days : Option ℕ
  pub new_member_bonus_coins : Option ℤ
  pub free_starter_episode_count : Option ℕ
  pub episode_coin_price_min : Option ℤ
  pub episode_coin_price_max : Option ℤ
  pub coin_top_up_min_vnd : Option ℕ
  pub coin_top_up_max_vnd : Option ℕ
  pub subscription_cancel_window_hours : Option ℕ
  pub plan_renewal_grace_hours : Option ℕ
  pub token_rate_vnd : Option ℕ

-- `dto.x ?? current.x`
abbrev given {ℓ} : {A : Type ℓ} → Option A → A → A
given none current = current
given (some a) current = a

-- `update`, with the settings row as the store.
unfoldable pub update_settings : SettingUpdate → Tx PlatformSetting PlatformSetting
update_settings dto = do
  current ← gets (λ s. s)
  require
      (leb_ℤ (given dto.episode_coin_price_min current.episode_coin_price_min)
        (given dto.episode_coin_price_max current.episode_coin_price_max))
      (bad_request amount_out_of_range)
  require
      (leb (given dto.coin_top_up_min_vnd current.coin_top_up_min_vnd)
        (given dto.coin_top_up_max_vnd current.coin_top_up_max_vnd))
      (bad_request amount_out_of_range)
  modify (λ s. record {
    coin_rate_vnd = given dto.coin_rate_vnd s.coin_rate_vnd;
    bonus_coin_expiry_days = given dto.bonus_coin_expiry_days s.bonus_coin_expiry_days;
    new_member_bonus_coins = given dto.new_member_bonus_coins s.new_member_bonus_coins;
    free_starter_episode_count = given dto.free_starter_episode_count s.free_starter_episode_count;
    episode_coin_price_min = given dto.episode_coin_price_min s.episode_coin_price_min;
    episode_coin_price_max = given dto.episode_coin_price_max s.episode_coin_price_max;
    coin_top_up_min_vnd = given dto.coin_top_up_min_vnd s.coin_top_up_min_vnd;
    coin_top_up_max_vnd = given dto.coin_top_up_max_vnd s.coin_top_up_max_vnd;
    subscription_cancel_window_hours =
        given dto.subscription_cancel_window_hours s.subscription_cancel_window_hours;
    plan_renewal_grace_hours = given dto.plan_renewal_grace_hours s.plan_renewal_grace_hours;
    token_rate_vnd = given dto.token_rate_vnd s.token_rate_vnd;
  })
  gets (λ s. s)

-- The two ranges of the settings are not empty.
pub record IsOrdered (s : PlatformSetting) : Type 0 where
  pub prices : s.episode_coin_price_min ≤ℤ s.episode_coin_price_max
  pub top_ups : s.coin_top_up_min_vnd ≤ s.coin_top_up_max_vnd

-- An update that goes through leaves both ranges, of episode prices and of top-up amounts, not
-- empty, and answers with the row that it stored.
pub update_settings-IsOrdered :
    (dto : SettingUpdate) (s : PlatformSetting) {answer after : PlatformSetting}
    → update_settings dto s ≡ ok (answer, after)
    → IsOrdered after × (answer ≡ after)
unfolding update_settings
update_settings-IsOrdered dto s h =
    let low = given dto.episode_coin_price_min s.episode_coin_price_min in
    let high = given dto.episode_coin_price_max s.episode_coin_price_max in
    let least = given dto.coin_top_up_min_vnd s.coin_top_up_min_vnd in
    let most = given dto.coin_top_up_max_vnd s.coin_top_up_max_vnd in
    let (a, h₁) = bind-require-eq-ok (leb_ℤ low high) _ s _ h in
    let (b, h₂) = bind-require-eq-ok (leb least most) _ s _ h₁ in
    let same = ok_snd h₂ in
    rw (← ok_fst h₂, ← same)
      (record { prices = leb_ℤ→le low high a; top_ups = leb→le least most b }, refl)
