-- ===== src/Reward/CheckIn.antt =====
-- `checkIn` of daily-reward.service.ts, around its transaction.
use ai_cinema_be.Common.{if◌then◌else◌, ℕ, Option, not, ltb, String}
use ai_cinema_be.Common.Int.{pos, ◌+ℤ◌, leb_ℤ}
use ai_cinema_be.Common.Transaction.{Result, ok, err}
use ai_cinema_be.Common.Action.{Action, reads, requires, commit, ◌>>=◌, ◌>>◌}
use ai_cinema_be.Wallet.Rows.{CoinWallet, Database}
use ai_cinema_be.Settings.{PlatformSetting}
use ai_cinema_be.Reward.{
  reward_of_streak_day, next_streak_day, streak_on, last_check_in, checked_in, pay_reward,
  on_wallets, business_day, Reward, Diary, CheckInAnswer,
}
use ai_cinema_be.Wallet.Members.{wallet_of}
use ai_cinema_be.Common.Errors.{no_reward_today, already_checked_in_today, unprocessable}

-- The `catch`: a day that is checked in by now is answered as such, any other error is thrown on.
abbrev pub or_already : ℕ → ℕ → Result CheckInAnswer × Diary → Result CheckInAnswer × Diary
or_already user today (ok a, d) = (ok a, d)
or_already user today (err e, d) =
    if checked_in user today d
    then (err (unprocessable already_checked_in_today), d)
    else (err e, d)

module _ (db : Database) (s : PlatformSetting) where
  unfoldable pub attempt :
      ℕ → CoinWallet → ℕ → ℕ → ℕ → Reward → Option String → Action Diary CheckInAnswer
  attempt user wallet today streak_day streak reward key d =
      or_already user today
        (commit (pay_reward db s user wallet today streak_day (ltb 0 streak) reward key) d)

  unfoldable pub check_in : ℕ → Option String → ℕ → Action Diary CheckInAnswer
  check_in user key now = do
    let today = business_day now
    wallet ← commit (on_wallets (wallet_of db s user))
    already ← reads (checked_in user today)
    last ← reads (λ d. last_check_in user d.check_ins)
    requires (not already) (unprocessable already_checked_in_today)
    let streak = streak_on today last
    let streak_day = next_streak_day streak
    reward ← reads (λ d. reward_of_streak_day streak_day d.rules)
    requires (not (leb_ℤ (reward.coins +ℤ reward.bonus_coins) (pos 0)))
        (unprocessable no_reward_today)
    attempt user wallet today streak_day streak reward key
