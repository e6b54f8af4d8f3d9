-- ===== src/Reward.antt =====
-- daily-reward.service.ts: the daily check-in and its streak.
pub mod CheckIn
pub mod Streak
pub mod Payment
pub mod Laws
mod Tests
use mathlib.Core.Option
use ai_cinema_be.Common.{
  String, ℕ, ◌+◌, ◌*◌, ◌/◌, ◌%◌, Bool, true, false, ◌&&◌, ◌||◌, not, Option, none, some, List, [],
  ◌∷◌, if◌then◌else◌, ◌==◌, map, ltb, leb,
}
use ai_cinema_be.Common.Int.{ℤ, pos, ◌+ℤ◌, leb_ℤ}
use ai_cinema_be.Common.Lists.{find, any, keep, take}
use ai_cinema_be.Common.Transaction.{
  Tx, ok, err, pure, gets, modify, require, throw, on_part, ◌>>=◌, ◌>>◌,
}
use ai_cinema_be.Wallet.Rows.{
  CreditRequest, CoinWallet, Ledger, CoinLot, Database, CoinEntryType, CoinLotSource,
  CoinReferenceType,
}
use ai_cinema_be.Settings.{PlatformSetting}
use ai_cinema_be.Wallet.Members.{ExpiringBonus, wallet_of}
use ai_cinema_be.Common.Errors.{unique_violation}
use ai_cinema_be.Wallet.Spend.{credit}
use ai_cinema_be.Wallet.Lots.{spendable_lots}
use ai_cinema_be.Access.Rows.{is_none}

-- `LADDER_LENGTH`, `DAY_MS`, `EXPIRING_HORIZON_DAYS` and `EXPIRING_LIMIT`
abbrev pub ladder_length : ℕ
ladder_length = 7

abbrev pub day_ms : ℕ
day_ms = 86_400_000

abbrev pub expiring_horizon_days : ℕ
expiring_horizon_days = 7

abbrev pub expiring_shown : ℕ
expiring_shown = 3

-- Vietnam is seven hours ahead of UTC, all year: the calendar day there, as its midnight in UTC.
unfoldable pub business_day : ℕ → ℕ
business_day at = (at + 25_200_000) / day_ms * day_ms

pub record RewardRule : Type 0 where
  pub id : ℕ
  pub streak_day : ℕ
  pub coins : ℤ
  pub bonus_coins : ℤ
  pub is_active : Bool

pub record DailyCheckIn : Type 0 where
  pub user_id : ℕ
  pub wallet_id : ℕ
  pub check_in_date : ℕ
  pub streak_day : ℕ
  pub streak_continued : Bool
  pub coins_granted : ℤ
  pub bonus_granted : ℤ
  pub coin_transaction_id : Option ℕ
  pub rule_id : Option ℕ

pub record Diary : Type 0 where
  pub ledger : Ledger
  pub rules : List RewardRule
  pub check_ins : List DailyCheckIn

-- `Reward`, with the rule that it comes from.
pub record Reward : Type 0 where
  pub coins : ℤ
  pub bonus_coins : ℤ
  pub rule_id : Option ℕ

pub record CheckInAnswer : Type 0 where
  pub check_in_date : ℕ
  pub streak_day : ℕ
  pub streak_continued : Bool
  pub coins_granted : ℤ
  pub bonus_granted : ℤ
  pub main_balance : ℤ
  pub bonus_balance : ℤ

abbrev pub on_wallets : {A : Type 0} → Tx Ledger A → Tx Diary A
on_wallets = on_part (λ d. d.ledger) (λ l d. record d { ledger = l })

abbrev pub later_one : DailyCheckIn → Option DailyCheckIn → Option DailyCheckIn
later_one x none = some x
later_one x (some y) = if ltb x.check_in_date y.check_in_date then some y else some x

-- `findFirst({ where: { userId }, orderBy: { checkInDate: 'desc' } })`
unfoldable pub last_check_in : ℕ → List DailyCheckIn → Option DailyCheckIn
last_check_in user [] = none
last_check_in user (x ∷ xs) =
    let rest = last_check_in user xs in if x.user_id == user then later_one x rest else rest

abbrev pub is_of_day : ℕ → ℕ → DailyCheckIn → Bool
is_of_day user day c = c.user_id == user && c.check_in_date == day

-- `checkedInToday`, and the read of today's row.
unfoldable pub checked_in : ℕ → ℕ → Diary → Bool
checked_in user day d = any (is_of_day user day) d.check_ins

-- `isYesterday`
abbrev pub is_yesterday : ℕ → ℕ → Bool
is_yesterday date today = date + day_ms == today

-- `streakOn`
unfoldable pub streak_on : ℕ → Option DailyCheckIn → ℕ
streak_on today none = 0
streak_on today (some c) = if is_yesterday c.check_in_date today then c.streak_day else 0

unfoldable pub next_streak_day : ℕ → ℕ
next_streak_day streak_day = streak_day % ladder_length + 1

abbrev pub reward_from : Option RewardRule → Reward
reward_from none = record { coins = pos 0; bonus_coins = pos 0; rule_id = none }
reward_from (some r) = record { coins = r.coins; bonus_coins = r.bonus_coins; rule_id = some r.id }

unfoldable pub reward_of_streak_day : ℕ → List RewardRule → Reward
reward_of_streak_day day rules =
    reward_from (find (λ (r : RewardRule). r.is_active && r.streak_day == day) rules)

-- One day of the ladder, as the screen shows it.
pub record Rung : Type 0 where
  pub streak_day : ℕ
  pub coins : ℤ
  pub bonus_coins : ℤ

abbrev pub rung_of : RewardRule → Rung
rung_of r = record { streak_day = r.streak_day; coins = r.coins; bonus_coins = r.bonus_coins }

-- `orderBy: { streakDay: 'asc' }`
abbrev pub insert_rule : RewardRule → List RewardRule → List RewardRule
insert_rule r [] = r ∷ []
insert_rule r (q ∷ qs) =
    let rest = insert_rule r qs in if leb r.streak_day q.streak_day then r ∷ q ∷ qs else q ∷ rest

unfoldable pub by_streak_day : List RewardRule → List RewardRule
by_streak_day [] = []
by_streak_day (r ∷ rs) = insert_rule r (by_streak_day rs)

-- `rewardOf`
unfoldable pub reward_of : List RewardRule → ℕ → Rung
reward_of rules day = paid (find (λ (r : RewardRule). r.streak_day == day) rules)
  where
    paid : Option RewardRule → Rung
    paid none = record { streak_day = day; coins = pos 0; bonus_coins = pos 0 }
    paid (some r) = record { streak_day = day; coins = r.coins; bonus_coins = r.bonus_coins }

-- The answer of `status`.
pub record CheckInStatus : Type 0 where
  pub check_in_date : ℕ
  pub checked_in_today : Bool
  pub streak_day : ℕ
  pub streak_continued : Bool
  pub reward : Rung
  pub ladder : List Rung
  pub main_balance : ℤ
  pub bonus_balance : ℤ
  pub expiring_bonus : List ExpiringBonus

-- The streak that the screen shows: today's, or yesterday's.
unfoldable pub shown_streak : ℕ → Option DailyCheckIn → Option DailyCheckIn → ℕ
shown_streak today (some c) last = c.streak_day
shown_streak today none last = streak_on today last

abbrev pub continues : ℕ → Option DailyCheckIn → Bool
continues today none = false
continues today (some c) = is_yesterday c.check_in_date today

abbrev pub same_entry : Option ℕ → Option ℕ → Bool
same_entry (some a) (some b) = a == b
same_entry _ _ = false

module _ (db : Database) (s : PlatformSetting) where
  unfoldable pub status : ℕ → ℕ → Tx Diary CheckInStatus
  status user now = do
    let today = business_day now
    wallet ← on_wallets (wallet_of db s user)
    of_today ← gets (λ d. find (is_of_day user today) d.check_ins)
    last ← gets (λ d. last_check_in user d.check_ins)
    rules ← gets (λ d. by_streak_day (keep (λ (r : RewardRule). r.is_active) d.rules))
    lots ← gets (λ d. take expiring_shown (
        keep (λ (lot : CoinLot). leb lot.expires_at (now + expiring_horizon_days * day_ms))
          (spendable_lots db wallet.id now d.ledger)))
    let streak = shown_streak today of_today last
    pure (record {
      check_in_date = today;
      checked_in_today = not (is_none of_today);
      streak_day = streak;
      streak_continued = continues today last && is_none of_today;
      reward = reward_of rules (next_streak_day streak);
      ladder = map rung_of rules;
      main_balance = wallet.main_balance;
      bonus_balance = wallet.bonus_balance;
      expiring_bonus =
          map
            (λ (lot : CoinLot). record {
              lot_id = lot.id;
              amount = lot.remaining_amount;
              expires_at = lot.expires_at;
            })
            lots;
    })

  abbrev pub reward_credit : Reward → Option String → CreditRequest
  reward_credit reward key = record {
    entry_type = CoinEntryType.daily_reward;
    main_amount = some reward.coins;
    bonus_amount = some reward.bonus_coins;
    lot_source = CoinLotSource.daily_reward;
    expires_in_days = none;
    lot_id = none;
    rate_vnd = none;
    reference_type = some CoinReferenceType.daily_check_in;
    reference_id = none;
    idempotency_key = key;
    created_by_id = none;
    reverses_id = none;
  }

  -- `dailyCheckIn.create`: one row for each user and day, and for each ledger entry.
  unfoldable pub create_check_in : DailyCheckIn → Tx Diary DailyCheckIn
  create_check_in row = do
    taken ← gets (checked_in row.user_id row.check_in_date)
    require (not taken) unique_violation
    used ← gets (λ d.
        any (λ (c : DailyCheckIn). same_entry c.coin_transaction_id row.coin_transaction_id)
          d.check_ins)
    require (not used) unique_violation
    modify (λ d. record d { check_ins = row ∷ d.check_ins })
    pure row

  -- The transaction of `checkIn`.
  unfoldable pub pay_reward :
      ℕ → CoinWallet → ℕ → ℕ → Bool → Reward → Option String → Tx Diary CheckInAnswer
  pay_reward user wallet today streak_day continued reward key = do
    movement ← on_wallets (credit db s wallet.id (reward_credit reward key) today)
    row ← create_check_in (record {
      user_id = user;
      wallet_id = wallet.id;
      check_in_date = today;
      streak_day = streak_day;
      streak_continued = continued;
      coins_granted = movement.main_coins;
      bonus_granted = movement.bonus_coins;
      coin_transaction_id = some movement.transaction_id;
      rule_id = reward.rule_id;
    })
    pure (record {
      check_in_date = row.check_in_date;
      streak_day = row.streak_day;
      streak_continued = row.streak_continued;
      coins_granted = row.coins_granted;
      bonus_granted = row.bonus_granted;
      main_balance = movement.main_balance;
      bonus_balance = movement.bonus_balance;
    })
