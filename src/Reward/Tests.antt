-- ===== src/Reward/Tests.antt =====
-- The theorems on the check-in at a ladder of one rule.
use ai_cinema_be.Wallet.Sample.{sample_db, sample_settings, sample_ledger}
use ai_cinema_be.Wallet.Rows.{wallet_has_id, lot_has_id, transaction_has_id}
use ai_cinema_be.Reward.{
  business_day, last_check_in, reward_of_streak_day, next_streak_day, streak_on, checked_in,
  create_check_in, pay_reward, Diary, CheckInAnswer,
}
use ai_cinema_be.Reward.CheckIn.{attempt, check_in}
use ai_cinema_be.Common.Int.{neg, ◌-ℤ◌, ◌+ℤ◌, pos}
use ai_cinema_be.Common.{refl, ◌≡◌, none, some, [], ◌∷◌, true, false}
use ai_cinema_be.Wallet.Members.{wallet_of_user, or_new, wallet_of}
use ai_cinema_be.Wallet.Spend.{
  first_id, write_entries, unless_replayed, replayed, lot_for, open_lot, create_lot, pay_in, credit,
}
use ai_cinema_be.Wallet.Lots.{bump_wallet, find_by_key, create_entry, create_entries, locked}
use ai_cinema_be.Reward.Laws.{check_in_once}
use ai_cinema_be.Common.Transaction.{err}
use ai_cinema_be.Common.Errors.{unprocessable, already_checked_in_today}

abbrev sample_diary : Diary
sample_diary = record {
  ledger = sample_ledger;
  rules =
      record { id = 1; streak_day = 1; coins = pos 0; bonus_coins = pos 3; is_active = true } ∷ [];
  check_ins = [];
}

abbrev first_answer : CheckInAnswer
first_answer = record {
  check_in_date = 86_400_000;
  streak_day = 1;
  streak_continued = false;
  coins_granted = pos 0;
  bonus_granted = pos 3;
  main_balance = pos 10;
  bonus_balance = pos 13;
}

check_in_once_example :
    check_in sample_db sample_settings 7
      (some "x")
      91_000_000
      (check_in sample_db sample_settings 7 none 90_000_000 sample_diary).1
    ≡ (
      err (unprocessable already_checked_in_today),
      (check_in sample_db sample_settings 7 none 90_000_000 sample_diary).1,
    )
unfolding check_in attempt pay_reward create_check_in checked_in streak_on next_streak_day
    reward_of_streak_day last_check_in business_day wallet_of or_new wallet_of_user credit pay_in
    create_lot open_lot lot_for replayed unless_replayed locked write_entries create_entries
    create_entry find_by_key first_id bump_wallet ◌+ℤ◌ ◌-ℤ◌ neg
check_in_once_example =
    check_in_once sample_db sample_settings 7 none (some "x") 90_000_000 91_000_000 sample_diary
      {a = first_answer} refl refl
