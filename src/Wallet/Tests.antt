-- ===== src/Wallet/Tests.antt =====
-- The wallet's theorems at a wallet with 10 main and 10 bonus Coins.
use ai_cinema_be.Common.{false, ◌↔◌, true, Option, none, some, refl, arith, ◌≡◌, String}
use ai_cinema_be.Common.Int.{max_ℤ, ◌≤ℤ◌, min_ℤ, neg, ◌-ℤ◌, ◌+ℤ◌, ℤ, pos, negsuc}
use ai_cinema_be.Common.Transaction.{Result, ok, err}
use ai_cinema_be.Wallet.Rows.{
  IsSorted, CoinMovement, CoinWallet, CoinLot, CoinLotSource, CoinEntryType, SpendRequest,
  AdjustmentRequest, CreditRequest, Ledger, wallet_has_id, lot_has_id, transaction_has_id,
}
use ai_cinema_be.Wallet.Reach.{here, after_step, spends, Reach-IsConsistent}
use ai_cinema_be.Wallet.Sample.{sample_db, sample_settings, sample_ledger, sample-IsConsistent}
use ai_cinema_be.Wallet.Spend.{
  movement_of, bonus_after_debits, lot_rows, debit_row, first_id, unless_replayed, lot_for,
  write_entries, open_lot, replayed, pay_from, create_lot, pay_in, expire_bonus, debit, spend,
  credit,
}
use ai_cinema_be.Wallet.Adjust.{bonus_less_debits, bonus_rows, adjustment_row, debit_bonus, adjust}
use ai_cinema_be.Wallet.Expiry.{expire}
use ai_cinema_be.Wallet.Lots.{
  bump_wallet, consume_lots, find_by_key, take_lots, create_entry, create_entries, spendable_bonus,
  locked, spendable_lots,
}
use ai_cinema_be.Wallet.Lots.Spendable.{Agrees, spendable_bonus-Agrees}
use ai_cinema_be.Wallet.Consistent.{IsConsistent}
use ai_cinema_be.Wallet.Adjust.Laws.{adjust-IsConsistent}
use ai_cinema_be.Wallet.Expiry.Laws.{expire-IsConsistent}
use ai_cinema_be.Wallet.Spend.Results.{spend-IsConsistent, credit-IsConsistent}
use ai_cinema_be.Common.Errors.{insufficient_coins, unprocessable}
use ai_cinema_be.Wallet.Spend.Debit.{Paid}
use ai_cinema_be.Wallet.Spend.Payment.{shortage, spend_short, spend-Paid}
use ai_cinema_be.Wallet.Members.{
  new_wallet, planned_split, wallet_of_user, or_new, wallet_of, affordability, afford,
  Affordability,
}
use ai_cinema_be.Wallet.Spend.Success.{spend_covered}
use ai_cinema_be.Wallet.Members.Laws.{wallet_of_twice, afford-split}
use ai_cinema_be.Wallet.Members.Payment.{spend-affordability}
use ai_cinema_be.Wallet.Lots.Order.{consume-earliest_first, IsDrained}

-- The store that a transaction leaves.
abbrev left : {A : Type 0} → Result (A × Ledger) → Ledger
left (ok r) = r.1
left (err e) = sample_ledger

abbrev sample_spend : ℤ → Option String → SpendRequest
sample_spend price key = record {
  entry_type = CoinEntryType.episode_purchase;
  amount_coins = price;
  coin_rate_vnd = none;
  reference_type = none;
  reference_id = none;
  idempotency_key = key;
}

abbrev sample_credit : CreditRequest
sample_credit = record {
  entry_type = CoinEntryType.top_up;
  main_amount = some (pos 20);
  bonus_amount = some (pos 2);
  lot_source = CoinLotSource.top_up_promo;
  expires_in_days = none;
  lot_id = none;
  rate_vnd = none;
  reference_type = none;
  reference_id = none;
  idempotency_key = none;
  created_by_id = none;
  reverses_id = none;
}

abbrev sample_adjustment : AdjustmentRequest
sample_adjustment = record {
  main_amount = none;
  bonus_amount = some (negsuc 6);
  rate_vnd = none;
  idempotency_key = none;
  created_by_id = none;
}

abbrev left_wallet : Result (CoinWallet × Ledger) → Ledger
left_wallet (ok r) = r.1
left_wallet (err e) = sample_ledger

abbrev sample_due : CoinLot
sample_due = record {
  id = 12;
  wallet_id = 1;
  source = CoinLotSource.daily_reward;
  original_amount = pos 4;
  remaining_amount = pos 4;
  granted_at = 0;
  expires_at = 500;
  closed_at = none;
}

abbrev sample_wallet : CoinWallet
sample_wallet = record {
  id = 1;
  user_id = 7;
  main_balance = pos 10;
  bonus_balance = pos 10;
  version = 3;
}

spend-IsConsistent_example :
    IsConsistent (
      left (spend sample_db sample_settings 1 (sample_spend (pos 15) (some "a")) 100 sample_ledger))
unfolding spend debit pay_from replayed unless_replayed locked spendable_lots take_lots consume_lots
    write_entries create_entries create_entry find_by_key first_id bump_wallet debit_row lot_rows
    bonus_after_debits ◌+ℤ◌ ◌-ℤ◌ neg min_ℤ movement_of spendable_bonus
spend-IsConsistent_example =
    spend-IsConsistent sample_db sample_settings 1 (sample_spend (pos 15) (some "a")) 100
      sample_ledger sample-IsConsistent refl

spend-Paid_example :
    Paid 1
      (sample_spend (pos 15) (some "a"))
      sample_ledger
      (record {
        transaction_id = 46;
        main_coins = pos 10;
        bonus_coins = pos 5;
        main_balance = pos 0;
        bonus_balance = pos 5;
      })
      (left
        (spend sample_db sample_settings 1 (sample_spend (pos 15) (some "a")) 100 sample_ledger))
unfolding spend debit pay_from replayed unless_replayed locked spendable_lots take_lots consume_lots
    write_entries create_entries create_entry find_by_key first_id bump_wallet debit_row lot_rows
    bonus_after_debits ◌+ℤ◌ ◌-ℤ◌ neg min_ℤ movement_of spendable_bonus
spend-Paid_example =
    spend-Paid sample_db sample_settings 1 (sample_spend (pos 15) (some "a")) 100 sample_ledger
      sample-IsConsistent refl refl

spend_short_example :
    spend sample_db sample_settings 1 (sample_spend (pos 21) (some "a")) 100 sample_ledger
    ≡ err (
        unprocessable (
          insufficient_coins (record {
            required_coins = pos 21;
            main_balance = some (pos 10);
            bonus_balance = some (pos 10);
            missing_coins = some (pos 1);
          })))
unfolding spend debit pay_from replayed unless_replayed locked spendable_lots take_lots consume_lots
    write_entries create_entries create_entry find_by_key first_id bump_wallet debit_row lot_rows
    bonus_after_debits ◌+ℤ◌ ◌-ℤ◌ neg min_ℤ movement_of spendable_bonus
spend_short_example =
    spend_short sample_db sample_settings 1 (sample_spend (pos 21) (some "a")) 100 sample_ledger
      sample_wallet refl refl (omega arith) (omega arith)

credit-IsConsistent_example :
    IsConsistent (left (credit sample_db sample_settings 1 sample_credit 100 sample_ledger))
unfolding credit pay_in create_lot open_lot lot_for replayed unless_replayed locked write_entries
    create_entries create_entry find_by_key first_id bump_wallet ◌+ℤ◌ ◌-ℤ◌ neg
credit-IsConsistent_example =
    credit-IsConsistent sample_db sample_settings 1 sample_credit 100 sample_ledger
      sample-IsConsistent refl (omega arith) (omega arith) refl

adjust-IsConsistent_example :
    IsConsistent (left (adjust sample_db sample_settings 1 sample_adjustment 100 sample_ledger))
unfolding adjust debit_bonus adjustment_row bonus_rows bonus_less_debits locked spendable_lots
    take_lots consume_lots write_entries create_entries create_entry find_by_key first_id
    bump_wallet ◌+ℤ◌ ◌-ℤ◌ neg min_ℤ
adjust-IsConsistent_example =
    adjust-IsConsistent sample_db sample_settings 1 sample_adjustment 100 sample_ledger
      sample-IsConsistent refl

expire-IsConsistent_example :
    IsConsistent (left (expire sample_db sample_settings sample_due 500 sample_ledger))
unfolding expire expire_bonus locked write_entries create_entries create_entry find_by_key first_id
    bump_wallet ◌+ℤ◌ ◌-ℤ◌ neg
expire-IsConsistent_example =
    expire-IsConsistent sample_db sample_settings sample_due 500 sample_ledger sample-IsConsistent
      refl refl refl

Reach-IsConsistent_example :
    IsConsistent (
      left (spend sample_db sample_settings 1 (sample_spend (pos 15) (some "a")) 100 sample_ledger))
unfolding spend debit pay_from replayed unless_replayed locked spendable_lots take_lots consume_lots
    write_entries create_entries create_entry find_by_key first_id bump_wallet debit_row lot_rows
    bonus_after_debits ◌+ℤ◌ ◌-ℤ◌ neg min_ℤ movement_of spendable_bonus
Reach-IsConsistent_example =
    Reach-IsConsistent sample_db sample_settings sample_ledger _
      (after_step sample_ledger sample_ledger _ (here sample_ledger)
        (spends 1 (sample_spend (pos 15) (some "a")) 100 sample_ledger _ _ refl))
      sample-IsConsistent

spendable_bonus-Agrees_example : Agrees sample_db 1 100 sample_ledger
spendable_bonus-Agrees_example = spendable_bonus-Agrees sample_db 1 100 sample_ledger

spend_covered_example :
    (m : CoinMovement) × (after : Ledger) × (spend sample_db sample_settings 1
        (sample_spend (pos 15) (some "a"))
        100
        sample_ledger
      ≡ ok (m, after))
unfolding spend debit pay_from replayed unless_replayed locked spendable_lots take_lots consume_lots
    write_entries create_entries create_entry find_by_key first_id bump_wallet debit_row lot_rows
    bonus_after_debits ◌+ℤ◌ ◌-ℤ◌ neg min_ℤ movement_of spendable_bonus
spend_covered_example =
    spend_covered sample_db sample_settings 1 (sample_spend (pos 15) (some "a")) 100 sample_ledger
      sample_wallet refl refl refl (omega arith) (omega arith)

abbrev sample_affordability : Affordability
sample_affordability = record {
  required_coins = pos 15;
  main_balance = pos 10;
  bonus_balance = pos 10;
  enough_coins = true;
  missing_coins = pos 0;
  planned_split = record { main_coins = pos 10; bonus_coins = pos 5 };
}

spend-affordability_example :
    ((sample_affordability.enough_coins ≡ true)
      → (m : CoinMovement) × (paid : Ledger) × (spend sample_db sample_settings 1
            (sample_spend (pos 15) (some "a"))
            100
            sample_ledger
          ≡ ok (m, paid)))
    × ((sample_affordability.enough_coins ≡ false)
        → spend sample_db sample_settings 1 (sample_spend (pos 15) (some "a")) 100 sample_ledger
          ≡ err (
              shortage sample_db sample_settings 1
                (sample_spend (pos 15) (some "a"))
                100
                sample_ledger
                sample_wallet))
unfolding affordability wallet_of or_new wallet_of_user afford planned_split spendable_bonus
    replayed find_by_key max_ℤ ◌+ℤ◌ ◌-ℤ◌ neg min_ℤ
spend-affordability_example =
    spend-affordability sample_db sample_settings (sample_spend (pos 15) (some "a")) 100
      sample_ledger 7 sample_wallet {a = sample_affordability} {after = sample_ledger} refl refl
      refl refl (omega arith) refl

afford-split_example :
    let a = afford sample_wallet (pos 10) (pos 25) in
    (pos 0 ≤ℤ a.planned_split.main_coins)
    × (a.planned_split.main_coins ≤ℤ sample_wallet.main_balance)
    × (pos 0 ≤ℤ a.planned_split.bonus_coins)
    × (a.planned_split.bonus_coins ≤ℤ pos 10)
    × (a.planned_split.main_coins +ℤ a.planned_split.bonus_coins +ℤ a.missing_coins ≡ pos 25)
    × ((a.enough_coins ≡ true) ↔ (a.missing_coins ≡ pos 0))
afford-split_example =
    afford-split sample_wallet (pos 10) (pos 25) (omega arith) (omega arith) (omega arith)

wallet_of_twice_example :
    wallet_of sample_db sample_settings 99
      (left_wallet (wallet_of sample_db sample_settings 99 sample_ledger))
    ≡ wallet_of sample_db sample_settings 99 sample_ledger
unfolding wallet_of or_new wallet_of_user new_wallet
wallet_of_twice_example = wallet_of_twice sample_db sample_settings 99 100 sample_ledger refl

consume-earliest_first_example :
    IsSorted (spendable_lots sample_db 1 100 sample_ledger)
    × IsDrained
        (spendable_lots sample_db 1 100 sample_ledger)
        (consume_lots
          (spendable_lots sample_db 1 100 sample_ledger)
          (pos 5)
          100
          sample_ledger.lots).0
consume-earliest_first_example = consume-earliest_first sample_db 1 (pos 5) 100 sample_ledger
