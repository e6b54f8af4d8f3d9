-- ===== src/Wallet/Adjust.antt =====
-- coin-adjust.service.ts: the Admin's correction of a wallet.
pub mod Laws
use ai_cinema_be.Common.{ℕ, ◌&&◌, not, Option, none, some, List, [], ◌∷◌, String, if◌then◌else◌}
use ai_cinema_be.Common.Int.{ℤ, pos, ◌+ℤ◌, ◌-ℤ◌, neg, leb_ℤ, ltb_ℤ, eqb_ℤ}
use ai_cinema_be.Common.Errors.{
  conflict, unprocessable, nothing_to_adjust, split_the_correction, insufficient_coins,
}
use ai_cinema_be.Common.Transaction.{Tx, pure, gets, require, ◌>>=◌, ◌>>◌}
use ai_cinema_be.Settings.{PlatformSetting}
use ai_cinema_be.Wallet.Rows.{
  CoinEntryType, CoinLotSource, EntryInput, Ledger, Database, AdjustmentRequest, CoinMovement,
}
use ai_cinema_be.Wallet.Lots.{LotDebit, spendable_lots, bonus_of, locked, take_lots}
use ai_cinema_be.Wallet.Spend.{or_else, write_entries, create_lot}

-- `row`, with the rate that the caller has filled in.
unfoldable pub adjustment_row :
    ℕ → AdjustmentRequest → ℕ → Option String → ℤ → ℤ → Option ℕ → ℤ → ℤ → EntryInput
adjustment_row wallet_id r rate key main bonus lot main_after bonus_after = record {
  wallet_id = wallet_id;
  entry_type = CoinEntryType.adjustment;
  main_amount = main;
  bonus_amount = bonus;
  rate_vnd = rate;
  lot_id = lot;
  reference_type = none;
  reference_id = none;
  reverses_id = none;
  idempotency_key = key;
  main_balance_after = main_after;
  bonus_balance_after = bonus_after;
  created_by_id = r.created_by_id;
}

-- The rows of the loop in `debitBonus`; the first one carries the key.
unfoldable pub bonus_rows :
    ℕ → AdjustmentRequest → ℕ → Option String → ℤ → ℤ → List LotDebit → List EntryInput
bonus_rows wallet_id r rate key main_after bonus_after [] = []
bonus_rows wallet_id r rate key main_after bonus_after (d ∷ ds) =
    let after = bonus_after -ℤ d.amount in
    adjustment_row wallet_id r rate key (pos 0) (neg d.amount) (some d.id) main_after after
    ∷ bonus_rows wallet_id r rate none main_after after ds

-- `bonusAfter` when the loop ends.
unfoldable pub bonus_less_debits : ℤ → List LotDebit → ℤ
bonus_less_debits bonus [] = bonus
bonus_less_debits bonus (d ∷ ds) = bonus_less_debits (bonus -ℤ d.amount) ds

module _ (db : Database) (s : PlatformSetting) where
  unfoldable pub correction_lot : ℕ → ℤ → ℕ → Tx Ledger (Option ℕ)
  correction_lot wallet_id bonus_amount now = if leb_ℤ bonus_amount (pos 0) then pure none else do
    id ←
        create_lot db s wallet_id CoinLotSource.adjustment bonus_amount s.bonus_coin_expiry_days now
    pure (some id)

  -- Main Coins move, and bonus Coins may be added.
  unfoldable pub debit_main : ℕ → AdjustmentRequest → ℕ → ℕ → Tx Ledger CoinMovement
  debit_main wallet_id r rate now = do
    let main_amount = or_else r.main_amount (pos 0)
    let bonus_amount = or_else r.bonus_amount (pos 0)
    wallet ← locked wallet_id
    require (leb_ℤ (pos 0) (wallet.main_balance +ℤ main_amount)) (
        unprocessable (
          insufficient_coins (record {
            required_coins = neg main_amount;
            main_balance = some wallet.main_balance;
            bonus_balance = none;
            missing_coins = none;
          })))
    let main_balance = wallet.main_balance +ℤ main_amount
    let bonus_balance = wallet.bonus_balance +ℤ bonus_amount
    lot ← correction_lot wallet_id bonus_amount now
    first ←
        write_entries db wallet_id
          (adjustment_row wallet_id r rate r.idempotency_key main_amount bonus_amount lot
              main_balance bonus_balance
            ∷ [])
          main_balance bonus_balance
    pure (record {
      transaction_id = first;
      main_coins = main_amount;
      bonus_coins = bonus_amount;
      main_balance = main_balance;
      bonus_balance = bonus_balance;
    })

  -- Bonus Coins leave the lots, the one expiring first first, one row for each lot.
  unfoldable pub debit_bonus : ℕ → AdjustmentRequest → ℕ → ℕ → Tx Ledger CoinMovement
  debit_bonus wallet_id r rate now = do
    let wanted = neg (or_else r.bonus_amount (pos 0))
    wallet ← locked wallet_id
    lots ← gets (spendable_lots db wallet_id now)
    let available = bonus_of lots
    require (leb_ℤ wanted available) (
        unprocessable (
          insufficient_coins (record {
            required_coins = wanted;
            main_balance = none;
            bonus_balance = some available;
            missing_coins = some (wanted -ℤ available);
          })))
    debits ← take_lots lots wanted now
    let bonus_after = bonus_less_debits wallet.bonus_balance debits
    first ←
        write_entries db wallet_id
          (bonus_rows wallet_id r rate r.idempotency_key wallet.main_balance wallet.bonus_balance
            debits)
          wallet.main_balance bonus_after
    pure (record {
      transaction_id = first;
      main_coins = pos 0;
      bonus_coins = wanted;
      main_balance = wallet.main_balance;
      bonus_balance = bonus_after;
    })

  -- `apply`
  unfoldable pub adjust : ℕ → AdjustmentRequest → ℕ → Tx Ledger CoinMovement
  adjust wallet_id r now = do
    let main_amount = or_else r.main_amount (pos 0)
    let bonus_amount = or_else r.bonus_amount (pos 0)
    require (not (eqb_ℤ main_amount (pos 0) && eqb_ℤ bonus_amount (pos 0)))
        (conflict nothing_to_adjust)
    require (not (ltb_ℤ bonus_amount (pos 0) && not (eqb_ℤ main_amount (pos 0))))
        (conflict split_the_correction)
    let rate = or_else r.rate_vnd s.coin_rate_vnd
    if ltb_ℤ bonus_amount (pos 0)
        then debit_bonus wallet_id r rate now
        else debit_main wallet_id r rate now
