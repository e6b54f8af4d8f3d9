-- ===== src/Wallet/Spend/Payment.antt =====
-- How `spend` divides a price between main and bonus Coins, and when it refuses.
use ai_cinema_be.Wallet.Rows.{
  CoinWallet, CoinMovement, Ledger, SpendRequest, Database, wallet_has_id,
}
use ai_cinema_be.Common.{sym, arith, ◌∙◌, true, false, some, none, ◌≡◌, ℕ}
use ai_cinema_be.Common.Int.{
  parts_eq, min_laws, gt→leb_ℤ, ltb_ℤ, ◌≤ℤ◌, leb_ℤ, ◌+ℤ◌, pos, ◌-ℤ◌, min_ℤ,
}
use ai_cinema_be.Settings.{PlatformSetting}
use ai_cinema_be.Wallet.Spend.{replayed, pay_from, debit, spend}
use ai_cinema_be.Wallet.Consistent.{IsConsistent}
use ai_cinema_be.Wallet.Lots.{spendable_bonus}
use ai_cinema_be.Common.Transaction.{◌>>=◌, err, ok}
use ai_cinema_be.Common.Table.{find_row}
use ai_cinema_be.Common.Errors.{Error, insufficient_coins, unprocessable}
use ai_cinema_be.Wallet.Lots.Spendable.{spendable-IsNonneg, bonus_of-spendable}
use ai_cinema_be.Wallet.Spend.Results.{spend_new}
use ai_cinema_be.Wallet.Spend.Debit.{debit-Paid, Paid}
use ai_cinema_be.Wallet.Sums.{bonus_of-nonneg}
use ai_cinema_be.Wallet.Spend.Build.{locked_found}

module _ (db : Database) (s : PlatformSetting) (w : ℕ) (r : SpendRequest) (now : ℕ)
    (l : Ledger) where
  -- The answer of a payment that is not covered.
  abbrev pub shortage : CoinWallet → Error
  shortage wallet = unprocessable (
      insufficient_coins (record {
        required_coins = r.amount_coins;
        main_balance = some wallet.main_balance;
        bonus_balance = some (spendable_bonus w now l);
        missing_coins = some (r.amount_coins -ℤ wallet.main_balance -ℤ spendable_bonus w now l);
      }))

  -- In a ledger in agreement, a payment that goes through under a new key takes the whole price out
  -- of the wallet, its main Coins before any bonus Coin, changes no other wallet, and reports the
  -- two balances that it leaves.
  pub spend-Paid :
      {m : CoinMovement} {after : Ledger}
      → IsConsistent l
      → replayed r.idempotency_key l ≡ none
      → spend db s w r now l ≡ ok (m, after)
      → Paid w r l m after
  spend-Paid c new h =
      debit-Paid db s w r now l c.lots_ok.0 (sym (spend_new db s w now l r new) ∙ h)

  debit_short :
      (wallet : CoinWallet)
      → find_row w l.wallets ≡ some wallet
      → pos 1 ≤ℤ r.amount_coins
      → wallet.main_balance +ℤ spendable_bonus w now l +ℤ pos 1 ≤ℤ r.amount_coins
      → debit db s w r now l ≡ err (shortage wallet)
  unfolding debit pay_from
  debit_short wallet found some_price short =
      let main = wallet.main_balance in
      let held = bonus_of-spendable db w now l in
      let nonneg = bonus_of-nonneg _ (spendable-IsNonneg db w now l) in
      let positive : ltb_ℤ (pos 0) r.amount_coins ≡ true = ground arith in
      let uncovered : leb_ℤ (r.amount_coins -ℤ min_ℤ main r.amount_coins) (spendable_bonus w now l)
          ≡ false =
        gt→leb_ℤ (r.amount_coins -ℤ min_ℤ main r.amount_coins) (spendable_bonus w now l)
          (omega (min_laws, parts_eq held, nonneg)) in
      rw (positive, locked_found w l wallet found, held, uncovered, ◌>>=◌)

  -- Where the main and the spendable bonus Coins together fall short of the price, a payment under
  -- a new key is refused, and the answer says by how much.
  pub spend_short :
      (wallet : CoinWallet)
      → replayed r.idempotency_key l ≡ none
      → find_row w l.wallets ≡ some wallet
      → pos 1 ≤ℤ r.amount_coins
      → wallet.main_balance +ℤ spendable_bonus w now l +ℤ pos 1 ≤ℤ r.amount_coins
      → spend db s w r now l ≡ err (shortage wallet)
  spend_short wallet new found some_price short =
      spend_new db s w now l r new ∙ debit_short wallet found some_price short
