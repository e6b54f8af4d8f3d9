-- ===== src/Wallet/Members/Payment.antt =====
-- The purchase screen and the payment.
use ai_cinema_be.Common.Int.{◌-ℤ◌, leb_ℤ→gt, min_ℤ, ◌+ℤ◌, ◌≤ℤ◌, ℤ, pos, bound_laws}
use ai_cinema_be.Wallet.Rows.{
  CoinMovement, SpendRequest, CoinWallet, Ledger, Database, wallet_has_id,
}
use ai_cinema_be.Wallet.Members.{
  affordability, wallet_of_user, Affordability, planned_split, afford,
}
use ai_cinema_be.Settings.{PlatformSetting}
use ai_cinema_be.Common.{◌∙◌, sym, true, none, subst, false, some, ◌≡◌, ℕ}
use ai_cinema_be.Common.Table.{find_row}
use ai_cinema_be.Wallet.Lots.{find_by_key, spendable_bonus}
use ai_cinema_be.Wallet.Lots.Spendable.{spendable-IsNonneg, bonus_of-spendable}
use ai_cinema_be.Wallet.Sums.{bonus_of-nonneg}
use ai_cinema_be.Wallet.Spend.{spend, replayed}
use ai_cinema_be.Common.Transaction.{ok_fst, err, ok}
use ai_cinema_be.Wallet.Spend.Payment.{spend_short, shortage}
use ai_cinema_be.Wallet.Members.Laws.{afford_enough, affordability_old}
use ai_cinema_be.Wallet.Spend.Success.{spend_covered}

afford_short :
    (wallet : CoinWallet) (bonus price : ℤ)
    → pos 0 ≤ℤ bonus
    → (afford wallet bonus price).enough_coins ≡ false
    → wallet.main_balance +ℤ bonus +ℤ pos 1 ≤ℤ price
unfolding afford planned_split
afford_short wallet bonus price p h =
    let first = min_ℤ wallet.main_balance price in
    let short = leb_ℤ→gt price (first +ℤ min_ℤ bonus (price -ℤ first)) h in omega bound_laws

-- The spendable bonus Coins of a wallet are not negative.
pub spendable_bonus-nonneg :
    (db : Database) (w now : ℕ) (l : Ledger) → pos 0 ≤ℤ spendable_bonus w now l
spendable_bonus-nonneg db w now l =
    subst (λ x. pos 0 ≤ℤ x) (bonus_of-spendable db w now l)
      (bonus_of-nonneg _ (spendable-IsNonneg db w now l))

-- For a price above zero, under a key that no ledger row has, on the wallet that is the caller's,
-- the payment goes through where `affordability` answers that the wallet has enough Coins, and is
-- refused with the shortage where it answers that it has not.
pub spend-affordability :
    (db : Database) (s : PlatformSetting) (r : SpendRequest) (now : ℕ) (l : Ledger) (user : ℕ)
    (wallet : CoinWallet) {a : Affordability} {after : Ledger}
    → find_row wallet.id l.wallets ≡ some wallet
    → wallet_of_user user l.wallets ≡ some wallet
    → replayed r.idempotency_key l ≡ none
    → find_by_key r.idempotency_key l.transactions ≡ none
    → pos 1 ≤ℤ r.amount_coins
    → affordability db s user r.amount_coins now l ≡ ok (a, after)
    → ((a.enough_coins ≡ true)
        → (m : CoinMovement) × (paid : Ledger) × (spend db s wallet.id r now l ≡ ok (m, paid)))
      × ((a.enough_coins ≡ false)
          → spend db s wallet.id r now l ≡ err (shortage db s wallet.id r now l wallet))
spend-affordability db s r now l user wallet found own new fresh some_price h =
    let bonus = spendable_bonus wallet.id now l in
    let answer = ok_fst (sym (affordability_old db s user now l wallet r.amount_coins own) ∙ h) in
    rw (← answer) (
      (λ yes.
          spend_covered db s wallet.id r now l wallet new fresh found some_price
            (afford_enough wallet bonus r.amount_coins yes)),
      (λ no. spend_short db s wallet.id r now l wallet new found some_price (
          afford_short wallet bonus r.amount_coins (spendable_bonus-nonneg db wallet.id now l) no)),
    )
