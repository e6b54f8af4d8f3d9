-- ===== src/Wallet/Members/Laws.antt =====
-- What the purchase screen says of a price.
use ai_cinema_be.Common.Int.{
  parts_eq, le→leb_ℤ, leb_ℤ→le, ◌-ℤ◌, min_ℤ, bound_laws, ◌+ℤ◌, ◌≤ℤ◌, pos, ℤ,
}
use ai_cinema_be.Wallet.Rows.{Ledger, CoinWallet, Database, wallet_has_id}
use ai_cinema_be.Wallet.Members.{
  new_wallet, or_new, wallet_of_user, wallet_of, affordability, planned_split, afford,
}
use ai_cinema_be.Settings.{PlatformSetting}
use ai_cinema_be.Common.{none, arith, Option, refl, ap, ◌↔◌, some, true, ◌≡◌, ℕ}
use ai_cinema_be.Common.Transaction.{ok_snd, ok_fst, ◌>>=◌, ok}
use ai_cinema_be.Wallet.Lots.{spendable_bonus}

-- The planned split never exceeds what the wallet holds, and it is the whole price exactly where
-- `enoughCoins` says so; otherwise `missingCoins` is what is left of the price without it.
pub afford-split :
    (wallet : CoinWallet) (bonus price : ℤ)
    → pos 0 ≤ℤ wallet.main_balance
    → pos 0 ≤ℤ bonus
    → pos 0 ≤ℤ price
    → let a = afford wallet bonus price in
      (pos 0 ≤ℤ a.planned_split.main_coins)
      × (a.planned_split.main_coins ≤ℤ wallet.main_balance)
      × (pos 0 ≤ℤ a.planned_split.bonus_coins)
      × (a.planned_split.bonus_coins ≤ℤ bonus)
      × (a.planned_split.main_coins +ℤ a.planned_split.bonus_coins +ℤ a.missing_coins ≡ price)
      × ((a.enough_coins ≡ true) ↔ (a.missing_coins ≡ pos 0))
unfolding afford planned_split
afford-split wallet bonus price pm pb pp =
    let first = min_ℤ wallet.main_balance price in
    let second = min_ℤ bonus (price -ℤ first) in
    (
      omega bound_laws,
      omega bound_laws,
      omega bound_laws,
      omega bound_laws,
      omega bound_laws,
      (
        (λ h. let covers = leb_ℤ→le price (first +ℤ second) h in omega bound_laws),
        (λ h. le→leb_ℤ price (first +ℤ second) (let none_missing = parts_eq h in omega bound_laws)),
      ),
    )

pub afford_enough :
    (wallet : CoinWallet) (bonus price : ℤ)
    → (afford wallet bonus price).enough_coins ≡ true
    → price ≤ℤ wallet.main_balance +ℤ bonus
unfolding afford planned_split
afford_enough wallet bonus price h =
    let first = min_ℤ wallet.main_balance price in
    let covers = leb_ℤ→le price (first +ℤ min_ℤ bonus (price -ℤ first)) h in omega bound_laws

module _ (db : Database) (s : PlatformSetting) (user now : ℕ) (l : Ledger) where
  -- A member with a wallet keeps it: opening it again changes nothing.
  pub wallet_of_old :
      (wallet : CoinWallet)
      → wallet_of_user user l.wallets ≡ some wallet
      → wallet_of db s user l ≡ ok (wallet, l)
  unfolding wallet_of or_new
  wallet_of_old wallet h = ap (λ x. or_new db s x user l) h

  or_new_found :
      (o : Option CoinWallet) {wallet : CoinWallet} {after : Ledger}
      → wallet_of_user user l.wallets ≡ o
      → or_new db s o user l ≡ ok (wallet, after)
      → wallet_of_user user after.wallets ≡ some wallet
  unfolding or_new new_wallet wallet_of_user
  or_new_found (some w) e h = rw (← ok_fst h, ← ok_snd h) e
  or_new_found none e h = rw (← ok_fst h, ← ok_snd h) (ground arith)

  -- The wallet that is opened is the member's wallet from then on.
  pub wallet_of_found :
      {wallet : CoinWallet} {after : Ledger}
      → wallet_of db s user l ≡ ok (wallet, after)
      → wallet_of_user user after.wallets ≡ some wallet
  unfolding wallet_of
  wallet_of_found h = or_new_found (wallet_of_user user l.wallets) refl h

  pub affordability_old :
      (wallet : CoinWallet) (price : ℤ)
      → wallet_of_user user l.wallets ≡ some wallet
      → affordability db s user price now l
        ≡ ok (afford wallet (spendable_bonus wallet.id now l) price, l)
  unfolding affordability
  affordability_old wallet price h = rw (wallet_of_old wallet h, ◌>>=◌) refl

module _ (db : Database) (s : PlatformSetting) (user now : ℕ) (l : Ledger) where
  -- Opening a wallet is idempotent: the second call answers with the same wallet and writes nothing.
  pub wallet_of_twice :
      {wallet : CoinWallet} {after : Ledger}
      → wallet_of db s user l ≡ ok (wallet, after)
      → wallet_of db s user after ≡ ok (wallet, after)
  wallet_of_twice h = wallet_of_old db s user now _ _ (wallet_of_found db s user now l h)
