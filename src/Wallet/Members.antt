-- ===== src/Wallet/Members.antt =====
-- wallet.service.ts: the wallet of a member, and what every purchase screen asks of it.
pub mod Laws
pub mod Payment
use mathlib.Core.Option
use ai_cinema_be.Common.{
  ◌&&◌, ℕ, Option, none, some, List, [], ◌∷◌, true, false, map, if◌then◌else◌, ◌==◌, ltb, Bool,
}
use ai_cinema_be.Common.Int.{ℤ, pos, ◌+ℤ◌, ◌-ℤ◌, leb_ℤ, ltb_ℤ, min_ℤ, max_ℤ}
use ai_cinema_be.Common.Lists.{keep, take}
use ai_cinema_be.Common.Transaction.{Tx, ok, pure, gets, throw, ◌>>=◌, ◌>>◌}
use ai_cinema_be.Settings.{PlatformSetting}
use ai_cinema_be.Wallet.Rows.{
  admin, CoinLotSource, CoinEntryType, Ledger, Database, CoinLot, CoinWallet, wallet_has_id,
}
use ai_cinema_be.Wallet.Lots.{is_open, spendable_lots, spendable_bonus}
use ai_cinema_be.Common.Errors.{insufficient_coins, unprocessable, unique_violation}
use ai_cinema_be.Wallet.Spend.{credit}

-- `EXPIRING_LIMIT`
abbrev pub expiring_limit : ℕ
expiring_limit = 5

-- `CoinSplit`
pub record CoinSplit : Type 0 where
  pub main_coins : ℤ
  pub bonus_coins : ℤ

-- The answer of `affordability`.
pub record Affordability : Type 0 where
  pub required_coins : ℤ
  pub main_balance : ℤ
  pub bonus_balance : ℤ
  pub enough_coins : Bool
  pub missing_coins : ℤ
  pub planned_split : CoinSplit

pub record ExpiringBonus : Type 0 where
  pub lot_id : ℕ
  pub amount : ℤ
  pub expires_at : ℕ

-- The answer of `view`.
pub record WalletView : Type 0 where
  pub main_balance : ℤ
  pub bonus_balance : ℤ
  pub version : ℕ
  pub expiring_bonus : List ExpiringBonus

-- `findUnique({ where: { userId } })`: a user has at most one wallet.
unfoldable pub wallet_of_user : ℕ → List CoinWallet → Option CoinWallet
wallet_of_user user_id [] = none
wallet_of_user user_id (w ∷ ws) = if w.user_id == user_id then some w else wallet_of_user user_id ws

unfoldable pub planned_split : ℤ → ℤ → ℤ → CoinSplit
planned_split main_balance bonus_balance amount_coins =
    let main_coins = min_ℤ main_balance amount_coins in
    record {
      main_coins = main_coins;
      bonus_coins = min_ℤ bonus_balance (amount_coins -ℤ main_coins);
    }

-- What `affordability` answers for a wallet and its spendable bonus Coins.
unfoldable pub afford : CoinWallet → ℤ → ℤ → Affordability
afford wallet bonus amount_coins =
    let split = planned_split wallet.main_balance bonus amount_coins in
    record {
      required_coins = amount_coins;
      main_balance = wallet.main_balance;
      bonus_balance = bonus;
      enough_coins = leb_ℤ amount_coins (split.main_coins +ℤ split.bonus_coins);
      missing_coins = max_ℤ (pos 0) (amount_coins -ℤ wallet.main_balance -ℤ bonus);
      planned_split = split;
    }

-- `openLots` without a further condition, and with the one of `view`.
abbrev pub is_usable : ℕ → CoinLot → Bool
is_usable wallet_id lot =
    lot.wallet_id == wallet_id && (ltb_ℤ (pos 0) lot.remaining_amount && is_open lot.closed_at)

module _ (db : Database) (s : PlatformSetting) where
  -- A wallet with the defaults of its columns.
  unfoldable pub new_wallet : ℕ → Tx Ledger CoinWallet
  new_wallet user_id l =
      let wallet : CoinWallet = record {
        id = db.fresh_id (map (λ w. w.id) l.wallets);
        user_id = user_id;
        main_balance = pos 0;
        bonus_balance = pos 0;
        version = 0;
      } in
      ok (wallet, record l { wallets = wallet ∷ l.wallets })

  -- The two ends of an `upsert` that updates nothing.
  unfoldable pub or_new : Option CoinWallet → ℕ → Tx Ledger CoinWallet
  or_new (some wallet) user_id = pure wallet
  or_new none user_id = new_wallet user_id

  unfoldable pub wallet_of : ℕ → Tx Ledger CoinWallet
  wallet_of user_id l = or_new (wallet_of_user user_id l.wallets) user_id l

  unfoldable pub open_for_new_account : ℕ → ℕ → Tx Ledger CoinWallet
  open_for_new_account user_id now = do
    found ← gets (λ l. wallet_of_user user_id l.wallets)
    wallet ← elim found [ some w ↦ throw unique_violation | none ↦ new_wallet user_id ]
    if ltb_ℤ (pos 0) s.new_member_bonus_coins
        then credit db s wallet.id
            (record {
              entry_type = CoinEntryType.signup_bonus;
              main_amount = none;
              bonus_amount = some s.new_member_bonus_coins;
              lot_source = CoinLotSource.signup_bonus;
              expires_in_days = none;
              lot_id = none;
              rate_vnd = none;
              reference_type = some admin;
              reference_id = none;
              idempotency_key = none;
              created_by_id = none;
              reverses_id = none;
            })
            now
          >> pure wallet
        else pure wallet

  unfoldable pub view : ℕ → ℕ → Tx Ledger WalletView
  view user_id now = do
    wallet ← wallet_of user_id
    lots ← gets (λ l. take expiring_limit (spendable_lots db wallet.id now l))
    pure (record {
      main_balance = wallet.main_balance;
      bonus_balance = wallet.bonus_balance;
      version = wallet.version;
      expiring_bonus =
          map
            (λ (lot : CoinLot). record {
              lot_id = lot.id;
              amount = lot.remaining_amount;
              expires_at = lot.expires_at;
            })
            lots;
    })

  unfoldable pub affordability : ℕ → ℤ → ℕ → Tx Ledger Affordability
  affordability user_id amount_coins now = do
    wallet ← wallet_of user_id
    bonus ← gets (spendable_bonus wallet.id now)
    pure (afford wallet bonus amount_coins)

  unfoldable pub assert_affordable : ℕ → ℤ → ℕ → Tx Ledger CoinSplit
  assert_affordable user_id amount_coins now = do
    plan ← affordability user_id amount_coins now
    if plan.enough_coins
        then pure plan.planned_split
        else throw (
            unprocessable (
              insufficient_coins (record {
                required_coins = plan.required_coins;
                main_balance = some plan.main_balance;
                bonus_balance = some plan.bonus_balance;
                missing_coins = some plan.missing_coins;
              })))

  -- `adminView`, with its `openLots`.
  unfoldable pub admin_view : ℕ → Ledger → Option (CoinWallet × List CoinLot)
  admin_view user_id l =
      Option.map (λ (w : CoinWallet). (w, db.order_by_expiry (keep (is_usable w.id) l.lots)))
        (wallet_of_user user_id l.wallets)
