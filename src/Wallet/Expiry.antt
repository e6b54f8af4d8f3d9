-- ===== src/Wallet/Expiry.antt =====
-- bonus-expiry.sweep.ts: expired lots are closed and their Coins leave the wallet. A notification
-- row changes no wallet and is left out.
pub mod Sweep
pub mod Laws
use ai_cinema_be.Common.{
  ℕ, zero, suc, ◌+◌, Bool, true, false, ◌&&◌, not, Option, none, some, List, [], ◌∷◌, if◌then◌else◌,
  leb, ltb,
}
use ai_cinema_be.Common.Int.{ℤ, pos, ◌+ℤ◌, ltb_ℤ}
use ai_cinema_be.Common.Lists.{keep, length, take}
use ai_cinema_be.Common.Table.{find_row, update_row}
use ai_cinema_be.Common.Transaction.{Tx, Result, ok, err, pure, gets, modify, ◌>>=◌, ◌>>◌}
use ai_cinema_be.Settings.{PlatformSetting}
use ai_cinema_be.Wallet.Rows.{CoinLot, Ledger, Database, lot_has_id}
use ai_cinema_be.Wallet.Lots.{is_open}
use ai_cinema_be.Wallet.Spend.{expire_bonus}

-- `const BATCH = 200`
abbrev pub batch : ℕ
batch = 200

-- The `where` of the sweep's query.
abbrev pub is_due : ℕ → CoinLot → Bool
is_due now lot =
    ltb_ℤ (pos 0) lot.remaining_amount && (is_open lot.closed_at && leb lot.expires_at now)

unfoldable pub due_lots : Database → ℕ → Ledger → List CoinLot
due_lots db now l = take batch (db.order_by_expiry (keep (is_due now) l.lots))

abbrev pub closed : ℕ → CoinLot → CoinLot
closed now lot = record lot { remaining_amount = pos 0; closed_at = some now }

-- The guard of the `updateMany` of one lot: it is still open and holds Coins.
abbrev pub still_open : Option CoinLot → Bool
still_open none = false
still_open (some lot) = is_open lot.closed_at && ltb_ℤ (pos 0) lot.remaining_amount

module _ (db : Database) (s : PlatformSetting) where
  -- The transaction of one lot, which was read before the lock was taken.
  unfoldable pub expire : CoinLot → ℕ → Tx Ledger (Unit {0})
  expire lot now = do
    current ← gets (λ l. find_row lot.id l.lots)
    if not (still_open current) then pure tt else do
      modify (λ l. record l { lots = update_row lot.id (closed now) l.lots })
      expire_bonus db s lot.wallet_id lot.id lot.remaining_amount
      pure tt
