-- ===== src/Wallet/Reach.antt =====
-- The wallets along any sequence of movements.
use ai_cinema_be.Wallet.Rows.{
  CoinLot, AdjustmentRequest, CreditRequest, CoinMovement, SpendRequest, Database, Ledger,
  wallet_has_id, lot_has_id,
}
use ai_cinema_be.Settings.{PlatformSetting}
use ai_cinema_be.Wallet.Consistent.{IsConsistent}
use ai_cinema_be.Common.{true, some, none, ◌≡◌, ℕ}
use ai_cinema_be.Wallet.Spend.Results.{credit-IsConsistent, spend-IsConsistent}
use ai_cinema_be.Wallet.Spend.{credit, or_else, spend}
use ai_cinema_be.Wallet.Adjust.Laws.{adjust-IsConsistent}
use ai_cinema_be.Wallet.Expiry.Laws.{expire-IsConsistent}
use ai_cinema_be.Common.Transaction.{ok}
use ai_cinema_be.Common.Int.{◌≤ℤ◌, pos}
use ai_cinema_be.Wallet.Adjust.{adjust}
use ai_cinema_be.Common.Table.{find_row}
use ai_cinema_be.Wallet.Expiry.{expire, still_open}

-- One movement that goes through: a payment, a credit with a lot of its own, a correction, or the
-- expiry of a lot that is as it was read.
pub data Step (db : Database) (s : PlatformSetting) : Ledger → Ledger → Type 0 where
  spends :
      (w : ℕ) (r : SpendRequest) (now : ℕ) (l after : Ledger) (m : CoinMovement)
      → spend db s w r now l ≡ ok (m, after)
      → Step db s l after
  credits :
      (w : ℕ) (r : CreditRequest) (now : ℕ) (l after : Ledger) (m : CoinMovement)
      → r.lot_id ≡ none
      → pos 0 ≤ℤ or_else r.main_amount (pos 0)
      → pos 0 ≤ℤ or_else r.bonus_amount (pos 0)
      → credit db s w r now l ≡ ok (m, after)
      → Step db s l after
  adjusts :
      (w : ℕ) (r : AdjustmentRequest) (now : ℕ) (l after : Ledger) (m : CoinMovement)
      → adjust db s w r now l ≡ ok (m, after)
      → Step db s l after
  expires :
      (lot : CoinLot) (now : ℕ) (l after : Ledger)
      → find_row lot.id l.lots ≡ some lot
      → still_open (some lot) ≡ true
      → expire db s lot now l ≡ ok (tt, after)
      → Step db s l after

pub data Reach (db : Database) (s : PlatformSetting) : Ledger → Ledger → Type 0 where
  here : (l : Ledger) → Reach db s l l
  after_step : (l mid after : Ledger) → Reach db s l mid → Step db s mid after → Reach db s l after

Step-IsConsistent :
    (db : Database) (s : PlatformSetting) (l after : Ledger)
    → Step db s l after
    → IsConsistent l
    → IsConsistent after
Step-IsConsistent db s l after (spends w r now a b m h) c = spend-IsConsistent db s w r now l c h
Step-IsConsistent db s l after (credits w r now a b m own p q h) c =
    credit-IsConsistent db s w r now l c own p q h
Step-IsConsistent db s l after (adjusts w r now a b m h) c = adjust-IsConsistent db s w r now l c h
Step-IsConsistent db s l after (expires lot now a b found held h) c =
    expire-IsConsistent db s lot now l c found held h

-- Starting from a ledger in agreement, after any sequence of successful payments, credits that take
-- nothing and open lots of their own, corrections and expiries of lots that are as they were read,
-- in any order and on any wallets, every counter is still the sum of its ledger rows, every bonus
-- counter the sum of its lots, and no main balance is negative.
pub Reach-IsConsistent :
    (db : Database) (s : PlatformSetting) (l after : Ledger)
    → Reach db s l after
    → IsConsistent l
    → IsConsistent after
Reach-IsConsistent db s l after (here k) c = c
Reach-IsConsistent db s l after (after_step a mid b past step) c =
    Step-IsConsistent db s mid after step (Reach-IsConsistent db s l mid past c)
