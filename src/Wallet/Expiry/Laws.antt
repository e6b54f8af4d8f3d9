-- ===== src/Wallet/Expiry/Laws.antt =====
-- What the expiry of one lot does.
use ai_cinema_be.Common.{ℕ, ◌≡◌, ◌∙◌, ap, refl, List, arith, ◌==◌, some, true, false, Bool}
use ai_cinema_be.Common.Int.{ℤ, pos, ◌+ℤ◌, neg, ◌≤ℤ◌, int_laws, parts_eq}
use ai_cinema_be.Common.Table.{
  find_row, update_row, sum_of-update, update_row-IsUnique, update_row-All,
}
use ai_cinema_be.Common.Transaction.{ok, bind-eq-ok, ok_snd}
use ai_cinema_be.Settings.{PlatformSetting}
use ai_cinema_be.Wallet.Rows.{CoinWallet, CoinLot, Ledger, Database, lot_has_id, wallet_has_id}
use ai_cinema_be.Wallet.Sums.{share, lot_share, bonus_total, IsNonneg}
use ai_cinema_be.Wallet.Consistent.{Moves, IsConsistent, Moves-IsConsistent}
use ai_cinema_be.Wallet.Spend.Results.{main_nonneg}
use ai_cinema_be.Wallet.Spend.{expire_bonus}
use ai_cinema_be.Wallet.Spend.Credit.{expire_bonus-Moves}
use ai_cinema_be.Wallet.Expiry.{closed, expire, still_open}

share_zeroed :
    (b : Bool) (x : ℤ) (t u : ℤ) → t +ℤ share b x ≡ u +ℤ share b (pos 0) → t ≡ u +ℤ share b (neg x)
share_zeroed true x t u h = omega (int_laws, parts_eq h)
share_zeroed false x t u h = omega (int_laws, parts_eq h)

pub bonus_total-closed :
    (v now : ℕ) (lot : CoinLot) (lots : List CoinLot)
    → find_row lot.id lots ≡ some lot
    → bonus_total v (update_row lot.id (closed now) lots)
      ≡ bonus_total v lots +ℤ share (lot.wallet_id == v) (neg lot.remaining_amount)
bonus_total-closed v now lot lots found =
    share_zeroed (lot.wallet_id == v) lot.remaining_amount _ _
      (sum_of-update (lot_share v) lot.id (closed now) lots lot found)

-- A lot that is as it was read loses what it holds, and its wallet as much.
pub expire-Moves :
    (db : Database) (s : PlatformSetting) (lot : CoinLot) (now : ℕ) (l : Ledger) {after : Ledger}
    → find_row lot.id l.lots ≡ some lot
    → still_open (some lot) ≡ true
    → ((wallet : CoinWallet)
        → find_row lot.wallet_id l.wallets ≡ some wallet
        → pos 0 ≤ℤ wallet.main_balance)
    → expire db s lot now l ≡ ok (tt, after)
    → Moves lot.wallet_id (pos 0) (neg lot.remaining_amount) l after
unfolding expire
expire-Moves db s lot now l found held nonneg h =
    let test = ap still_open found ∙ held in
    let lots = update_row lot.id (closed now) l.lots in
    let (m, end, expired, last) =
      bind-eq-ok
        (expire_bonus db s lot.wallet_id lot.id lot.remaining_amount (record l { lots = lots })) _
        (rw test at h) in
    rw (← ok_snd last) (
      expire_bonus-Moves db s lot.wallet_id lot.id lot.remaining_amount l lots
        (λ v. bonus_total-closed v now lot l.lots found)
        (λ k. (
          update_row-IsUnique lot.id _ l.lots (λ y. refl) k.0,
          update_row-All IsNonneg lot.id _ l.lots (λ y p. omega arith) k.1,
        ))
        nonneg expired)

-- Starting from agreement, the successful expiry of a lot that is stored as it was read, and still
-- open, leaves the wallets, the lots and the ledger in agreement.
pub expire-IsConsistent :
    (db : Database) (s : PlatformSetting) (lot : CoinLot) (now : ℕ) (l : Ledger) {after : Ledger}
    → IsConsistent l
    → find_row lot.id l.lots ≡ some lot
    → still_open (some lot) ≡ true
    → expire db s lot now l ≡ ok (tt, after)
    → IsConsistent after
expire-IsConsistent db s lot now l c found held h =
    Moves-IsConsistent lot.wallet_id _ _ l _ c
      (expire-Moves db s lot now l found held (main_nonneg l lot.wallet_id c) h)
