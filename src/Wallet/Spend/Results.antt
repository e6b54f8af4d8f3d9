-- ===== src/Wallet/Spend/Results.antt =====
-- The answers of `spend` and `credit`, on a new key and on an old one.
use ai_cinema_be.Wallet.Rows.{
  CoinTransaction, CoinMovement, CoinWallet, CreditRequest, SpendRequest, Database, Ledger,
  wallet_has_id, lot_has_id,
}
use ai_cinema_be.Settings.{PlatformSetting}
use ai_cinema_be.Common.{ap, ◌∙◌, sym, subst, inr, inl, Option-cases, none, some, ◌≡◌, ℕ}
use ai_cinema_be.Wallet.Consistent.{Moves-IsConsistent, IsBalanced, IsConsistent}
use ai_cinema_be.Wallet.Spend.{
  movement_of, debit, pay_in, unless_replayed, or_else, replayed, credit, spend,
}
use ai_cinema_be.Common.Table.{find_row-All, find_row}
use ai_cinema_be.Common.Transaction.{ok_snd, ok}
use ai_cinema_be.Common.Int.{◌≤ℤ◌, pos}
use ai_cinema_be.Wallet.Spend.Debit.{debit-Paid}
use ai_cinema_be.Wallet.Spend.Credit.{pay_in-Moves}

-- The main Coins of a wallet that is in agreement with its ledger are not overdrawn.
pub main_nonneg :
    (l : Ledger) (w : ℕ)
    → IsConsistent l
    → (wallet : CoinWallet) → find_row w l.wallets ≡ some wallet
    → pos 0 ≤ℤ wallet.main_balance
main_nonneg l w c wallet found =
    (find_row-All (IsBalanced l.lots l.transactions) w l.wallets wallet c.balanced
      found).main_nonneg

module _ (db : Database) (s : PlatformSetting) (w now : ℕ) (l : Ledger) where
  pub spend_new :
      (r : SpendRequest)
      → replayed r.idempotency_key l ≡ none
      → spend db s w r now l ≡ debit db s w r now l
  unfolding spend unless_replayed
  spend_new r e = ap (λ x. unless_replayed x (debit db s w r now) l) e

  pub spend_old :
      (r : SpendRequest) (entry : CoinTransaction)
      → replayed r.idempotency_key l ≡ some entry
      → spend db s w r now l ≡ ok (movement_of entry, l)
  unfolding spend unless_replayed
  spend_old r entry e = ap (λ x. unless_replayed x (debit db s w r now) l) e

  pub credit_new :
      (r : CreditRequest)
      → replayed r.idempotency_key l ≡ none
      → credit db s w r now l ≡ pay_in db s w r now l
  unfolding credit unless_replayed
  credit_new r e = ap (λ x. unless_replayed x (pay_in db s w r now) l) e

  pub credit_old :
      (r : CreditRequest) (entry : CoinTransaction)
      → replayed r.idempotency_key l ≡ some entry
      → credit db s w r now l ≡ ok (movement_of entry, l)
  unfolding credit unless_replayed
  credit_old r entry e = ap (λ x. unless_replayed x (pay_in db s w r now) l) e

module _ (db : Database) (s : PlatformSetting) (w : ℕ) where
  -- Starting from agreement, a payment that succeeds leaves the wallets, the lots and the ledger in
  -- agreement, whether it is new or replayed.
  pub spend-IsConsistent :
      (r : SpendRequest) (now : ℕ) (l : Ledger) {m : CoinMovement} {after : Ledger}
      → IsConsistent l
      → spend db s w r now l ≡ ok (m, after)
      → IsConsistent after
  spend-IsConsistent r now l c h = elim (Option-cases (replayed r.idempotency_key l)) [
    | inl new ↦
        Moves-IsConsistent w _ _ l _ c
          (debit-Paid db s w r now l c.lots_ok.0 (sym (spend_new db s w now l r new) ∙ h)).moved
    | inr (entry, old) ↦
        subst IsConsistent (ok_snd (sym (spend_old db s w now l r entry old) ∙ h)) c
  ]

  -- Starting from agreement, a successful credit that names no lot, and takes nothing, leaves the
  -- wallets, the lots and the ledger in agreement, whether it is new or replayed.
  pub credit-IsConsistent :
      (r : CreditRequest) (now : ℕ) (l : Ledger) {m : CoinMovement} {after : Ledger}
      → IsConsistent l
      → r.lot_id ≡ none
      → pos 0 ≤ℤ or_else r.main_amount (pos 0)
      → pos 0 ≤ℤ or_else r.bonus_amount (pos 0)
      → credit db s w r now l ≡ ok (m, after)
      → IsConsistent after
  credit-IsConsistent r now l c own pm pb h = elim (Option-cases (replayed r.idempotency_key l)) [
    | inl new ↦ Moves-IsConsistent w _ _ l _ c (
        pay_in-Moves db s w r now l own pm pb (main_nonneg l w c)
          (sym (credit_new db s w now l r new) ∙ h))
    | inr (entry, old) ↦
        subst IsConsistent (ok_snd (sym (credit_old db s w now l r entry old) ∙ h)) c
  ]
