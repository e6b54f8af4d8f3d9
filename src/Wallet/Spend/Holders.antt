-- ===== src/Wallet/Spend/Holders.antt =====
-- A credit takes no wallet away from anyone.
use ai_cinema_be.Common.{
  ℕ, ◌≡◌, ◌∙◌, ap, sym, not, ◌&&◌, some, none, Option, Option-cases, inl, inr, Bool-cases,
}
use ai_cinema_be.Common.Int.{ℤ, pos, eqb_ℤ, leb_ℤ}
use ai_cinema_be.Common.Transaction.{ok, bind-eq-ok, bind-require-eq-ok, ok_snd}
use ai_cinema_be.Common.Table.{update_row}
use ai_cinema_be.Settings.{PlatformSetting}
use ai_cinema_be.Wallet.Rows.{
  CoinWallet, CreditRequest, CoinMovement, Ledger, Database, wallet_has_id,
}
use ai_cinema_be.Wallet.Lots.{locked, set_balances}
use ai_cinema_be.Wallet.Members.{wallet_of_user}
use ai_cinema_be.Wallet.Spend.{
  or_else, create_lot, open_lot, lot_for, pay_in, write_entries, credit, replayed,
}
use ai_cinema_be.Wallet.Spend.Build.{locked_ok, write_entries_ok}
use ai_cinema_be.Wallet.Spend.Results.{credit_new, credit_old}
use ai_cinema_be.Access.Episodes.Twice.{wallet_of_user-update}

module _ (db : Database) (s : PlatformSetting) (w : ℕ) (r : CreditRequest) (now : ℕ)
    (l : Ledger) where
  lot_for-wallets :
      (given : Option ℕ) (bonus : ℤ) {lot : Option ℕ} {after : Ledger}
      → lot_for db s given w r bonus now l ≡ ok (lot, after)
      → after.wallets ≡ l.wallets
  unfolding lot_for open_lot create_lot
  lot_for-wallets (some id) bonus h = ap (λ (x : Ledger). x.wallets) (sym (ok_snd h))
  lot_for-wallets none bonus h = elim (Bool-cases (leb_ℤ bonus (pos 0))) [
    | inl t ↦ ap (λ (x : Ledger). x.wallets) (sym (ok_snd (rw t at h)))
    | inr t ↦ ap (λ (x : Ledger). x.wallets) (sym (ok_snd (rw t at h)))
  ]

  pay_in-wallets :
      {m : CoinMovement} {after : Ledger}
      → pay_in db s w r now l ≡ ok (m, after)
      → (main : ℤ) × (bonus : ℤ) × (after.wallets
          ≡ update_row w (set_balances main bonus) l.wallets)
  unfolding pay_in
  pay_in-wallets h =
      let main = or_else r.main_amount (pos 0) in
      let bonus = or_else r.bonus_amount (pos 0) in
      let (something, h₁) =
        bind-require-eq-ok (not (eqb_ℤ main (pos 0) && eqb_ℤ bonus (pos 0))) _ l _ h in
      let (wallet, l₁, lk, h₂) = bind-eq-ok (locked w l) _ h₁ in
      let (found, same) = locked_ok w l lk in
      let (lot, l₂, opened, h₃) =
        bind-eq-ok (lot_for db s r.lot_id w r bonus now l) _ (rw same at h₂) in
      let (first, end, written, last) = bind-eq-ok (write_entries db w _ _ _ l₂) _ h₃ in
      let (mid, added, eq) = write_entries_ok db w _ _ _ l₂ written in
      (
        _,
        _,
        ap (λ (x : Ledger). x.wallets) (sym (ok_snd last) ∙ eq)
            ∙ ap (update_row w (set_balances _ _))
                (added.same_wallets ∙ lot_for-wallets r.lot_id bonus opened),
      )

  pub credit-wallet_of_user :
      (user : ℕ) (x : CoinWallet) {m : CoinMovement} {after : Ledger}
      → wallet_of_user user l.wallets ≡ some x
      → credit db s w r now l ≡ ok (m, after)
      → (y : CoinWallet) × (wallet_of_user user after.wallets ≡ some y)
  credit-wallet_of_user user x own h = elim (Option-cases (replayed r.idempotency_key l)) [
    | inl new ↦
        let (main, bonus, written) = pay_in-wallets (sym (credit_new db s w now l r new) ∙ h) in
        let (y, e) = wallet_of_user-update user w main bonus l.wallets x own in
        (y, ap (wallet_of_user user) written ∙ e)
    | inr (entry, old) ↦ (
      x,
      ap (λ (z : Ledger). wallet_of_user user z.wallets)
            (sym (ok_snd (sym (credit_old db s w now l r entry old) ∙ h)))
          ∙ own,
    )
  ]
