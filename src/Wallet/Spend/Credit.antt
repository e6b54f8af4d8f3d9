-- ===== src/Wallet/Spend/Credit.antt =====
-- What `credit` and `expire_bonus` move.
use ai_cinema_be.Common.{◌==◌, List, ℕ, ◌≡◌, refl, [], ◌∷◌, some, none, not, ◌&&◌}
use ai_cinema_be.Common.Int.{parts_eq, neg, ◌+ℤ◌, ℤ, pos, ◌≤ℤ◌, eqb_ℤ, int_laws}
use ai_cinema_be.Common.Table.{find_row}
use ai_cinema_be.Common.Transaction.{ok, bind-eq-ok, bind-require-eq-ok, ok_snd, ok_fst}
use ai_cinema_be.Settings.{PlatformSetting}
use ai_cinema_be.Wallet.Sums.{share, share_zero, bonus_total, IsNonneg}
use ai_cinema_be.Common.Lists.{All}
use ai_cinema_be.Common.Table.{IsUnique}
use ai_cinema_be.Wallet.Rows.{
  CoinLot, CoinWallet, EntryInput, CreditRequest, CoinMovement, Ledger, Database, lot_has_id,
  wallet_has_id,
}
use ai_cinema_be.Wallet.Lots.{locked}
use ai_cinema_be.Wallet.Consistent.{Moves}
use ai_cinema_be.Wallet.Spend.{or_else, lot_for, pay_in, expire_bonus, write_entries}
use ai_cinema_be.Wallet.Spend.Build.{Writes, locked_ok, Moves-of_Writes}
use ai_cinema_be.Wallet.Spend.Opening.{Opens, lot_for-Opens}

-- One ledger row and the lots that were opened for it.
pub Opens-Writes :
    (w : ℕ) (main bonus : ℤ) (l after : Ledger) (e : EntryInput) (o : Opens w bonus l after)
    → e.wallet_id ≡ w
    → e.main_amount ≡ main
    → e.bonus_amount ≡ bonus
    → Writes w main bonus l o.lots (e ∷ [])
Opens-Writes w main bonus l after e o ew em eb = record {
  main_written = λ v. rw (ew, em) (omega int_laws);
  bonus_written = λ v. rw (ew, eb) (omega int_laws);
  lots_written = o.opened;
  lots_kept = o.kept;
}

module _ (db : Database) (s : PlatformSetting) (w : ℕ) where
  pub pay_in-Moves :
      (r : CreditRequest) (now : ℕ) (l : Ledger) {m : CoinMovement} {after : Ledger}
      → r.lot_id ≡ none
      → pos 0 ≤ℤ or_else r.main_amount (pos 0)
      → pos 0 ≤ℤ or_else r.bonus_amount (pos 0)
      → ((wallet : CoinWallet) → find_row w l.wallets ≡ some wallet → pos 0 ≤ℤ wallet.main_balance)
      → pay_in db s w r now l ≡ ok (m, after)
      → Moves w m.main_coins m.bonus_coins l after
  unfolding pay_in
  pay_in-Moves r now l own pm pb nonneg h =
      let main = or_else r.main_amount (pos 0) in
      let bonus = or_else r.bonus_amount (pos 0) in
      let (something, h₁) =
        bind-require-eq-ok (not (eqb_ℤ main (pos 0) && eqb_ℤ bonus (pos 0))) _ l _ h in
      let (wallet, l₁, lk, h₂) = bind-eq-ok (locked w l) _ h₁ in
      let (found, same) = locked_ok w l lk in
      let (lot, l₂, opened, h₃) =
        bind-eq-ok (lot_for db s r.lot_id w r bonus now l) _ (rw same at h₂) in
      let o = lot_for-Opens db s w r.lot_id r bonus now l own pb opened in
      let (first, end, written, last) = bind-eq-ok (write_entries db w _ _ _ l₂) _ h₃ in
      rw (← ok_fst last, ← ok_snd last)
        (Moves-of_Writes db w main bonus l end o.lots _ wallet _ _ first found
          (Opens-Writes w main bonus l l₂ _ o refl refl refl) refl refl
          (omega (int_laws, nonneg wallet found)) (rw o.lots_only at written))

  -- The counter loses `amount`; the caller has taken it out of the lots of `l`.
  pub expire_bonus-Moves :
      (lot_id : ℕ) (amount : ℤ) (l : Ledger) (lots : List CoinLot) {m : CoinMovement}
      {after : Ledger}
      → ((v : ℕ) → bonus_total v lots ≡ bonus_total v l.lots +ℤ share (w == v) (neg amount))
      → (IsUnique l.lots × All IsNonneg l.lots → IsUnique lots × All IsNonneg lots)
      → ((wallet : CoinWallet) → find_row w l.wallets ≡ some wallet → pos 0 ≤ℤ wallet.main_balance)
      → expire_bonus db s w lot_id amount (record l { lots = lots }) ≡ ok (m, after)
      → Moves w (pos 0) (neg amount) l after
  unfolding expire_bonus
  expire_bonus-Moves lot_id amount l lots lost kept nonneg h =
      let mid : Ledger = record l { lots = lots } in
      let (wallet, l₁, lk, h₁) = bind-eq-ok (locked w mid) _ h in
      let (found, same) = locked_ok w mid lk in
      let (first, end, written, last) =
        bind-eq-ok (write_entries db w _ _ _ mid) _ (rw same at h₁) in
      rw (← ok_snd last) (
        Moves-of_Writes db w (pos 0) (neg amount) l end lots _ wallet _ _ first found
          (record {
            main_written = λ v. omega (int_laws, parts_eq (share_zero (w == v)));
            bonus_written = λ v. omega int_laws;
            lots_written = lost;
            lots_kept = kept;
          })
          (omega int_laws) (omega int_laws) (omega (int_laws, nonneg wallet found)) written)
