-- ===== src/Wallet/Adjust/Laws.antt =====
-- What a correction moves.
use ai_cinema_be.Wallet.Spend.{write_entries, create_lot, or_else}
use ai_cinema_be.Wallet.Rows.{
  CoinLotSource, CoinMovement, Ledger, AdjustmentRequest, Database, CoinWallet, wallet_has_id,
  lot_has_id,
}
use ai_cinema_be.Wallet.Lots.{consume_lots, bonus_of, spendable_lots, locked, take_lots, LotDebit}
use ai_cinema_be.Common.Int.{
  neg-neg, ◌+ℤ◌, pos, ℤ, eqb_ℤ, ltb_ℤ, leb_ℤ→le, eq_of_parts, leb_ℤ, ◌-ℤ◌, parts_eq, int_laws, neg,
  ◌≤ℤ◌,
}
use ai_cinema_be.Common.{
  sym, ◌∙◌, ap, String, Option, List, ℕ, true, some, ◌&&◌, not, refl, [], inr, arith, none, inl,
  Bool-cases, ◌==◌, ◌∷◌, ◌≡◌,
}
use ai_cinema_be.Settings.{PlatformSetting}
use ai_cinema_be.Wallet.Adjust.{
  adjust, debit_main, debit_bonus, correction_lot, adjustment_row, bonus_rows, bonus_less_debits,
}
use ai_cinema_be.Wallet.Spend.Entries.{bonus_input, main_input}
use ai_cinema_be.Common.Transaction.{bind-require-eq-ok, ok_snd, bind-eq-ok, ok}
use ai_cinema_be.Wallet.Sums.{share_add, share_zero, share-neg, debited, share}
use ai_cinema_be.Wallet.Consistent.{Moves, IsConsistent, Moves-IsConsistent}
use ai_cinema_be.Wallet.Spend.Results.{main_nonneg}
use ai_cinema_be.Wallet.Spend.Opening.{create_lot-Opens, Opens-none, Opens}
use ai_cinema_be.Wallet.Spend.Build.{Moves-of_Writes, locked_ok}
use ai_cinema_be.Wallet.Spend.Credit.{Opens-Writes}
use ai_cinema_be.Common.Table.{find_row, IsUnique}
use ai_cinema_be.Wallet.Lots.Consume.{consume-kept, bonus_total-consume, debited-consume}
use ai_cinema_be.Wallet.Lots.Spendable.{spendable-IsListed, spendable-IsUnique, spendable-IsNonneg}

module _ (w : ℕ) (r : AdjustmentRequest) (rate : ℕ) (main_after : ℤ) (v : ℕ) where
  bonus_rows-main :
      (key : Option String) (b : ℤ) (ds : List LotDebit)
      → main_input v (bonus_rows w r rate key main_after b ds) ≡ pos 0
  unfolding bonus_rows adjustment_row
  bonus_rows-main key b [] = refl
  bonus_rows-main key b (d ∷ ds) =
      omega (
        int_laws,
        parts_eq (share_zero (w == v)),
        parts_eq (bonus_rows-main none (b -ℤ d.amount) ds),
      )

  bonus_rows-bonus :
      (key : Option String) (b : ℤ) (ds : List LotDebit)
      → bonus_input v (bonus_rows w r rate key main_after b ds) ≡ share (w == v) (neg (debited ds))
  unfolding bonus_rows adjustment_row
  bonus_rows-bonus key b [] = rw (share-neg (w == v) (pos 0), share_zero (w == v)) (omega int_laws)
  bonus_rows-bonus key b (d ∷ ds) =
      rw (share-neg (w == v) (debited (d ∷ ds)), share_add (w == v) d.amount (debited ds))
        (omega (
          int_laws,
          parts_eq (share-neg (w == v) d.amount),
          parts_eq (share-neg (w == v) (debited ds)),
          parts_eq (bonus_rows-bonus none (b -ℤ d.amount) ds),
        ))

bonus_less_debits-eq : (b : ℤ) (ds : List LotDebit) → bonus_less_debits b ds ≡ b +ℤ neg (debited ds)
unfolding bonus_less_debits
bonus_less_debits-eq b [] = omega int_laws
bonus_less_debits-eq b (d ∷ ds) =
    omega (int_laws, parts_eq (bonus_less_debits-eq (b -ℤ d.amount) ds))

module _ (db : Database) (s : PlatformSetting) (w : ℕ) (r : AdjustmentRequest) (rate now : ℕ)
    (l : Ledger) where
  correction_lot-Opens :
      (bonus : ℤ) {lot : Option ℕ} {after : Ledger}
      → pos 0 ≤ℤ bonus
      → correction_lot db s w bonus now l ≡ ok (lot, after)
      → Opens w bonus l after
  unfolding correction_lot
  correction_lot-Opens bonus p h = elim (Bool-cases (leb_ℤ bonus (pos 0))) [
    | inl t ↦
        rw (← ok_snd (rw t at h)) (Opens-none w bonus l (eq_of_parts bonus (pos 0) (ground arith)))
    | inr t ↦
        let (id, mid, made, last) =
          bind-eq-ok (create_lot db s w CoinLotSource.adjustment bonus _ now l) _ (rw t at h) in
        rw (← ok_snd last) (create_lot-Opens db s w CoinLotSource.adjustment bonus _ now l p made)
  ]

  debit_main-Moves :
      {m : CoinMovement} {after : Ledger}
      → pos 0 ≤ℤ or_else r.bonus_amount (pos 0)
      → debit_main db s w r rate now l ≡ ok (m, after)
      → Moves w (or_else r.main_amount (pos 0)) (or_else r.bonus_amount (pos 0)) l after
  unfolding debit_main adjustment_row
  debit_main-Moves p h =
      let main = or_else r.main_amount (pos 0) in
      let bonus = or_else r.bonus_amount (pos 0) in
      let (wallet, l₁, lk, h₁) = bind-eq-ok (locked w l) _ h in
      let (found, same) = locked_ok w l lk in
      let (covers, h₂) =
        bind-require-eq-ok (leb_ℤ (pos 0) (wallet.main_balance +ℤ main)) _ l _ (rw same at h₁) in
      let (lot, l₂, opened, h₃) = bind-eq-ok (correction_lot db s w bonus now l) _ h₂ in
      let o = correction_lot-Opens bonus p opened in
      let (first, end, written, last) = bind-eq-ok (write_entries db w _ _ _ l₂) _ h₃ in
      rw (← ok_snd last) (
        Moves-of_Writes db w main bonus l end o.lots _ wallet _ _ first found
          (Opens-Writes w main bonus l l₂ _ o refl refl refl) refl refl
          (leb_ℤ→le (pos 0) (wallet.main_balance +ℤ main) covers) (rw o.lots_only at written))

  debit_bonus-Moves :
      {m : CoinMovement} {after : Ledger}
      → IsUnique l.lots
      → ((wallet : CoinWallet) → find_row w l.wallets ≡ some wallet → pos 0 ≤ℤ wallet.main_balance)
      → or_else r.bonus_amount (pos 0) ≤ℤ pos 0
      → debit_bonus db s w r rate now l ≡ ok (m, after)
      → Moves w (pos 0) (or_else r.bonus_amount (pos 0)) l after
  unfolding debit_bonus take_lots
  debit_bonus-Moves u nonneg p h =
      let bonus = or_else r.bonus_amount (pos 0) in
      let wanted = neg bonus in
      let (wallet, l₁, lk, h₁) = bind-eq-ok (locked w l) _ h in
      let (found, same) = locked_ok w l lk in
      let read = spendable_lots db w now l in
      let (covers, h₂) = bind-require-eq-ok (leb_ℤ wanted (bonus_of read)) _ l _ (rw same at h₁) in
      let debits = (consume_lots read wanted now l.lots).0 in
      let lots = (consume_lots read wanted now l.lots).1 in
      let (first, end, written, last) =
        bind-eq-ok (write_entries db w _ _ _ (record l { lots = lots })) _ h₂ in
      let total : neg (debited debits) ≡ bonus =
        ap neg (
          debited-consume read wanted now l.lots (spendable-IsNonneg db w now l) (omega int_laws)
            (leb_ℤ→le wanted (bonus_of read) covers))
        ∙ neg-neg bonus in
      rw (← ok_snd last) (
        Moves-of_Writes db w (pos 0) bonus l end lots _ wallet wallet.main_balance _ first found
          (record {
            main_written = λ v.
                bonus_rows-main w r rate wallet.main_balance v r.idempotency_key
                  wallet.bonus_balance debits
                ∙ sym (share_zero (w == v));
            bonus_written = λ v.
                bonus_rows-bonus w r rate wallet.main_balance v r.idempotency_key
                  wallet.bonus_balance debits
                ∙ ap (share (w == v)) total;
            lots_written = λ v.
                let taken =
                  bonus_total-consume v w read wanted now l.lots (spendable-IsUnique db w now l u)
                    (spendable-IsListed db w now l u) in
                let same = ap (share (w == v)) total in
                omega (
                  int_laws,
                  parts_eq taken,
                  parts_eq (share-neg (w == v) (debited debits)),
                  parts_eq same,
                );
            lots_kept = consume-kept read wanted now l.lots;
          })
          (omega int_laws)
          (bonus_less_debits-eq wallet.bonus_balance debits
            ∙ ap (λ x. wallet.bonus_balance +ℤ x) total)
          (omega (int_laws, nonneg wallet found)) written)

split_off :
    (main bonus : ℤ)
    → not (ltb_ℤ bonus (pos 0) && not (eqb_ℤ main (pos 0))) ≡ true
    → ltb_ℤ bonus (pos 0) ≡ true
    → main ≡ pos 0
split_off main bonus h t = eq_of_parts main (pos 0) (ground arith)

-- A correction that succeeds moves exactly the main and the bonus amount that it names.
pub adjust-Moves :
    (db : Database) (s : PlatformSetting) (w : ℕ) (r : AdjustmentRequest) (now : ℕ) (l : Ledger)
    {m : CoinMovement} {after : Ledger}
    → IsUnique l.lots
    → ((wallet : CoinWallet) → find_row w l.wallets ≡ some wallet → pos 0 ≤ℤ wallet.main_balance)
    → adjust db s w r now l ≡ ok (m, after)
    → Moves w (or_else r.main_amount (pos 0)) (or_else r.bonus_amount (pos 0)) l after
unfolding adjust
adjust-Moves db s w r now l u nonneg h =
    let main = or_else r.main_amount (pos 0) in
    let bonus = or_else r.bonus_amount (pos 0) in
    let rate = or_else r.rate_vnd s.coin_rate_vnd in
    let (something, h₁) =
      bind-require-eq-ok (not (eqb_ℤ main (pos 0) && eqb_ℤ bonus (pos 0))) _ l _ h in
    let (apart, h₂) =
      bind-require-eq-ok (not (ltb_ℤ bonus (pos 0) && not (eqb_ℤ main (pos 0)))) _ l _ h₁ in
    elim (Bool-cases (ltb_ℤ bonus (pos 0))) [
      | inl t ↦
          rw (split_off main bonus apart t)
            (debit_bonus-Moves db s w r rate now l u nonneg (ground arith) (rw t at h₂))
      | inr t ↦ debit_main-Moves db s w r rate now l (ground arith) (rw t at h₂)
    ]

-- Starting from agreement, a correction that succeeds leaves the wallets, the lots and the ledger
-- in agreement.
pub adjust-IsConsistent :
    (db : Database) (s : PlatformSetting) (w : ℕ) (r : AdjustmentRequest) (now : ℕ) (l : Ledger)
    {m : CoinMovement} {after : Ledger}
    → IsConsistent l
    → adjust db s w r now l ≡ ok (m, after)
    → IsConsistent after
adjust-IsConsistent db s w r now l c h =
    Moves-IsConsistent w _ _ l _ c (adjust-Moves db s w r now l c.lots_ok.0 (main_nonneg l w c) h)
