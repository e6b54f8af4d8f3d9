-- ===== src/Wallet/Spend/Debit.antt =====
-- What `spend` moves.
use ai_cinema_be.Common.{
  inr, inl, Bool-cases, ◌⊎◌, ℕ, ◌≡◌, ◌∙◌, ap, refl, List, [], ◌∷◌, ◌==◌, some, none,
}
use ai_cinema_be.Common.Int.{
  ℤ, pos, ◌+ℤ◌, ◌-ℤ◌, ◌≤ℤ◌, neg, min_ℤ, ltb_ℤ, leb_ℤ, leb_ℤ→le, int_laws, min_laws, parts_eq,
}
use ai_cinema_be.Common.Table.{IsUnique, find_row}
use ai_cinema_be.Common.Transaction.{ok, bind-eq-ok, bind-require-eq-ok, ok_fst, ok_snd}
use ai_cinema_be.Settings.{PlatformSetting}
use ai_cinema_be.Wallet.Rows.{
  CoinWallet, CoinLot, Ledger, Database, SpendRequest, CoinMovement, wallet_has_id, lot_has_id,
}
use ai_cinema_be.Wallet.Lots.{LotDebit, locked, spendable_lots, bonus_of, consume_lots, take_lots}
use ai_cinema_be.Wallet.Lots.Consume.{bonus_total-consume, debited-consume, consume-kept}
use ai_cinema_be.Wallet.Lots.Spendable.{spendable-IsListed, spendable-IsUnique, spendable-IsNonneg}
use ai_cinema_be.Wallet.Sums.{share, share_zero, share_add, share-neg, debited}
use ai_cinema_be.Wallet.Consistent.{Moves}
use ai_cinema_be.Wallet.Spend.{
  debit, pay_from, write_entries, debit_row, lot_rows, bonus_after_debits, or_else,
}
use ai_cinema_be.Wallet.Spend.Entries.{main_input, bonus_input}
use ai_cinema_be.Wallet.Spend.Build.{Writes, locked_ok, Moves-of_Writes}

-- The balance after the last row is the old one less all debits.
pub bonus_after_debits-eq :
    (b : ℤ) (ds : List LotDebit) → bonus_after_debits b ds ≡ b +ℤ neg (debited ds)
unfolding bonus_after_debits
bonus_after_debits-eq b [] = omega int_laws
bonus_after_debits-eq b (d ∷ ds) =
    omega (int_laws, parts_eq (bonus_after_debits-eq (b +ℤ neg d.amount) ds))

module _ (w : ℕ) (r : SpendRequest) (rate : ℕ) (main_after : ℤ) (v : ℕ) where
  lot_rows-main :
      (b : ℤ) (ds : List LotDebit) → main_input v (lot_rows w r rate main_after b ds) ≡ pos 0
  unfolding lot_rows debit_row
  lot_rows-main b [] = refl
  lot_rows-main b (d ∷ ds) =
      omega
        (int_laws, parts_eq (share_zero (w == v)), parts_eq (lot_rows-main (b +ℤ neg d.amount) ds))

  lot_rows-bonus :
      (b : ℤ) (ds : List LotDebit)
      → bonus_input v (lot_rows w r rate main_after b ds) ≡ share (w == v) (neg (debited ds))
  unfolding lot_rows debit_row
  lot_rows-bonus b [] = rw (share-neg (w == v) (pos 0), share_zero (w == v)) (omega int_laws)
  lot_rows-bonus b (d ∷ ds) =
      rw (share-neg (w == v) (debited (d ∷ ds)), share_add (w == v) d.amount (debited ds))
        (omega (
          int_laws,
          parts_eq (share-neg (w == v) d.amount),
          parts_eq (share-neg (w == v) (debited ds)),
          parts_eq (lot_rows-bonus (b +ℤ neg d.amount) ds),
        ))

-- What a payment did: the price left the wallet, main Coins first, and the answer reports it.
pub record Paid (w : ℕ) (r : SpendRequest) (l : Ledger) (m : CoinMovement) (after : Ledger)
    : Type 0 where
  pub wallet : CoinWallet
  pub found : find_row w l.wallets ≡ some wallet
  pub moved : Moves w (neg m.main_coins) (neg m.bonus_coins) l after
  pub whole : m.main_coins +ℤ m.bonus_coins ≡ r.amount_coins
  pub bonus_nonneg : pos 0 ≤ℤ m.bonus_coins
  pub main_first : (m.bonus_coins ≡ pos 0) ⊎ (m.main_coins ≡ wallet.main_balance)
  pub main_reported : m.main_balance ≡ wallet.main_balance -ℤ m.main_coins
  pub bonus_reported : m.bonus_balance ≡ wallet.bonus_balance -ℤ m.bonus_coins

min_first : (a b : ℤ) → (b -ℤ min_ℤ a b ≡ pos 0) ⊎ (min_ℤ a b ≡ a)
unfolding min_ℤ
min_first a b = elim (Bool-cases (leb_ℤ a b)) [
  | inl h ↦ inr (rw h)
  | inr h ↦ inl (rw h (omega int_laws))
]

module _ (db : Database) (s : PlatformSetting) (w : ℕ) (r : SpendRequest) (now : ℕ)
    (l : Ledger) where
  abbrev lots_read : List CoinLot
  lots_read = spendable_lots db w now l

  -- The writes of a debit that the lots cover.
  debit-Writes :
      (main bonus : ℤ) (rate : ℕ) (main_after b : ℤ)
      → IsUnique l.lots
      → pos 0 ≤ℤ bonus
      → bonus ≤ℤ bonus_of lots_read
      → let (debits, lots) = consume_lots lots_read bonus now l.lots in
        Writes w (neg main) (neg bonus) l lots (
          debit_row w r rate r.idempotency_key (neg main) (pos 0) none main_after b
          ∷ lot_rows w r rate main_after b debits)
  unfolding debit_row
  debit-Writes main bonus rate main_after b u p q =
      let nonneg = spendable-IsNonneg db w now l in
      let total = debited-consume lots_read bonus now l.lots nonneg p q in
      let debits = (consume_lots lots_read bonus now l.lots).0 in
      record {
        main_written =
            λ v. omega (int_laws, parts_eq (lot_rows-main w r rate main_after v b debits));
        bonus_written = λ v.
            let rows = lot_rows-bonus w r rate main_after v b debits in
            let same = ap (λ x. share (w == v) (neg x)) total in
            omega (int_laws, parts_eq rows, parts_eq same, parts_eq (share_zero (w == v)));
        lots_written = λ v.
            let taken =
              bonus_total-consume v w lots_read bonus now l.lots (spendable-IsUnique db w now l u)
                (spendable-IsListed db w now l u) in
            let same = ap (share (w == v)) total in
            rw (share-neg (w == v) bonus) (omega (int_laws, parts_eq taken, parts_eq same));
        lots_kept = consume-kept lots_read bonus now l.lots;
      }

  pay_from-Paid :
      (wallet : CoinWallet) {m : CoinMovement} {after : Ledger}
      → IsUnique l.lots
      → find_row w l.wallets ≡ some wallet
      → pay_from db s w r now wallet l ≡ ok (m, after)
      → Paid w r l m after
  unfolding pay_from take_lots
  pay_from-Paid wallet u found h =
      let main = min_ℤ wallet.main_balance r.amount_coins in
      let bonus = r.amount_coins -ℤ main in
      let debits = (consume_lots lots_read bonus now l.lots).0 in
      let lots = (consume_lots lots_read bonus now l.lots).1 in
      let b = wallet.bonus_balance in
      let rate = or_else r.coin_rate_vnd s.coin_rate_vnd in
      let main_after = wallet.main_balance +ℤ neg main in
      let es =
        debit_row w r rate r.idempotency_key (neg main) (pos 0) none main_after b
        ∷ lot_rows w r rate main_after b debits in
      let (enough, h₁) = bind-require-eq-ok (leb_ℤ bonus (bonus_of lots_read)) _ l _ h in
      let (first, end, written, last) =
        bind-eq-ok
          (write_entries db w es main_after (bonus_after_debits b debits)
            (record l { lots = lots }))
          _ h₁ in
      let covers = leb_ℤ→le bonus (bonus_of lots_read) enough in
      let total =
        debited-consume lots_read bonus now l.lots (spendable-IsNonneg db w now l) (omega min_laws)
          covers in
      rw (← ok_fst last, ← ok_snd last)
        (record {
          wallet = wallet;
          found = found;
          moved =
              Moves-of_Writes db w (neg main) (neg bonus) l end lots es wallet main_after
                (bonus_after_debits b debits) first found
                (debit-Writes main bonus rate main_after b u (omega min_laws) covers) refl
                (bonus_after_debits-eq b debits ∙ ap (λ x. b +ℤ neg x) total) (omega min_laws)
                written;
          whole = omega int_laws;
          bonus_nonneg = omega min_laws;
          main_first = min_first wallet.main_balance r.amount_coins;
          main_reported = omega int_laws;
          bonus_reported =
              omega (int_laws, parts_eq (bonus_after_debits-eq b debits), parts_eq total);
        })

  pub debit-Paid :
      {m : CoinMovement} {after : Ledger}
      → IsUnique l.lots
      → debit db s w r now l ≡ ok (m, after)
      → Paid w r l m after
  unfolding debit
  debit-Paid u h =
      let (positive, h₁) = bind-require-eq-ok (ltb_ℤ (pos 0) r.amount_coins) _ l _ h in
      let (wallet, l₁, lk, h₂) = bind-eq-ok (locked w l) _ h₁ in
      let (found, same) = locked_ok w l lk in pay_from-Paid wallet u found (rw same at h₂)
