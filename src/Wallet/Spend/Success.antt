-- ===== src/Wallet/Spend/Success.antt =====
-- The path of a payment that the wallet covers.
use ai_cinema_be.Wallet.Rows.{
  CoinMovement, CoinWallet, SpendRequest, Ledger, EntryInput, CoinTransaction, Database,
  wallet_has_id,
}
use ai_cinema_be.Wallet.Lots.{
  spendable_lots, consume_lots, spendable_bonus, set_balances, take_lots, LotDebit, bump_wallet,
  same_key, create_entry, create_entries, find_by_key,
}
use ai_cinema_be.Wallet.Spend.{
  bonus_after_debits, or_else, spend, replayed, pay_from, debit, first_id, debit_row, write_entries,
  lot_rows,
}
use ai_cinema_be.Common.{
  arith, true, ◌∙◌, refl, some, [], false, map, ◌∷◌, ◌≡◌, none, ℕ, String, List, Option,
}
use ai_cinema_be.Settings.{PlatformSetting}
use ai_cinema_be.Common.Lists.{All}
use ai_cinema_be.Common.Int.{
  parts_eq, min_laws, le→leb_ℤ, leb_ℤ, min_ℤ, ◌-ℤ◌, ltb_ℤ, ◌≤ℤ◌, neg, pos, ◌+ℤ◌, ℤ,
}
use ai_cinema_be.Common.Transaction.{◌>>=◌, ok}
use ai_cinema_be.Common.Table.{update_row, find_row}
use ai_cinema_be.Wallet.Lots.Spendable.{spendable-IsNonneg, bonus_of-spendable}
use ai_cinema_be.Wallet.Spend.Results.{spend_new}
use ai_cinema_be.Wallet.Sums.{bonus_of-nonneg}
use ai_cinema_be.Wallet.Spend.Build.{locked_found}

same_key-none : (k : Option String) → same_key k none ≡ false
same_key-none none = refl
same_key-none (some a) = refl

pub find_by_key-none : (ts : List CoinTransaction) → find_by_key none ts ≡ none
unfolding find_by_key
find_by_key-none [] = refl
find_by_key-none (t ∷ ts) = rw (same_key-none t.idempotency_key) (find_by_key-none ts)

-- Rows are written to the ledger and nowhere else.
pub record Written (db : Database) (es : List EntryInput) (l : Ledger) : Type 0 where
  pub rows : List CoinTransaction
  pub ledger : List CoinTransaction
  pub written : create_entries db es l ≡ ok (rows, record l { transactions = ledger })

module _ (db : Database) where
  create_entry_new :
      (e : EntryInput) (l : Ledger)
      → find_by_key e.idempotency_key l.transactions ≡ none
      → let row : CoinTransaction = record {
        id = db.fresh_id (map (λ t. t.id) l.transactions);
        entry = e;
      } in
        create_entry db e l ≡ ok (row, record l { transactions = row ∷ l.transactions })
  unfolding create_entry
  create_entry_new e l h = rw (h, create_entry) refl

  create_entries_keyless :
      (es : List EntryInput) (l : Ledger) → All (λ e. e.idempotency_key ≡ none) es → Written db es l
  unfolding create_entries
  create_entries_keyless [] l k = record { rows = []; ledger = l.transactions; written = refl }
  create_entries_keyless (e ∷ es) l (k, ks) =
      let made = create_entry_new e l (rw k (find_by_key-none l.transactions)) in
      let row : CoinTransaction = record {
        id = db.fresh_id (map (λ t. t.id) l.transactions);
        entry = e;
      } in
      let rest = create_entries_keyless es (record l { transactions = row ∷ l.transactions }) ks in
      record {
        rows = row ∷ rest.rows;
        ledger = rest.ledger;
        written = rw (made, rest.written, ◌>>=◌) refl;
      }

  -- The rows of one movement: the first has a new key, the others have none.
  write_entries_new :
      (w : ℕ) (e : EntryInput) (es : List EntryInput) (main bonus : ℤ) (l : Ledger)
      (wallet : CoinWallet)
      → find_row w l.wallets ≡ some wallet
      → find_by_key e.idempotency_key l.transactions ≡ none
      → All (λ x. x.idempotency_key ≡ none) es
      → (first : ℕ) × (after : Ledger) × (write_entries db w (e ∷ es) main bonus l
          ≡ ok (first, after))
  unfolding write_entries create_entries first_id bump_wallet
  write_entries_new w e es main bonus l wallet found new keyless =
      let row : CoinTransaction = record {
        id = db.fresh_id (map (λ t. t.id) l.transactions);
        entry = e;
      } in
      let rest =
        create_entries_keyless es (record l { transactions = row ∷ l.transactions }) keyless in
      (
        row.id,
        record l {
          transactions = rest.ledger;
          wallets = update_row w (set_balances main bonus) l.wallets;
        },
        rw (create_entry_new e l new, rest.written, found, ◌>>=◌) refl,
      )

lot_rows-keyless :
    (w : ℕ) (r : SpendRequest) (rate : ℕ) (main bonus : ℤ) (ds : List LotDebit)
    → All (λ x. x.idempotency_key ≡ none) (lot_rows w r rate main bonus ds)
unfolding lot_rows debit_row
lot_rows-keyless w r rate main bonus [] = tt
lot_rows-keyless w r rate main bonus (d ∷ ds) =
    (refl, lot_rows-keyless w r rate main (bonus +ℤ neg d.amount) ds)

debit_row-key :
    (w : ℕ) (r : SpendRequest) (rate : ℕ) (main bonus main_after bonus_after : ℤ)
    (ts : List CoinTransaction)
    → find_by_key r.idempotency_key ts ≡ none
    → find_by_key
        (debit_row w r rate r.idempotency_key main bonus none main_after
          bonus_after).idempotency_key
        ts
      ≡ none
unfolding debit_row
debit_row-key w r rate main bonus main_after bonus_after ts h = h

module _ (db : Database) (s : PlatformSetting) (w : ℕ) (r : SpendRequest) (now : ℕ)
    (l : Ledger) where
  debit_covered :
      (wallet : CoinWallet)
      → find_by_key r.idempotency_key l.transactions ≡ none
      → find_row w l.wallets ≡ some wallet
      → pos 1 ≤ℤ r.amount_coins
      → r.amount_coins ≤ℤ wallet.main_balance +ℤ spendable_bonus w now l
      → (m : CoinMovement) × (after : Ledger) × (debit db s w r now l ≡ ok (m, after))
  unfolding debit pay_from take_lots
  debit_covered wallet fresh found some_price covered =
      let main = wallet.main_balance in
      let held = bonus_of-spendable db w now l in
      let nonneg = bonus_of-nonneg _ (spendable-IsNonneg db w now l) in
      let positive : ltb_ℤ (pos 0) r.amount_coins ≡ true = ground arith in
      let bonus = r.amount_coins -ℤ min_ℤ main r.amount_coins in
      let enough : leb_ℤ bonus (spendable_bonus w now l) ≡ true =
        le→leb_ℤ bonus (spendable_bonus w now l) (omega (min_laws, parts_eq held, nonneg)) in
      let (debits, lots) = consume_lots (spendable_lots db w now l) bonus now l.lots in
      let rate = or_else r.coin_rate_vnd s.coin_rate_vnd in
      let main_after = main +ℤ neg (min_ℤ main r.amount_coins) in
      let (first, after, written) =
        write_entries_new db w
          (debit_row w r rate r.idempotency_key (neg (min_ℤ main r.amount_coins)) (pos 0) none
            main_after wallet.bonus_balance)
          (lot_rows w r rate main_after wallet.bonus_balance debits) main_after
          (bonus_after_debits wallet.bonus_balance debits) (record l { lots = lots }) wallet found
          (debit_row-key w r rate _ _ _ _ l.transactions fresh)
          (lot_rows-keyless w r rate main_after wallet.bonus_balance debits) in
      let answer : CoinMovement = record {
        transaction_id = first;
        main_coins = min_ℤ main r.amount_coins;
        bonus_coins = bonus;
        main_balance = main_after;
        bonus_balance = bonus_after_debits wallet.bonus_balance debits;
      } in
      (
        answer,
        after,
        rw (positive, locked_found w l wallet found, held, enough, ◌>>=◌, written) refl,
      )

  -- A price above zero that the main and the spendable bonus Coins of an existing wallet cover is
  -- paid, when no ledger row has its key.
  pub spend_covered :
      (wallet : CoinWallet)
      → replayed r.idempotency_key l ≡ none
      → find_by_key r.idempotency_key l.transactions ≡ none
      → find_row w l.wallets ≡ some wallet
      → pos 1 ≤ℤ r.amount_coins
      → r.amount_coins ≤ℤ wallet.main_balance +ℤ spendable_bonus w now l
      → (m : CoinMovement) × (after : Ledger) × (spend db s w r now l ≡ ok (m, after))
  spend_covered wallet new fresh found some_price covered =
      let (m, after, paid) = debit_covered wallet fresh found some_price covered in
      (m, after, spend_new db s w now l r new ∙ paid)
