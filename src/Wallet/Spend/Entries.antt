-- ===== src/Wallet/Spend/Entries.antt =====
-- What the creation of ledger rows does to the ledger.
use ai_cinema_be.Common.{ℕ, ap, ◌∙◌, ◌≡◌, none, List, [], ◌∷◌, arith, ◌==◌}
use ai_cinema_be.Common.Int.{ℤ, ◌+ℤ◌, int_laws, parts_eq}
use ai_cinema_be.Common.Lists.{sum_of}
use ai_cinema_be.Common.Transaction.{ok, bind-eq-ok, ok_snd}
use ai_cinema_be.Wallet.Rows.{CoinTransaction, EntryInput, Ledger, Database}
use ai_cinema_be.Wallet.Lots.{create_entry, create_entries, find_by_key}
use ai_cinema_be.Wallet.Sums.{share, main_sum, bonus_sum}

abbrev pub main_input : ℕ → List EntryInput → ℤ
main_input v = sum_of (λ e. share (e.wallet_id == v) e.main_amount)

abbrev pub bonus_input : ℕ → List EntryInput → ℤ
bonus_input v = sum_of (λ e. share (e.wallet_id == v) e.bonus_amount)

-- The rows went into the ledger, and nothing else changed.
pub record Adds (es : List EntryInput) (l after : Ledger) : Type 0 where
  pub same_wallets : after.wallets ≡ l.wallets
  pub same_lots : after.lots ≡ l.lots
  pub main_added :
      (v : ℕ) → main_sum v after.transactions ≡ main_sum v l.transactions +ℤ main_input v es
  pub bonus_added :
      (v : ℕ) → bonus_sum v after.transactions ≡ bonus_sum v l.transactions +ℤ bonus_input v es

module _ (db : Database) where
  pub create_entry_ok :
      (e : EntryInput) (l : Ledger) {row : CoinTransaction} {after : Ledger}
      → create_entry db e l ≡ ok (row, after)
      → (row.entry ≡ e)
        × (after ≡ record l { transactions = row ∷ l.transactions })
        × (find_by_key e.idempotency_key l.transactions ≡ none)
  unfolding create_entry
  create_entry_ok e l h = ground arith

  pub create_entries-Adds :
      (es : List EntryInput) (l : Ledger) {rows : List CoinTransaction} {after : Ledger}
      → create_entries db es l ≡ ok (rows, after)
      → Adds es l after
  unfolding create_entries
  create_entries-Adds [] l h =
      let e = ok_snd h in
      record {
        same_wallets = rw (← e);
        same_lots = rw (← e);
        main_added = λ v. rw (← e) (omega int_laws);
        bonus_added = λ v. rw (← e) (omega int_laws);
      }
  create_entries-Adds (e ∷ es) l h =
      let (row, mid, one, more) = bind-eq-ok (create_entry db e l) _ h in
      let (rows, end, rest, last) = bind-eq-ok (create_entries db es mid) _ more in
      let (same, now, _) = create_entry_ok e l one in
      let ih = create_entries-Adds es mid rest in
      rw (← ok_snd last) (record {
        same_wallets = ih.same_wallets ∙ ap (λ (x : Ledger). x.wallets) now;
        same_lots = ih.same_lots ∙ ap (λ (x : Ledger). x.lots) now;
        main_added = λ v.
            let grown =
              ap (λ (x : Ledger). main_sum v x.transactions) now
              ∙ ap
                  (λ (x : EntryInput).
                    share (x.wallet_id == v) x.main_amount +ℤ main_sum v l.transactions)
                  same in
            omega (int_laws, parts_eq grown, parts_eq (ih.main_added v));
        bonus_added = λ v.
            let grown =
              ap (λ (x : Ledger). bonus_sum v x.transactions) now
              ∙ ap
                  (λ (x : EntryInput).
                    share (x.wallet_id == v) x.bonus_amount +ℤ bonus_sum v l.transactions)
                  same in
            omega (int_laws, parts_eq grown, parts_eq (ih.bonus_added v));
      })
