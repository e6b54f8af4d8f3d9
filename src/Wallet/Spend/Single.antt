-- ===== src/Wallet/Spend/Single.antt =====
-- The one ledger row of a credit.
use ai_cinema_be.Common.{
  ℕ, ◌≡◌, ◌⊎◌, inl, inr, sym, ap, ◌∙◌, none, List, [], ◌∷◌, Option-cases, not, ◌&&◌,
}
use ai_cinema_be.Common.Int.{ℤ, pos, eqb_ℤ, ◌≤ℤ◌}
use ai_cinema_be.Common.Transaction.{ok, bind-eq-ok, bind-require-eq-ok, ok_fst, ok_snd}
use ai_cinema_be.Settings.{PlatformSetting}
use ai_cinema_be.Wallet.Rows.{
  CoinTransaction, EntryInput, CreditRequest, CoinMovement, Ledger, Database,
}
use ai_cinema_be.Wallet.Lots.{create_entry, create_entries, locked, bump_wallet}
use ai_cinema_be.Wallet.Spend.{or_else, write_entries, first_id, lot_for, pay_in, credit, replayed}
use ai_cinema_be.Wallet.Spend.Entries.{create_entry_ok}
use ai_cinema_be.Wallet.Spend.Build.{locked_ok, bump_wallet_ok}
use ai_cinema_be.Wallet.Spend.Opening.{lot_for-Opens}
use ai_cinema_be.Wallet.Spend.Results.{credit_new, credit_old}

-- From `l` to `after`, the ledger gained one row, under the id `first`.
pub record AddsRow (e : EntryInput) (first : ℕ) (l after : Ledger) : Type 0 where
  pub row : CoinTransaction
  pub entered : row.entry ≡ e
  pub added : after.transactions ≡ row ∷ l.transactions
  pub first_row : first ≡ row.id

create_single :
    (db : Database) (e : EntryInput) (l : Ledger) {rows : List CoinTransaction} {after : Ledger}
    → create_entries db (e ∷ []) l ≡ ok (rows, after)
    → (row : CoinTransaction) × (row.entry ≡ e)
      × (rows ≡ row ∷ [])
      × (after ≡ record l { transactions = row ∷ l.transactions })
unfolding create_entries
create_single db e l h =
    let (row, one, entry, h₂) = bind-eq-ok (create_entry db e l) _ h in
    let (same, now, _) = create_entry_ok db e l entry in
    (row, same, sym (ok_fst h₂), sym (ok_snd h₂) ∙ now)

first_single :
    (row : CoinTransaction) (rows : List CoinTransaction) (l : Ledger) {first : ℕ} {after : Ledger}
    → rows ≡ row ∷ []
    → first_id rows l ≡ ok (first, after)
    → (first ≡ row.id) × (after ≡ l)
unfolding first_id
first_single row rows l e h =
    let read = rw (first_id, e) at h in (sym (ok_fst read), sym (ok_snd read))

pub write_entry-Adds_row :
    (db : Database) (w : ℕ) (e : EntryInput) (main bonus : ℤ) (l : Ledger) {first : ℕ}
    {after : Ledger}
    → write_entries db w (e ∷ []) main bonus l ≡ ok (first, after)
    → AddsRow e first l after
unfolding write_entries
write_entry-Adds_row db w e main bonus l h =
    let (rows, mid, made, h₁) = bind-eq-ok (create_entries db (e ∷ []) l) _ h in
    let (row, same, only, now) = create_single db e l made in
    let (id, mid', read, h₂) = bind-eq-ok (first_id rows mid) _ h₁ in
    let (u, end, bumped, h₃) = bind-eq-ok (bump_wallet w main bonus mid') _ h₂ in
    let (is_first, kept) = first_single row rows mid only read in
    record {
      row = row;
      entered = same;
      added =
          ap (λ (x : Ledger). x.transactions)
            (sym (ok_snd h₃) ∙ bump_wallet_ok w main bonus mid' bumped)
          ∙ ap (λ (x : Ledger). x.transactions) (kept ∙ now);
      first_row = sym (ok_fst h₃) ∙ is_first;
    }

-- What a credit leaves in the ledger: nothing under a key that is known, and else one row.
pub record Credits (r : CreditRequest) (m : CoinMovement) (l after : Ledger) : Type 0 where
  pub row : CoinTransaction
  pub added : after.transactions ≡ row ∷ l.transactions
  pub of_type : row.reference_type ≡ r.reference_type
  pub of_id : row.reference_id ≡ r.reference_id
  pub of_main : row.main_amount ≡ or_else r.main_amount (pos 0)
  pub answered : m.transaction_id ≡ row.id

module _ (db : Database) (s : PlatformSetting) (w : ℕ) (r : CreditRequest) (now : ℕ)
    (l : Ledger) where
  pub pay_in-Credits :
      {m : CoinMovement} {after : Ledger}
      → r.lot_id ≡ none
      → pos 0 ≤ℤ or_else r.bonus_amount (pos 0)
      → pay_in db s w r now l ≡ ok (m, after)
      → Credits r m l after
  unfolding pay_in
  pay_in-Credits own pb h =
      let main = or_else r.main_amount (pos 0) in
      let bonus = or_else r.bonus_amount (pos 0) in
      let (something, h₁) =
        bind-require-eq-ok (not (eqb_ℤ main (pos 0) && eqb_ℤ bonus (pos 0))) _ l _ h in
      let (wallet, l₁, lk, h₂) = bind-eq-ok (locked w l) _ h₁ in
      let (found, same) = locked_ok w l lk in
      let (lot, l₂, opened, h₃) =
        bind-eq-ok (lot_for db s r.lot_id w r bonus now l) _ (rw same at h₂) in
      let o = lot_for-Opens db s w r.lot_id r bonus now l own pb opened in
      let (first, end, written, last) = bind-eq-ok (write_entries db w _ _ _ l₂) _ h₃ in
      let a = write_entry-Adds_row db w _ _ _ l₂ written in
      record {
        row = a.row;
        added =
            ap (λ (x : Ledger). x.transactions) (sym (ok_snd last))
            ∙ a.added
            ∙ ap (λ (x : Ledger). a.row ∷ x.transactions) o.lots_only;
        of_type = ap (λ (x : EntryInput). x.reference_type) a.entered;
        of_id = ap (λ (x : EntryInput). x.reference_id) a.entered;
        of_main = ap (λ (x : EntryInput). x.main_amount) a.entered;
        answered = ap (λ (x : CoinMovement). x.transaction_id) (sym (ok_fst last)) ∙ a.first_row;
      }

  -- Either the key is known and nothing is written, or the credit adds its row.
  pub credit_cases :
      {m : CoinMovement} {after : Ledger}
      → r.lot_id ≡ none
      → pos 0 ≤ℤ or_else r.bonus_amount (pos 0)
      → credit db s w r now l ≡ ok (m, after)
      → (after ≡ l) ⊎ Credits r m l after
  credit_cases own pb h = elim (Option-cases (replayed r.idempotency_key l)) [
    | inl new ↦ inr (pay_in-Credits own pb (sym (credit_new db s w now l r new) ∙ h))
    | inr (entry, old) ↦ inl (sym (ok_snd (sym (credit_old db s w now l r entry old) ∙ h)))
  ]
