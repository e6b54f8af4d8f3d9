-- ===== src/Wallet/Spend.antt =====
-- coin-spend.service.ts: the only place where a Coin balance changes, besides the corrections.
pub mod Entries
pub mod Build
pub mod Debit
pub mod Opening
pub mod Credit
pub mod Holders
pub mod Results
pub mod Single
pub mod Payment
pub mod Success
use ai_cinema_be.Common.{
  ℕ, ◌+◌, ◌*◌, true, false, ◌&&◌, not, Option, none, some, List, [], ◌∷◌, String, str_eq, map,
  if◌then◌else◌,
}
use ai_cinema_be.Common.Int.{ℤ, pos, ◌+ℤ◌, ◌-ℤ◌, neg, leb_ℤ, ltb_ℤ, eqb_ℤ, min_ℤ}
use ai_cinema_be.Common.Errors.{
  conflict, unprocessable, crash, payment_not_positive, nothing_to_credit, insufficient_coins,
}
use ai_cinema_be.Common.Transaction.{Tx, ok, pure, gets, require, throw, ◌>>=◌, ◌>>◌}
use ai_cinema_be.Settings.{PlatformSetting}
use ai_cinema_be.Wallet.Rows.{
  CoinTransaction, CoinWallet, CoinLot, CoinLotSource, EntryInput, Ledger, Database, SpendRequest,
  CreditRequest, CoinMovement, bonus_expiry,
}
use ai_cinema_be.Wallet.Lots.{
  LotDebit, spendable_lots, bonus_of, locked, bump_wallet, find_by_key, create_entries, take_lots,
}

abbrev pub or_else {ℓ} : {A : Type ℓ} → Option A → A → A
or_else none d = d
or_else (some a) d = a

-- `idempotencyKey ? findUnique(...) : null`: the empty key counts as none.
unfoldable pub replayed : Option String → Ledger → Option CoinTransaction
replayed none l = none
replayed (some k) l = elim (str_eq k "") [
  | true ↦ none
  | false ↦ find_by_key (some k) l.transactions
]

unfoldable pub movement_of : CoinTransaction → CoinMovement
movement_of t = record {
  transaction_id = t.id;
  main_coins = neg t.main_amount;
  bonus_coins = neg t.bonus_amount;
  main_balance = t.main_balance_after;
  bonus_balance = t.bonus_balance_after;
}

-- `if (replayed) return this.movementOf(replayed)`, and what follows it.
unfoldable pub unless_replayed :
    Option CoinTransaction → Tx Ledger CoinMovement → Tx Ledger CoinMovement
unless_replayed (some entry) rest = pure (movement_of entry)
unless_replayed none rest = rest

-- What `debitRow` builds; only the first row carries the key.
unfoldable pub debit_row :
    ℕ → SpendRequest → ℕ → Option String → ℤ → ℤ → Option ℕ → ℤ → ℤ → EntryInput
debit_row wallet_id r rate key main bonus lot main_after bonus_after = record {
  wallet_id = wallet_id;
  entry_type = r.entry_type;
  main_amount = main;
  bonus_amount = bonus;
  rate_vnd = rate;
  lot_id = lot;
  reference_type = r.reference_type;
  reference_id = r.reference_id;
  reverses_id = none;
  idempotency_key = key;
  main_balance_after = main_after;
  bonus_balance_after = bonus_after;
  created_by_id = none;
}

-- A row for every lot that the bonus part touched, with the balance that runs down.
unfoldable pub lot_rows : ℕ → SpendRequest → ℕ → ℤ → ℤ → List LotDebit → List EntryInput
lot_rows wallet_id r rate main_after bonus_after [] = []
lot_rows wallet_id r rate main_after bonus_after (d ∷ ds) =
    let after = bonus_after +ℤ neg d.amount in
    debit_row wallet_id r rate none (pos 0) (neg d.amount) (some d.id) main_after after
    ∷ lot_rows wallet_id r rate main_after after ds

-- `bonusAfter` when the last row is built.
unfoldable pub bonus_after_debits : ℤ → List LotDebit → ℤ
bonus_after_debits bonus [] = bonus
bonus_after_debits bonus (d ∷ ds) = bonus_after_debits (bonus +ℤ neg d.amount) ds

-- `const [first] = …`, whose id is read next.
unfoldable pub first_id : List CoinTransaction → Tx Ledger ℕ
first_id [] = throw crash
first_id (t ∷ ts) = pure t.id

-- The end of every movement: its ledger rows, then the counters of the wallet; the first row's id.
unfoldable pub write_entries : Database → ℕ → List EntryInput → ℤ → ℤ → Tx Ledger ℕ
write_entries db wallet_id es main_balance bonus_balance = do
  rows ← create_entries db es
  first ← first_id rows
  bump_wallet wallet_id main_balance bonus_balance
  pure first

module _ (db : Database) (s : PlatformSetting) where
  -- The part of `spend` that follows the read of the wallet under the lock.
  unfoldable pub pay_from : ℕ → SpendRequest → ℕ → CoinWallet → Tx Ledger CoinMovement
  pay_from wallet_id r now wallet = do
    let main_coins = min_ℤ wallet.main_balance r.amount_coins
    let bonus_coins = r.amount_coins -ℤ main_coins
    lots ← gets (spendable_lots db wallet_id now)
    let available = bonus_of lots
    require (leb_ℤ bonus_coins available) (
        unprocessable (
          insufficient_coins (record {
            required_coins = r.amount_coins;
            main_balance = some wallet.main_balance;
            bonus_balance = some available;
            missing_coins = some (r.amount_coins -ℤ wallet.main_balance -ℤ available);
          })))
    debits ← take_lots lots bonus_coins now
    let rate = or_else r.coin_rate_vnd s.coin_rate_vnd
    let main_after = wallet.main_balance +ℤ neg main_coins
    let bonus_after = bonus_after_debits wallet.bonus_balance debits
    first ←
        write_entries db wallet_id
          (debit_row wallet_id r rate r.idempotency_key (neg main_coins) (pos 0) none main_after
              wallet.bonus_balance
            ∷ lot_rows wallet_id r rate main_after wallet.bonus_balance debits)
          main_after bonus_after
    pure (record {
      transaction_id = first;
      main_coins = main_coins;
      bonus_coins = bonus_coins;
      main_balance = main_after;
      bonus_balance = bonus_after;
    })

  -- `spend` once the key is known to be new.
  unfoldable pub debit : ℕ → SpendRequest → ℕ → Tx Ledger CoinMovement
  debit wallet_id r now = do
    require (ltb_ℤ (pos 0) r.amount_coins) (conflict payment_not_positive)
    wallet ← locked wallet_id
    pay_from wallet_id r now wallet

  -- Takes Coins out, main first, then the bonus lots that expire first.
  unfoldable pub spend : ℕ → SpendRequest → ℕ → Tx Ledger CoinMovement
  spend wallet_id r now = do
    found ← gets (replayed r.idempotency_key)
    unless_replayed found (debit wallet_id r now)

  -- `tx.coinLot.create`
  unfoldable pub create_lot : ℕ → CoinLotSource → ℤ → ℕ → ℕ → Tx Ledger ℕ
  create_lot wallet_id source amount days now l =
      let new_id = db.fresh_id (map (λ lot. lot.id) l.lots) in
      let lot : CoinLot = record {
        id = new_id;
        wallet_id = wallet_id;
        source = source;
        original_amount = amount;
        remaining_amount = amount;
        granted_at = now;
        expires_at = now + days * 86_400_000;
        closed_at = none;
      } in
      ok (new_id, record l { lots = lot ∷ l.lots })

  -- `openLot`: none when no bonus Coins are credited.
  unfoldable pub open_lot : ℕ → CreditRequest → ℤ → ℕ → Tx Ledger (Option ℕ)
  open_lot wallet_id r bonus_amount now = if leb_ℤ bonus_amount (pos 0) then pure none else do
    id ←
        create_lot wallet_id r.lot_source bonus_amount
          (or_else r.expires_in_days s.bonus_coin_expiry_days) now
    pure (some id)

  -- `request.lotId ?? (await this.openLot(…))`
  unfoldable pub lot_for : Option ℕ → ℕ → CreditRequest → ℤ → ℕ → Tx Ledger (Option ℕ)
  lot_for (some id) wallet_id r bonus_amount now = pure (some id)
  lot_for none wallet_id r bonus_amount now = open_lot wallet_id r bonus_amount now

  -- `credit` once the key is known to be new.
  unfoldable pub pay_in : ℕ → CreditRequest → ℕ → Tx Ledger CoinMovement
  pay_in wallet_id r now = do
    let main_amount = or_else r.main_amount (pos 0)
    let bonus_amount = or_else r.bonus_amount (pos 0)
    require (not (eqb_ℤ main_amount (pos 0) && eqb_ℤ bonus_amount (pos 0)))
        (conflict nothing_to_credit)
    wallet ← locked wallet_id
    lot ← lot_for r.lot_id wallet_id r bonus_amount now
    let main_balance = wallet.main_balance +ℤ main_amount
    let bonus_balance = wallet.bonus_balance +ℤ bonus_amount
    first ←
        write_entries db wallet_id
          (record {
            wallet_id = wallet_id;
            entry_type = r.entry_type;
            main_amount = main_amount;
            bonus_amount = bonus_amount;
            rate_vnd = or_else r.rate_vnd s.coin_rate_vnd;
            lot_id = lot;
            reference_type = r.reference_type;
            reference_id = r.reference_id;
            reverses_id = r.reverses_id;
            idempotency_key = r.idempotency_key;
            main_balance_after = main_balance;
            bonus_balance_after = bonus_balance;
            created_by_id = r.created_by_id;
          }
            ∷ [])
          main_balance bonus_balance
    pure (record {
      transaction_id = first;
      main_coins = main_amount;
      bonus_coins = bonus_amount;
      main_balance = main_balance;
      bonus_balance = bonus_balance;
    })

  -- Adds Coins; a bonus amount opens a lot.
  unfoldable pub credit : ℕ → CreditRequest → ℕ → Tx Ledger CoinMovement
  credit wallet_id r now = do
    found ← gets (replayed r.idempotency_key)
    unless_replayed found (pay_in wallet_id r now)

  -- `expireBonus`: the one BONUS_EXPIRY row of a lot that the caller has closed.
  unfoldable pub expire_bonus : ℕ → ℕ → ℤ → Tx Ledger CoinMovement
  expire_bonus wallet_id lot_id amount = do
    wallet ← locked wallet_id
    let bonus_balance = wallet.bonus_balance -ℤ amount
    first ←
        write_entries db wallet_id
          (record {
            wallet_id = wallet_id;
            entry_type = bonus_expiry;
            main_amount = pos 0;
            bonus_amount = neg amount;
            rate_vnd = s.coin_rate_vnd;
            lot_id = some lot_id;
            reference_type = none;
            reference_id = none;
            reverses_id = none;
            idempotency_key = none;
            main_balance_after = wallet.main_balance;
            bonus_balance_after = bonus_balance;
            created_by_id = none;
          }
            ∷ [])
          wallet.main_balance bonus_balance
    pure (record {
      transaction_id = first;
      main_coins = pos 0;
      bonus_coins = amount;
      main_balance = wallet.main_balance;
      bonus_balance = bonus_balance;
    })
