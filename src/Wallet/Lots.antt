-- ===== src/Wallet/Lots.antt =====
-- lot-usage.ts: the bonus lots of a wallet, and the writes that every movement shares.
pub mod Consume
pub mod Spendable
pub mod Order
use ai_cinema_be.Common.{
  ℕ, suc, Bool, true, false, ◌&&◌, Option, none, some, List, [], ◌∷◌, ltb, ◌==◌, if◌then◌else◌, map,
  String, str_eq,
}
use ai_cinema_be.Common.Int.{ℤ, pos, ◌-ℤ◌, leb_ℤ, ltb_ℤ, eqb_ℤ, min_ℤ}
use ai_cinema_be.Common.Lists.{keep, sum_of}
use ai_cinema_be.Common.Errors.{conflict, record_not_found, unique_violation, wallet_changed}
use ai_cinema_be.Common.Table.{find_row, update_row}
use ai_cinema_be.Common.Transaction.{Tx, ok, err, pure, or_throw, ◌>>=◌}
use ai_cinema_be.Wallet.Rows.{
  CoinWallet, CoinLot, CoinTransaction, EntryInput, Ledger, Database, transaction_has_id,
  wallet_has_id, lot_has_id,
}

pub record LotDebit : Type 0 where
  pub id : ℕ
  pub amount : ℤ

abbrev pub is_open : Option ℕ → Bool
is_open none = true
is_open (some _) = false

-- The `where` of `spendableLots`.
abbrev pub is_spendable : ℕ → ℕ → CoinLot → Bool
is_spendable wallet_id now lot =
    lot.wallet_id == wallet_id
    && (ltb_ℤ (pos 0) lot.remaining_amount && (is_open lot.closed_at && ltb now lot.expires_at))

unfoldable pub spendable_lots : Database → ℕ → ℕ → Ledger → List CoinLot
spendable_lots db wallet_id now l = db.order_by_expiry (keep (is_spendable wallet_id now) l.lots)

-- The `where` of `spendableBonus`, which the source writes out a second time.
abbrev pub is_counted : ℕ → ℕ → CoinLot → Bool
is_counted wallet_id now lot =
    lot.wallet_id == wallet_id
    && (ltb_ℤ (pos 0) lot.remaining_amount && (is_open lot.closed_at && ltb now lot.expires_at))

-- The sum that the database makes, which has no order.
unfoldable pub spendable_bonus : ℕ → ℕ → Ledger → ℤ
spendable_bonus wallet_id now l =
    sum_of (λ lot. lot.remaining_amount) (keep (is_counted wallet_id now) l.lots)

abbrev pub bonus_of : List CoinLot → ℤ
bonus_of = sum_of (λ lot. lot.remaining_amount)

-- `data` of the update of a lot out of which `taken` Coins go.
abbrev pub take_from : ℤ → ℕ → CoinLot → CoinLot
take_from remaining now lot = record lot {
  remaining_amount = remaining;
  closed_at = if eqb_ℤ remaining (pos 0) then some now else none;
}

-- The loop of `consumeLots` over the lots still to visit.
unfoldable pub consume_lots : List CoinLot → ℤ → ℕ → List CoinLot → List LotDebit × List CoinLot
consume_lots [] left now table = ([], table)
consume_lots (lot ∷ lots) left now table =
    let taken = min_ℤ lot.remaining_amount left in
    let remaining = lot.remaining_amount -ℤ taken in
    let rest =
      consume_lots lots (left -ℤ taken) now (update_row lot.id (take_from remaining now) table) in
    if leb_ℤ left (pos 0)
    then ([], table)
    else (record { id = lot.id; amount = taken } ∷ rest.0, rest.1)

-- `lockWallet` and the read of the wallet under the lock. The transactions of one wallet run one
-- after another because of the lock, so in a sequence of transactions it does nothing.
unfoldable pub locked : ℕ → Tx Ledger CoinWallet
locked wallet_id l = or_throw (find_row wallet_id l.wallets) record_not_found l

abbrev pub set_balances : ℤ → ℤ → CoinWallet → CoinWallet
set_balances main bonus w = record w {
  main_balance = main;
  bonus_balance = bonus;
  version = suc w.version;
}

unfoldable pub bump_wallet : ℕ → ℤ → ℤ → Tx Ledger (Unit {0})
bump_wallet wallet_id main bonus l = elim (find_row wallet_id l.wallets) [
  | none ↦ err (conflict wallet_changed)
  | some _ ↦
      ok (tt, record l { wallets = update_row wallet_id (set_balances main bonus) l.wallets })
]

abbrev pub same_key : Option String → Option String → Bool
same_key (some a) (some b) = str_eq a b
same_key _ _ = false

-- `findUnique({ where: { idempotencyKey } })` on the ledger.
unfoldable pub find_by_key : Option String → List CoinTransaction → Option CoinTransaction
find_by_key k [] = none
find_by_key k (t ∷ ts) = if same_key t.idempotency_key k then some t else find_by_key k ts

-- One row of `createManyAndReturn`; the column `idempotency_key` is unique.
unfoldable pub create_entry : Database → EntryInput → Tx Ledger CoinTransaction
create_entry db e l = elim (find_by_key e.idempotency_key l.transactions) [
  | some _ ↦ err unique_violation
  | none ↦
      let row : CoinTransaction = record {
        id = db.fresh_id (map (λ t. t.id) l.transactions);
        entry = e;
      } in
      ok (row, record l { transactions = row ∷ l.transactions })
]

unfoldable pub create_entries : Database → List EntryInput → Tx Ledger (List CoinTransaction)
create_entries db [] = pure []
create_entries db (e ∷ es) = do
  row ← create_entry db e
  rows ← create_entries db es
  pure (row ∷ rows)

-- `consumeLots` on the table of lots.
unfoldable pub take_lots : List CoinLot → ℤ → ℕ → Tx Ledger (List LotDebit)
take_lots lots amount now l =
    let (debits, table) = consume_lots lots amount now l.lots in
    ok (debits, record l { lots = table })
