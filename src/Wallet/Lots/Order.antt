-- ===== src/Wallet/Lots/Order.antt =====
-- Which lots a debit takes first.
use ai_cinema_be.Wallet.Rows.{IsSorted, Ledger, CoinLot, Database, lot_has_id}
use ai_cinema_be.Common.{◌⊎◌, refl, inr, [], false, inl, true, Bool-cases, ◌≡◌, ◌∷◌, ℕ, List}
use ai_cinema_be.Common.Int.{min_laws, leb_ℤ→gt, pos, min_ℤ, ◌-ℤ◌, leb_ℤ, ℤ}
use ai_cinema_be.Wallet.Lots.{take_from, LotDebit, consume_lots, spendable_lots}
use ai_cinema_be.Common.Table.{update_row}

-- The debits take the first of the lots, in their order, and each but the last empties its lot.
abbrev pub IsDrained : List CoinLot → List LotDebit → Type 0
IsDrained lots [] = Unit
IsDrained [] (d ∷ ds) = ⊥
IsDrained (lot ∷ lots) (d ∷ ds) =
    (d.id ≡ lot.id) × ((ds ≡ []) ⊎ (d.amount ≡ lot.remaining_amount)) × IsDrained lots ds

consume_done :
    (lots : List CoinLot) (left : ℤ) (now : ℕ) (table : List CoinLot)
    → leb_ℤ left (pos 0) ≡ true
    → (consume_lots lots left now table).0 ≡ []
unfolding consume_lots
consume_done [] left now table h = refl
consume_done (lot ∷ lots) left now table h = rw h refl

emptied : (held left : ℤ) → leb_ℤ (left -ℤ min_ℤ held left) (pos 0) ≡ false → min_ℤ held left ≡ held
emptied held left h = let more = leb_ℤ→gt (left -ℤ min_ℤ held left) (pos 0) h in omega min_laws

consume-IsDrained :
    (lots : List CoinLot) (left : ℤ) (now : ℕ) (table : List CoinLot)
    → IsDrained lots (consume_lots lots left now table).0
unfolding consume_lots
consume-IsDrained [] left now table = tt
consume-IsDrained (lot ∷ lots) left now table = elim (Bool-cases (leb_ℤ left (pos 0))) [
  | inl t ↦ rw t tt
  | inr t ↦
      let taken = min_ℤ lot.remaining_amount left in
      let next = update_row lot.id (take_from (lot.remaining_amount -ℤ taken) now) table in
      rw t (
        refl,
        elim (Bool-cases (leb_ℤ (left -ℤ taken) (pos 0))) [
          | inl d ↦ inl (consume_done lots (left -ℤ taken) now next d)
          | inr d ↦ inr (emptied lot.remaining_amount left d)
        ],
        consume-IsDrained lots (left -ℤ taken) now next,
      )
]

-- A debit of bonus Coins goes through the spendable lots by their expiry, the earliest first, and
-- touches a lot only when every lot before it is empty.
pub consume-earliest_first :
    (db : Database) (w : ℕ) (amount : ℤ) (now : ℕ) (l : Ledger)
    → IsSorted (spendable_lots db w now l)
      × IsDrained
          (spendable_lots db w now l)
          (consume_lots (spendable_lots db w now l) amount now l.lots).0
unfolding spendable_lots
consume-earliest_first db w amount now l =
    (db.order-IsSorted _, consume-IsDrained (db.order_by_expiry _) amount now l.lots)
