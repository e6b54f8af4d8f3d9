-- ===== src/Wallet/Lots/Consume.antt =====
-- What `consume_lots` takes out of the lots.
use ai_cinema_be.Common.{
  ℕ, ◌≡◌, refl, ◌∙◌, ◌≢◌, inl, inr, Bool, true, false, some, List, [], ◌∷◌, ◌==◌, Bool-cases,
}
use ai_cinema_be.Common.Int.{
  ℤ, pos, ◌+ℤ◌, ◌-ℤ◌, ◌≤ℤ◌, leb_ℤ, min_ℤ, int_laws, min_laws, parts_eq, leb_ℤ→le,
}
use ai_cinema_be.Common.Lists.{All}
use ai_cinema_be.Common.Table.{
  find_row, update_row, IsUnique, find_row-update_ne, sum_of-update, update_row-IsUnique,
  update_row-All,
}
use ai_cinema_be.Wallet.Rows.{CoinLot, lot_has_id}
use ai_cinema_be.Wallet.Lots.{consume_lots, take_from, bonus_of}
use ai_cinema_be.Wallet.Sums.{
  share, lot_share, bonus_total, debited, IsNonneg, bonus_of-nonneg, share_zero, share_add,
}

-- The lots to visit stand in the table as they were read, and are lots of the wallet `w`.
abbrev pub IsListed : ℕ → List CoinLot → CoinLot → Type 0
IsListed w table lot = (find_row lot.id table ≡ some lot) × (lot.wallet_id ≡ w)

abbrev after_take : CoinLot → ℤ → ℕ → List CoinLot → List CoinLot
after_take lot left now table =
    update_row lot.id (take_from (lot.remaining_amount -ℤ min_ℤ lot.remaining_amount left) now)
      table

consume_more :
    (lot : CoinLot) (lots : List CoinLot) (left : ℤ) (now : ℕ) (table : List CoinLot)
    → leb_ℤ left (pos 0) ≡ false
    → consume_lots (lot ∷ lots) left now table
      ≡ let rest =
          consume_lots lots
            (left -ℤ min_ℤ lot.remaining_amount left)
            now
            (after_take lot left now table) in
        (record { id = lot.id; amount = min_ℤ lot.remaining_amount left } ∷ rest.0, rest.1)
unfolding consume_lots
consume_more lot lots left now table h = rw h

consume_done :
    (lots : List CoinLot) (left : ℤ) (now : ℕ) (table : List CoinLot)
    → leb_ℤ left (pos 0) ≡ true
    → consume_lots lots left now table ≡ ([], table)
unfolding consume_lots
consume_done [] left now table h = refl
consume_done (lot ∷ lots) left now table h = rw h

-- The debits add up to the amount, when the lots hold it.
pub debited-consume :
    (lots : List CoinLot) (amount : ℤ) (now : ℕ) (table : List CoinLot)
    → All IsNonneg lots
    → pos 0 ≤ℤ amount
    → amount ≤ℤ bonus_of lots
    → debited (consume_lots lots amount now table).0 ≡ amount
debited-consume [] amount now table h p q = unfold consume_lots in omega int_laws
debited-consume (lot ∷ lots) amount now table (h, hs) p q =
    elim (Bool-cases (leb_ℤ amount (pos 0))) [
      | inl t ↦
          rw (consume_done (lot ∷ lots) amount now table t)
            (omega (int_laws, leb_ℤ→le amount (pos 0) t))
      | inr t ↦
          let ih =
            debited-consume lots (amount -ℤ min_ℤ lot.remaining_amount amount) now
              (after_take lot amount now table) hs (omega min_laws)
              (omega (min_laws, bonus_of-nonneg lots hs)) in
          rw (consume_more lot lots amount now table t, ih) (omega min_laws)
    ]

-- The share of a lot in the total of a wallet goes down by what is taken.
share_take : (b : Bool) (x taken : ℤ) → share b (x -ℤ taken) +ℤ share b taken ≡ share b x
share_take true x taken = omega int_laws
share_take false x taken = omega int_laws

module _ (w : ℕ) (lot : CoinLot) (left : ℤ) (now : ℕ) (table : List CoinLot) where
  pub after_take-IsListed :
      (lots : List CoinLot)
      → All (λ other. lot.id ≢ other.id) lots
      → All (IsListed w table) lots
      → All (IsListed w (after_take lot left now table)) lots
  after_take-IsListed [] n h = tt
  after_take-IsListed (x ∷ xs) (n, ns) (h, hs) = (
    (find_row-update_ne lot.id x.id _ table (λ y. refl) n ∙ h.0, h.1),
    after_take-IsListed xs ns hs,
  )

  bonus_total-after_take :
      (v : ℕ)
      → IsListed w table lot
      → bonus_total v (after_take lot left now table)
          +ℤ share (w == v) (min_ℤ lot.remaining_amount left)
        ≡ bonus_total v table
  bonus_total-after_take v (found, own) =
      let f = take_from (lot.remaining_amount -ℤ min_ℤ lot.remaining_amount left) now in
      let moved = sum_of-update (lot_share v) lot.id f table lot found in
      let part =
        share_take (lot.wallet_id == v) lot.remaining_amount (min_ℤ lot.remaining_amount left) in
      rw (← own) (omega (int_laws, min_laws, parts_eq moved, parts_eq part))

-- Of the lots of a wallet, the total goes down by the debits, and of no other wallet's.
pub bonus_total-consume :
    (v w : ℕ) (lots : List CoinLot) (left : ℤ) (now : ℕ) (table : List CoinLot)
    → IsUnique lots
    → All (IsListed w table) lots
    → let (debits, after) = consume_lots lots left now table in
      bonus_total v after +ℤ share (w == v) (debited debits) ≡ bonus_total v table
bonus_total-consume v w [] left now table u h =
    unfold consume_lots in rw (share_zero (w == v)) (omega int_laws)
bonus_total-consume v w (lot ∷ lots) left now table (n, u) (h, hs) =
    elim (Bool-cases (leb_ℤ left (pos 0))) [
      | inl t ↦
          rw (consume_done (lot ∷ lots) left now table t, share_zero (w == v)) (omega int_laws)
      | inr t ↦
          let taken = min_ℤ lot.remaining_amount left in
          let ih =
            bonus_total-consume v w lots (left -ℤ taken) now (after_take lot left now table) u
              (after_take-IsListed w lot left now table lots n hs) in
          let moved = bonus_total-after_take w lot left now table v h in
          rw (consume_more lot lots left now table t, share_add (w == v) taken _)
            (omega (int_laws, parts_eq moved, parts_eq ih))
    ]

-- The lots that stay in the table keep their ids, and none comes to hold less than nothing.
pub consume-kept :
    (lots : List CoinLot) (left : ℤ) (now : ℕ) (table : List CoinLot)
    → IsUnique table × All IsNonneg table
    → let after = (consume_lots lots left now table).1 in IsUnique after × All IsNonneg after
consume-kept [] left now table h = unfold consume_lots in h
consume-kept (lot ∷ lots) left now table (u, h) = elim (Bool-cases (leb_ℤ left (pos 0))) [
  | inl t ↦ rw (consume_done (lot ∷ lots) left now table t) (u, h)
  | inr t ↦ rw (consume_more lot lots left now table t) (
      consume-kept lots (left -ℤ min_ℤ lot.remaining_amount left) now
        (after_take lot left now table)
        (
          update_row-IsUnique lot.id _ table (λ y. refl) u,
          update_row-All IsNonneg lot.id _ table (λ y k. omega min_laws) h,
        ))
]
