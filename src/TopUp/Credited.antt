-- ===== src/TopUp/Credited.antt =====
-- How many Coins an order was credited, by the ledger, and what that has to do with its status.
pub mod Settling
pub mod Delivery
pub mod Requests
pub mod Reach
pub mod Opening
use ai_cinema_be.Common.{
  ℕ, ◌≡◌, ◌⊎◌, refl, Bool, true, false, ◌&&◌, Option, none, some, List, [], ◌∷◌, ◌++◌, map,
}
use ai_cinema_be.Common.Int.{ℤ, pos, int_laws, parts_eq}
use ai_cinema_be.Common.Lists.{All, All-map, All-of_map, sum_of}
use ai_cinema_be.Common.Table.{
  find_row, update_row, IsUnique, update_row-IsUnique, update_row-All, map-IsUnique,
  find_row-update_none, find_row-map-none,
}
use ai_cinema_be.Wallet.Rows.{CoinTransaction, CoinReferenceType}
use ai_cinema_be.Wallet.Sums.{share}
use ai_cinema_be.TopUp.Rows.{CoinTopUp, Orders, is_order_pending, top_up_has_id}
use ai_cinema_be.TopUp.Settlement.{is_some_id}

abbrev pub is_top_up_ref : Option CoinReferenceType → Bool
is_top_up_ref (some CoinReferenceType.coin_top_up) = true
is_top_up_ref _ = false

-- The row is a credit for the order `i`.
abbrev pub pays : ℕ → CoinTransaction → Bool
pays i t = is_top_up_ref t.reference_type && is_some_id i t.reference_id

abbrev pub credited : ℕ → List CoinTransaction → ℤ
credited i = sum_of (λ t. share (pays i t) t.main_amount)

-- A pending order was credited nothing, and any order nothing or its Coins, once.
abbrev pub IsCredited : List CoinTransaction → CoinTopUp → Type 0
IsCredited rows o =
    (is_order_pending o.status ≡ true → credited o.id rows ≡ pos 0)
    × ((credited o.id rows ≡ pos 0) ⊎ (credited o.id rows ≡ o.coins_granted))

pub record IsCreditedOnce (st : Orders) : Type 0 where
  pub unique : IsUnique st.top_ups
  pub unknown : (i : ℕ) → find_row i st.top_ups ≡ none → credited i st.ledger.transactions ≡ pos 0
  pub orders : All (IsCredited st.ledger.transactions) st.top_ups

-- A write that keeps an order's id and Coins, and makes none pending.
pub record MovesOn (f : CoinTopUp → CoinTopUp) : Type 0 where
  pub same_id : (o : CoinTopUp) → (f o).id ≡ o.id
  pub same_coins : (o : CoinTopUp) → (f o).coins_granted ≡ o.coins_granted
  pub not_back :
      (o : CoinTopUp) → is_order_pending (f o).status ≡ true → is_order_pending o.status ≡ true

module _ (f : CoinTopUp → CoinTopUp) (m : MovesOn f) where
  pub IsCredited-moved :
      (rows : List CoinTransaction) (o : CoinTopUp) → IsCredited rows o → IsCredited rows (f o)
  IsCredited-moved rows o (p, c) = rw (m.same_id o, m.same_coins o) (λ t. p (m.not_back o t), c)

  pub update_order-IsCreditedOnce :
      (i : ℕ) (st after : Orders)
      → after.ledger.transactions ≡ st.ledger.transactions
      → after.top_ups ≡ update_row i f st.top_ups
      → IsCreditedOnce st
      → IsCreditedOnce after
  update_order-IsCreditedOnce i st after same moved c = record {
    unique = rw moved (update_row-IsUnique i f st.top_ups m.same_id c.unique);
    unknown = λ j h.
        rw same (c.unknown j (find_row-update_none i j f st.top_ups m.same_id (rw moved at h)));
    orders =
        rw (same, moved)
          (update_row-All (IsCredited st.ledger.transactions) i f st.top_ups
            (IsCredited-moved st.ledger.transactions) c.orders);
  }

  pub map_orders-IsCreditedOnce :
      (st after : Orders)
      → after.ledger.transactions ≡ st.ledger.transactions
      → after.top_ups ≡ map f st.top_ups
      → IsCreditedOnce st
      → IsCreditedOnce after
  map_orders-IsCreditedOnce st after same moved c = record {
    unique = rw moved (map-IsUnique f st.top_ups m.same_id c.unique);
    unknown =
        λ j h. rw same (c.unknown j (find_row-map-none j f st.top_ups m.same_id (rw moved at h)));
    orders =
        rw (same, moved)
          (All-of_map (IsCredited st.ledger.transactions) (IsCredited st.ledger.transactions) f
            st.top_ups (IsCredited-moved st.ledger.transactions) c.orders);
  }

-- Rows that credit no order.
abbrev pub IsElsewhere : CoinTransaction → Type 0
IsElsewhere t = is_top_up_ref t.reference_type ≡ false

credited-elsewhere :
    (i : ℕ) (new rows : List CoinTransaction)
    → All IsElsewhere new
    → credited i (new ++ rows) ≡ credited i rows
credited-elsewhere i [] rows h = refl
credited-elsewhere i (t ∷ new) rows (h, hs) =
    rw h (omega (int_laws, parts_eq (credited-elsewhere i new rows hs)))

pub elsewhere-IsCreditedOnce :
    (st after : Orders) (new : List CoinTransaction)
    → after.top_ups ≡ st.top_ups
    → after.ledger.transactions ≡ new ++ st.ledger.transactions
    → All IsElsewhere new
    → IsCreditedOnce st
    → IsCreditedOnce after
elsewhere-IsCreditedOnce st after new same grown others c = record {
  unique = rw same c.unique;
  unknown = λ i h.
      rw (grown, credited-elsewhere i new st.ledger.transactions others)
        (c.unknown i (rw same at h));
  orders =
      rw (same, grown)
        (All-map (IsCredited st.ledger.transactions) (IsCredited (new ++ st.ledger.transactions))
          st.top_ups (λ o p. rw (credited-elsewhere o.id new st.ledger.transactions others) p)
          c.orders);
}
