-- ===== src/Wallet/Spend/Opening.antt =====
-- Opening a lot for bonus Coins that come in.
use ai_cinema_be.Common.{
  ℕ, ◌+◌, ◌*◌, ◌≡◌, ◌≢◌, ◌∙◌, ap, refl, sym, inl, inr, List, [], ◌∷◌, map, arith, ◌==◌, some, none,
  Option, Bool-cases,
}
use ai_cinema_be.Common.Int.{ℤ, pos, ◌+ℤ◌, ◌≤ℤ◌, leb_ℤ, int_laws, parts_eq, +ℤ_comm, eq_of_parts}
use ai_cinema_be.Common.Lists.{All}
use ai_cinema_be.Common.Table.{IsUnique}
use ai_cinema_be.Common.Transaction.{ok, bind-eq-ok, ok_snd}
use ai_cinema_be.Settings.{PlatformSetting}
use ai_cinema_be.Wallet.Rows.{CoinLot, CoinLotSource, CreditRequest, Ledger, Database, lot_has_id}
use ai_cinema_be.Wallet.Sums.{share, share_zero, bonus_total, IsNonneg}
use ai_cinema_be.Wallet.Spend.{create_lot, open_lot, lot_for}

-- The lots now hold `bonus` Coins more for the wallet `w`, and nothing else changed.
pub record Opens (w : ℕ) (bonus : ℤ) (l after : Ledger) : Type 0 where
  pub lots : List CoinLot
  pub lots_only : after ≡ record l { lots = lots }
  pub opened : (v : ℕ) → bonus_total v lots ≡ bonus_total v l.lots +ℤ share (w == v) bonus
  pub kept : IsUnique l.lots × All IsNonneg l.lots → IsUnique lots × All IsNonneg lots

ids_kept :
    (i : ℕ) (lots : List CoinLot)
    → All (λ j. i ≢ j) (map (λ (x : CoinLot). x.id) lots)
    → All (λ (x : CoinLot). i ≢ x.id) lots
ids_kept i [] h = tt
ids_kept i (x ∷ xs) (h, hs) = (h, ids_kept i xs hs)

pub Opens-none : (w : ℕ) (bonus : ℤ) (l : Ledger) → bonus ≡ pos 0 → Opens w bonus l l
Opens-none w bonus l h = record {
  lots = l.lots;
  lots_only = refl;
  opened = λ v.
      let zero_share = ap (share (w == v)) h ∙ share_zero (w == v) in
      omega (int_laws, parts_eq zero_share);
  kept = λ k. k;
}

module _ (db : Database) (s : PlatformSetting) (w : ℕ) where
  pub create_lot-Opens :
      (source : CoinLotSource) (bonus : ℤ) (days now : ℕ) (l : Ledger) {id : ℕ} {after : Ledger}
      → pos 0 ≤ℤ bonus
      → create_lot db s w source bonus days now l ≡ ok (id, after)
      → Opens w bonus l after
  unfolding create_lot
  create_lot-Opens source bonus days now l p h = record {
    lots = after_lots;
    lots_only = sym (ok_snd h);
    opened = λ v. +ℤ_comm (share (w == v) bonus) (bonus_total v l.lots);
    kept = λ k. ((ids_kept _ l.lots (db.fresh_id-new _), k.0), (p, k.1));
  }
    where
      after_lots : List CoinLot
      after_lots =
          record {
            id = db.fresh_id (map (λ (lot : CoinLot). lot.id) l.lots);
            wallet_id = w;
            source = source;
            original_amount = bonus;
            remaining_amount = bonus;
            granted_at = now;
            expires_at = now + days * 86_400_000;
            closed_at = none;
          }
          ∷ l.lots

  pub open_lot-Opens :
      (r : CreditRequest) (bonus : ℤ) (now : ℕ) (l : Ledger) {lot : Option ℕ} {after : Ledger}
      → pos 0 ≤ℤ bonus
      → open_lot db s w r bonus now l ≡ ok (lot, after)
      → Opens w bonus l after
  unfolding open_lot
  open_lot-Opens r bonus now l p h = elim (Bool-cases (leb_ℤ bonus (pos 0))) [
    | inl t ↦
        rw (← ok_snd (rw t at h)) (Opens-none w bonus l (eq_of_parts bonus (pos 0) (ground arith)))
    | inr t ↦
        let (id, mid, made, last) =
          bind-eq-ok (create_lot db s w r.lot_source bonus _ now l) _ (rw t at h) in
        rw (← ok_snd last) (create_lot-Opens r.lot_source bonus _ now l p made)
  ]

  pub lot_for-Opens :
      (given : Option ℕ) (r : CreditRequest) (bonus : ℤ) (now : ℕ) (l : Ledger) {lot : Option ℕ}
      {after : Ledger}
      → given ≡ none
      → pos 0 ≤ℤ bonus
      → lot_for db s given w r bonus now l ≡ ok (lot, after)
      → Opens w bonus l after
  unfolding lot_for
  lot_for-Opens (some id) r bonus now l e p h = cc
  lot_for-Opens none r bonus now l e p h = open_lot-Opens r bonus now l p h
