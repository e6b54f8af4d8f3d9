-- ===== src/Wallet/Consistent.antt =====
-- When the wallets, the lots and the ledger agree, and what a movement of Coins does to them.
use ai_cinema_be.Common.{ℕ, ◌≡◌, ◌≢◌, refl, sym, ◌∙◌, subst, List, ◌==◌, some, arith}
use ai_cinema_be.Common.Int.{ℤ, pos, ◌+ℤ◌, ◌≤ℤ◌, int_laws, parts_eq}
use ai_cinema_be.Common.Lists.{All}
use ai_cinema_be.Common.Table.{
  find_row, update_row, IsUnique, update_row-IsUnique, update_row-All_at, found_rows, All-zip,
  some_eq,
}
use ai_cinema_be.Wallet.Rows.{
  CoinWallet, CoinLot, CoinTransaction, Ledger, wallet_has_id, lot_has_id,
}
use ai_cinema_be.Wallet.Lots.{set_balances}
use ai_cinema_be.Wallet.Sums.{share, bonus_total, main_sum, bonus_sum, IsNonneg}

-- Both counters of a wallet are the sums of its ledger rows, its bonus Coins lie in its lots, and
-- its main Coins are not overdrawn.
pub record IsBalanced (lots : List CoinLot) (rows : List CoinTransaction) (w : CoinWallet)
    : Type 0 where
  pub main_kept : w.main_balance ≡ main_sum w.id rows
  pub bonus_kept : w.bonus_balance ≡ bonus_sum w.id rows
  pub lots_kept : w.bonus_balance ≡ bonus_total w.id lots
  pub main_nonneg : pos 0 ≤ℤ w.main_balance

pub record IsConsistent (l : Ledger) : Type 0 where
  pub unique_wallets : IsUnique l.wallets
  pub lots_ok : IsUnique l.lots × All IsNonneg l.lots
  pub balanced : All (IsBalanced l.lots l.transactions) l.wallets

-- From `l` to `after`, the wallet `w` and no other gained `main` main Coins and `bonus` bonus Coins
-- (a negative number is a loss), on its counters, in its lots and in the ledger.
pub record Moves (w : ℕ) (main bonus : ℤ) (l after : Ledger) : Type 0 where
  pub wallet : CoinWallet
  pub found : find_row w l.wallets ≡ some wallet
  pub written :
      after.wallets
      ≡ update_row w
          (set_balances (wallet.main_balance +ℤ main) (wallet.bonus_balance +ℤ bonus))
          l.wallets
  pub lots_moved : (v : ℕ) → bonus_total v after.lots ≡ bonus_total v l.lots +ℤ share (w == v) bonus
  pub main_moved :
      (v : ℕ) → main_sum v after.transactions ≡ main_sum v l.transactions +ℤ share (w == v) main
  pub bonus_moved :
      (v : ℕ) → bonus_sum v after.transactions ≡ bonus_sum v l.transactions +ℤ share (w == v) bonus
  pub covered : pos 0 ≤ℤ wallet.main_balance +ℤ main
  pub lots_kept :
      IsUnique l.lots × All IsNonneg l.lots → IsUnique after.lots × All IsNonneg after.lots

share_other : (w v : ℕ) (x : ℤ) → v ≢ w → share (w == v) x ≡ pos 0
share_other w v x h = ground arith

+ℤ_zero : (a b c : ℤ) → a ≡ b +ℤ c → c ≡ pos 0 → a ≡ b
+ℤ_zero a b c e z = omega (int_laws, parts_eq e, parts_eq z)

gained :
    (old new total moved gain : ℤ)
    → old ≡ total
    → new ≡ total +ℤ moved
    → moved ≡ gain
    → old +ℤ gain ≡ new
gained old new total moved gain p q r = omega (int_laws, parts_eq p, parts_eq q, parts_eq r)

own : (w v : ℕ) (x : ℤ) → v ≡ w → share (w == v) x ≡ x
own w v x e = ground arith

module _ (w : ℕ) (main bonus : ℤ) (l after : Ledger) (m : Moves w main bonus l after) where
  at_wallet :
      (v : CoinWallet)
      → v.id ≡ w
      → IsBalanced l.lots l.transactions v
      → v ≡ m.wallet
      → IsBalanced after.lots after.transactions
          (set_balances (m.wallet.main_balance +ℤ main) (m.wallet.bonus_balance +ℤ bonus) v)
  at_wallet v e b same = rw (← same) (record {
    main_kept = gained _ _ _ _ _ b.main_kept (m.main_moved v.id) (own w v.id main e);
    bonus_kept = gained _ _ _ _ _ b.bonus_kept (m.bonus_moved v.id) (own w v.id bonus e);
    lots_kept = gained _ _ _ _ _ b.lots_kept (m.lots_moved v.id) (own w v.id bonus e);
    main_nonneg = rw same m.covered;
  })

  elsewhere :
      (v : CoinWallet)
      → v.id ≢ w
      → IsBalanced l.lots l.transactions v
      → IsBalanced after.lots after.transactions v
  elsewhere v n b = record {
    main_kept = b.main_kept ∙ sym (+ℤ_zero _ _ _ (m.main_moved v.id) (share_other w v.id main n));
    bonus_kept =
        b.bonus_kept ∙ sym (+ℤ_zero _ _ _ (m.bonus_moved v.id) (share_other w v.id bonus n));
    lots_kept = b.lots_kept ∙ sym (+ℤ_zero _ _ _ (m.lots_moved v.id) (share_other w v.id bonus n));
    main_nonneg = b.main_nonneg;
  }

pub Moves-IsConsistent :
    (w : ℕ) (main bonus : ℤ) (l after : Ledger)
    → IsConsistent l
    → Moves w main bonus l after
    → IsConsistent after
Moves-IsConsistent w main bonus l after c m = record {
  unique_wallets = rw m.written (update_row-IsUnique w _ l.wallets (λ y. refl) c.unique_wallets);
  lots_ok = m.lots_kept c.lots_ok;
  balanced = rw m.written (
      update_row-All_at
        (λ v. IsBalanced l.lots l.transactions v × (find_row v.id l.wallets ≡ some v))
        (IsBalanced after.lots after.transactions) w _ l.wallets c.unique_wallets
        (λ v e p.
          at_wallet w main bonus l after m v e p.0
            (some_eq (sym (subst (λ i. find_row i l.wallets ≡ some v) e p.1) ∙ m.found)))
        (λ v n p. elsewhere w main bonus l after m v n p.0)
        (All-zip _ _ _ l.wallets (λ v b f. (b, f)) c.balanced
          (found_rows l.wallets c.unique_wallets)));
}
