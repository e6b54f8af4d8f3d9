-- ===== src/Wallet/Spend/Build.antt =====
-- A movement put together from its parts: the lots, the ledger rows and the counters.
use ai_cinema_be.Common.{ℕ, ◌≡◌, ◌∙◌, sym, ap, [], ◌∷◌, List, arith, ◌==◌, some}
use ai_cinema_be.Common.Int.{ℤ, pos, ◌+ℤ◌, ◌≤ℤ◌}
use ai_cinema_be.Common.Lists.{All}
use ai_cinema_be.Common.Table.{find_row, update_row, IsUnique}
use ai_cinema_be.Common.Transaction.{ok, bind-eq-ok, ok_snd}
use ai_cinema_be.Wallet.Rows.{
  CoinWallet, CoinLot, EntryInput, CoinTransaction, Database, Ledger, wallet_has_id, lot_has_id,
}
use ai_cinema_be.Wallet.Lots.{locked, bump_wallet, set_balances, create_entries}
use ai_cinema_be.Wallet.Sums.{share, bonus_total, IsNonneg}
use ai_cinema_be.Wallet.Spend.{write_entries, first_id}
use ai_cinema_be.Wallet.Consistent.{Moves}
use ai_cinema_be.Wallet.Spend.Entries.{Adds, create_entries-Adds, main_input, bonus_input}

pub locked_ok :
    (w : ℕ) (l : Ledger) {wallet : CoinWallet} {after : Ledger}
    → locked w l ≡ ok (wallet, after)
    → (find_row w l.wallets ≡ some wallet) × (after ≡ l)
unfolding locked
locked_ok w l h = ground arith

pub locked_found :
    (w : ℕ) (l : Ledger) (wallet : CoinWallet)
    → find_row w l.wallets ≡ some wallet
    → locked w l ≡ ok (wallet, l)
unfolding locked
locked_found w l wallet h = ground arith

pub bump_wallet_ok :
    (w : ℕ) (main bonus : ℤ) (l : Ledger) {u : Unit {0}} {after : Ledger}
    → bump_wallet w main bonus l ≡ ok (u, after)
    → after ≡ record l { wallets = update_row w (set_balances main bonus) l.wallets }
unfolding bump_wallet
bump_wallet_ok w main bonus l h = ground arith

-- What a movement writes before the counters.
pub record Writes (w : ℕ) (main bonus : ℤ) (l : Ledger) (lots : List CoinLot) (es : List EntryInput)
    : Type 0 where
  pub main_written : (v : ℕ) → main_input v es ≡ share (w == v) main
  pub bonus_written : (v : ℕ) → bonus_input v es ≡ share (w == v) bonus
  pub lots_written : (v : ℕ) → bonus_total v lots ≡ bonus_total v l.lots +ℤ share (w == v) bonus
  pub lots_kept : IsUnique l.lots × All IsNonneg l.lots → IsUnique lots × All IsNonneg lots

first_id_ok :
    (rows : List CoinTransaction) (l : Ledger) {first : ℕ} {after : Ledger}
    → first_id rows l ≡ ok (first, after)
    → after ≡ l
unfolding first_id
first_id_ok [] l h = cc
first_id_ok (t ∷ ts) l h = cc

pub write_entries_ok :
    (db : Database) (w : ℕ) (es : List EntryInput) (main bonus : ℤ) (l : Ledger) {first : ℕ}
    {after : Ledger}
    → write_entries db w es main bonus l ≡ ok (first, after)
    → (mid : Ledger) × Adds es l mid
      × (after ≡ record mid { wallets = update_row w (set_balances main bonus) mid.wallets })
unfolding write_entries
write_entries_ok db w es main bonus l h =
    let (rows, mid, made, h₁) = bind-eq-ok (create_entries db es l) _ h in
    let (first, mid', read, h₂) = bind-eq-ok (first_id rows mid) _ h₁ in
    let (u, end, bumped, h₃) = bind-eq-ok (bump_wallet w main bonus mid') _ h₂ in
    let same = first_id_ok rows mid read in
    (
      mid,
      create_entries-Adds db es l made,
      sym (ok_snd h₃)
          ∙ bump_wallet_ok w main bonus mid' bumped
          ∙ ap
              (λ (x : Ledger). record x {
                wallets = update_row w (set_balances main bonus) x.wallets;
              })
              same,
    )

module _ (db : Database) (w : ℕ) (main bonus : ℤ) (l after : Ledger) (lots : List CoinLot)
    (es : List EntryInput) (wallet : CoinWallet) (main_after bonus_after : ℤ) (first : ℕ) where
  pub Moves-of_Writes :
      find_row w l.wallets ≡ some wallet
      → Writes w main bonus l lots es
      → main_after ≡ wallet.main_balance +ℤ main
      → bonus_after ≡ wallet.bonus_balance +ℤ bonus
      → pos 0 ≤ℤ wallet.main_balance +ℤ main
      → write_entries db w es main_after bonus_after (record l { lots = lots }) ≡ ok (first, after)
      → Moves w main bonus l after
  Moves-of_Writes found writes em eb covered h =
      let (mid, adds, end) = write_entries_ok db w es main_after bonus_after _ h in
      rw end (record {
        wallet = wallet;
        found = found;
        written = rw (adds.same_wallets, em, eb);
        lots_moved = λ v. rw adds.same_lots (writes.lots_written v);
        main_moved = λ v. rw (← writes.main_written v) (adds.main_added v);
        bonus_moved = λ v. rw (← writes.bonus_written v) (adds.bonus_added v);
        covered = covered;
        lots_kept = λ k. rw adds.same_lots (writes.lots_kept k);
      })
