-- ===== src/Wallet/Expiry/Sweep.antt =====
-- The loop of the sweep, `expireDue` of bonus-expiry.sweep.ts.
use mathlib.Core.Option
use ai_cinema_be.Common.{
  ℕ, zero, suc, ◌+◌, Option, none, some, List, [], ◌∷◌, if◌then◌else◌, ltb, ◌==◌,
}
use ai_cinema_be.Common.Int.{ℤ, pos, ◌+ℤ◌}
use ai_cinema_be.Common.Lists.{length}
use ai_cinema_be.Common.Transaction.{Result, ok, err}
use ai_cinema_be.Common.Action.{Action, done, commit, ◌>>=◌, ◌>>◌}
use ai_cinema_be.Settings.{PlatformSetting}
use ai_cinema_be.Wallet.Rows.{CoinLot, Ledger, Database}
use ai_cinema_be.Wallet.Expiry.{batch, due_lots, expire}

module _ (db : Database) (s : PlatformSetting) where
  -- One batch. Each lot is a transaction of its own: what is done stays done if a later one fails.
  unfoldable pub expire_batch : List CoinLot → ℕ → Action Ledger ℤ
  expire_batch [] now = done (pos 0)
  expire_batch (lot ∷ lots) now = do
    commit (expire db s lot now)
    coins ← expire_batch lots now
    done (lot.remaining_amount +ℤ coins)

  abbrev add_batch : ℕ → ℤ → Result (ℕ × ℤ) × Ledger → Result (ℕ × ℤ) × Ledger
  add_batch n coins (ok (lots, more), l) = (ok (n + lots, coins +ℤ more), l)
  add_batch n coins (err e, l) = (err e, l)

  -- The `for (;;)` of `expireDue`, on fuel; `none` is fuel that ran out. The result is how many
  -- lots and how many Coins it counts.
  unfoldable pub expire_due : ℕ → ℕ → Ledger → Option (Result (ℕ × ℤ) × Ledger)
  expire_due zero now l = none
  expire_due (suc fuel) now l =
      let due = due_lots db now l in
      let after = expire_batch due now l in
      let rest = expire_due fuel now after.1 in
      elim after.0 [
        | err e ↦ some (err e, after.1)
        | ok coins ↦
            if length due == 0
            then some (ok (0, pos 0), l)
            else if ltb (length due) batch
            then some (ok (length due, coins), after.1)
            else Option.map (add_batch (length due) coins) rest
      ]
