-- ===== src/Membership/Sweep.antt =====
-- subscription-renewal.sweep.ts: what is due is renewed, and what stayed unpaid ends.
pub mod Rows
pub mod Stopped
pub mod RunsOn
pub mod Endless
use mathlib.Core.Option
use mathlib.Core.List.{Permᴰ}
use ai_cinema_be.Common.{
  ℕ, zero, suc, ◌+◌, ◌==◌, ◌&&◌, Bool, true, false, Option, none, some, List, [], ◌∷◌, String, map,
  leb, ltb, if◌then◌else◌,
}
use ai_cinema_be.Common.Lists.{keep, take, length}
use ai_cinema_be.Common.Action.{Action, done, commit, ◌>>=◌}
use ai_cinema_be.Settings.{PlatformSetting}
use ai_cinema_be.Wallet.Rows.{Database}
use ai_cinema_be.Access.Rows.{Store, Subscription}
use ai_cinema_be.Membership.Ending.{is_past_due, expire_plan}
use ai_cinema_be.Membership.Renewal.{is_active, renew}

-- What the sweep relies on of the database: rows in any order, each once.
pub record RenewalOrder : Type 0 where
  pub by_renewal : List Subscription → List Subscription
  pub by_renewal-perm : (l : List Subscription) → Permᴰ (by_renewal l) l

-- `const BATCH = 50`
abbrev pub renewal_batch : ℕ
renewal_batch = 50

-- `nextRenewalAt: { lte: now }`, which no empty column meets.
abbrev pub has_come : Option ℕ → ℕ → Bool
has_come none now = false
has_come (some at) now = leb at now

-- The `where` of the two queries.
abbrev pub is_renewal_due : ℕ → Subscription → Bool
is_renewal_due now p = is_active p.status && (p.auto_renew && has_come p.next_renewal_at now)

abbrev pub is_unpaid : ℕ → Subscription → Bool
is_unpaid now p = is_past_due p.status && has_come p.next_renewal_at now

-- `findMany` with `take: BATCH`, the ids alone.
unfoldable pub selected : RenewalOrder → (Subscription → Bool) → Store → List ℕ
selected q test st =
    map (λ (p : Subscription). p.id)
      (take renewal_batch (q.by_renewal (keep test st.subscriptions)))

abbrev pub counts : Bool → ℕ
counts b = if b then 1 else 0

-- The `for` over one batch; what it counts are the plans that the step moved.
unfoldable pub each_of : (ℕ → Action Store Bool) → List ℕ → Action Store ℕ
each_of step [] = done 0
each_of step (id ∷ ids) =
    let rest = each_of step ids in step id >>= (λ moved. rest >>= (λ n. done (counts moved + n)))

-- A `for (;;)` over batches, on fuel; `none` is fuel that ran out.
unfoldable pub in_batches :
    RenewalOrder → (Subscription → Bool) → (ℕ → Action Store Bool) → ℕ → Action Store (Option ℕ)
in_batches q test step zero st = done none st
in_batches q test step (suc fuel) st =
    let ids = selected q test st in
    let rest = in_batches q test step fuel in
    elim (length ids == 0) [
      | true ↦ done (some 0) st
      | false ↦ elim (ltb (length ids) renewal_batch) [
        | true ↦ (each_of step ids >>= (λ n. done (some n))) st
        | false ↦ (each_of step ids >>= (λ n. rest >>= (λ m. done (Option.map (λ k. n + k) m)))) st
      ]
    ]

-- Both passes need their fuel.
abbrev pub both : Option ℕ → Option ℕ → Option (ℕ × ℕ)
both (some a) (some b) = some (a, b)
both _ _ = none

module _ (db : Database) (s : PlatformSetting) (text_of_number : ℕ → String)
    (q : RenewalOrder) where
  unfoldable pub renew_step : ℕ → ℕ → ℕ → Action Store Bool
  renew_step now clock id =
      commit (renew db s text_of_number id now clock) >>= (λ r. done r.renewed)

  unfoldable pub expire_step : ℕ → ℕ → Action Store Bool
  expire_step now id = commit (expire_plan id now)

  unfoldable pub renew_pass : ℕ → ℕ → ℕ → Action Store (Option ℕ)
  renew_pass fuel now clock = in_batches q (is_renewal_due now) (renew_step now clock) fuel

  unfoldable pub expire_pass : ℕ → ℕ → Action Store (Option ℕ)
  expire_pass fuel now = in_batches q (is_unpaid now) (expire_step now) fuel

  -- `renewDue`: how many were renewed, and how many ended. The second pass follows the first.
  unfoldable pub renew_due : ℕ → ℕ → ℕ → Action Store (Option (ℕ × ℕ))
  renew_due fuel now clock =
      renew_pass fuel now clock
      >>= (λ renewed. expire_pass fuel now >>= (λ ended. done (both renewed ended)))
