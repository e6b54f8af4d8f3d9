-- ===== src/Project/Tokens.antt =====
-- production-fee.service.ts and reviewer-token.service.ts: the fee of a movie and the Token budget
-- of a Reviewer, two ledgers whose sums are the figures.
pub mod Laws
pub mod Solvent
use mathlib.Core.Option
use ai_cinema_be.Project.Rows.{
  user_has_id, correction, top_up, initial, fee_corrected, fee_topped_up, content_reviewer,
  fee_allocated, grant, revoke, ProjectEvent, Studio, ReviewerTokenEntry, User, TokenEntryType,
  ReviewerTokenEntryType, TokenLedgerEntry,
}
use ai_cinema_be.Common.{
  ℕ, Bool, true, false, ◌&&◌, ◌||◌, not, Option, none, some, List, [], ◌∷◌, if◌then◌else◌, ◌==◌,
}
use ai_cinema_be.Common.Int.{ℤ, pos, ◌+ℤ◌, ◌-ℤ◌, neg, leb_ℤ, ltb_ℤ, eqb_ℤ}
use ai_cinema_be.Common.Words.{Words, trim, is_blank}
use ai_cinema_be.Common.Transaction.{Tx, pure, gets, modify, require, or_throw, ◌>>=◌, ◌>>◌}
use ai_cinema_be.Project.Rules.{
  reviewer, assert_project_status, project_of, eqb_role, is_open_project, ProjectRole,
  AuthenticatedUser,
}
use ai_cinema_be.Access.Rows.{MovieStatus}
use ai_cinema_be.Settings.{PlatformSetting}
use ai_cinema_be.Common.Errors.{
  reviewer_not_found, fee_below_zero, not_found, fee_without_reason, fee_not_positive,
  fee_not_allocated, fee_already_allocated, not_enough_tokens, revoke_without_reason, bad_request,
  conflict, Error,
}
use ai_cinema_be.Common.Lists.{keep, sum_of}
use ai_cinema_be.Common.Table.{find_row}

pub record TokenBalance : Type 0 where
  pub granted_tokens : ℤ
  pub allocated_tokens : ℤ
  pub balance_tokens : ℤ

-- `AddFeeEntryRequestDto` and `AddReviewerTokenEntryRequestDto`
pub record FeeEntryRequest : Type 0 where
  pub entry_type : TokenEntryType
  pub amount_tokens : ℤ
  pub reason : Option Words

pub record BudgetEntryRequest : Type 0 where
  pub entry_type : ReviewerTokenEntryType
  pub amount_tokens : ℤ
  pub reason : Option Words

unfoldable pub total_tokens : ℕ → List TokenLedgerEntry → ℤ
total_tokens movie_id fees =
    sum_of (λ e. e.amount_tokens) (keep (λ (e : TokenLedgerEntry). e.movie_id == movie_id) fees)

unfoldable pub granted_to : ℕ → List ReviewerTokenEntry → ℤ
granted_to reviewer_id budgets =
    sum_of (λ e. e.amount_tokens)
      (keep (λ (e : ReviewerTokenEntry). e.reviewer_id == reviewer_id) budgets)

unfoldable pub allocated_by : ℕ → List TokenLedgerEntry → ℤ
allocated_by reviewer_id fees =
    sum_of (λ e. e.amount_tokens)
      (keep (λ (e : TokenLedgerEntry). e.created_by_id == reviewer_id) fees)

unfoldable pub balance : ℕ → Studio → TokenBalance
balance reviewer_id st =
    let granted = granted_to reviewer_id st.budgets in
    let allocated = allocated_by reviewer_id st.fees in
    record {
      granted_tokens = granted;
      allocated_tokens = allocated;
      balance_tokens = granted -ℤ allocated;
    }

unfoldable pub assert_can_spend : ℕ → ℤ → Tx Studio (Unit {0})
assert_can_spend reviewer_id amount = if leb_ℤ amount (pos 0) then pure tt else do
  b ← gets (balance reviewer_id)
  require (leb_ℤ amount b.balance_tokens) (conflict not_enough_tokens)

-- The statuses in which the fee may still change.
abbrev pub may_change_fee : MovieStatus → Bool
may_change_fee MovieStatus.under_revision = true
may_change_fee status = is_open_project status

abbrev pub is_draft : MovieStatus → Bool
is_draft MovieStatus.draft = true
is_draft _ = false

-- `assertAllowed` for an entry that is not the first.
unfoldable pub assert_change :
    FeeEntryRequest → MovieStatus → ℤ → Bool → Error → Tx Studio (Unit {0})
assert_change r status total amount_ok refusal = do
  assert_project_status status may_change_fee
  require (not (eqb_ℤ total (pos 0))) (conflict fee_not_allocated)
  require (not (is_blank r.reason)) (bad_request fee_without_reason)
  require amount_ok refusal

-- `assertAllowed`
unfoldable pub assert_allowed :
    TokenEntryType → FeeEntryRequest → MovieStatus → ℤ → Tx Studio (Unit {0})
assert_allowed initial r status total = do
  assert_project_status status is_draft
  require (eqb_ℤ total (pos 0)) (conflict fee_already_allocated)
  require (ltb_ℤ (pos 0) r.amount_tokens) (bad_request fee_not_positive)
assert_allowed top_up r status total =
    assert_change r status total (ltb_ℤ (pos 0) r.amount_tokens) (bad_request fee_not_positive)
assert_allowed correction r status total =
    assert_change r status total
      (not (eqb_ℤ r.amount_tokens (pos 0) || leb_ℤ (total +ℤ r.amount_tokens) (pos 0)))
      (bad_request fee_below_zero)

-- `EVENT_BY_TYPE`
abbrev pub event_by_type : TokenEntryType → ProjectEvent
event_by_type initial = fee_allocated
event_by_type top_up = fee_topped_up
event_by_type correction = fee_corrected

-- What the Reviewer service's `addEntry` writes for an amount.
abbrev pub signed_amount : ReviewerTokenEntryType → ℤ → ℤ
signed_amount grant amount = amount
signed_amount revoke amount = neg amount

abbrev pub is_revoke : ReviewerTokenEntryType → Bool
is_revoke revoke = true
is_revoke grant = false

-- `dto.reason?.trim() || null`
abbrev pub reason_of : Option Words → Option Words
reason_of none = none
reason_of (some cs) = if is_blank (some cs) then none else some (trim cs)

abbrev pub is_reviewer : Option User → Bool
is_reviewer none = false
is_reviewer (some u) = eqb_role u.role content_reviewer

module _ (s : PlatformSetting) where
  -- The transaction of the fee service's `addEntry`; the fresh row and the answer after it only
  -- read. Notifications are left out.
  unfoldable pub add_fee_entry : ℕ → FeeEntryRequest → AuthenticatedUser → Tx Studio (Unit {0})
  add_fee_entry movie_id r user = do
    p ← project_of movie_id user ProjectRole.reviewer
    total ← gets (λ st. total_tokens movie_id st.fees)
    assert_allowed r.entry_type r p.status total
    assert_can_spend user.id r.amount_tokens
    modify (λ st. record st {
      fees =
          record {
            movie_id = movie_id;
            entry_type = r.entry_type;
            amount_tokens = r.amount_tokens;
            rate_vnd = s.token_rate_vnd;
            reason = Option.map trim r.reason;
            created_by_id = user.id;
          }
          ∷ st.fees;
      audit_log =
          record {
            action = event_by_type r.entry_type;
            movie_id = movie_id;
            actor_id = some user.id;
          }
          ∷ st.audit_log;
    })

  -- The Admin grants Token to a Reviewer or takes some back.
  unfoldable pub add_budget_entry :
      ℕ → BudgetEntryRequest → AuthenticatedUser → Tx Studio (Unit {0})
  add_budget_entry reviewer_id r by = do
    require (not (is_revoke r.entry_type && is_blank r.reason)) (bad_request revoke_without_reason)
    found ← gets (λ st. find_row reviewer_id st.users)
    require (is_reviewer found) (not_found reviewer_not_found)
    b ← gets (balance reviewer_id)
    require (not (is_revoke r.entry_type && not (leb_ℤ r.amount_tokens b.balance_tokens)))
        (conflict not_enough_tokens)
    modify (λ st. record st {
      budgets =
          record {
            reviewer_id = reviewer_id;
            entry_type = r.entry_type;
            amount_tokens = signed_amount r.entry_type r.amount_tokens;
            rate_vnd = s.token_rate_vnd;
            reason = reason_of r.reason;
            created_by_id = some by.id;
          }
          ∷ st.budgets;
    })
