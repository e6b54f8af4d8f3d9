-- ===== src/Project/Tokens/Solvent.antt =====
-- The Token invariant along any sequence of fee and budget entries.
use ai_cinema_be.Project.Rows.{
  revoke, ReviewerTokenEntry, grant, ReviewerTokenEntryType, Studio, user_has_id,
}
use ai_cinema_be.Common.{
  some, ==_iff, subst, refl, inr, ◌&&◌, false, ◌==◌, inl, ◌⊎◌, not, true, ◌≡◌, arith, ℕ, Bool,
  if◌then◌else◌,
}
use ai_cinema_be.Common.Transaction.{ok_snd, ok, bind-require-eq-ok}
use ai_cinema_be.Project.Tokens.{
  total_tokens, reason_of, is_reviewer, signed_amount, allocated_by, granted_to, is_revoke,
  add_fee_entry, BudgetEntryRequest, FeeEntryRequest, balance, add_budget_entry,
}
use ai_cinema_be.Settings.{PlatformSetting}
use ai_cinema_be.Project.Tokens.Laws.{
  granted_to-cons, total_tokens-cons, allocated_by-cons, add_fee_entry_ok, IsSolvent,
}
use ai_cinema_be.Common.Int.{leb_ℤ→le, leb_ℤ, int_laws, ◌+ℤ◌, ◌-ℤ◌, ◌≤ℤ◌, pos, ℤ}
use ai_cinema_be.Project.Rules.{AuthenticatedUser}
use ai_cinema_be.Common.Words.{is_blank}
use ai_cinema_be.Common.Table.{find_row}

pick_zero : (t : Bool) (x : ℤ) → pos 0 ≤ℤ x → pos 0 ≤ℤ (if t then x else pos 0)
pick_zero t x h = ground arith

balance_covers :
    (t : Bool) (granted allocated x : ℤ)
    → pos 0 ≤ℤ granted -ℤ allocated
    → ((t ≡ true) → (x ≤ℤ pos 0) ⊎ (x ≤ℤ granted -ℤ allocated))
    → pos 0 ≤ℤ granted -ℤ (allocated +ℤ (if t then x else pos 0))
balance_covers true granted allocated x p h = elim (h refl) [
  | inl q ↦ omega int_laws
  | inr q ↦ omega int_laws
]
balance_covers false granted allocated x p h = omega int_laws

total_stays :
    (t : Bool) (total x : ℤ)
    → pos 0 ≤ℤ total
    → ((t ≡ true) → pos 1 ≤ℤ total +ℤ x)
    → pos 0 ≤ℤ total +ℤ (if t then x else pos 0)
total_stays true total x p h = let q = h refl in omega int_laws
total_stays false total x p h = omega int_laws

-- An entry of the fee ledger that is written keeps every balance and every fee at zero or above,
-- where they all were before.
pub add_fee_entry-IsSolvent :
    (s : PlatformSetting) (movie : ℕ) (r : FeeEntryRequest) (user : AuthenticatedUser) (st : Studio)
    {u : Unit {0}} {after : Studio}
    → IsSolvent st
    → add_fee_entry s movie r user st ≡ ok (u, after)
    → IsSolvent after
unfolding balance
add_fee_entry-IsSolvent s movie r user st {after = after} i h =
    let a = add_fee_entry_ok s movie r user st i h in
    record {
      balances = λ v.
          rw
            (
              a.budgets_kept,
              a.fees_written,
              allocated_by-cons v a.row st.fees,
              a.row_author,
              a.row_amount,
            )
            (balance_covers (user.id == v) (granted_to v st.budgets) (allocated_by v st.fees)
              r.amount_tokens (i.balances v)
              (λ t.
                subst
                  (λ w.
                    (r.amount_tokens ≤ℤ pos 0) ⊎ (r.amount_tokens ≤ℤ (balance w st).balance_tokens))
                  ((==_iff user.id v).0 t) a.covered));
      totals = λ m.
          rw (a.fees_written, total_tokens-cons m a.row st.fees, a.row_movie, a.row_amount)
            (total_stays (movie == m) (total_tokens m st.fees) r.amount_tokens (i.totals m) (λ t.
              subst (λ w. pos 1 ≤ℤ total_tokens w st.fees +ℤ r.amount_tokens) ((==_iff movie m).0 t)
                a.above));
    }

-- What the Admin's entry leaves of a balance.
budget_covers :
    (t : Bool) (kind : ReviewerTokenEntryType) (granted allocated x : ℤ)
    → pos 0 ≤ℤ granted -ℤ allocated
    → pos 0 ≤ℤ x
    → ((t ≡ true) → not (is_revoke kind && not (leb_ℤ x (granted -ℤ allocated))) ≡ true)
    → pos 0 ≤ℤ granted +ℤ (if t then signed_amount kind x else pos 0) -ℤ allocated
budget_covers true grant granted allocated x p q h = omega int_laws
budget_covers true revoke granted allocated x p q h =
    let covered =
      leb_ℤ→le x (granted -ℤ allocated) (not_not (leb_ℤ x (granted -ℤ allocated)) (h refl)) in
    omega int_laws
  where
    not_not : (b : Bool) → not (not b) ≡ true → b ≡ true
    not_not true e = refl
    not_not false e = e
budget_covers false kind granted allocated x p q h = omega int_laws

-- A grant, and a revocation of what is left, keeps every balance and every fee at zero or above.
pub add_budget_entry-IsSolvent :
    (s : PlatformSetting) (reviewer_id : ℕ) (r : BudgetEntryRequest) (by : AuthenticatedUser)
    (st : Studio) {u : Unit {0}} {after : Studio}
    → IsSolvent st
    → pos 0 ≤ℤ r.amount_tokens
    → add_budget_entry s reviewer_id r by st ≡ ok (u, after)
    → IsSolvent after
unfolding add_budget_entry balance
add_budget_entry-IsSolvent s reviewer_id r by st i p h =
    let (a, h₁) = bind-require-eq-ok (not (is_revoke r.entry_type && is_blank r.reason)) _ st _ h in
    let (b, h₂) = bind-require-eq-ok (is_reviewer (find_row reviewer_id st.users)) _ st _ h₁ in
    let (c, h₃) =
      bind-require-eq-ok
        (not (
          is_revoke r.entry_type
          && not (
              leb_ℤ r.amount_tokens
                (granted_to reviewer_id st.budgets -ℤ allocated_by reviewer_id st.fees))))
        _ st _ h₂ in
    let row : ReviewerTokenEntry = record {
      reviewer_id = reviewer_id;
      entry_type = r.entry_type;
      amount_tokens = signed_amount r.entry_type r.amount_tokens;
      rate_vnd = s.token_rate_vnd;
      reason = reason_of r.reason;
      created_by_id = some by.id;
    } in
    rw (← ok_snd h₃) (record {
      balances = λ v. rw (granted_to-cons v row st.budgets) (
          budget_covers (reviewer_id == v) r.entry_type (granted_to v st.budgets)
            (allocated_by v st.fees) r.amount_tokens (i.balances v) p
            (λ t.
              subst
                (λ w.
                  not (
                    is_revoke r.entry_type
                    && not
                        (leb_ℤ r.amount_tokens (granted_to w st.budgets -ℤ allocated_by w st.fees)))
                  ≡ true)
                ((==_iff reviewer_id v).0 t) c));
      totals = i.totals;
    })

-- One request that goes through.
pub data Step (s : PlatformSetting) : Studio → Studio → Type 0 where
  fee :
      (movie : ℕ) (r : FeeEntryRequest) (user : AuthenticatedUser) (st after : Studio)
      (u : Unit {0})
      → add_fee_entry s movie r user st ≡ ok (u, after)
      → Step s st after
  budget :
      (reviewer_id : ℕ) (r : BudgetEntryRequest) (by : AuthenticatedUser) (st after : Studio)
      (u : Unit {0})
      → pos 1 ≤ℤ r.amount_tokens
      → add_budget_entry s reviewer_id r by st ≡ ok (u, after)
      → Step s st after

pub data Reach (s : PlatformSetting) : Studio → Studio → Type 0 where
  here : (st : Studio) → Reach s st st
  after_step : (st mid after : Studio) → Reach s st mid → Step s mid after → Reach s st after

-- Starting from balances and fees at zero or above, however many fee entries and budget entries of
-- at least one Token follow each other, in any order and by any users, no Reviewer has allocated
-- more Token than was granted, and no movie's fee is below zero.
pub Reach-IsSolvent :
    (s : PlatformSetting) (st after : Studio) → Reach s st after → IsSolvent st → IsSolvent after
Reach-IsSolvent s st after (here z) i = i
Reach-IsSolvent s st after (after_step a mid b past (fee movie r user c d u h)) i =
    add_fee_entry-IsSolvent s movie r user mid (Reach-IsSolvent s st mid past i) h
Reach-IsSolvent s st after (after_step a mid b past (budget v r by c d u p h)) i =
    add_budget_entry-IsSolvent s v r by mid (Reach-IsSolvent s st mid past i) (omega arith) h
