-- ===== src/Project/Tokens/Laws.antt =====
-- The rules that an entry of the fee ledger has met.
use mathlib.Core.Option
use ai_cinema_be.Project.Rows.{
  project_has_id, Project, correction, top_up, initial, TokenEntryType, ReviewerTokenEntry,
  TokenLedgerEntry, Studio,
}
use ai_cinema_be.Common.{
  refl, ◌∙◌, some, ap, arith, true, ◌||◌, ◌==◌, if◌then◌else◌, inr, not, sym, inl, Bool-cases, ◌⊎◌,
  ◌∷◌, List, ◌≡◌, ℕ,
}
use ai_cinema_be.Common.Transaction.{
  ok_fst, bind-or_throw-eq-ok, require-eq-ok, ok_snd, ok, bind-eq-ok, bind-require-eq-ok,
}
use ai_cinema_be.Project.Tokens.{
  add_fee_entry, may_change_fee, is_draft, FeeEntryRequest, balance, assert_change,
  assert_can_spend, allocated_by, assert_allowed, total_tokens, granted_to,
}
use ai_cinema_be.Common.Int.{int_laws, ltb_ℤ, leb_ℤ→le, eqb_ℤ, leb_ℤ, ◌+ℤ◌, ◌≤ℤ◌, pos, ℤ}
use ai_cinema_be.Project.Rules.{
  can_read, has_role, ProjectRole, AuthenticatedUser, project_of, assert_project_status,
}
use ai_cinema_be.Access.Rows.{MovieStatus}
use ai_cinema_be.Common.Words.{trim, is_blank}
use ai_cinema_be.Settings.{PlatformSetting}
use ai_cinema_be.Common.Table.{find_row}

-- Every Reviewer's balance and every movie's fee is at least zero.
pub record IsSolvent (st : Studio) : Type 0 where
  pub balances : (v : ℕ) → pos 0 ≤ℤ (balance v st).balance_tokens
  pub totals : (m : ℕ) → pos 0 ≤ℤ total_tokens m st.fees

pub total_tokens-cons :
    (m : ℕ) (e : TokenLedgerEntry) (fees : List TokenLedgerEntry)
    → total_tokens m (e ∷ fees)
      ≡ total_tokens m fees +ℤ (if e.movie_id == m then e.amount_tokens else pos 0)
unfolding total_tokens
total_tokens-cons m e fees = elim (Bool-cases (e.movie_id == m)) [
  | inl t ↦ rw t (omega int_laws)
  | inr t ↦ rw t (omega int_laws)
]

pub allocated_by-cons :
    (v : ℕ) (e : TokenLedgerEntry) (fees : List TokenLedgerEntry)
    → allocated_by v (e ∷ fees)
      ≡ allocated_by v fees +ℤ (if e.created_by_id == v then e.amount_tokens else pos 0)
unfolding allocated_by
allocated_by-cons v e fees = elim (Bool-cases (e.created_by_id == v)) [
  | inl t ↦ rw t (omega int_laws)
  | inr t ↦ rw t (omega int_laws)
]

pub granted_to-cons :
    (v : ℕ) (e : ReviewerTokenEntry) (budgets : List ReviewerTokenEntry)
    → granted_to v (e ∷ budgets)
      ≡ granted_to v budgets +ℤ (if e.reviewer_id == v then e.amount_tokens else pos 0)
unfolding granted_to
granted_to-cons v e budgets = elim (Bool-cases (e.reviewer_id == v)) [
  | inl t ↦ rw t (omega int_laws)
  | inr t ↦ rw t (omega int_laws)
]

positive : (x : ℤ) → ltb_ℤ (pos 0) x ≡ true → pos 1 ≤ℤ x
positive x h = ground arith

grows : (total x : ℤ) → pos 0 ≤ℤ total → pos 1 ≤ℤ x → pos 1 ≤ℤ total +ℤ x
grows total x p q = omega int_laws

stays_above : (x y : ℤ) → not (eqb_ℤ x (pos 0) || leb_ℤ y (pos 0)) ≡ true → pos 1 ≤ℤ y
stays_above x y h = ground arith

-- What the rules of `assertAllowed` are for.
assert_allowed_ok :
    (t : TokenEntryType) (r : FeeEntryRequest) (status : MovieStatus) (total : ℤ) (st : Studio)
    {u : Unit {0}} {after : Studio}
    → assert_allowed t r status total st ≡ ok (u, after)
    → pos 0 ≤ℤ total
    → (pos 1 ≤ℤ total +ℤ r.amount_tokens) × (after ≡ st)
unfolding assert_allowed assert_change assert_project_status
assert_allowed_ok initial r status total st h p =
    let (a, h₁) = bind-require-eq-ok (is_draft status) _ st _ h in
    let (b, h₂) = bind-require-eq-ok (eqb_ℤ total (pos 0)) _ st _ h₁ in
    let (c, same) = require-eq-ok (ltb_ℤ (pos 0) r.amount_tokens) _ st h₂ in
    (grows total r.amount_tokens p (positive r.amount_tokens c), same)
assert_allowed_ok top_up r status total st h p =
    let (a, h₁) = bind-require-eq-ok (may_change_fee status) _ st _ h in
    let (b, h₂) = bind-require-eq-ok (not (eqb_ℤ total (pos 0))) _ st _ h₁ in
    let (c, h₃) = bind-require-eq-ok (not (is_blank r.reason)) _ st _ h₂ in
    let (d, same) = require-eq-ok (ltb_ℤ (pos 0) r.amount_tokens) _ st h₃ in
    (grows total r.amount_tokens p (positive r.amount_tokens d), same)
assert_allowed_ok correction r status total st h p =
    let (a, h₁) = bind-require-eq-ok (may_change_fee status) _ st _ h in
    let (b, h₂) = bind-require-eq-ok (not (eqb_ℤ total (pos 0))) _ st _ h₁ in
    let (c, h₃) = bind-require-eq-ok (not (is_blank r.reason)) _ st _ h₂ in
    let (d, same) =
      require-eq-ok
        (not (eqb_ℤ r.amount_tokens (pos 0) || leb_ℤ (total +ℤ r.amount_tokens) (pos 0))) _ st h₃ in
    (stays_above r.amount_tokens (total +ℤ r.amount_tokens) d, same)

assert_can_spend_ok :
    (v : ℕ) (amount : ℤ) (st : Studio) {u : Unit {0}} {after : Studio}
    → assert_can_spend v amount st ≡ ok (u, after)
    → ((amount ≤ℤ pos 0) ⊎ (amount ≤ℤ (balance v st).balance_tokens)) × (after ≡ st)
unfolding assert_can_spend
assert_can_spend_ok v amount st h = elim (Bool-cases (leb_ℤ amount (pos 0))) [
  | inl t ↦ (inl (leb_ℤ→le amount (pos 0) t), sym (ok_snd (rw t at h)))
  | inr t ↦
      let (d, same) = require-eq-ok (leb_ℤ amount (balance v st).balance_tokens) _ st (rw t at h) in
      (inr (leb_ℤ→le amount (balance v st).balance_tokens d), same)
]

project_of_ok :
    (movie : ℕ) (user : AuthenticatedUser) (role : ProjectRole) (st : Studio) {p : Project}
    {after : Studio}
    → project_of movie user role st ≡ ok (p, after)
    → (find_row movie st.projects ≡ some p) × (has_role p user role ≡ true) × (after ≡ st)
unfolding project_of
project_of_ok movie user role st h =
    let (p, found, h₁) = bind-or_throw-eq-ok (find_row movie st.projects) _ st _ h in
    let (readable, h₂) = bind-require-eq-ok (can_read p user st) _ st _ h₁ in
    let (allowed, h₃) = bind-require-eq-ok (has_role p user role) _ st _ h₂ in
    let same : p ≡ _ = ok_fst h₃ in rw (← same) (found, allowed, sym (ok_snd h₃))

-- What an entry of the fee ledger has met.
pub record FeeAdded (s : PlatformSetting) (movie : ℕ) (r : FeeEntryRequest)
    (user : AuthenticatedUser) (st after : Studio) : Type 0 where
  pub row : TokenLedgerEntry
  pub row_movie : row.movie_id ≡ movie
  pub row_author : row.created_by_id ≡ user.id
  pub row_amount : row.amount_tokens ≡ r.amount_tokens
  pub fees_written : after.fees ≡ row ∷ st.fees
  pub budgets_kept : after.budgets ≡ st.budgets
  pub above : pos 1 ≤ℤ total_tokens movie st.fees +ℤ r.amount_tokens
  pub covered :
      (r.amount_tokens ≤ℤ pos 0) ⊎ (r.amount_tokens ≤ℤ (balance user.id st).balance_tokens)

pub add_fee_entry_ok :
    (s : PlatformSetting) (movie : ℕ) (r : FeeEntryRequest) (user : AuthenticatedUser) (st : Studio)
    {u : Unit {0}} {after : Studio}
    → IsSolvent st
    → add_fee_entry s movie r user st ≡ ok (u, after)
    → FeeAdded s movie r user st after
unfolding add_fee_entry
add_fee_entry_ok s movie r user st i h =
    let (p, st₁, found, h₁) = bind-eq-ok (project_of movie user ProjectRole.reviewer st) _ h in
    let (listed, owner, same₁) = project_of_ok movie user ProjectRole.reviewer st found in
    let total = total_tokens movie st.fees in
    let (a, st₂, allowed, h₂) =
      bind-eq-ok (assert_allowed r.entry_type r p.status total st) _ (rw same₁ at h₁) in
    let (above, same₂) =
      assert_allowed_ok r.entry_type r p.status total st allowed (i.totals movie) in
    let (b, st₃, can, h₃) =
      bind-eq-ok (assert_can_spend user.id r.amount_tokens st) _ (rw same₂ at h₂) in
    let (covered, same₃) = assert_can_spend_ok user.id r.amount_tokens st can in
    let last = sym (ok_snd h₃) in
    record {
      row = record {
        movie_id = movie;
        entry_type = r.entry_type;
        amount_tokens = r.amount_tokens;
        rate_vnd = s.token_rate_vnd;
        reason = Option.map trim r.reason;
        created_by_id = user.id;
      };
      row_movie = refl;
      row_author = refl;
      row_amount = refl;
      fees_written = ap (λ (x : Studio). x.fees) last ∙ rw same₃ refl;
      budgets_kept = ap (λ (x : Studio). x.budgets) last ∙ rw same₃ refl;
      above = above;
      covered = covered;
    }
