-- ===== src/Identity/AccessControl/Guard.antt =====
-- The guard and an account that was deactivated.
use ai_cinema_be.Project.Rows.{User, user_has_id}
use ai_cinema_be.Common.{
  Bool, Option, refl, arith, [], ==_iff, ltb, inr, ◌∙◌, subst, inl, ap, Option-cases, Bool-cases,
  false, ◌∷◌, some, String, ◌==◌, ◌≤◌, ◌+◌, ◌≡◌, List, ℕ,
}
use ai_cinema_be.Identity.AccessControl.{
  AccountState, without, cached_or_reload, account_ttl_ms, reload_account, account_state,
  can_activate, check_account, Control, CachedAccount,
}
use ai_cinema_be.Common.Lists.{find, All}
use ai_cinema_be.Common.Table.{some_eq, find_row}
use ai_cinema_be.Common.Transaction.{Result, err, ok}
use ai_cinema_be.Common.Errors.{account_deactivated, unauthorized}

abbrev pub IsStale : ℕ → ℕ → CachedAccount → Type 0
IsStale user now a = a.user_id ≡ user → a.expires_at ≤ now

stale_find :
    (user now : ℕ) (accounts : List CachedAccount) (a : CachedAccount)
    → All (IsStale user now) accounts
    → find (λ (x : CachedAccount). x.user_id == user) accounts ≡ some a
    → a.expires_at ≤ now
stale_find user now [] a h e = cc
stale_find user now (x ∷ xs) a (p, h) e = elim (Bool-cases (x.user_id == user)) [
  | inl t ↦
      subst (λ (z : CachedAccount). z.expires_at ≤ now) (some_eq (rw t at e))
        (p ((==_iff x.user_id user).0 t))
  | inr t ↦ stale_find user now xs a h (rw t at e)
]

module _ (user now : ℕ) (c : Control) (u : User) where
  abbrev loaded : Control
  loaded = record c {
    accounts =
        record {
          user_id = user;
          role = u.role;
          is_active = u.is_active;
          expires_at = now + account_ttl_ms;
        }
        ∷ without user c.accounts;
  }

  reload_found :
      find_row user c.users ≡ some u
      → reload_account user now (find_row user c.users) c
        ≡ ok (some (record { role = u.role; is_active = u.is_active }), loaded)
  unfolding reload_account
  reload_found e = ap (λ o. reload_account user now o c) e

  -- Once every cached answer on an account has run out, the account is read from the database.
  pub account_state-stale :
      find_row user c.users ≡ some u
      → All (IsStale user now) c.accounts
      → account_state user now c
        ≡ ok (some (record { role = u.role; is_active = u.is_active }), loaded)
  unfolding account_state cached_or_reload
  account_state-stale e h =
      elim (Option-cases (find (λ (x : CachedAccount). x.user_id == user) c.accounts)) [
        | inl none_cached ↦ ap (λ o. cached_or_reload user now o c) none_cached ∙ reload_found e
        | inr (a, cached) ↦
            let late = stale_find user now c.accounts a h cached in
            let over : ltb now a.expires_at ≡ false = ground arith in
            ap (λ o. cached_or_reload user now o c) cached ∙ rw over (reload_found e)
      ]

  check_deactivated :
      (required : List String) (a : AccountState) (st : Control)
      → a.is_active ≡ false
      → check_account required (some a) st ≡ err (unauthorized account_deactivated)
  unfolding check_account
  check_deactivated [] a st off = rw off refl
  check_deactivated (k ∷ ks) a st off = rw off refl

  -- A deactivated account is refused at every endpoint that is not public, at the latest when the
  -- answers that were cached on it have run out.
  pub can_activate-deactivated :
      (required : List String)
      → find_row user c.users ≡ some u
      → u.is_active ≡ false
      → All (IsStale user now) c.accounts
      → can_activate false (some user) required now c ≡ err (unauthorized account_deactivated)
  unfolding can_activate
  can_activate-deactivated required e off h =
      ap
        (λ (x : Result (Option AccountState × Control)). elim x as (λ _. Result (Bool × Control)) [
          | ok p ↦ check_account required p.0 p.1
          | err z ↦ err z
        ])
        (account_state-stale e h)
      ∙ check_deactivated required (record { role = u.role; is_active = u.is_active }) loaded off
