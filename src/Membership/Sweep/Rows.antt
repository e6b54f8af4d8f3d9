-- ===== src/Membership/Sweep/Rows.antt =====
-- The rows that a renewal, an end and the queries of the sweep work on.
use ai_cinema_be.Membership.Keeps.{rows_of}
use ai_cinema_be.Common.{
  ==_iff, map, if◌then◌else◌, ℕ, zero, suc, Bool, true, false, Option, none, some, List, [], ◌∷◌,
  ◌≡◌, ◌≢◌, refl, sym, ◌∙◌, subst, Bool-cases, inl, inr, ◌==◌,
}
use ai_cinema_be.Common.Lists.{All, keep, take}
use ai_cinema_be.Common.Table.{some_eq}
use ai_cinema_be.Access.Rows.{Subscription, subscription_has_id, plan_has_id}
use ai_cinema_be.Membership.Ending.{if_unpaid, is_past_due, is_later}
use ai_cinema_be.Membership.Renewal.{if_renewing, is_active}

pub guarded :
    {A : Type 0} (b : Bool) (o : Option A) (p : A)
    → (if b then o else none) ≡ some p
    → (b ≡ true) × (o ≡ some p)
guarded true o p h = (refl, h)
guarded false o p h = absurd (cc)

guarded_not :
    (b : Bool) (o : Option Subscription) (p : Subscription)
    → (if b then none else o) ≡ some p
    → (b ≡ false) × (o ≡ some p)
guarded_not true o p h = absurd (cc)
guarded_not false o p h = (refl, h)

-- The row that a renewal or an end works on.
pub renewing_row :
    (o : Option Subscription) (p : Subscription)
    → if_renewing o ≡ some p
    → (o ≡ some p) × (p.auto_renew ≡ true)
renewing_row none p h = absurd (cc)
renewing_row (some q) p h =
    let (_, h₁) = guarded (is_active q.status) (if q.auto_renew then some q else none) p h in
    let (on, e) = guarded q.auto_renew (some q) p h₁ in
    (e, subst (λ x. x.auto_renew ≡ true) (some_eq e) on)

pub unpaid_row :
    (now : ℕ) (o : Option Subscription) (p : Subscription)
    → if_unpaid now o ≡ some p
    → (o ≡ some p) × (is_past_due p.status ≡ true)
unpaid_row now none p h = absurd (cc)
unpaid_row now (some q) p h =
    let late = is_later q.next_renewal_at now in
    let (due, h₁) = guarded (is_past_due q.status) (if late then none else some q) p h in
    let (_, e) = guarded_not late (some q) p h₁ in
    (e, subst (λ x. is_past_due x.status ≡ true) (some_eq e) due)

-- What is left of the rows of one id once those that fail a test are dropped.
pub not_kept :
    (i : ℕ) (test : Subscription → Bool) (l : List Subscription)
    → All (λ (x : Subscription). test x ≡ false) (rows_of i l)
    → All (λ (x : Subscription). x.id ≢ i) (keep test l)
not_kept i test [] h = tt
not_kept i test (x ∷ l) h = elim (Bool-cases (x.id == i)) [
  | inl own ↦ let (fails, rest) = rows_own x own h in rw fails (not_kept i test l rest)
  | inr other ↦
      let rest = rows_other x other h in
      elim (Bool-cases (test x)) [
        | inl t ↦ rw t ((λ e. cc (sym other ∙ (==_iff x.id i).1 e)), not_kept i test l rest)
        | inr t ↦ rw t (not_kept i test l rest)
      ]
]
  where
    rows_own :
        (y : Subscription)
        → (y.id == i) ≡ true
        → All (λ (z : Subscription). test z ≡ false) (rows_of i (y ∷ l))
        → (test y ≡ false) × All (λ (z : Subscription). test z ≡ false) (rows_of i l)
    rows_own y e a = rw e at a

    rows_other :
        (y : Subscription)
        → (y.id == i) ≡ false
        → All (λ (z : Subscription). test z ≡ false) (rows_of i (y ∷ l))
        → All (λ (z : Subscription). test z ≡ false) (rows_of i l)
    rows_other y e a = rw e at a

pub taken :
    (i n : ℕ) (l : List Subscription)
    → All (λ (x : Subscription). x.id ≢ i) l
    → All (λ j. j ≢ i) (map (λ (x : Subscription). x.id) (take n l))
taken i zero l h = tt
taken i (suc n) [] h = tt
taken i (suc n) (x ∷ l) (h, hs) = (h, taken i n l hs)
