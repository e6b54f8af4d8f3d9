-- ===== src/Membership/Keeps.antt =====
-- Which subscription a transaction of the membership leaves as it is.
pub mod Renewing
use ai_cinema_be.Common.{
  ℕ, not, Option, ◌≡◌, ◌≢◌, refl, sym, ap, Bool-cases, inl, inr, ◌∙◌, List, [], ◌∷◌, Bool, true,
  false, ◌==◌, arith, if◌then◌else◌,
}
use ai_cinema_be.Common.Lists.{any, keep}
use ai_cinema_be.Common.Table.{find_row, find_row-update_ne, update_row}
use ai_cinema_be.Common.Transaction.{
  Tx, Result, ok, err, pure, ◌>>=◌, bind-eq-ok, ok_snd, on_part_ok, bind-require-eq-ok,
  bind-or_throw-eq-ok,
}
use ai_cinema_be.Common.Errors.{unique_violation, record_not_found}
use ai_cinema_be.Wallet.Rows.{Database, Ledger}
use ai_cinema_be.Access.Rows.{
  Store, Subscription, SubscriptionCycle, ContentEvent, on_ledger, subscription_has_id,
}
use ai_cinema_be.Membership.Plans.{record_event}
use ai_cinema_be.Membership.Joining.{collides, create_cycle, update_subscription}
use ai_cinema_be.Membership.Renewal.{tried, is_refused}

-- All rows of one id.
abbrev pub rows_of : ℕ → List Subscription → List Subscription
rows_of i = keep (λ (x : Subscription). x.id == i)

rows_of-update_ne :
    (j i : ℕ) (f : Subscription → Subscription) (l : List Subscription)
    → ((p : Subscription) → (f p).id ≡ p.id)
    → j ≢ i
    → rows_of i (update_row j f l) ≡ rows_of i l
rows_of-update_ne j i f [] same n = refl
rows_of-update_ne j i f (x ∷ l) same n = elim (Bool-cases (x.id == j)) [
  | inl here ↦
      let old : (x.id == i) ≡ false = ground arith in
      let new : ((f x).id == i) ≡ false = ground (arith, same x) in rw here (rw (old, new) refl)
  | inr past ↦ elim (Bool-cases (x.id == i)) [
    | inl t ↦ rw (past, t) (ap (λ r. x ∷ r) (rows_of-update_ne j i f l same n))
    | inr t ↦ rw (past, t) (rows_of-update_ne j i f l same n)
  ]
]

module _ (i : ℕ) where
  -- The rows of the id `i` are after the transaction as they were before it.
  abbrev pub Keeps : {A : Type 0} → Tx Store A → Type 0
  Keeps {A = A} m =
      (st : Store) (a : A) (after : Store)
      → m st ≡ ok (a, after)
      → rows_of i after.subscriptions ≡ rows_of i st.subscriptions

  pub Keeps-same :
      {A : Type 0} (p q : A × Store)
      → ok p ≡ ok q
      → rows_of i q.1.subscriptions ≡ rows_of i p.1.subscriptions
  Keeps-same p q h = ap (λ (x : Store). rows_of i x.subscriptions) (sym (ok_snd h))

  pub Keeps-pure : {A : Type 0} (b : A) → Keeps (pure b)
  Keeps-pure b st a after h = Keeps-same (b, st) (a, after) h

  pub Keeps-bind :
      {A B : Type 0} (m : Tx Store A) (f : A → Tx Store B)
      → Keeps m
      → ((a : A) → Keeps (f a))
      → Keeps (m >>= f)
  Keeps-bind m f p q st b after h =
      let (a, mid, first, second) = bind-eq-ok (m st) f h in
      q a mid b after second ∙ p st a mid first

  pub Keeps-on_ledger : {A : Type 0} (m : Tx Ledger A) → Keeps (on_ledger m)
  Keeps-on_ledger m st a after h =
      let (l, ran, same) =
        on_part_ok (λ (x : Store). x.ledger) (λ l (x : Store). record x { ledger = l }) m st h in
      ap (λ (x : Store). rows_of i x.subscriptions) same

  pub Keeps-event :
      (action : ContentEvent) (entity : ℕ) (actor : Option ℕ)
      → Keeps (record_event action entity actor)
  Keeps-event action entity actor st a after h =
      ap (λ (x : Store). rows_of i x.subscriptions) (sym (ok_snd h))

  pub Keeps-cycle : (db : Database) (c : SubscriptionCycle) → Keeps (create_cycle db c)
  unfolding create_cycle
  Keeps-cycle db c st a after h =
      let (free, h₁) =
        bind-require-eq-ok (not (any (collides c) st.cycles)) unique_violation st _ h in
      ap (λ (x : Store). rows_of i x.subscriptions) (sym (ok_snd h₁))

  -- An update of another row.
  pub Keeps-update :
      (j : ℕ) (f : Subscription → Subscription)
      → ((p : Subscription) → (f p).id ≡ p.id)
      → j ≢ i
      → Keeps (update_subscription j f)
  unfolding update_subscription
  Keeps-update j f same n st a after h =
      let (p, found, h₁) =
        bind-or_throw-eq-ok (find_row j st.subscriptions) record_not_found st _ h in
      ap (λ (x : Store). rows_of i x.subscriptions) (sym (ok_snd h₁))
      ∙ rows_of-update_ne j i f st.subscriptions same n

  pub Keeps-tried : {A : Type 0} (m : Tx Store A) → Keeps m → Keeps (λ st. tried (m st) st)
  unfolding tried
  Keeps-tried {A = A} m p st a after h = settled (m st) refl h
    where
      settled :
          (r : Result (A × Store))
          → m st ≡ r
          → tried r st ≡ ok (a, after)
          → rows_of i after.subscriptions ≡ rows_of i st.subscriptions
      settled (ok (b, x)) e g = Keeps-same (ok b, x) (a, after) g ∙ p st b x e
      settled (err x) e g = elim (Bool-cases (is_refused x)) [
        | inl t ↦ absurd (cc (rw t at g))
        | inr t ↦ Keeps-same (err x, st) (a, after) (rw t at g)
      ]
