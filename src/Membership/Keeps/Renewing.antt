-- ===== src/Membership/Keeps/Renewing.antt =====
-- A renewal leaves every other subscription as it is.
use ai_cinema_be.Common.{ℕ, true, false, Option, none, some, String, ◌≢◌, refl}
use ai_cinema_be.Common.Transaction.{Result, ok, err}
use ai_cinema_be.Common.Errors.{Error}
use ai_cinema_be.Settings.{PlatformSetting}
use ai_cinema_be.Wallet.Rows.{Database, CoinMovement}
use ai_cinema_be.Wallet.Members.{wallet_of}
use ai_cinema_be.Access.Rows.{
  Subscription, MembershipPlan, on_ledger, subscription_renewed, subscription_has_id, plan_has_id,
}
use ai_cinema_be.Membership.Renewal.{
  Charge, nothing_done, charge_of, mark_past_due, move_on, after_payment, charge_cycle, renew_on,
}
use ai_cinema_be.Membership.Keeps.{
  Keeps, Keeps-pure, Keeps-bind, Keeps-on_ledger, Keeps-event, Keeps-cycle, Keeps-update,
  Keeps-tried,
}

module _ (db : Database) (s : PlatformSetting) (text_of_number : ℕ → String) (i : ℕ) where
  Keeps-past_due :
      (p : Subscription) (c : Charge) (cause : Error) (clock : ℕ)
      → p.id ≢ i
      → Keeps i (mark_past_due db s text_of_number p c cause clock)
  unfolding mark_past_due
  Keeps-past_due p c cause clock n = Keeps-bind i _ _ (Keeps-cycle i db _) (λ cycle.
      Keeps-bind i _ _ (Keeps-update i p.id _ (λ q. refl) n)
        (λ q. Keeps-pure i (nothing_done (some c.cycle_number))))

  Keeps-move :
      (p : Subscription) (c : Charge) (movement : CoinMovement) (now : ℕ)
      → p.id ≢ i
      → Keeps i (move_on db s text_of_number p c movement now)
  unfolding move_on
  Keeps-move p c movement now n = Keeps-bind i _ _ (Keeps-cycle i db _) (λ cycle.
      Keeps-bind i _ _ (Keeps-update i p.id _ (λ q. refl) n) (λ q.
        Keeps-bind i _ _ (Keeps-event i subscription_renewed p.id none) (λ u.
          Keeps-pure i
            (record { renewed = true; expired = false; cycle_number = some c.cycle_number }))))

  Keeps-after :
      (p : Subscription) (c : Charge) (paid : Result CoinMovement) (now clock : ℕ)
      → p.id ≢ i
      → Keeps i (after_payment db s text_of_number p c paid now clock)
  unfolding after_payment
  Keeps-after p c (ok movement) now clock n = Keeps-move p c movement now n
  Keeps-after p c (err cause) now clock n = Keeps-past_due p c cause clock n

  Keeps-charge :
      (p : Subscription) (plan : MembershipPlan) (now clock : ℕ)
      → p.id ≢ i
      → Keeps i (charge_cycle db s text_of_number p plan now clock)
  unfolding charge_cycle
  Keeps-charge p plan now clock n st a after h =
      Keeps-bind i (on_ledger (wallet_of db s p.user_id)) _ (Keeps-on_ledger i _)
        (λ wallet.
          Keeps-bind i _ _ (Keeps-tried i _ (Keeps-on_ledger i _))
            (λ paid. Keeps-after p (charge_of p plan now st) paid now clock n))
        st a after h

  pub Keeps-renew_on :
      (p : Subscription) (plan : Option MembershipPlan) (now clock : ℕ)
      → p.id ≢ i
      → Keeps i (renew_on db s text_of_number p plan now clock)
  unfolding renew_on
  Keeps-renew_on p none now clock n = Keeps-pure i (nothing_done none)
  Keeps-renew_on p (some plan) now clock n = Keeps-charge p plan now clock n
