-- ===== src/Reward/Laws.antt =====
-- What a check-in has met and left (daily-reward.service.ts).
use mathlib.Core.List.{Memᴰ}
use ai_cinema_be.Common.{
  some, not-true, ap, ltb, inr, subst, ◌∙◌, inl, refl, sym, Bool-cases, false, not, true, String,
  Option, ◌≡◌, ℕ,
}
use ai_cinema_be.Reward.{
  RewardRule, reward_credit, reward_of_streak_day, last_check_in, Reward, streak_on,
  next_streak_day, pay_reward, business_day, CheckInAnswer, on_wallets, Diary, checked_in,
}
use ai_cinema_be.Common.Action.{
  next-ok, next-requires-false, bind-requires-eq-ok, commit_ok, commit, bind-eq-ok as step-ok,
}
use ai_cinema_be.Reward.Streak.{IsStreakDay, next_streak_day-IsStreakDay}
use ai_cinema_be.Wallet.Spend.Holders.{credit-wallet_of_user}
use ai_cinema_be.Wallet.Members.Laws.{wallet_of_old, wallet_of_found}
use ai_cinema_be.Wallet.Members.{wallet_of_user, wallet_of}
use ai_cinema_be.Common.Errors.{already_checked_in_today, unprocessable}
use ai_cinema_be.Wallet.Rows.{CoinMovement, CoinWallet, Ledger, Database}
use ai_cinema_be.Common.Transaction.{on_part_ok, err, ok, Result}
use ai_cinema_be.Reward.CheckIn.{or_already, attempt, check_in}
use ai_cinema_be.Settings.{PlatformSetting}
use ai_cinema_be.Wallet.Spend.{credit}
use ai_cinema_be.Common.Int.{pos, ◌+ℤ◌, leb_ℤ}
use ai_cinema_be.Reward.Payment.{pay_reward-Pays, reward_found, ledger_of, with_ledger}

or_already_ok :
    (user today : ℕ) (r : Result CheckInAnswer × Diary) {a : CheckInAnswer} {after : Diary}
    → or_already user today r ≡ (ok a, after)
    → r ≡ (ok a, after)
or_already_ok user today (ok b, d) h = h
or_already_ok user today (err e, d) h = elim (Bool-cases (checked_in user today d)) [
  | inl t ↦ cc (rw t at h)
  | inr t ↦ cc (rw t at h)
]

-- What a check-in that is paid has met and left. It pays what a rule in force says of the day of the
-- streak, through the wallet of the member.
pub record CheckedIn (db : Database) (s : PlatformSetting) (user : ℕ) (key : Option String)
    (now : ℕ) (d : Diary) (a : CheckInAnswer) (after : Diary) : Type 0 where
  pub not_before : checked_in user (business_day now) d ≡ false
  pub from_now_on : checked_in user (business_day now) after ≡ true
  pub dated : a.check_in_date ≡ business_day now
  pub streak : IsStreakDay user (business_day now) d.check_ins a.streak_day
  pub rule : RewardRule
  pub listed : Memᴰ rule d.rules
  pub in_force : rule.is_active ≡ true
  pub for_day : rule.streak_day ≡ a.streak_day
  pub worth_something : leb_ℤ (rule.coins +ℤ rule.bonus_coins) (pos 0) ≡ false
  pub wallet : CoinWallet
  pub opened : Ledger
  pub own_wallet : wallet_of db s user d.ledger ≡ ok (wallet, opened)
  pub movement : CoinMovement
  pub credited :
      credit db s wallet.id
        (reward_credit db s
          (record { coins = rule.coins; bonus_coins = rule.bonus_coins; rule_id = some rule.id })
          key)
        (business_day now)
        opened
      ≡ ok (movement, after.ledger)
  pub granted : (a.coins_granted ≡ movement.main_coins) × (a.bonus_granted ≡ movement.bonus_coins)

module _ (db : Database) (s : PlatformSetting) (user : ℕ) (key : Option String) (now : ℕ)
    (d : Diary) where
  pub check_in-CheckedIn :
      {a : CheckInAnswer} {after : Diary}
      → check_in db s user key now d ≡ (ok a, after)
      → CheckedIn db s user key now d a after
  unfolding check_in attempt checked_in
  check_in-CheckedIn h =
      let today = business_day now in
      let (wallet, opened, opening, h₁) =
        step-ok (commit (on_wallets (wallet_of db s user)) d) _ h in
      let (l, walleted, same) =
        on_part_ok ledger_of with_ledger (wallet_of db s user) d
          (commit_ok (on_wallets (wallet_of db s user)) d opening) in
      let (fresh, h₂) = bind-requires-eq-ok (not (checked_in user today opened)) _ opened _ h₁ in
      let streak = streak_on today (last_check_in user opened.check_ins) in
      let day = next_streak_day streak in
      let reward = reward_of_streak_day day opened.rules in
      let (pays, h₃) =
        bind-requires-eq-ok (not (leb_ℤ (reward.coins +ℤ reward.bonus_coins) (pos 0))) _ opened _
          h₂ in
      let pay = pay_reward db s user wallet today day (ltb 0 streak) reward key in
      let paid =
        pay_reward-Pays db s user today key wallet day (ltb 0 streak) reward opened
          (commit_ok pay opened (or_already_ok user today _ h₃)) in
      let positive = not-true (leb_ℤ (reward.coins +ℤ reward.bonus_coins) (pos 0)) pays in
      let (rule, listed, active, of_day, e) = reward_found day opened.rules positive in
      record {
        not_before =
            sym (ap (checked_in user today) same) ∙ not-true (checked_in user today opened) fresh;
        from_now_on = paid.recorded;
        dated = paid.date;
        streak =
            subst (IsStreakDay user today d.check_ins)
              (sym (
                paid.day
                ∙ ap
                    (λ (x : Diary).
                      next_streak_day (streak_on today (last_check_in user x.check_ins)))
                    same))
              (next_streak_day-IsStreakDay user today d.check_ins);
        rule = rule;
        listed = subst (λ (x : Diary). Memᴰ rule x.rules) same listed;
        in_force = active;
        for_day = of_day ∙ sym paid.day;
        worth_something =
            subst (λ (x : Reward). leb_ℤ (x.coins +ℤ x.bonus_coins) (pos 0) ≡ false) e positive;
        wallet = wallet;
        opened = l;
        own_wallet = walleted;
        movement = paid.movement;
        credited =
            ap
              (λ (x : Diary × Reward).
                credit db s wallet.id (reward_credit db s x.1 key) today x.0.ledger)
              (λ i. (sym same i, sym e i))
            ∙ paid.credited;
        granted = paid.granted;
      }

already_in :
    (db : Database) (s : PlatformSetting) (user : ℕ) (key : Option String) (now : ℕ) (d : Diary)
    (wallet : CoinWallet)
    → wallet_of_user user d.ledger.wallets ≡ some wallet
    → checked_in user (business_day now) d ≡ true
    → check_in db s user key now d ≡ (err (unprocessable already_checked_in_today), d)
unfolding check_in
already_in db s user key now d wallet own there =
    next-ok (commit (on_wallets (wallet_of db s user)) d) _
      (opened_again (wallet_of_old db s user now d.ledger wallet own))
    ∙ next-requires-false (not (checked_in user (business_day now) d)) _ d _ (ap not there)
  where
    opened_again :
        {x : Result (CoinWallet × Ledger)}
        → x ≡ ok (wallet, d.ledger)
        → commit (on_wallets (λ (_ : Ledger). x)) d ≡ (ok wallet, d)
    opened_again e = rw e refl

-- However it is keyed, a second request on the business day of a check-in that was paid is refused as
-- already checked in, and changes nothing: nothing is paid a second time.
pub check_in_once :
    (db : Database) (s : PlatformSetting) (user : ℕ) (key again : Option String) (now later : ℕ)
    (d : Diary) {a : CheckInAnswer} {after : Diary}
    → check_in db s user key now d ≡ (ok a, after)
    → business_day later ≡ business_day now
    → check_in db s user again later after ≡ (err (unprocessable already_checked_in_today), after)
check_in_once db s user key again now later d {after = after} first day =
    let c = check_in-CheckedIn db s user key now d first in
    let (y, own) =
      credit-wallet_of_user db s c.wallet.id _ (business_day now) c.opened user c.wallet
        (wallet_of_found db s user now d.ledger c.own_wallet) c.credited in
    already_in db s user again later after y own
      (subst (λ t. checked_in user t after ≡ true) (sym day) c.from_now_on)
