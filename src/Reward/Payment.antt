-- ===== src/Reward/Payment.antt =====
-- The transaction of `checkIn`, and the rule that it pays (daily-reward.service.ts).
use mathlib.Core.List.{Memᴰ}
use ai_cinema_be.Common.{
  ◌&&◌, Option-cases, some, [], ==_iff, ◌==◌, List, ap, inr, subst, ◌∙◌, Bool, inl, refl, sym,
  Bool-cases, false, not, true, String, ◌∷◌, Option, ◌≡◌, ℕ,
}
use ai_cinema_be.Common.Table.{some_eq}
use ai_cinema_be.Common.Lists.{find, any}
use ai_cinema_be.Reward.{
  reward_from, RewardRule, reward_credit, reward_of_streak_day, Reward, same_entry, pay_reward,
  CheckInAnswer, on_wallets, Diary, DailyCheckIn, checked_in, create_check_in,
}
use ai_cinema_be.Wallet.Rows.{CoinMovement, CoinWallet, Ledger, Database}
use ai_cinema_be.Common.Transaction.{on_part_ok, ok_fst, ok_snd, ok, bind-eq-ok, bind-require-eq-ok}
use ai_cinema_be.Access.Episodes.Twice.{==-refl}
use ai_cinema_be.Settings.{PlatformSetting}
use ai_cinema_be.Wallet.Spend.{credit}
use ai_cinema_be.Common.Int.{pos, ◌+ℤ◌, leb_ℤ}

-- A rule that was found is one of the rules, is in force and is of the day.
found_rule :
    (day : ℕ) (rules : List RewardRule) (r : RewardRule)
    → find (λ (x : RewardRule). x.is_active && x.streak_day == day) rules ≡ some r
    → Memᴰ r rules × (r.is_active ≡ true) × (r.streak_day ≡ day)
found_rule day [] r h = cc
found_rule day (x ∷ xs) r h = elim (Bool-cases (x.is_active && x.streak_day == day)) [
  | inl t ↦
      let (on, here) = both x.is_active _ t in
      let e : x ≡ r = some_eq (rw t at h) in
      (
        Memᴰ.head (sym e),
        ap (λ (y : RewardRule). y.is_active) (sym e) ∙ on,
        ap (λ (y : RewardRule). y.streak_day) (sym e) ∙ (==_iff x.streak_day day).0 here,
      )
  | inr t ↦ let (m, on, of_day) = found_rule day xs r (rw t at h) in (Memᴰ.tail m, on, of_day)
]
  where
    both : (a b : Bool) → (a && b) ≡ true → (a ≡ true) × (b ≡ true)
    both true b e = (refl, e)
    both false b e = cc

pub reward_found :
    (day : ℕ) (rules : List RewardRule)
    → leb_ℤ
        ((reward_of_streak_day day rules).coins +ℤ (reward_of_streak_day day rules).bonus_coins)
        (pos 0)
      ≡ false
    → (r : RewardRule) × Memᴰ r rules
      × (r.is_active ≡ true)
      × (r.streak_day ≡ day)
      × (reward_of_streak_day day rules ≡ reward_from (some r))
unfolding reward_of_streak_day ◌+ℤ◌
reward_found day rules h =
    elim (Option-cases (find (λ (x : RewardRule). x.is_active && x.streak_day == day) rules)) [
      | inl e ↦ absurd (
          cc (
            ap (λ o. leb_ℤ ((reward_from o).coins +ℤ (reward_from o).bonus_coins) (pos 0)) (sym e)
            ∙ h))
      | inr (r, e) ↦
          let (m, on, of_day) = found_rule day rules r e in (r, m, on, of_day, ap reward_from e)
    ]

create_check_in_ok :
    (db : Database) (s : PlatformSetting) (row : DailyCheckIn) (d : Diary) {c : DailyCheckIn}
    {after : Diary}
    → create_check_in db s row d ≡ ok (c, after)
    → (c ≡ row) × (after ≡ record d { check_ins = row ∷ d.check_ins })
unfolding create_check_in
create_check_in_ok db s row d h =
    let (a, h₁) = bind-require-eq-ok (not (checked_in row.user_id row.check_in_date d)) _ d _ h in
    let (b, h₂) =
      bind-require-eq-ok
        (not (
          any (λ (c : DailyCheckIn). same_entry c.coin_transaction_id row.coin_transaction_id)
            d.check_ins))
        _ d _ h₁ in
    (sym (ok_fst h₂), sym (ok_snd h₂))

checked_in-cons :
    (user day : ℕ) (row : DailyCheckIn) (d : Diary)
    → row.user_id ≡ user
    → row.check_in_date ≡ day
    → checked_in user day (record d { check_ins = row ∷ d.check_ins }) ≡ true
unfolding checked_in
checked_in-cons user day row d u t = rw (u, t) (rw (==-refl user, ==-refl day) refl)

abbrev pub ledger_of : Diary → Ledger
ledger_of d = d.ledger

abbrev pub with_ledger : Ledger → Diary → Diary
with_ledger l d = record d { ledger = l }

-- What the transaction of a check-in writes and answers.
pub record Pays (db : Database) (s : PlatformSetting) (user today : ℕ) (key : Option String)
    (wallet : CoinWallet) (streak_day : ℕ) (reward : Reward) (d : Diary) (a : CheckInAnswer)
    (after : Diary) : Type 0 where
  pub movement : CoinMovement
  pub credited :
      credit db s wallet.id (reward_credit db s reward key) today d.ledger
      ≡ ok (movement, after.ledger)
  pub granted : (a.coins_granted ≡ movement.main_coins) × (a.bonus_granted ≡ movement.bonus_coins)
  pub recorded : checked_in user today after ≡ true
  pub day : a.streak_day ≡ streak_day
  pub date : a.check_in_date ≡ today

module _ (db : Database) (s : PlatformSetting) (user today : ℕ) (key : Option String) where
  pub pay_reward-Pays :
      (wallet : CoinWallet) (streak_day : ℕ) (continued : Bool) (reward : Reward) (d : Diary)
      {a : CheckInAnswer} {after : Diary}
      → pay_reward db s user wallet today streak_day continued reward key d ≡ ok (a, after)
      → Pays db s user today key wallet streak_day reward d a after
  unfolding pay_reward
  pay_reward-Pays wallet streak_day continued reward d h =
      let payment = credit db s wallet.id (reward_credit db s reward key) today in
      let (m, mid, paid, h₁) = bind-eq-ok (on_wallets payment d) _ h in
      let (l, credited, moved) = on_part_ok ledger_of with_ledger payment d paid in
      let (c, end, made, h₂) = bind-eq-ok (create_check_in db s _ mid) _ h₁ in
      let (row, written) = create_check_in_ok db s _ mid made in
      let same = ap ledger_of (sym (ok_snd h₂)) ∙ (ap ledger_of written ∙ ap ledger_of moved) in
      record {
        movement = m;
        credited = credited ∙ ap (λ x. ok (m, x)) (sym same);
        granted = (rw (← ok_fst h₂, row) refl, rw (← ok_fst h₂, row) refl);
        recorded =
            subst (λ x. checked_in user today x ≡ true) (sym written ∙ ok_snd h₂)
              (checked_in-cons user today _ mid refl refl);
        day = rw (← ok_fst h₂, row) refl;
        date = rw (← ok_fst h₂, row) refl;
      }
