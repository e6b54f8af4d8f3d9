-- ===== src/Reward/Streak.antt =====
-- The streak of daily-reward.service.ts (`streakOn`, `nextStreakDay`), told from the check-ins
-- themselves.
use mathlib.Core.List.{Memᴰ}
use ai_cinema_be.Common.{
  ℕ, ◌+◌, ◌*◌, ◌/◌, ◌%◌, ◌≤◌, ◌<◌, ◌≡◌, ◌≢◌, arith, List, [], ◌∷◌, Option, none, some, refl, inl,
  inr, Bool-cases, ◌==◌, ==_iff, sym, ◌∙◌, ltb, false,
}
use ai_cinema_be.Common.Lists.{All, All-map}
use ai_cinema_be.Reward.{
  DailyCheckIn, last_check_in, later_one, streak_on, next_streak_day, is_yesterday,
}

-- The latest check-in of a member.
pub record IsLast (user : ℕ) (cs : List DailyCheckIn) (c : DailyCheckIn) : Type 0 where
  pub listed : Memᴰ c cs
  pub of_user : c.user_id ≡ user
  pub latest : All (λ (x : DailyCheckIn). x.user_id ≡ user → x.check_in_date ≤ c.check_in_date) cs

-- The day of the streak of a check-in on `today`. It is the first one for a member who has not
-- checked in before, or whose latest check-in is not of the day before; otherwise it is the day that
-- follows the latest one's, in laps of seven days: 2 follows 1, 7 follows 6, and 1 follows 7.
pub data IsStreakDay (user today : ℕ) (cs : List DailyCheckIn) : ℕ → Type 0 where
  newcomer : All (λ (x : DailyCheckIn). x.user_id ≢ user) cs → IsStreakDay user today cs 1
  after_gap :
      (c : DailyCheckIn)
      → IsLast user cs c
      → c.check_in_date + 86_400_000 ≢ today
      → IsStreakDay user today cs 1
  day_after :
      (c : DailyCheckIn) (laps n : ℕ)
      → IsLast user cs c
      → c.check_in_date + 86_400_000 ≡ today
      → c.streak_day ≡ 7 * laps + n
      → n < 7
      → IsStreakDay user today cs (n + 1)

-- What `last_check_in` finds.
IsLastOf : ℕ → List DailyCheckIn → Option DailyCheckIn → Type 0
IsLastOf user cs none = All (λ (x : DailyCheckIn). x.user_id ≢ user) cs
IsLastOf user cs (some c) = IsLast user cs c

not_later : (a b n : ℕ) → ltb b a ≡ false → n ≤ a → n ≤ b
not_later a b n t h = ground arith

module _ (user : ℕ) (x : DailyCheckIn) (xs : List DailyCheckIn) where
  last_here :
      x.user_id ≡ user
      → (o : Option DailyCheckIn) → IsLastOf user xs o
      → IsLastOf user (x ∷ xs) (later_one x o)
  unfolding IsLastOf
  last_here own none h = record {
    listed = Memᴰ.head refl;
    of_user = own;
    latest = ((λ _. omega arith), All-map _ _ xs (λ y n e. absurd (n e)) h);
  }
  last_here own (some y) h = elim (Bool-cases (ltb x.check_in_date y.check_in_date)) [
    | inl t ↦ rw t (record {
      listed = Memᴰ.tail h.listed;
      of_user = h.of_user;
      latest = ((λ _. ground arith), h.latest);
    })
    | inr t ↦ rw t (record {
      listed = Memᴰ.head refl;
      of_user = own;
      latest = (
        (λ _. omega arith),
        All-map _ _ xs (λ z le e. not_later y.check_in_date x.check_in_date _ t (le e)) h.latest,
      );
    })
  ]

  last_past :
      x.user_id ≢ user → (o : Option DailyCheckIn) → IsLastOf user xs o → IsLastOf user (x ∷ xs) o
  unfolding IsLastOf
  last_past other none h = (other, h)
  last_past other (some y) h = record {
    listed = Memᴰ.tail h.listed;
    of_user = h.of_user;
    latest = ((λ e. absurd (other e)), h.latest);
  }

last_check_in-IsLastOf :
    (user : ℕ) (cs : List DailyCheckIn) → IsLastOf user cs (last_check_in user cs)
unfolding last_check_in
last_check_in-IsLastOf user [] = unfold IsLastOf in tt
last_check_in-IsLastOf user (x ∷ xs) = elim (Bool-cases (x.user_id == user)) [
  | inl own ↦ rw own (
      last_here user x xs ((==_iff x.user_id user).0 own) (last_check_in user xs)
        (last_check_in-IsLastOf user xs))
  | inr other ↦ rw other (
      last_past user x xs (λ e. cc (sym other ∙ (==_iff x.user_id user).1 e))
        (last_check_in user xs) (last_check_in-IsLastOf user xs))
]

streak-of_last :
    (user today : ℕ) (cs : List DailyCheckIn) (o : Option DailyCheckIn)
    → IsLastOf user cs o
    → IsStreakDay user today cs (next_streak_day (streak_on today o))
unfolding streak_on next_streak_day IsLastOf
streak-of_last user today cs none h = newcomer h
streak-of_last user today cs (some c) h = elim (Bool-cases (is_yesterday c.check_in_date today)) [
  | inl t ↦ rw t (
      day_after c (c.streak_day / 7) (c.streak_day % 7) h (ground arith) (omega arith)
        (omega arith))
  | inr t ↦ rw t (after_gap c h (ground arith))
]

pub next_streak_day-IsStreakDay :
    (user today : ℕ) (cs : List DailyCheckIn)
    → IsStreakDay user today cs (next_streak_day (streak_on today (last_check_in user cs)))
next_streak_day-IsStreakDay user today cs =
    streak-of_last user today cs (last_check_in user cs) (last_check_in-IsLastOf user cs)
