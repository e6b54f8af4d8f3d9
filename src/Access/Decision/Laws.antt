-- ===== src/Access/Decision/Laws.antt =====
-- What opens an episode to a member.
use mathlib.Core.Option
use ai_cinema_be.Access.Rows.{
  on_ledger, has_running_plan, SeriesAccess, EpisodeAccess, holds_series, holds_episode,
  Subscription, Store, movie_has_id, episode_has_id,
}
use ai_cinema_be.Access.Decision.{
  AccessSourceName, cheapest_plan_price, refusal, or_refused, refused, decide_on, for_member,
  AccessDecision, Base, running_plan, granted, by_plan, right_of, by_right, latest,
}
use ai_cinema_be.Access.Episodes.{is_owned}
use ai_cinema_be.Common.{
  if◌then◌else◌, ◌∙◌, sym, ap, [], inr, inl, Bool-cases, String, some, ◌∷◌, ℕ, Option, refl, none,
  false, true, ◌≡◌, List, ◌||◌, Bool,
}
use ai_cinema_be.Common.Lists.{find, any}
use ai_cinema_be.Wallet.Rows.{Database}
use ai_cinema_be.Settings.{PlatformSetting}
use ai_cinema_be.Common.Table.{some_eq}
use ai_cinema_be.Common.Transaction.{ok}
use ai_cinema_be.Common.Action.{Action, done, commit, bind-eq-ok}
use ai_cinema_be.Common.Int.{pos, eqb_ℤ}
use ai_cinema_be.Wallet.Members.{affordability}

module _ {ℓ} {A : Type ℓ} where
  any-find-some : (p : A → Bool) (xs : List A) → any p xs ≡ true → (x : A) × (find p xs ≡ some x)
  any-find-some p [] h = cc
  any-find-some p (x ∷ xs) h = elim (Bool-cases (p x)) [
    | inl t ↦ (x, rw t refl)
    | inr t ↦ let (y, e) = any-find-some p xs (rw t at h) in (y, rw t e)
  ]

  find-any-false : (p : A → Bool) (xs : List A) → any p xs ≡ false → find p xs ≡ none
  find-any-false p [] h = refl
  find-any-false p (x ∷ xs) h = elim (Bool-cases (p x)) [
    | inl t ↦ cc (rw t at h)
    | inr t ↦ rw t (find-any-false p xs (rw t at h))
  ]

latest-any-false :
    (p : Subscription → Bool) (xs : List Subscription) → any p xs ≡ false → latest p xs ≡ none
unfolding latest
latest-any-false p [] h = refl
latest-any-false p (x ∷ xs) h = elim (Bool-cases (p x)) [
  | inl t ↦ cc (rw t at h)
  | inr t ↦ rw t (latest-any-false p xs (rw t at h))
]

or-false : (a b : Bool) → (a || b) ≡ false → (a ≡ false) × (b ≡ false)
or-false true b h = cc
or-false false b h = (refl, h)

pub by_right-granted :
    (base : Base) (code : Option String) (e : Option EpisodeAccess) (x : Option SeriesAccess)
    (d : AccessDecision)
    → by_right base code e x ≡ some d
    → d.access_granted ≡ true
unfolding by_right by_plan granted
by_right-granted base (some code) e x d h =
    ap (λ (z : AccessDecision). z.access_granted) (sym (some_eq h))
by_right-granted base none (some a) x d h =
    ap (λ (z : AccessDecision). z.access_granted) (sym (some_eq h))
by_right-granted base none none (some a) d h =
    ap (λ (z : AccessDecision). z.access_granted) (sym (some_eq h))
by_right-granted base none none none d h = cc

-- A member who owns nothing that opens the episode has no right to it.
pub right_of-not_owned :
    (base : Base) (user : ℕ) (st : Store)
    → is_owned base.episode_id base.movie_id user st ≡ false
    → right_of base user st ≡ none
unfolding is_owned right_of running_plan by_right Option.bind
right_of-not_owned base user st h =
    let (e, rest) = or-false _ _ h in
    let (x, p) = or-false _ _ rest in
    rw
      (
        find-any-false (holds_episode user base.episode_id) st.episode_accesses e,
        find-any-false (holds_series user base.movie_id) st.series_accesses x,
        latest-any-false (has_running_plan user) st.subscriptions p,
      )
      refl

some_right :
    (base : Base) (code : Option String) (a : EpisodeAccess) (x : Option SeriesAccess)
    → (d : AccessDecision) × (by_right base code (some a) x ≡ some d)
unfolding by_right
some_right base none a x = (_, refl)
some_right base (some code) a x = (_, refl)

-- A right that was bought for the episode opens it.
pub right_of-bought :
    (base : Base) (user : ℕ) (st : Store)
    → any (holds_episode user base.episode_id) st.episode_accesses ≡ true
    → (d : AccessDecision) × (right_of base user st ≡ some d) × (d.access_granted ≡ true)
unfolding right_of
right_of-bought base user st h =
    let (a, found) = any-find-some (holds_episode user base.episode_id) st.episode_accesses h in
    let (d, e) =
      some_right base (running_plan user st) a
        (find (holds_series user base.movie_id) st.series_accesses) in
    let same =
      ap
        (λ x.
          by_right base (running_plan user st) x
            (find (holds_series user base.movie_id) st.series_accesses))
        found
      ∙ e in
    (d, same, by_right-granted base _ _ _ d same)

done_ok : {A S : Type 0} {a b : A} {s t : S} → done a s ≡ (ok b, t) → a ≡ b
done_ok h = cc

free_tests :
    (starter free : Bool) (a b : AccessDecision) (rest : Action Store AccessDecision) (st : Store)
    {d : AccessDecision} {after : Store}
    → a.access_granted ≡ true
    → b.access_granted ≡ true
    → (rest st ≡ (ok d, after) → d.access_granted ≡ false)
    → (if starter then done a else if free then done b else rest) st ≡ (ok d, after)
    → d.access_granted ≡ (starter || free)
free_tests true free a b rest st p q r h =
    ap (λ (z : AccessDecision). z.access_granted) (sym (done_ok h)) ∙ p
free_tests false true a b rest st p q r h =
    ap (λ (z : AccessDecision). z.access_granted) (sym (done_ok h)) ∙ q
free_tests false false a b rest st p q r h = r h

first_of :
    (starter free : Bool) (a b : AccessDecision) (rest : Action Store AccessDecision) (st : Store)
    → a.access_granted ≡ true
    → b.access_granted ≡ true
    → (d : AccessDecision) × (rest st ≡ (ok d, st)) × (d.access_granted ≡ true)
    → (d : AccessDecision) × ((if starter then done a else if free then done b else rest) st
        ≡ (ok d, st))
      × (d.access_granted ≡ true)
first_of true free a b rest st p q r = (a, refl, p)
first_of false true a b rest st p q r = (b, refl, q)
first_of false false a b rest st p q r = r

module _ (db : Database) (s : PlatformSetting) (base : Base) (user now : ℕ) (st : Store) where
  for_member-right :
      (d : AccessDecision)
      → right_of base user st ≡ some d
      → for_member db s base user now st ≡ (ok d, st)
  unfolding for_member or_refused
  for_member-right d h =
      ap (λ x. or_refused db s x base user (cheapest_plan_price st.plans st.prices) now st) h

  refusal-refuses :
      {d : AccessDecision} {after : Store}
      → refused db s base user (cheapest_plan_price st.plans st.prices) now st ≡ (ok d, after)
      → d.access_granted ≡ false
  unfolding refused refusal
  refusal-refuses h =
      let (wallet, mid, afforded, last) =
        bind-eq-ok (commit (on_ledger (affordability db s user base.required.coin_price now)) st) _
          h in
      ap (λ (z : AccessDecision). z.access_granted) (sym (done_ok last))

  -- A member who holds no plan, no right to the episode and none to its series is let in exactly
  -- where the episode is free: a Free Starter episode, or one priced at zero.
  pub decide_on-not_owned :
      {d : AccessDecision} {after : Store}
      → is_owned base.episode_id base.movie_id user st ≡ false
      → decide_on db s base (some user) now st ≡ (ok d, after)
      → d.access_granted ≡ (base.required.is_free_starter || eqb_ℤ base.required.coin_price (pos 0))
  unfolding decide_on for_member or_refused granted
  decide_on-not_owned h made =
      free_tests base.required.is_free_starter (eqb_ℤ base.required.coin_price (pos 0))
        (granted base AccessSourceName.free_starter none) (granted base AccessSourceName.free none)
        (for_member db s base user now) st refl refl
        (λ last. refusal-refuses (
          sym (
            ap (λ x. or_refused db s x base user (cheapest_plan_price st.plans st.prices) now st)
              (right_of-not_owned base user st h))
          ∙ last))
        made

  pub for_member-bought :
      any (holds_episode user base.episode_id) st.episode_accesses ≡ true
      → (d : AccessDecision) × (for_member db s base user now st ≡ (ok d, st))
        × (d.access_granted ≡ true)
  for_member-bought h =
      let (d, right, opens) = right_of-bought base user st h in (d, for_member-right d right, opens)

-- Once the right to the episode is bought, whatever comes first of the checks opens it.
pub let_in :
    (db : Database) (s : PlatformSetting) (base : Base) (user now : ℕ) (st : Store)
    → any (holds_episode user base.episode_id) st.episode_accesses ≡ true
    → (d : AccessDecision) × (decide_on db s base (some user) now st ≡ (ok d, st))
      × (d.access_granted ≡ true)
unfolding decide_on granted
let_in db s base user now st h =
    let (d, e, opens) = for_member-bought db s base user now st h in
    first_of base.required.is_free_starter (eqb_ℤ base.required.coin_price (pos 0))
      (granted base AccessSourceName.free_starter none) (granted base AccessSourceName.free none)
      (for_member db s base user now) st refl refl (d, e, opens)
