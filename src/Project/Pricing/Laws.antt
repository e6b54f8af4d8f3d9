-- ===== src/Project/Pricing/Laws.antt =====
-- What `setPrice` leaves of an episode and its alerts.
use ai_cinema_be.Common.{
  ℕ, Bool, true, false, ◌&&◌, ◌==◌, ==_iff, Option, none, some, List, [], ◌∷◌, ◌≡◌, refl, sym, ap,
  ◌∙◌, map, Bool-cases, inl, inr, subst,
}
use ai_cinema_be.Common.Int.{ℤ}
use ai_cinema_be.Common.Lists.{keep}
use ai_cinema_be.Common.Table.{find_row, find_row-update_self, find_row-id}
use ai_cinema_be.Common.Transaction.{
  Result, ok, bind-require-eq-ok, bind-or_throw-eq-ok, ok_fst, ok_eq,
}
use ai_cinema_be.Common.Action.{bind-eq-ok, commit, commit_ok}
use ai_cinema_be.Common.Errors.{
  not_found, episode_not_found, crash, forbidden, wrong_role, record_not_found,
}
use ai_cinema_be.Settings.{PlatformSetting}
use ai_cinema_be.Wallet.Rows.{Database}
use ai_cinema_be.Project.Rows.{
  Project, project_has_id, Studio, ProjectEpisode, PriceAlert, project_episode_has_id,
}
use ai_cinema_be.Project.Rules.{
  can_read, has_role, AuthenticatedUser, ProjectRole, episode_of, assert_project_status,
}
use ai_cinema_be.Project.Pricing.{
  is_unresolved, is_in_range, is_priceable, settle_alert, raise_alert, price_episode,
}
use ai_cinema_be.Project.Pricing.Handlers.{PriceAnswer, set_episode_price}

-- An alert about the episode that nobody has settled.
abbrev pub is_pending_of : ℕ → PriceAlert → Bool
is_pending_of episode_id a = a.episode_id == episode_id && is_unresolved a.status

keep-settled :
    (episode_id now : ℕ) (l : List PriceAlert)
    → keep (is_pending_of episode_id) (map (settle_alert episode_id now) l) ≡ []
keep-settled episode_id now [] = refl
keep-settled episode_id now (a ∷ l) = elim (Bool-cases (a.episode_id == episode_id)) [
  | inr t ↦ rw t (rw t (keep-settled episode_id now l))
  | inl t ↦ elim (Bool-cases (is_unresolved a.status)) [
    | inl u ↦ rw (t, u) (rw t (keep-settled episode_id now l))
    | inr u ↦ rw (t, u) (rw (t, u) (keep-settled episode_id now l))
  ]
]

abbrev pub as_list : Option PriceAlert → List PriceAlert
as_list none = []
as_list (some a) = a ∷ []

-- An alert is there exactly where the price is outside the range, and tells the price and the range.
abbrev pub IsTold : PlatformSetting → ℤ → Option PriceAlert → Type 0
IsTold s price none = is_in_range s price ≡ true
IsTold s price (some a) =
    (is_in_range s price ≡ false)
    × (a.coin_price ≡ price)
    × (a.range_min ≡ s.episode_coin_price_min)
    × (a.range_max ≡ s.episode_coin_price_max)

-- What setting a price leaves: the episode has it, and of the alerts about the episode none is
-- unsettled but the one that is told, where one is.
abbrev pub IsPricedAt : PlatformSetting → ℕ → ℤ → Option PriceAlert → Studio → Type 0
IsPricedAt s episode_id price alert st =
    (keep (is_pending_of episode_id) st.alerts ≡ as_list alert)
    × IsTold s price alert
    × (x : ProjectEpisode) × (find_row episode_id st.episodes ≡ some x)
    × (x.coin_price ≡ some price)

-- The episode that was checked is the one that was asked for.
checked-id :
    (episode_id : ℕ) (user : AuthenticatedUser) (st : Studio) (found : ProjectEpisode × Project)
    (after : Studio)
    → episode_of episode_id user ProjectRole.reviewer st ≡ ok (found, after)
    → found.0.id ≡ episode_id
unfolding episode_of
checked-id episode_id user st found after h =
    let (e, there, h₁) =
      bind-or_throw-eq-ok (find_row episode_id st.episodes) (not_found episode_not_found) st _ h in
    let (p, movie, h₂) = bind-or_throw-eq-ok (find_row e.movie_id st.projects) crash st _ h₁ in
    let (readable, h₃) =
      bind-require-eq-ok (can_read p user st) (not_found episode_not_found) st _ h₂ in
    let (allowed, h₄) =
      bind-require-eq-ok (has_role p user ProjectRole.reviewer) (forbidden wrong_role) st _ h₃ in
    ap (λ (x : ProjectEpisode × Project). x.0.id) (sym (ok_fst h₄))
    ∙ find_row-id episode_id st.episodes e there

module _ (db : Database) (s : PlatformSetting) where
  priced :
      (e : ProjectEpisode) (price : ℤ) (reviewer now : ℕ) (st : Studio) (alert : Option PriceAlert)
      (after : Studio)
      → price_episode db s e price reviewer now st ≡ ok (alert, after)
      → IsPricedAt s e.id price alert after
  unfolding price_episode raise_alert
  priced e price reviewer now st alert after h =
      let (before, found, h₁) =
        bind-or_throw-eq-ok (find_row e.id st.episodes) record_not_found st _ h in
      let row =
        find_row-update_self e.id (λ (x : ProjectEpisode). record x { coin_price = some price })
          st.episodes before (λ x. refl) found in
      let settled = keep-settled e.id now st.alerts in
      let self : (e.id == e.id) ≡ true = (==_iff e.id e.id).1 refl in
      elim (Bool-cases (is_in_range s price)) [
        | inl t ↦
            subst (λ (q : Option PriceAlert × Studio). IsPricedAt s e.id price q.0 q.1)
              (ok_eq (rw t at h₁)) (settled, t, _, row, refl)
        | inr t ↦
            subst (λ (q : Option PriceAlert × Studio). IsPricedAt s e.id price q.0 q.1)
              (ok_eq (rw t at h₁)) (rw (self, settled) refl, (t, refl, refl, refl), _, row, refl)
      ]

  -- A price that `setPrice` took, within the range or not, is the price of the episode; an alert is
  -- raised exactly where it is outside the range of the settings; and no alert about the episode is
  -- left unsettled but that one, however many there were before.
  pub set_episode_price-IsPricedAt :
      (episode_id : ℕ) (price : ℤ) (user : AuthenticatedUser) (now : ℕ) (st : Studio)
      (answer : PriceAnswer) (after : Studio)
      → set_episode_price db s episode_id price user now st ≡ (ok answer, after)
      → IsPricedAt s episode_id price answer.alert after × (answer.in_range ≡ is_in_range s price)
  unfolding set_episode_price episode_of assert_project_status
  set_episode_price-IsPricedAt episode_id price user now st answer after h =
      let ((e, p), st₁, checked, h₁) =
        bind-eq-ok (commit (episode_of episode_id user ProjectRole.reviewer) st) _ h in
      let (u, st₂, allowed, h₂) =
        bind-eq-ok (commit (assert_project_status p.status is_priceable) st₁) _ h₁ in
      let (alert, st₃, wrote, h₃) =
        bind-eq-ok (commit (price_episode db s e price user.id now) st₂) _ h₂ in
      let named =
        checked-id episode_id user st (e, p) st₁
          (commit_ok (episode_of episode_id user ProjectRole.reviewer) st checked) in
      let told = ok_eq (ap (λ (q : Result PriceAnswer × Studio). q.0) h₃) in
      let same = ap (λ (q : Result PriceAnswer × Studio). q.1) h₃ in
      let there =
        priced e price user.id now st₂ alert st₃
          (commit_ok (price_episode db s e price user.id now) st₂ wrote) in
      (
        subst (λ (x : Studio). IsPricedAt s episode_id price answer.alert x) same
            (subst (λ (o : Option PriceAlert). IsPricedAt s episode_id price o st₃)
              (ap (λ (a : PriceAnswer). a.alert) told)
              (subst (λ i. IsPricedAt s i price alert st₃) named there)),
        ap (λ (a : PriceAnswer). a.in_range) (sym told),
      )
