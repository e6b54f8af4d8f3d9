-- ===== src/Project/Lifecycle/Laws.antt =====
-- The statuses of a project along its life.
use ai_cinema_be.Common.{
  not, ◌==◌, [], sym, Bool-cases, ◌∙◌, ◌∷◌, refl, ap, if◌then◌else◌, map, false, inr, ◌&&◌, inl,
  Option-cases, true, some, ◌≡◌, List, Bool, ℕ,
}
use ai_cinema_be.Project.Rows.{
  Publication, ProjectEpisode, Project, Studio, project_has_id, user_has_id, project_episode_has_id,
}
use ai_cinema_be.Access.Rows.{is_none, MovieStatus, EpisodeStatus}
use ai_cinema_be.Common.Action.{bind-requires-eq-ok, commit, bind-eq-ok, commit_ok}
use ai_cinema_be.Project.Lifecycle.{
  was_released, withdraw_releases, cancel_in, is_in_movie, cancel, passes, is_release_of,
  is_scheduled, of_movie, update_if, matches,
}
use ai_cinema_be.Common.Table.{find_row-update_self, find_row}
use ai_cinema_be.Common.Lists.{All-map, All}
use ai_cinema_be.Common.Words.{Words}
use ai_cinema_be.Project.Rules.{
  assert_project_status, ProjectRole, project_of, is_open_project, AuthenticatedUser,
}
use ai_cinema_be.Common.Transaction.{ok_snd, ok}

pub matched :
    (movie : ℕ) (allowed : MovieStatus → Bool) (ps : List Project)
    → matches movie allowed ps ≡ true
    → (p : Project) × (find_row movie ps ≡ some p) × (allowed p.status ≡ true)
unfolding matches
matched movie allowed ps h = elim (Option-cases (find_row movie ps)) [
  | inl e ↦ cc (ap (passes allowed) (sym e) ∙ h)
  | inr (p, e) ↦ (p, e, ap (passes allowed) (sym e) ∙ h)
]

-- An update that not every project gets keeps the ids.
pub keeps_id :
    (t : Bool) (g : Project → Project) (q : Project)
    → ((z : Project) → (g z).id ≡ z.id)
    → (if t then g q else q).id ≡ q.id
keeps_id true g q e = e q
keeps_id false g q e = refl

-- An update of the projects that pass a test reaches the one that was found.
pub updated :
    (movie : ℕ) (allowed : MovieStatus → Bool) (f : Project → Project) (ps : List Project)
    (p : Project)
    → ((q : Project) → (f q).id ≡ q.id)
    → find_row movie ps ≡ some p
    → allowed p.status ≡ true
    → find_row movie (update_if movie allowed f ps) ≡ some (f p)
unfolding update_if
updated movie allowed f ps p same found passes =
    find_row-update_self movie _ ps p (λ q. keeps_id (allowed q.status) f q same) found
    ∙ ap (λ t. some (if t then f p else p)) passes

pub record Cancelled (movie : ℕ) (after : Studio) : Type 0 where
  pub project : Project
  pub found : find_row movie after.projects ≡ some project
  pub is_cancelled : project.status ≡ MovieStatus.cancelled
  pub nothing_scheduled :
      All
        (λ (e : ProjectEpisode). (of_movie movie e && is_scheduled e.status) ≡ false)
        after.episodes
  pub nothing_waiting :
      All
        (λ (p : Publication).
          (is_release_of movie after.episodes p
            && (is_none p.published_at && is_none p.unpublished_at))
          ≡ false)
        after.publications

unscheduled_now : (t : Bool) → (t && false) ≡ false
unscheduled_now true = refl
unscheduled_now false = refl

unscheduled :
    (movie : ℕ) (es : List ProjectEpisode)
    → All
        (λ (e : ProjectEpisode). (of_movie movie e && is_scheduled e.status) ≡ false)
        (map
          (λ (e : ProjectEpisode).
            if of_movie movie e && is_scheduled e.status
            then record e { status = EpisodeStatus.compliance_passed }
            else e)
          es)
unscheduled movie [] = tt
unscheduled movie (e ∷ es) = elim (Bool-cases (of_movie movie e && is_scheduled e.status)) [
  | inl t ↦ rw t (unscheduled_now (of_movie movie e), unscheduled movie es)
  | inr t ↦ rw t (t, unscheduled movie es)
]

withdrawn_now : (a b : Bool) → (a && (b && false)) ≡ false
withdrawn_now true b = unscheduled_now b
withdrawn_now false b = refl

withdrawn :
    (test : Publication → Bool) (now actor : ℕ) (ps : List Publication)
    → All
        (λ (p : Publication).
          (test p && (is_none p.published_at && is_none p.unpublished_at)) ≡ false)
        (map
          (λ (p : Publication).
            if test p && (is_none p.published_at && is_none p.unpublished_at)
            then record p { unpublished_at = some now; unpublished_by_id = some actor }
            else p)
          ps)
withdrawn test now actor [] = tt
withdrawn test now actor (p ∷ ps) =
    elim (Bool-cases (test p && (is_none p.published_at && is_none p.unpublished_at))) [
      | inl t ↦ rw t (withdrawn_now (test _) (is_none p.published_at), withdrawn test now actor ps)
      | inr t ↦ rw t (t, withdrawn test now actor ps)
    ]

abbrev rescheduled : ℕ → ProjectEpisode → ProjectEpisode
rescheduled movie e =
    if of_movie movie e && is_scheduled e.status
    then record e { status = EpisodeStatus.compliance_passed }
    else e

-- The episodes keep their ids and their movies.
same_movie :
    (movie m i : ℕ) (es : List ProjectEpisode)
    → is_in_movie m (find_row i (map (rescheduled movie) es)) ≡ is_in_movie m (find_row i es)
same_movie movie m i [] = refl
same_movie movie m i (e ∷ es) = elim (Bool-cases (of_movie movie e && is_scheduled e.status)) [
  | inl t ↦ elim (Bool-cases (e.id == i)) [
    | inl here ↦ rw (t, here) refl
    | inr past ↦ rw (t, past) (same_movie movie m i es)
  ]
  | inr t ↦ elim (Bool-cases (e.id == i)) [
    | inl here ↦ rw (t, here) refl
    | inr past ↦ rw (t, past) (same_movie movie m i es)
  ]
]

cancel_in-Cancelled :
    (movie : ℕ) (reason : Words) (user : AuthenticatedUser) (now : ℕ) (st : Studio) {u : Unit {0}}
    {after : Studio}
    → cancel_in movie reason user now st ≡ ok (u, after)
    → Cancelled movie after
unfolding cancel_in withdraw_releases is_release_of
cancel_in-Cancelled movie reason user now st h =
    elim (Bool-cases (matches movie is_open_project st.projects)) [
      | inl t ↦
          let (p, found, allowed) = matched movie is_open_project st.projects t in
          rw (← ok_snd (rw t at h)) (record {
            project = _;
            found = updated movie is_open_project _ st.projects p (λ q. refl) found allowed;
            is_cancelled = refl;
            nothing_scheduled = unscheduled movie st.episodes;
            nothing_waiting =
                All-map _ _ _
                  (λ q e.
                    ap (λ b. b && (is_none q.published_at && is_none q.unpublished_at))
                      (same_movie movie movie q.episode_id st.episodes)
                    ∙ e)
                  (withdrawn (λ q. is_in_movie movie (find_row q.episode_id st.episodes)) now
                    user.id st.publications);
          })
      | inr t ↦ cc (rw t at h)
    ]

-- A cancellation that goes through leaves the project CANCELLED, none of its episodes scheduled, and
-- none of its releases waiting for the scheduler.
pub cancel-Cancelled :
    (movie : ℕ) (reason : Words) (user : AuthenticatedUser) (now : ℕ) (st : Studio) {u : Unit {0}}
    {after : Studio}
    → cancel movie reason user now st ≡ (ok u, after)
    → Cancelled movie after
unfolding cancel
cancel-Cancelled movie reason user now st h =
    let (p, st₁, read, h₁) =
      bind-eq-ok (commit (project_of movie user ProjectRole.reviewer) st) _ h in
    let (a, st₂, opened, h₂) =
      bind-eq-ok (commit (assert_project_status p.status is_open_project) st₁) _ h₁ in
    let (b, h₃) = bind-requires-eq-ok (not (was_released movie st₂)) _ st₂ _ h₂ in
    cancel_in-Cancelled movie reason user now st₂
      (commit_ok (cancel_in movie reason user now) st₂ h₃)
