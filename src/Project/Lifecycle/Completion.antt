-- ===== src/Project/Lifecycle/Completion.antt =====
-- `completeIfAllPublished` of project-lifecycle.service.ts, and when a movie counts as delivered.
use ai_cinema_be.Common.{
  none, ◌⊎◌, ◌==◌, ==_iff, [], sym, Bool-cases, ◌∙◌, ◌∷◌, refl, false, inr, ◌&&◌, inl, true, some,
  ◌≡◌, ◌≢◌, List, ℕ,
}
use ai_cinema_be.Project.Rows.{
  project_completed, ProjectEpisode, Project, Studio, project_has_id, user_has_id,
  project_episode_has_id,
}
use ai_cinema_be.Access.Rows.{MovieStatus, EpisodeStatus}
use ai_cinema_be.Project.Lifecycle.{
  audited, has_pending, complete_if_all_published, of_movie, update_if, matches, is_pending,
}
use ai_cinema_be.Project.Lifecycle.Laws.{matched, updated, keeps_id}
use ai_cinema_be.Common.Table.{find_row-update_ne, find_row}
use ai_cinema_be.Common.Lists.{All, any}
use ai_cinema_be.Project.Rules.{is_in_delivery}
use ai_cinema_be.Common.Transaction.{ok}

-- An episode of another movie, or one that is out, or was taken down.
abbrev pub IsOut : ℕ → ProjectEpisode → Type 0
IsOut movie e =
    e.movie_id ≡ movie
    → (e.status ≡ EpisodeStatus.published) ⊎ (e.status ≡ EpisodeStatus.unpublished)

abbrev pub IsInDelivery : MovieStatus → Type 0
IsInDelivery status = (status ≡ MovieStatus.in_production) ⊎ (status ≡ MovieStatus.under_revision)

-- What makes a movie complete.
pub record IsDelivered (movie : ℕ) (st : Studio) : Type 0 where
  pub project : Project
  pub found : find_row movie st.projects ≡ some project
  pub in_delivery : IsInDelivery project.status
  pub all_out : All (IsOut movie) st.episodes

-- What a completion writes.
pub record Completes (movie now : ℕ) (st : Studio) (project : Project) (after : Studio)
    : Type 0 where
  pub completed :
      find_row movie after.projects
      ≡ some (record project { status = MovieStatus.completed; completed_at = some now })
  pub others :
      (other : ℕ) → movie ≢ other → find_row other after.projects ≡ find_row other st.projects
  pub episodes : after.episodes ≡ st.episodes
  pub publications : after.publications ≡ st.publications
  pub logged :
      after.audit_log
      ≡ record { action = project_completed; movie_id = movie; actor_id = none } ∷ st.audit_log

delivering : (s : MovieStatus) → is_in_delivery s ≡ true → IsInDelivery s
delivering MovieStatus.in_production h = inl refl
delivering MovieStatus.under_revision h = inr refl
delivering s h = cc

delivers : (s : MovieStatus) → IsInDelivery s → is_in_delivery s ≡ true
delivers s (inl e) = rw e refl
delivers s (inr e) = rw e refl

out_now :
    (s : EpisodeStatus)
    → is_pending s ≡ false
    → (s ≡ EpisodeStatus.published) ⊎ (s ≡ EpisodeStatus.unpublished)
out_now EpisodeStatus.published h = inl refl
out_now EpisodeStatus.unpublished h = inr refl
out_now s h = cc

not_out :
    (s : EpisodeStatus)
    → is_pending s ≡ true
    → ¬ ((s ≡ EpisodeStatus.published) ⊎ (s ≡ EpisodeStatus.unpublished))
not_out s h (inl e) = cc (rw e at h)
not_out s h (inr e) = cc (rw e at h)

-- The count of the pending episodes says whether one of the movie is left.
module _ (movie : ℕ) where
  none_pending :
      (es : List ProjectEpisode)
      → any (λ (e : ProjectEpisode). of_movie movie e && is_pending e.status) es ≡ false
      → All (IsOut movie) es
  none_pending [] h = tt
  none_pending (e ∷ es) h = elim (Bool-cases (e.movie_id == movie)) [
    | inl own ↦ elim (Bool-cases (is_pending e.status)) [
      | inl left ↦ cc (rw (own, left) at h)
      | inr out ↦ ((λ _. out_now e.status out), none_pending es (rw (own, out) at h))
    ]
    | inr other ↦ (
      (λ same. cc (sym other ∙ (==_iff e.movie_id movie).1 same)),
      none_pending es (rw other at h),
    )
  ]

  some_pending :
      (es : List ProjectEpisode)
      → any (λ (e : ProjectEpisode). of_movie movie e && is_pending e.status) es ≡ true
      → ¬ All (IsOut movie) es
  some_pending [] h all = cc
  some_pending (e ∷ es) h (out, outs) = elim (Bool-cases (e.movie_id == movie)) [
    | inl own ↦ elim (Bool-cases (is_pending e.status)) [
      | inl left ↦ not_out e.status left (out ((==_iff e.movie_id movie).0 own))
      | inr gone ↦ some_pending es (rw (own, gone) at h) outs
    ]
    | inr other ↦ some_pending es (rw other at h) outs
  ]

not_delivering :
    (movie : ℕ) (st : Studio)
    → matches movie is_in_delivery st.projects ≡ false
    → ¬ IsDelivered movie st
unfolding matches
not_delivering movie st h d = cc (rw (d.found, delivers d.project.status d.in_delivery) at h)

module _ (movie now : ℕ) (st : Studio) where
  finish : Project → Project
  finish q = record q { status = MovieStatus.completed; completed_at = some now }

  -- A project is completed exactly where it is IN_PRODUCTION or UNDER_REVISION and every episode of
  -- the movie is PUBLISHED or UNPUBLISHED: it is COMPLETED as of now then, with an entry in the
  -- audit log, and no other project, episode or release changes. In every other case the answer is
  -- `false` and nothing at all changes.
  pub complete-all_branches :
      ((d : IsDelivered movie st) × (after : Studio) × (complete_if_all_published movie now st
          ≡ ok (true, after))
        × Completes movie now st d.project after)
      ⊎ ((¬ IsDelivered movie st) × (complete_if_all_published movie now st ≡ ok (false, st)))
  unfolding complete_if_all_published has_pending finish update_if
  complete-all_branches = elim (Bool-cases (has_pending movie st)) [
    | inl t ↦ inr ((λ d. some_pending movie st.episodes t d.all_out), rw t refl)
    | inr t ↦ elim (Bool-cases (matches movie is_in_delivery st.projects)) [
      | inl go ↦
          let (p, found, allowed) = matched movie is_in_delivery st.projects go in
          inl (
            record {
              project = p;
              found = found;
              in_delivery = delivering p.status allowed;
              all_out = none_pending movie st.episodes t;
            },
            audited project_completed movie none
                (record st { projects = update_if movie is_in_delivery finish st.projects }),
            rw (t, go) refl,
            record {
              completed =
                  updated movie is_in_delivery finish st.projects p (λ q. refl) found allowed;
              others = λ other away.
                  find_row-update_ne movie other _ st.projects
                    (λ q. keeps_id (is_in_delivery q.status) finish q (λ _. refl)) away;
              episodes = refl;
              publications = refl;
              logged = refl;
            },
          )
      | inr stop ↦ inr (not_delivering movie st stop, rw (t, stop) refl)
    ]
  ]
