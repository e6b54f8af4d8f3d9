-- ===== src/Project/Lifecycle.antt =====
-- project-lifecycle.service.ts: the status changes of a movie project. Notifications are left out.
pub mod Laws
pub mod Completion
use mathlib.Core.Option
use ai_cinema_be.Common.{
  ℕ, Bool, true, false, ◌&&◌, ◌||◌, not, Option, none, some, List, [], ◌∷◌, if◌then◌else◌, ◌==◌,
  map,
}
use ai_cinema_be.Common.Int.{ℤ, pos, leb_ℤ}
use ai_cinema_be.Common.Words.{Words, trim}
use ai_cinema_be.Common.Transaction.{err, ok, Tx, pure, gets, modify, require}
use ai_cinema_be.Common.Action.{Action, done, reads, requires, or_fail, commit, ◌>>=◌, ◌>>◌}
use ai_cinema_be.Project.Rows.{
  project_completed, project_cancelled, content_creator, project_assigned, Publication,
  ProjectEpisode, ProjectEvent, Project, Studio, User, project_has_id, user_has_id,
  project_episode_has_id,
}
use ai_cinema_be.Access.Rows.{is_none, MovieStatus, EpisodeStatus}
use ai_cinema_be.Project.Rules.{
  is_in_delivery, assert_project_status, is_open_project, eqb_role, project_of, ProjectRole,
  AuthenticatedUser,
}
use ai_cinema_be.Common.Table.{update_row, find_row}
use ai_cinema_be.Common.Lists.{any}
use ai_cinema_be.Common.Errors.{
  no_milestone, no_episode, no_production_fee, creator_not_active, already_published,
  project_changed, conflict, bad_request,
}
use ai_cinema_be.Project.Tokens.{total_tokens}

abbrev pub is_active_creator : Option User → Bool
is_active_creator none = false
is_active_creator (some u) = eqb_role u.role content_creator && u.is_active

-- The new status of a project that gets a Creator.
unfoldable pub assigned_status : MovieStatus → MovieStatus
assigned_status MovieStatus.draft = MovieStatus.assigned
assigned_status status = status

abbrev pub of_movie : ℕ → ProjectEpisode → Bool
of_movie movie_id e = e.movie_id == movie_id

-- The relation `episode: { movieId }` of a publication.
abbrev pub is_in_movie : ℕ → Option ProjectEpisode → Bool
is_in_movie movie_id none = false
is_in_movie movie_id (some e) = e.movie_id == movie_id

unfoldable pub is_release_of : ℕ → List ProjectEpisode → Publication → Bool
is_release_of movie_id episodes p = is_in_movie movie_id (find_row p.episode_id episodes)

-- `updateMany` of one project whose status passes a test; `count` is whether it was found.
unfoldable pub update_if :
    ℕ → (MovieStatus → Bool) → (Project → Project) → List Project → List Project
update_if movie_id allowed f = update_row movie_id (λ p. if allowed p.status then f p else p)

abbrev pub passes : (MovieStatus → Bool) → Option Project → Bool
passes allowed none = false
passes allowed (some p) = allowed p.status

unfoldable pub matches : ℕ → (MovieStatus → Bool) → List Project → Bool
matches movie_id allowed projects = passes allowed (find_row movie_id projects)

abbrev pub audited : ProjectEvent → ℕ → Option ℕ → Studio → Studio
audited event movie_id actor st = record st {
  audit_log = record { action = event; movie_id = movie_id; actor_id = actor } ∷ st.audit_log;
}

-- The transaction of `assignCreator`; `status` was read before it.
unfoldable pub assign : ℕ → ℕ → MovieStatus → AuthenticatedUser → ℕ → Tx Studio (Unit {0})
assign movie_id creator_id status user now st =
    if matches movie_id is_open_project st.projects
    then ok (
      tt,
      audited project_assigned movie_id (some user.id) (record st {
        projects =
            update_if movie_id is_open_project
              (λ p. record p {
                creator_id = some creator_id;
                status = assigned_status status;
                assigned_at = some now;
              })
              st.projects;
      }),
    )
    else err (conflict project_changed)

-- `assignCreator`
unfoldable pub assign_creator : ℕ → ℕ → AuthenticatedUser → ℕ → Action Studio (Unit {0})
assign_creator movie_id creator_id user now = do
  movie ← commit (project_of movie_id user ProjectRole.reviewer)
  commit (assert_project_status movie.status is_open_project)
  creator ← reads (λ st. find_row creator_id st.users)
  requires (is_active_creator creator) (bad_request creator_not_active)
  total ← reads (λ st. total_tokens movie_id st.fees)
  requires (not (leb_ℤ total (pos 0))) (conflict no_production_fee)
  planned ← reads (λ st. any (of_movie movie_id) st.episodes)
  requires planned (conflict no_episode)
  undated ← reads (λ st.
      any (λ (e : ProjectEpisode). of_movie movie_id e && is_none e.milestone_date) st.episodes)
  requires (not undated) (conflict no_milestone)
  commit (assign movie_id creator_id movie.status user now)

abbrev pub is_scheduled : EpisodeStatus → Bool
is_scheduled EpisodeStatus.scheduled = true
is_scheduled _ = false

-- The scheduled releases of a cancelled project are withdrawn; their episodes go back to
-- COMPLIANCE_PASSED.
unfoldable pub withdraw_releases : ℕ → ℕ → ℕ → Studio → Studio
withdraw_releases movie_id actor now st = record st {
  publications =
      map
        (λ (p : Publication).
          if is_release_of movie_id st.episodes p
            && (is_none p.published_at && is_none p.unpublished_at)
          then record p { unpublished_at = some now; unpublished_by_id = some actor }
          else p)
        st.publications;
  episodes =
      map
        (λ (e : ProjectEpisode).
          if of_movie movie_id e && is_scheduled e.status
          then record e { status = EpisodeStatus.compliance_passed }
          else e)
        st.episodes;
}

-- The transaction of `cancel`.
unfoldable pub cancel_in : ℕ → Words → AuthenticatedUser → ℕ → Tx Studio (Unit {0})
cancel_in movie_id reason user now st =
    if matches movie_id is_open_project st.projects
    then ok (
      tt,
      audited project_cancelled movie_id (some user.id) (
          withdraw_releases movie_id user.id now (record st {
            projects =
                update_if movie_id is_open_project
                  (λ p. record p {
                    status = MovieStatus.cancelled;
                    cancel_reason = some (trim reason);
                    cancelled_at = some now;
                  })
                  st.projects;
          })),
    )
    else err (conflict project_changed)

unfoldable pub was_released : ℕ → Studio → Bool
was_released movie_id st =
    any (λ (p : Publication). is_release_of movie_id st.episodes p && not (is_none p.published_at))
      st.publications

unfoldable pub cancel : ℕ → Words → AuthenticatedUser → ℕ → Action Studio (Unit {0})
cancel movie_id reason user now = do
  movie ← commit (project_of movie_id user ProjectRole.reviewer)
  commit (assert_project_status movie.status is_open_project)
  published ← reads (was_released movie_id)
  requires (not published) (conflict already_published)
  commit (cancel_in movie_id reason user now)

-- An episode that is neither out nor taken down for good.
abbrev pub is_pending : EpisodeStatus → Bool
is_pending EpisodeStatus.published = false
is_pending EpisodeStatus.unpublished = false
is_pending _ = true

unfoldable pub has_pending : ℕ → Studio → Bool
has_pending movie_id st =
    any (λ (e : ProjectEpisode). of_movie movie_id e && is_pending e.status) st.episodes

-- `completeIfAllPublished`
unfoldable pub complete_if_all_published : ℕ → ℕ → Tx Studio Bool
complete_if_all_published movie_id now st =
    if has_pending movie_id st
    then ok (false, st)
    else if matches movie_id is_in_delivery st.projects
    then ok (
      true,
      audited project_completed movie_id none (record st {
        projects =
            update_if movie_id is_in_delivery
              (λ p. record p { status = MovieStatus.completed; completed_at = some now })
              st.projects;
      }),
    )
    else ok (false, st)
