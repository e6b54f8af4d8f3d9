-- ===== src/Access/Decision/Bought.antt =====
-- The decision after a purchase.
use ai_cinema_be.Access.Rows.{
  holds_episode, Movie, published_episode, Episode, PurchaseResult, Store, movie_has_id,
  episode_has_id,
}
use ai_cinema_be.Wallet.Rows.{Database}
use ai_cinema_be.Settings.{PlatformSetting}
use ai_cinema_be.Common.{ap, ◌∙◌, refl, none, true, some, ◌≡◌, String, Option, ℕ}
use ai_cinema_be.Access.Episodes.Rights.{purchase-Bought, Bought}
use ai_cinema_be.Access.Decision.{base_of, AccessDecision, decide}
use ai_cinema_be.Common.Lists.{any}
use ai_cinema_be.Common.Table.{find_row}
use ai_cinema_be.Access.Episodes.{replayed_purchase}
use ai_cinema_be.Access.Episodes.Twice.{Bought-published, ==-refl}
use ai_cinema_be.Common.Transaction.{ok}
use ai_cinema_be.Access.Episodes.Purchase.{purchase}
use ai_cinema_be.Access.Decision.Laws.{let_in}
use ai_cinema_be.Common.Action.{next-or_fail}

module _ (db : Database) (s : PlatformSetting) (episode_id user : ℕ) (key : Option String) (now : ℕ)
    (st : Store) (r : PurchaseResult) (after : Store)
    (b : Bought db s episode_id user key now st r after) where
  holds_it : any (holds_episode user b.episode.id) after.episode_accesses ≡ true
  holds_it = rw b.unlocked.written (rw (==-refl user, ==-refl b.episode.id) refl)

  decide_bought :
      (later : ℕ) (m : Movie)
      → find_row b.episode.movie_id st.movies ≡ some m
      → (d : AccessDecision) × (decide db s episode_id (some user) later after ≡ (ok d, after))
        × (d.access_granted ≡ true)
  unfolding decide base_of
  decide_bought later m movie =
      let base = base_of db s b.episode m in
      let (d, e, opens) = let_in db s base user later after holds_it in
      (
        d,
        next-or_fail (published_episode episode_id after) _ after _
              (Bought-published db s episode_id user key now st r after b)
            ∙ (next-or_fail (find_row b.episode.movie_id after.movies) _ after _ (
                  ap (λ (x : Store). find_row b.episode.movie_id x.movies) b.unlocked.written
                  ∙ movie)
                ∙ e),
        opens,
      )

-- After a new purchase has gone through, the decision on the episode lets the buyer in, at any later
-- time, as long as its movie is in the catalog.
pub decide-purchase :
    (db : Database) (s : PlatformSetting) (episode_id user : ℕ) (key : Option String) (now : ℕ)
    (st : Store) (later : ℕ) {r : PurchaseResult} {after : Store}
    → ((e : Episode)
        → published_episode episode_id st ≡ some e
        → (m : Movie) × (find_row e.movie_id st.movies ≡ some m))
    → replayed_purchase episode_id user key st ≡ none
    → purchase db s episode_id user key now st ≡ (ok r, after)
    → (d : AccessDecision) × (decide db s episode_id (some user) later after ≡ (ok d, after))
      × (d.access_granted ≡ true)
decide-purchase db s episode_id user key now st later {r = r} {after = after} listed new h =
    let b = purchase-Bought db s episode_id user key now st new h in
    let (m, movie) = listed b.episode b.published in
    decide_bought db s episode_id user key now st r after b later m movie
