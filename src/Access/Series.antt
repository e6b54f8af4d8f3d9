-- ===== src/Access/Series.antt =====
-- series-purchase.service.ts: every episode of a movie unlocked at once.
pub mod Purchase
use mathlib.Core.Option
use ai_cinema_be.Common.{
  ◌==◌, ℕ, Bool, true, false, ◌&&◌, ◌||◌, not, Option, none, some, List, [], ◌∷◌, String, map,
  if◌then◌else◌,
}
use ai_cinema_be.Common.Int.{ℤ, pos, neg}
use ai_cinema_be.Common.Lists.{find, any, keep, length}
use ai_cinema_be.Common.Transaction.{◌>>=◌, ◌>>◌, Tx, pure, gets, modify, require}
use ai_cinema_be.Access.Rows.{
  series_access_granted, on_ledger, is_none, EpisodeAccess, has_running_plan, is_published,
  holds_series, is_cancelled, Movie, Episode, SeriesAccess, Store, PurchaseResult, AccessSource,
  movie_has_id, episode_has_id,
}
use ai_cinema_be.Access.Episodes.{paid_by}
use ai_cinema_be.Wallet.Rows.{
  series_access, CoinWallet, CoinEntryType, CoinTransaction, Database, SpendRequest,
}
use ai_cinema_be.Common.Table.{find_row}
use ai_cinema_be.Wallet.Spend.{spend, replayed}
use ai_cinema_be.Settings.{PlatformSetting}
use ai_cinema_be.Common.Errors.{series_access_already_owned, conflict, unique_violation}

-- `entry?.seriesAccess`, where it is the caller's and for this movie.
unfoldable pub series_paid_by : ℕ → ℕ → CoinTransaction → Store → Option SeriesAccess
series_paid_by movie_id user t st =
    own (find (λ (a : SeriesAccess). paid_by t.id a.coin_transaction_id) st.series_accesses)
  where
    own : Option SeriesAccess → Option SeriesAccess
    own none = none
    own (some a) = if a.user_id == user && a.movie_id == movie_id then some a else none

unfoldable pub repeated_series : ℕ → CoinTransaction → SeriesAccess → PurchaseResult
repeated_series movie_id t a = record {
  episode_id = none;
  movie_id = some movie_id;
  paid_coins = a.paid_coins;
  charged = record { main_coins = neg t.main_amount; bonus_coins = neg t.bonus_amount };
  main_balance = t.main_balance_after;
  bonus_balance = t.bonus_balance_after;
  source = a.source;
  granted_at = a.granted_at;
  access_granted = true;
  idempotent = true;
  unlocked_episodes = none;
}

unfoldable pub replayed_series : ℕ → ℕ → Option String → Store → Option PurchaseResult
replayed_series movie_id user key st =
    Option.bind (replayed key st.ledger)
      (λ t. Option.map (repeated_series movie_id t) (series_paid_by movie_id user t st))

-- `movie.findFirst({ where: { id, status: { not: CANCELLED } } })`
abbrev pub if_not_cancelled : Option Movie → Option Movie
if_not_cancelled none = none
if_not_cancelled (some m) = if is_cancelled m.status then none else some m

unfoldable pub sold_movie : ℕ → Store → Option Movie
sold_movie movie_id st = if_not_cancelled (find_row movie_id st.movies)

-- The relation `episode: { movieId }` of a bought episode.
abbrev pub is_episode_of : ℕ → Option Episode → Bool
is_episode_of movie_id none = false
is_episode_of movie_id (some e) = e.movie_id == movie_id

-- `assertNotOwned`
unfoldable pub is_series_owned : ℕ → ℕ → Store → Bool
is_series_owned movie_id user st =
    any (holds_series user movie_id) st.series_accesses
    || (any (has_running_plan user) st.subscriptions
        || any
            (λ (a : EpisodeAccess).
              a.user_id == user
              && (is_episode_of movie_id (find_row a.episode_id st.episodes)
                  && is_none a.revoked_at))
            st.episode_accesses)

abbrev pub series_request : Option String → ℕ → ℤ → SpendRequest
series_request key rate price = record {
  entry_type = CoinEntryType.series_purchase;
  amount_coins = price;
  coin_rate_vnd = some rate;
  reference_type = some series_access;
  reference_id = none;
  idempotency_key = key;
}

unfoldable pub published_episodes : ℕ → Store → ℕ
published_episodes movie_id st =
    length (keep (λ (e : Episode). e.movie_id == movie_id && is_published e.status) st.episodes)

module _ (db : Database) (s : PlatformSetting) where
  unfoldable pub create_series_access : Movie → ℤ → ℕ → ℕ → ℕ → Tx Store SeriesAccess
  create_series_access m price user transaction now = do
    taken ← gets (λ st.
        any (λ (a : SeriesAccess). paid_by transaction a.coin_transaction_id) st.series_accesses)
    require (not taken) unique_violation
    id ← gets (λ st. db.fresh_id (map (λ (a : SeriesAccess). a.id) st.series_accesses))
    let row : SeriesAccess = record {
      id = id;
      user_id = user;
      movie_id = m.id;
      source = AccessSource.series_purchase;
      paid_coins = price;
      rate_vnd = s.coin_rate_vnd;
      coin_transaction_id = some transaction;
      granted_at = now;
      revoked_at = none;
    }
    modify (λ st. record st { series_accesses = row ∷ st.series_accesses })
    pure row

  -- The transaction of `purchase`.
  unfoldable pub unlock_series :
      Movie → ℤ → CoinWallet → ℕ → Option String → ℕ → Tx Store PurchaseResult
  unlock_series m price wallet user key now = do
    owned ← gets (is_series_owned m.id user)
    require (not owned) (conflict series_access_already_owned)
    movement ← on_ledger (spend db s wallet.id (series_request key s.coin_rate_vnd price) now)
    access ← create_series_access m price user movement.transaction_id now
    unlocked ← gets (published_episodes m.id)
    modify (λ st. record st {
      audit_log =
          record {
            action = series_access_granted;
            entity_id = access.id;
            movie_id = some m.id;
            actor_id = some user;
          }
          ∷ st.audit_log;
    })
    pure (record {
      episode_id = none;
      movie_id = some m.id;
      paid_coins = access.paid_coins;
      charged = record { main_coins = movement.main_coins; bonus_coins = movement.bonus_coins };
      main_balance = movement.main_balance;
      bonus_balance = movement.bonus_balance;
      source = access.source;
      granted_at = access.granted_at;
      access_granted = true;
      idempotent = false;
      unlocked_episodes = some unlocked;
    })
