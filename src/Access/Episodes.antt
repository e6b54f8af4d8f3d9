-- ===== src/Access/Episodes.antt =====
-- episode-purchase.service.ts: one episode unlocked with Coins.
pub mod Purchase
pub mod Laws
pub mod Rights
pub mod Twice
pub mod Foreign
use mathlib.Core.Option
use ai_cinema_be.Common.{
  ◌==◌, ℕ, Bool, true, false, ◌&&◌, ◌||◌, not, Option, none, some, List, [], ◌∷◌, String, map,
  if◌then◌else◌, leb,
}
use ai_cinema_be.Common.Int.{ℤ, pos, neg, eqb_ℤ}
use ai_cinema_be.Common.Lists.{find, any}
use ai_cinema_be.Common.Transaction.{◌>>=◌, ◌>>◌, Tx, pure, gets, modify, require}
use ai_cinema_be.Access.Rows.{
  episode_access_granted, on_ledger, has_running_plan, holds_series, holds_episode, Episode,
  EpisodeAccess, Store, PurchaseResult, AccessSource,
}
use ai_cinema_be.Wallet.Rows.{
  episode_access, CoinWallet, CoinEntryType, CoinTransaction, Database, SpendRequest,
}
use ai_cinema_be.Wallet.Spend.{spend, replayed}
use ai_cinema_be.Settings.{PlatformSetting}
use ai_cinema_be.Common.Errors.{access_already_owned, conflict, unique_violation}

abbrev pub paid_by : ℕ → Option ℕ → Bool
paid_by t none = false
paid_by t (some u) = u == t

-- `entry?.episodeAccess`, where it is the caller's and for this episode.
unfoldable pub access_paid_by : ℕ → ℕ → CoinTransaction → Store → Option EpisodeAccess
access_paid_by episode_id user t st =
    own (find (λ (a : EpisodeAccess). paid_by t.id a.coin_transaction_id) st.episode_accesses)
  where
    own : Option EpisodeAccess → Option EpisodeAccess
    own none = none
    own (some a) = if a.user_id == user && a.episode_id == episode_id then some a else none

-- The answer that `replayed` puts together.
unfoldable pub repeated : ℕ → CoinTransaction → EpisodeAccess → PurchaseResult
repeated episode_id t a = record {
  episode_id = some episode_id;
  movie_id = none;
  paid_coins = a.paid_coins;
  charged = record { main_coins = neg t.main_amount; bonus_coins = neg t.bonus_amount };
  main_balance = t.main_balance_after;
  bonus_balance = t.bonus_balance_after;
  source = a.source;
  granted_at = a.granted_at;
  access_granted = true;
  idempotent = true;
  unlocked_episodes = none;
}

-- `replayed` of this service.
unfoldable pub replayed_purchase : ℕ → ℕ → Option String → Store → Option PurchaseResult
replayed_purchase episode_id user key st =
    Option.bind (replayed key st.ledger)
      (λ t. Option.map (repeated episode_id t) (access_paid_by episode_id user t st))

-- `assertNotOwned`
unfoldable pub is_owned : ℕ → ℕ → ℕ → Store → Bool
is_owned episode_id movie_id user st =
    any (holds_episode user episode_id) st.episode_accesses
    || (any (holds_series user movie_id) st.series_accesses
        || any (has_running_plan user) st.subscriptions)

abbrev pub spend_request : Option String → ℕ → ℤ → SpendRequest
spend_request key rate price = record {
  entry_type = CoinEntryType.episode_purchase;
  amount_coins = price;
  coin_rate_vnd = some rate;
  reference_type = some episode_access;
  reference_id = none;
  idempotency_key = key;
}

module _ (db : Database) (s : PlatformSetting) where
  -- `episodeAccess.create`; the column of the transaction is unique.
  unfoldable pub create_access : Episode → ℤ → ℕ → ℕ → ℕ → Tx Store EpisodeAccess
  create_access e price user transaction now = do
    taken ← gets (λ st.
        any (λ (a : EpisodeAccess). paid_by transaction a.coin_transaction_id) st.episode_accesses)
    require (not taken) unique_violation
    id ← gets (λ st. db.fresh_id (map (λ (a : EpisodeAccess). a.id) st.episode_accesses))
    let row : EpisodeAccess = record {
      id = id;
      user_id = user;
      episode_id = e.id;
      source = AccessSource.episode_purchase;
      paid_coins = price;
      rate_vnd = s.coin_rate_vnd;
      coin_transaction_id = some transaction;
      granted_at = now;
      revoked_at = none;
    }
    modify (λ st. record st { episode_accesses = row ∷ st.episode_accesses })
    pure row

  -- The transaction of `purchase`.
  unfoldable pub unlock : Episode → ℤ → CoinWallet → ℕ → Option String → ℕ → Tx Store PurchaseResult
  unlock e price wallet user key now = do
    owned ← gets (is_owned e.id e.movie_id user)
    require (not owned) (conflict access_already_owned)
    movement ← on_ledger (spend db s wallet.id (spend_request key s.coin_rate_vnd price) now)
    access ← create_access e price user movement.transaction_id now
    modify (λ st. record st {
      audit_log =
          record {
            action = episode_access_granted;
            entity_id = access.id;
            movie_id = some e.movie_id;
            actor_id = some user;
          }
          ∷ st.audit_log;
    })
    pure (record {
      episode_id = some e.id;
      movie_id = none;
      paid_coins = access.paid_coins;
      charged = record { main_coins = movement.main_coins; bonus_coins = movement.bonus_coins };
      main_balance = movement.main_balance;
      bonus_balance = movement.bonus_balance;
      source = access.source;
      granted_at = access.granted_at;
      access_granted = true;
      idempotent = false;
      unlocked_episodes = none;
    })
