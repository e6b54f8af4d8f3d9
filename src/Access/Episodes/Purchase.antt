-- ===== src/Access/Episodes/Purchase.antt =====
-- episode-purchase.service.ts: the handler around the transaction of an episode.
use ai_cinema_be.Common.{◌||◌, leb, Bool, String, ℕ, Option, none, some, not}
use ai_cinema_be.Common.Action.{Action, done, reads, requires, or_fail, commit, ◌>>=◌, ◌>>◌}
use ai_cinema_be.Access.Rows.{on_ledger, published_episode, Episode, Store, PurchaseResult}
use ai_cinema_be.Wallet.Rows.{Database}
use ai_cinema_be.Settings.{PlatformSetting}
use ai_cinema_be.Access.Episodes.{unlock, replayed_purchase}
use ai_cinema_be.Common.Int.{pos, eqb_ℤ, ℤ}
use ai_cinema_be.Common.Errors.{
  access_already_owned, episode_not_priced, episode_not_published, conflict,
}
use ai_cinema_be.Wallet.Members.{wallet_of}

-- `if (replayed) return replayed`
unfoldable pub unless_repeated :
    Option PurchaseResult → Action Store PurchaseResult → Action Store PurchaseResult
unless_repeated (some r) rest = done r
unless_repeated none rest = rest

module _ (db : Database) (s : PlatformSetting) where
  -- `assertNotFree`
  abbrev pub is_free : Episode → ℤ → Bool
  is_free e price = leb e.episode_number s.free_starter_episode_count || eqb_ℤ price (pos 0)

  -- `purchase` once the request is known not to be a repeated one.
  unfoldable pub buy : ℕ → ℕ → Option String → ℕ → Action Store PurchaseResult
  buy episode_id user key now = do
    episode ← reads (published_episode episode_id)
    e ← or_fail episode (conflict episode_not_published)
    price ← or_fail e.coin_price (conflict episode_not_priced)
    requires (not (is_free e price)) (conflict access_already_owned)
    wallet ← commit (on_ledger (wallet_of db s user))
    commit (unlock db s e price wallet user key now)

  unfoldable pub purchase : ℕ → ℕ → Option String → ℕ → Action Store PurchaseResult
  purchase episode_id user key now = do
    old ← reads (replayed_purchase episode_id user key)
    unless_repeated old (buy episode_id user key now)
