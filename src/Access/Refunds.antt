-- ===== src/Access/Refunds.antt =====
-- entitlement.service.ts: the refund that follows a take-down. The library list only reads and is
-- left out, as are the notifications; an audit row keeps what the other rows of the log keep.
use ai_cinema_be.Common.{
  ℕ, Bool, true, false, ◌&&◌, Option, none, some, List, [], ◌∷◌, if◌then◌else◌, ◌==◌,
}
use ai_cinema_be.Common.Int.{ℤ, pos, leb_ℤ}
use ai_cinema_be.Common.Lists.{keep, length}
use ai_cinema_be.Common.Transaction.{or_throw, Tx, pure, gets, modify, ◌>>=◌, ◌>>◌}
use ai_cinema_be.Access.Rows.{
  episode_access_revoked, series_access_revoked, on_ledger, is_none, EpisodeAccess, SeriesAccess,
  Store, AccessSource, episode_access_has_id, series_access_has_id, episode_has_id,
}
use ai_cinema_be.Wallet.Rows.{
  episode_access, series_access, CreditRequest, Database, CoinReferenceType, CoinEntryType,
  CoinLotSource,
}
use ai_cinema_be.Settings.{PlatformSetting}
use ai_cinema_be.Wallet.Members.{wallet_of}
use ai_cinema_be.Common.Table.{find_row, update_row}
use ai_cinema_be.Wallet.Spend.{credit}
use ai_cinema_be.Common.Errors.{crash}

abbrev pub is_episode_purchase : AccessSource → Bool
is_episode_purchase AccessSource.episode_purchase = true
is_episode_purchase _ = false

abbrev pub is_series_purchase : AccessSource → Bool
is_series_purchase AccessSource.series_purchase = true
is_series_purchase _ = false

-- The `where` of the two reads of what is due.
abbrev pub is_refundable : ℕ → EpisodeAccess → Bool
is_refundable episode_id a =
    a.episode_id == episode_id && (is_none a.revoked_at && is_episode_purchase a.source)

abbrev pub is_series_refundable : ℕ → SeriesAccess → Bool
is_series_refundable movie_id a =
    a.movie_id == movie_id && (is_none a.revoked_at && is_series_purchase a.source)

-- The credit of a refund: main Coins, pointing back at the purchase.
abbrev pub refund_request : CoinReferenceType → ℕ → ℤ → Option ℕ → CreditRequest
refund_request kind access_id coins transaction = record {
  entry_type = CoinEntryType.refund;
  main_amount = some coins;
  bonus_amount = none;
  lot_source = CoinLotSource.refund;
  expires_in_days = none;
  lot_id = none;
  rate_vnd = none;
  reference_type = some kind;
  reference_id = some access_id;
  idempotency_key = none;
  created_by_id = none;
  reverses_id = transaction;
}

module _ (db : Database) (s : PlatformSetting) where
  -- `refund`: the ledger entry that paid, none when nothing was paid.
  unfoldable pub refund : CoinReferenceType → ℕ → ℕ → ℤ → Option ℕ → ℕ → Tx Store (Option ℕ)
  refund kind user access_id coins transaction now = if leb_ℤ coins (pos 0) then pure none else do
    wallet ← on_ledger (wallet_of db s user)
    movement ←
        on_ledger (credit db s wallet.id (refund_request kind access_id coins transaction) now)
    pure (some movement.transaction_id)

  unfoldable pub refund_episode : EpisodeAccess → ℕ → Tx Store (Unit {0})
  refund_episode a now = do
    found ← gets (λ st. find_row a.episode_id st.episodes)
    e ← or_throw found crash
    refund episode_access a.user_id a.id a.paid_coins a.coin_transaction_id now
    modify (λ st. record st {
      episode_accesses =
          update_row a.id (λ (x : EpisodeAccess). record x { revoked_at = some now })
            st.episode_accesses;
      audit_log =
          record {
            action = episode_access_revoked;
            entity_id = a.id;
            movie_id = some e.movie_id;
            actor_id = none;
          }
          ∷ st.audit_log;
    })

  unfoldable pub refund_series : SeriesAccess → ℕ → Tx Store (Unit {0})
  refund_series a now = do
    refund series_access a.user_id a.id a.paid_coins a.coin_transaction_id now
    modify (λ st. record st {
      series_accesses =
          update_row a.id (λ (x : SeriesAccess). record x { revoked_at = some now })
            st.series_accesses;
      audit_log =
          record {
            action = series_access_revoked;
            entity_id = a.id;
            movie_id = some a.movie_id;
            actor_id = none;
          }
          ∷ st.audit_log;
    })

  -- The loops over what is due.
  unfoldable pub refund_episodes : List EpisodeAccess → ℕ → Tx Store (Unit {0})
  refund_episodes [] now = pure tt
  refund_episodes (a ∷ due) now = refund_episode a now >> refund_episodes due now

  unfoldable pub refund_all_series : List SeriesAccess → ℕ → Tx Store (Unit {0})
  refund_all_series [] now = pure tt
  refund_all_series (a ∷ due) now = refund_series a now >> refund_all_series due now

  unfoldable pub refund_episode_removal : ℕ → ℕ → Tx Store ℕ
  refund_episode_removal episode_id now = do
    due ← gets (λ st. keep (is_refundable episode_id) st.episode_accesses)
    refund_episodes due now
    pure (length due)

  unfoldable pub refund_series_removal : ℕ → ℕ → Tx Store ℕ
  refund_series_removal movie_id now = do
    due ← gets (λ st. keep (is_series_refundable movie_id) st.series_accesses)
    refund_all_series due now
    pure (length due)
