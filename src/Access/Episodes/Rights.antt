-- ===== src/Access/Episodes/Rights.antt =====
-- What a member has paid and may watch after a purchase.
use ai_cinema_be.Common.Action.{
  commit_ok, bind-requires-eq-ok, bind-or_fail-eq-ok, commit, bind-eq-ok,
}
use ai_cinema_be.Access.Episodes.Purchase.{is_free, unless_repeated, buy, purchase}
use ai_cinema_be.Access.Rows.{on_ledger, published_episode, Episode, PurchaseResult, Store}
use ai_cinema_be.Common.Transaction.{ok}
use ai_cinema_be.Common.{
  subst, not-true, not, ◌∙◌, ap, sym, false, none, some, ◌≡◌, String, ℕ, Option,
}
use ai_cinema_be.Wallet.Rows.{Ledger, CoinWallet, Database}
use ai_cinema_be.Common.Errors.{
  access_already_owned, episode_not_priced, episode_not_published, conflict,
}
use ai_cinema_be.Settings.{PlatformSetting}
use ai_cinema_be.Access.Episodes.{unlock, replayed_purchase}
use ai_cinema_be.Common.Int.{ℤ}
use ai_cinema_be.Wallet.Members.{wallet_of}
use ai_cinema_be.Access.Episodes.Laws.{unlock_ok, on_ledger_ok, Unlocked}

module _ (db : Database) (s : PlatformSetting) (episode_id user : ℕ) (key : Option String) (now : ℕ)
    (st : Store) where
  -- What a purchase that was not a repeated request has done.
  pub record Bought (r : PurchaseResult) (after : Store) : Type 0 where
    pub episode : Episode
    pub price : ℤ
    pub wallet : CoinWallet
    pub opened : Ledger
    pub published : published_episode episode_id st ≡ some episode
    pub priced : episode.coin_price ≡ some price
    pub not_free : is_free db s episode price ≡ false
    pub own_wallet : wallet_of db s user st.ledger ≡ ok (wallet, opened)
    pub unlocked :
        Unlocked db s episode price wallet user key now (record st { ledger = opened }) r after

  pub purchase_new :
      replayed_purchase episode_id user key st ≡ none
      → purchase db s episode_id user key now st ≡ buy db s episode_id user key now st
  unfolding purchase unless_repeated
  purchase_new new = ap (λ o. unless_repeated o (buy db s episode_id user key now) st) new

  buy-Bought :
      {r : PurchaseResult} {after : Store}
      → buy db s episode_id user key now st ≡ (ok r, after)
      → Bought r after
  unfolding buy
  buy-Bought {r = r} {after = after} h =
      let (e, published, h₁) =
        bind-or_fail-eq-ok (published_episode episode_id st) (conflict episode_not_published) st _
          h in
      let (price, priced, h₂) =
        bind-or_fail-eq-ok e.coin_price (conflict episode_not_priced) st _ h₁ in
      let (paid, h₃) =
        bind-requires-eq-ok (not (is_free db s e price)) (conflict access_already_owned) st _ h₂ in
      let (wallet, opened, opening, h₄) =
        bind-eq-ok (commit (on_ledger (wallet_of db s user)) st) _ h₃ in
      let (l, made, same) =
        on_ledger_ok (wallet_of db s user) st
          (commit_ok (on_ledger (wallet_of db s user)) st opening) in
      record {
        episode = e;
        price = price;
        wallet = wallet;
        opened = l;
        published = published;
        priced = priced;
        not_free = not-true (is_free db s e price) paid;
        own_wallet = made;
        unlocked =
            unlock_ok db s e price wallet user key now (record st { ledger = l })
              (subst (λ x. unlock db s e price wallet user key now x ≡ ok (r, after)) same
                (commit_ok (unlock db s e price wallet user key now) opened h₄));
      }

  -- When a purchase that is not a repeated request goes through, the episode was published, priced,
  -- not free and not yet owned, `spend` went through for its price on the caller's wallet, one
  -- right and one audit entry were written, and the rest of the store is as it was.
  pub purchase-Bought :
      {r : PurchaseResult} {after : Store}
      → replayed_purchase episode_id user key st ≡ none
      → purchase db s episode_id user key now st ≡ (ok r, after)
      → Bought r after
  purchase-Bought new h = buy-Bought (sym (purchase_new new) ∙ h)
