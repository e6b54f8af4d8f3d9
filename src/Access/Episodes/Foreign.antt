-- ===== src/Access/Episodes/Foreign.antt =====
-- A purchase under a key that some ledger row already carries (episode-purchase.service.ts).
use ai_cinema_be.Access.Rows.{PurchaseResult, Episode, Store, published_episode}
use ai_cinema_be.Access.Episodes.{spend_request, replayed_purchase, is_owned}
use ai_cinema_be.Access.Episodes.Purchase.{purchase}
use ai_cinema_be.Access.Episodes.Rights.{purchase-Bought}
use ai_cinema_be.Wallet.Rows.{CoinTransaction, CoinWallet, Ledger, Database}
use ai_cinema_be.Wallet.Members.{wallet_of, or_new, new_wallet, wallet_of_user}
use ai_cinema_be.Settings.{PlatformSetting}
use ai_cinema_be.Common.{
  false, str_eq, refl, ap, ◌∙◌, sym, true, some, none, ◌≡◌, String, Option, ℕ,
}
use ai_cinema_be.Wallet.Spend.{replayed}
use ai_cinema_be.Wallet.Lots.{find_by_key}
use ai_cinema_be.Common.Transaction.{ok_snd, ok}
use ai_cinema_be.Wallet.Spend.Results.{spend_old}
use ai_cinema_be.Access.Episodes.Twice.{==-refl}

-- What a purchase does whose key is another movement's: the right is there, and no Coins have moved.
-- At most an empty wallet was opened.
pub record Unpaid (db : Database) (s : PlatformSetting) (episode_id user : ℕ) (st after : Store)
    : Type 0 where
  pub episode : Episode
  pub published : published_episode episode_id st ≡ some episode
  pub owned : is_owned episode.id episode.movie_id user after ≡ true
  pub wallet : CoinWallet
  pub only_opened : wallet_of db s user st.ledger ≡ ok (wallet, after.ledger)
  pub same_transactions : after.ledger.transactions ≡ st.ledger.transactions
  pub same_lots : after.ledger.lots ≡ st.ledger.lots

or_new-rows :
    (db : Database) (s : PlatformSetting) (o : Option CoinWallet) (user : ℕ) (l : Ledger)
    {w : CoinWallet} {after : Ledger}
    → or_new db s o user l ≡ ok (w, after)
    → (after.transactions ≡ l.transactions) × (after.lots ≡ l.lots)
unfolding or_new new_wallet
or_new-rows db s (some x) user l h = rw (← ok_snd h) (refl, refl)
or_new-rows db s none user l h = rw (← ok_snd h) (refl, refl)

replayed-transactions :
    (key : Option String) (l after : Ledger)
    → after.transactions ≡ l.transactions
    → replayed key after ≡ replayed key l
unfolding replayed
replayed-transactions none l after h = refl
replayed-transactions (some k) l after h =
    ap
      (λ ts. elim (str_eq k "") as (λ _. Option CoinTransaction) [
        | true ↦ none
        | false ↦ find_by_key (some k) ts
      ])
      h

-- Where the key belongs to a row of the ledger, whatever that row paid, and the request is not taken
-- for a repeated one, since no access of the caller to that episode was paid by that row, a purchase
-- that goes through moves no Coins, and the buyer owns the episode all the same.
pub purchase_foreign_key :
    (db : Database) (s : PlatformSetting) (episode_id user : ℕ) (key : Option String) (now : ℕ)
    (st : Store) (entry : CoinTransaction) {r : PurchaseResult} {after : Store}
    → replayed key st.ledger ≡ some entry
    → replayed_purchase episode_id user key st ≡ none
    → purchase db s episode_id user key now st ≡ (ok r, after)
    → Unpaid db s episode_id user st after
unfolding is_owned wallet_of
purchase_foreign_key db s episode_id user key now st entry {after = after} known new h =
    let b = purchase-Bought db s episode_id user key now st new h in
    let (rows, lots) =
      or_new-rows db s (wallet_of_user user st.ledger.wallets) user st.ledger b.own_wallet in
    let known_still = replayed-transactions key st.ledger b.opened rows ∙ known in
    let kept =
      ap (λ (x : Store). x.ledger) b.unlocked.written
      ∙ sym (
          ok_snd (
            sym (
              spend_old db s b.wallet.id now b.opened (spend_request key s.coin_rate_vnd b.price)
                entry known_still)
            ∙ b.unlocked.paid)) in
    record {
      episode = b.episode;
      published = b.published;
      owned = rw b.unlocked.written (rw (==-refl user, ==-refl b.episode.id) refl);
      wallet = b.wallet;
      only_opened = b.own_wallet ∙ ap (λ x. ok (b.wallet, x)) (sym kept);
      same_transactions = ap (λ (x : Ledger). x.transactions) kept ∙ rows;
      same_lots = ap (λ (x : Ledger). x.lots) kept ∙ lots;
    }
