-- ===== src/Access/Episodes/Twice.antt =====
-- The episode after a purchase, and a second request for it.
use mathlib.Core.Option
use ai_cinema_be.Access.Episodes.Purchase.{purchase, is_free, buy}
use ai_cinema_be.Access.Rows.{on_ledger, published_episode, PurchaseResult, Store, movie_has_id}
use ai_cinema_be.Wallet.Rows.{
  CoinMovement, Ledger, CoinWallet, SpendRequest, Database, wallet_has_id, lot_has_id,
}
use ai_cinema_be.Wallet.Members.{wallet_of, new_wallet, wallet_of_user, or_new}
use ai_cinema_be.Common.{
  not, ap, ◌∙◌, [], inr, inl, sym, Bool-cases, subst, refl, Option-cases, ◌∷◌, none, some, arith,
  String, true, ◌≡◌, Option, List, ◌==◌, ℕ,
}
use ai_cinema_be.Common.Int.{ℤ}
use ai_cinema_be.Settings.{PlatformSetting}
use ai_cinema_be.Common.Transaction.{bind-require-false, Result, err, ok_snd, ok}
use ai_cinema_be.Common.Table.{IsUnique, update_row}
use ai_cinema_be.Access.Episodes.Rights.{purchase-Bought, purchase_new, Bought}
use ai_cinema_be.Wallet.Lots.{set_balances}
use ai_cinema_be.Wallet.Spend.{replayed, spend}
use ai_cinema_be.Access.Episodes.{replayed_purchase, unlock, is_owned}
use ai_cinema_be.Wallet.Members.Laws.{wallet_of_old, wallet_of_found}
use ai_cinema_be.Common.Errors.{access_already_owned, conflict}
use ai_cinema_be.Wallet.Spend.Debit.{debit-Paid}
use ai_cinema_be.Wallet.Spend.Results.{spend_old, spend_new}
use ai_cinema_be.Common.Action.{next-requires, next-or_fail, commit, next}

pub ==-refl : (n : ℕ) → (n == n) ≡ true
==-refl n = ground arith

pub wallet_of_user-update :
    (user w : ℕ) (main bonus : ℤ) (ws : List CoinWallet) (x : CoinWallet)
    → wallet_of_user user ws ≡ some x
    → (y : CoinWallet) × (wallet_of_user user (update_row w (set_balances main bonus) ws) ≡ some y)
unfolding wallet_of_user
wallet_of_user-update user w main bonus [] x h = cc
wallet_of_user-update user w main bonus (v ∷ ws) x h = elim (Bool-cases (v.user_id == user)) [
  | inl own ↦ elim (Bool-cases (v.id == w)) [
    | inl here ↦ (set_balances main bonus v, rw (here, own) refl)
    | inr away ↦ (v, rw (away, own) refl)
  ]
  | inr other ↦ elim (Bool-cases (v.id == w)) [
    | inl here ↦ (x, rw (here, other) (rw other at h))
    | inr away ↦
        let (y, e) = wallet_of_user-update user w main bonus ws x (rw other at h) in
        (y, rw (away, other) e)
  ]
]

-- A payment takes no wallet away from anyone.
pub spend-wallet_of_user :
    (db : Database) (s : PlatformSetting) (w : ℕ) (r : SpendRequest) (now user : ℕ) (l : Ledger)
    (x : CoinWallet) {m : CoinMovement} {after : Ledger}
    → IsUnique l.lots
    → wallet_of_user user l.wallets ≡ some x
    → spend db s w r now l ≡ ok (m, after)
    → (y : CoinWallet) × (wallet_of_user user after.wallets ≡ some y)
spend-wallet_of_user db s w r now user l x u own h =
    elim (Option-cases (replayed r.idempotency_key l)) [
      | inl new ↦
          let paid = debit-Paid db s w r now l u (sym (spend_new db s w now l r new) ∙ h) in
          let (y, e) = wallet_of_user-update user w _ _ l.wallets x own in
          (y, ap (wallet_of_user user) paid.moved.written ∙ e)
      | inr (entry, old) ↦ (
        x,
        ap (λ (z : Ledger). wallet_of_user user z.wallets)
              (sym (ok_snd (sym (spend_old db s w now l r entry old) ∙ h)))
            ∙ own,
      )
    ]

or_new-lots :
    (db : Database) (s : PlatformSetting) (o : Option CoinWallet) (user : ℕ) (l : Ledger)
    {w : CoinWallet} {after : Ledger}
    → or_new db s o user l ≡ ok (w, after)
    → after.lots ≡ l.lots
unfolding or_new new_wallet
or_new-lots db s (some x) user l h = rw (← ok_snd h) refl
or_new-lots db s none user l h = rw (← ok_snd h) refl

module _ (db : Database) (s : PlatformSetting) (episode_id user : ℕ) (key : Option String) (now : ℕ)
    (st : Store) (r : PurchaseResult) (after : Store)
    (b : Bought db s episode_id user key now st r after) where
  -- The buyer owns the episode afterwards.
  pub Bought-is_owned : is_owned b.episode.id b.episode.movie_id user after ≡ true
  unfolding is_owned
  Bought-is_owned = rw b.unlocked.written (rw (==-refl user, ==-refl b.episode.id) refl)

  pub Bought-published : published_episode episode_id after ≡ some b.episode
  unfolding published_episode
  Bought-published = rw b.unlocked.written b.published

  Bought-wallet :
      IsUnique st.ledger.lots
      → (y : CoinWallet) × (wallet_of_user user after.ledger.wallets ≡ some y)
  unfolding wallet_of
  Bought-wallet u =
      let own = wallet_of_found db s user now st.ledger b.own_wallet in
      let lots =
        or_new-lots db s (wallet_of_user user st.ledger.wallets) user st.ledger b.own_wallet in
      let (y, e) =
        spend-wallet_of_user db s b.wallet.id _ now user b.opened b.wallet
          (subst IsUnique (sym lots) u) own b.unlocked.paid in
      (y, rw b.unlocked.written e)

  -- The steps of a second purchase.
  no_wallet_opened :
      (later : ℕ) (y : CoinWallet)
      → wallet_of_user user after.ledger.wallets ≡ some y
      → commit (on_ledger (wallet_of db s user)) after ≡ (ok y, after)
  no_wallet_opened later y own = committed (wallet_of_old db s user later after.ledger y own)
    where
      committed :
          {x : Result (CoinWallet × Ledger)}
          → x ≡ ok (y, after.ledger)
          → commit (on_ledger (λ (_ : Ledger). x)) after ≡ (ok y, after)
      committed e = rw e refl

  not_sold :
      (later : ℕ) (y : CoinWallet)
      → unlock db s b.episode b.price y user none later after ≡ err (conflict access_already_owned)
  unfolding unlock
  not_sold later y =
      bind-require-false (not (is_owned b.episode.id b.episode.movie_id user after)) _ after _
        (ap not Bought-is_owned)

  sold_once :
      (later : ℕ) (y : CoinWallet)
      → commit (unlock db s b.episode b.price y user none later) after
        ≡ (err (conflict access_already_owned), after)
  sold_once later y = ap (λ x. commit (λ (_ : Store). x) after) (not_sold later y)

  pub buy_again :
      (later : ℕ)
      → IsUnique st.ledger.lots
      → buy db s episode_id user none later after ≡ (err (conflict access_already_owned), after)
  unfolding buy
  buy_again later u =
      let (y, own) = Bought-wallet u in
      next-or_fail (published_episode episode_id after) _ after _ Bought-published
      ∙ (next-or_fail b.episode.coin_price _ after _ b.priced
          ∙ (next-requires (not (is_free db s b.episode b.price)) _ after _ (ap not b.not_free)
              ∙ (ap (λ x. next x (λ w. commit (unlock db s b.episode b.price w user none later)))
                    (no_wallet_opened later y own)
                  ∙ sold_once later y)))

module _ (db : Database) (s : PlatformSetting) (episode_id user : ℕ) (key : Option String) (now : ℕ)
    (st : Store) where
  replayed_purchase-none : (st' : Store) → replayed_purchase episode_id user none st' ≡ none
  unfolding replayed_purchase replayed Option.bind
  replayed_purchase-none st' = refl

  -- Where lot ids are unique, after a new purchase has gone through, a second request for the same
  -- episode without a key is refused as already owned, at any time, and changes nothing.
  pub purchase_twice :
      (later : ℕ) {r : PurchaseResult} {after : Store}
      → IsUnique st.ledger.lots
      → replayed_purchase episode_id user key st ≡ none
      → purchase db s episode_id user key now st ≡ (ok r, after)
      → purchase db s episode_id user none later after
        ≡ (err (conflict access_already_owned), after)
  purchase_twice later {r = r} {after = after} u new h =
      purchase_new db s episode_id user none later after (replayed_purchase-none after)
      ∙ buy_again db s episode_id user key now st r after
          (purchase-Bought db s episode_id user key now st new h) later u
