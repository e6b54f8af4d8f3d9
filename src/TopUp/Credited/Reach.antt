-- ===== src/TopUp/Credited/Reach.antt =====
-- The transactions of the top-ups in any order, whichever request or sweep they belong to.
use ai_cinema_be.Common.{sym, ap, arith, ℕ, ◌≡◌, refl, List, ◌++◌, Option, String}
use ai_cinema_be.Common.Int.{ℤ}
use ai_cinema_be.Common.Lists.{All}
use ai_cinema_be.Common.Transaction.{ok, ok_snd}
use ai_cinema_be.Settings.{PlatformSetting}
use ai_cinema_be.Wallet.Rows.{Database, CoinWallet, CoinTransaction}
use ai_cinema_be.TopUp.Rows.{
  CoinTopUp, Payment, Orders, OrderView, PaymentProvider, FailureReason, TopUpStatus, top_up_has_id,
}
use ai_cinema_be.TopUp.Settlement.{
  SettleRequest, Failure, settle, mark_payment_failed, update_order, order_to,
}
use ai_cinema_be.TopUp.Opening.{open_order}
use ai_cinema_be.TopUp.Expiry.{close_stale, close_order}
use ai_cinema_be.TopUp.Settlement.Laws.{settle_ok}
use ai_cinema_be.TopUp.Credited.{
  IsCreditedOnce, IsElsewhere, MovesOn, elsewhere-IsCreditedOnce, update_order-IsCreditedOnce,
  map_orders-IsCreditedOnce,
}
use ai_cinema_be.TopUp.Credited.Settling.{
  Settled-IsCreditedOnce, mark_payment_failed-IsCreditedOnce, failed-MovesOn,
}
use ai_cinema_be.TopUp.Credited.Opening.{open_order-IsCreditedOnce}

-- One transaction. `elsewhere` is any write that leaves the orders and credits none of them: of
-- attempts, deliveries and wallets, and every other movement of Coins.
pub data Step (db : Database) (s : PlatformSetting) : Orders → Orders → Type 0 where
  opens :
      {st after : Orders} (user : ℕ) (wallet : CoinWallet) (provider : PaymentProvider) (amount : ℤ)
      (txn : String) (now : ℕ) (v : CoinTopUp × Payment)
      → open_order db s user wallet provider amount txn now st ≡ ok (v, after)
      → Step db s st after
  settles :
      {st after : Orders} (r : SettleRequest) (now : ℕ) (v : OrderView)
      → settle db s r now st ≡ ok (v, after)
      → Step db s st after
  fails :
      {st after : Orders} (id : ℕ) (reason : FailureReason) (k : Failure) (u : Unit {0})
      → mark_payment_failed id reason k st ≡ ok (u, after)
      → Step db s st after
  refuses :
      {st after : Orders} (id : ℕ) (reason : Option FailureReason) (u : Unit {0})
      → update_order id (order_to TopUpStatus.failed reason) st ≡ ok (u, after)
      → Step db s st after
  closes : {st : Orders} (stale : List CoinTopUp) → Step db s st (close_stale stale st)
  elsewhere :
      {st after : Orders} (new : List CoinTransaction)
      → after.top_ups ≡ st.top_ups
      → after.ledger.transactions ≡ new ++ st.ledger.transactions
      → All IsElsewhere new
      → Step db s st after

pub data Reach (db : Database) (s : PlatformSetting) : Orders → Orders → Type 0 where
  here : {st : Orders} → Reach db s st st
  next : {st mid after : Orders} → Reach db s st mid → Step db s mid after → Reach db s st after

closed-MovesOn : (stale : List CoinTopUp) → MovesOn (close_order stale)
closed-MovesOn stale = record {
  same_id = λ o. ground arith;
  same_coins = λ o. ground arith;
  not_back = λ o h. ground arith;
}

Step-IsCreditedOnce :
    (db : Database) (s : PlatformSetting) {st after : Orders}
    → Step db s st after
    → IsCreditedOnce st
    → IsCreditedOnce after
unfolding close_stale
Step-IsCreditedOnce db s (opens user wallet provider amount txn now v h) c =
    open_order-IsCreditedOnce db s user wallet provider amount txn now _ c h
Step-IsCreditedOnce db s (settles r now v h) c =
    Settled-IsCreditedOnce db s r now _ _ (settle_ok db s r now _ h) c
Step-IsCreditedOnce db s (fails id reason k u h) c =
    mark_payment_failed-IsCreditedOnce id reason k _ c h
Step-IsCreditedOnce db s (refuses {st = st} {after = after} id reason u h) c =
    update_order-IsCreditedOnce (order_to TopUpStatus.failed reason)
      (failed-MovesOn Failure.failed reason) id st after
      (ap (λ (x : Orders). x.ledger.transactions) (sym (ok_snd h)))
      (ap (λ (x : Orders). x.top_ups) (sym (ok_snd h))) c
Step-IsCreditedOnce db s (closes {st = st} stale) c =
    map_orders-IsCreditedOnce (close_order stale) (closed-MovesOn stale) st _ refl refl c
Step-IsCreditedOnce db s (elsewhere new same grown others) c =
    elsewhere-IsCreditedOnce _ _ new same grown others c

-- Starting from orders that were each credited at most once: under any interleaving of the
-- transactions of requests, deliveries and sweeps, an order that is pending was credited nothing,
-- and every order nothing or exactly its own Coins, once.
pub Reach-IsCreditedOnce :
    (db : Database) (s : PlatformSetting) {st after : Orders}
    → Reach db s st after
    → IsCreditedOnce st
    → IsCreditedOnce after
Reach-IsCreditedOnce db s here c = c
Reach-IsCreditedOnce db s (next past step) c =
    Step-IsCreditedOnce db s step (Reach-IsCreditedOnce db s past c)
