-- ===== src/TopUp/Credited/Opening.antt =====
-- A new order was credited nothing.
use ai_cinema_be.Common.{arith, String, ◌≢◌, ℕ, ◌≡◌, sym, ap, inl, none, ◌∷◌, map, not, ◌==◌}
use ai_cinema_be.Common.Int.{ℤ}
use ai_cinema_be.Common.Lists.{All, any}
use ai_cinema_be.Common.Table.{find_row, find_row-fresh, fresh-All}
use ai_cinema_be.Common.Transaction.{ok, ok_snd, bind-require-eq-ok}
use ai_cinema_be.Settings.{PlatformSetting}
use ai_cinema_be.Wallet.Rows.{Database, CoinWallet}
use ai_cinema_be.TopUp.Rows.{CoinTopUp, Payment, Orders, PaymentProvider, top_up_has_id}
use ai_cinema_be.TopUp.Lookup.{is_attempt}
use ai_cinema_be.TopUp.Opening.{open_order}
use ai_cinema_be.TopUp.Credited.{IsCreditedOnce}

-- A row in front of the table, under an id that is new.
pub new_order-IsCreditedOnce :
    (o : CoinTopUp) (st after : Orders)
    → after.ledger.transactions ≡ st.ledger.transactions
    → after.top_ups ≡ o ∷ st.top_ups
    → All (λ (j : ℕ). o.id ≢ j) (map (λ (x : CoinTopUp). x.id) st.top_ups)
    → IsCreditedOnce st
    → IsCreditedOnce after
new_order-IsCreditedOnce o st after same grown fresh c =
    let none_yet = c.unknown o.id (find_row-fresh o.id st.top_ups fresh) in
    record {
      unique = rw grown (fresh-All o.id st.top_ups fresh, c.unique);
      unknown = λ i h. rw same (c.unknown i (behind i (rw grown at h)));
      orders = rw (same, grown) ((λ t. none_yet, inl none_yet), c.orders);
    }
  where
    behind : (i : ℕ) → find_row i (o ∷ st.top_ups) ≡ none → find_row i st.top_ups ≡ none
    behind i h = ground arith

pub open_order-IsCreditedOnce :
    (db : Database) (s : PlatformSetting) (user : ℕ) (wallet : CoinWallet)
    (provider : PaymentProvider) (amount : ℤ) (txn : String) (now : ℕ) (st : Orders)
    {v : CoinTopUp × Payment} {after : Orders}
    → IsCreditedOnce st
    → open_order db s user wallet provider amount txn now st ≡ ok (v, after)
    → IsCreditedOnce after
unfolding open_order
open_order-IsCreditedOnce db s user wallet provider amount txn now st {after = after} c h =
    let (some_rate, h₁) = bind-require-eq-ok (not (s.coin_rate_vnd == 0)) _ st _ h in
    let (free, h₂) =
      bind-require-eq-ok (not (any (is_attempt provider txn) st.payments)) _ _ _ h₁ in
    new_order-IsCreditedOnce _ st after
      (ap (λ (x : Orders). x.ledger.transactions) (sym (ok_snd h₂)))
      (ap (λ (x : Orders). x.top_ups) (sym (ok_snd h₂))) (db.fresh_id-new _) c
