-- ===== src/Access/Episodes/Laws.antt =====
-- What the transaction of a purchase does when it goes through.
use ai_cinema_be.Common.Transaction.{
  ok_snd, ok_fst, err, Result, ok, Tx, bind-eq-ok, bind-require-eq-ok,
}
use ai_cinema_be.Access.Rows.{
  episode_access_granted, AccessSource, PurchaseResult, EpisodeAccess, Episode, on_ledger, Store,
}
use ai_cinema_be.Wallet.Rows.{CoinMovement, CoinWallet, Ledger, Database}
use ai_cinema_be.Settings.{PlatformSetting}
use ai_cinema_be.Common.{
  not-true, refl, ◌∙◌, sym, ◌∷◌, none, false, some, not, map, String, Option, ℕ, ◌≡◌,
}
use ai_cinema_be.Common.Int.{ℤ}
use ai_cinema_be.Access.Episodes.{paid_by, is_owned, spend_request, create_access, unlock}
use ai_cinema_be.Wallet.Spend.{spend}
use ai_cinema_be.Common.Lists.{any}

pub on_ledger_ok :
    {A : Type 0} (m : Tx Ledger A) (st : Store) {a : A} {after : Store}
    → on_ledger m st ≡ ok (a, after)
    → (l : Ledger) × (m st.ledger ≡ ok (a, l)) × (after ≡ record st { ledger = l })
on_ledger_ok {A = A} m st {a = a} {after = after} h = lifted (m st.ledger) h
  where
    lifted :
        (r : Result (A × Ledger))
        → elim r as (λ _. Result (A × Store)) [
          | ok p ↦ ok (p.0, record st { ledger = p.1 })
          | err e ↦ err e
        ]
          ≡ ok (a, after)
        → (l : Ledger) × (r ≡ ok (a, l)) × (after ≡ record st { ledger = l })
    lifted (ok (b, l)) e = (l, rw (← ok_fst e) refl, sym (ok_snd e))
    lifted (err x) e = cc

module _ (db : Database) (s : PlatformSetting) (e : Episode) (price : ℤ) (wallet : CoinWallet)
    (user : ℕ) (key : Option String) (now : ℕ) (st : Store) where
  abbrev pub bought_row : ℕ → EpisodeAccess
  bought_row transaction = record {
    id = db.fresh_id (map (λ (a : EpisodeAccess). a.id) st.episode_accesses);
    user_id = user;
    episode_id = e.id;
    source = AccessSource.episode_purchase;
    paid_coins = price;
    rate_vnd = s.coin_rate_vnd;
    coin_transaction_id = some transaction;
    granted_at = now;
    revoked_at = none;
  }

  create_access_ok :
      (transaction : ℕ) {a : EpisodeAccess} {after : Store}
      → create_access db s e price user transaction now st ≡ ok (a, after)
      → (a ≡ bought_row transaction)
        × (after ≡ record st { episode_accesses = bought_row transaction ∷ st.episode_accesses })
  unfolding create_access
  create_access_ok transaction h =
      let (fresh, h₁) =
        bind-require-eq-ok
          (not (
            any (λ (a : EpisodeAccess). paid_by transaction a.coin_transaction_id)
              st.episode_accesses))
          _ st _ h in
      (sym (ok_fst h₁), sym (ok_snd h₁))

  -- The whole effect of a purchase: a payment and the right that it bought, and nothing else.
  pub record Unlocked (r : PurchaseResult) (after : Store) : Type 0 where
    pub movement : CoinMovement
    pub ledger : Ledger
    pub paid :
        spend db s wallet.id (spend_request key s.coin_rate_vnd price) now st.ledger
        ≡ ok (movement, ledger)
    pub not_owned : is_owned e.id e.movie_id user st ≡ false
    pub written : after ≡ record st {
      ledger = ledger;
      episode_accesses = bought_row movement.transaction_id ∷ st.episode_accesses;
      audit_log =
          record {
            action = episode_access_granted;
            entity_id = (bought_row movement.transaction_id).id;
            movie_id = some e.movie_id;
            actor_id = some user;
          }
          ∷ st.audit_log;
    }
    pub charged :
        r.charged ≡ record { main_coins = movement.main_coins; bonus_coins = movement.bonus_coins }
    pub answered : r.paid_coins ≡ price

module _ (db : Database) (s : PlatformSetting) (e : Episode) (price : ℤ) (wallet : CoinWallet)
    (user : ℕ) (key : Option String) (now : ℕ) (st : Store) where
  pub unlock_ok :
      {r : PurchaseResult} {after : Store}
      → unlock db s e price wallet user key now st ≡ ok (r, after)
      → Unlocked db s e price wallet user key now st r after
  unfolding unlock
  unlock_ok h =
      let (free, h₁) = bind-require-eq-ok (not (is_owned e.id e.movie_id user st)) _ st _ h in
      let payment = spend db s wallet.id (spend_request key s.coin_rate_vnd price) now in
      let (m, mid, spent, h₂) = bind-eq-ok (on_ledger payment st) _ h₁ in
      let (l, paid, same) = on_ledger_ok payment st spent in
      let paid_store : Store = record st { ledger = l } in
      let (a, last, created, h₃) =
        bind-eq-ok (create_access db s e price user m.transaction_id now paid_store) _
          (rw same at h₂) in
      let (row, stored) =
        create_access_ok db s e price wallet user key now paid_store m.transaction_id created in
      record {
        movement = m;
        ledger = l;
        paid = paid;
        not_owned = not-true (is_owned e.id e.movie_id user st) free;
        written = sym (ok_snd h₃) ∙ rw (stored, row) refl;
        charged = rw (← ok_fst h₃) refl;
        answered = rw (← ok_fst h₃, row) refl;
      }
