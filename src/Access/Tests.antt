-- ===== src/Access/Tests.antt =====
-- The theorems on access at a catalog of one movie with a paid episode.
use mathlib.Core.Option
use ai_cinema_be.Wallet.Sample.{sample_db, sample_settings, sample_ledger}
use ai_cinema_be.Wallet.Rows.{
  CoinEntryType, CoinTransaction, wallet_has_id, lot_has_id, transaction_has_id,
}
use ai_cinema_be.Access.Rows.{
  published_episode, AccessSource, PurchaseResult, Movie, Episode, Store, movie_has_id,
  episode_has_id, plan_has_id, MovieStatus, EpisodeStatus,
}
use ai_cinema_be.Access.Decision.{
  decide, cheapest_plan_price, latest, refusal, NextAction, refused, by_right, running_plan,
  AccessMethod, ActorType, right_of, or_refused, AccessSourceName, for_member, AccessDecision, Base,
  decide_on,
}
use ai_cinema_be.Common.Transaction.{err, ok, Result}
use ai_cinema_be.Access.Episodes.Purchase.{unless_repeated, buy, purchase}
use ai_cinema_be.Common.{arith, refl, true, sym, ap, ◌≡◌, [], false, none, some, ◌∷◌}
use ai_cinema_be.Common.Int.{neg, max_ℤ, min_ℤ, ◌-ℤ◌, ◌+ℤ◌, pos}
use ai_cinema_be.Common.Table.{some_eq, find_row}
use ai_cinema_be.Access.Episodes.{
  access_paid_by, create_access, is_owned, unlock, replayed_purchase,
}
use ai_cinema_be.Wallet.Members.{
  planned_split, afford, affordability, wallet_of_user, or_new, wallet_of,
}
use ai_cinema_be.Wallet.Spend.{
  movement_of, bonus_after_debits, lot_rows, debit_row, first_id, write_entries, unless_replayed,
  replayed, pay_from, debit, spend,
}
use ai_cinema_be.Wallet.Lots.{
  bump_wallet, find_by_key, create_entry, create_entries, consume_lots, take_lots, spendable_lots,
  locked, spendable_bonus,
}
use ai_cinema_be.Access.Decision.Laws.{decide_on-not_owned}
use ai_cinema_be.Common.Errors.{access_already_owned, conflict}
use ai_cinema_be.Access.Episodes.Rights.{purchase-Bought, Bought}
use ai_cinema_be.Access.Decision.Bought.{decide-purchase}
use ai_cinema_be.Access.Episodes.Twice.{purchase_twice}
use ai_cinema_be.Access.Episodes.Foreign.{Unpaid, purchase_foreign_key}

abbrev sample_movie : Movie
sample_movie = record { id = 1; status = MovieStatus.in_production; series_coin_price = none }

abbrev sample_episode : Episode
sample_episode = record {
  id = 5;
  movie_id = 1;
  episode_number = 3;
  status = EpisodeStatus.published;
  coin_price = some (pos 15);
}

-- The user 7 has 10 main and 10 bonus Coins.
abbrev sample_store : Store
sample_store = record {
  ledger = sample_ledger;
  movies = sample_movie ∷ [];
  episodes = sample_episode ∷ [];
  episode_accesses = [];
  series_accesses = [];
  subscriptions = [];
  plans = [];
  prices = [];
  cycles = [];
  audit_log = [];
}

abbrev bought : Result PurchaseResult × Store
bought = purchase sample_db sample_settings 5 7 (some "k") 100 sample_store

abbrev sample_base : Base
sample_base = record {
  episode_id = 5;
  movie_id = 1;
  required = record {
    coin_price = pos 15;
    is_free_starter = false;
    series_coin_price = none;
    series_owned = none;
    gap = none;
  };
}

-- The answer of a handler that returned.
abbrev answer : Result PurchaseResult → PurchaseResult → PurchaseResult
answer (ok a) d = a
answer (err e) d = d

abbrev no_answer : PurchaseResult
no_answer = record {
  episode_id = none;
  movie_id = none;
  paid_coins = pos 0;
  charged = record { main_coins = pos 0; bonus_coins = pos 0 };
  main_balance = pos 0;
  bonus_balance = pos 0;
  source = AccessSource.admin_grant;
  granted_at = 0;
  access_granted = false;
  idempotent = false;
  unlocked_episodes = none;
}

abbrev refused_answer : AccessDecision
refused_answer = record {
  episode_id = 5;
  movie_id = 1;
  access_granted = false;
  source = AccessSourceName.no_source;
  actor_type = ActorType.member;
  plan_code = none;
  access_methods = AccessMethod.unlock_episode ∷ [];
  required = record {
    coin_price = pos 15;
    is_free_starter = false;
    series_coin_price = none;
    series_owned = some false;
    gap = some (record {
      monthly_plan_coin_price = none;
      main_balance = pos 10;
      bonus_balance = pos 10;
      enough_coins = true;
      missing_coins = pos 0;
      enough_for_plan = false;
    });
  };
  next_action = NextAction.unlock_episode;
}

-- The movie of an episode of the sample.
listed :
    (e : Episode)
    → some sample_episode ≡ some e
    → find_row e.movie_id sample_store.movies ≡ some sample_movie
listed e h = ap (λ (x : Episode). find_row x.movie_id sample_store.movies) (sym (some_eq h))

purchase-Bought_example :
    Bought sample_db sample_settings 5 7
      (some "k")
      100
      sample_store
      (answer bought.0 no_answer)
      bought.1
unfolding purchase buy unless_repeated replayed_purchase Option.bind published_episode unlock
    is_owned create_access wallet_of or_new wallet_of_user spend debit pay_from replayed
    unless_replayed locked spendable_lots take_lots consume_lots write_entries create_entries
    create_entry find_by_key first_id bump_wallet debit_row lot_rows bonus_after_debits ◌+ℤ◌ ◌-ℤ◌
    neg min_ℤ
purchase-Bought_example =
    purchase-Bought sample_db sample_settings 5 7 (some "k") 100 sample_store refl refl

purchase_twice_example :
    purchase sample_db sample_settings 5 7 none 200 bought.1
    ≡ (err (conflict access_already_owned), bought.1)
unfolding purchase buy unless_repeated replayed_purchase Option.bind published_episode unlock
    is_owned create_access wallet_of or_new wallet_of_user spend debit pay_from replayed
    unless_replayed locked spendable_lots take_lots consume_lots write_entries create_entries
    create_entry find_by_key first_id bump_wallet debit_row lot_rows bonus_after_debits ◌+ℤ◌ ◌-ℤ◌
    neg min_ℤ
purchase_twice_example =
    purchase_twice sample_db sample_settings 5 7 (some "k") 100 sample_store 200
      ((omega arith, tt), (tt, tt)) refl refl

decide-purchase_example :
    (d : AccessDecision) × (decide sample_db sample_settings 5 (some 7) 200 bought.1
      ≡ (ok d, bought.1))
    × (d.access_granted ≡ true)
unfolding purchase buy unless_repeated replayed_purchase Option.bind published_episode unlock
    is_owned create_access wallet_of or_new wallet_of_user spend debit pay_from replayed
    unless_replayed locked spendable_lots take_lots consume_lots write_entries create_entries
    create_entry find_by_key first_id bump_wallet debit_row lot_rows bonus_after_debits ◌+ℤ◌ ◌-ℤ◌
    neg min_ℤ
decide-purchase_example =
    decide-purchase sample_db sample_settings 5 7 (some "k") 100 sample_store 200
      (λ e h. (sample_movie, listed e h)) refl refl

decide_on-not_owned_example : refused_answer.access_granted ≡ false
unfolding decide_on for_member or_refused right_of running_plan by_right refused refusal is_owned
    Option.bind latest cheapest_plan_price affordability afford planned_split wallet_of or_new
    wallet_of_user spendable_bonus ◌+ℤ◌ ◌-ℤ◌ min_ℤ max_ℤ
decide_on-not_owned_example =
    decide_on-not_owned sample_db sample_settings sample_base 7 100 sample_store
      {d = refused_answer} {after = sample_store} refl refl

-- A ledger row under the key "k" that paid for something else.
abbrev keyed_row : CoinTransaction
keyed_row = record {
  id = 30;
  entry = record {
    wallet_id = 1;
    entry_type = CoinEntryType.series_purchase;
    main_amount = pos 0;
    bonus_amount = pos 0;
    rate_vnd = 1000;
    lot_id = none;
    reference_type = none;
    reference_id = none;
    reverses_id = none;
    idempotency_key = some "k";
    main_balance_after = pos 10;
    bonus_balance_after = pos 10;
    created_by_id = none;
  };
}

abbrev keyed_store : Store
keyed_store = record sample_store {
  ledger = record sample_ledger { transactions = keyed_row ∷ sample_ledger.transactions };
}

purchase_foreign_key_example :
    Unpaid sample_db sample_settings 5 7 keyed_store
      (purchase sample_db sample_settings 5 7 (some "k") 100 keyed_store).1
unfolding purchase buy unless_repeated replayed_purchase Option.bind published_episode unlock
    is_owned create_access wallet_of or_new wallet_of_user spend replayed access_paid_by
    unless_replayed find_by_key movement_of neg
purchase_foreign_key_example =
    purchase_foreign_key sample_db sample_settings 5 7 (some "k") 100 keyed_store keyed_row refl
      refl refl
