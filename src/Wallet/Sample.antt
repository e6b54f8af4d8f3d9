-- ===== src/Wallet/Sample.antt =====
-- A database that meets the assumptions: insertion sort, and the number above all ids. It and a
-- small ledger stand in the examples.
use mathlib.Core.List.{Permᴰ}
use mathlib.Core.List.Permᴰ
use ai_cinema_be.Wallet.Rows.{
  CoinEntryType, CoinLotSource, EntryInput, Ledger, Before, IsSorted, Database, CoinLot,
  wallet_has_id, lot_has_id,
}
use ai_cinema_be.Common.{
  none, refl, ◌<◌, leb, ◌&&◌, inr, ◌==◌, ◌||◌, inl, ◌≢◌, true, suc, ◌+◌, arith, [], Bool-cases, ltb,
  if◌then◌else◌, false, ◌∷◌, ◌≡◌, Bool, ℕ, List,
}
use ai_cinema_be.Common.Lists.{All-perm, All-map, All}
use ai_cinema_be.Common.Int.{pos, ◌+ℤ◌, ℤ}
use ai_cinema_be.Settings.{PlatformSetting}
use ai_cinema_be.Wallet.Consistent.{IsConsistent}

abbrev is_before : CoinLot → CoinLot → Bool
is_before a b =
    ltb a.expires_at b.expires_at || (a.expires_at == b.expires_at && leb a.granted_at b.granted_at)

abbrev place : CoinLot → List CoinLot → List CoinLot
place a [] = a ∷ []
place a (b ∷ l) = let rest = place a l in if is_before a b then a ∷ b ∷ l else b ∷ rest

abbrev sort : List CoinLot → List CoinLot
sort [] = []
sort (a ∷ l) = place a (sort l)

place-perm : (a : CoinLot) (l : List CoinLot) → Permᴰ (place a l) (a ∷ l)
place-perm a [] = Permᴰ.refl (a ∷ [])
place-perm a (b ∷ l) = elim (Bool-cases (is_before a b)) [
  | inl t ↦ rw t (Permᴰ.refl (a ∷ b ∷ l))
  | inr t ↦ rw t (Permᴰ.trans (Permᴰ.cons refl (place-perm a l)) (Permᴰ.swap refl refl))
]

pub sort-perm : (l : List CoinLot) → Permᴰ (sort l) l
sort-perm [] = Permᴰ.nil
sort-perm (a ∷ l) = Permᴰ.trans (place-perm a (sort l)) (Permᴰ.cons refl (sort-perm l))

is_before→Before : (a b : CoinLot) → is_before a b ≡ true → Before a b
is_before→Before a b h = ground arith

not_before→Before : (a b : CoinLot) → is_before a b ≡ false → Before b a
not_before→Before a b h = ground arith

Before-trans : (a b c : CoinLot) → Before a b → Before b c → Before a c
Before-trans a b c p q = ground arith

place-IsSorted : (a : CoinLot) (l : List CoinLot) → IsSorted l → IsSorted (place a l)
place-IsSorted a [] h = (tt, tt)
place-IsSorted a (b ∷ l) (p, h) = elim (Bool-cases (is_before a b)) [
  | inl t ↦
      let ab = is_before→Before a b t in
      rw t ((ab, All-map (Before b) (Before a) l (λ c q. Before-trans a b c ab q) p), (p, h))
  | inr t ↦ rw t (
    All-perm (Before b) (Permᴰ.symm (place-perm a l)) (not_before→Before a b t, p),
    place-IsSorted a l h,
  )
]

pub sort-IsSorted : (l : List CoinLot) → IsSorted (sort l)
sort-IsSorted [] = tt
sort-IsSorted (a ∷ l) = place-IsSorted a (sort l) (sort-IsSorted l)

abbrev above : List ℕ → ℕ
above [] = 1
above (i ∷ is) = suc (i + above is)

lt-above : (is : List ℕ) → All (λ i. i < above is) is
lt-above [] = tt
lt-above (i ∷ is) = (
  omega arith,
  All-map (λ j. j < above is) (λ j. j < above (i ∷ is)) is (λ j h. omega arith) (lt-above is),
)

pub above-new : (is : List ℕ) → All (λ i. above is ≢ i) is
above-new is = All-map (λ i. i < above is) (λ i. above is ≢ i) is (λ i h. omega arith) (lt-above is)

abbrev pub sample_db : Database
sample_db = record {
  order_by_expiry = sort;
  order-perm = sort-perm;
  order-IsSorted = sort-IsSorted;
  fresh_id = above;
  fresh_id-new = above-new;
}

abbrev pub sample_settings : PlatformSetting
sample_settings = record {
  coin_rate_vnd = 1000;
  bonus_coin_expiry_days = 30;
  new_member_bonus_coins = pos 5;
  free_starter_episode_count = 2;
  episode_coin_price_min = pos 1;
  episode_coin_price_max = pos 50;
  coin_top_up_min_vnd = 10_000;
  coin_top_up_max_vnd = 5_000_000;
  subscription_cancel_window_hours = 24;
  plan_renewal_grace_hours = 24;
  token_rate_vnd = 100;
}

abbrev sample_lot : ℕ → ℤ → ℕ → CoinLot
sample_lot id left expires_at = record {
  id = id;
  wallet_id = 1;
  source = CoinLotSource.daily_reward;
  original_amount = left;
  remaining_amount = left;
  granted_at = 0;
  expires_at = expires_at;
  closed_at = none;
}

abbrev sample_entry : ℤ → ℤ → ℤ → ℤ → EntryInput
sample_entry main bonus main_after bonus_after = record {
  wallet_id = 1;
  entry_type = CoinEntryType.adjustment;
  main_amount = main;
  bonus_amount = bonus;
  rate_vnd = 1000;
  lot_id = none;
  reference_type = none;
  reference_id = none;
  reverses_id = none;
  idempotency_key = none;
  main_balance_after = main_after;
  bonus_balance_after = bonus_after;
  created_by_id = none;
}

-- A wallet with 10 main Coins and two lots of bonus Coins, 4 that run out first and 6.
abbrev pub sample_ledger : Ledger
sample_ledger = record {
  wallets =
      record { id = 1; user_id = 7; main_balance = pos 10; bonus_balance = pos 10; version = 3 }
      ∷ record { id = 2; user_id = 8; main_balance = pos 0; bonus_balance = pos 0; version = 0 }
      ∷ [];
  lots = sample_lot 11 (pos 6) 900 ∷ sample_lot 12 (pos 4) 500 ∷ [];
  transactions =
      record { id = 21; entry = sample_entry (pos 10) (pos 0) (pos 10) (pos 0) }
      ∷ record { id = 22; entry = sample_entry (pos 0) (pos 10) (pos 10) (pos 10) }
      ∷ [];
}

pub sample-IsConsistent : IsConsistent sample_ledger
unfolding ◌+ℤ◌
sample-IsConsistent = record {
  unique_wallets = ((omega arith, tt), (tt, tt));
  lots_ok = (((omega arith, tt), (tt, tt)), (omega arith, (omega arith, tt)));
  balanced = (
    record { main_kept = refl; bonus_kept = refl; lots_kept = refl; main_nonneg = omega arith },
    (
      record { main_kept = refl; bonus_kept = refl; lots_kept = refl; main_nonneg = omega arith },
      tt,
    ),
  );
}
