-- ===== src/Wallet/Lots/Spendable.antt =====
-- The lots that `spendable_lots` returns: lots of the wallet, as they stand in the table, open, not
-- empty and not expired.
use mathlib.Core.List.Permᴰ
use mathlib.Core.List.{Memᴰ}
use ai_cinema_be.Common.{
  false, if◌then◌else◌, refl, sym, subst, List, [], ◌∷◌, Bool, ℕ, ◌<◌, ◌≡◌, true, none, arith,
}
use ai_cinema_be.Common.Int.{pos, ◌≤ℤ◌}
use ai_cinema_be.Common.Lists.{All, All-map, All-perm, keep, keep-All_test, sum_of-perm}
use ai_cinema_be.Common.Table.{IsUnique, IsUnique-perm, keep-found, keep-IsUnique, All-zip}
use ai_cinema_be.Wallet.Rows.{CoinLot, Ledger, Database, lot_has_id}
use ai_cinema_be.Wallet.Lots.{is_spendable, spendable_lots, spendable_bonus, bonus_of}
use ai_cinema_be.Wallet.Sums.{IsNonneg}
use ai_cinema_be.Wallet.Lots.Consume.{IsListed}

-- What the query asks of a lot.
pub record IsSpendable (w now : ℕ) (lot : CoinLot) : Type 0 where
  pub own : lot.wallet_id ≡ w
  pub some_left : pos 1 ≤ℤ lot.remaining_amount
  pub still_open : lot.closed_at ≡ none
  pub not_expired : now < lot.expires_at

is_spendable→IsSpendable :
    (w now : ℕ) (lot : CoinLot) → is_spendable w now lot ≡ true → IsSpendable w now lot
is_spendable→IsSpendable w now lot h = ground arith

IsSpendable→is_spendable :
    (w now : ℕ) (lot : CoinLot) → IsSpendable w now lot → is_spendable w now lot ≡ true
IsSpendable→is_spendable w now lot h =
    rw h.still_open (ground (arith, h.own, h.some_left, h.not_expired))

-- A list, and what is kept of it, by its members.
All-member : (P : CoinLot → Type 0) (x : CoinLot) (xs : List CoinLot) → All P xs → Memᴰ x xs → P x
All-member P x [] h m = elim m [ ]
All-member P x (y ∷ ys) (h, hs) (Memᴰ.head e) = subst P (sym e) h
All-member P x (y ∷ ys) (h, hs) (Memᴰ.tail m) = All-member P x ys hs m

each_listed : (xs : List CoinLot) → All (λ x. Memᴰ x xs) xs
each_listed [] = tt
each_listed (x ∷ xs) =
    (Memᴰ.head refl, All-map (λ y. Memᴰ y xs) _ xs (λ y m. Memᴰ.tail m) (each_listed xs))

head_kept :
    (t : Bool) (x : CoinLot) (kept : List CoinLot)
    → t ≡ true
    → Memᴰ x (if t then x ∷ kept else kept)
head_kept true x kept h = Memᴰ.head refl
head_kept false x kept h = cc

tail_kept :
    (t : Bool) (x y : CoinLot) (kept : List CoinLot)
    → Memᴰ y kept
    → Memᴰ y (if t then x ∷ kept else kept)
tail_kept true x y kept m = Memᴰ.tail m
tail_kept false x y kept m = m

kept_listed :
    (test : CoinLot → Bool) (xs : List CoinLot)
    → All (λ x. test x ≡ true → Memᴰ x (keep test xs)) xs
kept_listed test [] = tt
kept_listed test (x ∷ xs) = (
  head_kept (test x) x (keep test xs),
  All-map _ _ xs (λ y m e. tail_kept (test x) x y (keep test xs) (m e)) (kept_listed test xs),
)

module _ (db : Database) (w now : ℕ) (l : Ledger) where
  reorder :
      (P : CoinLot → Type 0)
      → All P (keep (is_spendable w now) l.lots)
      → All P (spendable_lots db w now l)
  unfolding spendable_lots
  reorder P h = All-perm P (Permᴰ.symm (db.order-perm _)) h

  pub spendable_lots_lem : All (IsSpendable w now) (spendable_lots db w now l)
  spendable_lots_lem =
      reorder _ (All-map _ _ _ (is_spendable→IsSpendable w now) (keep-All_test _ l.lots))

  pub spendable-IsNonneg : All IsNonneg (spendable_lots db w now l)
  spendable-IsNonneg = All-map _ _ _ (λ lot h. omega (arith, h.some_left)) spendable_lots_lem

  pub spendable-IsListed : IsUnique l.lots → All (IsListed w l.lots) (spendable_lots db w now l)
  spendable-IsListed u =
      All-zip _ _ _ _ (λ lot f h. (f, h.own)) (reorder _ (keep-found _ l.lots u)) spendable_lots_lem

  pub spendable-IsUnique : IsUnique l.lots → IsUnique (spendable_lots db w now l)
  unfolding spendable_lots
  spendable-IsUnique u = IsUnique-perm (Permᴰ.symm (db.order-perm _)) (keep-IsUnique _ l.lots u)

  -- The sum that the database makes and the sum over the ordered rows are the same.
  pub bonus_of-spendable : bonus_of (spendable_lots db w now l) ≡ spendable_bonus w now l
  unfolding spendable_lots spendable_bonus
  bonus_of-spendable = sum_of-perm _ (db.order-perm _)

-- The lots that are read to be spent, and the sum that the purchase screens ask for.
pub record Agrees (db : Database) (w now : ℕ) (l : Ledger) : Type 0 where
  pub only : All (IsSpendable w now) (spendable_lots db w now l)
  pub each :
      All (λ (lot : CoinLot). IsSpendable w now lot → Memᴰ lot (spendable_lots db w now l)) l.lots
  pub total : bonus_of (spendable_lots db w now l) ≡ spendable_bonus w now l

-- The lots that a payment reads are exactly the lots of the table that are the wallet's, open, not
-- empty and not expired, and the sum that `spendableBonus` asks the database for, with conditions of
-- its own, is the sum of what those lots hold.
pub spendable_bonus-Agrees : (db : Database) (w now : ℕ) (l : Ledger) → Agrees db w now l
unfolding spendable_lots
spendable_bonus-Agrees db w now l = record {
  only = spendable_lots_lem db w now l;
  each =
      All-map _ _ l.lots
        (λ lot m (h : IsSpendable w now lot).
          All-member (λ x. Memᴰ x (spendable_lots db w now l)) lot _
            (All-perm _ (db.order-perm _) (each_listed (spendable_lots db w now l)))
            (m (IsSpendable→is_spendable w now lot h)))
        (kept_listed (is_spendable w now) l.lots);
  total = bonus_of-spendable db w now l;
}
