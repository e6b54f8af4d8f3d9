-- ===== src/Wallet/Sums.antt =====
-- What a wallet holds, read off the other two tables: the Coins left in its lots, and the sums of
-- its ledger rows.
use ai_cinema_be.Common.{ℕ, ◌≡◌, refl, Bool, true, false, List, [], ◌∷◌, arith, ◌==◌, if◌then◌else◌}
use ai_cinema_be.Common.Int.{ℤ, pos, ◌+ℤ◌, neg, ◌≤ℤ◌, int_laws}
use ai_cinema_be.Common.Lists.{All, sum_of}
use ai_cinema_be.Wallet.Rows.{CoinLot, CoinTransaction}
use ai_cinema_be.Wallet.Lots.{LotDebit, bonus_of}

-- An amount that counts only under a condition.
abbrev pub share : Bool → ℤ → ℤ
share b x = if b then x else pos 0

pub share_zero : (b : Bool) → share b (pos 0) ≡ pos 0
share_zero true = refl
share_zero false = refl

pub share_add : (b : Bool) (x y : ℤ) → share b (x +ℤ y) ≡ share b x +ℤ share b y
share_add true x y = refl
share_add false x y = omega int_laws

pub share-neg : (b : Bool) (x : ℤ) → share b (neg x) ≡ neg (share b x)
share-neg true x = refl
share-neg false x = omega int_laws

abbrev pub lot_share : ℕ → CoinLot → ℤ
lot_share w lot = share (lot.wallet_id == w) lot.remaining_amount

-- The Coins left in the lots of a wallet, spendable or not.
abbrev pub bonus_total : ℕ → List CoinLot → ℤ
bonus_total w = sum_of (lot_share w)

abbrev pub main_sum : ℕ → List CoinTransaction → ℤ
main_sum w = sum_of (λ t. share (t.wallet_id == w) t.main_amount)

abbrev pub bonus_sum : ℕ → List CoinTransaction → ℤ
bonus_sum w = sum_of (λ t. share (t.wallet_id == w) t.bonus_amount)

abbrev pub debited : List LotDebit → ℤ
debited = sum_of (λ d. d.amount)

-- The lot holds no debt of Coins.
abbrev pub IsNonneg : CoinLot → Type 0
IsNonneg lot = pos 0 ≤ℤ lot.remaining_amount

pub bonus_of-nonneg : (lots : List CoinLot) → All IsNonneg lots → pos 0 ≤ℤ bonus_of lots
bonus_of-nonneg [] h = omega arith
bonus_of-nonneg (lot ∷ lots) (h, hs) = omega (int_laws, bonus_of-nonneg lots hs)
