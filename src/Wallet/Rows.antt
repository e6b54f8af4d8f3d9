-- ===== src/Wallet/Rows.antt =====
-- The tables of the Coin wallet (prisma/schema/coin_wallet.prisma, coin_lot.prisma,
-- coin_transaction.prisma) and the requests of coin-wallet.types.ts. A uuid is a number, an instant
-- its milliseconds. Left out are the columns for display and bookkeeping alone: `description`,
-- `createdAt`, `updatedAt`.
use mathlib.Core.List.{Permᴰ}
use ai_cinema_be.Common.{ℕ, ◌≡◌, ◌≢◌, ◌⊎◌, ◌≤◌, ◌<◌, String, Option, List, [], ◌∷◌}
use ai_cinema_be.Common.Int.{ℤ}
use ai_cinema_be.Common.Lists.{All}
use ai_cinema_be.Common.Table.{HasId}

pub data CoinLotSource : Type 0 where
  top_up_promo signup_bonus daily_reward refund adjustment : CoinLotSource

pub data CoinEntryType : Type 0 where
  top_up signup_bonus daily_reward episode_purchase series_purchase plan_payment : CoinEntryType
  plan_renewal refund bonus_expiry adjustment : CoinEntryType

pub data CoinReferenceType : Type 0 where
  episode_access series_access subscription_cycle coin_top_up daily_check_in admin :
      CoinReferenceType

pub record CoinWallet : Type 0 where
  pub id : ℕ
  pub user_id : ℕ
  pub main_balance : ℤ
  pub bonus_balance : ℤ
  pub version : ℕ

pub record CoinLot : Type 0 where
  pub id : ℕ
  pub wallet_id : ℕ
  pub source : CoinLotSource
  pub original_amount : ℤ
  pub remaining_amount : ℤ
  pub granted_at : ℕ
  pub expires_at : ℕ
  pub closed_at : Option ℕ

-- `Prisma.CoinTransactionCreateManyInput`
pub record EntryInput : Type 0 where
  pub wallet_id : ℕ
  pub entry_type : CoinEntryType
  pub main_amount : ℤ
  pub bonus_amount : ℤ
  pub rate_vnd : ℕ
  pub lot_id : Option ℕ
  pub reference_type : Option CoinReferenceType
  pub reference_id : Option ℕ
  pub reverses_id : Option ℕ
  pub idempotency_key : Option String
  pub main_balance_after : ℤ
  pub bonus_balance_after : ℤ
  pub created_by_id : Option ℕ

pub record CoinTransaction : Type 0 where
  pub id : ℕ
  pub entry : EntryInput
  pub open entry use *

instance abbrev pub wallet_has_id : HasId CoinWallet
wallet_has_id = record { id_of = λ w. w.id }

instance abbrev pub lot_has_id : HasId CoinLot
lot_has_id = record { id_of = λ l. l.id }

instance abbrev pub transaction_has_id : HasId CoinTransaction
transaction_has_id = record { id_of = λ t. t.id }

-- The three tables that a movement of Coins reads and writes.
pub record Ledger : Type 0 where
  pub wallets : List CoinWallet
  pub lots : List CoinLot
  pub transactions : List CoinTransaction

pub record SpendRequest : Type 0 where
  pub entry_type : CoinEntryType
  pub amount_coins : ℤ
  pub coin_rate_vnd : Option ℕ
  pub reference_type : Option CoinReferenceType
  pub reference_id : Option ℕ
  pub idempotency_key : Option String

pub record CreditRequest : Type 0 where
  pub entry_type : CoinEntryType
  pub main_amount : Option ℤ
  pub bonus_amount : Option ℤ
  pub lot_source : CoinLotSource
  pub expires_in_days : Option ℕ
  pub lot_id : Option ℕ
  pub rate_vnd : Option ℕ
  pub reference_type : Option CoinReferenceType
  pub reference_id : Option ℕ
  pub idempotency_key : Option String
  pub created_by_id : Option ℕ
  pub reverses_id : Option ℕ

pub record AdjustmentRequest : Type 0 where
  pub main_amount : Option ℤ
  pub bonus_amount : Option ℤ
  pub rate_vnd : Option ℕ
  pub idempotency_key : Option String
  pub created_by_id : Option ℕ

pub record CoinMovement : Type 0 where
  pub transaction_id : ℕ
  pub main_coins : ℤ
  pub bonus_coins : ℤ
  pub main_balance : ℤ
  pub bonus_balance : ℤ

-- `a` may stand before `b` under `orderBy: [{ expiresAt: 'asc' }, { grantedAt: 'asc' }]`.
abbrev pub Before : CoinLot → CoinLot → Type 0
Before a b =
    (a.expires_at < b.expires_at) ⊎ (a.expires_at ≡ b.expires_at) × (a.granted_at ≤ b.granted_at)

abbrev pub IsSorted : List CoinLot → Type 0
IsSorted [] = Unit
IsSorted (a ∷ l) = All (Before a) l × IsSorted l

-- What the services rely on of PostgreSQL: `orderBy` returns the rows that it is given, in order,
-- and the default of an id column is an id that no row of the table has.
pub record Database : Type 0 where
  pub order_by_expiry : List CoinLot → List CoinLot
  pub order-perm : (l : List CoinLot) → Permᴰ (order_by_expiry l) l
  pub order-IsSorted : (l : List CoinLot) → IsSorted (order_by_expiry l)
  pub fresh_id : List ℕ → ℕ
  pub fresh_id-new : (ids : List ℕ) → All (λ i. fresh_id ids ≢ i) ids
