-- ===== src/Lib.antt =====
-- The back end of AI Cinema: the Coins of its members and what they buy, the movie projects and
-- their Token budgets, and who may do what. The program is a Nest application over PostgreSQL; its
-- services run their writes in database transactions.
--
-- How the code is modelled. A table is a list of records with the columns that the services read or
-- write; a uuid is a number and an instant its milliseconds. A method that runs inside a transaction
-- is a function `Tx S A = S → Result (A × S)` (Common/Transaction): an exception carries no store,
-- since it is rolled back. A handler around transactions is an `Action` (Common/Action), where what
-- was committed before an exception stays. Requests run one after another: the row locks of the
-- wallets and Reviewers make transactions on the same row do so, and reads outside a transaction are
-- taken at the same moment as the transaction that follows. Coin and Token amounts are integers
-- (Common/Int); the database's 32-bit range is not modelled. A foreign key that the schema
-- guarantees is an error `crash` where the code could not meet it.
--
-- What is assumed of PostgreSQL is the record `Database` of Wallet/Rows: ordering by expiry returns
-- the same rows in order (rows of one expiry in the order of their grants, also where the code does not
-- ask for it), and a new id is none of those in the table. Wallet/Sample has an instance.
--
-- Parts and files (paths from src/modules unless they say otherwise):
--   Common      Boolean tests, lists, integers, text, tables, transactions, handlers, errors.
--   Settings    platform/platform-setting/platform-setting.service.ts
--   Wallet      episode-access/coin-wallet. Rows: the tables and coin-wallet.types.ts. Lots:
--               lot-usage.ts. Spend: coin-spend.service.ts. Adjust: coin-adjust.service.ts. Expiry:
--               bonus-expiry.sweep.ts, whose endless loop runs on fuel (`expire_due` of
--               Expiry/Sweep answers none when it runs out). Members: wallet.service.ts. Sums and
--               Consistent say when counters, lots and ledger agree.
--   Access      Decision: episode-access/access-decision/access-decision.service.ts. Episodes:
--               episode-access/episode-purchase/episode-purchase.service.ts. Series:
--               episode-access/series-purchase/series-purchase.service.ts. Refunds:
--               episode-access/entitlement/entitlement.service.ts. All of them pay through Wallet.
--   Membership  Plans and Pricing: episode-access/membership-plan/membership-plan.service.ts. Joining,
--               Activation, AutoRenew: episode-access/subscription/subscription.service.ts.
--               Renewal: subscription-renewal.service.ts beside it. Ending: the ends of both. Sweep:
--               subscription-renewal.sweep.ts. Renewed says what a renewal may do. The rows stand in
--               Access/Rows, where the access check reads them; plans are paid through Wallet.
--   TopUp       episode-access/coin-topup. Rows: the tables and utils/order-view.ts. Callback:
--               utils/payment-callback.util.ts. Settlement: topup-settlement.service.ts. Lookup:
--               topup-lookup.service.ts. Opening, Create, Deliveries, Webhook, Ipn:
--               coin-topup.service.ts. Expiry: top-up-expiry.sweep.ts. Reconcile:
--               payment-reconcile.sweep.ts. Gateway: gateways/momo-signing.ts,
--               gateways/vnpay-signing.ts and gateways/payment-gateway.service.ts. Credited follows
--               the orders through all of it. Settlements pay through Wallet.
--   Reward      episode-access/daily-reward/daily-reward.service.ts, paid through Wallet. Streak says
--               which day of the streak a check-in is.
--   Project     Rules: production/project-access. Tokens: production/production-fee and
--               production/reviewer-token. Lifecycle:
--               production/movie-project/project-lifecycle.service.ts. Pricing:
--               production/publishing/pricing.service.ts.
--   Identity    identity/access-control and src/common/auth/permissions.ts.
--
-- The flow of an order asks the gateways through the record `Gateways` of TopUp/Opening, which
-- TopUp/Gateway/Service fills with the code's own service. What that code calls of Node is the record
-- `Platform` of TopUp/Gateway/Crypto (the two keyed hashes, the encoding of URLs, `fetch`) and
-- `Readings` of TopUp/Gateway/Config (numbers and dates); what the reading of a delivery calls is
-- `Runtime` of TopUp/Callback. A number of a request is an integer or the text of one that is none. A
-- list of rows that a sweep reads is any order of the rows that its query selects (`Queries` of
-- TopUp/Rows). The sweeps' endless loops run on fuel and answer none when it runs out:
-- `expire_due_orders` never does with more fuel than orders that are due; `reconcile_due`
-- and `renew_pass` of Membership/Sweep can need more than any.
--
-- Left out: the release of episodes, review, hand-off and media processing, listings and reports,
-- notifications and e-mail, controllers and validation.
pub mod Common
pub mod Settings
pub mod Wallet
pub mod Access
pub mod Membership
pub mod TopUp
pub mod Reward
pub mod Project
pub mod Identity
