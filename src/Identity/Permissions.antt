-- ===== src/Identity/Permissions.antt =====
-- src/common/auth/permissions.ts: the permissions and the roles that hold them at first.
use ai_cinema_be.Common.{String, List, [], ◌∷◌}
use ai_cinema_be.Project.Rows.{UserRole}

-- `ALL_PERMISSIONS`
abbrev pub all_permissions : List String
all_permissions =
    "project:manage" ∷ "project:fee.allocate" ∷ "project:read.all" ∷ "project:suggest"
    ∷ "studio:handoff" ∷ "media:ingest" ∷ "content:review" ∷ "episode:publish"
    ∷ "price-alert:manage" ∷ "genre:manage" ∷ "access.episode.read" ∷ "wallet.read" ∷ "wallet.topup"
    ∷ "reward.checkin" ∷ "subscription.self.manage" ∷ "billing.plan.manage" ∷ "billing.price.manage"
    ∷ "billing.subscription.read" ∷ "billing.subscription.cancel" ∷ "coin.wallet.read"
    ∷ "coin.adjust" ∷ "coin.transaction.read" ∷ "reward.rule.manage" ∷ "analytics.revenue.read"
    ∷ "analytics.churn.read" ∷ "member:ops.read" ∷ "user:read" ∷ "user:manage" ∷ "role:manage"
    ∷ "platform:settings.manage" ∷ "token-budget:manage" ∷ []

-- `LOCKED_ADMIN_PERMISSIONS`
abbrev pub locked_admin_permissions : List String
locked_admin_permissions = "user:manage" ∷ "role:manage" ∷ []

-- `DEFAULT_ROLE_PERMISSIONS`
unfoldable pub default_role_permissions : UserRole → List String
default_role_permissions UserRole.member =
    "access.episode.read" ∷ "wallet.read" ∷ "wallet.topup" ∷ "reward.checkin"
    ∷ "subscription.self.manage" ∷ []
default_role_permissions UserRole.content_creator = "studio:handoff" ∷ "media:ingest" ∷ []
default_role_permissions UserRole.content_reviewer =
    "project:manage" ∷ "project:fee.allocate" ∷ "content:review" ∷ "episode:publish"
    ∷ "genre:manage" ∷ "user:read" ∷ []
default_role_permissions UserRole.staff =
    "member:ops.read" ∷ "access.episode.read" ∷ "wallet.read" ∷ "coin.wallet.read"
    ∷ "coin.transaction.read" ∷ "billing.subscription.read" ∷ []
default_role_permissions UserRole.admin =
    "project:read.all" ∷ "project:suggest" ∷ "price-alert:manage" ∷ "genre:manage" ∷ "user:read"
    ∷ "user:manage" ∷ "role:manage" ∷ "platform:settings.manage" ∷ "token-budget:manage"
    ∷ "access.episode.read" ∷ "wallet.read" ∷ "billing.plan.manage" ∷ "billing.price.manage"
    ∷ "billing.subscription.read" ∷ "billing.subscription.cancel" ∷ "coin.wallet.read"
    ∷ "coin.adjust" ∷ "coin.transaction.read" ∷ "reward.rule.manage" ∷ "analytics.revenue.read"
    ∷ "analytics.churn.read" ∷ []
