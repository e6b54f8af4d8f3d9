-- ===== src/Identity/Tests.antt =====
-- The theorems on permissions at a small table.
use ai_cinema_be.Project.Rows.{User, UserRole, user_has_id}
use ai_cinema_be.Identity.AccessControl.{
  keys_of, sort_keys, holds, distinct, or_rows, permissions_of, Control, can_activate,
  set_role_permissions,
}
use ai_cinema_be.Common.{arith, refl, true, ◌≡◌, none, some, [], false, ◌∷◌}
use ai_cinema_be.Common.Transaction.{err}
use ai_cinema_be.Common.Errors.{account_deactivated, unauthorized}
use ai_cinema_be.Identity.AccessControl.Laws.{set_role_permissions-IsManageable, RoleChanged}
use ai_cinema_be.Identity.AccessControl.Guard.{can_activate-deactivated}

abbrev sample_user : User
sample_user = record { id = 4; role = UserRole.staff; is_active = false }

abbrev sample_control : Control
sample_control = record {
  role_permissions =
      record { role = UserRole.admin; permission_key = "user:manage" }
      ∷ record { role = UserRole.admin; permission_key = "role:manage" }
      ∷ [];
  users = sample_user ∷ [];
  cached_permissions = none;
  accounts = record { user_id = 4; role = UserRole.staff; is_active = true; expires_at = 500 } ∷ [];
}

abbrev changed : Control
changed = record sample_control {
  role_permissions =
      record { role = UserRole.staff; permission_key = "wallet.read" }
      ∷ sample_control.role_permissions;
  cached_permissions = some (
      record { role = UserRole.staff; permission_key = "wallet.read" }
      ∷ sample_control.role_permissions);
}

set_role_permissions-IsManageable_example :
    RoleChanged UserRole.staff
      ("wallet.read" ∷ [])
      sample_control
      (record { role = UserRole.staff; permissions = "wallet.read" ∷ [] })
      changed
unfolding set_role_permissions permissions_of or_rows distinct holds keys_of sort_keys
set_role_permissions-IsManageable_example =
    set_role_permissions-IsManageable UserRole.staff ("wallet.read" ∷ []) sample_control
      {after = changed} (refl, refl) refl

can_activate-deactivated_example :
    can_activate false (some 4) ("wallet.read" ∷ []) 600 sample_control
    ≡ err (unauthorized account_deactivated)
can_activate-deactivated_example =
    can_activate-deactivated 4 600 sample_control sample_user ("wallet.read" ∷ []) refl refl
      ((λ e. omega arith), tt)
