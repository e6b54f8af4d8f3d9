-- ===== src/Identity/AccessControl.antt =====
-- access-control.service.ts and permissions.guard.ts: what an account may do, answered from the
-- database with two caches. The listings for the Admin's screen only read and are left out.
pub mod Keys
pub mod Laws
pub mod Guard
use mathlib.Core.Option
use Prim.Native.Nat.{Ordering}
use Prim.Native.String.{compare}
use ai_cinema_be.Common.{
  ℕ, ◌+◌, Bool, true, false, ◌&&◌, not, Option, none, some, List, [], ◌∷◌, ◌++◌, String, str_eq,
  if◌then◌else◌, ltb, ◌==◌, map,
}
use ai_cinema_be.Common.Lists.{any, keep, find}
use ai_cinema_be.Common.Transaction.{Tx, ok, err, pure, gets, modify, require, throw, ◌>>=◌, ◌>>◌}
use ai_cinema_be.Project.Rows.{User, UserRole, user_has_id}
use ai_cinema_be.Common.Table.{find_row}
use ai_cinema_be.Common.Errors.{
  locked_permissions, permission_required, unknown_permissions, forbidden, bad_request,
  account_deactivated, account_not_available, unauthorized,
}
use ai_cinema_be.Identity.Permissions.{locked_admin_permissions, all_permissions}
use ai_cinema_be.Project.Rules.{eqb_role}

-- `ACCOUNT_TTL_MS`
abbrev pub account_ttl_ms : ℕ
account_ttl_ms = 30_000

pub record RolePermission : Type 0 where
  pub role : UserRole
  pub permission_key : String

pub record CachedAccount : Type 0 where
  pub user_id : ℕ
  pub role : UserRole
  pub is_active : Bool
  pub expires_at : ℕ

-- `AccountState`
pub record AccountState : Type 0 where
  pub role : UserRole
  pub is_active : Bool

-- The two tables and the two caches of one server instance. The cached permissions are the rows
-- that were read last.
pub record Control : Type 0 where
  pub role_permissions : List RolePermission
  pub users : List User
  pub cached_permissions : Option (List RolePermission)
  pub accounts : List CachedAccount

-- `Set.has` of a role's set.
unfoldable pub holds : UserRole → String → List RolePermission → Bool
holds role key rows =
    any (λ (r : RolePermission). eqb_role r.role role && str_eq r.permission_key key) rows

unfoldable pub or_rows : Option (List RolePermission) → List RolePermission → List RolePermission
or_rows none rows = rows
or_rows (some cached) rows = cached

-- `permissionsOf`, as the rows that the sets are made of.
unfoldable pub permissions_of : Tx Control (List RolePermission)
permissions_of c =
    let rows = or_rows c.cached_permissions c.role_permissions in
    ok (rows, record c { cached_permissions = some rows })

abbrev pub without : ℕ → List CachedAccount → List CachedAccount
without user accounts = keep (λ (a : CachedAccount). not (a.user_id == user)) accounts

-- The read of the account behind the cache.
unfoldable pub reload_account : ℕ → ℕ → Option User → Tx Control (Option AccountState)
reload_account user now none c = ok (none, record c { accounts = without user c.accounts })
reload_account user now (some u) c = ok (
  some (record { role = u.role; is_active = u.is_active }),
  record c {
    accounts =
        record {
          user_id = user;
          role = u.role;
          is_active = u.is_active;
          expires_at = now + account_ttl_ms;
        }
        ∷ without user c.accounts;
  },
)

unfoldable pub cached_or_reload : ℕ → ℕ → Option CachedAccount → Tx Control (Option AccountState)
cached_or_reload user now none c = reload_account user now (find_row user c.users) c
cached_or_reload user now (some a) c =
    let fresh = reload_account user now (find_row user c.users) c in
    if ltb now a.expires_at
    then ok (some (record { role = a.role; is_active = a.is_active }), c)
    else fresh

-- `accountState`
unfoldable pub account_state : ℕ → ℕ → Tx Control (Option AccountState)
account_state user now c =
    cached_or_reload user now (find (λ (a : CachedAccount). a.user_id == user) c.accounts) c

unfoldable pub forget_account : ℕ → Tx Control (Unit {0})
forget_account user = modify (λ c. record c { accounts = without user c.accounts })

abbrev pub contains : List String → String → Bool
contains keys key = any (λ k. str_eq k key) keys

-- `[...new Set(permissions)]`: the first of equal keys stays.
unfoldable pub distinct : List String → List String
distinct [] = []
distinct (k ∷ ks) = k ∷ keep (λ x. not (str_eq k x)) (distinct ks)

abbrev pub is_admin : UserRole → Bool
is_admin UserRole.admin = true
is_admin _ = false

abbrev pub all_in : List String → List String → Bool
all_in [] keys = true
all_in (k ∷ ks) keys = contains keys k && all_in ks keys

-- `permissionsOf` of one role: a set, so that no key is there twice.
unfoldable pub keys_of : UserRole → List RolePermission → List String
keys_of role [] = []
keys_of role (r ∷ rs) =
    let rest = keys_of role rs in
    if eqb_role r.role role && not (contains rest r.permission_key)
    then r.permission_key ∷ rest
    else rest

-- `sort()`, on the keys of the catalogue, which are ASCII.
abbrev pub placed : Ordering → String → String → List String → List String → List String
placed Ordering.gt k q qs rest = q ∷ rest
placed _ k q qs rest = k ∷ q ∷ qs

abbrev pub insert_key : String → List String → List String
insert_key k [] = k ∷ []
insert_key k (q ∷ qs) = placed (compare k q) k q qs (insert_key k qs)

unfoldable pub sort_keys : List String → List String
sort_keys [] = []
sort_keys (k ∷ ks) = insert_key k (sort_keys ks)

-- The answer of `setRolePermissions`.
pub record RoleView : Type 0 where
  pub role : UserRole
  pub permissions : List String

-- `setRolePermissions`
unfoldable pub set_role_permissions : UserRole → List String → Tx Control RoleView
set_role_permissions role permissions = do
  let wanted = distinct permissions
  require (all_in wanted all_permissions) (bad_request unknown_permissions)
  require (not (is_admin role && not (all_in locked_admin_permissions wanted)))
      (bad_request locked_permissions)
  modify (λ c. record c {
    role_permissions =
        map (λ k. record { role = role; permission_key = k }) wanted
        ++ keep (λ (r : RolePermission). not (eqb_role r.role role)) c.role_permissions;
    cached_permissions = none;
  })
  rows ← permissions_of
  pure (record { role = role; permissions = sort_keys (keys_of role rows) })

abbrev pub any_held : List String → UserRole → List RolePermission → Bool
any_held required role rows = any (λ key. holds role key rows) required

-- The part of `canActivate` for an account that was found.
unfoldable pub check_account : List String → Option AccountState → Tx Control Bool
check_account required none = throw (unauthorized account_not_available)
check_account [] (some a) = do require a.is_active (unauthorized account_deactivated); pure true
check_account (key ∷ keys) (some a) = do
  require a.is_active (unauthorized account_deactivated)
  rows ← permissions_of
  require (any_held (key ∷ keys) a.role rows) (forbidden permission_required)
  pure true

-- `canActivate` of an endpoint that is public or not, for the user of the token if there is one.
unfoldable pub can_activate : Bool → Option ℕ → List String → ℕ → Tx Control Bool
can_activate true user required now = pure true
can_activate false none required now = pure true
can_activate false (some user) required now = do
  account ← account_state user now
  check_account required account
