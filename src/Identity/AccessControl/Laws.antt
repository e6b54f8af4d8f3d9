-- ===== src/Identity/AccessControl/Laws.antt =====
-- `setRolePermissions` and the locked permissions of ADMIN.
use ai_cinema_be.Identity.AccessControl.Keys.{
  rows_for, holds-own, holds-other, contains-sort_keys, contains-keys_of, contains-distinct,
}
use ai_cinema_be.Identity.AccessControl.{
  RoleView, keys_of, distinct, Control, all_in, or_rows, permissions_of, contains, is_admin,
  set_role_permissions, holds, RolePermission,
}
use ai_cinema_be.Common.{
  ◌≢◌, ◌∙◌, [], inr, inl, str_eq, Bool-cases, Bool, ◌∷◌, map, ◌&&◌, false, ◌++◌, refl, not, String,
  true, ◌≡◌, List,
}
use ai_cinema_be.Project.Rows.{UserRole}
use ai_cinema_be.Project.Rules.{eqb_role}
use ai_cinema_be.Common.Lists.{keep}
use ai_cinema_be.Common.Transaction.{ok_snd, ok_fst, bind-require-eq-ok, ok}
use ai_cinema_be.Identity.Permissions.{all_permissions, locked_admin_permissions}

-- ADMIN holds every locked permission.
abbrev pub IsManageable : List RolePermission → Type 0
IsManageable rows =
    (holds UserRole.admin "user:manage" rows ≡ true)
    × (holds UserRole.admin "role:manage" rows ≡ true)

is_admin_eq : (r : UserRole) → is_admin r ≡ true → r ≡ UserRole.admin
is_admin_eq UserRole.admin h = refl
is_admin_eq UserRole.member h = cc
is_admin_eq UserRole.content_creator h = cc
is_admin_eq UserRole.content_reviewer h = cc
is_admin_eq UserRole.staff h = cc

-- A role that is not ADMIN shares no row with it.
kept_for_admin :
    (r role : UserRole)
    → is_admin role ≡ false
    → eqb_role r UserRole.admin ≡ true
    → eqb_role r role ≡ false
kept_for_admin UserRole.admin UserRole.member h e = refl
kept_for_admin UserRole.admin UserRole.content_creator h e = refl
kept_for_admin UserRole.admin UserRole.content_reviewer h e = refl
kept_for_admin UserRole.admin UserRole.staff h e = refl
kept_for_admin r UserRole.admin h e = cc
kept_for_admin UserRole.member role h e = cc
kept_for_admin UserRole.content_creator role h e = cc
kept_for_admin UserRole.content_reviewer role h e = cc
kept_for_admin UserRole.staff role h e = cc

holds_right :
    (key : String) (xs ys : List RolePermission)
    → holds UserRole.admin key ys ≡ true
    → holds UserRole.admin key (xs ++ ys) ≡ true
unfolding holds
holds_right key [] ys h = h
holds_right key (x ∷ xs) ys h =
    elim (Bool-cases (eqb_role x.role UserRole.admin && str_eq x.permission_key key)) [
      | inl t ↦ rw t refl
      | inr t ↦ rw t (holds_right key xs ys h)
    ]

-- The written rows of a role hold what was wanted.
holds_written :
    (key : String) (ks : List String) (ys : List RolePermission)
    → contains ks key ≡ true
    → holds UserRole.admin key
        (map (λ k. record { role = UserRole.admin; permission_key = k }) ks ++ ys)
      ≡ true
unfolding holds
holds_written key [] ys h = cc
holds_written key (k ∷ ks) ys h = elim (Bool-cases (str_eq k key)) [
  | inl t ↦ rw t refl
  | inr t ↦ rw t (holds_written key ks ys (rw t at h))
]

holds_kept :
    (key : String) (role : UserRole) (rows : List RolePermission)
    → is_admin role ≡ false
    → holds UserRole.admin key rows ≡ true
    → holds UserRole.admin key (keep (λ (r : RolePermission). not (eqb_role r.role role)) rows)
      ≡ true
unfolding holds
holds_kept key role [] other h = cc
holds_kept key role (r ∷ rows) other h =
    elim (Bool-cases (eqb_role r.role UserRole.admin && str_eq r.permission_key key)) [
      | inl t ↦
          let kept =
            kept_for_admin r.role role other (and_left (eqb_role r.role UserRole.admin) _ t) in
          rw (kept, t) refl
      | inr t ↦ elim (Bool-cases (eqb_role r.role role)) [
        | inl gone ↦ rw gone (holds_kept key role rows other (rw t at h))
        | inr stays ↦ rw (stays, t) (holds_kept key role rows other (rw t at h))
      ]
    ]
  where
    and_left : (a b : Bool) → (a && b) ≡ true → a ≡ true
    and_left true b e = refl
    and_left false b e = e

locked_kept :
    (role : UserRole) (wanted : List String) (rows : List RolePermission)
    → IsManageable rows
    → not (is_admin role && not (all_in locked_admin_permissions wanted)) ≡ true
    → IsManageable (
        map (λ k. record { role = role; permission_key = k }) wanted
        ++ keep (λ (r : RolePermission). not (eqb_role r.role role)) rows)
locked_kept role wanted rows (users, roles) h = elim (Bool-cases (is_admin role)) [
  | inl t ↦
      let admin = is_admin_eq role t in
      let (a, b) =
        both (contains wanted "user:manage") (contains wanted "role:manage") (rw t at h) in
      rw admin (holds_written "user:manage" wanted _ a, holds_written "role:manage" wanted _ b)
  | inr t ↦ (
    holds_right "user:manage" _ _ (holds_kept "user:manage" role rows t users),
    holds_right "role:manage" _ _ (holds_kept "role:manage" role rows t roles),
  )
]
  where
    both : (a b : Bool) → not (not (a && (b && true))) ≡ true → (a ≡ true) × (b ≡ true)
    both true true e = (refl, refl)
    both true false e = cc
    both false b e = cc

-- What a change of a role's permissions leaves and answers.
pub record RoleChanged (role : UserRole) (permissions : List String) (c : Control)
    (answer : RoleView) (after : Control) : Type 0 where
  pub manageable : IsManageable after.role_permissions
  pub granted : (key : String) → holds role key after.role_permissions ≡ contains permissions key
  pub others :
      (other : UserRole) (key : String)
      → other ≢ role
      → holds other key after.role_permissions ≡ holds other key c.role_permissions
  pub read_next : permissions_of after ≡ ok (after.role_permissions, after)
  pub named : answer.role ≡ role
  pub answered : (key : String) → contains answer.permissions key ≡ contains permissions key

-- Where ADMIN has the locked permissions, a change of a role's permissions that goes through leaves
-- ADMIN with them. The role holds exactly the keys that were asked for, every other role what it
-- held, the stored rows are what `permissionsOf` reads next, and the answer names the role and
-- exactly those keys.
pub set_role_permissions-IsManageable :
    (role : UserRole) (permissions : List String) (c : Control) {answer : RoleView}
    {after : Control}
    → IsManageable c.role_permissions
    → set_role_permissions role permissions c ≡ ok (answer, after)
    → RoleChanged role permissions c answer after
unfolding set_role_permissions permissions_of or_rows
set_role_permissions-IsManageable role permissions c i h =
    let wanted = distinct permissions in
    let (known, h₁) = bind-require-eq-ok (all_in wanted all_permissions) _ c _ h in
    let (locked, h₂) =
      bind-require-eq-ok (not (is_admin role && not (all_in locked_admin_permissions wanted))) _ c _
        h₁ in
    let rows = rows_for role wanted c.role_permissions in
    let held : (key : String) → holds role key rows ≡ contains permissions key =
      λ key. holds-own role key wanted c.role_permissions ∙ contains-distinct key permissions in
    rw (← ok_fst h₂, ← ok_snd h₂)
      (record {
        manageable = locked_kept role wanted c.role_permissions i locked;
        granted = held;
        others = λ other key away. holds-other other role key wanted c.role_permissions away;
        read_next = refl;
        named = refl;
        answered = λ key.
            contains-sort_keys key (keys_of role rows)
            ∙ (contains-keys_of role key rows ∙ held key);
      })
