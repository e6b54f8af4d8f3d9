-- ===== src/Identity/AccessControl/Keys.antt =====
-- The permission keys of a role, as sets: what is kept, written and sorted (access-control.service.ts).
use Prim.Native.Nat.{Ordering}
use Prim.Native.String.{compare}
use ai_cinema_be.Common.{
  ◌&&◌, ◌≢◌, ◌++◌, map, ◌≡◌, ◌∙◌, refl, sym, ap, ◌∷◌, [], ◌||◌, true, false, Bool, Bool-cases, inl,
  inr, List, String, str_eq, eq_iff, not,
}
use ai_cinema_be.Common.Lists.{keep}
use ai_cinema_be.Identity.AccessControl.{
  RolePermission, contains, distinct, holds, keys_of, insert_key, placed, sort_keys,
}
use ai_cinema_be.Project.Rows.{UserRole}
use ai_cinema_be.Project.Rules.{eqb_role}

or_swap : (a b c : Bool) → (a || (b || c)) ≡ (b || (a || c))
or_swap true true c = refl
or_swap true false c = refl
or_swap false b c = refl

-- Equal texts are found alike.
str_eq-same : (a b key : String) → str_eq a b ≡ true → str_eq a key ≡ str_eq b key
str_eq-same a b key h = ap (λ x. str_eq x key) ((eq_iff a b).0 h)

contains-insert :
    (key k : String) (ks : List String)
    → contains (insert_key k ks) key ≡ (str_eq k key || contains ks key)
contains-insert key k [] = refl
contains-insert key k (q ∷ qs) = placed_now (compare k q) (contains-insert key k qs)
  where
    placed_now :
        (o : Ordering)
        → contains (insert_key k qs) key ≡ (str_eq k key || contains qs key)
        → contains (placed o k q qs (insert_key k qs)) key
          ≡ (str_eq k key || (str_eq q key || contains qs key))
    placed_now Ordering.lt e = refl
    placed_now Ordering.eq e = refl
    placed_now Ordering.gt e =
        ap (λ b. str_eq q key || b) e ∙ or_swap (str_eq q key) (str_eq k key) (contains qs key)

pub contains-sort_keys :
    (key : String) (ks : List String) → contains (sort_keys ks) key ≡ contains ks key
unfolding sort_keys
contains-sort_keys key [] = refl
contains-sort_keys key (k ∷ ks) =
    contains-insert key k (sort_keys ks) ∙ ap (λ b. str_eq k key || b) (contains-sort_keys key ks)

-- What is there already adds nothing.
contains-again :
    (key k : String) (ks : List String)
    → contains ks k ≡ true
    → (str_eq k key || contains ks key) ≡ contains ks key
contains-again key k [] h = cc
contains-again key k (q ∷ qs) h = elim (Bool-cases (str_eq q k)) [
  | inl t ↦ rw (str_eq-same q k key t) (twice (str_eq k key) (contains qs key))
  | inr t ↦
      or_swap (str_eq k key) (str_eq q key) (contains qs key)
      ∙ ap (λ b. str_eq q key || b) (contains-again key k qs (rw t at h))
]
  where
    twice : (a b : Bool) → (a || (a || b)) ≡ (a || b)
    twice true b = refl
    twice false b = refl

pub contains-keys_of :
    (role : UserRole) (key : String) (rows : List RolePermission)
    → contains (keys_of role rows) key ≡ holds role key rows
unfolding keys_of holds
contains-keys_of role key [] = refl
contains-keys_of role key (r ∷ rs) = elim (Bool-cases (eqb_role r.role role)) [
  | inl own ↦ elim (Bool-cases (contains (keys_of role rs) r.permission_key)) [
    | inl there ↦
        rw (own, there)
          (sym (contains-again key r.permission_key (keys_of role rs) there)
            ∙ ap (λ b. str_eq r.permission_key key || b) (contains-keys_of role key rs))
    | inr new ↦
        rw (own, new) (ap (λ b. str_eq r.permission_key key || b) (contains-keys_of role key rs))
  ]
  | inr other ↦ rw other (contains-keys_of role key rs)
]

contains-kept :
    (key k : String) (ks : List String)
    → (str_eq k key || contains (keep (λ x. not (str_eq k x)) ks) key)
      ≡ (str_eq k key || contains ks key)
contains-kept key k [] = refl
contains-kept key k (q ∷ qs) = elim (Bool-cases (str_eq k q)) [
  | inl t ↦ rw t (
      contains-kept key k qs
      ∙ (sym (again (str_eq k key) (contains qs key))
          ∙ ap (λ b. str_eq k key || (b || contains qs key)) (str_eq-same k q key t)))
  | inr t ↦ rw t (
      or_swap (str_eq k key) (str_eq q key) _
      ∙ (ap (λ b. str_eq q key || b) (contains-kept key k qs)
          ∙ or_swap (str_eq q key) (str_eq k key) (contains qs key)))
]
  where
    again : (a b : Bool) → (a || (a || b)) ≡ (a || b)
    again true b = refl
    again false b = refl

pub contains-distinct :
    (key : String) (ks : List String) → contains (distinct ks) key ≡ contains ks key
unfolding distinct
contains-distinct key [] = refl
contains-distinct key (k ∷ ks) =
    contains-kept key k (distinct ks) ∙ ap (λ b. str_eq k key || b) (contains-distinct key ks)

eqb_role_refl : (r : UserRole) → eqb_role r r ≡ true
eqb_role_refl UserRole.member = refl
eqb_role_refl UserRole.content_creator = refl
eqb_role_refl UserRole.content_reviewer = refl
eqb_role_refl UserRole.staff = refl
eqb_role_refl UserRole.admin = refl

abbrev pub rows_for : UserRole → List String → List RolePermission → List RolePermission
rows_for role wanted rows =
    map (λ k. record { role = role; permission_key = k }) wanted
    ++ keep (λ (r : RolePermission). not (eqb_role r.role role)) rows

eqb_role_eq : (a b : UserRole) → eqb_role a b ≡ true → a ≡ b
eqb_role_eq UserRole.member UserRole.member h = refl
eqb_role_eq UserRole.content_creator UserRole.content_creator h = refl
eqb_role_eq UserRole.content_reviewer UserRole.content_reviewer h = refl
eqb_role_eq UserRole.staff UserRole.staff h = refl
eqb_role_eq UserRole.admin UserRole.admin h = refl
eqb_role_eq a b h = cc

-- Afterwards the role holds what was wanted, and another role what it held.
none_kept :
    (role : UserRole) (key : String) (rows : List RolePermission)
    → holds role key (keep (λ (r : RolePermission). not (eqb_role r.role role)) rows) ≡ false
unfolding holds
none_kept role key [] = refl
none_kept role key (r ∷ rs) = elim (Bool-cases (eqb_role r.role role)) [
  | inl own ↦ rw own (none_kept role key rs)
  | inr other ↦ rw (other, other) (none_kept role key rs)
]

pub holds-own :
    (role : UserRole) (key : String) (ks : List String) (rows : List RolePermission)
    → holds role key (rows_for role ks rows) ≡ contains ks key
unfolding holds
holds-own role key [] rows = none_kept role key rows
holds-own role key (k ∷ ks) rows =
    rw (eqb_role_refl role) (ap (λ b. str_eq k key || b) (holds-own role key ks rows))

pub holds-other :
    (other role : UserRole) (key : String) (ks : List String) (rows : List RolePermission)
    → other ≢ role
    → holds other key (rows_for role ks rows) ≡ holds other key rows
unfolding holds
holds-other other role key (k ∷ ks) rows away = elim (Bool-cases (eqb_role role other)) [
  | inl same ↦ absurd (away (sym (eqb_role_eq role other same)))
  | inr differs ↦ rw differs (holds-other other role key ks rows away)
]
holds-other other role key [] [] away = refl
holds-other other role key [] (r ∷ rs) away = elim (Bool-cases (eqb_role r.role role)) [
  | inl own ↦
      let not_held : eqb_role r.role other ≡ false = elim (Bool-cases (eqb_role r.role other)) [
        | inl both ↦
            absurd (away (sym (eqb_role_eq r.role other both) ∙ eqb_role_eq r.role role own))
        | inr differs ↦ differs
      ] in
      rw (own, not_held) (holds-other other role key [] rs away)
  | inr kept ↦ rw kept (
      ap (λ b. eqb_role r.role other && str_eq r.permission_key key || b)
        (holds-other other role key [] rs away))
]
