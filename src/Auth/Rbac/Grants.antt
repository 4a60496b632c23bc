-- ===== src/Auth/Rbac/Grants.antt =====
-- What the changes of roles do to permissions (HasPermission of pkg/auth/rbac.go).
use ling_framework.Base.{
  ℕ, ◌≡◌, refl, sym, ap, ◌∙◌, Bool, true, ◌&&◌, ◌||◌, Option, none, some, List, [], ◌∷◌, ◌++◌,
  arith, Str, str_comparable, number_comparable, member, ◌==◌, Bool-cases, inl, inr, if◌then◌else◌,
}
use ling_framework.Base.Dict.{Dict, fetch, store, delete, fetch-store, fetch-delete}
use ling_framework.Auth.Rbac.{
  Rbac, Role, get_user_roles, slice_of, assign_role, assign_found, delete_found, remove_role,
  without, grants, any_role, has_permission, delete_role,
}

-- The user has the permission by another role than `name`.
abbrev pub otherwise_granted : Rbac → Str → ℕ → Str → Str → Bool
otherwise_granted r name user resource action =
    any_role resource action r.roles (without name (get_user_roles r user))

any_role-append :
    (resource action : Str) (roles : Dict Str Role) (names : List Str) (name : Str)
    → any_role resource action roles (names ++ name ∷ [])
      ≡ (any_role resource action roles names || grants resource action (fetch roles name))
unfolding any_role
any_role-append resource action roles [] name = ground arith
any_role-append resource action roles (n ∷ names) name =
    ground (arith, any_role-append resource action roles names name)

any_role-member :
    (resource action : Str) (roles : Dict Str Role) (names : List Str) (name : Str)
    → member name names ≡ true
    → grants resource action (fetch roles name) ≡ true
    → any_role resource action roles names ≡ true
unfolding any_role
any_role-member resource action roles [] name h g = ground arith
any_role-member resource action roles (n ∷ names) name h g = ground (
  arith,
  any_role-member resource action roles names name,
  str_comparable.same_iff n name,
  ap (λ w. grants resource action (fetch roles w)),
)

any_role-names :
    (resource action : Str) (roles : Dict Str Role) (users : Dict ℕ (List Str)) (user other : ℕ)
    → (names : List Str)
    → any_role resource action roles (slice_of (fetch (store users user names) other)) ≡ (
        if user == other
        then any_role resource action roles names
        else any_role resource action roles (slice_of (fetch users other)))
any_role-names resource action roles users user other names = elim (Bool-cases (user == other)) [
  | inl e ↦ rw (fetch-store users user other names, e) refl
  | inr e ↦ rw (fetch-store users user other names, e) refl
]

permission_assigned :
    (r : Rbac) (user other : ℕ) (name resource action : Str) (role : Role)
    → fetch r.roles name ≡ some role
    → has_permission (assign_found user name (some role) r).0 other resource action ≡ (
        has_permission r other resource action
        || (user == other && grants resource action (some role)))
unfolding has_permission assign_found get_user_roles
permission_assigned r user other name resource action role e =
    let names = get_user_roles r user in
    elim (Bool-cases (member name names)) [
      | inl held ↦ rw held (
          ground (
            arith,
            any_role-member resource action r.roles names name held,
            ap (grants resource action) e,
            ap (get_user_roles r),
            number_comparable.same_iff user other,
          ))
      | inr not_held ↦ rw not_held (
          any_role-names resource action r.roles r.user_roles user other (names ++ name ∷ [])
          ∙ ground (
            arith,
            any_role-append resource action r.roles names name,
            ap (grants resource action) e,
            number_comparable.same_iff user other,
            ap (get_user_roles r),
          ))
    ]

assigned_or_refused :
    (r : Rbac) (user other : ℕ) (name resource action : Str) (found : Option Role)
    → fetch r.roles name ≡ found
    → has_permission (assign_found user name found r).0 other resource action
      ≡ (has_permission r other resource action || (user == other && grants resource action found))
unfolding assign_found
assigned_or_refused r user other name resource action none e = ground arith
assigned_or_refused r user other name resource action (some role) e =
    permission_assigned r user other name resource action role e

-- After AssignRole a user has a permission exactly if the user had it before or is the user of the
-- call and the role exists and grants it.
pub has_permission-assign_role :
    (r : Rbac) (user other : ℕ) (name resource action : Str)
    → has_permission (assign_role user name r).0 other resource action ≡ (
        has_permission r other resource action
        || (user == other && grants resource action (fetch r.roles name)))
unfolding assign_role
has_permission-assign_role r user other name resource action =
    assigned_or_refused r user other name resource action (fetch r.roles name) refl

-- After RemoveRole the user of the call keeps exactly the permissions of the other roles, and all
-- other users keep theirs.
pub has_permission-remove_role :
    (r : Rbac) (user other : ℕ) (name resource action : Str)
    → has_permission (remove_role user name r) other resource action ≡ (
        if user == other
        then otherwise_granted r name user resource action
        else has_permission r other resource action)
unfolding has_permission remove_role get_user_roles
has_permission-remove_role r user other name resource action =
    any_role-names resource action r.roles r.user_roles user other
      (without name (get_user_roles r user))

any_role-delete :
    (resource action : Str) (roles : Dict Str Role) (names : List Str) (name : Str)
    → any_role resource action (delete roles name) names
      ≡ any_role resource action roles (without name names)
unfolding any_role without
any_role-delete resource action roles [] name = refl
any_role-delete resource action roles (n ∷ names) name = ground (
  arith,
  any_role-delete resource action roles names name,
  fetch-delete roles name n,
  str_comparable.same_iff n name,
  str_comparable.same_iff name n,
)

any_role-without :
    (resource action : Str) (roles : Dict Str Role) (names : List Str) (name : Str)
    → fetch roles name ≡ none
    → any_role resource action roles (without name names) ≡ any_role resource action roles names
unfolding any_role without
any_role-without resource action roles [] name h = refl
any_role-without resource action roles (n ∷ names) name h = elim (Bool-cases (n == name)) [
  | inl e ↦
      rw (e, (str_comparable.same_iff n name).0 e, h)
        (any_role-without resource action roles names name h)
  | inr e ↦ rw e (
      ap (λ b. grants resource action (fetch roles n) || b)
        (any_role-without resource action roles names name h))
]

deleted_or_missing :
    (r : Rbac) (user : ℕ) (name resource action : Str) (found : Option Role)
    → fetch r.roles name ≡ found
    → has_permission (delete_found name found r).0 user resource action
      ≡ otherwise_granted r name user resource action
unfolding has_permission delete_found get_user_roles
deleted_or_missing r user name resource action none e =
    sym (any_role-without resource action r.roles (get_user_roles r user) name e)
deleted_or_missing r user name resource action (some role) e =
    any_role-delete resource action r.roles (get_user_roles r user) name

delete_found-users :
    (name : Str) (found : Option Role) (r : Rbac)
    → (delete_found name found r).0.user_roles ≡ r.user_roles
unfolding delete_found
delete_found-users name none r = refl
delete_found-users name (some role) r = refl

-- DeleteRole leaves the name of the role with the users, whose roles stay as they are, and it takes
-- from each user just the permissions that no other role of the user grants.
pub has_permission-delete_role :
    (r : Rbac) (user : ℕ) (name resource action : Str)
    → ((delete_role name r).0.user_roles ≡ r.user_roles)
      × (has_permission (delete_role name r).0 user resource action
          ≡ otherwise_granted r name user resource action)
unfolding delete_role
has_permission-delete_role r user name resource action = (
  delete_found-users name (fetch r.roles name) r,
  deleted_or_missing r user name resource action (fetch r.roles name) refl,
)
