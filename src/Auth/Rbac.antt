-- ===== src/Auth/Rbac.antt =====
-- Role-based access control, pkg/auth/rbac.go: the two maps of RBAC and its methods.
pub mod Grants
pub mod Assigned
mod Tests
use ling_framework.Base.{
  ℕ, Bool, true, false, ◌&&◌, ◌||◌, not, Option, none, some, List, [], ◌∷◌, ◌++◌, Str,
  str_comparable, member, number_comparable, ◌==◌, if◌then◌else◌,
}
use ling_framework.Base.Dict.{Dict, fetch, store, delete, keys}

pub record Permission : Type 0 where
  pub resource : Str
  pub action : Str

pub record Role : Type 0 where
  pub name : Str
  pub permissions : List Permission

pub record Rbac : Type 0 where
  pub roles : Dict Str Role
  pub user_roles : Dict ℕ (List Str)

pub data RbacError : Type 0 where
  role_does_not_exist : Str → RbacError
  no_permission : ℕ → Str → Str → RbacError

abbrev pub new_rbac : Rbac
new_rbac = record { roles = []; user_roles = [] }

unfoldable pub add_role : Str → List Permission → Rbac → Rbac
add_role name permissions r = record r {
  roles = store r.roles name (record { name = name; permissions = permissions });
}

unfoldable pub get_role : Rbac → Str → Option Role
get_role r name = fetch r.roles name

-- r.userRoles[userID]: nil for a missing key.
abbrev pub slice_of : Option (List Str) → List Str
slice_of none = []
slice_of (some names) = names

unfoldable pub get_user_roles : Rbac → ℕ → List Str
get_user_roles r user = slice_of (fetch r.user_roles user)

-- The rest of AssignRole, after the lookup of the role.
unfoldable pub assign_found : ℕ → Str → Option Role → Rbac → Rbac × Option RbacError
assign_found user name none r = (r, some (role_does_not_exist name))
assign_found user name (some role) r =
    let names = get_user_roles r user in
    if member name names
    then (r, none)
    else (record r { user_roles = store r.user_roles user (names ++ name ∷ []) }, none)

unfoldable pub assign_role : ℕ → Str → Rbac → Rbac × Option RbacError
assign_role user name r = assign_found user name (fetch r.roles name) r

-- The loop of RemoveRole.
unfoldable pub without : Str → List Str → List Str
without name [] = []
without name (n ∷ names) = let later = without name names in if n == name then later else n ∷ later

unfoldable pub remove_role : ℕ → Str → Rbac → Rbac
remove_role user name r = record r {
  user_roles = store r.user_roles user (without name (get_user_roles r user));
}

abbrev pub any_permission : Str → Str → List Permission → Bool
any_permission resource action [] = false
any_permission resource action (p ∷ ps) =
    (p.resource == resource && p.action == action) || any_permission resource action ps

-- Whether a role of this name exists and has the permission.
abbrev pub grants : Str → Str → Option Role → Bool
grants resource action none = false
grants resource action (some role) = any_permission resource action role.permissions

unfoldable pub any_role : Str → Str → Dict Str Role → List Str → Bool
any_role resource action roles [] = false
any_role resource action roles (name ∷ names) =
    grants resource action (fetch roles name) || any_role resource action roles names

unfoldable pub has_permission : Rbac → ℕ → Str → Str → Bool
has_permission r user resource action = any_role resource action r.roles (get_user_roles r user)

unfoldable pub has_any_permission : Rbac → ℕ → List Permission → Bool
has_any_permission r user [] = false
has_any_permission r user (p ∷ ps) =
    has_permission r user p.resource p.action || has_any_permission r user ps

unfoldable pub has_all_permissions : Rbac → ℕ → List Permission → Bool
has_all_permissions r user [] = true
has_all_permissions r user (p ∷ ps) =
    has_permission r user p.resource p.action && has_all_permissions r user ps

unfoldable pub check_permission : Rbac → ℕ → Str → Str → Option RbacError
check_permission r user resource action =
    if not (has_permission r user resource action)
    then some (no_permission user resource action)
    else none

-- ListRoles; the order in which Go ranges over the map is not determined.
unfoldable pub list_roles : Rbac → List Str
list_roles r = keys r.roles

unfoldable pub delete_found : Str → Option Role → Rbac → Rbac × Option RbacError
delete_found name none r = (r, some (role_does_not_exist name))
delete_found name (some role) r = (record r { roles = delete r.roles name }, none)

unfoldable pub delete_role : Str → Rbac → Rbac × Option RbacError
delete_role name r = delete_found name (fetch r.roles name) r

unfoldable pub clear_user_roles : ℕ → Rbac → Rbac
clear_user_roles user r = record r { user_roles = delete r.user_roles user }
