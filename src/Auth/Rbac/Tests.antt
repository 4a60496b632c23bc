-- ===== src/Auth/Rbac/Tests.antt =====
-- Tests of the roles on concrete inputs.
use ling_framework.Base.{◌≡◌, refl, true, List, [], ◌∷◌, str_comparable, number_comparable, codes}
use ling_framework.Base.Dict.{fetch, store}
use ling_framework.Auth.Rbac.{
  Rbac, Role, Permission, get_user_roles, assign_role, assign_found, has_permission, delete_role,
  any_role,
}
use ling_framework.Auth.Rbac.Grants.{otherwise_granted, has_permission-delete_role}
use ling_framework.Auth.Rbac.Assigned.{Call}

abbrev reading : Permission
reading = record { resource = codes "post"; action = codes "read" }

abbrev writing : Permission
writing = record { resource = codes "post"; action = codes "write" }

abbrev editor : Role
editor = record { name = codes "editor"; permissions = reading ∷ writing ∷ [] }

abbrev editors : Rbac
editors = record { roles = (codes "editor", editor) ∷ []; user_roles = (7, codes "gone" ∷ []) ∷ [] }

editor_writes :
    has_permission (assign_role 7 (codes "editor") editors).0 7 (codes "post") (codes "write")
    ≡ true
unfolding has_permission assign_role get_user_roles fetch assign_found any_role store
editor_writes = refl

has_permission-delete_role_example :
    ((delete_role (codes "editor") editors).0.user_roles ≡ editors.user_roles)
    × (has_permission (delete_role (codes "editor") editors).0 7 (codes "post") (codes "read")
        ≡ otherwise_granted editors (codes "editor") 7 (codes "post") (codes "read"))
has_permission-delete_role_example =
    has_permission-delete_role editors 7 (codes "editor") (codes "post") (codes "read")

abbrev some_calls : List Call
some_calls =
    Call.add (codes "editor") (reading ∷ [])
    ∷ Call.assign 7 (codes "editor")
    ∷ Call.assign 7 (codes "editor")
    ∷ []
