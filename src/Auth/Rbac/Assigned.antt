-- ===== src/Auth/Rbac/Assigned.antt =====
-- The roles that the users hold (AssignRole, RemoveRole, ClearUserRoles of pkg/auth/rbac.go).
use ling_framework.Base.{
  ℕ, ◌≡◌, refl, ap, ◌∙◌, ◌↔◌, true, false, Option, none, some, List, [], ◌∷◌, ◌++◌, arith, Str, All,
  str_comparable, number_comparable, Distinct, member, ◌==◌, ==-refl, Bool-cases, inl, inr,
  if◌then◌else◌,
}
use ling_framework.Base.Dict.{Dict, fetch, store, delete, fetch-store, fetch-delete}
use ling_framework.Base.Dict.Laws.{Distinct-append_last}
use ling_framework.Auth.Rbac.{
  Rbac, Role, Permission, new_rbac, get_user_roles, slice_of, add_role, assign_role, assign_found,
  remove_role, without, has_all_permissions, check_permission, delete_role, delete_found,
  clear_user_roles,
}

-- The calls that change an RBAC manager.
pub data Call : Type 0 where
  add : Str → List Permission → Call
  assign : ℕ → Str → Call
  remove : ℕ → Str → Call
  drop_role : Str → Call
  clear : ℕ → Call

abbrev pub call : Call → Rbac → Rbac
call (add name ps) r = add_role name ps r
call (assign user name) r = (assign_role user name r).0
call (remove user name) r = remove_role user name r
call (drop_role name) r = (delete_role name r).0
call (clear user) r = clear_user_roles user r

unfoldable pub call_all : List Call → Rbac → Rbac
call_all [] r = r
call_all (x ∷ xs) r = call_all xs (call x r)

abbrev HoldsOnce : Dict ℕ (List Str) → Type 0
HoldsOnce users = (user : ℕ) → Distinct (slice_of (fetch users user))

member-without :
    (n name : Str) (names : List Str)
    → member n names ≡ false
    → member n (without name names) ≡ false
unfolding without
member-without n name [] h = refl
member-without n name (x ∷ names) h = ground (arith, member-without n name names)

without-Distinct : (name : Str) (names : List Str) → Distinct names → Distinct (without name names)
unfolding without
without-Distinct name [] d = tt
without-Distinct name (n ∷ names) d = elim (Bool-cases (n == name)) [
  | inl e ↦ rw e (without-Distinct name names d.1)
  | inr e ↦ rw e (member-without n name names d.0, without-Distinct name names d.1)
]

store-HoldsOnce :
    (users : Dict ℕ (List Str)) (user : ℕ) (names : List Str)
    → HoldsOnce users
    → Distinct names
    → HoldsOnce (store users user names)
store-HoldsOnce users user names h d other = elim (Bool-cases (user == other)) [
  | inl e ↦ rw (fetch-store users user other names, e) d
  | inr e ↦ rw (fetch-store users user other names, e) (h other)
]

delete-HoldsOnce :
    (users : Dict ℕ (List Str)) (user : ℕ) → HoldsOnce users → HoldsOnce (delete users user)
delete-HoldsOnce users user h other = elim (Bool-cases (user == other)) [
  | inl e ↦ rw (fetch-delete users user other, e) tt
  | inr e ↦ rw (fetch-delete users user other, e) (h other)
]

assign_found-HoldsOnce :
    (user : ℕ) (name : Str) (found : Option Role) (r : Rbac)
    → HoldsOnce r.user_roles
    → HoldsOnce (assign_found user name found r).0.user_roles
unfolding assign_found get_user_roles
assign_found-HoldsOnce user name none r h = h
assign_found-HoldsOnce user name (some role) r h =
    let names = get_user_roles r user in
    elim (Bool-cases (member name names)) [
      | inl held ↦ rw held h
      | inr new ↦ rw new (
          store-HoldsOnce r.user_roles user (names ++ name ∷ []) h
            (Distinct-append_last name names new (h user)))
    ]

delete_found-users :
    (name : Str) (found : Option Role) (r : Rbac)
    → (delete_found name found r).0.user_roles ≡ r.user_roles
unfolding delete_found
delete_found-users name none r = refl
delete_found-users name (some role) r = refl

held_once_after :
    (xs : List Call) (r : Rbac) → HoldsOnce r.user_roles → HoldsOnce (call_all xs r).user_roles
unfolding call_all add_role remove_role clear_user_roles assign_role delete_role get_user_roles
held_once_after [] r h = h
held_once_after (add name ps ∷ xs) r h = held_once_after xs (add_role name ps r) h
held_once_after (assign user name ∷ xs) r h =
    held_once_after xs (assign_role user name r).0
      (assign_found-HoldsOnce user name (fetch r.roles name) r h)
held_once_after (remove user name ∷ xs) r h = held_once_after xs (remove_role user name r) (
    store-HoldsOnce r.user_roles user (without name (get_user_roles r user)) h
      (without-Distinct name (get_user_roles r user) (h user)))
held_once_after (drop_role name ∷ xs) r h =
    held_once_after xs (delete_role name r).0
      (λ user. rw (delete_found-users name (fetch r.roles name) r) (h user))
held_once_after (clear user ∷ xs) r h =
    held_once_after xs (clear_user_roles user r) (delete-HoldsOnce r.user_roles user h)

-- After any calls on a new manager no user holds a role twice.
pub call_all-Distinct :
    (xs : List Call) (user : ℕ) → Distinct (get_user_roles (call_all xs new_rbac) user)
unfolding get_user_roles fetch
call_all-Distinct xs user = held_once_after xs new_rbac (λ other. tt) user

without-append :
    (name : Str) (names : List Str)
    → member name names ≡ false
    → without name (names ++ name ∷ []) ≡ names
unfolding without
without-append name [] h = rw (==-refl name) refl
without-append name (n ∷ names) h = ground (arith, without-append name names)

slice_of-store :
    (users : Dict ℕ (List Str)) (user other : ℕ) (names : List Str)
    → slice_of (fetch (store users user names) other)
      ≡ (if user == other then names else slice_of (fetch users other))
slice_of-store users user other names = elim (Bool-cases (user == other)) [
  | inl e ↦ rw (fetch-store users user other names, e) refl
  | inr e ↦ rw (fetch-store users user other names, e) refl
]

users_assigned :
    (r : Rbac) (user : ℕ) (name : Str) (found : Option Role)
    → (role : Role) × (found ≡ some role)
    → member name (get_user_roles r user) ≡ false
    → (assign_found user name found r).0.user_roles
      ≡ store r.user_roles user (get_user_roles r user ++ name ∷ [])
unfolding assign_found
users_assigned r user name none (role, e) h = cc
users_assigned r user name (some found) e h = rw h refl

-- RemoveRole after AssignRole of an existing role, which the user did not hold, gives every user
-- the roles of before.
pub get_user_roles-remove_role :
    (r : Rbac) (user other : ℕ) (name : Str) (role : Role)
    → fetch r.roles name ≡ some role
    → member name (get_user_roles r user) ≡ false
    → get_user_roles (remove_role user name (assign_role user name r).0) other
      ≡ get_user_roles r other
unfolding get_user_roles remove_role assign_role assign_found
get_user_roles-remove_role r user other name role e h =
    let names = get_user_roles r user in
    let users = store r.user_roles user (names ++ name ∷ []) in
    let assigned = users_assigned r user name (fetch r.roles name) (role, e) h in
    let held : slice_of (fetch users user) ≡ names ++ name ∷ [] =
      slice_of-store r.user_roles user user (names ++ name ∷ []) ∙ ground arith in
    ap (λ w. slice_of (fetch (store w user (without name (slice_of (fetch w user)))) other))
      assigned
    ∙ slice_of-store users user other (without name (slice_of (fetch users user)))
    ∙ ground (
      arith,
      slice_of-store r.user_roles user other (names ++ name ∷ []),
      held,
      without-append name names h,
      ap (without name) held,
      number_comparable.same_iff user other,
      ap (get_user_roles r),
    )

-- HasAllPermissions holds exactly if CheckPermission gives an error for none of the permissions.
pub has_all_permissions_iff :
    (r : Rbac) (user : ℕ) (ps : List Permission)
    → (has_all_permissions r user ps ≡ true)
      ↔ All (λ p. check_permission r user p.resource p.action ≡ none) ps
unfolding has_all_permissions check_permission
has_all_permissions_iff r user [] = (λ h. tt, λ h. refl)
has_all_permissions_iff r user (p ∷ ps) = ground (arith, has_all_permissions_iff r user ps)
