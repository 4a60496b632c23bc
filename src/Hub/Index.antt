-- ===== src/Hub/Index.antt =====
-- Which ids stand under which key of an index of the hub (pkg/websocket/websocket.go).
use ling_framework.Base.{
  ◌≡◌, refl, sym, ap, ◌∙◌, Bool, true, false, ◌&&◌, ◌||◌, not, Option, none, some, List, [], ◌∷◌,
  arith, Str, str_comparable, member, ◌==◌, Bool-cases, if◌then◌else◌, inl, inr,
}
use ling_framework.Base.Dict.{fetch, store, fetch-store, fetch-delete}
use ling_framework.Hub.{
  IdIndex, ids_of, insert_id, remove_id, add_to, keep_set, remove_found, remove_from, add_to_all,
  remove_from_all, add_user, remove_user,
}

abbrev pub in_index : IdIndex → Str → Str → Bool
in_index index key id = member id (ids_of (fetch index key))

pub member-insert_id :
    (id other : Str) (ids : List Str)
    → member other (insert_id id ids) ≡ (id == other || member other ids)
unfolding insert_id
member-insert_id id other ids = elim (Bool-cases (member id ids)) [
  | inl old ↦ rw old (elim (Bool-cases (id == other)) [
    | inl e ↦ rw e (ap (λ w. member w ids) (sym ((str_comparable.same_iff id other).0 e)) ∙ old)
    | inr e ↦ rw e refl
  ])
  | inr new ↦ rw new refl
]

pub member-remove_id :
    (id other : Str) (ids : List Str)
    → member other (remove_id id ids) ≡ (not (id == other) && member other ids)
unfolding remove_id
member-remove_id id other [] = ground arith
member-remove_id id other (x ∷ xs) = ground (
  arith,
  member-remove_id id other xs,
  str_comparable.same_iff x id,
  str_comparable.same_iff x other,
  str_comparable.same_iff id other,
)

pub ids-store :
    (index : IdIndex) (key other : Str) (ids : List Str)
    → ids_of (fetch (store index key ids) other)
      ≡ (if key == other then ids else ids_of (fetch index other))
ids-store index key other ids = elim (Bool-cases (key == other)) [
  | inl e ↦ rw (fetch-store index key other ids, e) refl
  | inr e ↦ rw (fetch-store index key other ids, e) refl
]

pub ids-keep_set :
    (index : IdIndex) (key other : Str) (ids : List Str)
    → ids_of (fetch (keep_set index key ids) other)
      ≡ (if key == other then ids else ids_of (fetch index other))
ids-keep_set index key other [] = elim (Bool-cases (key == other)) [
  | inl e ↦ rw (fetch-delete index key other, e) refl
  | inr e ↦ rw (fetch-delete index key other, e) refl
]
ids-keep_set index key other (x ∷ xs) = ids-store index key other (x ∷ xs)

same_ids :
    (index : IdIndex) (key other : Str)
    → (key == other) ≡ true
    → fetch index key ≡ fetch index other
same_ids index key other e = ap (fetch index) ((str_comparable.same_iff key other).0 e)

pub in_index-add_to :
    (index : IdIndex) (key id other i : Str)
    → in_index (add_to index key id) other i ≡ ((key == other && id == i) || in_index index other i)
unfolding add_to
in_index-add_to index key id other i =
    ap (member i) (ids-store index key other (insert_id id (ids_of (fetch index key))))
    ∙ elim (Bool-cases (key == other)) [
      | inl e ↦
          rw (e, same_ids index key other e) (member-insert_id id i (ids_of (fetch index other)))
      | inr e ↦ rw e refl
    ]

removed :
    (index : IdIndex) (key id other i : Str) (found : Option (List Str))
    → fetch index key ≡ found
    → in_index (remove_found index key id found) other i
      ≡ (not (key == other && id == i) && in_index index other i)
removed index key id other i none e = elim (Bool-cases (key == other)) [
  | inl same ↦ rw (same, ap ids_of (sym (same_ids index key other same) ∙ e)) ground arith
  | inr not_same ↦ rw not_same refl
]
removed index key id other i (some ids) e =
    ap (member i) (ids-keep_set index key other (remove_id id ids))
    ∙ elim (Bool-cases (key == other)) [
      | inl same ↦
          rw (same, ap ids_of (sym (same_ids index key other same) ∙ e)) (member-remove_id id i ids)
      | inr not_same ↦ rw not_same refl
    ]

pub in_index-remove_from :
    (index : IdIndex) (key id other i : Str)
    → in_index (remove_from index key id) other i
      ≡ (not (key == other && id == i) && in_index index other i)
unfolding remove_from
in_index-remove_from index key id other i = removed index key id other i (fetch index key) refl

pub in_index-add_to_all :
    (index : IdIndex) (keys : List Str) (id other i : Str)
    → in_index (add_to_all index keys id) other i
      ≡ ((member other keys && id == i) || in_index index other i)
unfolding add_to_all
in_index-add_to_all index [] id other i = refl
in_index-add_to_all index (key ∷ keys) id other i =
    in_index-add_to_all (add_to index key id) keys id other i
    ∙ rw (in_index-add_to index key id other i) (ground arith)

pub in_index-remove_from_all :
    (index : IdIndex) (keys : List Str) (id other i : Str)
    → in_index (remove_from_all index keys id) other i
      ≡ (not (member other keys && id == i) && in_index index other i)
unfolding remove_from_all
in_index-remove_from_all index [] id other i = refl
in_index-remove_from_all index (key ∷ keys) id other i =
    in_index-remove_from_all (remove_from index key id) keys id other i
    ∙ rw (in_index-remove_from index key id other i) (ground arith)

abbrev pub not_empty : Str → Bool
not_empty [] = false
not_empty (x ∷ xs) = true

pub in_index-add_user :
    (index : IdIndex) (user id other i : Str)
    → in_index (add_user index user id) other i
      ≡ ((not_empty user && user == other && id == i) || in_index index other i)
in_index-add_user index [] id other i = refl
in_index-add_user index (x ∷ user) id other i = in_index-add_to index (x ∷ user) id other i

pub in_index-remove_user :
    (index : IdIndex) (user id other i : Str)
    → in_index (remove_user index user id) other i
      ≡ (not (not_empty user && user == other && id == i) && in_index index other i)
in_index-remove_user index [] id other i = refl
in_index-remove_user index (x ∷ user) id other i = in_index-remove_from index (x ∷ user) id other i
