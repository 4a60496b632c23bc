-- ===== src/Hub/Counted.antt =====
-- No id stands twice in a table of the hub, and the counter is right (pkg/websocket/websocket.go).
use ling_framework.Base.{
  ℕ, ◌+◌, ◌≡◌, refl, sym, ap, ◌∙◌, true, false, Option, none, some, List, [], ◌∷◌, arith, Str,
  str_comparable, member, length, Distinct, nat_beq, ◌==◌, Bool-cases, if◌then◌else◌, ◌⊎◌, inl, inr,
  subst,
}
use ling_framework.Base.Dict.{Dict, fetch, store, delete, is_some, keys}
use ling_framework.Base.Dict.Laws.{store-Distinct, delete-Distinct, length-store, length-delete}
use ling_framework.Base.Int.{
  pos, ◌-ℤ◌, ◌≤ℤ◌, leb_ℤ, inc64, wrap64, max_int64, inc64-pos, wrap64-dec,
}
use ling_framework.Hub.{
  Hub, IdIndex, ids_of, insert_id, remove_id, add_to, keep_set, remove_found, remove_from,
  add_to_all, remove_from_all, add_user, remove_user, enter, leave, put_shard, shard_index,
}
use ling_framework.Hub.Index.{ids-store, ids-keep_set, member-remove_id}

abbrev pub SetsDistinct : IdIndex → Type 0
SetsDistinct index = (key : Str) → Distinct (ids_of (fetch index key))

pub record IsCounted (h : Hub) : Type 0 where
  pub table : Distinct (keys h.connections)
  pub users : SetsDistinct h.user_connections
  pub groups : SetsDistinct h.group_connections
  pub shards : (i : ℕ) → Distinct (keys (h.shard_conns i))
  pub count : h.connection_count ≡ pos (length h.connections)
  pub bounded :
      (length h.connections ≡ 0) ⊎ (pos (length h.connections) ≤ℤ h.config.max_connections)
  pub limit : h.config.max_connections ≤ℤ pos max_int64

insert_id-Distinct : (id : Str) (ids : List Str) → Distinct ids → Distinct (insert_id id ids)
unfolding insert_id
insert_id-Distinct id ids d = elim (Bool-cases (member id ids)) [
  | inl e ↦ rw e d
  | inr e ↦ rw e (e, d)
]

remove_id-Distinct : (id : Str) (ids : List Str) → Distinct ids → Distinct (remove_id id ids)
unfolding remove_id
remove_id-Distinct id [] d = tt
remove_id-Distinct id (x ∷ xs) d = elim (Bool-cases (x == id)) [
  | inl e ↦ rw e (remove_id-Distinct id xs d.1)
  | inr e ↦ rw e (ground (arith, d.0, member-remove_id id x xs), remove_id-Distinct id xs d.1)
]

replaced :
    (index after : IdIndex) (key : Str) (ids : List Str)
    → ((other : Str)
        → ids_of (fetch after other) ≡ (if key == other then ids else ids_of (fetch index other)))
    → Distinct ids
    → SetsDistinct index
    → SetsDistinct after
replaced index after key ids h d s other =
    subst Distinct (sym (h other))
      (elim (Bool-cases (key == other)) [ inl e ↦ rw e d | inr e ↦ rw e (s other) ])

pub add_to-SetsDistinct :
    (index : IdIndex) (key id : Str) → SetsDistinct index → SetsDistinct (add_to index key id)
unfolding add_to
add_to-SetsDistinct index key id s =
    let ids = insert_id id (ids_of (fetch index key)) in
    replaced index (store index key ids) key ids (λ other. ids-store index key other ids)
      (insert_id-Distinct id (ids_of (fetch index key)) (s key)) s

removed-SetsDistinct :
    (index : IdIndex) (key id : Str) (found : Option (List Str))
    → fetch index key ≡ found
    → SetsDistinct index
    → SetsDistinct (remove_found index key id found)
removed-SetsDistinct index key id none e s = s
removed-SetsDistinct index key id (some ids) e s =
    replaced index (keep_set index key (remove_id id ids)) key (remove_id id ids)
      (λ other. ids-keep_set index key other (remove_id id ids))
      (remove_id-Distinct id ids (subst Distinct (ap ids_of e) (s key))) s

pub remove_from-SetsDistinct :
    (index : IdIndex) (key id : Str) → SetsDistinct index → SetsDistinct (remove_from index key id)
unfolding remove_from
remove_from-SetsDistinct index key id s = removed-SetsDistinct index key id (fetch index key) refl s

add_to_all-SetsDistinct :
    (index : IdIndex) (keys : List Str) (id : Str)
    → SetsDistinct index
    → SetsDistinct (add_to_all index keys id)
unfolding add_to_all
add_to_all-SetsDistinct index [] id s = s
add_to_all-SetsDistinct index (key ∷ keys) id s =
    add_to_all-SetsDistinct (add_to index key id) keys id (add_to-SetsDistinct index key id s)

remove_from_all-SetsDistinct :
    (index : IdIndex) (keys : List Str) (id : Str)
    → SetsDistinct index
    → SetsDistinct (remove_from_all index keys id)
unfolding remove_from_all
remove_from_all-SetsDistinct index [] id s = s
remove_from_all-SetsDistinct index (key ∷ keys) id s =
    remove_from_all-SetsDistinct (remove_from index key id) keys id
      (remove_from-SetsDistinct index key id s)

add_user-SetsDistinct :
    (index : IdIndex) (user id : Str) → SetsDistinct index → SetsDistinct (add_user index user id)
add_user-SetsDistinct index [] id s = s
add_user-SetsDistinct index (x ∷ user) id s = add_to-SetsDistinct index (x ∷ user) id s

remove_user-SetsDistinct :
    (index : IdIndex) (user id : Str)
    → SetsDistinct index
    → SetsDistinct (remove_user index user id)
remove_user-SetsDistinct index [] id s = s
remove_user-SetsDistinct index (x ∷ user) id s = remove_from-SetsDistinct index (x ∷ user) id s

shard-Distinct :
    (shards : ℕ → Dict Str ℕ) (sh : ℕ) (shard : Dict Str ℕ)
    → ((i : ℕ) → Distinct (keys (shards i)))
    → Distinct (keys shard)
    → (i : ℕ) → Distinct (keys (put_shard sh shard shards i))
shard-Distinct shards sh shard s d i = elim (Bool-cases (nat_beq sh i)) [
  | inl e ↦ rw e d
  | inr e ↦ rw e (s i)
]

pub enter-IsCounted :
    (at : ℕ) (h : Hub)
    → IsCounted h
    → fetch h.connections (h.objects at).id ≡ none
    → leb_ℤ h.config.max_connections h.connection_count ≡ false
    → IsCounted (enter at (h.objects at) h)
enter-IsCounted at h c free room =
    let it = h.objects at in
    let sh = shard_index h.config.shard_count it.id in
    let longer : length (store h.connections it.id at) ≡ length h.connections + 1 =
      length-store h.connections it.id at ∙ ground (arith, free) in
    let below : leb_ℤ h.config.max_connections (pos (length h.connections)) ≡ false =
      ap (leb_ℤ h.config.max_connections) (sym c.count) ∙ room in
    record {
      table = store-Distinct h.connections it.id at c.table;
      users = add_user-SetsDistinct h.user_connections it.user_id it.id c.users;
      groups = add_to_all-SetsDistinct h.group_connections it.groups it.id c.groups;
      shards =
          shard-Distinct h.shard_conns sh (store (h.shard_conns sh) it.id at) c.shards
            (store-Distinct (h.shard_conns sh) it.id at (c.shards sh));
      count =
          ap inc64 c.count
          ∙ inc64-pos (length h.connections) (ground (arith, below, c.limit))
          ∙ ap pos (sym longer);
      bounded = inr (ground (arith, below, longer));
      limit = c.limit;
    }

pub leave-IsCounted :
    (at : ℕ) (h : Hub)
    → IsCounted h
    → is_some (fetch h.connections (h.objects at).id) ≡ true
    → IsCounted (leave at (h.objects at) h)
leave-IsCounted at h c there =
    let it = h.objects at in
    let sh = shard_index h.config.shard_count it.id in
    let shorter : length (delete h.connections it.id) + 1 ≡ length h.connections =
      ground (arith, length-delete h.connections it.id c.table, there) in
    record {
      table = delete-Distinct h.connections it.id c.table;
      users = remove_user-SetsDistinct h.user_connections it.user_id it.id c.users;
      groups = remove_from_all-SetsDistinct h.group_connections it.groups it.id c.groups;
      shards =
          shard-Distinct h.shard_conns sh (delete (h.shard_conns sh) it.id) c.shards
            (delete-Distinct (h.shard_conns sh) it.id (c.shards sh));
      count =
          ap (λ z. wrap64 (z -ℤ pos 1)) c.count
          ∙ wrap64-dec (length h.connections) (length (delete h.connections it.id)) shorter
              (ground (arith, c.bounded, c.limit, shorter));
      bounded = ground (arith, c.bounded, shorter);
      limit = c.limit;
    }
