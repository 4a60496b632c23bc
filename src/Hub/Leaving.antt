-- ===== src/Hub/Leaving.antt =====
-- Unregistering keeps the tables of the hub in agreement (unregisterConnection of
-- pkg/websocket/websocket.go).
use ling_framework.Base.{
  ℕ, ◌≡◌, refl, sym, ap, ◌∙◌, true, false, ◌&&◌, none, some, arith, Str, str_comparable, member,
  nat_beq, nat_beq_iff, ◌==◌, Bool-cases, if◌then◌else◌, inl, inr,
}
use ling_framework.Base.Dict.{fetch, delete, fetch-delete}
use ling_framework.Base.Dict.Laws.{fetch-delete_cases}
use ling_framework.Hub.{
  Connection, Hub, Objects, put_object, leave, shard_index, put_shard, remove_user, remove_from_all,
}
use ling_framework.Hub.Index.{in_index, not_empty, in_index-remove_from_all, in_index-remove_user}
use ling_framework.Hub.Consistent.{
  IsConsistent, put_object-keeps, same_owner, unique_after, holder, has_user,
}

module _ (h : Hub) (at : ℕ) (c : IsConsistent h)
    (there : holder h (h.objects at).id ≡ some at) where
  abbrev gone : Connection
  gone = h.objects at

  abbrev shut : Connection
  shut = record gone { send_closed = true }

  abbrev objects_left : Objects
  objects_left = put_object at shut h.objects

  left_id : (b : ℕ) → (objects_left b).id ≡ (h.objects b).id
  left_id = put_object-keeps (λ o. o.id) h.objects at shut refl

  left_user : (b : ℕ) → (objects_left b).user_id ≡ (h.objects b).user_id
  left_user = put_object-keeps (λ o. o.user_id) h.objects at shut refl

  left_groups : (b : ℕ) → (objects_left b).groups ≡ (h.objects b).groups
  left_groups = put_object-keeps (λ o. o.groups) h.objects at shut refl

  user_without :
      (user id : Str)
      → in_index (remove_user h.user_connections gone.user_id gone.id) user id
        ≡ has_user objects_left user (fetch (delete h.connections gone.id) id)
  user_without user id =
      in_index-remove_user h.user_connections gone.user_id gone.id user id
      ∙ elim (Bool-cases (gone.id == id)) [
        | inl e ↦
            let before : in_index h.user_connections user id
                ≡ (not_empty user && gone.user_id == user) =
              c.by_user user id
              ∙ ap (has_user h.objects user)
                  (ap (holder h) (sym ((str_comparable.same_iff gone.id id).0 e)) ∙ there) in
            rw (fetch-delete h.connections gone.id id, e)
              (ground (arith, before, str_comparable.same_iff gone.user_id user, ap not_empty))
        | inr e ↦
            rw (fetch-delete h.connections gone.id id, e)
              (ground (
                arith,
                c.by_user user id,
                same_owner h.objects objects_left user (holder h id) left_user,
              ))
      ]

  group_without :
      (group : Str) (b : ℕ)
      → fetch (delete h.connections gone.id) (objects_left b).id ≡ some b
      → in_index (remove_from_all h.group_connections gone.groups gone.id) group (objects_left b).id
        ≡ member group (objects_left b).groups
  group_without group b held =
      let before = fetch-delete_cases h.connections gone.id (objects_left b).id b held in
      let old : in_index h.group_connections group (objects_left b).id
          ≡ member group (objects_left b).groups =
        ap (in_index h.group_connections group) (left_id b)
        ∙ c.by_group group b (ap (holder h) (sym (left_id b)) ∙ before.1)
        ∙ ap (member group) (sym (left_groups b)) in
      in_index-remove_from_all h.group_connections gone.groups gone.id group (objects_left b).id
      ∙ rw before.0 (ground (arith, old))

  group_inside :
      (group : Str) (b : ℕ)
      → in_index (remove_from_all h.group_connections gone.groups gone.id) group (objects_left b).id
        ≡ true
      → member group (objects_left b).groups ≡ true
  group_inside group b inside =
      let old : in_index h.group_connections group (objects_left b).id ≡ true = ground (
        arith,
        inside,
        in_index-remove_from_all h.group_connections gone.groups gone.id group (objects_left b).id,
      ) in
      ap (member group) (left_groups b)
      ∙ c.in_group group b (ap (in_index h.group_connections group) (sym (left_id b)) ∙ old)

  shard_without :
      (i : ℕ) (id : Str)
      → let sh = shard_index h.config.shard_count gone.id in
        fetch (put_shard sh (delete (h.shard_conns sh) gone.id) h.shard_conns i) id ≡ (
          if nat_beq (shard_index h.config.shard_count id) i
          then fetch (delete h.connections gone.id) id
          else none)
  shard_without i id =
      let sh = shard_index h.config.shard_count gone.id in
      let new_table = fetch-delete h.connections gone.id id in
      let place = nat_beq_iff (shard_index h.config.shard_count id) i in
      elim (Bool-cases (nat_beq sh i)) [
        | inl e ↦ rw e (
            fetch-delete (h.shard_conns sh) gone.id id
            ∙ ground (
              arith,
              new_table,
              c.by_shard sh id,
              (nat_beq_iff sh i).0 e,
              place,
              ap (shard_index h.config.shard_count),
              nat_beq_iff (shard_index h.config.shard_count id) sh,
            ))
        | inr e ↦ rw e (
            c.by_shard i id
            ∙ ground (
              arith,
              new_table,
              nat_beq_iff sh i,
              place,
              str_comparable.same_iff gone.id id,
              ap (shard_index h.config.shard_count),
            ))
      ]

  open_without :
      (id : Str) (b : ℕ)
      → fetch (delete h.connections gone.id) id ≡ some b
      → (objects_left b).send_closed ≡ false
  open_without id b held =
      let before = fetch-delete_cases h.connections gone.id id b held in
      elim (Bool-cases (nat_beq at b)) [
        | inl e ↦
            let name : gone.id ≡ id =
              ap (λ w. (h.objects w).id) ((nat_beq_iff at b).0 e) ∙ c.own_id id b before.1 in
            absurd (ground (arith, before.0, (str_comparable.same_iff gone.id id).1 name))
        | inr e ↦ rw e (c.open_send id b before.1)
      ]

  pub leave-IsConsistent : IsConsistent (leave at gone h)
  leave-IsConsistent = record {
    unique = unique_after h.objects objects_left left_id c.unique;
    own_id = λ id b held.
        left_id b ∙ c.own_id id b (fetch-delete_cases h.connections gone.id id b held).1;
    by_user = user_without;
    by_group = group_without;
    in_group = group_inside;
    by_shard = shard_without;
    open_send = open_without;
    calm = ground (arith, c.calm, c.open_send gone.id at there);
  }
