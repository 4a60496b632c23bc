-- ===== src/Hub/Members.antt =====
-- Registering, unregistering and the groups keep the tables of the hub in agreement
-- (pkg/websocket/websocket.go and connection.go).
use ling_framework.Base.{
  ℕ, ◌≡◌, refl, sym, ap, ◌∙◌, true, false, none, some, arith, Str, str_comparable, member, nat_beq,
  nat_beq_iff, ◌==◌, Bool-cases, if◌then◌else◌, inl, inr,
}
use ling_framework.Base.Dict.{fetch, store, fetch-store}
use ling_framework.Base.Dict.Laws.{fetch-store_cases}
use ling_framework.Hub.{Connection, Hub, enter, shard_index, put_shard, add_user, add_to_all}
use ling_framework.Hub.Index.{in_index, not_empty, in_index-add_to_all, in_index-add_user}
use ling_framework.Hub.Consistent.{IsConsistent, holder, has_user}

module _ (h : Hub) (at : ℕ) (c : IsConsistent h) where
  abbrev it : Connection
  it = h.objects at

  entered_user :
      (user id : Str)
      → holder h it.id ≡ none
      → in_index (add_user h.user_connections it.user_id it.id) user id
        ≡ has_user h.objects user (fetch (store h.connections it.id at) id)
  entered_user user id free =
      in_index-add_user h.user_connections it.user_id it.id user id
      ∙ elim (Bool-cases (it.id == id)) [
        | inl e ↦
            let before : in_index h.user_connections user id ≡ false =
              c.by_user user id
              ∙ ap (has_user h.objects user)
                  (ap (holder h) (sym ((str_comparable.same_iff it.id id).0 e)) ∙ free) in
            rw (fetch-store h.connections it.id id at, e)
              (ground (arith, before, str_comparable.same_iff it.user_id user, ap not_empty))
        | inr e ↦ rw (fetch-store h.connections it.id id at, e) (ground (arith, c.by_user user id))
      ]

  entered_group :
      (group : Str) (b : ℕ)
      → fetch (store h.connections it.id at) (h.objects b).id ≡ some b
      → in_index (add_to_all h.group_connections it.groups it.id) group (h.objects b).id
        ≡ member group (h.objects b).groups
  entered_group group b held =
      in_index-add_to_all h.group_connections it.groups it.id group (h.objects b).id
      ∙ elim (Bool-cases (it.id == (h.objects b).id)) [
        | inl e ↦
            let same : at ≡ b =
              c.unique at b ((str_comparable.same_iff it.id (h.objects b).id).0 e) in
            rw e
              (ground (arith, ap (λ w. member group (h.objects w).groups) same, c.in_group group b))
        | inr e ↦
            let before : holder h (h.objects b).id ≡ some b =
              sym (fetch-store h.connections it.id (h.objects b).id at ∙ rw e refl) ∙ held in
            rw e (ground (arith, c.by_group group b before))
      ]

  entered_inside :
      (group : Str) (b : ℕ)
      → in_index (add_to_all h.group_connections it.groups it.id) group (h.objects b).id ≡ true
      → member group (h.objects b).groups ≡ true
  entered_inside group b inside = ground (
    arith,
    in_index-add_to_all h.group_connections it.groups it.id group (h.objects b).id,
    inside,
    c.in_group group b,
    str_comparable.same_iff it.id (h.objects b).id,
    c.unique at b,
    ap (λ w. member group (h.objects w).groups) {x = at} {y = b},
  )

  shard_of :
      (id other : Str)
      → (id == other) ≡ true
      → shard_index h.config.shard_count id ≡ shard_index h.config.shard_count other
  shard_of id other e =
      ap (shard_index h.config.shard_count) ((str_comparable.same_iff id other).0 e)

  entered_shard :
      (i : ℕ) (id : Str)
      → let sh = shard_index h.config.shard_count it.id in
        fetch (put_shard sh (store (h.shard_conns sh) it.id at) h.shard_conns i) id ≡ (
          if nat_beq (shard_index h.config.shard_count id) i
          then fetch (store h.connections it.id at) id
          else none)
  entered_shard i id =
      let sh = shard_index h.config.shard_count it.id in
      let new_table = fetch-store h.connections it.id id at in
      let place = nat_beq_iff (shard_index h.config.shard_count id) i in
      elim (Bool-cases (nat_beq sh i)) [
        | inl e ↦ rw e (
            fetch-store (h.shard_conns sh) it.id id at
            ∙ ground (
              arith,
              new_table,
              c.by_shard sh id,
              (nat_beq_iff sh i).0 e,
              place,
              shard_of it.id id,
              nat_beq_iff (shard_index h.config.shard_count id) sh,
            ))
        | inr e ↦ rw e (
            c.by_shard i id ∙ ground (arith, new_table, nat_beq_iff sh i, place, shard_of it.id id))
      ]

  pub enter-IsConsistent :
      holder h it.id ≡ none → it.send_closed ≡ false → IsConsistent (enter at it h)
  enter-IsConsistent free is_live = record {
    unique = c.unique;
    own_id = λ id b held. elim (fetch-store_cases h.connections it.id id at b held) [
      | inl (name, same) ↦ ap (λ w. (h.objects w).id) (sym same) ∙ name
      | inr (other, before) ↦ c.own_id id b before
    ];
    by_user = λ user id. entered_user user id free;
    by_group = entered_group;
    in_group = entered_inside;
    by_shard = entered_shard;
    open_send = λ id b held. elim (fetch-store_cases h.connections it.id id at b held) [
      | inl (name, same) ↦ ap (λ w. (h.objects w).send_closed) (sym same) ∙ is_live
      | inr (other, before) ↦ c.open_send id b before
    ];
    calm = c.calm;
  }
