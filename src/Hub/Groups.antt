-- ===== src/Hub/Groups.antt =====
-- Joining and leaving a group keep the tables of the hub in agreement (JoinGroup and LeaveGroup of
-- pkg/websocket/connection.go).
use ling_framework.Base.{
  ℕ, ◌≡◌, refl, sym, ap, ◌∙◌, Bool, true, ◌&&◌, ◌||◌, not, List, arith, Str, str_comparable, member,
  nat_beq, nat_beq_iff, ◌==◌, Bool-cases, if◌then◌else◌, inl, inr,
}
use ling_framework.Hub.{
  Connection, Hub, Objects, put_object, IdIndex, add_to, remove_from, join_group, leave_group,
  insert_id, remove_id,
}
use ling_framework.Hub.Index.{
  in_index, in_index-add_to, in_index-remove_from, member-insert_id, member-remove_id,
}
use ling_framework.Hub.Consistent.{IsConsistent, put_object-keeps, same_owner, unique_after, holder}

module _ (h : Hub) (at : ℕ) (group : Str) (c : IsConsistent h) where
  abbrev it : Connection
  it = h.objects at

  same_id : (b : ℕ) → (it.id == (h.objects b).id) ≡ nat_beq at b
  same_id b = ground (
    arith,
    str_comparable.same_iff it.id (h.objects b).id,
    nat_beq_iff at b,
    c.unique at b,
    ap (λ w. (h.objects w).id),
  )

  regrouped :
      (groups : List Str) (other : Str) (b : ℕ) (old : Bool)
      → member other groups ≡ old
      → member other (put_object at (record it { groups = groups }) h.objects b).groups
        ≡ (if nat_beq at b then old else member other (h.objects b).groups)
  regrouped groups other b old e = elim (Bool-cases (nat_beq at b)) [
    | inl same ↦ rw same e
    | inr not_same ↦ rw not_same refl
  ]

  at_same :
      (other : Str) (b : ℕ)
      → nat_beq at b ≡ true
      → member other it.groups ≡ member other (h.objects b).groups
  at_same other b e = ap (λ w. member other (h.objects w).groups) ((nat_beq_iff at b).0 e)

  -- The connection after JoinGroup and after LeaveGroup.
  abbrev with_group : Connection
  with_group = record it { groups = insert_id group it.groups }

  abbrev without_group : Connection
  without_group = record it { groups = remove_id group it.groups }

  with_group_members :
      (other : Str) (b : ℕ)
      → member other (put_object at with_group h.objects b).groups
        ≡ ((group == other && it.id == (h.objects b).id) || member other (h.objects b).groups)
  with_group_members other b =
      regrouped (insert_id group it.groups) other b (group == other || member other it.groups)
        (member-insert_id group other it.groups)
      ∙ rw (same_id b) (ground (arith, at_same other b))

  without_group_members :
      (other : Str) (b : ℕ)
      → member other (put_object at without_group h.objects b).groups
        ≡ (not (group == other && it.id == (h.objects b).id) && member other (h.objects b).groups)
  without_group_members other b =
      regrouped (remove_id group it.groups) other b (not (group == other) && member other it.groups)
        (member-remove_id group other it.groups)
      ∙ rw (same_id b) (ground (arith, at_same other b))

  -- A change of the groups of one connection and of the index in step keeps the tables in agreement.
  regroup-IsConsistent :
      (index : IdIndex) (o : Objects)
      → ((b : ℕ) → (o b).id ≡ (h.objects b).id)
      → ((b : ℕ) → (o b).user_id ≡ (h.objects b).user_id)
      → ((b : ℕ) → (o b).send_closed ≡ (h.objects b).send_closed)
      → ((other : Str) (b : ℕ)
          → in_index h.group_connections other (h.objects b).id ≡ member other (h.objects b).groups
          → in_index index other (h.objects b).id ≡ member other (o b).groups)
      → ((other : Str) (b : ℕ)
          → in_index index other (h.objects b).id ≡ true
          → member other (o b).groups ≡ true)
      → IsConsistent (record h { objects = o; group_connections = index })
  regroup-IsConsistent index o ids users sends agree inside = record {
    unique = unique_after h.objects o ids c.unique;
    own_id = λ id b held. ids b ∙ c.own_id id b held;
    by_user = λ user id. c.by_user user id ∙ sym (same_owner h.objects o user (holder h id) users);
    by_group = λ other b held.
        ap (in_index index other) (ids b)
        ∙ agree other b (c.by_group other b (ap (holder h) (sym (ids b)) ∙ held));
    in_group = λ other b held. inside other b (ap (in_index index other) (sym (ids b)) ∙ held);
    by_shard = c.by_shard;
    open_send = λ id b held. sends b ∙ c.open_send id b held;
    calm = c.calm;
  }

  pub join_group-IsConsistent : IsConsistent (join_group at group h)
  unfolding join_group
  join_group-IsConsistent =
      let o : Objects = put_object at with_group h.objects in
      regroup-IsConsistent (add_to h.group_connections group it.id) o
        (put_object-keeps (λ w. w.id) h.objects at with_group refl)
        (put_object-keeps (λ w. w.user_id) h.objects at with_group refl)
        (put_object-keeps (λ w. w.send_closed) h.objects at with_group refl)
        (λ other b before.
          in_index-add_to h.group_connections group it.id other (h.objects b).id
          ∙ rw before (sym (with_group_members other b)))
        (λ other b now.
          with_group_members other b
          ∙ ground (
            arith,
            now,
            in_index-add_to h.group_connections group it.id other (h.objects b).id,
            c.in_group other b,
          ))

  pub leave_group-IsConsistent : IsConsistent (leave_group at group h)
  unfolding leave_group
  leave_group-IsConsistent =
      let o : Objects = put_object at without_group h.objects in
      regroup-IsConsistent (remove_from h.group_connections group it.id) o
        (put_object-keeps (λ w. w.id) h.objects at without_group refl)
        (put_object-keeps (λ w. w.user_id) h.objects at without_group refl)
        (put_object-keeps (λ w. w.send_closed) h.objects at without_group refl)
        (λ other b before.
          in_index-remove_from h.group_connections group it.id other (h.objects b).id
          ∙ rw before (sym (without_group_members other b)))
        (λ other b now.
          without_group_members other b
          ∙ ground (
            arith,
            now,
            in_index-remove_from h.group_connections group it.id other (h.objects b).id,
            c.in_group other b,
          ))
