-- ===== src/Hub/Targets.antt =====
-- Whom a message to a user or to a group reaches (sendToUser and sendToGroup of
-- pkg/websocket/websocket.go).
use ling_framework.Base.{
  ℕ, ◌≡◌, ap, ◌∙◌, Bool, true, ◌&&◌, Option, none, some, List, arith, Str, str_comparable, member,
  Distinct, nat_beq_iff, ◌==◌, Bool-cases, Option-cases, inl, inr,
}
use ling_framework.Base.Dict.{fetch}
use ling_framework.Hub.{Hub, ids_of}
use ling_framework.Hub.Index.{in_index, not_empty}
use ling_framework.Hub.Consistent.{IsConsistent, holder, has_user}
use ling_framework.Hub.Counted.{IsCounted}
use ling_framework.Hub.Delivery.{send_each, send_to_user, send_to_group}
use ling_framework.Hub.Sent.{receives, is_at, send_each-objects}

at_holder : (found : Option ℕ) (b : ℕ) → is_at found b ≡ true → found ≡ some b
at_holder none b e = cc
at_holder (some a) b e = ap some ((nat_beq_iff a b).0 e)

module _ (drained : Bool) (bytes : Str) where
  -- What is sent to a user or to a group, by the ids of an index.
  sent_by_index :
      (h : Hub) (ids : List Str)
      → IsConsistent h
      → Distinct ids
      → (b : ℕ)
      → (send_each drained bytes h.connections ids h).objects b
        ≡ receives h.config drained bytes
            (member (h.objects b).id ids && is_at (holder h (h.objects b).id) b)
            (h.objects b)
  sent_by_index h ids c d b = send_each-objects drained bytes h.connections ids h d c.own_id b

  user_hit :
      (h : Hub) (user : Str)
      → IsConsistent h
      → (b : ℕ)
      → (in_index h.user_connections user (h.objects b).id && is_at (holder h (h.objects b).id) b)
        ≡ (is_at (holder h (h.objects b).id) b && (not_empty user && (h.objects b).user_id == user))
  user_hit h user c b = elim (Option-cases (holder h (h.objects b).id)) [
    | inl absent ↦ ground (arith, ap (λ o. is_at o b) absent)
    | inr (a, found) ↦ ground (
      arith,
      ap (λ o. is_at o b) found,
      c.by_user user (h.objects b).id,
      ap (has_user h.objects user) found,
      nat_beq_iff a b,
      ap (λ w. (h.objects w).user_id == user),
    )
  ]

  -- Take a hub whose tables agree (IsConsistent and IsCounted, which Reach-new_hub gives for runs in
  -- which every connection has an id of its own). A message to a user is sent once to each
  -- connection that is registered for this user and alive, and to no other, if no other method
  -- runs while it is sent.
  pub send_to_user-receives :
      (h : Hub) (user : Str)
      → IsConsistent h
      → IsCounted h
      → (b : ℕ)
      → (send_to_user drained user bytes h).objects b
        ≡ receives h.config drained bytes
            (is_at (holder h (h.objects b).id) b
              && (not_empty user && (h.objects b).user_id == user))
            (h.objects b)
  unfolding send_to_user
  send_to_user-receives h user c k b =
      sent_by_index h (ids_of (fetch h.user_connections user)) c (k.users user) b
      ∙ ap (λ w. receives h.config drained bytes w (h.objects b)) (user_hit h user c b)

  group_hit :
      (h : Hub) (group : Str)
      → IsConsistent h
      → (b : ℕ)
      → (in_index h.group_connections group (h.objects b).id && is_at (holder h (h.objects b).id) b)
        ≡ (is_at (holder h (h.objects b).id) b && member group (h.objects b).groups)
  group_hit h group c b = elim (Bool-cases (is_at (holder h (h.objects b).id) b)) [
    | inr e ↦ ground (arith, e)
    | inl e ↦ ground (arith, e, c.by_group group b (at_holder (holder h (h.objects b).id) b e))
  ]

  -- A message to a group is sent once to each connection that is registered, alive and in the
  -- group, and to no other.
  pub send_to_group-receives :
      (h : Hub) (group : Str)
      → IsConsistent h
      → IsCounted h
      → (b : ℕ)
      → (send_to_group drained group bytes h).objects b
        ≡ receives h.config drained bytes
            (is_at (holder h (h.objects b).id) b && member group (h.objects b).groups)
            (h.objects b)
  unfolding send_to_group
  send_to_group-receives h group c k b =
      sent_by_index h (ids_of (fetch h.group_connections group)) c (k.groups group) b
      ∙ ap (λ w. receives h.config drained bytes w (h.objects b)) (group_hit h group c b)
