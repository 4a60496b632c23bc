-- ===== src/Hub/Kept.antt =====
-- Each method of the hub keeps the tables sound (pkg/websocket/websocket.go and connection.go).
use ling_framework.Base.{
  if_holds, ℕ, zero, suc, ◌≡◌, refl, ap, ◌∙◌, Bool, true, false, ◌||◌, Option, none, some, List, [],
  ◌∷◌, arith, Str, str_comparable, Bool-cases, Option-cases, inl, inr,
}
use ling_framework.Base.Dict.{Dict, fetch, keys, is_some}
use ling_framework.Base.Int.{leb_ℤ}
use ling_framework.Base.Time.{Time}
use ling_framework.Hub.{
  Connection, Hub, Objects, put_object, close_conn, register_connection, unregister_connection,
  join_group, leave_group, ids_of,
}
use ling_framework.Hub.Consistent.{
  IsConsistent, holder, SameShape, SameShape-put_object, Alike, change-IsConsistent,
}
use ling_framework.Hub.Members.{enter-IsConsistent}
use ling_framework.Hub.Leaving.{leave-IsConsistent}
use ling_framework.Hub.Groups.{join_group-IsConsistent, leave_group-IsConsistent}
use ling_framework.Hub.Counted.{
  IsCounted, enter-IsCounted, leave-IsCounted, add_to-SetsDistinct, remove_from-SetsDistinct,
}
use ling_framework.Hub.Delivery.{
  try_send, send_at, send_found, send_each, send_to_user, send_to_group, broadcast_from,
  send_to_shard, route, check_at, check_each, mark_dead, is_late,
}
use ling_framework.Hub.Sent.{try_send-Alike, send_at-tables}

pub record IsSound (h : Hub) : Type 0 where
  pub consistent : IsConsistent h
  pub counted : IsCounted h

pub change-IsSound :
    (h : Hub) (objects : Objects) (p : Bool)
    → IsSound h
    → SameShape h.objects objects
    → p ≡ false
    → IsSound (record h { objects = objects; panicked = p })
change-IsSound h objects p s same e =
    let k = s.counted in
    record {
      consistent = change-IsConsistent h objects p s.consistent same e;
      counted = record {
        table = k.table;
        users = k.users;
        groups = k.groups;
        shards = k.shards;
        count = k.count;
        bounded = k.bounded;
        limit = k.limit;
      };
    }

pub put-IsSound :
    (h : Hub) (at : ℕ) (c : Connection)
    → IsSound h
    → Alike (h.objects at) c
    → IsSound (record h { objects = put_object at c h.objects })
put-IsSound h at c s a =
    change-IsSound h (put_object at c h.objects) h.panicked s
      (SameShape-put_object h.objects at c a) s.consistent.calm

send_at-IsSound :
    (drained : Bool) (bytes id : Str) (at : ℕ) (h : Hub)
    → holder h id ≡ some at
    → IsSound h
    → IsSound (send_at drained bytes at h)
unfolding send_at
send_at-IsSound drained bytes id at h held s = elim (Bool-cases (h.objects at).is_alive) [
  | inl e ↦ simp e (
      change-IsSound h (put_object at (try_send h.config drained bytes (h.objects at)) h.objects)
        (h.panicked || (h.objects at).send_closed) s
        (SameShape-put_object h.objects at (try_send h.config drained bytes (h.objects at))
          (try_send-Alike h.config drained bytes (h.objects at)))
        (ground (arith, s.consistent.calm, s.consistent.open_send id at held)))
  | inr e ↦ simp e s
]

-- What a table holds is registered.
abbrev Registered : Dict Str ℕ → Hub → Type 0
Registered table h = (id : Str) (at : ℕ) → fetch table id ≡ some at → holder h id ≡ some at

send_found-IsSound :
    (drained : Bool) (bytes id : Str) (table : Dict Str ℕ) (h : Hub) (found : Option ℕ)
    → fetch table id ≡ found
    → Registered table h
    → IsSound h
    → IsSound (send_found drained bytes found h)
      × ((send_found drained bytes found h).connections ≡ h.connections)
send_found-IsSound drained bytes id table h none e r s = (s, refl)
send_found-IsSound drained bytes id table h (some at) e r s = (
  send_at-IsSound drained bytes id at h (r id at e) s,
  ap (λ w. w.connections) (send_at-tables drained bytes at h).2,
)

send_each-IsSound :
    (drained : Bool) (bytes : Str) (table : Dict Str ℕ) (ids : List Str) (h : Hub)
    → Registered table h
    → IsSound h
    → IsSound (send_each drained bytes table ids h)
unfolding send_each
send_each-IsSound drained bytes table [] h r s = s
send_each-IsSound drained bytes table (id ∷ ids) h r s =
    let found = fetch table id in
    let done = send_found-IsSound drained bytes id table h found refl r s in
    send_each-IsSound drained bytes table ids (send_found drained bytes found h)
      (λ i at e. ap (λ t. fetch t i) done.1 ∙ r i at e) done.0

pub broadcast-IsSound :
    (accepts : ℕ → Bool) (drained : Bool) (bytes : Str) (n : ℕ) (h : Hub)
    → IsSound h
    → IsSound (broadcast_from accepts drained bytes n h)
unfolding broadcast_from
broadcast-IsSound accepts drained bytes zero h s = s
broadcast-IsSound accepts drained bytes (suc n) h s =
    let g = broadcast_from accepts drained bytes n h in
    let sound = broadcast-IsSound accepts drained bytes n h s in
    if_holds IsSound (accepts n) (send_to_shard drained bytes n g) g
      (λ taken.
        send_each-IsSound drained bytes (g.shard_conns n) (keys (g.shard_conns n)) g
          (λ id at e. ground (arith, e, sound.consistent.by_shard n id)) sound)
      (λ dropped. sound)

pub route-IsSound :
    (accepts : ℕ → Bool) (drained : Bool) (user group bytes : Str) (h : Hub)
    → IsSound h
    → IsSound (route accepts drained user group bytes h)
unfolding route send_to_user send_to_group
route-IsSound accepts drained [] [] bytes h s =
    broadcast-IsSound accepts drained bytes h.config.shard_count h s
route-IsSound accepts drained [] (x ∷ group) bytes h s =
    send_each-IsSound drained bytes h.connections (ids_of (fetch h.group_connections (x ∷ group))) h
      (λ id at e. e) s
route-IsSound accepts drained (x ∷ user) group bytes h s =
    send_each-IsSound drained bytes h.connections (ids_of (fetch h.user_connections (x ∷ user))) h
      (λ id at e. e) s

check_at-IsSound :
    (now : Time) (found : Option ℕ) (h : Hub) → IsSound h → IsSound (check_at now found h)
check_at-IsSound now none h s = s
check_at-IsSound now (some at) h s = elim (Bool-cases (is_late h.config now (h.objects at))) [
  | inl e ↦ simp e (put-IsSound h at (mark_dead (h.objects at)) s (refl, refl, refl, refl))
  | inr e ↦ simp e s
]

pub check_each-IsSound :
    (now : Time) (ids : List Str) (h : Hub) → IsSound h → IsSound (check_each now ids h)
unfolding check_each
check_each-IsSound now [] h s = s
check_each-IsSound now (id ∷ ids) h s =
    check_each-IsSound now ids (check_at now (fetch h.connections id) h)
      (check_at-IsSound now (fetch h.connections id) h s)

pub register-IsSound :
    (at : ℕ) (h : Hub)
    → holder h (h.objects at).id ≡ none
    → (h.objects at).send_closed ≡ false
    → IsSound h
    → IsSound (register_connection at h)
unfolding register_connection
register-IsSound at h free is_live s =
    elim (Bool-cases (leb_ℤ h.config.max_connections h.connection_count)) [
      | inl full ↦
          simp full (put-IsSound h at (close_conn (h.objects at)) s (refl, refl, refl, refl))
      | inr room ↦ simp room (record {
        consistent = enter-IsConsistent h at s.consistent free is_live;
        counted = enter-IsCounted at h s.counted free room;
      })
    ]

-- What is registered under the id of a connection is that connection.
itself :
    (at : ℕ) (h : Hub)
    → IsConsistent h
    → is_some (holder h (h.objects at).id) ≡ true
    → holder h (h.objects at).id ≡ some at
itself at h c e = elim (Option-cases (holder h (h.objects at).id)) [
  | inl absent ↦ absurd (ground (arith, e, ap is_some absent))
  | inr (b, found) ↦ found ∙ ap some (c.unique b at (c.own_id (h.objects at).id b found))
]

pub unregister-IsSound : (at : ℕ) (h : Hub) → IsSound h → IsSound (unregister_connection at h)
unfolding unregister_connection
unregister-IsSound at h s = elim (Bool-cases (is_some (fetch h.connections (h.objects at).id))) [
  | inr e ↦ simp e s
  | inl e ↦ simp e (record {
    consistent = leave-IsConsistent h at s.consistent (itself at h s.consistent e);
    counted = leave-IsCounted at h s.counted e;
  })
]

pub join-IsSound : (at : ℕ) (group : Str) (h : Hub) → IsSound h → IsSound (join_group at group h)
unfolding join_group
join-IsSound at group h s =
    let k = s.counted in
    record {
      consistent = join_group-IsConsistent h at group s.consistent;
      counted = record {
        table = k.table;
        users = k.users;
        groups = add_to-SetsDistinct h.group_connections group (h.objects at).id k.groups;
        shards = k.shards;
        count = k.count;
        bounded = k.bounded;
        limit = k.limit;
      };
    }

pub part-IsSound : (at : ℕ) (group : Str) (h : Hub) → IsSound h → IsSound (leave_group at group h)
unfolding leave_group
part-IsSound at group h s =
    let k = s.counted in
    record {
      consistent = leave_group-IsConsistent h at group s.consistent;
      counted = record {
        table = k.table;
        users = k.users;
        groups = remove_from-SetsDistinct h.group_connections group (h.objects at).id k.groups;
        shards = k.shards;
        count = k.count;
        bounded = k.bounded;
        limit = k.limit;
      };
    }
