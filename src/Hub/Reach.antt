-- ===== src/Hub/Reach.antt =====
-- The runs of a hub, whatever connections come, go, join, leave and are sent to, in any order
-- (pkg/websocket/websocket.go and connection.go).
use ling_framework.Base.{
  ℕ, ◌≡◌, refl, Bool, false, ◌||◌, none, if◌then◌else◌, arith, Str, str_comparable, inl,
}
use ling_framework.Base.Dict.{fetch, keys}
use ling_framework.Base.Int.{pos, ◌≤ℤ◌, max_int64}
use ling_framework.Base.Time.{Time}
use ling_framework.Hub.{
  Connection, HubConfig, Hub, Objects, put_object, new_hub, register_connection,
  unregister_connection, join_group, leave_group,
}
use ling_framework.Hub.Consistent.{UniqueIds, holder, Alike, SameShape-put_object}
use ling_framework.Hub.Delivery.{route, check_heartbeats, ping, answer}
use ling_framework.Hub.Kept.{
  IsSound, change-IsSound, route-IsSound, check_each-IsSound, register-IsSound, unregister-IsSound,
  join-IsSound, part-IsSound,
}

-- A step of the hub: a method from its beginning to its end. A connection is registered once, with
-- an open channel, as HandleWebSocket does, and answers a ping only while its channel is open.
pub data Step (h : Hub) : Hub → Type 0 where
  registers :
      (at : ℕ)
      → holder h (h.objects at).id ≡ none
      → (h.objects at).send_closed ≡ false
      → Step h (register_connection at h)
  unregisters : (at : ℕ) → Step h (unregister_connection at h)
  joins : (at : ℕ) (group : Str) → Step h (join_group at group h)
  parts : (at : ℕ) (group : Str) → Step h (leave_group at group h)
  routes :
      (accepts : ℕ → Bool) (drained : Bool) (user group bytes : Str)
      → Step h (route accepts drained user group bytes h)
  beats : (now : Time) → Step h (check_heartbeats now h)
  pings :
      (now : Time) (pong : Str) (at : ℕ)
      → (h.objects at).send_closed ≡ false
      → Step h (ping now pong at h)

pub data Reach (h : Hub) : Hub → Type 0 where
  here : Reach h h
  next : {g k : Hub} → Reach h g → Step g k → Reach h k

answer-Alike :
    (pong : Str) (now : Time) (b : Connection)
    → let c : Connection = record b { last_ping = now } in
      Alike b (if c.send_closed then c else answer pong c)
answer-Alike pong now b = ground arith

ping-IsSound :
    (now : Time) (pong : Str) (at : ℕ) (h : Hub)
    → (h.objects at).send_closed ≡ false
    → IsSound h
    → IsSound (ping now pong at h)
unfolding ping
ping-IsSound now pong at h is_live s =
    let c : Connection = record (h.objects at) { last_ping = now } in
    change-IsSound h (put_object at (if c.send_closed then c else answer pong c) h.objects)
      (h.panicked || c.send_closed) s
      (SameShape-put_object h.objects at (if c.send_closed then c else answer pong c)
        (answer-Alike pong now (h.objects at)))
      (ground (arith, s.consistent.calm, is_live))

Step-IsSound : {h k : Hub} → Step h k → IsSound h → IsSound k
unfolding check_heartbeats ping
Step-IsSound {h} (registers at free is_live) s = register-IsSound at h free is_live s
Step-IsSound {h} (unregisters at) s = unregister-IsSound at h s
Step-IsSound {h} (joins at group) s = join-IsSound at group h s
Step-IsSound {h} (parts at group) s = part-IsSound at group h s
Step-IsSound {h} (routes accepts drained user group bytes) s =
    route-IsSound accepts drained user group bytes h s
Step-IsSound {h} (beats now) s = check_each-IsSound now (keys h.connections) h s
Step-IsSound {h} (pings now pong at is_live) s = ping-IsSound now pong at h is_live s

new-IsSound :
    (config : HubConfig) (objects : Objects)
    → UniqueIds objects
    → config.max_connections ≤ℤ pos max_int64
    → IsSound (new_hub config objects)
unfolding fetch
new-IsSound config objects unique limit = record {
  consistent = record {
    unique = unique;
    own_id = λ id at held. cc;
    by_user = λ user id. refl;
    by_group = λ group at held. cc;
    in_group = λ group at held. cc;
    by_shard = λ i id. ground arith;
    open_send = λ id at held. cc;
    calm = refl;
  };
  counted = record {
    table = tt;
    users = λ key. tt;
    groups = λ key. tt;
    shards = λ i. tt;
    count = refl;
    bounded = inl refl;
    limit = limit;
  };
}

Reach-IsSound : {h k : Hub} → IsSound h → Reach h k → IsSound k
Reach-IsSound s here = s
Reach-IsSound s (next r step) = Step-IsSound step (Reach-IsSound s r)

-- In every run of a new hub whose connections have ids of their own, in which the methods come one
-- after another and do not overlap, whatever connections register (each once, with an open
-- channel), unregister, join and leave groups, are pinged while their channel is open, time out
-- and are sent to by the hub, the tables agree: the index of the users has exactly the registered connections of each
-- user, that of the groups has exactly the groups of each registered connection, the shards split
-- the connections by their hash, no id stands twice, the counter is the number of connections and at
-- most MaxConnections (or there is none), and no channel is sent to after it was closed or closed
-- twice.
pub Reach-new_hub :
    (config : HubConfig) (objects : Objects) (h : Hub)
    → UniqueIds objects
    → config.max_connections ≤ℤ pos max_int64
    → Reach (new_hub config objects) h
    → IsSound h
Reach-new_hub config objects h unique limit r =
    Reach-IsSound (new-IsSound config objects unique limit) r
