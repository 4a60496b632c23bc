-- ===== src/Hub/Delivery.antt =====
-- Sending through the hub (sendToUser, sendToGroup, the broadcast jobs, the choice of run, the
-- heartbeats of pkg/websocket/websocket.go, and SendMessage of connection.go). `drained` tells
-- whether the reader of a full channel takes an element before SendTimeout has passed. Send has a
-- buffer (MessageBufferSize is positive).
use ling_framework.Base.{
  ℕ, zero, suc, Bool, true, false, ◌||◌, Option, none, some, List, [], ◌∷◌, ◌++◌, Str,
  str_comparable, codes, length, ltb, if◌then◌else◌,
}
use ling_framework.Base.Dict.{Dict, fetch, keys}
use ling_framework.Base.Int.{ltb_ℤ}
use ling_framework.Base.Time.{Time, sub_time}
use ling_framework.Hub.{Connection, HubConfig, Hub, put_object, close_conn, ids_of}

abbrev pub rest_of : List Str → List Str
rest_of [] = []
rest_of (x ∷ xs) = xs

abbrev pub push : Str → Connection → Connection
push bytes c = record c { send = c.send ++ bytes ∷ [] }

abbrev pub on_full : HubConfig → Connection → Connection
on_full config c = if config.close_on_backpressure then close_conn c else c

-- trySend
unfoldable pub try_send : HubConfig → Bool → Str → Connection → Connection
try_send config drained bytes c =
    if ltb (length c.send) c.capacity
    then push bytes c
    else if config.drop_on_full
    then on_full config c
    else if drained
    then push bytes (record c { send = rest_of c.send })
    else on_full config c

-- One turn of the loops: a connection that is alive gets the data; a closed channel panics.
unfoldable pub send_at : Bool → Str → ℕ → Hub → Hub
send_at drained bytes at h =
    let c = h.objects at in
    if c.is_alive
    then record h {
      objects = put_object at (try_send h.config drained bytes c) h.objects;
      panicked = h.panicked || c.send_closed;
    }
    else h

abbrev pub send_found : Bool → Str → Option ℕ → Hub → Hub
send_found drained bytes none h = h
send_found drained bytes (some at) h = send_at drained bytes at h

-- The loops over ids, whose connections a table holds.
unfoldable pub send_each : Bool → Str → Dict Str ℕ → List Str → Hub → Hub
send_each drained bytes table [] h = h
send_each drained bytes table (id ∷ ids) h =
    send_each drained bytes table ids (send_found drained bytes (fetch table id) h)

unfoldable pub send_to_user : Bool → Str → Str → Hub → Hub
send_to_user drained user bytes h =
    send_each drained bytes h.connections (ids_of (fetch h.user_connections user)) h

unfoldable pub send_to_group : Bool → Str → Str → Hub → Hub
send_to_group drained group bytes h =
    send_each drained bytes h.connections (ids_of (fetch h.group_connections group)) h

-- broadcastWorker, on the connections of a shard.
abbrev pub send_to_shard : Bool → Str → ℕ → Hub → Hub
send_to_shard drained bytes n h =
    send_each drained bytes (h.shard_conns n) (keys (h.shard_conns n)) h

-- The jobs of sendToAll and of enqueueBroadcastAll, worked off one after another: those of the
-- first `n` shards. `accepts` tells for which shards the queue of the jobs has room; the message is
-- dropped for the others.
unfoldable pub broadcast_from : (ℕ → Bool) → Bool → Str → ℕ → Hub → Hub
broadcast_from accepts drained bytes zero h = h
broadcast_from accepts drained bytes (suc n) h =
    let before = broadcast_from accepts drained bytes n h in
    if accepts n then send_to_shard drained bytes n before else before

abbrev pub send_to_all : (ℕ → Bool) → Bool → Str → Hub → Hub
send_to_all accepts drained bytes h = broadcast_from accepts drained bytes h.config.shard_count h

-- The target of a message: To, or else Group, or else all.
unfoldable pub route : (ℕ → Bool) → Bool → Str → Str → Str → Hub → Hub
route accepts drained [] [] bytes h = send_to_all accepts drained bytes h
route accepts drained [] (x ∷ group) bytes h = send_to_group drained (x ∷ group) bytes h
route accepts drained (x ∷ user) group bytes h = send_to_user drained (x ∷ user) bytes h

abbrev pub is_late : HubConfig → Time → Connection → Bool
is_late config now c = ltb_ℤ config.connection_timeout (sub_time now c.last_ping)

abbrev pub mark_dead : Connection → Connection
mark_dead c = record c { is_alive = false; status = codes "error"; conn_closed = true }

abbrev pub check_at : Time → Option ℕ → Hub → Hub
check_at now none h = h
check_at now (some at) h =
    let c = h.objects at in
    if is_late h.config now c
    then record h { objects = put_object at (mark_dead c) h.objects }
    else h

unfoldable pub check_each : Time → List Str → Hub → Hub
check_each now [] h = h
check_each now (id ∷ ids) h = check_each now ids (check_at now (fetch h.connections id) h)

-- checkHeartbeats
unfoldable pub check_heartbeats : Time → Hub → Hub
check_heartbeats now h = check_each now (keys h.connections) h

-- handlePing: the time is noted, and the pong is sent if Send has room. On a closed channel this
-- panics.
abbrev pub answer : Str → Connection → Connection
answer pong c = if ltb (length c.send) c.capacity then push pong c else c

unfoldable pub ping : Time → Str → ℕ → Hub → Hub
ping now pong at h =
    let c : Connection = record (h.objects at) { last_ping = now } in
    record h {
      objects = put_object at (if c.send_closed then c else answer pong c) h.objects;
      panicked = h.panicked || c.send_closed;
    }

-- SendMessage, with false for the error of a full buffer.
unfoldable pub send_message : Str → ℕ → Hub → Hub × Bool
send_message bytes at h =
    let c = h.objects at in
    if c.send_closed
    then (record h { panicked = true }, false)
    else if ltb (length c.send) c.capacity
    then (record h { objects = put_object at (push bytes c) h.objects }, true)
    else (h, false)
