-- ===== src/Hub.antt =====
-- The hub of WebSocket connections, pkg/websocket: the tables of websocket.go and the methods that
-- change them, with JoinGroup and LeaveGroup of connection.go. A *Connection is an address into
-- `objects`; a map[string]bool that only ever holds true is the list of its keys. A method runs to
-- its end before the next one begins: registering, unregistering and the heartbeats hold the mutex
-- of the hub, while sending holds none, and joining and leaving a group lock the connection first and
-- the hub afterwards; what happens when these overlap is not modelled. `panicked` tells of a send on
-- a closed channel and of a second close.
pub mod Index
pub mod Delivery
pub mod Consistent
pub mod Members
pub mod Leaving
pub mod Groups
pub mod Counted
pub mod Kept
pub mod Reach
pub mod Broadcast
pub mod Sent
pub mod Targets
mod Tests
use ling_framework.Base.{
  ℕ, zero, suc, ◌+◌, ◌*◌, ◌%◌, Bool, true, false, ◌&&◌, ◌||◌, not, Option, none, some, List, [],
  ◌∷◌, ◌++◌, Str, str_comparable, codes, length, member, nat_beq, ltb, leb, bit_xor, ◌==◌,
  if◌then◌else◌,
}
use ling_framework.Base.Dict.{Dict, fetch, store, delete, is_some}
use ling_framework.Base.Int.{ℤ, pos, negsuc, ◌-ℤ◌, leb_ℤ, inc64, wrap64}
use ling_framework.Base.Time.{Time, Duration}

pub record Connection : Type 0 where
  pub id : Str
  pub user_id : Str
  pub groups : List Str
  pub last_ping : Time
  pub is_alive : Bool
  pub status : Str
  -- The channel Send, with its capacity, and whether Conn.Close was called.
  pub send : List Str
  pub capacity : ℕ
  pub send_closed : Bool
  pub conn_closed : Bool

-- The fields of Config that the methods read.
pub record HubConfig : Type 0 where
  pub max_connections : ℤ
  pub connection_timeout : Duration
  pub shard_count : ℕ
  pub drop_on_full : Bool
  pub close_on_backpressure : Bool

abbrev pub Objects : Type 0
Objects = ℕ → Connection

-- The keys of a map from strings to sets of connection ids.
abbrev pub IdIndex : Type 0
IdIndex = Dict Str (List Str)

pub record Hub : Type 0 where
  pub connections : Dict Str ℕ
  pub user_connections : IdIndex
  pub group_connections : IdIndex
  pub shard_conns : ℕ → Dict Str ℕ
  pub connection_count : ℤ
  pub config : HubConfig
  pub objects : Objects
  pub panicked : Bool

abbrev pub put_object : ℕ → Connection → Objects → Objects
put_object at c objects other = if nat_beq at other then c else objects other

-- A ShardCount of 0 (or below) becomes 1.
abbrev pub at_least_one : ℕ → ℕ
at_least_one zero = 1
at_least_one (suc n) = suc n

-- NewHub
abbrev pub new_hub : HubConfig → Objects → Hub
new_hub config objects = record {
  connections = [];
  user_connections = [];
  group_connections = [];
  shard_conns = λ i. [];
  connection_count = pos 0;
  config = record config { shard_count = at_least_one config.shard_count };
  objects = objects;
  panicked = false;
}

-- fnv.New32a
unfoldable pub fnv32a : ℕ → Str → ℕ
fnv32a hash [] = hash
fnv32a hash (b ∷ bs) = fnv32a (bit_xor hash b * 16777619 % 4294967296) bs

unfoldable pub shard_index : ℕ → Str → ℕ
shard_index shard_count id = if leb shard_count 1 then 0 else fnv32a 2166136261 id % shard_count

-- set[id] = true
unfoldable pub insert_id : Str → List Str → List Str
insert_id id ids = if member id ids then ids else id ∷ ids

-- delete(set, id)
unfoldable pub remove_id : Str → List Str → List Str
remove_id id [] = []
remove_id id (x ∷ xs) = let rest = remove_id id xs in if x == id then rest else x ∷ rest

abbrev pub ids_of : Option (List Str) → List Str
ids_of none = []
ids_of (some ids) = ids

-- The set of a key is made where it is missing.
unfoldable pub add_to : IdIndex → Str → Str → IdIndex
add_to index key id = store index key (insert_id id (ids_of (fetch index key)))

abbrev pub keep_set : IdIndex → Str → List Str → IdIndex
keep_set index key [] = delete index key
keep_set index key (x ∷ xs) = store index key (x ∷ xs)

abbrev pub remove_found : IdIndex → Str → Str → Option (List Str) → IdIndex
remove_found index key id none = index
remove_found index key id (some ids) = keep_set index key (remove_id id ids)

-- A set that has become empty is deleted with its key.
unfoldable pub remove_from : IdIndex → Str → Str → IdIndex
remove_from index key id = remove_found index key id (fetch index key)

unfoldable pub add_to_all : IdIndex → List Str → Str → IdIndex
add_to_all index [] id = index
add_to_all index (key ∷ keys) id = add_to_all (add_to index key id) keys id

unfoldable pub remove_from_all : IdIndex → List Str → Str → IdIndex
remove_from_all index [] id = index
remove_from_all index (key ∷ keys) id = remove_from_all (remove_from index key id) keys id

abbrev pub add_user : IdIndex → Str → Str → IdIndex
add_user index [] id = index
add_user index (x ∷ user) id = add_to index (x ∷ user) id

abbrev pub remove_user : IdIndex → Str → Str → IdIndex
remove_user index [] id = index
remove_user index (x ∷ user) id = remove_from index (x ∷ user) id

abbrev pub put_shard : ℕ → Dict Str ℕ → (ℕ → Dict Str ℕ) → ℕ → Dict Str ℕ
put_shard sh shard shards i = if nat_beq sh i then shard else shards i

abbrev pub close_conn : Connection → Connection
close_conn c = record c { conn_closed = true }

-- The tables of registerConnection with the connection in them.
abbrev pub enter : ℕ → Connection → Hub → Hub
enter at c h =
    let sh = shard_index h.config.shard_count c.id in
    record h {
      connections = store h.connections c.id at;
      connection_count = inc64 h.connection_count;
      shard_conns = put_shard sh (store (h.shard_conns sh) c.id at) h.shard_conns;
      user_connections = add_user h.user_connections c.user_id c.id;
      group_connections = add_to_all h.group_connections c.groups c.id;
    }

-- registerConnection
unfoldable pub register_connection : ℕ → Hub → Hub
register_connection at h =
    if leb_ℤ h.config.max_connections h.connection_count
    then record h { objects = put_object at (close_conn (h.objects at)) h.objects }
    else enter at (h.objects at) h

-- The tables of unregisterConnection without the connection, whose channel is closed.
abbrev pub leave : ℕ → Connection → Hub → Hub
leave at c h =
    let sh = shard_index h.config.shard_count c.id in
    record h {
      connections = delete h.connections c.id;
      connection_count = wrap64 (h.connection_count -ℤ pos 1);
      shard_conns = put_shard sh (delete (h.shard_conns sh) c.id) h.shard_conns;
      user_connections = remove_user h.user_connections c.user_id c.id;
      group_connections = remove_from_all h.group_connections c.groups c.id;
      objects = put_object at (record c { send_closed = true }) h.objects;
      panicked = h.panicked || c.send_closed;
    }

-- unregisterConnection: what is registered under the id is not compared with the connection.
unfoldable pub unregister_connection : ℕ → Hub → Hub
unregister_connection at h =
    if is_some (fetch h.connections (h.objects at).id) then leave at (h.objects at) h else h

-- JoinGroup, and the same steps in handleJoinGroup: under the mutex of the connection, and then
-- under that of the hub.
abbrev pub join_connection : ℕ → Str → Hub → Hub
join_connection at group h =
    let c = h.objects at in
    record h { objects = put_object at (record c { groups = insert_id group c.groups }) h.objects }

abbrev pub join_index : Str → Str → Hub → Hub
join_index group id h = record h { group_connections = add_to h.group_connections group id }

unfoldable pub join_group : ℕ → Str → Hub → Hub
join_group at group h = join_index group (h.objects at).id (join_connection at group h)

-- LeaveGroup, and the same steps in handleLeaveGroup, in the same order.
abbrev pub leave_connection : ℕ → Str → Hub → Hub
leave_connection at group h =
    let c = h.objects at in
    record h { objects = put_object at (record c { groups = remove_id group c.groups }) h.objects }

abbrev pub leave_index : Str → Str → Hub → Hub
leave_index group id h = record h { group_connections = remove_from h.group_connections group id }

unfoldable pub leave_group : ℕ → Str → Hub → Hub
leave_group at group h = leave_index group (h.objects at).id (leave_connection at group h)
