-- ===== src/Hub/Tests.antt =====
-- Tests of the hub with connections whose id is one byte.
use ling_framework.Base.{◌≡◌, refl, true, false, ◌&&◌, [], ◌∷◌, arith, str_comparable, codes, ◌==◌}
use ling_framework.Base.Dict.{fetch, store}
use ling_framework.Base.Int.{pos}
use ling_framework.Hub.{
  HubConfig, Hub, Objects, new_hub, register_connection, unregister_connection, join_group,
}
use ling_framework.Hub.Index.{not_empty}
use ling_framework.Hub.Consistent.{UniqueIds, holder}
use ling_framework.Hub.Delivery.{send_to_user, send_to_all, send_message}
use ling_framework.Hub.Sent.{receives, is_at}
use ling_framework.Hub.Targets.{send_to_user-receives}
use ling_framework.Hub.Reach.{Step, Reach, Reach-new_hub}
use ling_framework.Hub.Kept.{IsSound}
use ling_framework.Hub.Broadcast.{send_to_all-receives}

abbrev small_config : HubConfig
small_config = record {
  max_connections = pos 2;
  connection_timeout = pos 60;
  shard_count = 4;
  drop_on_full = true;
  close_on_backpressure = false;
}

abbrev objects : Objects
objects at = record {
  id = at ∷ [];
  user_id = codes "ann";
  groups = [];
  last_ping = 0;
  is_alive = true;
  status = codes "connected";
  send = [];
  capacity = 8;
  send_closed = false;
  conn_closed = false;
}

unique_objects : UniqueIds objects
unique_objects a b e = cc

abbrev one_joined : Hub
one_joined = join_group 3 (codes "red") (register_connection 3 (new_hub small_config objects))

one_joined-Reach : Reach (new_hub small_config objects) one_joined
unfolding fetch
one_joined-Reach =
    Reach.next (Reach.next Reach.here (Step.registers 3 refl refl)) (Step.joins 3 (codes "red"))

one_joined-IsSound : IsSound one_joined
one_joined-IsSound =
    Reach-new_hub small_config objects one_joined unique_objects (omega arith) one_joined-Reach

Reach-new_hub_example : IsSound one_joined
Reach-new_hub_example =
    Reach-new_hub small_config objects one_joined unique_objects (omega arith) one_joined-Reach

send_to_user-receives_example :
    (send_to_user true (codes "ann") (codes "hi") one_joined).objects 3
    ≡ receives one_joined.config true
        (codes "hi")
        (is_at (holder one_joined (one_joined.objects 3).id) 3
          && (not_empty (codes "ann") && (one_joined.objects 3).user_id == codes "ann"))
        (one_joined.objects 3)
send_to_user-receives_example =
    send_to_user-receives true (codes "hi") one_joined (codes "ann") one_joined-IsSound.consistent
      one_joined-IsSound.counted 3

send_to_all-receives_example :
    (send_to_all (λ i. true) true (codes "hi") one_joined).objects 3
    ≡ receives one_joined.config true
        (codes "hi")
        (is_at (holder one_joined (one_joined.objects 3).id) 3 && true)
        (one_joined.objects 3)
unfolding register_connection join_group
send_to_all-receives_example =
    send_to_all-receives (λ i. true) true (codes "hi") one_joined one_joined-IsSound (omega arith) 3

-- A send by the connection itself after it was unregistered panics.
late_send : (send_message (codes "hi") 3 (unregister_connection 3 one_joined)).0.panicked ≡ true
unfolding send_message unregister_connection register_connection join_group fetch store
late_send = refl
