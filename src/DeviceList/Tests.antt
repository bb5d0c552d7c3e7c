-- ===== src/DeviceList/Tests.antt =====
-- Examples for djmount/device_list.c: a network on which every device calls itself TV.
use djmount.Base.{ℕ, suc, ◌*◌, true, false, ◌≡◌, refl, [], ◌∷◌, Option, none, some, arith, ◌≤◌}
use mathlib.Core.List.{Memᴰ}
use mathlib.Core.List.Memᴰ.{head}
use djmount.Base.Lists.{Bytes}
use djmount.Base.Tests.{ltb, if◌then◌else◌}
use djmount.Base.Int.{pos, negsuc, sub_ℕ}
use djmount.Base.Text.{codes}
use djmount.Base.Decimal.{decimal, digits}
use djmount.Strings.{clean_file_name, strip_spaces, skip_spaces}
use djmount.DeviceList.{
  DeviceNode, State, Outside, searched, candidate, make_device_name, or_empty,
  get_device_list_node_from_id, find_id, name_loop, is_service_target, notified, device_added,
  device_removed, get_device_node_from_name, find_name,
}
use djmount.DeviceList.Names.{IsFirst, make_device_name_lem}
use djmount.DeviceList.Changes.{
  verify_timeouts, add_create, refresh_all, remove_all, search_async, add_device, add_known,
  check_target, add_created, add_insert, add_node, notify_update, remove_nodes, free_node,
}
use djmount.DeviceList.Events.{
  Event, discovery_advertisement_alive, discovery_advertisement_byebye, event_handler_callback,
  start, stop, discovered,
}
use djmount.DeviceList.Access.{
  get_devices_names, lock, lock_device, lock_service, call_device, call_service, status_line,
  status_lines, expiry_text, get_device_status_string, send_action, send_action_async,
}
use djmount.DeviceList.Mirror.Changes.{IsMirrored}
use djmount.DeviceList.Steps.{System, Reach, started}
use djmount.DeviceList.Steps.Safe.{Reach-IsMirrored}
use djmount.DeviceList.Steps.Locks.{lock_device-name, call-free}
use djmount.DeviceList.Steps.Callback.{event_handler_callback-Runs}
use djmount.DeviceList.Table.{device_of}
use djmount.DeviceList.Table.Callback.{Handles, event_handler_callback-Handles}
use djmount.DeviceList.Table.Calls.{adds, TableStep, call, call-TableStep}
use djmount.DeviceList.Table.Expiry.{check_subscriptions_loop, check_subscriptions_loop_lem}
use djmount.DeviceList.Table.Renewal.{verify_timeouts-search}

-- The world is the number of devices made.
abbrev network : Outside ℕ
network = record {
  upnp_init = λ w. (pos 0, w);
  upnp_register_client = λ w. (pos 0, w);
  upnp_unregister_client = λ w. w;
  upnp_finish = λ w. (pos 0, w);
  upnp_search_async = λ seconds target w. (pos 0, w);
  upnp_download_url_item = λ url w. (pos 0, some (codes "<root/>"), w);
  device_create = λ url id text w. (some w, suc w);
  device_free = λ d w. w;
  device_get_desc_doc_item = λ d tag w. some (codes "TV");
  device_get_service_from = λ d name from w. some d;
  device_get_status_string = λ d debug w. [];
  device_subscribe_all_events = λ d w. w;
  service_update_state = λ serv changes w. w;
  service_set_sid = λ serv sid w. w;
  service_subscribe_event_url = λ serv w. w;
}

abbrev alive : Event
alive = discovery_advertisement_alive (codes "uuid:1") (codes "http://tv/") (pos 30)

abbrev all_devices : Option Bytes
all_devices = some (codes "ssdp:all")

abbrev tv : DeviceNode
tv = record { device_id = codes "uuid:1"; d = 0; name = codes "TV"; expires = pos 30 }

abbrev with_tv : State ℕ
with_tv = record {
  global_device_list = tv ∷ [];
  ssdp_target = all_devices;
  state_update_fun = true;
  locked = false;
  effects = notified device_added (codes "TV") ∷ [];
  world = 1;
}

started-free : (started network all_devices true 0).state.locked ≡ false
unfolding start refresh_all remove_all search_async
started-free = refl

first_tv : System ℕ
first_tv = record {
  state = event_handler_callback network alive (started network all_devices true 0).state;
  threads = [];
}

first_tv-Reach : Reach network (started network all_devices true 0) first_tv
unfolding first_tv
first_tv-Reach =
    event_handler_callback-Runs network alive (started network all_devices true 0) started-free

first_tv-list : first_tv.state.global_device_list ≡ tv ∷ []
unfolding first_tv start refresh_all remove_all search_async event_handler_callback discovered
    add_device add_known add_create check_target add_created add_insert add_node notify_update
    get_device_list_node_from_id find_id make_device_name name_loop candidate is_service_target
    clean_file_name strip_spaces skip_spaces
first_tv-list = refl

make_device_name_lem_example :
    (k : ℕ) × (1 ≤ k)
    × (k ≤ 2)
    × (make_device_name (tv ∷ []) (some (codes "TV"))
        ≡ some (candidate (or_empty (clean_file_name (some (codes "TV")))) k))
    × IsFirst (tv ∷ []) (or_empty (clean_file_name (some (codes "TV")))) 1 k
make_device_name_lem_example = make_device_name_lem (tv ∷ []) (some (codes "TV"))

Reach-IsMirrored_example : IsMirrored first_tv.state
Reach-IsMirrored_example = Reach-IsMirrored network all_devices true 0 first_tv first_tv-Reach

lock_device-name_example :
    Memᴰ tv.name (get_devices_names first_tv.state)
    × (lock_device (some tv.name) first_tv.state ≡ (some tv.d, lock first_tv.state))
lock_device-name_example =
    lock_device-name network all_devices true 0 first_tv tv first_tv-Reach
      (rw first_tv-list (head refl))

with_tv-IsMirrored : IsMirrored with_tv
with_tv-IsMirrored = ((tt, tt), (tt, tt), λ on. refl)

event_handler_callback-Handles_example :
    Handles network
      (discovery_advertisement_byebye tv.device_id)
      with_tv
      (event_handler_callback network (discovery_advertisement_byebye tv.device_id) with_tv)
event_handler_callback-Handles_example =
    event_handler_callback-Handles network (discovery_advertisement_byebye tv.device_id) with_tv
      with_tv-IsMirrored

call_device_test :
    ((call_device (λ d w. (d, suc w)) (some tv.name) with_tv).1
      ≡ record with_tv { world = (call_device (λ d w. (d, suc w)) (some tv.name) with_tv).1.world })
    × ((call_service network (λ d w. (d, suc w)) (some tv.name) none with_tv).1 ≡ record with_tv {
      world = (call_service network (λ d w. (d, suc w)) (some tv.name) none with_tv).1.world;
    })
call_device_test = call-free network (λ d w. (d, suc w)) (some tv.name) none with_tv refl

call-TableStep_example :
    TableStep
      (adds (codes "uuid:2") (some (codes "http://tv/")) (pos 60))
      (λ id url. (add_create network id url with_tv).0)
      (device_of with_tv.global_device_list)
      (device_of
        (call network
          (adds (codes "uuid:2") (some (codes "http://tv/")) (pos 60))
          with_tv).global_device_list)
call-TableStep_example =
    call-TableStep network (adds (codes "uuid:2") (some (codes "http://tv/")) (pos 60)) with_tv
      with_tv-IsMirrored

check_subscriptions_loop_lem_example :
    device_of (check_subscriptions_loop network 4 with_tv).global_device_list tv.device_id
    ≡ (if ltb (10 * 3) 30 then some (record tv { expires = sub_ℕ 30 (10 * 4) }) else none)
check_subscriptions_loop_lem_example =
    check_subscriptions_loop_lem network 3 with_tv tv.device_id tv 30 with_tv-IsMirrored refl refl

verify_timeouts_test :
    Memᴰ (searched 30 (some tv.device_id)) (verify_timeouts network 30 with_tv).effects
verify_timeouts_test =
    verify_timeouts-search network 30 30 tv with_tv (head refl) refl (omega arith) (omega arith)

status_lines_test : status_lines (tv ∷ []) ≡ codes " TV                   -- uuid:1\n"
unfolding status_lines status_line
status_lines_test = refl

get_device_status_string_test :
    get_device_status_string network (some tv.name) false with_tv
    ≡ some (codes "Device \"TV\" (expires in 30 seconds)\n")
unfolding get_device_status_string get_device_node_from_name find_name expiry_text decimal digits
get_device_status_string_test = refl

-- The service of an unknown device is NULL for the method.
send_action_test :
    (send_action network
      (λ serv w. ((elim serv [ none ↦ negsuc 910 | some x ↦ pos 0 ], some 7), w))
      (some (codes "DVD"))
      none
      with_tv).0
    ≡ none
unfolding send_action call_service lock_service get_device_node_from_name find_name
send_action_test = refl

send_action_async_test :
    (send_action_async network (λ serv w. (pos 0, suc w)) (some tv.name) none with_tv).1.world ≡ 2
unfolding send_action_async call_service lock_service get_device_node_from_name find_name
send_action_async_test = refl

stop_test :
    (stop network with_tv).1.effects ≡ notified device_removed (codes "TV") ∷ with_tv.effects
unfolding stop remove_all remove_nodes notify_update free_node
stop_test = refl
