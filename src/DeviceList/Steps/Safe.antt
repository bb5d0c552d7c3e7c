-- ===== src/DeviceList/Steps/Safe.antt =====
-- djmount/device_list.c: what holds of the list in every interleaving of the threads.
use djmount.Base.{Bool, true, false, refl, sym, subst, inl, inr, [], Option}
use djmount.Base.Lists.{Bytes}
use djmount.Base.Tests.{Bool-cases, Option-cases}
use djmount.DeviceList.{State, Outside, is_success, get_device_node_from_name}
use djmount.DeviceList.Events.{start, is_target}
use djmount.DeviceList.Access.{lock_device, lock_service, service_of_node}
use djmount.DeviceList.Mirror.Changes.{
  IsMirrored, remove_device-IsMirrored, refresh_all-IsMirrored, add_known-IsMirrored,
  verify_timeouts-IsMirrored,
}
use djmount.DeviceList.Steps.{
  System, Step, Reach, here, next, started, initial, alive_known, alive_new, creates, inserts,
  removes, refreshes, verifies, locks_device, locks_service, unlocks, outside, add_create-IsOutside,
  handles_event, completes_subscription, renews_subscription, handle_event-IsOutside,
  subscribe_complete-IsOutside, renew_subscription-IsOutside, add_created-IsMirrored,
}

module _ {W : Type 0} (o : Outside W) where
  lock_device-IsMirrored :
      (name : Option Bytes) (s : State W) → IsMirrored s → IsMirrored (lock_device name s).1
  unfolding lock_device
  lock_device-IsMirrored name s h =
      elim (Option-cases (get_device_node_from_name name s.global_device_list)) [
        | inl missing ↦ rw (missing, lock_device) h
        | inr (n, found) ↦ rw (found, lock_device) h
      ]

  lock_service-IsMirrored :
      (name service_type : Option Bytes) (s : State W)
      → IsMirrored s
      → IsMirrored (lock_service o name service_type s).1
  unfolding lock_service
  lock_service-IsMirrored name service_type s h =
      let node = get_device_node_from_name name s.global_device_list in
      elim (Option-cases (service_of_node o node service_type s.world)) [
        | inl missing ↦ rw (missing, lock_service) h
        | inr (serv, found) ↦ rw (found, lock_service) h
      ]

  start-IsMirrored :
      (target : Option Bytes) (callback : Bool) (w : W)
      → IsMirrored (start o target callback (initial w)).1
  unfolding start
  start-IsMirrored target callback w =
      let init = o.upnp_init w in
      let registered = o.upnp_register_client init.1 in
      let ready : State W = record {
        global_device_list = [];
        ssdp_target = target;
        state_update_fun = callback;
        locked = false;
        effects = [];
        world = registered.1;
      } in
      elim (Bool-cases (is_target o target)) [
        | inl ok ↦ elim (Bool-cases (is_success init.0)) [
          | inl ok' ↦ elim (Bool-cases (is_success registered.0)) [
            | inl ok'' ↦
                rw (ok, ok', ok'', start) (refresh_all-IsMirrored o true ready (tt, tt, λ on. refl))
            | inr failed ↦ rw (ok, ok', failed, start) (tt, tt, λ on. refl)
          ]
          | inr failed ↦ rw (ok, failed, start) (tt, tt, λ on. refl)
        ]
        | inr refused ↦ rw (refused, start) (tt, tt, λ on. refl)
      ]

  Step-IsMirrored : {u v : System W} → Step o u v → IsMirrored u.state → IsMirrored v.state
  Step-IsMirrored (alive_known u id expires s free known) h =
      add_known-IsMirrored o id expires u.state s known h
  Step-IsMirrored (alive_new u id url expires free new) h = h
  Step-IsMirrored (creates u xs ys id url expires at) h =
      subst IsMirrored (sym (add_create-IsOutside o id url u.state)) h
  Step-IsMirrored (inserts u xs ys id expires d free at) h =
      add_created-IsMirrored o id expires d u.state h
  Step-IsMirrored (removes u id free) h = remove_device-IsMirrored o id u.state h
  Step-IsMirrored (refreshes u all free) h = refresh_all-IsMirrored o all u.state h
  Step-IsMirrored (verifies u incr free) h = verify_timeouts-IsMirrored o incr u.state h
  Step-IsMirrored (locks_device u name free) h = lock_device-IsMirrored name u.state h
  Step-IsMirrored (locks_service u name service_type free) h =
      lock_service-IsMirrored name service_type u.state h
  Step-IsMirrored (unlocks u held) h = h
  Step-IsMirrored (handles_event u sid changes free) h =
      subst IsMirrored (sym (handle_event-IsOutside o sid changes u.state)) h
  Step-IsMirrored (completes_subscription u err url sid free) h =
      subst IsMirrored (sym (subscribe_complete-IsOutside o err url sid u.state)) h
  Step-IsMirrored (renews_subscription u url free) h =
      subst IsMirrored (sym (renew_subscription-IsOutside o url u.state)) h
  Step-IsMirrored (outside u w) h = h

  Reach-Mirrors : {u v : System W} → IsMirrored u.state → Reach o u v → IsMirrored v.state
  Reach-Mirrors h here = h
  Reach-Mirrors h (next r st) = Step-IsMirrored st (Reach-Mirrors h r)

  -- Whatever the threads did since `DeviceList_Start`, in any order of their critical sections, the devices
  -- of the list have different identifiers and different names, and, if there is a callback, the notifications
  -- so far lead an observer to just the names of the list.
  pub Reach-IsMirrored :
      (target : Option Bytes) (callback : Bool) (w : W) (u : System W)
      → Reach o (started o target callback w) u
      → IsMirrored u.state
  Reach-IsMirrored target callback w u r = Reach-Mirrors (start-IsMirrored target callback w) r
