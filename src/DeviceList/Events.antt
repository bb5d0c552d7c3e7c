-- ===== src/DeviceList/Events.antt =====
-- djmount/device_list.c: the events of the UPnP library, and the start and the end of the module. The fields of an event are arrays in their structures, and never NULL.
use djmount.Base.{ℕ, Bool, true, false, not, List, [], ◌∷◌, Option, none, some}
use djmount.Base.Lists.{Bytes, bytes_eq}
use djmount.Base.Tests.{if◌then◌else◌}
use djmount.Base.Int.{ℤ}
use djmount.Base.Text.{codes}
use djmount.DeviceList.{
  GetFrom, from_sid, from_event_url, DeviceNode, Outside, State, upnp_e_invalid_param, is_success,
  is_service_target,
}
use djmount.DeviceList.Changes.{remove_device, remove_all, refresh_all, add_device}

-- The events of `EventHandlerCallback` with the fields that it reads.
pub data Event : Type 0 where
  -- `DeviceId`, `Location`, `Expires`
  discovery_advertisement_alive discovery_search_result : Bytes → Bytes → ℤ → Event
  discovery_search_timeout : Event
  -- `DeviceId`
  discovery_advertisement_byebye : Bytes → Event
  control_action_complete control_get_var_complete : Event
  -- `Sid`, `ChangedVariables`
  event_received : Bytes → ℕ → Event
  -- `ErrCode`, `PublisherUrl`, `Sid`
  event_subscribe_complete event_unsubscribe_complete event_renewal_complete :
      ℤ → Bytes → Bytes → Event
  -- `PublisherUrl`
  event_autorenewal_failed event_subscription_expired : Bytes → Event
  event_subscription_request control_get_var_request control_action_request : Event

module _ {W : Type 0} (o : Outside W) where
  -- The loop of `GetService`.
  unfoldable pub find_service : Option Bytes → GetFrom → List DeviceNode → W → Option ℕ
  find_service s from [] w = none
  find_service s from (n ∷ ns) w = elim (o.device_get_service_from n.d s from w) [
    | some serv ↦ some serv
    | none ↦ find_service s from ns w
  ]

  -- `GetService`
  unfoldable pub get_service : Option Bytes → GetFrom → State W → Option ℕ
  unfolding find_service
  get_service text from s = find_service text from s.global_device_list s.world

  -- The update of a service, if there is one.
  abbrev pub on_service : (ℕ → W → W) → Option ℕ → State W → State W
  on_service update none s = s
  on_service update (some serv) s = record s { world = update serv s.world }

  -- `HandleEvent`
  unfoldable pub handle_event : Bytes → ℕ → State W → State W
  unfolding get_service
  handle_event sid changes s =
      on_service (λ serv. o.service_update_state serv changes) (get_service (some sid) from_sid s) s

  -- The case of `UPNP_EVENT_SUBSCRIBE_COMPLETE` and the two below it; `sid` is NULL to unsubscribe.
  unfoldable pub subscribe_complete : ℤ → Bytes → Option Bytes → State W → State W
  unfolding get_service
  subscribe_complete err url sid s =
      if is_success err
      then on_service (λ serv. o.service_set_sid serv sid) (get_service (some url) from_event_url s)
          s
      else s

  -- The case of `UPNP_EVENT_AUTORENEWAL_FAILED` and `UPNP_EVENT_SUBSCRIPTION_EXPIRED`.
  unfoldable pub renew_subscription : Bytes → State W → State W
  unfolding get_service
  renew_subscription url s =
      on_service (λ serv. o.service_subscribe_event_url serv)
        (get_service (some url) from_event_url s) s

  -- The case of `UPNP_DISCOVERY_ADVERTISEMENT_ALIVE` and `UPNP_DISCOVERY_SEARCH_RESULT`.
  unfoldable pub discovered : Bytes → Bytes → ℤ → State W → State W
  discovered [] location expires s = s
  discovered (c ∷ cs) location expires s = add_device o (c ∷ cs) (some location) expires s

  -- `EventHandlerCallback`
  unfoldable pub event_handler_callback : Event → State W → State W
  unfolding handle_event subscribe_complete renew_subscription discovered
  event_handler_callback (discovery_advertisement_alive id location expires) s =
      discovered id location expires s
  event_handler_callback (discovery_search_result id location expires) s =
      discovered id location expires s
  event_handler_callback discovery_search_timeout s = s
  event_handler_callback (discovery_advertisement_byebye id) s = (remove_device o (some id) s).1
  event_handler_callback control_action_complete s = s
  event_handler_callback control_get_var_complete s = s
  event_handler_callback (event_received sid changes) s = handle_event sid changes s
  event_handler_callback (event_subscribe_complete err url sid) s =
      subscribe_complete err url (some sid) s
  event_handler_callback (event_unsubscribe_complete err url sid) s =
      subscribe_complete err url none s
  event_handler_callback (event_renewal_complete err url sid) s =
      subscribe_complete err url (some sid) s
  event_handler_callback (event_autorenewal_failed url) s = renew_subscription url s
  event_handler_callback (event_subscription_expired url) s = renew_subscription url s
  event_handler_callback event_subscription_request s = s
  event_handler_callback control_get_var_request s = s
  event_handler_callback control_action_request s = s

  -- The SSDP targets that `DeviceList_Start` takes.
  unfoldable pub is_target : Option Bytes → Bool
  is_target none = false
  is_target (some t) = if bytes_eq t (codes "ssdp:all") then true else is_service_target (some t)

  -- `DeviceList_Start` up to the thread that calls `VerifyTimeouts` every 10 seconds.
  unfoldable pub start : Option Bytes → Bool → State W → ℤ × State W
  unfolding is_target
  start target callback s =
      let (rc, w) = o.upnp_init s.world in
      let (rc', w') = o.upnp_register_client w in
      let empty = record s {
        state_update_fun = callback;
        locked = false;
        global_device_list = [];
      } in
      let ready = record empty { ssdp_target = target; world = w' } in
      if not (is_target target)
      then (upnp_e_invalid_param, s)
      else if not (is_success rc)
      then (rc, record empty { world = (o.upnp_finish w).1 })
      else if not (is_success rc')
      then (rc', record empty { world = (o.upnp_finish w').1 })
      else (rc', (refresh_all o true ready).1)

  -- `DeviceList_Stop`, once the thread is cancelled.
  unfoldable pub stop : State W → ℤ × State W
  stop s =
      let removed = record (remove_all o s) { ssdp_target = none } in
      let (rc, w) = o.upnp_finish (o.upnp_unregister_client removed.world) in
      (rc, record removed { world = w; state_update_fun = false })
