-- ===== src/DeviceList/Table/Callback.antt =====
-- djmount/device_list.c: what `EventHandlerCallback` does with each event.
use djmount.Base.{ℕ, ◌≡◌, refl, ap, ◌⊎◌, inl, inr, List, [], ◌∷◌, ◌++◌, Option, none, some}
use djmount.Base.Lists.{Bytes, All}
use djmount.Base.Tests.{if◌then◌else◌, Bool-cases, Option-cases}
use djmount.Base.Int.{ℤ}
use djmount.DeviceList.{DeviceNode, State, Outside, GetFrom, from_sid, from_event_url, is_success}
use djmount.DeviceList.Changes.{add_create}
use djmount.DeviceList.Events.{
  Event, discovery_advertisement_alive, discovery_search_result, discovery_search_timeout,
  discovery_advertisement_byebye, control_action_complete, control_get_var_complete, event_received,
  event_subscribe_complete, event_unsubscribe_complete, event_renewal_complete,
  event_autorenewal_failed, event_subscription_expired, event_subscription_request,
  control_get_var_request, control_action_request, find_service, get_service, on_service,
  handle_event, subscribe_complete, renew_subscription, discovered, event_handler_callback,
}
use djmount.DeviceList.Mirror.Changes.{IsMirrored}
use djmount.DeviceList.Table.{device_of, Table, erase}
use djmount.DeviceList.Table.Calls.{IsAdded, call, call-TableStep, adds, removes, TableStep}

abbrev table : {W : Type 0} → State W → Table
table s = device_of s.global_device_list

module _ {W : Type 0} (o : Outside W) where
  -- The service that a text leads to in the first device of the list that has one is updated, and nothing else changes;
  -- nothing changes where no device has one.
  abbrev pub Updates : (ℕ → W → W) → Bytes → GetFrom → State W → State W → Type 0
  Updates update text from s s' =
      (All (λ n. o.device_get_service_from (DeviceNode.d n) (some text) from s.world ≡ none)
          s.global_device_list
        × (s' ≡ s))
      ⊎ ((before after : List DeviceNode) × (n : DeviceNode) × (serv : ℕ) × (s.global_device_list
            ≡ before ++ n ∷ after)
          × All (λ x. o.device_get_service_from (DeviceNode.d x) (some text) from s.world ≡ none)
              before
          × (o.device_get_service_from n.d (some text) from s.world ≡ some serv)
          × (s' ≡ record s { world = update serv s.world }))

  -- The device of an identifier is added with a URL, if the identifier is not empty.
  abbrev pub Discovers : Bytes → Bytes → ℤ → State W → State W → Type 0
  Discovers [] location expires s s' = s' ≡ s
  Discovers (c ∷ cs) location expires s s' =
      IsAdded (c ∷ cs) expires (add_create o (c ∷ cs) (some location) s).0 (table s) (table s')

  -- What an event does.
  pub Handles : Event → State W → State W → Type 0
  Handles (discovery_advertisement_alive id location expires) s s' =
      Discovers id location expires s s'
  Handles (discovery_search_result id location expires) s s' = Discovers id location expires s s'
  Handles discovery_search_timeout s s' = s' ≡ s
  Handles (discovery_advertisement_byebye id) s s' = (k : Bytes) → table s' k ≡ erase id (table s) k
  Handles control_action_complete s s' = s' ≡ s
  Handles control_get_var_complete s s' = s' ≡ s
  Handles (event_received sid changes) s s' =
      Updates (λ serv. o.service_update_state serv changes) sid from_sid s s'
  Handles (event_subscribe_complete err url sid) s s' =
      if is_success err
      then Updates (λ serv. o.service_set_sid serv (some sid)) url from_event_url s s'
      else s' ≡ s
  Handles (event_unsubscribe_complete err url sid) s s' =
      if is_success err
      then Updates (λ serv. o.service_set_sid serv none) url from_event_url s s'
      else s' ≡ s
  Handles (event_renewal_complete err url sid) s s' =
      if is_success err
      then Updates (λ serv. o.service_set_sid serv (some sid)) url from_event_url s s'
      else s' ≡ s
  Handles (event_autorenewal_failed url) s s' =
      Updates o.service_subscribe_event_url url from_event_url s s'
  Handles (event_subscription_expired url) s s' =
      Updates o.service_subscribe_event_url url from_event_url s s'
  Handles event_subscription_request s s' = s' ≡ s
  Handles control_get_var_request s s' = s' ≡ s
  Handles control_action_request s s' = s' ≡ s

  -- `GetService` finds the service of the first device that has one.
  find_service-cases :
      (text : Option Bytes) (from : GetFrom) (ns : List DeviceNode) (w : W)
      → ((find_service o text from ns w ≡ none)
          × All (λ n. o.device_get_service_from (DeviceNode.d n) text from w ≡ none) ns)
        ⊎ ((before after : List DeviceNode) × (n : DeviceNode) × (serv : ℕ) × (ns
              ≡ before ++ n ∷ after)
            × All (λ x. o.device_get_service_from (DeviceNode.d x) text from w ≡ none) before
            × (o.device_get_service_from n.d text from w ≡ some serv)
            × (find_service o text from ns w ≡ some serv))
  unfolding find_service
  find_service-cases text from [] w = inl (refl, tt)
  find_service-cases text from (n ∷ ns) w =
      elim (Option-cases (o.device_get_service_from n.d text from w)) [
        | inr (serv, found) ↦ inr ([], ns, n, serv, refl, tt, found, rw (found, find_service) refl)
        | inl missing ↦ elim (find_service-cases text from ns w) [
          | inl (none_there, all) ↦ inl (rw (missing, find_service) none_there, (missing, all))
          | inr (before, after, m, serv, split, all, found, run) ↦ inr (
            n ∷ before,
            after,
            m,
            serv,
            ap (λ l. n ∷ l) split,
            (missing, all),
            found,
            rw (missing, find_service) run,
          )
        ]
      ]

  on_service-Updates :
      (update : ℕ → W → W) (text : Bytes) (from : GetFrom) (s : State W)
      → Updates update text from s (on_service o update (get_service o (some text) from s) s)
  unfolding get_service
  on_service-Updates update text from s =
      elim (find_service-cases (some text) from s.global_device_list s.world) [
        | inl (missing, all) ↦ inl (all, ap (λ x. on_service o update x s) missing)
        | inr (before, after, n, serv, split, all, found, run) ↦
            inr (before, after, n, serv, split, all, found, ap (λ x. on_service o update x s) run)
      ]

  subscribe_complete-Updates :
      (err : ℤ) (url : Bytes) (sid : Option Bytes) (s : State W)
      → (if is_success err
          then Updates
              (λ serv. o.service_set_sid serv sid)
              url
              from_event_url
              s
              (subscribe_complete o err url sid s)
          else subscribe_complete o err url sid s ≡ s)
  unfolding subscribe_complete
  subscribe_complete-Updates err url sid s = elim (Bool-cases (is_success err)) [
    | inl ok ↦
        rw (ok, subscribe_complete)
          (on_service-Updates (λ serv. o.service_set_sid serv sid) url from_event_url s)
    | inr failed ↦ rw (failed, subscribe_complete) refl
  ]

  discovered-Discovers :
      (id location : Bytes) (expires : ℤ) (s : State W)
      → IsMirrored s
      → Discovers id location expires s (discovered o id location expires s)
  unfolding discovered call TableStep
  discovered-Discovers [] location expires s h = refl
  discovered-Discovers (c ∷ cs) location expires s h =
      call-TableStep o (adds (c ∷ cs) (some location) expires) s h

  -- Every event, in a list whose identifiers and names differ and which its observer knows: an alive message or a
  -- search result with an identifier adds its device to the table of devices, or renews its expiration; byebye takes
  -- the device out; the update of a service, for an event that was received, a subscription that was completed
  -- without an error, renewed or lost, reaches the service of the first device of the list that has one for the SID
  -- or the URL, with what the event brings, and changes nothing else, or nothing where no device has one; every
  -- other event changes nothing.
  pub event_handler_callback-Handles :
      (e : Event) (s : State W) → IsMirrored s → Handles e s (event_handler_callback o e s)
  unfolding event_handler_callback handle_event renew_subscription Handles call TableStep
  event_handler_callback-Handles (discovery_advertisement_alive id location expires) s h =
      discovered-Discovers id location expires s h
  event_handler_callback-Handles (discovery_search_result id location expires) s h =
      discovered-Discovers id location expires s h
  event_handler_callback-Handles discovery_search_timeout s h = refl
  event_handler_callback-Handles (discovery_advertisement_byebye id) s h =
      call-TableStep o (removes id) s h
  event_handler_callback-Handles control_action_complete s h = refl
  event_handler_callback-Handles control_get_var_complete s h = refl
  event_handler_callback-Handles (event_received sid changes) s h =
      on_service-Updates (λ serv. o.service_update_state serv changes) sid from_sid s
  event_handler_callback-Handles (event_subscribe_complete err url sid) s h =
      subscribe_complete-Updates err url (some sid) s
  event_handler_callback-Handles (event_unsubscribe_complete err url sid) s h =
      subscribe_complete-Updates err url none s
  event_handler_callback-Handles (event_renewal_complete err url sid) s h =
      subscribe_complete-Updates err url (some sid) s
  event_handler_callback-Handles (event_autorenewal_failed url) s h =
      on_service-Updates o.service_subscribe_event_url url from_event_url s
  event_handler_callback-Handles (event_subscription_expired url) s h =
      on_service-Updates o.service_subscribe_event_url url from_event_url s
  event_handler_callback-Handles event_subscription_request s h = refl
  event_handler_callback-Handles control_get_var_request s h = refl
  event_handler_callback-Handles control_action_request s h = refl
