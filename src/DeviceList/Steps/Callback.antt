-- ===== src/DeviceList/Steps/Callback.antt =====
-- djmount/device_list.c: `EventHandlerCallback` as steps of one thread.
use djmount.Base.{false, ◌≡◌, refl, ap, ◌∙◌, inl, inr, [], ◌∷◌, Option, none, some}
use djmount.Base.Lists.{Bytes}
use djmount.Base.Tests.{Option-cases}
use djmount.Base.Int.{ℤ}
use djmount.DeviceList.{State, Outside}
use djmount.DeviceList.Changes.{add_known, add_create, add_device}
use djmount.DeviceList.Events.{
  Event, discovery_advertisement_alive, discovery_search_result, discovery_search_timeout,
  discovery_advertisement_byebye, control_action_complete, control_get_var_complete, event_received,
  event_subscribe_complete, event_unsubscribe_complete, event_renewal_complete,
  event_autorenewal_failed, event_subscription_expired, event_subscription_request,
  control_get_var_request, control_action_request, discovered, event_handler_callback,
}
use djmount.DeviceList.Steps.{
  System, Reach, here, next, alive_known, alive_new, creates, inserts, removes, handles_event,
  completes_subscription, renews_subscription, creating, created, add_create-IsOutside,
}

module _ {W : Type 0} (o : Outside W) where
  -- The thread alone has run, and left the state s.
  abbrev pub Runs : System W → State W → Type 0
  Runs u s = Reach o u (record u { state = s })

  add_device-Runs :
      (id : Bytes) (url : Option Bytes) (expires : ℤ) (u : System W)
      → u.state.locked ≡ false
      → Runs u (add_device o id url expires u.state)
  unfolding add_device
  add_device-Runs id url expires u free = elim (Option-cases (add_known o id expires u.state)) [
    | inr (s, known) ↦ rw (known, add_device) (next here (alive_known u id expires s free known))
    | inl new ↦
        let made = add_create o id url u.state in
        let u' : System W = record u { threads = creating id url expires ∷ u.threads } in
        let u'' : System W = record {
          state = made.1;
          threads = created id expires made.0 ∷ u.threads;
        } in
        let free' : u''.state.locked ≡ false =
          ap (λ s. State.locked s) (add_create-IsOutside o id url u.state) ∙ free in
        let run : Reach o u u'' =
          next (next here (alive_new u id url expires free new))
            (creates u' [] u.threads id url expires refl) in
        rw (new, add_device) (next run (inserts u'' [] u.threads id expires made.0 free' refl))
  ]

  discovered-Runs :
      (id location : Bytes) (expires : ℤ) (u : System W)
      → u.state.locked ≡ false
      → Runs u (discovered o id location expires u.state)
  unfolding discovered
  discovered-Runs [] location expires u free = here
  discovered-Runs (c ∷ cs) location expires u free =
      add_device-Runs (c ∷ cs) (some location) expires u free

  -- Every event that `EventHandlerCallback` handles, when no one holds the mutex, is a run of steps.
  pub event_handler_callback-Runs :
      (e : Event) (u : System W)
      → u.state.locked ≡ false
      → Runs u (event_handler_callback o e u.state)
  unfolding event_handler_callback
  event_handler_callback-Runs (discovery_advertisement_alive id location expires) u free =
      discovered-Runs id location expires u free
  event_handler_callback-Runs (discovery_search_result id location expires) u free =
      discovered-Runs id location expires u free
  event_handler_callback-Runs discovery_search_timeout u free = here
  event_handler_callback-Runs (discovery_advertisement_byebye id) u free =
      next here (removes u (some id) free)
  event_handler_callback-Runs control_action_complete u free = here
  event_handler_callback-Runs control_get_var_complete u free = here
  event_handler_callback-Runs (event_received sid changes) u free =
      next here (handles_event u sid changes free)
  event_handler_callback-Runs (event_subscribe_complete err url sid) u free =
      next here (completes_subscription u err url (some sid) free)
  event_handler_callback-Runs (event_unsubscribe_complete err url sid) u free =
      next here (completes_subscription u err url none free)
  event_handler_callback-Runs (event_renewal_complete err url sid) u free =
      next here (completes_subscription u err url (some sid) free)
  event_handler_callback-Runs (event_autorenewal_failed url) u free =
      next here (renews_subscription u url free)
  event_handler_callback-Runs (event_subscription_expired url) u free =
      next here (renews_subscription u url free)
  event_handler_callback-Runs event_subscription_request u free = here
  event_handler_callback-Runs control_get_var_request u free = here
  event_handler_callback-Runs control_action_request u free = here
