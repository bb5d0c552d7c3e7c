-- ===== src/DeviceList/Steps.antt =====
-- djmount/device_list.c: the threads that use the list, as steps between the critical sections.
pub mod Callback
pub mod Safe
pub mod Locks
use djmount.Base.{
  ℕ, Bool, true, false, ◌≡◌, refl, sym, inl, inr, List, [], ◌∷◌, ◌++◌, Option, none, some,
}
use djmount.Base.Lists.{Bytes}
use djmount.Base.Int.{ℤ}
use djmount.Base.Tests.{if◌then◌else◌, Bool-cases, Option-cases}
use djmount.DeviceList.{
  State, Outside, GetFrom, from_sid, from_event_url, is_service_target, is_success,
  from_service_type,
}
use djmount.DeviceList.Changes.{
  remove_device, refresh_all, add_known, check_target, add_create, add_created, add_insert,
  verify_timeouts,
}
use djmount.DeviceList.Events.{
  start, is_target, handle_event, subscribe_complete, renew_subscription, on_service, get_service,
}
use djmount.DeviceList.Access.{lock_device, lock_service, unlock}
use djmount.DeviceList.Mirror.Changes.{
  IsMirrored, remove_device-IsMirrored, refresh_all-IsMirrored, add_known-IsMirrored,
  add_insert-IsMirrored, verify_timeouts-IsMirrored,
}

-- A call of `AddDevice` between its critical sections: before and after it makes a device.
pub data Thread : Type 0 where
  creating : Bytes → Option Bytes → ℤ → Thread
  created : Bytes → ℤ → Option ℕ → Thread

pub record System (W : Type 0) : Type 0 where
  pub state : State W
  pub threads : List Thread

-- A step of some thread. A critical section starts only where no one holds the mutex.
pub data Step {W : Type 0} (o : Outside W) : System W → System W → Type 0 where
  alive_known :
      (u : System W) (id : Bytes) (expires : ℤ) (s : State W)
      → u.state.locked ≡ false
      → add_known o id expires u.state ≡ some s
      → Step o u (record u { state = s })
  alive_new :
      (u : System W) (id : Bytes) (url : Option Bytes) (expires : ℤ)
      → u.state.locked ≡ false
      → add_known o id expires u.state ≡ none
      → Step o u (record u { threads = creating id url expires ∷ u.threads })
  creates :
      (u : System W) (xs ys : List Thread) (id : Bytes) (url : Option Bytes) (expires : ℤ)
      → u.threads ≡ xs ++ creating id url expires ∷ ys
      → Step o u (record {
        state = (add_create o id url u.state).1;
        threads = xs ++ created id expires (add_create o id url u.state).0 ∷ ys;
      })
  inserts :
      (u : System W) (xs ys : List Thread) (id : Bytes) (expires : ℤ) (d : Option ℕ)
      → u.state.locked ≡ false
      → u.threads ≡ xs ++ created id expires d ∷ ys
      → Step o u (record { state = add_created o id expires (d, u.state); threads = xs ++ ys })
  removes :
      (u : System W) (id : Option Bytes)
      → u.state.locked ≡ false
      → Step o u (record u { state = (remove_device o id u.state).1 })
  refreshes :
      (u : System W) (all : Bool)
      → u.state.locked ≡ false
      → Step o u (record u { state = (refresh_all o all u.state).1 })
  verifies :
      (u : System W) (incr : ℕ)
      → u.state.locked ≡ false
      → Step o u (record u { state = verify_timeouts o incr u.state })
  locks_device :
      (u : System W) (name : Option Bytes)
      → u.state.locked ≡ false
      → Step o u (record u { state = (lock_device name u.state).1 })
  locks_service :
      (u : System W) (name service_type : Option Bytes)
      → u.state.locked ≡ false
      → Step o u (record u { state = (lock_service o name service_type u.state).1 })
  unlocks : (u : System W) → u.state.locked ≡ true → Step o u (record u { state = unlock u.state })
  -- The updates of services in `EventHandlerCallback`, with the mutex held.
  handles_event :
      (u : System W) (sid : Bytes) (changes : ℕ)
      → u.state.locked ≡ false
      → Step o u (record u { state = handle_event o sid changes u.state })
  completes_subscription :
      (u : System W) (err : ℤ) (url : Bytes) (sid : Option Bytes)
      → u.state.locked ≡ false
      → Step o u (record u { state = subscribe_complete o err url sid u.state })
  renews_subscription :
      (u : System W) (url : Bytes)
      → u.state.locked ≡ false
      → Step o u (record u { state = renew_subscription o url u.state })
  -- The devices, their services and the network change by themselves, or where a method is called.
  outside : (u : System W) (w : W) → Step o u (record u { state = record (u.state) { world = w } })

pub data Reach {W : Type 0} (o : Outside W) (u : System W) : System W → Type 0 where
  here : Reach o u u
  next : {v w : System W} → Reach o u v → Step o v w → Reach o u w

-- The module before `DeviceList_Start`.
abbrev pub initial : {W : Type 0} → W → State W
initial w = record {
  global_device_list = [];
  ssdp_target = none;
  state_update_fun = false;
  locked = false;
  effects = [];
  world = w;
}

-- The system after `DeviceList_Start`.
abbrev pub started : {W : Type 0} → Outside W → Option Bytes → Bool → W → System W
started o target callback w = record {
  state = (start o target callback (initial w)).1;
  threads = [];
}

module _ {W : Type 0} (o : Outside W) where
  -- The list, the effects and the mutex stay; only the state outside changes.
  abbrev pub IsOutside : State W → State W → Type 0
  IsOutside s s' = s' ≡ record s { world = s'.world }

  on_service-IsOutside :
      (update : ℕ → W → W) (serv : Option ℕ) (s : State W)
      → IsOutside s (on_service o update serv s)
  on_service-IsOutside update none s = refl
  on_service-IsOutside update (some serv) s = refl

  pub handle_event-IsOutside :
      (sid : Bytes) (changes : ℕ) (s : State W) → IsOutside s (handle_event o sid changes s)
  unfolding handle_event
  handle_event-IsOutside sid changes s =
      on_service-IsOutside _ (get_service o (some sid) from_sid s) s

  pub subscribe_complete-IsOutside :
      (err : ℤ) (url : Bytes) (sid : Option Bytes) (s : State W)
      → IsOutside s (subscribe_complete o err url sid s)
  unfolding subscribe_complete
  subscribe_complete-IsOutside err url sid s = elim (Bool-cases (is_success err)) [
    | inl ok ↦
        rw (ok, subscribe_complete)
          (on_service-IsOutside _ (get_service o (some url) from_event_url s) s)
    | inr failed ↦ rw (failed, subscribe_complete) refl
  ]

  pub renew_subscription-IsOutside :
      (url : Bytes) (s : State W) → IsOutside s (renew_subscription o url s)
  unfolding renew_subscription
  renew_subscription-IsOutside url s =
      on_service-IsOutside _ (get_service o (some url) from_event_url s) s

  check_target-IsOutside : (d : ℕ) (s : State W) → IsOutside s (check_target o d s).1
  unfolding check_target
  check_target-IsOutside d s = elim (Bool-cases (is_service_target s.ssdp_target)) [
    | inl service ↦
        elim (Option-cases (o.device_get_service_from d s.ssdp_target from_service_type s.world)) [
          | inl missing ↦ rw (service, missing, check_target) refl
          | inr (serv, found) ↦ rw (service, found, check_target) refl
        ]
    | inr other ↦ rw (other, check_target) refl
  ]

  pub add_create-IsOutside :
      (id : Bytes) (url : Option Bytes) (s : State W) → IsOutside s (add_create o id url s).1
  unfolding add_create
  add_create-IsOutside id none s = refl
  add_create-IsOutside id (some url) s =
      let (rc, text, w) = o.upnp_download_url_item url s.world in
      let made = o.device_create url id text w in
      elim (Bool-cases (is_success rc)) [
        | inl ok ↦ elim (Option-cases made.0) [
          | inl missing ↦ rw (ok, missing, add_create) refl
          | inr (d, found) ↦
              rw (ok, found, add_create) (check_target-IsOutside d (record s { world = made.1 }))
        ]
        | inr failed ↦ rw (failed, add_create) refl
      ]

  pub add_created-IsMirrored :
      (id : Bytes) (expires : ℤ) (d : Option ℕ) (s : State W)
      → IsMirrored s
      → IsMirrored (add_created o id expires (d, s))
  unfolding add_created
  add_created-IsMirrored id expires none s h = h
  add_created-IsMirrored id expires (some d) s h = add_insert-IsMirrored o id expires d s h
