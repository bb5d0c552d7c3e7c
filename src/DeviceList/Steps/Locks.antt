-- ===== src/DeviceList/Steps/Locks.antt =====
-- djmount/device_list.c: the lock of a device, and the mutex around the calls of its methods.
use djmount.Base.{
  ℕ, Bool, true, false, ◌≡◌, ◌≢◌, refl, sym, ap, subst, inl, inr, List, [], ◌∷◌, Option, none, some,
}
use mathlib.Core.List.{Memᴰ}
use mathlib.Core.List.Memᴰ.{head, tail}
use djmount.Base.Lists.{Bytes, bytes_eq, bytes_eq_sound, bytes_eq_refl}
use djmount.Base.Tests.{Bool-cases, Option-cases}
use djmount.Base.Distinct.{Distinct, All-at}
use djmount.DeviceList.{DeviceNode, State, Outside, find_name, get_device_node_from_name}
use djmount.DeviceList.Names.{names, Memᴰ-names}
use djmount.DeviceList.Access.{
  get_devices_names, lock, lock_device, lock_service, call_device, call_service, service_of_node,
}
use djmount.DeviceList.Steps.{System, Reach, started}
use djmount.DeviceList.Steps.Safe.{Reach-IsMirrored}

find_name-at :
    (n : DeviceNode) (ns : List DeviceNode)
    → Distinct (names ns)
    → Memᴰ n ns
    → find_name n.name ns ≡ some n
unfolding find_name
find_name-at n [] d m = elim m [ ]
find_name-at n (x ∷ ns) d (head e) =
    let same : bytes_eq x.name n.name ≡ true =
      subst (λ y. bytes_eq y.name n.name ≡ true) e (bytes_eq_refl n.name) in
    rw same (ap some (sym e))
find_name-at n (x ∷ ns) d (tail m) = elim (Bool-cases (bytes_eq x.name n.name)) [
  | inl same ↦ absurd (
      All-at (λ y. y ≢ x.name) (names ns) n.name d.0 (Memᴰ-names n ns m)
        (sym (bytes_eq_sound x.name n.name same)))
  | inr other ↦ rw other (find_name-at n ns d.1 m)
]

module _ {W : Type 0} (o : Outside W) where
  -- In every state that the threads can reach, the name of a device of the list, under which `GetDevicesNames` lists
  -- it, locks just that device, and leaves the mutex held.
  pub lock_device-name :
      (target : Option Bytes) (callback : Bool) (w : W) (u : System W) (n : DeviceNode)
      → Reach o (started o target callback w) u
      → Memᴰ n u.state.global_device_list
      → Memᴰ n.name (get_devices_names u.state)
        × (lock_device (some n.name) u.state ≡ (some n.d, lock u.state))
  unfolding lock_device get_devices_names get_device_node_from_name
  lock_device-name target callback w u n r m =
      let found =
        find_name-at n u.state.global_device_list (Reach-IsMirrored o target callback w u r).1 m in
      (Memᴰ-names n u.state.global_device_list m, rw (found, lock_device) refl)

  unlocked :
      (s : State W) (w : W)
      → s.locked ≡ false
      → record s { locked = false; world = w } ≡ record s { world = w }
  unlocked s w free = ap (λ b. record s { locked = b; world = w }) (sym free)

  call_device-free :
      {R : Type 0} (method : Option ℕ → W → R × W) (name : Option Bytes) (s : State W)
      → s.locked ≡ false
      → (call_device method name s).1 ≡ record s { world = (call_device method name s).1.world }
  unfolding call_device lock_device
  call_device-free method name s free =
      elim (Option-cases (get_device_node_from_name name s.global_device_list)) [
        | inl missing ↦
            rw (missing, call_device, lock_device) (unlocked s (method none s.world).1 free)
        | inr (n, found) ↦
            rw (found, call_device, lock_device) (unlocked s (method (some n.d) s.world).1 free)
      ]

  call_service-free :
      {R : Type 0} (method : Option ℕ → W → R × W) (name service_type : Option Bytes) (s : State W)
      → s.locked ≡ false
      → (call_service o method name service_type s).1
        ≡ record s { world = (call_service o method name service_type s).1.world }
  unfolding call_service lock_service
  call_service-free method name service_type s free =
      let node = get_device_node_from_name name s.global_device_list in
      elim (Option-cases (service_of_node o node service_type s.world)) [
        | inl missing ↦
            rw (missing, call_service, lock_service) (unlocked s (method none s.world).1 free)
        | inr (serv, found) ↦
            rw (found, call_service, lock_service) (unlocked s (method (some serv) s.world).1 free)
      ]

  -- A call of a method of a device or of a service, found or not, gives the mutex back, and changes neither the list
  -- nor what was asked for.
  pub call-free :
      {R : Type 0} (method : Option ℕ → W → R × W) (name service_type : Option Bytes) (s : State W)
      → s.locked ≡ false
      → ((call_device method name s).1 ≡ record s { world = (call_device method name s).1.world })
        × ((call_service o method name service_type s).1
            ≡ record s { world = (call_service o method name service_type s).1.world })
  call-free method name service_type s free =
      (call_device-free method name s free, call_service-free method name service_type s free)
