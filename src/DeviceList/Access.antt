-- ===== src/DeviceList/Access.antt =====
-- djmount/device_list.c: the locks of a device or service, the calls of their methods, and what the module says
-- of its devices.
use djmount.Base.{ℕ, zero, suc, Bool, true, false, List, [], ◌∷◌, ◌++◌, Option, none, some, map}
use djmount.Base.Lists.{Bytes}
use djmount.Base.Tests.{if◌then◌else◌}
use djmount.Base.Int.{ℤ, pos, negsuc}
use djmount.Base.Text.{codes}
use djmount.Base.Decimal.{decimal}
use djmount.DeviceList.{
  from_service_type, DeviceNode, Outside, State, is_success, get_device_node_from_name,
}

-- `"%-20s"`
pad : ℕ → Bytes → Bytes
pad zero s = s
pad (suc n) [] = b' ' ∷ pad n []
pad (suc n) (c ∷ cs) = c ∷ pad n cs

-- What `DeviceList_GetStatusString` prints of a node.
unfoldable pub status_line : DeviceNode → Bytes
unfolding pad
status_line n = codes " " ++ pad 20 n.name ++ codes " -- " ++ n.device_id ++ 10 ∷ []

-- The text about the expiration in `DeviceList_GetDeviceStatusString`.
unfoldable pub expiry_text : ℤ → Bytes
expiry_text (pos n) = codes "expires in " ++ decimal n ++ codes " seconds"
expiry_text (negsuc n) = codes "expired " ++ decimal (suc n) ++ codes " seconds ago"

-- The loop of `DeviceList_GetStatusString`.
unfoldable pub status_lines : List DeviceNode → Bytes
unfolding status_line
status_lines [] = []
status_lines (n ∷ ns) = status_line n ++ status_lines ns

module _ {W : Type 0} where
  -- `DeviceList_GetDevicesNames`, as the texts in the array.
  unfoldable pub get_devices_names : State W → List Bytes
  get_devices_names s = map (λ n. DeviceNode.name n) s.global_device_list

  -- `ithread_mutex_lock` and `ithread_mutex_unlock` of `DeviceListMutex`
  abbrev pub lock : State W → State W
  lock s = record s { locked = true }

  abbrev pub unlock : State W → State W
  unlock s = record s { locked = false }

  -- `_DeviceList_LockDevice`
  unfoldable pub lock_device : Option Bytes → State W → Option ℕ × State W
  lock_device name s = elim (get_device_node_from_name name s.global_device_list) [
    | none ↦ (none, unlock (lock s))
    | some n ↦ (some (DeviceNode.d n), lock s)
  ]

  -- `_DeviceList_UnlockDevice`, `_DeviceList_UnlockService`
  abbrev pub unlock_of : Option ℕ → State W → State W
  unlock_of none s = s
  unlock_of (some d) s = unlock s

  -- `DEVICE_LIST_CALL_DEVICE`, of a method that works on the world.
  unfoldable pub call_device :
      {R : Type 0} → (Option ℕ → W → R × W) → Option Bytes → State W → R × State W
  unfolding lock_device
  call_device method name s =
      let (dev, s') = lock_device name s in
      let (ret, w) = method dev s'.world in (ret, unlock_of dev (record s' { world = w }))

module _ {W : Type 0} (o : Outside W) where
  abbrev pub service_of_node : Option DeviceNode → Option Bytes → W → Option ℕ
  service_of_node none service_type w = none
  service_of_node (some n) service_type w =
      o.device_get_service_from n.d service_type from_service_type w

  -- `_DeviceList_LockService`
  unfoldable pub lock_service : Option Bytes → Option Bytes → State W → Option ℕ × State W
  lock_service name service_type s =
      let node = get_device_node_from_name name s.global_device_list in
      let locked = lock s in
      let serv = service_of_node node service_type s.world in
      elim serv [ none ↦ (none, unlock locked) | some serv ↦ (some serv, locked) ]

  -- `DEVICE_LIST_CALL_SERVICE`, of a method that works on the world and casts the service first.
  unfoldable pub call_service :
      {R : Type 0} → (Option ℕ → W → R × W) → Option Bytes → Option Bytes → State W → R × State W
  unfolding lock_service
  call_service method name service_type s =
      let (serv, s') = lock_service name service_type s in
      let (ret, w) = method serv s'.world in (ret, unlock_of serv (record s' { world = w }))

  -- `DeviceList_SendActionAsync`, with `Service_SendActionAsync` as the method.
  unfoldable pub send_action_async :
      (Option ℕ → W → ℤ × W) → Option Bytes → Option Bytes → State W → ℤ × State W
  unfolding call_service
  send_action_async method name service_type s = call_service method name service_type s

  -- `DeviceList_SendAction`, with `Service_SendAction` as the method, which gives a code and a document.
  unfoldable pub send_action :
      (Option ℕ → W → (ℤ × Option ℕ) × W)
      → Option Bytes
      → Option Bytes
      → State W
      → Option ℕ × State W
  unfolding call_service
  send_action method name service_type s =
      let (ret, s') = call_service method name service_type s in
      (if is_success (ret.0) then ret.1 else none, s')

  -- `DeviceList_GetDeviceStatusString`; the name of the node that is found is the one asked for.
  unfoldable pub get_device_status_string : Option Bytes → Bool → State W → Option Bytes
  get_device_status_string name debug s =
      elim (get_device_node_from_name name s.global_device_list) [
        | none ↦ none
        | some n ↦ some (
            codes "Device \""
            ++ DeviceNode.name n
            ++ codes "\" ("
            ++ expiry_text (DeviceNode.expires n)
            ++ codes ")"
            ++ 10 ∷ o.device_get_status_string (DeviceNode.d n) debug s.world)
      ]
