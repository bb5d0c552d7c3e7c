-- ===== src/DeviceList.antt =====
-- djmount/device_list.c: the list of the devices that are known, under one mutex.
--
-- A node of the list always has an item with a device and an identifier outside the critical sections, so that
-- the tests for NULL of the fields of a node are left out. The name of a node is the talloc name of its device.
-- A critical section is one function here; the mutex is written out where it is held across calls.
-- Log messages are left out; the pointers of devices, services and documents are numbers.
pub mod Names
pub mod Changes
pub mod Access
pub mod Events
pub mod Find
pub mod Mirror
pub mod Steps
pub mod Table
mod Tests
use djmount.Base.{
  ℕ, zero, suc, ◌+◌, ◌-◌, ◌^◌, Bool, true, false, not, ◌&&◌, List, [], ◌∷◌, ◌++◌, Option, none,
  some,
}
use djmount.Base.Lists.{Bytes, length, bytes_eq}
use djmount.Base.Tests.{leb, ◌==◌, if◌then◌else◌}
use djmount.Base.Int.{ℤ, pos, negsuc, sub_ℕ}
use djmount.Base.Text.{codes, starts_with}
use djmount.Base.Decimal.{decimal}
use djmount.Strings.{clean_file_name}

-- `DeviceList_EventType`
pub data EventType : Type 0 where
  device_added device_removed : EventType

-- `enum GetFrom`
pub data GetFrom : Type 0 where
  from_sid from_control_url from_event_url from_service_type : GetFrom

-- `DeviceNode`
pub record DeviceNode : Type 0 where
  pub device_id : Bytes
  pub d : ℕ
  pub name : Bytes
  pub expires : ℤ

-- What the module has asked for: a call of `gStateUpdateFun`, or a search for a target in some seconds.
pub data Effect : Type 0 where
  notified : EventType → Bytes → Effect
  searched : ℕ → Option Bytes → Effect

-- What the module calls: the UPnP library, and the operations of devices and services. `W` is the state of
-- all of these.
pub record Outside (W : Type 0) : Type 0 where
  -- `UpnpInit`, `UpnpRegisterClient`, `UpnpUnRegisterClient`, `UpnpFinish`
  pub upnp_init : W → ℤ × W
  pub upnp_register_client : W → ℤ × W
  pub upnp_unregister_client : W → W
  pub upnp_finish : W → ℤ × W
  -- `UpnpSearchAsync`
  pub upnp_search_async : ℕ → Option Bytes → W → ℤ × W
  -- `UpnpDownloadUrlItem`: the result code and the text
  pub upnp_download_url_item : Bytes → W → ℤ × Option Bytes × W
  -- `Device_Create`, from the URL, the identifier and the text of the description
  pub device_create : Bytes → Bytes → Option Bytes → W → Option ℕ × W
  -- `talloc_free` of the node of a device
  pub device_free : ℕ → W → W
  -- `Device_GetDescDocItem`
  pub device_get_desc_doc_item : ℕ → Bytes → W → Option Bytes
  -- `Device_GetServiceFrom`
  pub device_get_service_from : ℕ → Option Bytes → GetFrom → W → Option ℕ
  -- `Device_GetStatusString`
  pub device_get_status_string : ℕ → Bool → W → Bytes
  -- `Device_SusbcribeAllEvents`
  pub device_subscribe_all_events : ℕ → W → W
  -- `Service_UpdateState`, `Service_SetSid`, `Service_SubscribeEventURL`
  pub service_update_state : ℕ → ℕ → W → W
  pub service_set_sid : ℕ → Option Bytes → W → W
  pub service_subscribe_event_url : ℕ → W → W

-- The static variables of the module, the effects (the last one first) and the state outside.
pub record State (W : Type 0) : Type 0 where
  pub global_device_list : List DeviceNode
  pub ssdp_target : Option Bytes
  -- whether `gStateUpdateFun` is set
  pub state_update_fun : Bool
  -- whether a caller holds `DeviceListMutex`
  pub locked : Bool
  pub effects : List Effect
  pub world : W

-- <upnp/upnp.h>
abbrev pub upnp_e_success : ℤ
upnp_e_success = pos 0

abbrev pub upnp_e_invalid_param : ℤ
upnp_e_invalid_param = negsuc 100

abbrev pub upnp_e_invalid_device : ℤ
upnp_e_invalid_device = negsuc 109

-- `rc == UPNP_E_SUCCESS`
abbrev pub is_success : ℤ → Bool
is_success (pos n) = n == 0
is_success (negsuc n) = false

-- A node, with the nodes before it and those after it: a `ListNode*` into the list.
pub record Position : Type 0 where
  pub before : List DeviceNode
  pub item : DeviceNode
  pub after : List DeviceNode

-- The search of `GetDeviceNodeFromName`, for a name that is not NULL.
pub find_name : Bytes → List DeviceNode → Option DeviceNode
find_name name [] = none
find_name name (n ∷ ns) = if bytes_eq n.name name then some n else find_name name ns

-- `GetDeviceNodeFromName`
pub get_device_node_from_name : Option Bytes → List DeviceNode → Option DeviceNode
unfolding find_name
get_device_node_from_name none ns = none
get_device_node_from_name (some name) ns = find_name name ns

abbrev pub later : DeviceNode → Option Position → Option Position
later n none = none
later n (some p) = some (record p { before = n ∷ p.before })

-- The search of `GetDeviceListNodeFromId`, for an identifier that is not NULL.
pub find_id : Bytes → List DeviceNode → Option Position
find_id id [] = none
find_id id (n ∷ ns) =
    if bytes_eq n.device_id id
    then some (record { before = []; item = n; after = ns })
    else later n (find_id id ns)

-- `GetDeviceListNodeFromId`
pub get_device_list_node_from_id : Option Bytes → List DeviceNode → Option Position
unfolding find_id
get_device_list_node_from_id none ns = none
get_device_list_node_from_id (some id) ns = find_id id ns

-- What `res` is in the loop of `make_device_name` when its counter is i.
pub candidate : Bytes → ℕ → Bytes
candidate name i = if i == 1 then name else name ++ (codes "_" ++ decimal i)

-- The loop of `make_device_name`, on fuel, from the counter i on.
pub name_loop : List DeviceNode → Bytes → ℕ → ℕ → Option Bytes
unfolding get_device_node_from_name candidate
name_loop ns name zero i = none
name_loop ns name (suc fuel) i =
    let res = candidate name i in
    let next = name_loop ns name fuel (i + 1) in
    elim (get_device_node_from_name (some res) ns) [ none ↦ some res | some n ↦ next ]

-- `base == 0 || *base == '\0'`
abbrev pub base_name : Option Bytes → Bytes
base_name none = codes "unnamed"
base_name (some []) = codes "unnamed"
base_name (some (c ∷ cs)) = c ∷ cs

abbrev pub or_empty : Option Bytes → Bytes
or_empty none = []
or_empty (some s) = s

-- `make_device_name`: one round for each node at most, and one more.
pub make_device_name : List DeviceNode → Option Bytes → Option Bytes
unfolding name_loop
make_device_name ns base =
    name_loop ns (or_empty (clean_file_name (some (base_name base)))) (suc (length ns)) 1

-- `expires - incr` in an `int` of 32 bits
abbrev pub int_sub : ℤ → ℕ → ℤ
int_sub (pos a) n = sub_ℕ a n
int_sub (negsuc a) n =
    if leb (suc a + n) (2 ^ 31) then negsuc (a + n) else pos (2 ^ 32 - (suc a + n))

-- `z <= -n`
abbrev pub at_most_neg : ℤ → ℕ → Bool
at_most_neg (pos a) n = a == 0 && n == 0
at_most_neg (negsuc a) n = leb n (suc a)

-- `strstr (s, needle) != NULL`
pub has_text : Bytes → Bytes → Bool
has_text needle [] = starts_with needle []
has_text needle (c ∷ cs) = if starts_with needle (c ∷ cs) then true else has_text needle cs

abbrev pub is_service_target : Option Bytes → Bool
unfolding has_text
is_service_target none = false
is_service_target (some t) = has_text (codes ":service:") t
