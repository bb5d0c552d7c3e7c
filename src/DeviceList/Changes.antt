-- ===== src/DeviceList/Changes.antt =====
-- djmount/device_list.c: the operations that change the list.
use djmount.Base.{ℕ, Bool, List, [], ◌∷◌, ◌++◌, Option, none, some}
use djmount.Base.Lists.{Bytes}
use djmount.Base.Tests.{if◌then◌else◌}
use djmount.Base.Int.{ℤ}
use djmount.Base.Text.{codes}
use djmount.DeviceList.{
  EventType, device_added, device_removed, from_service_type, DeviceNode, notified, searched,
  Outside, State, upnp_e_success, upnp_e_invalid_device, is_success, Position,
  get_device_list_node_from_id, make_device_name, int_sub, at_most_neg, is_service_target,
}

-- `ListDelNode`
abbrev pub list_del_node : Position → List DeviceNode
list_del_node p = p.before ++ p.after

-- `devnode->expires = expires`, of a node in the list
abbrev pub refreshed : Position → ℤ → List DeviceNode
refreshed p expires = p.before ++ record (p.item) { expires = expires } ∷ p.after

module _ {W : Type 0} where
  -- `NotifyUpdate`
  unfoldable pub notify_update : EventType → DeviceNode → State W → State W
  notify_update type devnode s =
      if s.state_update_fun
      then record s { effects = notified type devnode.name ∷ s.effects }
      else s

module _ {W : Type 0} (o : Outside W) where
  -- `talloc_free (devnode)`
  unfoldable pub free_node : DeviceNode → State W → State W
  free_node devnode s = record s { world = o.device_free devnode.d s.world }

  -- `DeviceList_RemoveDevice`
  unfoldable pub remove_device : Option Bytes → State W → ℤ × State W
  unfolding notify_update free_node get_device_list_node_from_id
  remove_device device_id s = elim (get_device_list_node_from_id device_id s.global_device_list) [
    | none ↦ (upnp_e_invalid_device, s)
    | some p ↦
        let deleted = record s { global_device_list = list_del_node p } in
        (upnp_e_success, free_node p.item (notify_update device_removed p.item deleted))
  ]

  -- The loop of `DeviceList_RemoveAll`.
  unfoldable pub remove_nodes : List DeviceNode → State W → State W
  unfolding notify_update free_node
  remove_nodes [] s = s
  remove_nodes (n ∷ ns) s = remove_nodes ns (free_node n (notify_update device_removed n s))

  -- `DeviceList_RemoveAll`
  unfoldable pub remove_all : State W → State W
  unfolding remove_nodes
  remove_all s = record (remove_nodes s.global_device_list s) { global_device_list = [] }

  -- `UpnpSearchAsync`
  unfoldable pub search_async : ℕ → Option Bytes → State W → ℤ × State W
  search_async seconds target s =
      let (rc, w) = o.upnp_search_async seconds target s.world in
      (rc, record s { effects = searched seconds target ∷ s.effects; world = w })

  -- `DeviceList_RefreshAll`
  unfoldable pub refresh_all : Bool → State W → ℤ × State W
  unfolding remove_all search_async
  refresh_all remove s = search_async 5 s.ssdp_target (if remove then remove_all s else s)

  -- The first critical section of `AddDevice`: the list with the new expiration, if the device is there.
  unfoldable pub add_known : Bytes → ℤ → State W → Option (State W)
  unfolding get_device_list_node_from_id
  add_known device_id expires s =
      elim (get_device_list_node_from_id (some device_id) s.global_device_list) [
        | none ↦ none
        | some p ↦ some (record s { global_device_list = refreshed p expires })
      ]

  -- The test of the SSDP target, which gives the device or forgets it.
  unfoldable pub check_target : ℕ → State W → Option ℕ × State W
  check_target d s =
      let serv = o.device_get_service_from d s.ssdp_target from_service_type s.world in
      let forgotten = record s { world = o.device_free d s.world } in
      if is_service_target s.ssdp_target
      then elim serv [ none ↦ (none, forgotten) | some serv ↦ (some d, s) ]
      else (some d, s)

  -- What `AddDevice` does without the mutex: it downloads the description and makes a device.
  unfoldable pub add_create : Bytes → Option Bytes → State W → Option ℕ × State W
  unfolding check_target
  add_create device_id none s = (none, s)
  add_create device_id (some url) s =
      let (rc, text, w) = o.upnp_download_url_item url s.world in
      let (d, w') = o.device_create url device_id text w in
      if is_success rc
      then elim d [
        | none ↦ (none, record s { world = w' })
        | some d ↦ check_target d (record s { world = w' })
      ]
      else (none, record s { world = w })

  -- The new node at the end of the list, subscribed and notified.
  unfoldable pub add_node : DeviceNode → State W → State W
  unfolding notify_update
  add_node n s = notify_update device_added n (record s {
    global_device_list = s.global_device_list ++ n ∷ [];
    world = o.device_subscribe_all_events n.d s.world;
  })

  -- The second critical section of `AddDevice`.
  unfoldable pub add_insert : Bytes → ℤ → ℕ → State W → State W
  unfolding get_device_list_node_from_id make_device_name add_node
  add_insert device_id expires d s =
      let base = o.device_get_desc_doc_item d (codes "friendlyName") s.world in
      let name = make_device_name s.global_device_list base in
      elim (get_device_list_node_from_id (some device_id) s.global_device_list) [
        | some p ↦ record s { world = o.device_free d s.world }
        | none ↦ elim name [
          -- out of fuel
          | none ↦ s
          | some name ↦
              add_node (record { device_id = device_id; d = d; name = name; expires = expires }) s
        ]
      ]

  -- The end of `AddDevice`, where `add_create` gave a device.
  unfoldable pub add_created : Bytes → ℤ → Option ℕ × State W → State W
  unfolding add_insert
  add_created device_id expires (none, s) = s
  add_created device_id expires (some d, s) = add_insert device_id expires d s

  -- `AddDevice`, when no other thread runs between its critical sections.
  unfoldable pub add_device : Bytes → Option Bytes → ℤ → State W → State W
  unfolding add_known add_create add_created
  add_device device_id url expires s = elim (add_known device_id expires s) [
    | some s' ↦ s'
    | none ↦ add_created device_id expires (add_create device_id url s)
  ]

  -- A round of the loop of `VerifyTimeouts`: the node if it stays, with its new expiration.
  unfoldable pub verify_node : ℕ → DeviceNode → State W → Option DeviceNode × State W
  unfolding notify_update free_node search_async
  verify_node incr devnode s =
      let expires = int_sub devnode.expires incr in
      let n = record devnode { expires = expires } in
      if at_most_neg expires incr
      then (none, free_node n (notify_update device_removed n s))
      else if at_most_neg expires 0
      then (some n, (search_async incr (some n.device_id) s).1)
      else (some n, s)

  abbrev pub kept : Option DeviceNode → List DeviceNode → List DeviceNode
  kept none ns = ns
  kept (some n) ns = n ∷ ns

  -- The loop of `VerifyTimeouts`: the nodes that stay.
  unfoldable pub verify_nodes : ℕ → List DeviceNode → State W → List DeviceNode × State W
  unfolding verify_node
  verify_nodes incr [] s = ([], s)
  verify_nodes incr (n ∷ ns) s =
      let (n', s') = verify_node incr n s in
      let (ns', s'') = verify_nodes incr ns s' in (kept n' ns', s'')

  -- `VerifyTimeouts`
  unfoldable pub verify_timeouts : ℕ → State W → State W
  unfolding verify_nodes
  verify_timeouts incr s =
      let (ns, s') = verify_nodes incr s.global_device_list s in
      record s' { global_device_list = ns }
