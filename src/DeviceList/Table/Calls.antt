-- ===== src/DeviceList/Table/Calls.antt =====
-- djmount/device_list.c: every operation on the list as a change of the table of devices.
use djmount.Base.{
  ℕ, true, ◌≡◌, ◌≢◌, refl, sym, ap, ◌∙◌, subst, ◌⊎◌, inl, inr, [], ◌∷◌, ◌++◌, Option, none, some,
  append-nil, arith,
}
use djmount.Base.Lists.{Bytes, bytes_eq, bytes_eq_refl, All}
use djmount.Base.Tests.{if◌then◌else◌, Option-cases}
use djmount.Base.Int.{ℤ}
use djmount.Base.Text.{codes}
use djmount.DeviceList.{
  DeviceNode, State, Outside, find_id, get_device_list_node_from_id, device_added,
}
use djmount.DeviceList.Names.{make_device_name_lem}
use djmount.DeviceList.Find.{ids, find_id-none, find_id-some}
use djmount.DeviceList.Changes.{
  refreshed, remove_device, remove_all, add_known, add_create, add_created, add_insert, add_device,
  add_node, verify_timeouts,
}
use djmount.DeviceList.Mirror.{notify_update-list}
use djmount.DeviceList.Mirror.Changes.{IsMirrored}
use djmount.DeviceList.Steps.{add_create-IsOutside}
use djmount.DeviceList.Table.{
  device_of, Table, erase, put, round, device_of_absent, device_of-around, remove_device-erase,
  verify_nodes-round,
}

-- The operations that change the list.
pub data Call : Type 0 where
  adds : Bytes → Option Bytes → ℤ → Call
  removes : Bytes → Call
  verifies : ℕ → Call
  clears : Call

-- The device that a table has for an identifier gets the new expiration. If it has none, nothing changes where
-- no device could be made, and else the device that was made is there with that identifier and expiration.
abbrev pub IsAdded : Bytes → ℤ → Option ℕ → Table → Table → Type 0
IsAdded id expires made t t' =
    ((n : DeviceNode) × (t id ≡ some n)
      × ((k : Bytes) → t' k ≡ put (record n { expires = expires }) t k))
    ⊎ ((t id ≡ none) × (made ≡ none) × ((k : Bytes) → t' k ≡ t k))
    ⊎ ((t id ≡ none)
        × ((n : DeviceNode) × (made ≡ some n.d)
            × (n.device_id ≡ id)
            × (n.expires ≡ expires)
            × ((k : Bytes) → t' k ≡ put n t k)))

-- What a call does to the table of the devices, where `made` is the device that is made for an identifier and a URL.
unfoldable pub TableStep : Call → (Bytes → Option Bytes → Option ℕ) → Table → Table → Type 0
TableStep (adds id url expires) made t t' = IsAdded id expires (made id url) t t'
TableStep (removes id) made t t' = (k : Bytes) → t' k ≡ erase id t k
TableStep (verifies incr) made t t' = (k : Bytes) → t' k ≡ round incr (t k)
TableStep clears made t t' = (k : Bytes) → t' k ≡ none

put_same : (n : DeviceNode) (t : Table) (k : Bytes) → n.device_id ≡ k → put n t k ≡ some n
put_same n t k e =
    let same : bytes_eq n.device_id k ≡ true =
      subst (λ i. bytes_eq n.device_id i ≡ true) e (bytes_eq_refl n.device_id) in
    rw same refl

put-put :
    (n : DeviceNode) (expires : ℤ) (t : Table) (k : Bytes)
    → put (record n { expires = expires }) (put n t) k ≡ put (record n { expires = expires }) t k
put-put n expires t k = ground arith

abbrev table : {W : Type 0} → State W → Table
table s = device_of s.global_device_list

module _ {W : Type 0} (o : Outside W) where
  unfoldable pub call : Call → State W → State W
  call (adds id url expires) s = add_device o id url expires s
  call (removes id) s = (remove_device o (some id) s).1
  call (verifies incr) s = verify_timeouts o incr s
  call clears s = remove_all o s

  add_insert-IsAdded :
      (id : Bytes) (expires : ℤ) (d : ℕ) (s : State W)
      → find_id id s.global_device_list ≡ none
      → IsAdded id expires (some d) (table s) (table (add_insert o id expires d s))
  unfolding add_insert get_device_list_node_from_id add_node
  add_insert-IsAdded id expires d s missing =
      let base = o.device_get_desc_doc_item d (codes "friendlyName") s.world in
      let (k, ge, le, named, first) = make_device_name_lem s.global_device_list base in
      let n : DeviceNode = record { device_id = id; d = d; name = _; expires = expires } in
      let added = record s {
        global_device_list = s.global_device_list ++ n ∷ [];
        world = o.device_subscribe_all_events d s.world;
      } in
      let none_there = find_id-none id s.global_device_list missing in
      let at : (k : Bytes) → device_of (s.global_device_list ++ n ∷ []) k ≡ put n (table s) k = λ k.
        subst (λ ns. device_of (s.global_device_list ++ n ∷ []) k ≡ put n (device_of ns) k)
          (append-nil s.global_device_list)
          (device_of-around s.global_device_list n [] k none_there) in
      rw (missing, named, add_insert)
        (inr (
          inr (
            device_of_absent id s.global_device_list none_there,
            (
              n,
              refl,
              refl,
              refl,
              λ k. ap (λ ns. device_of ns k) (notify_update-list device_added n added) ∙ at k,
            ),
          )))

  add_device-IsAdded :
      (id : Bytes) (url : Option Bytes) (expires : ℤ) (s : State W)
      → IsAdded id expires
          (add_create o id url s).0
          (table s)
          (table (add_device o id url expires s))
  unfolding add_device add_known get_device_list_node_from_id add_created
  add_device-IsAdded id url expires s = elim (Option-cases (find_id id s.global_device_list)) [
    | inr (p, found) ↦
        let (split, same, before) = find_id-some id s.global_device_list p found in
        let n' = record (p.item) { expires = expires } in
        let before' : All (λ y. y ≢ DeviceNode.device_id p.item) (ids p.before) =
          subst (λ i. All (λ y. y ≢ i) (ids p.before)) (sym same) before in
        let left = p.before ++ p.after in
        let here : table s id ≡ some p.item =
          ap (λ ns. device_of ns id) split
          ∙ device_of-around p.before p.item p.after id before'
          ∙ put_same p.item (device_of left) id same in
        let changed : (k : Bytes) → device_of (refreshed p expires) k ≡ put n' (table s) k = λ k.
          device_of-around p.before n' p.after k before'
          ∙ sym (put-put p.item expires (device_of left) k)
          ∙ ap (λ x. if bytes_eq n'.device_id k then some n' else x)
              (sym (device_of-around p.before p.item p.after k before'))
          ∙ ap (λ ns. put n' (device_of ns) k) (sym split) in
        rw (found, add_device, add_known) (inl (p.item, here, changed))
    | inl missing ↦
        let made = add_create o id url s in
        let same : made.1.global_device_list ≡ s.global_device_list =
          ap (λ s. State.global_device_list s) (add_create-IsOutside o id url s) in
        elim (Option-cases made.0) [
          | inl failed ↦
              rw (missing, add_device, add_known, failed, add_created)
                (inr (
                  inl (
                    device_of_absent id s.global_device_list
                        (find_id-none id s.global_device_list missing),
                    refl,
                    λ k. ap (λ ns. device_of ns k) same,
                  )))
          | inr (d, got) ↦
              let missing' : find_id id made.1.global_device_list ≡ none = rw same missing in
              let inserted = add_insert-IsAdded id expires d made.1 missing' in
              let inserted' =
                subst
                  (λ ns.
                    IsAdded id expires (some d) (device_of ns)
                      (table (add_insert o id expires d made.1)))
                  same inserted in
              rw (missing, add_device, add_known, got, add_created) inserted'
        ]
  ]

  -- Every operation changes the table of the devices, for a list whose identifiers differ, as the table
  -- itself says.
  pub call-TableStep :
      (c : Call) (s : State W)
      → IsMirrored s
      → TableStep c (λ id url. (add_create o id url s).0) (table s) (table (call c s))
  unfolding call TableStep verify_timeouts remove_all
  call-TableStep (adds id url expires) s h = add_device-IsAdded id url expires s
  call-TableStep (removes id) s h = remove_device-erase o id s h.0
  call-TableStep (verifies incr) s h = verify_nodes-round o incr s.global_device_list s h.0
  call-TableStep clears s h = λ k. refl
