-- ===== src/DeviceList/Table.antt =====
-- djmount/device_list.c: the list as a table from identifiers to nodes.
pub mod Calls
pub mod Callback
pub mod Expiry
pub mod Renewal
use djmount.Base.{
  ℕ, Bool, true, false, ◌≡◌, ◌≢◌, refl, sym, ap, ◌∙◌, subst, ◌⊎◌, inl, inr, List, [], ◌∷◌, ◌++◌,
  Option, none, some, arith,
}
use djmount.Base.Lists.{Bytes, bytes_eq, bytes_eq_sound, bytes_eq_refl, All}
use djmount.Base.Tests.{if◌then◌else◌, Bool-cases, Option-cases}
use djmount.Base.Int.{ℤ}
use djmount.Base.Distinct.{Distinct}
use djmount.Base.Text.{codes}
use djmount.DeviceList.{
  DeviceNode, State, Outside, Position, find_id, get_device_list_node_from_id, make_device_name,
  int_sub, at_most_neg, device_removed, upnp_e_success, upnp_e_invalid_device,
}
use djmount.DeviceList.Names.{names, bytes_ne, make_device_name_lem}
use djmount.DeviceList.Find.{ids, find_id-none, find_id-some}
use djmount.DeviceList.Changes.{
  list_del_node, refreshed, free_node, notify_update, remove_device, add_known, add_insert,
  add_node, verify_node, verify_nodes, verify_timeouts, kept,
}
use djmount.DeviceList.Mirror.{ids-at, Distinct-after, notify_update-list}

-- The node of an identifier.
abbrev pub device_of : List DeviceNode → Bytes → Option DeviceNode
device_of [] id = none
device_of (n ∷ ns) id = if bytes_eq n.device_id id then some n else device_of ns id

abbrev pub Table : Type 0
Table = Bytes → Option DeviceNode

-- A table without the node of an identifier.
abbrev pub erase : Bytes → Table → Table
erase id t k = if bytes_eq id k then none else t k

-- A table with one node more, or another one for its identifier.
abbrev pub put : DeviceNode → Table → Table
put n t k = if bytes_eq n.device_id k then some n else t k

-- One round of `VerifyTimeouts`: a device that has expired before is removed.
abbrev pub round : ℕ → Option DeviceNode → Option DeviceNode
round incr none = none
round incr (some n) =
    let e = int_sub n.expires incr in
    if at_most_neg e incr then none else some (record n { expires = e })

abbrev or_else {ℓ} : {A : Type ℓ} → Option A → Option A → Option A
or_else none y = y
or_else (some x) y = some x

pub device_of_absent :
    (id : Bytes) (ns : List DeviceNode) → All (λ y. y ≢ id) (ids ns) → device_of ns id ≡ none
device_of_absent id [] h = refl
device_of_absent id (n ∷ ns) h = elim (Bool-cases (bytes_eq n.device_id id)) [
  | inl same ↦ absurd (h.0 (bytes_eq_sound n.device_id id same))
  | inr other ↦ rw other (device_of_absent id ns h.1)
]

pub device_of-append :
    (a b : List DeviceNode) (k : Bytes)
    → device_of (a ++ b) k ≡ or_else (device_of a k) (device_of b k)
device_of-append [] b k = refl
device_of-append (n ∷ a) b k = elim (Bool-cases (bytes_eq n.device_id k)) [
  | inl same ↦ rw same refl
  | inr other ↦ rw other (device_of-append a b k)
]

-- The list around a node, as a table.
pub device_of-around :
    (b : List DeviceNode) (n : DeviceNode) (a : List DeviceNode) (k : Bytes)
    → All (λ y. y ≢ n.device_id) (ids b)
    → device_of (b ++ n ∷ a) k ≡ put n (device_of (b ++ a)) k
device_of-around b n a k h = elim (Bool-cases (bytes_eq n.device_id k)) [
  | inl same ↦
      let e : n.device_id ≡ k = bytes_eq_sound n.device_id k same in
      let absent : device_of b k ≡ none =
        subst (λ i. device_of b i ≡ none) e (device_of_absent n.device_id b h) in
      rw (device_of-append b (n ∷ a) k, same, absent) refl
  | inr other ↦ rw (other, device_of-append b (n ∷ a) k, other, device_of-append b a k) refl
]

erase_absent : (id : Bytes) (t : Table) (k : Bytes) → t id ≡ none → t k ≡ erase id t k
erase_absent id t k h = elim (Bool-cases (bytes_eq id k)) [
  | inl same ↦ rw same (subst (λ i. t i ≡ none) (bytes_eq_sound id k same) h)
  | inr other ↦ rw other refl
]

-- Without its node, an identifier is not in the table.
device_of-deleted :
    (b : List DeviceNode) (n : DeviceNode) (a : List DeviceNode) (k : Bytes)
    → Distinct (ids (b ++ n ∷ a))
    → All (λ y. y ≢ n.device_id) (ids b)
    → device_of (b ++ a) k ≡ erase n.device_id (device_of (b ++ n ∷ a)) k
device_of-deleted b n a k d h = elim (Bool-cases (bytes_eq n.device_id k)) [
  | inl same ↦
      let e : n.device_id ≡ k = bytes_eq_sound n.device_id k same in
      let absent : device_of b n.device_id ≡ none = device_of_absent n.device_id b h in
      let absent' : device_of a n.device_id ≡ none =
        device_of_absent n.device_id a
          (Distinct-after (ids b) n.device_id (ids a) (subst Distinct (ids-at b n a) d)) in
      let gone : device_of (b ++ a) n.device_id ≡ none = rw (device_of-append, absent) absent' in
      rw same (subst (λ i. device_of (b ++ a) i ≡ none) e gone)
  | inr other ↦ rw (other, device_of-append b a k, device_of-append b (n ∷ a) k, other) refl
]

module _ {W : Type 0} (o : Outside W) where
  -- `DeviceList_RemoveDevice` succeeds just where the identifier is in the table, and takes it out.
  pub remove_device-erase :
      (id : Bytes) (s : State W)
      → Distinct (ids s.global_device_list)
      → (k : Bytes)
      → device_of (remove_device o (some id) s).1.global_device_list k
        ≡ erase id (device_of s.global_device_list) k
  unfolding remove_device get_device_list_node_from_id free_node
  remove_device-erase id s d k = elim (Option-cases (find_id id s.global_device_list)) [
    | inl missing ↦
        let absent =
          device_of_absent id s.global_device_list (find_id-none id s.global_device_list missing) in
        rw (missing, remove_device) (erase_absent id (device_of s.global_device_list) k absent)
    | inr (p, found) ↦
        let (split, same, before) = find_id-some id s.global_device_list p found in
        let deleted = record s { global_device_list = list_del_node p } in
        let gone =
          device_of-deleted p.before p.item p.after k (subst (λ ns. Distinct (ids ns)) split d)
            (subst (λ i. All (λ y. y ≢ i) (ids p.before)) (sym same) before) in
        rw (found, remove_device)
          (ap (λ ns. device_of ns k) (notify_update-list device_removed p.item deleted)
            ∙ subst
                (λ i.
                  device_of (p.before ++ p.after) k ≡ erase i (device_of s.global_device_list) k)
                same
                (subst
                  (λ ns.
                    device_of (p.before ++ p.after) k
                    ≡ erase (DeviceNode.device_id p.item) (device_of ns) k)
                  (sym split) gone))
  ]

  verify_node-round :
      (incr : ℕ) (n : DeviceNode) (s : State W) → (verify_node o incr n s).0 ≡ round incr (some n)
  unfolding verify_node
  verify_node-round incr n s = ground arith

  device_of-kept :
      (incr : ℕ) (n : DeviceNode) (ns : List DeviceNode) (k : Bytes)
      → bytes_eq n.device_id k ≡ false
      → device_of (kept o (round incr (some n)) ns) k ≡ device_of ns k
  device_of-kept incr n ns k h = ground arith

  device_of-kept_same :
      (incr : ℕ) (n : DeviceNode) (ns : List DeviceNode) (k : Bytes)
      → bytes_eq n.device_id k ≡ true
      → device_of ns k ≡ none
      → device_of (kept o (round incr (some n)) ns) k ≡ round incr (some n)
  device_of-kept_same incr n ns k h h' = ground arith

  pub verify_nodes-round :
      (incr : ℕ) (ns : List DeviceNode) (s : State W)
      → Distinct (ids ns)
      → (k : Bytes) → device_of (verify_nodes o incr ns s).0 k ≡ round incr (device_of ns k)
  unfolding verify_nodes
  verify_nodes-round incr [] s d k = refl
  verify_nodes-round incr (n ∷ ns) s d k =
      let s' = (verify_node o incr n s).1 in
      let rest = verify_nodes-round incr ns s' d.1 k in
      elim (Bool-cases (bytes_eq n.device_id k)) [
        | inl same ↦
            let e : n.device_id ≡ k = bytes_eq_sound n.device_id k same in
            let absent : device_of ns k ≡ none =
              subst (λ i. device_of ns i ≡ none) e (device_of_absent n.device_id ns d.0) in
            rw (same, verify_node-round incr n s)
              (device_of-kept_same incr n (verify_nodes o incr ns s').0 k same
                (rest ∙ rw absent refl))
        | inr other ↦
            rw (other, verify_node-round incr n s)
              (device_of-kept incr n (verify_nodes o incr ns s').0 k other ∙ rest)
      ]
